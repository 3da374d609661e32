-- ===== src/RoundTripper/Idle.antt =====
-- roundtripper.go, CloseIdleConnections: which transports are called.
use httpkit.Prelude.{
  ◌≡◌, Bool, true, List, [], ◌∷◌, ◌++◌, String, some, Assoc, lookup, ◌==◌, Bool-cases, inl, inr,
  arith,
}
use httpkit.Http.{Url}
use httpkit.Pinner.{HpkpStorage}
use httpkit.Transport.{Transport}
use httpkit.TlsDial.{RoundTripper, Answers, Protocols}
use httpkit.RoundTripper.{
  round_trip, get_dial_tls_addr, round_trip_request, closers, close_idle_connections,
}
use httpkit.RoundTripper.Cases.{round_trip_request-RequestCase}
use httpkit.RoundTripper.Cache.{succeeded}
use httpkit.RoundTripper.Reach.{Reach, Keeps-Reach}

-- The transport is one of the list.
abbrev pub IsAmong : Transport → List Transport → Type 0
IsAmong t ts = (before after : List Transport) × (ts ≡ before ++ t ∷ after)

IsAmong-closers :
    (closes_idle : Transport → Bool) (k : String) (t : Transport) (m : Assoc Transport)
    → lookup k m ≡ some t
    → closes_idle t ≡ true
    → IsAmong t (closers closes_idle m)
unfolding lookup closers
IsAmong-closers f k t [] e c = cc
IsAmong-closers f k t ((j, v) ∷ m) e c = elim (Bool-cases (j == k)) [
  | inl same ↦
      let q = rw same at e in let w : v ≡ t = ground arith in ([], closers f m, ground arith)
  | inr other ↦
      let (xs, ys, q) = IsAmong-closers f k t m (rw other at e) c in
      elim (Bool-cases (f v)) [
        | inl closes ↦ (v ∷ xs, ys, ground arith)
        | inr keeps ↦ (xs, ys, ground arith)
      ]
]

module _ (h : HpkpStorage) (p : Protocols) (storage : h.Storage) where
  -- A transport with the method that a request was handed to is called by every later
  -- `CloseIdleConnections`.
  pub IsAmong-close_idle_connections :
      (rt rt' : RoundTripper) (answers : Answers) (u : Url) (t : Transport)
      (closes_idle : Transport → Bool)
      → (round_trip_request h p storage rt answers u).1 ≡ round_trip t
      → Reach h p storage (round_trip_request h p storage rt answers u).0 rt'
      → closes_idle t ≡ true
      → IsAmong t (close_idle_connections closes_idle rt')
  unfolding close_idle_connections
  IsAmong-close_idle_connections rt rt' answers u t closes_idle e r c =
      IsAmong-closers closes_idle (get_dial_tls_addr u) t rt'.cached_transports
        ((Keeps-Reach h p storage r).transports (get_dial_tls_addr u) t (
          succeeded h p storage rt answers u t _
            (round_trip_request-RequestCase h p storage rt answers u) e))
        c
