-- ===== src/RoundTripper/NoPanic.antt =====
-- roundtripper.go: the cases that RoundTrip and getTransport take for impossible, and the pins of
-- what is handed out.
use httpkit.Prelude.{
  ◌≡◌, ◌≢◌, inl, inr, true, String, Option, none, some, arith, lookup, is_some, [],
}
use httpkit.Http.{Url}
use httpkit.Pinner.{HpkpStorage, pin}
use httpkit.TlsDial.{RoundTripper, Answers, Protocols, Conn, conn, dial_tls}
use httpkit.TlsDial.Effects.{dial_tls-DialCase}
use httpkit.TlsDial.Invariant.{IsStashed, IsPinned, served_of_case, ready_of_case, conn_of_case}
use httpkit.RoundTripper.{Outcome, panic, use_transport, round_trip_request}
use httpkit.RoundTripper.Cases.{
  addr, first_dial, RequestCase, cached, plain, negotiated, unexpected, dial_error, bad_scheme,
  round_trip_request-RequestCase,
}
use httpkit.RoundTripper.Reach.{Reach, Keeps-Reach}

-- Nothing is cached yet.
abbrev pub IsNew : RoundTripper → Type 0
IsNew rt = (rt.cached_connections ≡ []) × (rt.cached_transports ≡ [])

module _ (h : HpkpStorage) (p : Protocols) (storage : h.Storage) where
  IsStashed-of_new : (rt : RoundTripper) → IsNew rt → IsStashed rt
  unfolding lookup
  IsStashed-of_new rt (e, _) a k = let k' = rw e at k in cc

  IsPinned-of_new : (rt : RoundTripper) → IsNew rt → IsPinned h p storage rt
  unfolding lookup
  IsPinned-of_new rt (e, _) a c k = let k' = rw e at k in cc

  module _ (rt : RoundTripper) (answers : Answers) (u : Url) (s : IsStashed rt) where
    pub not_served :
        (c : Conn)
        → lookup (addr h p storage rt answers u) rt.cached_transports ≡ none
        → (first_dial h p storage rt answers u).1 ≢ conn c
    not_served c missing e =
        elim (served_of_case h p storage rt answers "tcp" (addr h p storage rt answers u) _ c
          (dial_tls-DialCase h p storage rt answers "tcp" (addr h p storage rt answers u)) e) [
            | inl stashed ↦ let k = s (addr h p storage rt answers u) stashed in cc
            | inr k ↦ cc
          ]

    use_ready : (o : Option _) → is_some o ≡ true → use_transport o ≢ panic
    unfolding use_transport
    use_ready none k = λ e. cc
    use_ready (some t) k = λ e. cc

    not_panic : (r : RoundTripper × Outcome) → RequestCase h p storage rt answers u r → r.1 ≢ panic
    not_panic r (cached t _ e) k = ground arith
    not_panic r (plain _ _ e) k = ground arith
    not_panic r (negotiated _ _ q e) k =
        use_ready _
          (ready_of_case h p storage rt answers "tcp" (addr h p storage rt answers u) _
            (dial_tls-DialCase h p storage rt answers "tcp" (addr h p storage rt answers u)) q)
          (rw e at k)
    not_panic r (unexpected c missing _ q e) k = not_served c missing q
    not_panic r (dial_error _ _ _ _ _ e) k = ground arith
    not_panic r (bad_scheme _ _ _ e) k = ground arith

  -- A round tripper never panics, whatever requests and dials came before, in whatever order:
  -- `dialTLS` returns no connection while the transport is being determined, and a transport is
  -- cached when it is taken from the map.
  pub round_trip_request-ne-panic :
      (rt rt' : RoundTripper) (answers : Answers) (u : Url)
      → IsNew rt
      → Reach h p storage rt rt'
      → (round_trip_request h p storage rt' answers u).1 ≢ panic
  round_trip_request-ne-panic rt rt' answers u new r =
      not_panic rt' answers u ((Keeps-Reach h p storage r).stashed (IsStashed-of_new rt new)) _
        (round_trip_request-RequestCase h p storage rt' answers u)

  -- While the storage of pins does not change, `dialTLS` hands out only connections that have
  -- passed the pins of the round tripper, also those that were stashed by an earlier call.
  pub dial_tls-pinned :
      (rt rt' : RoundTripper) (answers : Answers) (network a : String) (c : Conn)
      → IsNew rt
      → Reach h p storage rt rt'
      → (dial_tls h p storage rt' answers network a).1 ≡ conn c
      → pin h storage rt.certificate_pins c.config.server_name c.connection_state.peer_fingerprints
        ≡ none
  dial_tls-pinned rt rt' answers network a c new r e =
      let k = Keeps-Reach h p storage r in
      rw (← k.pins) (
        conn_of_case h p storage rt' answers network a _ c
          (dial_tls-DialCase h p storage rt' answers network a) (k.pinned (IsPinned-of_new rt new))
          e)
