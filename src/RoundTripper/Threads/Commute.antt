-- ===== src/RoundTripper/Threads/Commute.antt =====
-- roundtripper.go as threads: the dial of a transport and the assignment of another request
-- commute.
use httpkit.Prelude.{
  ℕ, ◌<◌, ◌≡◌, refl, Bool, true, inl, inr, String, Option, none, some, lookup, lookup-put,
  Option-cases, arith, ◌++◌, ◌∷◌, [],
}
use httpkit.Pinner.{HpkpStorage, PinError}
use httpkit.Transport.{Transport, http1, build_http1_transport}
use httpkit.TlsDial.{
  Protocols, RoundTripper, Answers, Conn, DialResult, conn, Dialed, connected, refused, u_client,
  finish, check_pin, handshake, after_dial, dial_tls, dial_context, dial_tls_network,
}
use httpkit.RoundTripper.Threads.{
  Request, addr_of, transport, Pc, looking, connecting, testing, building, stashing, unlocking,
}
use httpkit.RoundTripper.Threads.Locks.{in_dial, holds_transports}
use httpkit.RoundTripper.Threads.Facts.{has_transport, IsFine}
use httpkit.RoundTripper.Threads.Rest.{put_http, rest}

-- A computation does the same before and after the assignment, and leaves the transports alone.
abbrev pub Commutes : RoundTripper → Request → (RoundTripper → RoundTripper × DialResult) → Type 0
Commutes rt r f =
    ((f (put_http rt r)).0 ≡ put_http (f rt).0 r)
    × ((f (put_http rt r)).1 ≡ (f rt).1)
    × ((f rt).0.cached_transports ≡ rt.cached_transports)

module _ (h : HpkpStorage) (pr : Protocols) (storage : h.Storage) (closes_idle : Transport → Bool)
    (rt : RoundTripper) (r : Request) (addr : String) (answers : Answers)
    (cached : has_transport rt addr ≡ true) where
  still : has_transport (put_http rt r) addr ≡ true
  still = ground (
    arith,
    lookup-put (addr_of r) addr (http1 (build_http1_transport rt.config)) rt.cached_transports,
  )

  finish_of_cached :
      (s : RoundTripper) (c : Conn)
      → has_transport s addr ≡ true
      → finish h pr storage s answers c addr ≡ (s, conn c)
  unfolding finish
  finish_of_cached s c e = rw (e, finish) refl

  finish-Commutes : (c : Conn) → Commutes rt r (λ s. finish h pr storage s answers c addr)
  finish-Commutes c =
      let here = finish_of_cached rt c cached in
      let there = finish_of_cached (put_http rt r) c still in
      (rw there (rw here refl), rw there (rw here refl), rw here refl)

  pin-Commutes :
      (c : Conn) (e : Option PinError)
      → Commutes rt r (λ s. check_pin h pr storage s answers c addr e)
  unfolding check_pin
  pin-Commutes c none = finish-Commutes c
  pin-Commutes c (some e) = (refl, refl, refl)

  handshake-Commutes :
      (c : Conn) (e : Option ℕ) → Commutes rt r (λ s. handshake h pr storage s answers c addr e)
  unfolding handshake
  handshake-Commutes c none = pin-Commutes c _
  handshake-Commutes c (some e) = (refl, refl, refl)

  after_dial-Commutes : (d : Dialed) → Commutes rt r (λ s. after_dial h pr storage s answers addr d)
  unfolding after_dial u_client
  after_dial-Commutes (refused e) = (refl, refl, refl)
  after_dial-Commutes (connected n) =
      handshake-Commutes (u_client rt answers n addr) answers.handshake_error

module _ (h : HpkpStorage) (pr : Protocols) (storage : h.Storage) (closes_idle : Transport → Bool)
    (rt : RoundTripper) (r : Request) where
  dial_tls-Commutes :
      (answers : Answers) (network addr : String)
      → has_transport rt addr ≡ true
      → Commutes rt r (λ s. dial_tls h pr storage s answers network addr)
  unfolding dial_tls
  dial_tls-Commutes answers network addr cached =
      elim (Option-cases (lookup addr rt.cached_connections)) [
        | inr (c, found) ↦ rw (found, dial_tls) (refl, refl, refl)
        | inl missing ↦
            let asked : RoundTripper = record rt {
              trace = rt.trace ++ dial_context (dial_tls_network rt.config network) addr ∷ [];
            } in
            rw (missing, dial_tls)
              (after_dial-Commutes h pr storage closes_idle asked r addr answers cached
                answers.dial)
      ]

  -- What is left of a transport's dial commutes with the assignment of a request.
  pub rest-Commutes :
      (q : Pc)
      → IsFine rt q
      → 0 < in_dial q
      → holds_transports q ≡ 0
      → Commutes rt r (λ s. rest h pr storage closes_idle s q)
  unfolding rest
  rest-Commutes (looking transport answers network addr) f i n =
      dial_tls-Commutes answers network addr f
  rest-Commutes (connecting transport answers network addr) f i n =
      after_dial-Commutes h pr storage closes_idle rt r addr answers f answers.dial
  rest-Commutes (testing transport answers addr c) f i n =
      finish-Commutes h pr storage closes_idle rt r addr answers f c
  rest-Commutes (building transport answers addr c) f i n = elim f [ ]
  rest-Commutes (stashing transport answers addr c) f i n = elim f [ ]
  rest-Commutes (unlocking transport addr d) f i n = (refl, refl, refl)
  rest-Commutes q f i n = absurd (omega arith)
