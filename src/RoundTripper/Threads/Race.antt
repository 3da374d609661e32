-- ===== src/RoundTripper/Threads/Race.antt =====
-- roundtripper.go as threads: `cachedTransports` is read in `dialTLS` under a lock that its writer
-- in `getTransport` does not hold.
use httpkit.Prelude.{
  ℕ, ◌≡◌, refl, Bool, true, false, String, [], ◌∷◌, none, some, lookup, ◌++◌, ◌==◌,
}
use httpkit.Text.{to_lower}
use httpkit.Pinner.{HpkpStorage, pin}
use httpkit.Transport.{Transport}
use httpkit.TlsDial.{
  Protocols, RoundTripper, Answers, connected, dial_context, dial_tls_network, u_client,
}
use httpkit.RoundTripper.Threads.{
  Request, addr_of, with_rt, of_scheme, after_checking, after_looking, after_pin, after_handshake,
  after_connecting, Caller, transport, Shared, Pc, entering, checking, putting, dialing, looking,
  connecting, testing, building, move, here, there, Run, start, later,
}
use httpkit.RoundTripper.Threads.Alone.{free, held}

-- The next step of the thread writes, or reads, the map of transports.
abbrev pub writes_transports : Pc → Bool
writes_transports (putting r) = true
writes_transports (building _ _ _ _) = true
writes_transports _ = false

abbrev pub reads_transports : Pc → Bool
reads_transports (checking r) = true
reads_transports (testing _ _ _ _) = true
reads_transports _ = false

module _ (h : HpkpStorage) (pr : Protocols) (storage : h.Storage)
    (closes_idle : Transport → Bool) where
  chooses :
      (m : Shared) (r : Request)
      → lookup (addr_of r) m.rt.cached_transports ≡ none
      → (to_lower r.url.scheme == "http") ≡ true
      → move h pr storage closes_idle m (checking r) ≡ some (m, putting r)
  unfolding move after_checking of_scheme
  chooses m r missing http = rw missing (rw http refl)

  looks :
      (m : Shared) (caller : Caller) (answers : Answers) (network addr : String)
      → lookup addr m.rt.cached_connections ≡ none
      → move h pr storage closes_idle m (looking caller answers network addr)
        ≡ some (
          with_rt m (record m.rt {
            trace = m.rt.trace ++ dial_context (dial_tls_network m.rt.config network) addr ∷ [];
          }),
          connecting caller answers network addr,
        )
  unfolding move after_looking
  looks m caller answers network addr none_stashed = rw none_stashed refl

  connects :
      (m : Shared) (caller : Caller) (answers : Answers) (network addr : String) (n : ℕ)
      → answers.dial ≡ connected n
      → answers.handshake_error ≡ none
      → (let c = u_client m.rt answers n addr in
          pin h storage m.rt.certificate_pins c.config.server_name
            c.connection_state.peer_fingerprints
          ≡ none)
      → move h pr storage closes_idle m (connecting caller answers network addr)
        ≡ some (m, testing caller answers addr (u_client m.rt answers n addr))
  unfolding move after_connecting after_handshake after_pin pin u_client
  connects m caller answers network addr n dials shakes pins = rw dials (rw shakes (rw pins refl))

  -- A first request over plain HTTP and a transport's dial for which nothing is stashed, and which
  -- passes its handshake and its pins, can come to stand with the one about to write the map of
  -- transports and the other about to read it: a data race, whatever the two addresses are.
  pub Run-race :
      (rt : RoundTripper) (r : Request) (answers : Answers) (network addr : String) (n : ℕ)
      → lookup (addr_of r) rt.cached_transports ≡ none
      → (to_lower r.url.scheme == "http") ≡ true
      → lookup addr rt.cached_connections ≡ none
      → answers.dial ≡ connected n
      → answers.handshake_error ≡ none
      → (let c = u_client rt answers n addr in
          pin h storage rt.certificate_pins c.config.server_name
            c.connection_state.peer_fingerprints
          ≡ none)
      → (m : Shared) × (p q : Pc) × Run h pr storage closes_idle
          (free rt)
          (entering r ∷ dialing transport answers network addr ∷ [])
          m
          (p ∷ q ∷ [])
        × (writes_transports p ≡ true)
        × (reads_transports q ≡ true)
  unfolding move u_client
  Run-race rt r answers network addr n missing http none_stashed dials shakes pins =
      let both : Shared = record { rt = rt; transports_locked = true; locked = true } in
      let asked : Shared = with_rt both (record rt {
        trace = rt.trace ++ dial_context (dial_tls_network rt.config network) addr ∷ [];
      }) in
      (
        asked,
        putting r,
        testing transport answers addr (u_client rt answers n addr),
        later
            (later
              (later (later (later start (here refl)) (here (chooses (held rt) r missing http)))
                (there (here refl)))
              (there (here (looks both transport answers network addr none_stashed))))
            (there (here (connects asked transport answers network addr n dials shakes pins))),
        refl,
        refl,
      )
