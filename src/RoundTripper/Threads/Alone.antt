-- ===== src/RoundTripper/Threads/Alone.antt =====
-- roundtripper.go as threads: a thread that runs alone does what `dial_tls` and
-- `round_trip_request` say in one step.
use httpkit.Prelude.{
  ℕ, ◌≡◌, ◌≢◌, refl, subst, Bool, true, false, inl, inr, String, Option, none, some, lookup,
  is_some, ◌++◌, ◌∷◌, [], Bool-cases, Option-cases, if◌then◌else◌, ◌==◌,
}
use httpkit.Text.{to_lower}
use httpkit.Pinner.{HpkpStorage, PinError}
use httpkit.Transport.{Transport}
use httpkit.TlsDial.{
  Protocols, RoundTripper, Answers, Conn, DialResult, conn, error, protocol_negotiated, bad_pin,
  dial_failed, handshake_failed, invalid_url_scheme, Dialed, connected, refused, dial_context,
  dial_tls_network, finish, check_pin, handshake, after_dial, dial_tls,
}
use httpkit.TlsDial.Invariant.{IsStashed}
use httpkit.RoundTripper.{
  Outcome, round_trip, failed, panic, use_transport, of_dial, get_transport, of_transport,
  round_trip_request,
}
use httpkit.RoundTripper.NoPanic.{not_served}
use httpkit.RoundTripper.Threads.{
  Request, addr_of, with_rt, of_scheme, after_checking, after_pin, after_handshake,
  after_connecting, of_result, after_leaving, Caller, request, transport, Shared, Pc, entering,
  dialing, looking, connecting, testing, building, unlocking, returned, reading, leaving, finished,
  dialed_tls, move,
}

-- `cachedTransportsLck` is held, the other lock is free.
abbrev pub held : RoundTripper → Shared
held rt = record { rt = rt; transports_locked = true; locked = false }

-- Both locks are free.
abbrev pub free : RoundTripper → Shared
free rt = record { rt = rt; transports_locked = false; locked = false }

module _ (h : HpkpStorage) (pr : Protocols) (storage : h.Storage)
    (closes_idle : Transport → Bool) where
  -- Steps of one thread, with no other between them.
  pub data Alone (m : Shared) (p : Pc) : Shared → Pc → Type 0 where
    stop : Alone m p m p
    moves :
        {m' : Shared} {p' : Pc} {m'' : Shared} {p'' : Pc}
        → Alone m p m' p'
        → move h pr storage closes_idle m' p' ≡ some (m'', p'')
        → Alone m p m'' p''

  Alone-trans :
      {m : Shared} {p : Pc} {m' : Shared} {p' : Pc} {m'' : Shared} {p'' : Pc}
      → Alone m p m' p'
      → Alone m' p' m'' p''
      → Alone m p m'' p''
  Alone-trans r stop = r
  Alone-trans r (moves s e) = moves (Alone-trans r s) e

  module _ (m : Shared) (caller : Caller) (answers : Answers) (network addr : String) where
    -- Where the critical section of `dialTLS` ends, on what the big step returns.
    abbrev Ends : Shared × Pc → RoundTripper × DialResult → Type 0
    Ends r d = Alone r.0 r.1 (with_rt m d.0) (unlocking caller addr d.1)

    tested :
        (c : Conn) (b : Bool)
        → is_some (lookup addr m.rt.cached_transports) ≡ b
        → Alone m
            (testing caller answers addr c)
            m
            (if b then unlocking caller addr (conn c) else building caller answers addr c)
    unfolding move
    tested c b e = moves stop (rw e refl)

    finish-Ends :
        (c : Conn)
        → Ends (m, testing caller answers addr c) (finish h pr storage m.rt answers c addr)
    unfolding finish move
    finish-Ends c = elim (Bool-cases (is_some (lookup addr m.rt.cached_transports))) [
      | inl found ↦ rw found (tested c true found)
      | inr missing ↦
          rw missing (Alone-trans (tested c false missing) (moves (moves stop refl) refl))
    ]

    pin-Ends :
        (c : Conn) (e : Option PinError)
        → Ends
            (m, after_pin h pr storage closes_idle caller answers addr c e)
            (check_pin h pr storage m.rt answers c addr e)
    unfolding after_pin check_pin
    pin-Ends c none = finish-Ends c
    pin-Ends c (some e) = stop

    handshake-Ends :
        (c : Conn) (e : Option ℕ)
        → Ends
            (after_handshake h pr storage closes_idle m caller answers addr c e)
            (handshake h pr storage m.rt answers c addr e)
    unfolding after_handshake handshake
    handshake-Ends c none = pin-Ends c _
    handshake-Ends c (some e) = stop

    after_dial-Ends :
        (d : Dialed)
        → Ends
            (after_connecting h pr storage closes_idle m caller answers addr d)
            (after_dial h pr storage m.rt answers addr d)
    unfolding after_connecting after_dial
    after_dial-Ends (refused e) = stop
    after_dial-Ends (connected n) = handshake-Ends _ answers.handshake_error

  module _ (m : Shared) (caller : Caller) (answers : Answers) (network addr : String) where
    abbrev asked : Shared
    asked = with_rt m (record m.rt {
      trace = m.rt.trace ++ dial_context (dial_tls_network m.rt.config network) addr ∷ [];
    })

    connects :
        lookup addr m.rt.cached_connections ≡ none
        → Alone m
            (looking caller answers network addr)
            asked
            (connecting caller answers network addr)
    unfolding move
    connects missing = moves stop (rw missing refl)

    dial_tls-Ends :
        Ends m caller answers network addr
          (m, looking caller answers network addr)
          (dial_tls h pr storage m.rt answers network addr)
    unfolding dial_tls move
    dial_tls-Ends = elim (Option-cases (lookup addr m.rt.cached_connections)) [
      | inr (c, found) ↦ rw (found, dial_tls) (moves stop (rw found refl))
      | inl missing ↦
          rw (missing, dial_tls)
            (Alone-trans (moves (connects missing) refl)
              (after_dial-Ends asked caller answers network addr answers.dial))
    ]

  -- A transport's dial that runs alone does what `dial_tls` says.
  pub dial_tls-Alone :
      (rt : RoundTripper) (answers : Answers) (network addr : String)
      → let d = dial_tls h pr storage rt answers network addr in
        Alone (free rt) (dialing transport answers network addr) (free d.0) (dialed_tls d.1)
  unfolding move
  dial_tls-Alone rt answers network addr =
      moves
        (Alone-trans (moves stop refl) (
          dial_tls-Ends (record { rt = rt; transports_locked = false; locked = true }) transport
            answers network addr))
        refl

  -- What `RoundTrip` does once it has the transport, or an error.
  module _ (r : Request) (only : r.later ≡ none) where
    leaves :
        (rt : RoundTripper) (o : Outcome) → Alone (held rt) (leaving r o) (free rt) (finished o)
    unfolding move after_leaving
    leaves rt (round_trip t) = moves stop (rw only refl)
    leaves rt (failed e b) = moves stop refl
    leaves rt panic = moves stop refl

    reads :
        (rt : RoundTripper)
        → let o = use_transport (lookup (addr_of r) rt.cached_transports) in
          Alone (held rt) (reading r) (free rt) (finished o)
    unfolding move
    reads rt = Alone-trans (moves stop refl) (leaves rt _)

    returns :
        (d : RoundTripper × DialResult)
        → ((c : Conn) → d.1 ≢ conn c)
        → let x = of_transport h pr storage (addr_of r) (of_dial h pr storage d) in
          Alone (held d.0) (returned r d.1) (free x.0) (finished x.1)
    unfolding move of_result of_transport of_dial
    returns (rt, conn c) n = absurd (n c refl)
    returns (rt, error protocol_negotiated) n = Alone-trans (moves stop refl) (reads rt)
    returns (rt, error (bad_pin e)) n = Alone-trans (moves stop refl) (leaves rt _)
    returns (rt, error (dial_failed e)) n = Alone-trans (moves stop refl) (leaves rt _)
    returns (rt, error (handshake_failed e)) n = Alone-trans (moves stop refl) (leaves rt _)
    returns (rt, error (invalid_url_scheme e)) n = Alone-trans (moves stop refl) (leaves rt _)

    schemes :
        (rt : RoundTripper)
        → ((c : Conn) → (dial_tls h pr storage rt r.answers "tcp" (addr_of r)).1 ≢ conn c)
        → let x =
            of_transport h pr storage
              (addr_of r)
              (get_transport h pr storage rt r.answers r.url (addr_of r)) in
          Alone (held rt) (of_scheme r (to_lower r.url.scheme)) (free x.0) (finished x.1)
    unfolding move of_scheme get_transport of_transport
    schemes rt n = elim (Bool-cases (to_lower r.url.scheme == "http")) [
      | inl http ↦ rw http (Alone-trans (moves stop refl) (reads _))
      | inr other ↦ elim (Bool-cases (to_lower r.url.scheme == "https")) [
        | inl https ↦
            rw (other, https)
              (Alone-trans
                (moves
                  (Alone-trans (moves stop refl) (
                    dial_tls-Ends (record { rt = rt; transports_locked = true; locked = true })
                      (request r) r.answers "tcp" (addr_of r)))
                  refl)
                (returns (dial_tls h pr storage rt r.answers "tcp" (addr_of r)) n))
        | inr none_of_both ↦ rw (other, none_of_both) (leaves rt _)
      ]
    ]

    checks :
        (rt : RoundTripper) (o : Option Transport)
        → lookup (addr_of r) rt.cached_transports ≡ o
        → Alone (free rt) (entering r) (held rt) (after_checking r o)
    unfolding move
    checks rt o e = moves (moves stop refl) (rw e refl)

  -- A request that runs alone does what `round_trip_request` says, for which the locks and the
  -- single accesses are one step.
  pub round_trip_request-Alone :
      (rt : RoundTripper) (r : Request)
      → IsStashed rt
      → r.later ≡ none
      → let x = round_trip_request h pr storage rt r.answers r.url in
        Alone (free rt) (entering r) (free x.0) (finished x.1)
  unfolding round_trip_request after_checking use_transport
  round_trip_request-Alone rt r s only =
      elim (Option-cases (lookup (addr_of r) rt.cached_transports)) [
        | inr (t, found) ↦
            rw (found, round_trip_request)
              (Alone-trans (checks r only rt (some t) found) (
                subst {A = Option Transport}
                  (λ o. Alone (held rt) (reading r) (free rt) (finished (use_transport o))) found
                  (reads r only rt)))
        | inl missing ↦
            rw (missing, round_trip_request)
              (Alone-trans (checks r only rt none missing)
                (schemes r only rt (λ c. not_served h pr storage rt r.answers r.url s c missing)))
      ]
