-- ===== src/TlsDial/Effects.antt =====
-- roundtripper.go, dialTLS: its cases, with what each needs and what it does.
use httpkit.Prelude.{
  ℕ, ◌≡◌, ◌++◌, [], ◌∷◌, refl, true, String, Option, none, some, lookup, put, remove, is_some,
  Option-cases, inl, inr,
}
use httpkit.Pinner.{HpkpStorage, PinError, pin}
use httpkit.TlsDial.{
  RoundTripper, Answers, Protocols, Conn, protocol_negotiated, bad_pin, dial_failed,
  handshake_failed, dial_context, closed, DialResult, conn, error, dial_tls, finish, check_pin,
  dial_tls_network, u_client, handshake, after_dial, Dialed, connected, refused, build_transport,
}

-- The round tripper once it asked its dialer for a connection.
abbrev pub asked : RoundTripper → String → String → RoundTripper
asked rt network addr = record rt {
  trace = rt.trace ++ dial_context (dial_tls_network rt.config network) addr ∷ [];
}

module _ (h : HpkpStorage) (p : Protocols) (storage : h.Storage) where
  abbrev pub pin_result : RoundTripper → Conn → Option PinError
  pin_result rt c =
      pin h storage rt.certificate_pins c.config.server_name c.connection_state.peer_fingerprints

  module _ (rt : RoundTripper) (answers : Answers) (network addr : String) where
    -- The connection over what the dialer returned.
    abbrev pub fresh : ℕ → Conn
    fresh n = u_client (asked rt network addr) answers n addr

    pub data DialCase (r : RoundTripper × DialResult) : Type 0 where
      -- The stashed connection is handed out, once.
      from_stash :
          (c : Conn)
          → lookup addr rt.cached_connections ≡ some c
          → r ≡ (record rt { cached_connections = remove addr rt.cached_connections }, conn c)
          → DialCase r
      no_connection :
          (e : ℕ)
          → lookup addr rt.cached_connections ≡ none
          → answers.dial ≡ refused e
          → r ≡ (asked rt network addr, error (dial_failed e))
          → DialCase r
      -- The handshake failed: the connection is closed.
      no_handshake :
          (n e : ℕ)
          → lookup addr rt.cached_connections ≡ none
          → answers.dial ≡ connected n
          → answers.handshake_error ≡ some e
          → r ≡ (
            record (asked rt network addr) {
              trace = (asked rt network addr).trace ++ closed (fresh n).raw ∷ [];
            },
            error (handshake_failed e),
          )
          → DialCase r
      -- The pins do not match: the connection is not closed.
      not_pinned :
          (n : ℕ) (e : PinError)
          → lookup addr rt.cached_connections ≡ none
          → answers.dial ≡ connected n
          → answers.handshake_error ≡ none
          → pin_result rt (fresh n) ≡ some e
          → r ≡ (asked rt network addr, error (bad_pin e))
          → DialCase r
      -- There is a transport for the address: the connection is for it.
      for_transport :
          (n : ℕ)
          → lookup addr rt.cached_connections ≡ none
          → answers.dial ≡ connected n
          → answers.handshake_error ≡ none
          → pin_result rt (fresh n) ≡ none
          → is_some (lookup addr rt.cached_transports) ≡ true
          → r ≡ (asked rt network addr, conn (fresh n))
          → DialCase r
      -- There is none: it is built for the negotiated protocol, and the connection is stashed.
      new_transport :
          (n : ℕ)
          → lookup addr rt.cached_connections ≡ none
          → answers.dial ≡ connected n
          → answers.handshake_error ≡ none
          → pin_result rt (fresh n) ≡ none
          → lookup addr rt.cached_transports ≡ none
          → r ≡ (
            record (asked rt network addr) {
              cached_transports =
                  put addr
                    (build_transport p answers rt.config
                      answers.connection_state.negotiated_protocol)
                    rt.cached_transports;
              cached_connections = put addr (fresh n) rt.cached_connections;
            },
            error protocol_negotiated,
          )
          → DialCase r

    finish-DialCase :
        (n : ℕ)
        → lookup addr rt.cached_connections ≡ none
        → answers.dial ≡ connected n
        → answers.handshake_error ≡ none
        → pin_result rt (fresh n) ≡ none
        → DialCase (finish h p storage (asked rt network addr) answers (fresh n) addr)
    unfolding finish u_client
    finish-DialCase n e d k g = elim (Option-cases (lookup addr rt.cached_transports)) [
      | inl absent ↦ new_transport n e d k g absent (rw absent refl)
      | inr (t, found) ↦ for_transport n e d k g (rw found refl) (rw found refl)
    ]

    check_pin-DialCase :
        (n : ℕ) (o : Option PinError)
        → lookup addr rt.cached_connections ≡ none
        → answers.dial ≡ connected n
        → answers.handshake_error ≡ none
        → pin_result rt (fresh n) ≡ o
        → DialCase (check_pin h p storage (asked rt network addr) answers (fresh n) addr o)
    unfolding check_pin
    check_pin-DialCase n none e d k g = finish-DialCase n e d k g
    check_pin-DialCase n (some failure) e d k g = not_pinned n failure e d k g refl

    handshake-DialCase :
        (n : ℕ) (o : Option ℕ)
        → lookup addr rt.cached_connections ≡ none
        → answers.dial ≡ connected n
        → answers.handshake_error ≡ o
        → DialCase (handshake h p storage (asked rt network addr) answers (fresh n) addr o)
    unfolding handshake
    handshake-DialCase n none e d k = check_pin-DialCase n _ e d k refl
    handshake-DialCase n (some failure) e d k = no_handshake n failure e d k refl

    after_dial-DialCase :
        (d : Dialed)
        → lookup addr rt.cached_connections ≡ none
        → answers.dial ≡ d
        → DialCase (after_dial h p storage (asked rt network addr) answers addr d)
    unfolding after_dial
    after_dial-DialCase (refused e) none_stashed d = no_connection e none_stashed d refl
    after_dial-DialCase (connected n) none_stashed d =
        handshake-DialCase n answers.handshake_error none_stashed d refl

    -- Every call of `dialTLS` is one of the six cases.
    pub dial_tls-DialCase : DialCase (dial_tls h p storage rt answers network addr)
    unfolding dial_tls
    dial_tls-DialCase = elim (Option-cases (lookup addr rt.cached_connections)) [
      | inr (c, found) ↦ from_stash c found (rw (found, dial_tls) refl)
      | inl none_stashed ↦
          rw (none_stashed, dial_tls) (after_dial-DialCase answers.dial none_stashed refl)
    ]
