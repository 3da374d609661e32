-- ===== src/TlsDial/Invariant.antt =====
-- roundtripper.go, dialTLS: what a call keeps of the caches and says of its connection.
use httpkit.Prelude.{
  ◌≡◌, ◌≢◌, ◌⊎◌, refl, true, String, none, some, arith, lookup, is_some, eq_iff, eq_refl,
  lookup-put, put-cases, lookup-remove, inl, inr,
}
use httpkit.Pinner.{HpkpStorage}
use httpkit.Transport.{Transport}
use httpkit.TlsDial.{
  RoundTripper, Answers, Protocols, Conn, Error, protocol_negotiated, DialResult, conn, error,
  build_transport,
}
use httpkit.TlsDial.Effects.{
  pin_result, fresh, DialCase, from_stash, no_connection, no_handshake, not_pinned, for_transport,
  new_transport,
}

-- Each stashed connection is for an address that has a transport.
abbrev pub IsStashed : RoundTripper → Type 0
IsStashed rt =
    (addr : String)
    → is_some (lookup addr rt.cached_connections) ≡ true
    → is_some (lookup addr rt.cached_transports) ≡ true

module _ (h : HpkpStorage) (p : Protocols) (storage : h.Storage) where
  -- Each stashed connection has passed the pins.
  abbrev pub IsPinned : RoundTripper → Type 0
  IsPinned rt =
      (addr : String) (c : Conn)
      → lookup addr rt.cached_connections ≡ some c
      → pin_result h p storage rt c ≡ none

  module _ (rt : RoundTripper) (answers : Answers) (network addr : String) where
    pub IsStashed-of_case :
        (r : RoundTripper × DialResult) (a : String)
        → DialCase h p storage rt answers network addr r
        → IsStashed rt
        → is_some (lookup a r.0.cached_connections) ≡ true
        → is_some (lookup a r.0.cached_transports) ≡ true
    IsStashed-of_case r a (from_stash c found e) s k =
        let k' = rw e at k in rw e (ground (arith, s a, lookup-remove addr a rt.cached_connections))
    IsStashed-of_case r a (no_connection _ none_stashed _ e) s k = rw e (s a (rw e at k))
    IsStashed-of_case r a (no_handshake _ _ none_stashed _ _ e) s k = rw e (s a (rw e at k))
    IsStashed-of_case r a (not_pinned _ _ none_stashed _ _ _ e) s k = rw e (s a (rw e at k))
    IsStashed-of_case r a (for_transport n none_stashed _ _ pins cached e) s k =
        rw e (s a (rw e at k))
    IsStashed-of_case r a (new_transport n none_stashed _ _ pins absent e) s k =
        let k' = rw e at k in
        rw e (
          ground (
            arith,
            s a,
            lookup-put addr a (fresh h p storage rt answers network addr n) rt.cached_connections,
            lookup-put addr a
                (build_transport p answers rt.config answers.connection_state.negotiated_protocol)
                rt.cached_transports,
          ))

    pub keeps_of_case :
        (r : RoundTripper × DialResult) (a : String) (t : Transport)
        → DialCase h p storage rt answers network addr r
        → lookup a rt.cached_transports ≡ some t
        → lookup a r.0.cached_transports ≡ some t
    keeps_of_case r a t (from_stash c found e) s = rw e s
    keeps_of_case r a t (no_connection _ none_stashed _ e) s = rw e s
    keeps_of_case r a t (no_handshake _ _ none_stashed _ _ e) s = rw e s
    keeps_of_case r a t (not_pinned _ _ none_stashed _ _ _ e) s = rw e s
    keeps_of_case r a t (for_transport n none_stashed _ _ pins cached e) s = rw e s
    keeps_of_case r a t (new_transport n none_stashed _ _ pins absent e) s = rw e (
        ground (
          arith,
          eq_iff addr a,
          lookup-put addr a
              (build_transport p answers rt.config answers.connection_state.negotiated_protocol)
              rt.cached_transports,
        ))

    pub IsPinned-of_case :
        (r : RoundTripper × DialResult) (a : String) (x : Conn)
        → DialCase h p storage rt answers network addr r
        → IsPinned rt
        → lookup a r.0.cached_connections ≡ some x
        → pin_result h p storage r.0 x ≡ none
    IsPinned-of_case r a x (from_stash c found e) s k =
        let k' = rw e at k in
        rw e (s a x (ground (arith, lookup-remove addr a rt.cached_connections)))
    IsPinned-of_case r a x (no_connection _ none_stashed _ e) s k = rw e (s a x (rw e at k))
    IsPinned-of_case r a x (no_handshake _ _ none_stashed _ _ e) s k = rw e (s a x (rw e at k))
    IsPinned-of_case r a x (not_pinned _ _ none_stashed _ _ _ e) s k = rw e (s a x (rw e at k))
    IsPinned-of_case r a x (for_transport n none_stashed _ _ pins cached e) s k =
        rw e (s a x (rw e at k))
    IsPinned-of_case r a x (new_transport n none_stashed _ _ pins absent e) s k =
        let k' = rw e at k in
        let both =
          put-cases addr a (fresh h p storage rt answers network addr n) x rt.cached_connections
            k' in
        rw e (elim both [ inl same ↦ rw same pins | inr old ↦ s a x old ])

    pub conn_of_case :
        (r : RoundTripper × DialResult) (x : Conn)
        → DialCase h p storage rt answers network addr r
        → IsPinned rt
        → r.1 ≡ conn x
        → pin_result h p storage rt x ≡ none
    conn_of_case r x (from_stash c found e) s k =
        let same : c ≡ x = ground arith in rw (← same) (s addr c found)
    conn_of_case r x (no_connection _ none_stashed _ e) s k = cc
    conn_of_case r x (no_handshake _ _ none_stashed _ _ e) s k = cc
    conn_of_case r x (not_pinned _ _ none_stashed _ _ _ e) s k = cc
    conn_of_case r x (for_transport n none_stashed _ _ pins cached e) s k =
        let same : fresh h p storage rt answers network addr n ≡ x = ground arith in
        rw (← same) pins
    conn_of_case r x (new_transport n none_stashed _ _ pins absent e) s k = cc

    -- A connection is returned only where one was stashed or a transport was cached.
    pub served_of_case :
        (r : RoundTripper × DialResult) (x : Conn)
        → DialCase h p storage rt answers network addr r
        → r.1 ≡ conn x
        → (is_some (lookup addr rt.cached_connections) ≡ true)
          ⊎ (is_some (lookup addr rt.cached_transports) ≡ true)
    served_of_case r x (from_stash c found e) k = inl (rw found refl)
    served_of_case r x (no_connection _ none_stashed _ e) k = cc
    served_of_case r x (no_handshake _ _ none_stashed _ _ e) k = cc
    served_of_case r x (not_pinned _ _ none_stashed _ _ _ e) k = cc
    served_of_case r x (for_transport n none_stashed _ _ pins cached e) k = inr cached
    served_of_case r x (new_transport n none_stashed _ _ pins absent e) k = cc

    -- After `errProtocolNegotiated` the address has a transport.
    pub ready_of_case :
        (r : RoundTripper × DialResult)
        → DialCase h p storage rt answers network addr r
        → r.1 ≡ error protocol_negotiated
        → is_some (lookup addr r.0.cached_transports) ≡ true
    ready_of_case r (from_stash c found e) k = cc
    ready_of_case r (no_connection _ none_stashed _ e) k = cc
    ready_of_case r (no_handshake _ _ none_stashed _ _ e) k = cc
    ready_of_case r (not_pinned _ _ none_stashed _ _ _ e) k = cc
    ready_of_case r (for_transport n none_stashed _ _ pins cached e) k = cc
    ready_of_case r (new_transport n none_stashed _ _ pins absent e) k = rw e (
        ground (
          arith,
          eq_refl addr,
          lookup-put addr addr
              (build_transport p answers rt.config answers.connection_state.negotiated_protocol)
              rt.cached_transports,
        ))

    -- A call changes neither the pins nor the configuration.
    pub config_of_case :
        (r : RoundTripper × DialResult)
        → DialCase h p storage rt answers network addr r
        → (r.0.config ≡ rt.config) × (r.0.certificate_pins ≡ rt.certificate_pins)
    config_of_case r (from_stash c found e) = rw e (refl, refl)
    config_of_case r (no_connection _ none_stashed _ e) = rw e (refl, refl)
    config_of_case r (no_handshake _ _ none_stashed _ _ e) = rw e (refl, refl)
    config_of_case r (not_pinned _ _ none_stashed _ _ _ e) = rw e (refl, refl)
    config_of_case r (for_transport n none_stashed _ _ pins cached e) = rw e (refl, refl)
    config_of_case r (new_transport n none_stashed _ _ pins absent e) = rw e (refl, refl)

    -- Any other error leaves both caches as they were.
    pub error_of_case :
        (r : RoundTripper × DialResult) (x : Error)
        → DialCase h p storage rt answers network addr r
        → r.1 ≡ error x
        → x ≢ protocol_negotiated
        → (r.0.cached_connections ≡ rt.cached_connections)
          × (r.0.cached_transports ≡ rt.cached_transports)
    error_of_case r x (from_stash c found e) k ne = cc
    error_of_case r x (no_connection _ none_stashed _ e) k ne = rw e (refl, refl)
    error_of_case r x (no_handshake _ _ none_stashed _ _ e) k ne = rw e (refl, refl)
    error_of_case r x (not_pinned _ _ none_stashed _ _ _ e) k ne = rw e (refl, refl)
    error_of_case r x (for_transport n none_stashed _ _ pins cached e) k ne = rw e (refl, refl)
    error_of_case r x (new_transport n none_stashed _ _ pins absent e) k ne =
        absurd (ne (ground arith))
