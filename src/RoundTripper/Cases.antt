-- ===== src/RoundTripper/Cases.antt =====
-- roundtripper.go, RoundTrip: its cases, with what each needs and what it does.
use httpkit.Prelude.{
  ◌≡◌, ◌≢◌, refl, ap, true, false, String, none, some, lookup, lookup-put, eq_refl, put, ◌==◌, ◌&&◌,
  Bool-cases, Option-cases, inl, inr,
}
use httpkit.Text.{to_lower}
use httpkit.Http.{Url}
use httpkit.Pinner.{HpkpStorage}
use httpkit.Transport.{Transport, http1, build_http1_transport}
use httpkit.TlsDial.{
  RoundTripper, Answers, Protocols, Conn, Error, protocol_negotiated, invalid_url_scheme,
  DialResult, conn, error, dial_tls,
}
use httpkit.RoundTripper.{
  Outcome, round_trip, failed, panic, get_dial_tls_addr, of_dial, get_transport, use_transport,
  is_bad_pin, of_transport, round_trip_request,
}

module _ (h : HpkpStorage) (p : Protocols) (storage : h.Storage) (rt : RoundTripper)
    (answers : Answers) (u : Url) where
  abbrev pub addr : String
  addr = get_dial_tls_addr u

  -- The first TLS connection of an address.
  abbrev pub first_dial : RoundTripper × DialResult
  first_dial = dial_tls h p storage rt answers "tcp" addr

  pub data RequestCase (r : RoundTripper × Outcome) : Type 0 where
    cached :
        (t : Transport)
        → lookup addr rt.cached_transports ≡ some t
        → r ≡ (rt, round_trip t)
        → RequestCase r
    plain :
        lookup addr rt.cached_transports ≡ none
        → (to_lower u.scheme == "http") ≡ true
        → r ≡ (
          record rt {
            cached_transports =
                put addr (http1 (build_http1_transport rt.config)) rt.cached_transports;
          },
          round_trip (http1 (build_http1_transport rt.config)),
        )
        → RequestCase r
    negotiated :
        lookup addr rt.cached_transports ≡ none
        → (to_lower u.scheme == "https") ≡ true
        → first_dial.1 ≡ error protocol_negotiated
        → r ≡ (first_dial.0, use_transport (lookup addr first_dial.0.cached_transports))
        → RequestCase r
    unexpected :
        (c : Conn)
        → lookup addr rt.cached_transports ≡ none
        → (to_lower u.scheme == "https") ≡ true
        → first_dial.1 ≡ conn c
        → r ≡ (first_dial.0, panic)
        → RequestCase r
    dial_error :
        (e : Error)
        → lookup addr rt.cached_transports ≡ none
        → (to_lower u.scheme == "https") ≡ true
        → first_dial.1 ≡ error e
        → e ≢ protocol_negotiated
        → r ≡ (first_dial.0, failed e (is_bad_pin e && first_dial.0.has_bad_pin_handler))
        → RequestCase r
    bad_scheme :
        lookup addr rt.cached_transports ≡ none
        → (to_lower u.scheme == "http") ≡ false
        → (to_lower u.scheme == "https") ≡ false
        → r ≡ (rt, failed (invalid_url_scheme u.scheme) false)
        → RequestCase r

  module _ (missing : lookup addr rt.cached_transports ≡ none)
      (https : (to_lower u.scheme == "https") ≡ true) where
    of_first :
        (d : RoundTripper × DialResult)
        → first_dial ≡ d
        → RequestCase (of_transport h p storage addr (of_dial h p storage d))
    unfolding of_transport of_dial
    of_first (rt', conn c) e = unexpected c missing https (ap (λ d. d.1) e) (rw e refl)
    of_first (rt', error protocol_negotiated) e =
        negotiated missing https (ap (λ d. d.1) e) (rw e refl)
    of_first (rt', error x) e = dial_error x missing https (ap (λ d. d.1) e) (λ q. cc) (rw e refl)

  get_transport-RequestCase :
      lookup addr rt.cached_transports ≡ none
      → RequestCase (of_transport h p storage addr (get_transport h p storage rt answers u addr))
  unfolding get_transport of_transport
  get_transport-RequestCase missing = elim (Bool-cases (to_lower u.scheme == "http")) [
    | inl http ↦ rw http (
        plain missing http (
          rw (lookup-put addr addr (http1 (build_http1_transport rt.config)) rt.cached_transports)
            (rw (eq_refl addr) refl)))
    | inr n ↦ elim (Bool-cases (to_lower u.scheme == "https")) [
      | inl https ↦ rw n (rw https (of_first missing https first_dial refl))
      | inr m ↦ rw n (rw m (bad_scheme missing n m refl))
    ]
  ]

  -- Every call of `RoundTrip` is one of the six cases.
  pub round_trip_request-RequestCase : RequestCase (round_trip_request h p storage rt answers u)
  unfolding round_trip_request
  round_trip_request-RequestCase = elim (Option-cases (lookup addr rt.cached_transports)) [
    | inr (t, found) ↦ cached t found (rw (found, round_trip_request) refl)
    | inl missing ↦ rw (missing, round_trip_request) (get_transport-RequestCase missing)
  ]
