-- ===== src/RoundTripper/Cache.antt =====
-- roundtripper.go, RoundTrip: the transport of an address is chosen once.
use httpkit.Prelude.{◌≡◌, refl, ap, Option, none, some, arith, lookup, lookup-put, eq_refl}
use httpkit.Text.{to_lower}
use httpkit.Http.{Url}
use httpkit.Pinner.{HpkpStorage}
use httpkit.Transport.{Transport, http1, build_http1_transport}
use httpkit.TlsDial.{RoundTripper, Answers, Protocols}
use httpkit.RoundTripper.{Outcome, round_trip, get_dial_tls_addr, round_trip_request, use_transport}
use httpkit.RoundTripper.Cases.{
  RequestCase, cached, plain, negotiated, unexpected, dial_error, bad_scheme,
  round_trip_request-RequestCase,
}
use httpkit.RoundTripper.Reach.{Reach, Keeps-Reach}

module _ (h : HpkpStorage) (p : Protocols) (storage : h.Storage) where
  -- With a transport for its address, a request does nothing but use it.
  round_trip_request_of_cached :
      (rt : RoundTripper) (answers : Answers) (u : Url) (t : Transport)
      → lookup (get_dial_tls_addr u) rt.cached_transports ≡ some t
      → round_trip_request h p storage rt answers u ≡ (rt, round_trip t)
  unfolding round_trip_request
  round_trip_request_of_cached rt answers u t e = rw (e, round_trip_request) refl

  use_transport-inv :
      (o : Option Transport) (t : Transport) → use_transport o ≡ round_trip t → o ≡ some t
  unfolding use_transport
  use_transport-inv none t e = cc
  use_transport-inv (some x) t e = ground arith

  pub succeeded :
      (rt : RoundTripper) (answers : Answers) (u : Url) (t : Transport) (r : RoundTripper × Outcome)
      → RequestCase h p storage rt answers u r
      → r.1 ≡ round_trip t
      → lookup (get_dial_tls_addr u) r.0.cached_transports ≡ some t
  succeeded rt answers u t r (cached x found e) k = rw e (ground arith)
  succeeded rt answers u t r (plain _ _ e) k =
      let a = get_dial_tls_addr u in
      let x = http1 (build_http1_transport rt.config) in
      let same : x ≡ t = ground arith in
      rw e (rw (lookup-put a a x rt.cached_transports) (rw (eq_refl a) (ap some same)))
  succeeded rt answers u t r (negotiated _ _ _ e) k = rw e (use_transport-inv _ t (rw e at k))
  succeeded rt answers u t r (unexpected _ _ _ _ e) k = ground arith
  succeeded rt answers u t r (dial_error _ _ _ _ _ e) k = ground arith
  succeeded rt answers u t r (bad_scheme _ _ _ e) k = ground arith

  -- Once a request was handed to a transport, every later request for the same address is handed
  -- to the same one, with no dial and no other effect, whatever its scheme.
  pub round_trip_request_sticky :
      (rt rt' : RoundTripper) (answers answers' : Answers) (u v : Url) (t : Transport)
      → (round_trip_request h p storage rt answers u).1 ≡ round_trip t
      → Reach h p storage (round_trip_request h p storage rt answers u).0 rt'
      → get_dial_tls_addr v ≡ get_dial_tls_addr u
      → round_trip_request h p storage rt' answers' v ≡ (rt', round_trip t)
  round_trip_request_sticky rt rt' answers answers' u v t e r same =
      round_trip_request_of_cached rt' answers' v t (
        rw same (
          (Keeps-Reach h p storage r).transports (get_dial_tls_addr u) t (
            succeeded rt answers u t _ (round_trip_request-RequestCase h p storage rt answers u)
              e)))

  plain_first :
      (rt : RoundTripper) (answers : Answers) (u : Url) (r : RoundTripper × Outcome)
      → lookup (get_dial_tls_addr u) rt.cached_transports ≡ none
      → to_lower u.scheme ≡ "http"
      → RequestCase h p storage rt answers u r
      → r.1 ≡ round_trip (http1 (build_http1_transport rt.config))
  plain_first rt answers u r missing http (cached x found e) = cc
  plain_first rt answers u r missing http (plain _ _ e) = rw e refl
  plain_first rt answers u r missing http (negotiated _ s _ e) = let q = rw http at s in cc
  plain_first rt answers u r missing http (unexpected _ _ s _ e) = let q = rw http at s in cc
  plain_first rt answers u r missing http (dial_error _ _ s _ _ e) = let q = rw http at s in cc
  plain_first rt answers u r missing http (bad_scheme _ s _ e) = let q = rw http at s in cc

  -- So a first request over plain HTTP decides for HTTPS too: later HTTPS requests for the address
  -- go through the HTTP/1 transport, and ALPN is never asked.
  pub http_decides_https :
      (rt rt' : RoundTripper) (answers answers' : Answers) (u v : Url)
      → lookup (get_dial_tls_addr u) rt.cached_transports ≡ none
      → to_lower u.scheme ≡ "http"
      → Reach h p storage (round_trip_request h p storage rt answers u).0 rt'
      → get_dial_tls_addr v ≡ get_dial_tls_addr u
      → to_lower v.scheme ≡ "https"
      → round_trip_request h p storage rt' answers' v
        ≡ (rt', round_trip (http1 (build_http1_transport rt.config)))
  http_decides_https rt rt' answers answers' u v missing http r same https =
      round_trip_request_sticky rt rt' answers answers' u v
        (http1 (build_http1_transport rt.config))
        (plain_first rt answers u _ missing http
          (round_trip_request-RequestCase h p storage rt answers u))
        r same
