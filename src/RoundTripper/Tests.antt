-- ===== src/RoundTripper/Tests.antt =====
-- roundtripper.go at a concrete client: the theorems' instances, and runs.
use httpkit.Prelude.{
  ◌≡◌, ◌≢◌, refl, sym, String, List, [], ◌∷◌, none, true, false, lookup, put, Assoc,
}
use httpkit.Text.{to_lower, split_host_port, NoBrackets}
use httpkit.Http.{Url}
use httpkit.Tls.{ClientHelloId}
use httpkit.Profiles.{ClientProfile}
use httpkit.Pinner.{HpkpHeader, init, pin}
use httpkit.Pinner.Sample.{mem_storage, has_pin}
use httpkit.Transport.{Transport, http1, http2, build_http1_transport, build_http2_transport}
use httpkit.TlsDial.{
  counting, RoundTripper, Answers, Protocols, Conn, conn, connected, dial_tls, u_client,
}
use httpkit.TlsDial.Effects.{asked}
use httpkit.RoundTripper.{
  get_transport, panic, round_trip, get_dial_tls_addr, round_trip_request, new_round_tripper,
}
use httpkit.RoundTripper.Reach.{here, next, request}
use httpkit.RoundTripper.NoPanic.{IsNew, round_trip_request-ne-panic, dial_tls-pinned}
use httpkit.RoundTripper.Cache.{round_trip_request_sticky, http_decides_https}

abbrev pub protocols : Protocols
protocols = record { next_proto_tls = "h2"; next_proto_h3 = "h3" }

abbrev pins : Assoc (List String)
pins = ("shop.com", "p1" ∷ []) ∷ []

abbrev hello : ClientHelloId
hello = record {
  client = "Chrome";
  version = "133";
  random_extension_order = false;
  spec_factory = none;
}

abbrev profile : ClientProfile
profile = record {
  client_hello_id = hello;
  header_priority = none;
  settings = none;
  priorities = [];
  pseudo_header_order = none;
  settings_order = [];
  connection_flow = 15663105;
}

abbrev made : Assoc HpkpHeader × RoundTripper
made =
    new_round_tripper (λ _. none) (λ id. id.spec_factory) mem_storage [] 7 profile none "" false
      false false pins true false false counting

abbrev pub stored_pins : Assoc HpkpHeader
stored_pins = made.0

abbrev pub rt0 : RoundTripper
rt0 = made.1

abbrev pub answers : Answers
answers = record {
  dial = connected 5;
  handshake_error = none;
  connection_state = record { peer_fingerprints = "p1" ∷ []; negotiated_protocol = "h2" };
  get_t1 = none;
  range = λ keys. keys;
}

abbrev pub https_url : Url
https_url = record { scheme = "HTTPS"; host = "shop.com" }

abbrev pub http_url : Url
http_url = record { scheme = "http"; host = "shop.com:443" }

pub rt0-IsNew : IsNew rt0
unfolding new_round_tripper
rt0-IsNew = (refl, refl)

abbrev pub rt1 : RoundTripper
rt1 = (round_trip_request mem_storage protocols stored_pins rt0 answers https_url).0

abbrev h2 : Transport
h2 = http2 (build_http2_transport (λ keys. keys) none rt0.config)

first_request :
    (round_trip_request mem_storage protocols stored_pins rt0 answers https_url).1 ≡ round_trip h2
unfolding round_trip_request get_transport dial_tls new_round_tripper init pin has_pin lookup put
    to_lower get_dial_tls_addr
first_request = refl

round_trip_request-ne-panic_example :
    (round_trip_request mem_storage protocols stored_pins rt1 answers https_url).1 ≢ panic
round_trip_request-ne-panic_example =
    round_trip_request-ne-panic mem_storage protocols stored_pins rt0 rt1 answers https_url
      rt0-IsNew (next here (request answers https_url))

abbrev pub stashed : Conn
stashed = u_client (asked rt0 "tcp" "shop.com:443") answers 5 "shop.com:443"

second_dial :
    (dial_tls mem_storage protocols stored_pins rt1 answers "tcp" "shop.com:443").1 ≡ conn stashed
unfolding round_trip_request get_transport dial_tls new_round_tripper init pin has_pin lookup put
    to_lower get_dial_tls_addr
second_dial = refl

dial_tls-pinned_example :
    pin mem_storage stored_pins rt0.certificate_pins stashed.config.server_name
      stashed.connection_state.peer_fingerprints
    ≡ none
dial_tls-pinned_example =
    dial_tls-pinned mem_storage protocols stored_pins rt0 rt1 answers "tcp" "shop.com:443" stashed
      rt0-IsNew (next here (request answers https_url)) second_dial

-- The peer has another certificate.
abbrev unpinned : Answers
unpinned = record answers {
  connection_state = record { peer_fingerprints = "p9" ∷ []; negotiated_protocol = "h2" };
}

same_addr : get_dial_tls_addr http_url ≡ get_dial_tls_addr https_url
unfolding get_dial_tls_addr
same_addr = refl

round_trip_request_sticky_example :
    round_trip_request mem_storage protocols stored_pins rt1 answers http_url ≡ (rt1, round_trip h2)
round_trip_request_sticky_example =
    round_trip_request_sticky mem_storage protocols stored_pins rt0 rt1 answers answers https_url
      http_url h2 first_request here same_addr

pub nothing_cached : lookup (get_dial_tls_addr http_url) rt0.cached_transports ≡ none
unfolding new_round_tripper lookup
nothing_cached = refl

pub is_http : to_lower http_url.scheme ≡ "http"
unfolding to_lower
is_http = refl

is_https : to_lower https_url.scheme ≡ "https"
unfolding to_lower
is_https = refl

abbrev rt2 : RoundTripper
rt2 = (round_trip_request mem_storage protocols stored_pins rt0 answers http_url).0

http_decides_https_example :
    round_trip_request mem_storage protocols stored_pins rt2 answers https_url
    ≡ (rt2, round_trip (http1 (build_http1_transport rt0.config)))
http_decides_https_example =
    http_decides_https mem_storage protocols stored_pins rt0 rt2 answers answers http_url https_url
      nothing_cached is_http here (sym same_addr) is_https

bare : (NoBrackets "a.b") × (split_host_port "a.b" ≡ none)
unfolding split_host_port
bare = ((refl, refl), refl)
