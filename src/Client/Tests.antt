-- ===== src/Client/Tests.antt =====
-- client.go at a concrete client: the theorems' instances, and runs.
use httpkit.Prelude.{◌≡◌, refl, ℕ, String, [], ◌∷◌, map, Option, none, some, true, false, lookup}
use httpkit.Text.{to_lower}
use httpkit.Tls.{ClientHelloId}
use httpkit.Profiles.{ClientProfile}
use httpkit.Pinner.Sample.{mem_storage}
use httpkit.TlsDial.{nope}
use httpkit.Connect.{
  Header, direct, parse_failed, made, refused, new_direct_dialer, new_connect_dialer,
}
use httpkit.ClientOptions.{HttpClientConfig}
use httpkit.Client.{
  HttpClient, Request, initial_config, choose_logger, build_redirect, with_proxy,
  set_follow_redirect,
}
use httpkit.Client.Send.{
  Exchange, DebugAnswers, blocked, recovered, response, returns, made_request, NewRequest,
  do_request, order_of,
}
use httpkit.Client.Headers.{with_defaults, do_request-header, do_request_blocks}
use httpkit.Client.Proxy.{
  Externals, choose_dialer, transport_of, set_proxy, do_with_proxy, build_from_config, created,
  new_http_client,
}
use httpkit.Client.SetProxy.{dialer_of, renewed, SetProxyCase, set_proxy-SetProxyCase}
use httpkit.Client.DoWithProxy.{Has, do_with_proxy-Has, do_with_proxy_swallows}
use httpkit.Client.Direct.{set_proxy_loses_dialer}
use httpkit.ClientOptions.{
  duration, second, with_timeout_seconds, with_timeout_milliseconds, apply_option,
}
use httpkit.Client.Send.{sent_result}
use httpkit.Prelude.{if◌then◌else◌, ◌==◌}
use httpkit.ClientOptions.Timeouts.{timeout_after, with_timeout_exact}
use httpkit.Prelude.{pos, negsuc, arith}
use httpkit.Prelude.{List}
use httpkit.Http.{Url, Cookie}
use httpkit.Jar.Refinement.{no_cookies, default-Implements}
use httpkit.Client.Default.{provide_default_client, provide_default_client-created}
use httpkit.Client.Cookies.{
  ClientCall, call_set_cookies, call_get_cookies, call_set_cookie_jar, call_set_proxy, Meets,
  AllOverwrite, run, default_client-Meets,
}
use httpkit.Client.Settled.{IsSettled}
use httpkit.Client.Reach.{here, next, follow, Reach-IsSettled}

abbrev hello : ClientHelloId
hello = record {
  client = "Firefox";
  version = "133";
  random_extension_order = false;
  spec_factory = none;
}

abbrev profile : ClientProfile
profile = record {
  client_hello_id = hello;
  header_priority = none;
  settings = none;
  priorities = [];
  pseudo_header_order = none;
  settings_order = [];
  connection_flow = 12517377;
}

-- Every URL is malformed.
abbrev externals : Externals
externals = record {
  parse = λ _. none;
  encode = λ s. s;
  socks5 = λ _ _ _. none;
  utls_id_to_spec = λ _. none;
  to_spec = λ _. none;
  hpkp = mem_storage;
  session_cache = 1;
}

abbrev exchange : Exchange
exchange = λ _ _ j t _. ((j, t), response (record { status = 200; has_body = false }))

abbrev key : String
key = "Header-Order:"

abbrev config : HttpClientConfig
config = initial_config profile

abbrev client : HttpClient
client = record {
  logger = choose_logger none false;
  bandwidth_tracker = nope;
  config = record config { flow_id = "flow" };
  transport =
      (transport_of externals [] config nope
        (new_direct_dialer config.timeout config.local_addr config.dialer)).1;
  check_redirect = none;
  jar = none;
  timeout = config.timeout;
  header_locked = false;
}

abbrev req : Request
req = record { method = "GET"; url = "https://shop.com"; header = none; body = none }

abbrev no_debug : DebugAnswers
no_debug = record {
  read_request_body = none;
  dump_request = none;
  dump_response = none;
  read_response_body = none;
}

client_made : (new_http_client externals [] profile "flow" none []).1 ≡ created client
unfolding new_http_client build_from_config choose_dialer build_redirect
client_made = refl

client_built : (build_from_config externals [] none config "flow").1 ≡ created client
unfolding build_from_config choose_dialer build_redirect
client_built = refl

client_direct : dialer_of externals client.config ≡ made direct
unfolding choose_dialer
client_direct = refl

bad_refused : dialer_of externals (with_proxy client "bad").config ≡ refused parse_failed
unfolding choose_dialer new_connect_dialer
bad_refused = refl

client_returns :
    returns (do_with_proxy externals key exchange [] client req no_debug "bad").1 ≡ true
unfolding do_with_proxy set_proxy choose_dialer new_connect_dialer do_request returns
client_returns = refl

set_proxy-SetProxyCase_example :
    SetProxyCase externals [] client "bad" (set_proxy externals [] client "bad")
set_proxy-SetProxyCase_example = set_proxy-SetProxyCase externals [] client "bad"

do_with_proxy-Has_example :
    Has externals key exchange client.config direct
      (do_with_proxy externals key exchange [] client req no_debug "bad").0.1
do_with_proxy-Has_example =
    do_with_proxy-Has externals key exchange [] client req no_debug "bad" direct client_direct
      client_returns

do_with_proxy_swallows_example :
    (do_with_proxy externals key exchange [] client req no_debug "bad").1
    ≡ (do_request key exchange (renewed externals [] client direct).1 req no_debug).result
do_with_proxy_swallows_example =
    do_with_proxy_swallows externals key exchange [] client req no_debug "bad" direct parse_failed
      client_direct bad_refused

set_proxy_loses_dialer_example :
    (client.transport.dialer ≡ new_direct_dialer config.timeout config.local_addr config.dialer)
    × ((set_proxy externals [] client "").0.1.transport.dialer ≡ direct)
set_proxy_loses_dialer_example =
    set_proxy_loses_dialer externals [] [] none config "flow" client client_built refl refl

Reach-IsSettled_example : IsSettled (set_follow_redirect client false)
Reach-IsSettled_example =
    Reach-IsSettled externals key exchange [] profile "flow" none [] client
      (set_follow_redirect client false) client_made (next {s = []} here (follow false))

abbrev base : Header
base = (key, "Accept" ∷ "User-Agent" ∷ []) ∷ ("Accept", "*" ∷ []) ∷ []

abbrev own_header : Request
own_header = record req { header = some base }

do_request-header_example :
    (h : Header) × ((k : String)
      → lookup k h
        ≡ (if key == k then some (map to_lower (order_of (lookup key base))) else lookup k base))
    × (let sent : Request = record own_header { header = some h } in
        let out = exchange none client.timeout none client.transport sent in
        do_request key exchange client own_header no_debug ≡ record {
          client = record client { jar = out.0.0; transport = out.0.1 };
          request = sent;
          result = sent_result client.config no_debug out.1;
        })
do_request-header_example =
    do_request-header key exchange client own_header no_debug base refl refl refl

order_lowered : map to_lower (order_of (lookup key base)) ≡ "accept" ∷ "user-agent" ∷ []
unfolding to_lower lookup
order_lowered = refl

do_request_blocks_example :
    ((do_request key exchange (with_defaults client none) req no_debug).result ≡ recovered false)
    × ((do_request key exchange
          (do_request key exchange (with_defaults client none) req no_debug).client
          req
          no_debug).result
        ≡ blocked)
do_request_blocks_example =
    do_request_blocks key exchange (with_defaults client none) req req no_debug no_debug refl refl
      refl

abbrev new_request : String → String → Option ℕ → NewRequest
new_request = λ m u b. made_request (record { method = m; url = u; header = some []; body = b })

with_timeout_exact_example :
    (timeout_after (with_timeout_seconds (pos 30)) config ≡ pos 30000000000)
    × (timeout_after (with_timeout_seconds (negsuc 4)) config ≡ negsuc 4999999999)
    × (timeout_after (with_timeout_milliseconds (pos 30)) config ≡ pos 30000000)
    × (timeout_after (with_timeout_milliseconds (negsuc 4)) config ≡ negsuc 4999999)
    × (apply_option (with_timeout_seconds (pos 7)) config
        ≡ apply_option (with_timeout_milliseconds (pos 7000)) config)
with_timeout_exact_example = with_timeout_exact config 30 4 7 (omega arith) (omega arith)

-- More seconds than an int64 of nanoseconds holds make a negative timeout.
duration_wraps : duration second (pos 9223372037) ≡ negsuc 9223372036709551615
unfolding duration
duration_wraps = refl

abbrev shop : Url
shop = record { scheme = "https"; host = "www.shop.com" }

abbrev cookie : Cookie
cookie = record { name = "id"; value = "7"; max_age = pos 60 }

-- A cookie is set and read, before and after the jar is replaced.
abbrev cookie_calls : List ClientCall
cookie_calls =
    call_set_cookies shop (cookie ∷ [])
    ∷ call_set_proxy "http://bad"
    ∷ call_get_cookies shop
    ∷ call_set_cookie_jar []
    ∷ call_get_cookies shop
    ∷ []

abbrev default_client : HttpClient
default_client = (provide_default_client-created externals [] profile "flow" none).0

new_jar_overwrites : AllOverwrite cookie_calls
unfolding AllOverwrite
new_jar_overwrites = (default-Implements.overwrites, tt)

default_client-Meets_example : Meets false no_cookies cookie_calls (
    run externals
      (provide_default_client externals [] profile "flow" none).0
      default_client
      cookie_calls)
default_client-Meets_example =
    default_client-Meets externals [] profile "flow" none default_client cookie_calls
      (provide_default_client-created externals [] profile "flow" none).1 new_jar_overwrites
