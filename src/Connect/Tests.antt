-- ===== src/Connect/Tests.antt =====
-- connect.go at a concrete proxy: the theorems' instances, and runs.
use httpkit.Prelude.{◌≡◌, ◌≢◌, refl, pos, [], ◌∷◌, none, some, true, lookup, or_else}
use httpkit.Connect.{Header, NetDialer, ProxyUrl, ConnectDialer, panic, new_connect_dialer}
use httpkit.Connect.Tunnel.{Answers, broken, status, connected, request_header, dial_context}
use httpkit.Connect.Open.{open_after, taken_up, is_over, dial_context-open}
use httpkit.Connect.Request.{lookup-request_header}
use httpkit.Connect.Schemes.{new_connect_dialer-ne-panic}

abbrev net_dialer : NetDialer
net_dialer = record { timeout = pos 30; local_addr = none; rest = 0 }

abbrev proxy : ProxyUrl
proxy = record {
  scheme = "https";
  host = "proxy:443";
  port = "443";
  hostname = "proxy";
  user = some (record { username = "root"; password = some "x" });
}

abbrev defaults : Header
defaults = ("User-Agent", "a" ∷ []) ∷ ("Accept", "b" ∷ []) ∷ []

abbrev dialer : ConnectDialer
dialer = record {
  proxy_url = proxy;
  dialer = net_dialer;
  timeout = pos 30;
  default_header = some defaults;
  enable_h2_conn_reuse = true;
  cached_h2 = some (record { client_conn = 1; raw_conn = 2 });
}

-- The cached connection breaks, and a new one is made.
abbrev answers : Answers
answers = record {
  can_take_new_request = true;
  cached_reply = broken 9;
  dial = connected 3;
  tls_handshake = none;
  negotiated_protocol = "h2";
  set_deadline = none;
  write = none;
  new_client_conn = none;
  client_conn = 4;
  reply = status 200;
}

dial_context-open_example :
    open_after 3 (dial_context dialer answers).events (taken_up 3 dialer answers)
    ≡ is_over 3 (dial_context dialer answers).tunnel
dial_context-open_example = dial_context-open 3 dialer answers refl

new_tunnel : is_over 3 (dial_context dialer answers).tunnel ≡ true
unfolding dial_context is_over
new_tunnel = refl

lookup-request_header_example :
    lookup "Accept" (request_header dialer (some (("Accept", "c" ∷ []) ∷ [])))
    ≡ or_else (lookup "Accept" (("Accept", "c" ∷ []) ∷ [])) (lookup "Accept" defaults)
lookup-request_header_example =
    lookup-request_header dialer (some (("Accept", "c" ∷ []) ∷ [])) "Accept"

some-defaults : some defaults ≢ none
some-defaults = λ e. cc

new_connect_dialer-ne-panic_example :
    new_connect_dialer
      (λ _. some proxy)
      (λ s. s)
      (λ _ _ _. none)
      "https://root:x@proxy"
      (pos 30)
      none
      net_dialer
      (some defaults)
    ≢ panic
new_connect_dialer-ne-panic_example =
    new_connect_dialer-ne-panic (λ _. some proxy) (λ s. s) (λ _ _ _. none) "https://root:x@proxy"
      (pos 30) none net_dialer (some defaults) some-defaults
