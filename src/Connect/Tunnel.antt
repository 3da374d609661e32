-- ===== src/Connect/Tunnel.antt =====
-- connect.go, connectDialer.DialContext: a CONNECT tunnel through the proxy, over HTTP/2 where it
-- can, and otherwise over HTTP/1. What the proxy and the network answer during one dial is an
-- argument; `Event` is what is done to connections, in order.
use httpkit.Prelude.{
  ℕ, Bool, String, List, [], ◌∷◌, ◌++◌, Option, none, some, put, eqb, ◌==◌, ◌||◌, if◌then◌else◌,
}
use httpkit.Connect.{Header, CachedConn, ConnectDialer}

-- The headers of the second map, then those of the first for other keys.
unfoldable pub merge_headers : Header → Header → Header
merge_headers [] base = base
merge_headers ((k, v) ∷ over) base = put k v (merge_headers over base)

abbrev pub header_or_empty : Option Header → Header
header_or_empty none = []
header_or_empty (some h) = h

-- The header of the CONNECT request: the dialer's defaults, and those of the context over them.
unfoldable pub request_header : ConnectDialer → Option Header → Header
unfolding merge_headers
request_header c ctx_header =
    merge_headers (header_or_empty ctx_header) (merge_headers (header_or_empty c.default_header) [])

pub data Event : Type 0 where
  dialed tls_dialed closed deadline_set deadline_cleared : ℕ → Event

pub data TunnelError : Type 0 where
  network : ℕ → TunnelError
  bad_status : ℕ → TunnelError
  unsupported_scheme unsupported_protocol : String → TunnelError

pub data Tunnel : Type 0 where
  http1_tunnel http2_tunnel : ℕ → Tunnel
  failed : TunnelError → Tunnel

-- The answer to a CONNECT request: an error, or a status.
pub data Reply : Type 0 where
  broken status : ℕ → Reply

-- A connection, or an error.
pub data Dialed : Type 0 where
  connected refused : ℕ → Dialed

pub record Answers : Type 0 where
  pub can_take_new_request : Bool
  pub cached_reply : Reply
  pub dial : Dialed
  pub tls_handshake : Option ℕ
  pub negotiated_protocol : String
  pub set_deadline : Option ℕ
  pub write : Option ℕ
  pub new_client_conn : Option ℕ
  pub client_conn : ℕ
  pub reply : Reply

-- connectHttp2: what it does to the connection, and its result.
unfoldable pub connect_http2 : ℕ → Reply → List Event × Tunnel
connect_http2 raw (broken e) = (closed raw ∷ [], failed (network e))
connect_http2 raw (status s) =
    if eqb s 200 then ([], http2_tunnel raw) else (closed raw ∷ [], failed (bad_status s))

unfoldable pub http1_reply : ℕ → Reply → List Event × Tunnel
http1_reply raw (broken e) = (closed raw ∷ [], failed (network e))
http1_reply raw (status s) =
    if eqb s 200
    then (deadline_cleared raw ∷ [], http1_tunnel raw)
    else (closed raw ∷ [], failed (bad_status s))

unfoldable pub http1_write : ℕ → Option ℕ → Reply → List Event × Tunnel
unfolding http1_reply
http1_write raw (some e) reply = (closed raw ∷ [], failed (network e))
http1_write raw none reply = http1_reply raw reply

-- Events in front of those of a result.
abbrev pub after_events : List Event → List Event × Tunnel → List Event × Tunnel
after_events before (events, t) = (before ++ events, t)

unfoldable pub http1_deadline : ℕ → Option ℕ → Option ℕ → Reply → List Event × Tunnel
unfolding http1_write
http1_deadline raw (some e) write reply = (closed raw ∷ [], failed (network e))
http1_deadline raw none write reply =
    after_events (deadline_set raw ∷ []) (http1_write raw write reply)

-- connectHttp1
unfoldable pub connect_http1 : ℕ → Answers → List Event × Tunnel
unfolding http1_deadline
connect_http1 raw a = http1_deadline raw a.set_deadline a.write a.reply

-- The state with what a dial does and returns.
pub record Dial : Type 0 where
  pub dialer : ConnectDialer
  pub events : List Event
  pub tunnel : Tunnel

abbrev pub unchanged : ConnectDialer → List Event × Tunnel → Dial
unchanged c (events, t) = record { dialer = c; events = events; tunnel = t }

-- The case "h2" once the request was answered: a failure closes the connection once more, a
-- success is cached.
unfoldable pub h2_answered : ConnectDialer → ℕ → Answers → List Event × Tunnel → Dial
h2_answered c raw a (events, failed e) = record {
  dialer = c;
  events = events ++ closed raw ∷ [];
  tunnel = failed e;
}
h2_answered c raw a (events, t) = record {
  dialer =
      if c.enable_h2_conn_reuse
      then record c { cached_h2 = some (record { client_conn = a.client_conn; raw_conn = raw }) }
      else c;
  events = events;
  tunnel = t;
}

unfoldable pub h2_new : ConnectDialer → ℕ → Answers → Option ℕ → Dial
unfolding connect_http2 h2_answered
h2_new c raw a (some e) = record {
  dialer = c;
  events = closed raw ∷ [];
  tunnel = failed (network e);
}
h2_new c raw a none = h2_answered c raw a (connect_http2 raw a.reply)

-- The switch on the negotiated protocol.
unfoldable pub over_protocol : ConnectDialer → Answers → ℕ → String → Dial
unfolding connect_http1 h2_new
over_protocol c a raw protocol =
    if protocol == "" || protocol == "http/1.1"
    then unchanged c (connect_http1 raw a)
    else if protocol == "h2"
    then h2_new c raw a a.new_client_conn
    else record {
      dialer = c;
      events = closed raw ∷ [];
      tunnel = failed (unsupported_protocol protocol);
    }

abbrev pub before : List Event → Dial → Dial
before events d = record d { events = events ++ d.events }

unfoldable pub http_proxy : ConnectDialer → Answers → Dialed → Dial
unfolding over_protocol
http_proxy c a (refused e) = record { dialer = c; events = []; tunnel = failed (network e) }
http_proxy c a (connected raw) = before (dialed raw ∷ []) (over_protocol c a raw "")

unfoldable pub https_handshake : ConnectDialer → Answers → ℕ → Option ℕ → Dial
unfolding over_protocol
https_handshake c a raw (some e) = record { dialer = c; events = []; tunnel = failed (network e) }
https_handshake c a raw none = over_protocol c a raw a.negotiated_protocol

unfoldable pub https_proxy : ConnectDialer → Answers → Dialed → Dial
unfolding https_handshake
https_proxy c a (refused e) = record { dialer = c; events = []; tunnel = failed (network e) }
https_proxy c a (connected raw) =
    before (tls_dialed raw ∷ []) (https_handshake c a raw a.tls_handshake)

-- A dial that makes a new connection to the proxy.
unfoldable pub new_connection : ConnectDialer → Answers → Dial
unfolding http_proxy https_proxy
new_connection c a =
    if c.proxy_url.scheme == "http"
    then http_proxy c a a.dial
    else if c.proxy_url.scheme == "https"
    then https_proxy c a a.dial
    else record { dialer = c; events = []; tunnel = failed (unsupported_scheme c.proxy_url.scheme) }

-- A failure over the cached connection is not reported: a new connection is tried.
unfoldable pub cached_answered : ConnectDialer → Answers → List Event × Tunnel → Dial
unfolding new_connection
cached_answered c a (events, failed e) = before events (new_connection c a)
cached_answered c a (events, t) = record { dialer = c; events = events; tunnel = t }

unfoldable pub from_cache : ConnectDialer → Answers → Option CachedConn → Dial
unfolding cached_answered connect_http2
from_cache c a none = new_connection c a
from_cache c a (some k) =
    if a.can_take_new_request
    then cached_answered c a (connect_http2 k.raw_conn a.cached_reply)
    else new_connection c a

-- DialContext
unfoldable pub dial_context : ConnectDialer → Answers → Dial
unfolding from_cache
dial_context c a = if c.enable_h2_conn_reuse then from_cache c a c.cached_h2 else new_connection c a
