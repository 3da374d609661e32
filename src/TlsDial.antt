-- ===== src/TlsDial.antt =====
-- roundtripper.go: the state of a round tripper, and its dials. For each address it caches one
-- transport, found out by a first TLS connection whose negotiated protocol decides on the kind of
-- transport; that connection is stashed for the transport's first dial.
--
-- What the network answers during one call of `dialTLS` is an argument, `Answers`; the locks are
-- left out, so a call is one step. `trace` is what was done to connections, in order.
pub mod Effects
pub mod Invariant
pub mod Network
use httpkit.Prelude.{
  ℕ, Bool, true, ◌&&◌, String, List, [], ◌∷◌, ◌++◌, Option, none, some, Assoc, lookup, put, remove,
  is_some, ◌==◌, if◌then◌else◌,
}
use httpkit.Text.{split_host_port}
use httpkit.Tls.{ClientHelloId, SettingId}
use httpkit.Pinner.{HpkpStorage, PinError, pin}
use httpkit.Transport.{
  TlsConfig, InnerTransport, Transport, http1, http2, http3, TransportConfig, root_cas_of,
  key_log_writer_of, build_http1_transport, build_http2_transport, build_http3_transport,
}

-- bandwidth.BandwidthTracker: the counting tracker, or the one that does nothing.
pub data TrackerKind : Type 0 where
  counting nope : TrackerKind

-- tls.ConnectionState after a handshake: the fingerprints of the peer's certificates, and ALPN.
pub record ConnectionState : Type 0 where
  pub peer_fingerprints : List String
  pub negotiated_protocol : String

-- A dialled connection is known by a number; `tracked` wraps it in a BTConn.
pub data RawConn : Type 0 where
  dialed tracked : ℕ → RawConn

-- tls.UConn after its handshake.
pub record Conn : Type 0 where
  pub raw : RawConn
  pub config : TlsConfig
  pub client_hello_id : ClientHelloId
  pub random_extension_order : Bool
  pub force_http1 : Bool
  pub connection_state : ConnectionState

pub data Error : Type 0 where
  protocol_negotiated : Error
  bad_pin : PinError → Error
  dial_failed : ℕ → Error
  handshake_failed : ℕ → Error
  invalid_url_scheme : String → Error

pub data Event : Type 0 where
  dial_context : String → String → Event
  closed : RawConn → Event

pub record RoundTripper : Type 0 where
  pub client_hello_id : ClientHelloId
  pub certificate_pins : Assoc (List String)
  pub has_bad_pin_handler : Bool
  pub bandwidth_tracker : TrackerKind
  pub config : TransportConfig
  pub cached_connections : Assoc Conn
  pub cached_transports : Assoc Transport
  pub trace : List Event

-- Dialer.DialContext: a connection, or an error.
pub data Dialed : Type 0 where
  connected refused : ℕ → Dialed

-- What the network and the runtime answer: the dialer, the handshake (its error, if any), and the
-- names that are third-party constants or depend on third-party code.
pub record Answers : Type 0 where
  pub dial : Dialed
  pub handshake_error : Option ℕ
  pub connection_state : ConnectionState
  pub get_t1 : Option InnerTransport
  pub range : List SettingId → List SettingId

-- http2.NextProtoTLS and http3.NextProtoH3.
pub record Protocols : Type 0 where
  pub next_proto_tls : String
  pub next_proto_h3 : String

pub data DialResult : Type 0 where
  conn : Conn → DialResult
  error : Error → DialResult

-- The networks of `dial` and of `dialTLS`.
unfoldable pub dial_network : TransportConfig → String → String
dial_network c network = if network == "tcp" && c.disable_ipv6 then "tcp4" else network

unfoldable pub dial_tls_network : TransportConfig → String → String
unfolding dial_network
dial_tls_network c network =
    let n = dial_network c network in if n == "tcp" && c.disable_ipv4 then "tcp6" else n

-- `dial`, the callback of plain connections: what it does and returns.
unfoldable pub dial : RoundTripper → Dialed → String → String → RoundTripper × Dialed
unfolding dial_network
dial rt answer network addr = (
  record rt { trace = rt.trace ++ dial_context (dial_network rt.config network) addr ∷ [] },
  answer,
)

abbrev host_or : String → Option (String × String) → String
host_or addr none = addr
host_or addr (some (host, _)) = host

-- The server name of a connection.
unfoldable pub server_name : TransportConfig → String → String
unfolding split_host_port
server_name c addr =
    if c.server_name_overwrite == ""
    then host_or addr (split_host_port addr)
    else c.server_name_overwrite

unfoldable pub track_connection : TrackerKind → ℕ → RawConn
track_connection counting n = tracked n
track_connection nope n = dialed n

unfoldable pub u_client : RoundTripper → Answers → ℕ → String → Conn
unfolding server_name track_connection
u_client rt answers n addr = record {
  raw = track_connection rt.bandwidth_tracker n;
  config = record {
    client_session_cache = rt.config.client_session_cache;
    server_name = server_name rt.config addr;
    insecure_skip_verify = rt.config.insecure_skip_verify;
    omit_empty_psk = true;
    root_cas = root_cas_of rt.config.transport_options;
    key_log_writer = key_log_writer_of rt.config.transport_options;
  };
  client_hello_id = rt.client_hello_id;
  random_extension_order = rt.config.with_random_tls_extension_order;
  force_http1 = rt.config.force_http1;
  connection_state = answers.connection_state;
}

-- The switch on the negotiated protocol.
unfoldable pub build_transport : Protocols → Answers → TransportConfig → String → Transport
unfolding build_http1_transport build_http2_transport build_http3_transport
build_transport p answers c negotiated =
    if negotiated == p.next_proto_tls
    then http2 (build_http2_transport answers.range answers.get_t1 c)
    else if negotiated == p.next_proto_h3
    then http3 (build_http3_transport c)
    else http1 (build_http1_transport c)

module _ (h : HpkpStorage) (p : Protocols) (storage : h.Storage) where
  -- `dialTLS` once the connection passed its handshake and its pins.
  unfoldable pub finish : RoundTripper → Answers → Conn → String → RoundTripper × DialResult
  unfolding build_transport
  finish rt answers c addr = if is_some (lookup addr rt.cached_transports) then (rt, conn c) else (
    record rt {
      cached_transports =
          put addr (build_transport p answers rt.config c.connection_state.negotiated_protocol)
            rt.cached_transports;
      cached_connections = put addr c rt.cached_connections;
    },
    error protocol_negotiated,
  )

  -- A failed pin leaves the connection open.
  unfoldable pub check_pin :
      RoundTripper → Answers → Conn → String → Option PinError → RoundTripper × DialResult
  unfolding finish
  check_pin rt answers c addr none = finish rt answers c addr
  check_pin rt answers c addr (some e) = (rt, error (bad_pin e))

  unfoldable pub handshake :
      RoundTripper → Answers → Conn → String → Option ℕ → RoundTripper × DialResult
  unfolding check_pin
  handshake rt answers c addr none =
      check_pin rt answers c addr (
        pin h storage rt.certificate_pins c.config.server_name c.connection_state.peer_fingerprints)
  handshake rt answers c addr (some e) =
      (record rt { trace = rt.trace ++ closed c.raw ∷ [] }, error (handshake_failed e))

  unfoldable pub after_dial : RoundTripper → Answers → String → Dialed → RoundTripper × DialResult
  unfolding handshake u_client
  after_dial rt answers addr (refused e) = (rt, error (dial_failed e))
  after_dial rt answers addr (connected n) =
      handshake rt answers (u_client rt answers n addr) addr answers.handshake_error

  -- `dialTLS`: the connection that was stashed, or a new one.
  unfoldable pub dial_tls : RoundTripper → Answers → String → String → RoundTripper × DialResult
  unfolding after_dial dial_tls_network
  dial_tls rt answers network addr = elim (lookup addr rt.cached_connections) [
    | some c ↦ (record rt { cached_connections = remove addr rt.cached_connections }, conn c)
    | none ↦
        after_dial
          (record rt {
            trace = rt.trace ++ dial_context (dial_tls_network rt.config network) addr ∷ [];
          })
          answers addr answers.dial
  ]
