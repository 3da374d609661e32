-- ===== src/Transport.antt =====
-- roundtripper.go: the transports that a round tripper builds, for each protocol that can be
-- negotiated. The callbacks `DialContext`, `DialTLS` and the push handler of a transport are the
-- same for all, and are left out; a nil pointer is `none`.

use httpkit.Prelude.{
  ℕ, ◌*◌, ◌^◌, Bool, true, false, String, List, [], ◌∷◌, Option, none, some, ℤ, pos, map,
}
use httpkit.Tls.{
  SettingId, header_table_size, max_concurrent_streams, initial_window_size, max_frame_size,
  PriorityParam, Priority,
}

-- const defaultIdleConnectionTimeout = 90 * time.Second, in nanoseconds.
abbrev pub default_idle_connection_timeout : ℤ
default_idle_connection_timeout = pos (90 * 10 ^ 9)

-- The fields of TransportOptions that fhttp's transports have too.
pub record Limits : Type 0 where
  pub max_idle_conns : ℤ
  pub max_idle_conns_per_host : ℤ
  pub max_conns_per_host : ℤ
  pub max_response_header_bytes : ℤ
  pub write_buffer_size : ℤ
  pub read_buffer_size : ℤ
  pub disable_keep_alives : Bool
  pub disable_compression : Bool

-- Go's zero values.
abbrev pub no_limits : Limits
no_limits = record {
  max_idle_conns = pos 0;
  max_idle_conns_per_host = pos 0;
  max_conns_per_host = pos 0;
  max_response_header_bytes = pos 0;
  write_buffer_size = pos 0;
  read_buffer_size = pos 0;
  disable_keep_alives = false;
  disable_compression = false;
}

-- client_options.go, TransportOptions; certificate pools and writers are known by a number.
pub record TransportOptions : Type 0 where
  pub key_log_writer : Option ℕ
  pub idle_conn_timeout : Option ℤ
  pub root_cas : Option ℕ
  pub limits : Limits

-- tls.Config, as far as the code sets it.
pub record TlsConfig : Type 0 where
  pub client_session_cache : Option ℕ
  pub server_name : String
  pub insecure_skip_verify : Bool
  pub omit_empty_psk : Bool
  pub root_cas : Option ℕ
  pub key_log_writer : Option ℕ

-- http.Transport
pub record Http1Transport : Type 0 where
  pub tls_client_config : TlsConfig
  pub connection_flow : ℕ
  pub idle_conn_timeout : ℤ
  pub limits : Limits

-- The http.Transport inside an http2.Transport, where `GetT1` finds one.
pub record InnerTransport : Type 0 where
  pub limits : Limits
  pub idle_conn_timeout : ℤ

-- http2.Transport
pub record Http2Transport : Type 0 where
  pub tls_client_config : TlsConfig
  pub connection_flow : ℕ
  pub header_priority : Option PriorityParam
  pub idle_conn_timeout : ℤ
  pub disable_compression : Bool
  pub t1 : Option InnerTransport
  pub pseudo_header_order : List String
  pub settings : List (SettingId × ℕ)
  pub settings_order : List SettingId
  pub priorities : List Priority

-- http3.Transport
pub record Http3Transport : Type 0 where
  pub tls_client_config : TlsConfig
  pub additional_settings : List (SettingId × ℕ)
  pub disable_compression : Bool
  pub max_response_header_bytes : ℤ

pub data Transport : Type 0 where
  http1 : Http1Transport → Transport
  http2 : Http2Transport → Transport
  http3 : Http3Transport → Transport

-- The fields of a round tripper that do not change after `newRoundTripper`.
pub record TransportConfig : Type 0 where
  pub client_session_cache : Option ℕ
  pub header_priority : Option PriorityParam
  pub settings : Option (List (SettingId × ℕ))
  pub transport_options : Option TransportOptions
  pub server_name_overwrite : String
  pub priorities : List Priority
  pub pseudo_header_order : Option (List String)
  pub settings_order : List SettingId
  pub connection_flow : ℕ
  pub force_http1 : Bool
  pub insecure_skip_verify : Bool
  pub with_random_tls_extension_order : Bool
  pub disable_ipv6 : Bool
  pub disable_ipv4 : Bool

abbrev pub root_cas_of : Option TransportOptions → Option ℕ
root_cas_of none = none
root_cas_of (some o) = o.root_cas

abbrev pub key_log_writer_of : Option TransportOptions → Option ℕ
key_log_writer_of none = none
key_log_writer_of (some o) = o.key_log_writer

abbrev pub timeout_or_default : Option ℤ → ℤ
timeout_or_default none = default_idle_connection_timeout
timeout_or_default (some t) = t

abbrev pub idle_timeout_of : Option TransportOptions → ℤ
idle_timeout_of none = default_idle_connection_timeout
idle_timeout_of (some o) = timeout_or_default o.idle_conn_timeout

abbrev pub limits_of : Option TransportOptions → Limits
limits_of none = no_limits
limits_of (some o) = o.limits

-- The TLS configuration of a transport; the server name is set only by `serverNameOverwrite`.
unfoldable pub transport_tls_config : TransportConfig → TlsConfig
transport_tls_config c = record {
  client_session_cache = c.client_session_cache;
  server_name = c.server_name_overwrite;
  insecure_skip_verify = c.insecure_skip_verify;
  omit_empty_psk = true;
  root_cas = root_cas_of c.transport_options;
  key_log_writer = none;
}

unfoldable pub build_http1_transport : TransportConfig → Http1Transport
unfolding transport_tls_config
build_http1_transport c = record {
  tls_client_config = transport_tls_config c;
  connection_flow = c.connection_flow;
  idle_conn_timeout = idle_timeout_of c.transport_options;
  limits = limits_of c.transport_options;
}

-- The settings where the profile gives none.
abbrev pub default_settings : List (SettingId × ℕ)
default_settings =
    (max_concurrent_streams, 1000)
    ∷ (max_frame_size, 16384)
    ∷ (initial_window_size, 6291456)
    ∷ (header_table_size, 65536)
    ∷ []

abbrev pub settings_or_default : Option (List (SettingId × ℕ)) → List (SettingId × ℕ)
settings_or_default none = default_settings
settings_or_default (some settings) = settings

-- `range` is the order in which the runtime goes through the keys of a map.
abbrev pub settings_order_of :
    (List SettingId → List SettingId)
    → Option (List (SettingId × ℕ))
    → List SettingId
    → List SettingId
settings_order_of range none order = range (map (λ e. e.0) default_settings)
settings_order_of range (some _) order = order

abbrev pub pseudo_order_of : Option (List String) → List String
pseudo_order_of none = []
pseudo_order_of (some order) = order

-- The fields set on the inner transport, where there are options and an inner transport.
abbrev pub set_inner : Option TransportOptions → Option InnerTransport → Option InnerTransport
set_inner none t1 = t1
set_inner (some o) none = none
set_inner (some o) (some _) =
    some (record { limits = o.limits; idle_conn_timeout = timeout_or_default o.idle_conn_timeout })

-- `get_t1` is what `GetT1` finds on a new transport.
unfoldable pub build_http2_transport :
    (List SettingId → List SettingId) → Option InnerTransport → TransportConfig → Http2Transport
unfolding transport_tls_config
build_http2_transport range get_t1 c = record {
  tls_client_config = transport_tls_config c;
  connection_flow = c.connection_flow;
  header_priority = c.header_priority;
  idle_conn_timeout = idle_timeout_of c.transport_options;
  disable_compression = (limits_of c.transport_options).disable_compression;
  t1 = set_inner c.transport_options get_t1;
  pseudo_header_order = pseudo_order_of c.pseudo_header_order;
  settings = settings_or_default c.settings;
  settings_order = settings_order_of range c.settings c.settings_order;
  priorities = c.priorities;
}

-- `uint64(value)` of a `uint32` keeps the value.
unfoldable pub build_http3_transport : TransportConfig → Http3Transport
unfolding transport_tls_config
build_http3_transport c = record {
  tls_client_config = transport_tls_config c;
  additional_settings = settings_or_default c.settings;
  disable_compression = (limits_of c.transport_options).disable_compression;
  max_response_header_bytes = (limits_of c.transport_options).max_response_header_bytes;
}
