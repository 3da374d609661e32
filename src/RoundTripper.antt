-- ===== src/RoundTripper.antt =====
-- roundtripper.go: `RoundTrip`, which finds or makes the transport of an address, and
-- `newRoundTripper`.
pub mod Addr
pub mod Cases
pub mod Reach
pub mod NoPanic
pub mod Cache
pub mod Idle
pub mod Failure
pub mod Threads
mod Tests
use httpkit.Prelude.{
  ℕ, Bool, true, false, ◌&&◌, String, List, [], ◌∷◌, Option, none, some, Assoc, lookup, or_else,
  put, ◌==◌, if◌then◌else◌,
}
use httpkit.Text.{to_lower, split_host_port, join_host_port}
use httpkit.Http.{Url}
use httpkit.Tls.{ClientHelloId, ClientHelloSpec, TlsExtension, pre_shared_key}
use httpkit.Profiles.{ClientProfile}
use httpkit.Pinner.{init, HpkpStorage}
use httpkit.Transport.{TransportOptions, Transport, http1, build_http1_transport}
use httpkit.TlsDial.{
  TrackerKind, RoundTripper, Answers, Protocols, Error, bad_pin, protocol_negotiated,
  invalid_url_scheme, DialResult, conn, error, dial_tls,
}

-- What `RoundTrip` does: it hands the request to a transport, or fails, having called the bad pin
-- handler or not, or panics.
pub data Outcome : Type 0 where
  round_trip : Transport → Outcome
  failed : Error → Bool → Outcome
  panic : Outcome

pub data GetTransportResult : Type 0 where
  ready panicked : GetTransportResult
  get_failed : Error → GetTransportResult

-- getDialTLSAddr
abbrev host_port_or : String → Option (String × String) → String
host_port_or host none = join_host_port host "443"
host_port_or host (some (h, port)) = join_host_port h port

unfoldable pub get_dial_tls_addr : Url → String
unfolding split_host_port join_host_port
get_dial_tls_addr u = host_port_or u.host (split_host_port u.host)

-- `t.RoundTrip(req)`, which panics on a nil transport.
pub use_transport : Option Transport → Outcome
use_transport none = panic
use_transport (some t) = round_trip t

abbrev pub is_bad_pin : Error → Bool
is_bad_pin (bad_pin e) = true
is_bad_pin _ = false

module _ (h : HpkpStorage) (p : Protocols) (storage : h.Storage) where
  -- `getTransport` for the "https" scheme: the dial is expected to end in `errProtocolNegotiated`.
  of_dial : RoundTripper × DialResult → RoundTripper × GetTransportResult
  of_dial (rt, conn c) = (rt, panicked)
  of_dial (rt, error protocol_negotiated) = (rt, ready)
  of_dial (rt, error e) = (rt, get_failed e)

  pub get_transport : RoundTripper → Answers → Url → String → RoundTripper × GetTransportResult
  unfolding of_dial to_lower
  get_transport rt answers u addr =
      if to_lower u.scheme == "http"
      then (
        record rt {
          cached_transports =
              put addr (http1 (build_http1_transport rt.config)) rt.cached_transports;
        },
        ready,
      )
      else if to_lower u.scheme == "https"
      then of_dial (dial_tls h p storage rt answers "tcp" addr)
      else (rt, get_failed (invalid_url_scheme u.scheme))

  of_transport : String → RoundTripper × GetTransportResult → RoundTripper × Outcome
  unfolding use_transport
  of_transport addr (rt, ready) = (rt, use_transport (lookup addr rt.cached_transports))
  of_transport addr (rt, panicked) = (rt, panic)
  of_transport addr (rt, get_failed e) = (rt, failed e (is_bad_pin e && rt.has_bad_pin_handler))

  -- `RoundTrip`, up to the call of the transport.
  pub round_trip_request : RoundTripper → Answers → Url → RoundTripper × Outcome
  unfolding of_transport get_dial_tls_addr
  round_trip_request rt answers u =
      let addr = get_dial_tls_addr u in
      elim (lookup addr rt.cached_transports) [
        | some t ↦ (rt, round_trip t)
        | none ↦ of_transport addr (get_transport rt answers u addr)
      ]

-- The transports of the map that have a method CloseIdleConnections.
unfoldable pub closers : (Transport → Bool) → Assoc Transport → List Transport
closers closes_idle [] = []
closers closes_idle ((k, t) ∷ m) =
    let rest = closers closes_idle m in if closes_idle t then t ∷ rest else rest

-- `CloseIdleConnections`: the transports that it calls.
unfoldable pub close_idle_connections : (Transport → Bool) → RoundTripper → List Transport
unfolding closers
close_idle_connections closes_idle rt = closers closes_idle rt.cached_transports

-- supportsSessionResumption, over utls' `UTLSIdToSpec` and `ToSpec`, nothing for an error.
pub has_psk : List TlsExtension → Bool
has_psk [] = false
has_psk (pre_shared_key ∷ exts) = true
has_psk (_ ∷ exts) = has_psk exts

spec_has_psk : Option ClientHelloSpec → Bool
unfolding has_psk
spec_has_psk none = false
spec_has_psk (some spec) = has_psk spec.extensions

module _ (utls_id_to_spec to_spec : ClientHelloId → Option ClientHelloSpec) where
  pub supports_session_resumption : ClientHelloId → Bool
  unfolding spec_has_psk
  supports_session_resumption id = spec_has_psk (or_else (utls_id_to_spec id) (to_spec id))

  -- `newRoundTripper`: the storage of pins after `init`, and the round tripper. It never fails,
  -- since `init` does not; `cache` is what `NewLRUClientSessionCache(32)` returns.
  unfoldable pub new_round_tripper :
      (h : HpkpStorage) (storage : h.Storage) (cache : ℕ) (profile : ClientProfile)
      (options : Option TransportOptions) (server_name_overwrite : String)
      (insecure_skip_verify with_random_tls_extension_order force_http1 : Bool)
      (certificate_pins : Assoc (List String))
      (has_bad_pin_handler disable_ipv6 disable_ipv4 : Bool) (bandwidth_tracker : TrackerKind)
      → h.Storage × RoundTripper
  unfolding supports_session_resumption
  new_round_tripper h storage cache profile options overwrite skip random force pins handler no6 no4
        t =
      (
        init h storage pins,
        record {
          client_hello_id = profile.client_hello_id;
          certificate_pins = pins;
          has_bad_pin_handler = handler;
          bandwidth_tracker = t;
          config = record {
            client_session_cache =
                if supports_session_resumption profile.client_hello_id then some cache else none;
            header_priority = profile.header_priority;
            settings = profile.settings;
            transport_options = options;
            server_name_overwrite = overwrite;
            priorities = profile.priorities;
            pseudo_header_order = profile.pseudo_header_order;
            settings_order = profile.settings_order;
            connection_flow = profile.connection_flow;
            force_http1 = force;
            insecure_skip_verify = skip;
            with_random_tls_extension_order = random;
            disable_ipv6 = no6;
            disable_ipv4 = no4;
          };
          cached_connections = [];
          cached_transports = [];
          trace = [];
        },
      )
