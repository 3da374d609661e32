-- ===== src/Client/Proxy.antt =====
-- client.go, buildFromConfig, NewHttpClient, applyProxy, SetProxy and DoWithProxy. The storage of
-- pins, which all clients share, is passed along.
use httpkit.Prelude.{ℕ, false, String, List, Option, none, some, ◌==◌, if◌then◌else◌}
use httpkit.Logger.{Logger}
use httpkit.Tls.{ClientHelloId, ClientHelloSpec}
use httpkit.Profiles.{ClientProfile}
use httpkit.Pinner.{HpkpStorage}
use httpkit.TlsDial.{TrackerKind, RoundTripper}
use httpkit.RoundTripper.{new_round_tripper}
use httpkit.Connect.{
  NetDialer, ProxyUrl, ProxyAuth, ContextDialer, direct, DialerError, DialerResult, made, refused,
  panic, new_connect_dialer, new_direct_dialer,
}
use httpkit.ClientOptions.{ProxyDialerFactory, HttpClientConfig, HttpClientOption, apply_options}
use httpkit.Client.{
  HttpClient, ClientTransport, Request, initial_config, choose_logger, build_redirect, tracker_of,
  with_proxy, get_proxy,
}
use httpkit.Client.Send.{
  Exchange, DebugAnswers, DoResult, panicked, returns, proxy_refused, do_request,
}

pub data Applied : Type 0 where
  applied apply_panicked : Applied
  apply_refused : DialerError → Applied

pub data NewResult : Type 0 where
  created : HttpClient → NewResult
  not_created : DialerError → NewResult
  new_panicked : NewResult

-- What the packages net/url, base64, golang.org/x/net/proxy, utls and hpkp supply.
pub record Externals : Type 1 where
  pub parse : String → Option ProxyUrl
  pub encode : String → String
  pub socks5 : String → Option ProxyAuth → NetDialer → Option ℕ
  pub utls_id_to_spec : ClientHelloId → Option ClientHelloSpec
  pub to_spec : ClientHelloId → Option ClientHelloSpec
  pub hpkp : HpkpStorage
  pub session_cache : ℕ

module _ (x : Externals) where
  abbrev pub Storage : Type 0
  Storage = x.hpkp.Storage

  -- The dialer of a configuration: that of the factory, that of the proxy URL, or `base`.
  unfoldable pub choose_dialer :
      ContextDialer → HttpClientConfig → Option ProxyDialerFactory → DialerResult
  unfolding new_connect_dialer
  choose_dialer base c (some f) = f c.proxy_url c.timeout c.local_addr c.connect_headers
  choose_dialer base c none =
      if c.proxy_url == ""
      then made base
      else new_connect_dialer x.parse x.encode x.socks5 c.proxy_url c.timeout c.local_addr c.dialer
          c.connect_headers

  unfoldable pub round_tripper_of :
      Storage → HttpClientConfig → TrackerKind → Storage × RoundTripper
  unfolding new_round_tripper
  round_tripper_of s c t =
      new_round_tripper x.utls_id_to_spec x.to_spec x.hpkp s x.session_cache c.client_profile
        c.transport_options c.server_name_overwrite c.insecure_skip_verify
        c.with_random_tls_extension_order c.force_http1 c.certificate_pins c.bad_pin_handler
        c.disable_ipv6 c.disable_ipv4 t

  -- The transport of a configuration with a dialer.
  unfoldable pub transport_of :
      Storage → HttpClientConfig → TrackerKind → ContextDialer → Storage × ClientTransport
  unfolding round_tripper_of
  transport_of s c t d =
      let made_rt = round_tripper_of s c t in
      (made_rt.0, record { round_tripper = made_rt.1; dialer = d })

  -- buildFromConfig and the rest of NewHttpClient, with the dialer that was chosen.
  unfoldable pub build_with :
      Storage → Option Logger → HttpClientConfig → String → DialerResult → Storage × NewResult
  unfolding transport_of build_redirect choose_logger
  build_with s logger c flow (refused e) = (s, not_created e)
  build_with s logger c flow panic = (s, new_panicked)
  build_with s logger c flow (made d) =
      let tracker = tracker_of c.enabled_bandwidth_tracker in
      let t = transport_of s c tracker d in
      (
        t.0,
        created (record {
          logger = choose_logger logger c.debug;
          bandwidth_tracker = tracker;
          config = record c { flow_id = if c.flow_id == "" then flow else c.flow_id };
          transport = t.1;
          check_redirect = build_redirect c;
          jar = c.cookie_jar;
          timeout = c.timeout;
          header_locked = false;
        }),
      )

  unfoldable pub build_from_config :
      Storage → Option Logger → HttpClientConfig → String → Storage × NewResult
  unfolding build_with choose_dialer new_direct_dialer
  build_from_config s logger c flow =
      build_with s logger c flow
        (choose_dialer (new_direct_dialer c.timeout c.local_addr c.dialer) c c.proxy_dialer_factory)

  -- NewHttpClient; `flow` is what platekit generates, and `profile` the default profile.
  unfoldable pub new_http_client :
      Storage → ClientProfile → String → Option Logger → List HttpClientOption → Storage × NewResult
  unfolding build_from_config apply_options
  new_http_client s profile flow logger options =
      build_from_config s logger (apply_options options (initial_config profile)) flow

  -- applyProxy with the dialer that was chosen.
  unfoldable pub apply_with : Storage → HttpClient → DialerResult → (Storage × HttpClient) × Applied
  unfolding transport_of
  apply_with s c (refused e) = ((s, c), apply_refused e)
  apply_with s c panic = ((s, c), apply_panicked)
  apply_with s c (made d) =
      let t = transport_of s c.config c.bandwidth_tracker d in
      ((t.0, record c { transport = t.1 }), applied)

  unfoldable pub apply_proxy : Storage → HttpClient → (Storage × HttpClient) × Applied
  unfolding apply_with choose_dialer
  apply_proxy s c = apply_with s c (choose_dialer direct c.config c.config.proxy_dialer_factory)

  -- SetProxy after the first call of applyProxy: an error puts the old URL back and tries again.
  unfoldable pub or_roll_back :
      String → (Storage × HttpClient) × Applied → (Storage × HttpClient) × Applied
  unfolding apply_proxy
  or_roll_back current (sc, applied) = (sc, applied)
  or_roll_back current (sc, apply_panicked) = (sc, apply_panicked)
  or_roll_back current ((s, c), apply_refused e) = apply_proxy s (with_proxy c current)

  unfoldable pub set_proxy : Storage → HttpClient → String → (Storage × HttpClient) × Applied
  unfolding or_roll_back
  set_proxy s c url = or_roll_back (get_proxy c) (apply_proxy s (with_proxy c url))

  module _ (key : String) (exchange : Exchange) where
    -- The result of `Do`, unless putting the URL back panics.
    unfoldable pub restore :
        (Storage × HttpClient) × Applied → DoResult → (Storage × HttpClient) × DoResult
    restore (sc, apply_panicked) r = (sc, panicked)
    restore (sc, applied) r = (sc, r)
    restore (sc, apply_refused e) r = (sc, r)

    -- DoWithProxy after `Do`: the old URL is put back, and the error of that is dropped.
    unfoldable pub restored :
        Storage → String → HttpClient → DoResult → (Storage × HttpClient) × DoResult
    unfolding set_proxy restore returns
    restored s current c r = if returns r then restore (set_proxy s c current) r else ((s, c), r)

    unfoldable pub do_after :
        String
        → Request
        → DebugAnswers
        → (Storage × HttpClient) × Applied
        → (Storage × HttpClient) × DoResult
    unfolding restored do_request
    do_after current req a (sc, apply_refused e) = (sc, proxy_refused e)
    do_after current req a (sc, apply_panicked) = (sc, panicked)
    do_after current req a ((s, c), applied) =
        let done = do_request key exchange c req a in restored s current done.client done.result

    unfoldable pub do_with_proxy :
        Storage → HttpClient → Request → DebugAnswers → String → (Storage × HttpClient) × DoResult
    unfolding do_after
    do_with_proxy s c req a url = do_after (get_proxy c) req a (set_proxy s c url)
