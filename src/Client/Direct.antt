-- ===== src/Client/Direct.antt =====
-- client.go, buildFromConfig and applyProxy: the dialer of a client without a proxy.
use httpkit.Prelude.{◌≡◌, refl, ap, subst, String, Option, none, some, ◌==◌, eq_iff, if_true}
use httpkit.Logger.{Logger}
use httpkit.Connect.{ContextDialer, direct, DialerResult, made, refused, panic, new_direct_dialer}
use httpkit.ClientOptions.{HttpClientConfig, ProxyDialerFactory}
use httpkit.Client.{HttpClient, with_proxy}
use httpkit.Client.Proxy.{
  Externals, Storage, choose_dialer, set_proxy, build_with, build_from_config, NewResult, created,
  not_created, new_panicked, transport_of,
}
use httpkit.Client.SetProxy.{set_proxy_made}

-- The client that was made, if one was.
abbrev pub client_or : HttpClient → NewResult → HttpClient
client_or c (created n) = n
client_or c (not_created e) = c
client_or c new_panicked = c

module _ (x : Externals) where
  choose_dialer_bare :
      (base : ContextDialer) (c : HttpClientConfig) (f : Option ProxyDialerFactory)
      → c.proxy_url ≡ ""
      → f ≡ none
      → choose_dialer x base c f ≡ made base
  unfolding choose_dialer
  choose_dialer_bare base c none e q = if_true (c.proxy_url == "") _ _ ((eq_iff c.proxy_url "").1 e)
  choose_dialer_bare base c (some f) e q = cc

  built_with :
      (s : Storage x) (logger : Option Logger) (config : HttpClientConfig) (flow : String)
      (d : ContextDialer) (r : DialerResult) (c : HttpClient)
      → r ≡ made d
      → (build_with x s logger config flow r).1 ≡ created c
      → config.proxy_dialer_factory ≡ none
      → (c.transport.dialer ≡ d) × (c.config.proxy_dialer_factory ≡ none)
  unfolding build_with transport_of
  built_with s logger config flow d (made d') c q e n =
      subst (λ (k : HttpClient). (k.transport.dialer ≡ d) × (k.config.proxy_dialer_factory ≡ none))
        (ap (client_or c) e) (cc, n)
  built_with s logger config flow d (refused e') c q e n = cc
  built_with s logger config flow d panic c q e n = cc

  -- A client without a proxy and a factory is made with a dialer that has the timeout and the
  -- local address of the configuration; after `SetProxy("")` it dials without any of them.
  pub set_proxy_loses_dialer :
      (s s' : Storage x) (logger : Option Logger) (config : HttpClientConfig) (flow : String)
      (c : HttpClient)
      → (build_from_config x s logger config flow).1 ≡ created c
      → config.proxy_url ≡ ""
      → config.proxy_dialer_factory ≡ none
      → (c.transport.dialer ≡ new_direct_dialer config.timeout config.local_addr config.dialer)
        × ((set_proxy x s' c "").0.1.transport.dialer ≡ direct)
  unfolding build_from_config
  set_proxy_loses_dialer s s' logger config flow c e q n =
      let (d, f) =
        built_with s logger config flow
          (new_direct_dialer config.timeout config.local_addr config.dialer) _ c
          (choose_dialer_bare _ config config.proxy_dialer_factory q n) e n in
      (
        d,
        ap (λ z. z.0.1.transport.dialer)
            (set_proxy_made x s' c "" direct (
              choose_dialer_bare direct (with_proxy c "").config c.config.proxy_dialer_factory refl
                f)),
      )
