-- ===== src/Client/SetProxy.antt =====
-- client.go, SetProxy: its cases, with what each needs and what it does.
use httpkit.Prelude.{◌≡◌, refl, ◌∙◌, ap, String}
use httpkit.Connect.{ContextDialer, direct, DialerError, DialerResult, made, refused, panic}
use httpkit.ClientOptions.{HttpClientConfig}
use httpkit.Client.{HttpClient, with_proxy, get_proxy}
use httpkit.Client.Proxy.{
  Externals, Storage, Applied, applied, apply_panicked, apply_refused, choose_dialer, transport_of,
  apply_with, apply_proxy, or_roll_back, set_proxy,
}

module _ (x : Externals) where
  -- The dialer that applyProxy makes of a configuration.
  abbrev pub dialer_of : HttpClientConfig → DialerResult
  dialer_of c = choose_dialer x direct c c.proxy_dialer_factory

  -- The storage and the client after a new transport with the dialer.
  abbrev pub renewed : Storage x → HttpClient → ContextDialer → Storage x × HttpClient
  renewed s c d =
      let t = transport_of x s c.config c.bandwidth_tracker d in (t.0, record c { transport = t.1 })

  module _ (s : Storage x) (c : HttpClient) (url : String) where
    abbrev pub set_ : (Storage x × HttpClient) × Applied
    set_ = set_proxy x s c url

    pub data SetProxyCase (r : (Storage x × HttpClient) × Applied) : Type 0 where
      -- The new URL gives a dialer, and is used.
      changed :
          (d : ContextDialer)
          → dialer_of (with_proxy c url).config ≡ made d
          → r ≡ (renewed s (with_proxy c url) d, applied)
          → SetProxyCase r
      -- It is refused, and the old one gives a dialer: no error is returned.
      rolled_back :
          (e : DialerError) (d : ContextDialer)
          → dialer_of (with_proxy c url).config ≡ refused e
          → dialer_of c.config ≡ made d
          → r ≡ (renewed s c d, applied)
          → SetProxyCase r
      -- Both are refused: the error is that of the old one.
      kept :
          (e old : DialerError)
          → dialer_of (with_proxy c url).config ≡ refused e
          → dialer_of c.config ≡ refused old
          → r ≡ ((s, c), apply_refused old)
          → SetProxyCase r
      roll_back_panicked :
          (e : DialerError)
          → dialer_of (with_proxy c url).config ≡ refused e
          → dialer_of c.config ≡ panic
          → r ≡ ((s, c), apply_panicked)
          → SetProxyCase r
      -- A panic leaves the new URL in the configuration.
      set_panicked :
          dialer_of (with_proxy c url).config ≡ panic
          → r ≡ ((s, with_proxy c url), apply_panicked)
          → SetProxyCase r

    pub set_proxy_made :
        (d : ContextDialer)
        → dialer_of (with_proxy c url).config ≡ made d
        → set_ ≡ (renewed s (with_proxy c url) d, applied)
    unfolding set_proxy or_roll_back apply_proxy apply_with
    set_proxy_made d e =
        ap (λ r. or_roll_back x (get_proxy c) (apply_with x s (with_proxy c url) r)) e

    pub set_proxy_refused :
        (e : DialerError)
        → dialer_of (with_proxy c url).config ≡ refused e
        → set_ ≡ apply_proxy x s c
    unfolding set_proxy or_roll_back apply_proxy apply_with
    set_proxy_refused e q =
        ap (λ r. or_roll_back x (get_proxy c) (apply_with x s (with_proxy c url) r)) q

    set_proxy_panicked :
        dialer_of (with_proxy c url).config ≡ panic → set_ ≡ ((s, with_proxy c url), apply_panicked)
    unfolding set_proxy or_roll_back apply_proxy apply_with
    set_proxy_panicked q =
        ap (λ r. or_roll_back x (get_proxy c) (apply_with x s (with_proxy c url) r)) q

    pub apply_proxy_of :
        (r : DialerResult) → dialer_of c.config ≡ r → apply_proxy x s c ≡ apply_with x s c r
    unfolding apply_proxy
    apply_proxy_of r q = ap (apply_with x s c) q

    roll_back-SetProxyCase :
        (e : DialerError) (r : DialerResult)
        → dialer_of (with_proxy c url).config ≡ refused e
        → dialer_of c.config ≡ r
        → SetProxyCase set_
    unfolding apply_with
    roll_back-SetProxyCase e (made d) q k =
        rolled_back e d q k (set_proxy_refused e q ∙ apply_proxy_of (made d) k)
    roll_back-SetProxyCase e (refused old) q k =
        kept e old q k (set_proxy_refused e q ∙ apply_proxy_of (refused old) k)
    roll_back-SetProxyCase e panic q k =
        roll_back_panicked e q k (set_proxy_refused e q ∙ apply_proxy_of panic k)

    set_proxy_of : (r : DialerResult) → dialer_of (with_proxy c url).config ≡ r → SetProxyCase set_
    set_proxy_of (made d) q = changed d q (set_proxy_made d q)
    set_proxy_of (refused e) q = roll_back-SetProxyCase e _ q refl
    set_proxy_of panic q = set_panicked q (set_proxy_panicked q)

    -- Every call of `SetProxy` is one of five cases, each with its condition, the client that it
    -- leaves and its result: an error puts the old URL back, and is returned only where the old
    -- URL gives no dialer either.
    pub set_proxy-SetProxyCase : SetProxyCase set_
    set_proxy-SetProxyCase = set_proxy_of _ refl
