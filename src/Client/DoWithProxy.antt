-- ===== src/Client/DoWithProxy.antt =====
-- client.go, DoWithProxy: which proxy is used, and what is configured afterwards.
use httpkit.Prelude.{
  ◌≡◌, refl, sym, subst, if_true, if_false, ◌∙◌, ap, ℕ, true, false, String, Option, none, some,
  Bool-cases, inl, inr,
}
use httpkit.Connect.{Header, ContextDialer, DialerError, made, refused}
use httpkit.ClientOptions.{HttpClientConfig}
use httpkit.Client.{HttpClient, Request, with_proxy, get_proxy}
use httpkit.Client.Send.{
  Exchange, DebugAnswers, DoResult, do_request, prepared, issue, received, returns,
}
use httpkit.Client.Headers.{do_request_free, do_request_locked}
use httpkit.Client.Proxy.{
  Externals, Storage, Applied, apply_with, restore, restored, transport_of, do_after, do_with_proxy,
}
use httpkit.Client.SetProxy.{
  dialer_of, renewed, SetProxyCase, changed, rolled_back, kept, roll_back_panicked, set_panicked,
  set_proxy_made, set_proxy_refused, apply_proxy_of, set_proxy-SetProxyCase,
}

abbrev at_proxy : String → HttpClientConfig → HttpClientConfig
at_proxy url c = record c { proxy_url = url }

module _ (x : Externals) (key : String) (exchange : Exchange) where
  issue-config :
      (c : HttpClient) (req : Request) (a : DebugAnswers) (o : Option ℕ)
      → (issue exchange c req a o).client.config ≡ c.config
  unfolding issue received
  issue-config c req a none = refl
  issue-config c req a (some e) = refl

  prepared-config :
      (c : HttpClient) (req : Request) (a : DebugAnswers) (o : Option Header)
      → (prepared exchange c req a o).client.config ≡ c.config
  unfolding prepared
  prepared-config c req a none = refl
  prepared-config c req a (some m) = issue-config c (record req { header = some m }) a _

  pub do_request-config :
      (c : HttpClient) (req : Request) (a : DebugAnswers)
      → (do_request key exchange c req a).client.config ≡ c.config
  do_request-config c req a = elim (Bool-cases c.header_locked) [
    | inl locked ↦ rw (do_request_locked key exchange c req a locked) refl
    | inr free ↦ rw (do_request_free key exchange c req a free) (prepared-config c req a _)
  ]

  -- The result of putting the URL back, where that gives a dialer.
  restored-made :
      (s : Storage x) (cur : String) (c : HttpClient) (d : ContextDialer) (r : DoResult)
      → dialer_of x (with_proxy c cur).config ≡ made d
      → returns r ≡ true
      → restored x key exchange s cur c r ≡ (renewed x s (with_proxy c cur) d, r)
  unfolding restored restore
  restored-made s cur c d r e k =
      if_true (returns r) _ _ k
      ∙ ap (λ z. restore x key exchange z r) (set_proxy_made x s c cur d e)

  restored_stopped :
      (s : Storage x) (cur : String) (c : HttpClient) (r : DoResult)
      → returns r ≡ false
      → restored x key exchange s cur c r ≡ ((s, c), r)
  unfolding restored
  restored_stopped s cur c r k = if_false (returns r) _ _ k

  restored_result :
      (s : Storage x) (cur : String) (c : HttpClient) (d : ContextDialer) (r : DoResult)
      → dialer_of x (with_proxy c cur).config ≡ made d
      → (restored x key exchange s cur c r).1 ≡ r
  restored_result s cur c d r e = elim (Bool-cases (returns r)) [
    | inl back ↦ ap (λ z. z.1) (restored-made s cur c d r e back)
    | inr stopped ↦ ap (λ z. z.1) (restored_stopped s cur c r stopped)
  ]

  -- The client has the configuration, and a transport with the dialer.
  pub record Has (config : HttpClientConfig) (d : ContextDialer) (c : HttpClient) : Type 0 where
    pub configured : c.config ≡ config
    pub dials : c.transport.dialer ≡ d

  restored-Has :
      (s : Storage x) (cur : String) (c : HttpClient) (d : ContextDialer) (r : DoResult)
      (config : HttpClientConfig)
      → (with_proxy c cur).config ≡ config
      → dialer_of x config ≡ made d
      → returns (restored x key exchange s cur c r).1 ≡ true
      → Has config d (restored x key exchange s cur c r).0.1
  unfolding transport_of
  restored-Has s cur c d r config e m k = elim (Bool-cases (returns r)) [
    | inl back ↦
        subst (λ z. Has config d z.0.1)
          (sym (restored-made s cur c d r (ap (dialer_of x) e ∙ m) back))
          (record { configured = e; dials = refl })
    | inr stopped ↦ let q = ap (λ z. returns z.1) (restored_stopped s cur c r stopped) in cc
  ]

  do_after-Has :
      (s : Storage x) (c : HttpClient) (req : Request) (a : DebugAnswers) (url : String)
      (d : ContextDialer) (r : (Storage x × HttpClient) × Applied)
      → SetProxyCase x s c url r
      → dialer_of x c.config ≡ made d
      → returns (do_after x key exchange (get_proxy c) req a r).1 ≡ true
      → Has c.config d (do_after x key exchange (get_proxy c) req a r).0.1
  unfolding do_after returns
  do_after-Has s c req a url d r (changed d' _ e) m k =
      subst
        (λ z.
          returns (do_after x key exchange (get_proxy c) req a z).1 ≡ true
          → Has c.config d (do_after x key exchange (get_proxy c) req a z).0.1)
        (sym e)
        (restored-Has _ (get_proxy c) _ d _ c.config
          (ap (at_proxy (get_proxy c))
            (do_request-config (renewed x s (with_proxy c url) d').1 req a))
          m)
        k
  do_after-Has s c req a url d r (rolled_back _ d' _ _ e) m k =
      subst
        (λ z.
          returns (do_after x key exchange (get_proxy c) req a z).1 ≡ true
          → Has c.config d (do_after x key exchange (get_proxy c) req a z).0.1)
        (sym e)
        (restored-Has _ (get_proxy c) _ d _ c.config
          (ap (at_proxy (get_proxy c)) (do_request-config (renewed x s c d').1 req a)) m)
        k
  do_after-Has s c req a url d r (kept _ old _ o _) m k = cc
  do_after-Has s c req a url d r (roll_back_panicked _ _ o _) m k = cc
  do_after-Has s c req a url d r (set_panicked _ e) m k =
      let q = ap (λ z. returns (do_after x key exchange (get_proxy c) req a z).1) e in cc

  -- Where the configured proxy gives a dialer, a call of `DoWithProxy` that returns leaves the
  -- configuration as it was, and a transport that uses that dialer, whatever the given URL was and
  -- whatever became of the request.
  pub do_with_proxy-Has :
      (s : Storage x) (c : HttpClient) (req : Request) (a : DebugAnswers) (url : String)
      (d : ContextDialer)
      → dialer_of x c.config ≡ made d
      → returns (do_with_proxy x key exchange s c req a url).1 ≡ true
      → Has c.config d (do_with_proxy x key exchange s c req a url).0.1
  unfolding do_with_proxy
  do_with_proxy-Has s c req a url d m k =
      do_after-Has s c req a url d _ (set_proxy-SetProxyCase x s c url) m k

  -- A proxy URL that is refused is not reported where the configured proxy gives a dialer: the
  -- request is sent with that dialer, and what `Do` returns for it is returned.
  pub do_with_proxy_swallows :
      (s : Storage x) (c : HttpClient) (req : Request) (a : DebugAnswers) (url : String)
      (d : ContextDialer) (e : DialerError)
      → dialer_of x c.config ≡ made d
      → dialer_of x (with_proxy c url).config ≡ refused e
      → (do_with_proxy x key exchange s c req a url).1
        ≡ (do_request key exchange (renewed x s c d).1 req a).result
  unfolding do_with_proxy do_after apply_with
  do_with_proxy_swallows s c req a url d e m q =
      ap (λ z. (do_after x key exchange (get_proxy c) req a z).1)
        (set_proxy_refused x s c url e q ∙ apply_proxy_of x s c url (made d) m)
      ∙ restored_result (renewed x s c d).0 (get_proxy c)
          (do_request key exchange (renewed x s c d).1 req a).client d
          (do_request key exchange (renewed x s c d).1 req a).result
          (ap (dialer_of x)
              (ap (at_proxy (get_proxy c)) (do_request-config (renewed x s c d).1 req a))
            ∙ m)
