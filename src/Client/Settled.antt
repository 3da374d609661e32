-- ===== src/Client/Settled.antt =====
-- client.go: what SetProxy, Do and DoWithProxy keep of a client.
use httpkit.Prelude.{
  ◌≡◌, refl, if_true, if_false, ◌≢◌, sym, subst, false, String, [], ◌∷◌, Option, none, some,
  Bool-cases, inl, inr, ℕ,
}
use httpkit.Connect.{Header, DialerResult, made, refused, panic}
use httpkit.Client.{HttpClient, Request, with_proxy, get_proxy, build_redirect}
use httpkit.Client.Send.{
  Exchange, DebugAnswers, DoResult, do_request, prepared, issue, received, prepare, lower_order,
  returns,
}
use httpkit.Client.Headers.{do_request_free, do_request_locked}
use httpkit.Client.Proxy.{
  Externals, Storage, Applied, applied, apply_panicked, apply_refused, apply_with, apply_proxy,
  set_proxy, restore, restored, do_after, do_with_proxy, or_roll_back,
}

-- The redirect function and the timeout are those of the configuration, and the lock of the
-- headers is free unless the default headers are nil.
pub record IsSettled (c : HttpClient) : Type 0 where
  pub redirect : c.check_redirect ≡ build_redirect c.config
  pub timeout : c.timeout ≡ c.config.timeout
  pub free : c.config.default_headers ≢ none → c.header_locked ≡ false

module _ (x : Externals) (key : String) (exchange : Exchange) where
  apply_with-IsSettled :
      (s : Storage x) (c : HttpClient) (r : DialerResult)
      → IsSettled c
      → IsSettled (apply_with x s c r).0.1
  unfolding apply_with
  apply_with-IsSettled s c (made d) i = record {
    redirect = i.redirect;
    timeout = i.timeout;
    free = i.free;
  }
  apply_with-IsSettled s c (refused e) i = i
  apply_with-IsSettled s c panic i = i

  with_proxy-IsSettled :
      (c : HttpClient) (url : String) → IsSettled c → IsSettled (with_proxy c url)
  unfolding build_redirect
  with_proxy-IsSettled c url i = record {
    redirect = i.redirect;
    timeout = i.timeout;
    free = i.free;
  }

  apply_proxy-IsSettled :
      (s : Storage x) (c : HttpClient) → IsSettled c → IsSettled (apply_proxy x s c).0.1
  unfolding apply_proxy
  apply_proxy-IsSettled s c i = apply_with-IsSettled s c _ i

  or_roll_back-IsSettled :
      (cur : String) (r : (Storage x × HttpClient) × Applied)
      → IsSettled r.0.1
      → IsSettled (or_roll_back x cur r).0.1
  unfolding or_roll_back
  or_roll_back-IsSettled cur (sc, applied) i = i
  or_roll_back-IsSettled cur (sc, apply_panicked) i = i
  or_roll_back-IsSettled cur ((s, c), apply_refused e) i =
      apply_proxy-IsSettled s (with_proxy c cur) (with_proxy-IsSettled c cur i)

  pub set_proxy-IsSettled :
      (s : Storage x) (c : HttpClient) (url : String)
      → IsSettled c
      → IsSettled (set_proxy x s c url).0.1
  unfolding set_proxy
  set_proxy-IsSettled s c url i =
      or_roll_back-IsSettled (get_proxy c) _
        (apply_proxy-IsSettled s (with_proxy c url) (with_proxy-IsSettled c url i))

  issue-IsSettled :
      (c : HttpClient) (req : Request) (a : DebugAnswers) (o : Option ℕ)
      → IsSettled c
      → IsSettled (issue exchange c req a o).client
  unfolding issue received
  issue-IsSettled c req a none i = record {
    redirect = i.redirect;
    timeout = i.timeout;
    free = i.free;
  }
  issue-IsSettled c req a (some e) i = i

  prepared-IsSettled :
      (c : HttpClient) (req : Request) (a : DebugAnswers) (o : Option Header)
      → (o ≡ none → c.config.default_headers ≡ none)
      → IsSettled c
      → IsSettled (prepared exchange c req a o).client
  unfolding prepared
  prepared-IsSettled c req a none q i = record {
    redirect = i.redirect;
    timeout = i.timeout;
    free = λ p. elim (p (q refl)) [ ];
  }
  prepared-IsSettled c req a (some m) q i = issue-IsSettled c (record req { header = some m }) a _ i

  defaults_of_none : (d own : Option Header) → prepare key d own ≡ none → d ≡ none
  unfolding prepare lower_order
  defaults_of_none none own e = refl
  defaults_of_none (some d) none e = cc
  defaults_of_none (some d) (some []) e = cc
  defaults_of_none (some d) (some (_ ∷ _)) e = cc

  pub do_request-IsSettled :
      (c : HttpClient) (req : Request) (a : DebugAnswers)
      → IsSettled c
      → IsSettled (do_request key exchange c req a).client
  do_request-IsSettled c req a i = elim (Bool-cases c.header_locked) [
    | inl locked ↦
        subst (λ z. IsSettled z.client) (sym (do_request_locked key exchange c req a locked)) i
    | inr free ↦
        subst (λ z. IsSettled z.client) (sym (do_request_free key exchange c req a free))
          (prepared-IsSettled c req a _ (defaults_of_none _ _) i)
  ]

  restore-IsSettled :
      (z : (Storage x × HttpClient) × Applied) (r : DoResult)
      → IsSettled z.0.1
      → IsSettled (restore x key exchange z r).0.1
  unfolding restore
  restore-IsSettled (sc, apply_panicked) r i = i
  restore-IsSettled (sc, applied) r i = i
  restore-IsSettled (sc, apply_refused e) r i = i

  restored-IsSettled :
      (s : Storage x) (cur : String) (c : HttpClient) (r : DoResult)
      → IsSettled c
      → IsSettled (restored x key exchange s cur c r).0.1
  unfolding restored
  restored-IsSettled s cur c r i = elim (Bool-cases (returns r)) [
    | inl back ↦
        subst {A = (Storage x × HttpClient) × DoResult} (λ z. IsSettled z.0.1)
          (sym (if_true (returns r) _ _ back))
          (restore-IsSettled (set_proxy x s c cur) r (set_proxy-IsSettled s c cur i))
    | inr stopped ↦
        subst {A = (Storage x × HttpClient) × DoResult} (λ z. IsSettled z.0.1)
          (sym (if_false (returns r) _ _ stopped)) i
  ]

  do_after-IsSettled :
      (cur : String) (req : Request) (a : DebugAnswers) (z : (Storage x × HttpClient) × Applied)
      → IsSettled z.0.1
      → IsSettled (do_after x key exchange cur req a z).0.1
  unfolding do_after
  do_after-IsSettled cur req a (sc, apply_refused e) i = i
  do_after-IsSettled cur req a (sc, apply_panicked) i = i
  do_after-IsSettled cur req a ((s, c), applied) i =
      restored-IsSettled s cur _ _ (do_request-IsSettled c req a i)

  pub do_with_proxy-IsSettled :
      (s : Storage x) (c : HttpClient) (req : Request) (a : DebugAnswers) (url : String)
      → IsSettled c
      → IsSettled (do_with_proxy x key exchange s c req a url).0.1
  unfolding do_with_proxy
  do_with_proxy-IsSettled s c req a url i =
      do_after-IsSettled (get_proxy c) req a _ (set_proxy-IsSettled s c url i)
