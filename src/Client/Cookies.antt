-- ===== src/Client/Cookies.antt =====
-- client.go, jar.go: the cookies of a client are those of a map, which SetCookieJar empties.
use httpkit.Prelude.{◌≡◌, ◌∙◌, refl, sym, ap, Bool, false, String, List, [], ◌∷◌, Option, some}
use httpkit.Http.{Url, Cookie}
use httpkit.Logger.{Logger}
use httpkit.Jar.{
  CookieJar, CookieJarOption, new_cookie_jar, find_cookie_by_name, stored, set_cookies, cookies,
  build_cookie_host_key,
}
use httpkit.Jar.Store.{Store, store_set}
use httpkit.Jar.Expiry.{find_alive-eq, cookies-eq-not_expired}
use httpkit.Jar.Refinement.{
  Answer, nothing, slice, Implements, set_cookies-Implements, cookies-Implements, no_cookies,
  fresh-Implements, default-Implements,
}
use httpkit.Profiles.{ClientProfile}
use httpkit.Client.{
  HttpClient, set_follow_redirect, set_cookie_jar, get_cookies, store_cookies, read_cookies,
  write_cookies, apply_follow_redirect,
}
use httpkit.Client.Proxy.{Externals, Storage, created, set_proxy}
use httpkit.Client.SetProxy.{
  changed, rolled_back, kept, roll_back_panicked, set_panicked, set_proxy-SetProxyCase,
}
use httpkit.Client.Direct.{client_or}
use httpkit.Client.Default.{provide_default_client, provide_default_client-created}

-- The calls of a client for its cookies, and the settings that are changed between them.
-- `call_set_cookie_jar` is given a new jar.
pub data ClientCall : Type 0 where
  call_set_cookies : Url → List Cookie → ClientCall
  call_get_cookies : Url → ClientCall
  call_set_cookie_jar : List CookieJarOption → ClientCall
  call_set_proxy : String → ClientCall
  call_set_follow_redirect : Bool → ClientCall

-- The answers are those of the store.
pub Meets : Bool → Store → List ClientCall → List Answer → Type 0
Meets allow_empty s (call_set_cookies u cs ∷ calls) (nothing ∷ answers) =
    Meets allow_empty (store_set allow_empty s u cs) calls answers
Meets allow_empty s (call_get_cookies u ∷ calls) (slice found ∷ answers) =
    ((name : String) → find_cookie_by_name found name ≡ s (build_cookie_host_key u) name)
    × Meets allow_empty s calls answers
Meets allow_empty s (call_set_cookie_jar options ∷ calls) (nothing ∷ answers) =
    Meets (new_cookie_jar options).config.allow_empty no_cookies calls answers
Meets allow_empty s (call_set_proxy url ∷ calls) (nothing ∷ answers) =
    Meets allow_empty s calls answers
Meets allow_empty s (call_set_follow_redirect b ∷ calls) (nothing ∷ answers) =
    Meets allow_empty s calls answers
Meets allow_empty s [] [] = Unit
Meets allow_empty s _ _ = ⊥

-- No jar is made with `WithSkipExisting`.
unfoldable pub AllOverwrite : List ClientCall → Type 0
AllOverwrite [] = Unit
AllOverwrite (call_set_cookie_jar options ∷ calls) =
    ((new_cookie_jar options).config.skip_existing ≡ false) × AllOverwrite calls
AllOverwrite (_ ∷ calls) = AllOverwrite calls

-- The jar of a client implements a store.
abbrev Serves : HttpClient → Bool → Store → Type 0
Serves c allow_empty s = (jar : CookieJar) × (c.jar ≡ some jar) × Implements jar allow_empty s

written :
    (c : HttpClient) (u : Url) (cs : List Cookie) (allow_empty : Bool) (s : Store)
    → Serves c allow_empty s
    → Serves (store_cookies c u cs) allow_empty (store_set allow_empty s u cs)
unfolding store_cookies write_cookies
written c u cs allow_empty s (jar, e, i) = (
  (set_cookies jar u cs).0,
  rw (e, store_cookies, write_cookies) refl,
  set_cookies-Implements allow_empty jar s u cs i,
)

-- A read of a client is a read of its jar.
read :
    (c : HttpClient) (u : Url) (jar : CookieJar)
    → c.jar ≡ some jar
    → ((get_cookies c u).0.jar ≡ some (cookies jar u).0) × ((get_cookies c u).1 ≡ (cookies jar u).1)
unfolding get_cookies read_cookies
read c u jar e = (rw (e, get_cookies, read_cookies) refl, rw (e, get_cookies, read_cookies) refl)

module _ (x : Externals) where
  set_proxy_keeps_jar :
      (s : Storage x) (c : HttpClient) (url : String) → (set_proxy x s c url).0.1.jar ≡ c.jar
  set_proxy_keeps_jar s c url = elim (set_proxy-SetProxyCase x s c url) [
    | changed d _ e ↦ ap (λ r. r.0.1.jar) e
    | rolled_back _ d _ _ e ↦ ap (λ r. r.0.1.jar) e
    | kept _ old _ _ e ↦ ap (λ r. r.0.1.jar) e
    | roll_back_panicked _ _ _ e ↦ ap (λ r. r.0.1.jar) e
    | set_panicked _ e ↦ ap (λ r. r.0.1.jar) e
  ]

  pub run : Storage x → HttpClient → List ClientCall → List Answer
  run s c [] = []
  run s c (call_set_cookies u cs ∷ calls) = nothing ∷ run s (store_cookies c u cs) calls
  run s c (call_get_cookies u ∷ calls) = let r = get_cookies c u in slice r.1 ∷ run s r.0 calls
  run s c (call_set_cookie_jar options ∷ calls) =
      nothing ∷ run s (set_cookie_jar c (some (new_cookie_jar options))) calls
  run s c (call_set_proxy url ∷ calls) =
      let r = set_proxy x s c url in nothing ∷ run r.0.0 r.0.1 calls
  run s c (call_set_follow_redirect b ∷ calls) = nothing ∷ run s (set_follow_redirect c b) calls

  run-Meets_from :
      (calls : List ClientCall) (st : Storage x) (c : HttpClient) (allow_empty : Bool) (s : Store)
      → AllOverwrite calls
      → Serves c allow_empty s
      → Meets allow_empty s calls (run st c calls)
  unfolding run Meets AllOverwrite set_cookie_jar set_follow_redirect apply_follow_redirect
  run-Meets_from [] st c allow_empty s o i = tt
  run-Meets_from (call_set_cookies u cs ∷ calls) st c allow_empty s o i =
      run-Meets_from calls st (store_cookies c u cs) allow_empty (store_set allow_empty s u cs) o
        (written c u cs allow_empty s i)
  run-Meets_from (call_get_cookies u ∷ calls) st c allow_empty s o (jar, e, i) =
      let (left, answer) = read c u jar e in
      (
        λ name.
            rw (answer, cookies-eq-not_expired jar u)
              (rw⁻¹ (find_alive-eq (stored jar (build_cookie_host_key u)) name)
                (i.same (build_cookie_host_key u) name)),
        run-Meets_from calls st (get_cookies c u).0 allow_empty s o
            ((cookies jar u).0, left, cookies-Implements allow_empty jar s u i),
      )
  run-Meets_from (call_set_cookie_jar options ∷ calls) st c allow_empty s (overwrites, o) i =
      run-Meets_from calls st (set_cookie_jar c (some (new_cookie_jar options)))
        (new_cookie_jar options).config.allow_empty no_cookies o
        (new_cookie_jar options, refl, fresh-Implements options overwrites)
  run-Meets_from (call_set_proxy url ∷ calls) st c allow_empty s o (jar, e, i) =
      let r = set_proxy x st c url in
      run-Meets_from calls r.0.0 r.0.1 allow_empty s o (jar, set_proxy_keeps_jar st c url ∙ e, i)
  run-Meets_from (call_set_follow_redirect b ∷ calls) st c allow_empty s o (jar, e, i) =
      run-Meets_from calls st (set_follow_redirect c b) allow_empty s o (jar, e, i)

  -- A client that ProvideDefaultClient made answers every sequence of SetCookies and GetCookies as
  -- a map from host keys and names to live cookies does, whatever calls of SetProxy and
  -- SetFollowRedirect stand between them; SetCookieJar, with a new jar made without
  -- `WithSkipExisting`, empties the map.
  pub default_client-Meets :
      (s : Storage x) (profile : ClientProfile) (flow : String) (logger : Option Logger)
      (c : HttpClient) (calls : List ClientCall)
      → (provide_default_client x s profile flow logger).1 ≡ created c
      → AllOverwrite calls
      → Meets false no_cookies calls
          (run (provide_default_client x s profile flow logger).0 c calls)
  default_client-Meets s profile flow logger c calls e o =
      let (d, same, _, _, jar, _, _, _) = provide_default_client-created x s profile flow logger in
      let is : d ≡ c = ap (client_or c) (sym same ∙ e) in
      run-Meets_from calls (provide_default_client x s profile flow logger).0 c false no_cookies o
        (new_cookie_jar [], ap (λ y. y.jar) (sym is) ∙ jar, default-Implements)
