-- ===== src/Client/Reach.antt =====
-- client.go: what holds of every client that was made by NewHttpClient, whatever was called on it.
use httpkit.Prelude.{◌≡◌, refl, ap, subst, Bool, String, List, Option, none, some, arith}
use httpkit.Http.{Url, Cookie}
use httpkit.Logger.{Logger}
use httpkit.Jar.{CookieJar}
use httpkit.Profiles.{ClientProfile}
use httpkit.Connect.{DialerResult, made, refused, panic}
use httpkit.ClientOptions.{HttpClientConfig, HttpClientOption, apply_options}
use httpkit.Client.{
  HttpClient, Request, initial_config, build_redirect, apply_follow_redirect, set_follow_redirect,
  set_cookie_jar, get_cookies, store_cookies, read_cookies, write_cookies,
}
use httpkit.Client.Send.{Exchange, DebugAnswers, do_request}
use httpkit.Client.Proxy.{
  Externals, Storage, set_proxy, do_with_proxy, build_with, build_from_config, created,
  new_http_client,
}
use httpkit.Client.Direct.{client_or}
use httpkit.Client.Settled.{
  IsSettled, set_proxy-IsSettled, do_request-IsSettled, do_with_proxy-IsSettled,
}

set_follow_redirect-IsSettled :
    (c : HttpClient) (b : Bool) → IsSettled c → IsSettled (set_follow_redirect c b)
unfolding set_follow_redirect apply_follow_redirect build_redirect
set_follow_redirect-IsSettled c b i = record {
  redirect = ground arith;
  timeout = i.timeout;
  free = i.free;
}

read_cookies-IsSettled :
    (c : HttpClient) (u : Url) (j : Option CookieJar)
    → IsSettled c
    → IsSettled (read_cookies c u j).0
unfolding read_cookies
read_cookies-IsSettled c u none i = i
read_cookies-IsSettled c u (some j) i = record {
  redirect = i.redirect;
  timeout = i.timeout;
  free = i.free;
}

write_cookies-IsSettled :
    (c : HttpClient) (u : Url) (cs : List Cookie) (j : Option CookieJar)
    → IsSettled c
    → IsSettled (write_cookies c u cs j)
unfolding write_cookies
write_cookies-IsSettled c u cs none i = i
write_cookies-IsSettled c u cs (some j) i = record {
  redirect = i.redirect;
  timeout = i.timeout;
  free = i.free;
}

module _ (x : Externals) (key : String) (exchange : Exchange) where
  -- The calls that change a client.
  pub data Step (s : Storage x) (c : HttpClient) : Storage x → HttpClient → Type 0 where
    follow : (b : Bool) → Step s c s (set_follow_redirect c b)
    proxy : (url : String) → Step s c (set_proxy x s c url).0.0 (set_proxy x s c url).0.1
    jar : (j : Option CookieJar) → Step s c s (set_cookie_jar c j)
    read : (u : Url) → Step s c s (get_cookies c u).0
    write : (u : Url) (cs : List Cookie) → Step s c s (store_cookies c u cs)
    request :
        (req : Request) (a : DebugAnswers) → Step s c s (do_request key exchange c req a).client
    proxied :
        (req : Request) (a : DebugAnswers) (url : String)
        → Step s c
            (do_with_proxy x key exchange s c req a url).0.0
            (do_with_proxy x key exchange s c req a url).0.1

  -- Other clients may change the storage of pins in between.
  pub data Reach (c : HttpClient) : HttpClient → Type 0 where
    here : Reach c c
    next : {s s' : Storage x} {c' c'' : HttpClient} → Reach c c' → Step s c' s' c'' → Reach c c''

  Step-IsSettled :
      {s : Storage x} {c : HttpClient} {s' : Storage x} {c' : HttpClient}
      → Step s c s' c'
      → IsSettled c
      → IsSettled c'
  unfolding get_cookies store_cookies set_cookie_jar
  Step-IsSettled {c} (follow b) i = set_follow_redirect-IsSettled c b i
  Step-IsSettled {s} {c = c} (proxy url) i = set_proxy-IsSettled x key exchange s c url i
  Step-IsSettled (jar j) i = record { redirect = i.redirect; timeout = i.timeout; free = i.free }
  Step-IsSettled {c} (read u) i = read_cookies-IsSettled c u c.jar i
  Step-IsSettled {c} (write u cs) i = write_cookies-IsSettled c u cs c.jar i
  Step-IsSettled {c} (request req a) i = do_request-IsSettled x key exchange c req a i
  Step-IsSettled {s} {c = c} (proxied req a url) i =
      do_with_proxy-IsSettled x key exchange s c req a url i

  created-IsSettled :
      (s : Storage x) (logger : Option Logger) (config : HttpClientConfig) (flow : String)
      (r : DialerResult) (c : HttpClient)
      → (build_with x s logger config flow r).1 ≡ created c
      → IsSettled c
  unfolding build_with build_redirect
  created-IsSettled s logger config flow (made d) c e =
      subst IsSettled (ap (client_or c) e)
        (record { redirect = refl; timeout = refl; free = λ _. refl })
  created-IsSettled s logger config flow (refused d) c e = cc
  created-IsSettled s logger config flow panic c e = cc

  -- A client that NewHttpClient made, and that was used in any way since, follows redirects as its
  -- configuration says, keeps its timeout, and has the lock of its headers free unless its default
  -- headers are nil.
  pub Reach-IsSettled :
      (s : Storage x) (profile : ClientProfile) (flow : String) (logger : Option Logger)
      (options : List HttpClientOption) (c c' : HttpClient)
      → (new_http_client x s profile flow logger options).1 ≡ created c
      → Reach c c'
      → IsSettled c'
  unfolding new_http_client build_from_config
  Reach-IsSettled s profile flow logger options c _ e here =
      created-IsSettled s logger (apply_options options (initial_config profile)) flow _ c e
  Reach-IsSettled s profile flow logger options c _ e (next r t) =
      Step-IsSettled t (Reach-IsSettled s profile flow logger options c _ e r)
