-- ===== src/Client/Default.antt =====
-- client.go, ProvideDefaultClient: the options of a default client, and the client that they make.
use httpkit.Prelude.{◌≡◌, refl, pos, true, String, List, [], ◌∷◌, ◌++◌, Option, some}
use httpkit.Logger.{Logger}
use httpkit.Jar.{new_cookie_jar}
use httpkit.Profiles.{ClientProfile}
use httpkit.ClientOptions.{
  HttpClientOption, with_timeout_seconds, with_client_profile, with_random_tls_extension_order,
  with_not_follow_redirects, with_cookie_jar, default_redirect_func,
}
use httpkit.Client.{HttpClient, build_redirect}
use httpkit.Client.Proxy.{
  Externals, Storage, NewResult, created, new_http_client, build_from_config, choose_dialer,
}

-- `DefaultOptions`
unfoldable pub default_options : ClientProfile → List HttpClientOption
default_options profile =
    with_timeout_seconds (pos 30)
    ∷ with_client_profile profile
    ∷ with_random_tls_extension_order
    ∷ with_not_follow_redirects
    ∷ []

module _ (x : Externals) where
  -- `ProvideDefaultClient`; `profile` is the default profile.
  unfoldable pub provide_default_client :
      Storage x → ClientProfile → String → Option Logger → Storage x × NewResult
  unfolding default_options new_http_client
  provide_default_client s profile flow logger =
      new_http_client x s profile flow logger
        (default_options profile ++ with_cookie_jar (some (new_cookie_jar [])) ∷ [])

  -- For every logger and profile a default client is made: it has an empty jar, a timeout of thirty
  -- seconds in nanoseconds, and the profile in a random order of extensions, and it returns the
  -- first response in place of following a redirect.
  pub provide_default_client-created :
      (s : Storage x) (profile : ClientProfile) (flow : String) (logger : Option Logger)
      → (c : HttpClient) × ((provide_default_client s profile flow logger).1 ≡ created c)
        × (c.check_redirect ≡ some default_redirect_func)
        × (c.timeout ≡ pos 30000000000)
        × (c.jar ≡ some (new_cookie_jar []))
        × (c.config.client_profile ≡ profile)
        × (c.transport.round_tripper.client_hello_id ≡ profile.client_hello_id)
        × (c.transport.round_tripper.config.with_random_tls_extension_order ≡ true)
  unfolding provide_default_client build_from_config choose_dialer build_redirect
  provide_default_client-created s profile flow logger =
      (_, refl, refl, refl, refl, refl, refl, refl)
