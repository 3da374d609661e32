-- ===== src/Connect/Schemes.antt =====
-- connect.go, newConnectDialer: when it panics.
use httpkit.Prelude.{
  ℕ, refl, ◌≢◌, ℤ, Bool, true, false, String, Option, none, some, ◌==◌, ◌||◌, if◌then◌else◌,
}
use httpkit.Connect.{
  Header, NetDialer, UserInfo, ProxyUrl, ConnectDialer, ProxyAuth, DialerError, missing_scheme,
  unsupported_scheme, DialerResult, refused, panic, new_connect_dialer, with_user, connect_with,
  by_scheme, of_parsed, handle_socks5_proxy_dialer, socks_result, configured_dialer, authorize,
}

if-ne-panic :
    (b : Bool) (r r' : DialerResult) → r ≢ panic → r' ≢ panic → (if b then r else r') ≢ panic
if-ne-panic true r r' h h' = h
if-ne-panic false r r' h h' = h'

refused-ne-panic : (e : DialerError) → refused e ≢ panic
refused-ne-panic e = λ q. cc

module _ (parse : String → Option ProxyUrl) (encode : String → String)
    (socks5 : String → Option ProxyAuth → NetDialer → Option ℕ) where
  socks_result-ne-panic :
      (host : String) (auth : Option ProxyAuth) (d : NetDialer) (o : Option ℕ)
      → socks_result parse encode socks5 host auth d o ≢ panic
  socks_result-ne-panic host auth d none = λ e. cc
  socks_result-ne-panic host auth d (some n) = λ e. cc

  authorize-ne-panic :
      (d : ConnectDialer) (value : String) (h : Option Header)
      → h ≢ none
      → authorize parse encode socks5 d value h ≢ panic
  authorize-ne-panic d value none n = elim (n refl) [ ]
  authorize-ne-panic d value (some h) n = λ e. cc

  with_user-ne-panic :
      (d : ConnectDialer) (o : Option UserInfo)
      → d.default_header ≢ none
      → with_user parse encode socks5 d o ≢ panic
  unfolding with_user
  with_user-ne-panic d none n = λ e. cc
  with_user-ne-panic d (some u) n =
      if-ne-panic (u.username == "") _ _ (λ e. cc) (authorize-ne-panic d _ d.default_header n)

  connect_with-ne-panic :
      (u : ProxyUrl) (port : String) (timeout : ℤ) (d : NetDialer) (h : Option Header)
      → h ≢ none
      → connect_with parse encode socks5 u port timeout d h ≢ panic
  unfolding connect_with
  connect_with-ne-panic u port timeout d h n = with_user-ne-panic _ u.user n

  socks5-ne-panic :
      (u : ProxyUrl) (d : NetDialer) → handle_socks5_proxy_dialer parse encode socks5 u d ≢ panic
  unfolding handle_socks5_proxy_dialer
  socks5-ne-panic u d = socks_result-ne-panic u.host _ d _

  by_scheme-ne-panic :
      (u : ProxyUrl) (timeout : ℤ) (d : NetDialer) (h : Option Header)
      → h ≢ none
      → by_scheme parse encode socks5 u timeout d h ≢ panic
  unfolding by_scheme
  by_scheme-ne-panic u timeout d h n =
      if-ne-panic (u.scheme == "http") _ _ (connect_with-ne-panic u "80" timeout d h n) (
        if-ne-panic (u.scheme == "https") _ _ (connect_with-ne-panic u "443" timeout d h n) (
          if-ne-panic (u.scheme == "socks5" || u.scheme == "socks5h") _ _ (socks5-ne-panic u d) (
            if-ne-panic (u.scheme == "") _ _ (refused-ne-panic missing_scheme)
              (refused-ne-panic (unsupported_scheme u.scheme)))))

  of_parsed-ne-panic :
      (o : Option ProxyUrl) (timeout : ℤ) (d : NetDialer) (h : Option Header)
      → h ≢ none
      → of_parsed parse encode socks5 o timeout d h ≢ panic
  unfolding of_parsed
  of_parsed-ne-panic none timeout d h n = λ e. cc
  of_parsed-ne-panic (some u) timeout d h n =
      if-ne-panic (u.host == "") _ _ (λ e. cc) (by_scheme-ne-panic u timeout d h n)

  -- With headers for CONNECT that are not nil, `newConnectDialer` returns a dialer or an error for
  -- every URL: it does not panic.
  pub new_connect_dialer-ne-panic :
      (url : String) (timeout : ℤ) (addr : Option String) (d : NetDialer) (h : Option Header)
      → h ≢ none
      → new_connect_dialer parse encode socks5 url timeout addr d h ≢ panic
  unfolding new_connect_dialer
  new_connect_dialer-ne-panic url timeout addr d h n =
      of_parsed-ne-panic (parse url) timeout (configured_dialer timeout addr d) h n
