-- ===== src/Connect.antt =====
-- connect.go: the dialers. `new_connect_dialer` makes the dialer of a proxy URL; what it does on a
-- dial is in `Tunnel`. url.Parse, base64 and the SOCKS5 dialer are parameters.
pub mod Schemes
pub mod Tunnel
pub mod Open
pub mod Request
pub mod Dialers
pub mod Http2Conn
mod Tests
use Prim.Native.String.{◌++◌ as append}
use httpkit.Prelude.{
  ℕ, ℤ, Bool, true, String, List, [], ◌∷◌, Option, none, some, Assoc, put, ◌==◌, ◌||◌,
  if◌then◌else◌,
}
use httpkit.Text.{join_host_port}

-- http.Header; nil is `none` where the code can meet it.
abbrev pub Header : Type 0
Header = Assoc (List String)

-- net.Dialer: the fields that the code sets, and the rest as one value.
pub record NetDialer : Type 0 where
  pub timeout : ℤ
  pub local_addr : Option String
  pub rest : ℕ

-- url.Userinfo
pub record UserInfo : Type 0 where
  pub username : String
  pub password : Option String

-- url.URL of a proxy, with what `Port` and `Hostname` return.
pub record ProxyUrl : Type 0 where
  pub scheme : String
  pub host : String
  pub port : String
  pub hostname : String
  pub user : Option UserInfo

-- An http2.ClientConn and the connection under it.
pub record CachedConn : Type 0 where
  pub client_conn : ℕ
  pub raw_conn : ℕ

pub record ConnectDialer : Type 0 where
  pub proxy_url : ProxyUrl
  pub dialer : NetDialer
  pub timeout : ℤ
  pub default_header : Option Header
  pub enable_h2_conn_reuse : Bool
  pub cached_h2 : Option CachedConn

-- proxy.Auth
pub record ProxyAuth : Type 0 where
  pub user : String
  pub password : String

-- The values of proxy.ContextDialer: `direct` is proxy.Direct, which has no settings; `external`
-- is one that the program did not make.
pub data ContextDialer : Type 0 where
  direct : ContextDialer
  direct_dialer : NetDialer → ContextDialer
  connect_dialer : ConnectDialer → ContextDialer
  socks_dialer : String → Option ProxyAuth → NetDialer → ContextDialer
  external : ℕ → ContextDialer

pub data DialerError : Type 0 where
  parse_failed missing_host missing_scheme : DialerError
  unsupported_scheme : String → DialerError
  socks_failed factory_failed : ℕ → DialerError

-- A dialer, an error, or a panic: a write to a nil map.
pub data DialerResult : Type 0 where
  made : ContextDialer → DialerResult
  refused : DialerError → DialerResult
  panic : DialerResult

abbrev local_addr_or : Option String → Option String → Option String
local_addr_or none d = d
local_addr_or (some a) d = some a

-- The timeout and the local address of the configuration, on the dialer of the configuration.
unfoldable pub configured_dialer : ℤ → Option String → NetDialer → NetDialer
configured_dialer timeout local_addr d = record d {
  timeout = timeout;
  local_addr = local_addr_or local_addr d.local_addr;
}

unfoldable pub new_direct_dialer : ℤ → Option String → NetDialer → ContextDialer
unfolding configured_dialer
new_direct_dialer timeout local_addr d = direct_dialer (configured_dialer timeout local_addr d)

abbrev text_or_empty : Option String → String
text_or_empty none = ""
text_or_empty (some s) = s

-- The host with the port of the scheme, where the URL names none.
unfoldable pub host_with_port : ProxyUrl → String → String
unfolding join_host_port
host_with_port u port = if u.port == "" then join_host_port u.host port else u.host

abbrev auth_of : Option UserInfo → Option ProxyAuth
auth_of none = none
auth_of (some u) = some (record { user = u.username; password = text_or_empty u.password })

module _ (parse : String → Option ProxyUrl) (encode : String → String)
    (socks5 : String → Option ProxyAuth → NetDialer → Option ℕ) where
  abbrev pub socks_result : String → Option ProxyAuth → NetDialer → Option ℕ → DialerResult
  socks_result host auth d none = made (socks_dialer host auth d)
  socks_result host auth d (some e) = refused (socks_failed e)

  -- handleSocks5ProxyDialer; `socks5` is the error of proxy.SOCKS5, if any.
  unfoldable pub handle_socks5_proxy_dialer : ProxyUrl → NetDialer → DialerResult
  handle_socks5_proxy_dialer u d =
      socks_result u.host (auth_of u.user) d (socks5 u.host (auth_of u.user) d)

  -- DefaultHeader.Set("Proxy-Authorization", …), which panics on a nil header.
  abbrev pub authorize : ConnectDialer → String → Option Header → DialerResult
  authorize d value none = panic
  authorize d value (some h) = made (
      connect_dialer
        (record d { default_header = some (put "Proxy-Authorization" (value ∷ []) h) }))

  unfoldable pub with_user : ConnectDialer → Option UserInfo → DialerResult
  with_user d none = made (connect_dialer d)
  with_user d (some u) =
      if u.username == ""
      then made (connect_dialer d)
      else authorize d
          (append "Basic " (encode (append u.username (append ":" (text_or_empty u.password)))))
          d.default_header

  -- The connect dialer of a URL with scheme "http" or "https".
  unfoldable pub connect_with : ProxyUrl → String → ℤ → NetDialer → Option Header → DialerResult
  unfolding with_user host_with_port
  connect_with u port timeout d headers =
      with_user
        (record {
          proxy_url = record u { host = host_with_port u port };
          dialer = d;
          timeout = timeout;
          default_header = headers;
          enable_h2_conn_reuse = true;
          cached_h2 = none;
        })
        u.user

  -- The switch on the scheme.
  unfoldable pub by_scheme : ProxyUrl → ℤ → NetDialer → Option Header → DialerResult
  unfolding connect_with handle_socks5_proxy_dialer
  by_scheme u timeout d headers =
      if u.scheme == "http"
      then connect_with u "80" timeout d headers
      else if u.scheme == "https"
      then connect_with u "443" timeout d headers
      else if u.scheme == "socks5" || u.scheme == "socks5h"
      then handle_socks5_proxy_dialer u d
      else if u.scheme == ""
      then refused missing_scheme
      else refused (unsupported_scheme u.scheme)

  unfoldable pub of_parsed : Option ProxyUrl → ℤ → NetDialer → Option Header → DialerResult
  unfolding by_scheme
  of_parsed none timeout d headers = refused parse_failed
  of_parsed (some u) timeout d headers =
      if u.host == "" then refused missing_host else by_scheme u timeout d headers

  unfoldable pub new_connect_dialer :
      String → ℤ → Option String → NetDialer → Option Header → DialerResult
  unfolding of_parsed configured_dialer
  new_connect_dialer url timeout local_addr d headers =
      of_parsed (parse url) timeout (configured_dialer timeout local_addr d) headers
