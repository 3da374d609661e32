-- ===== src/Client.antt =====
-- client.go: the state of a client, its settings and its cookies. `Send` is Do, Get, Head and Post;
-- `Proxy` is SetProxy, DoWithProxy and NewHttpClient.
pub mod Send
pub mod Proxy
pub mod Settled
pub mod Reach
pub mod Headers
pub mod SetProxy
pub mod DoWithProxy
pub mod Direct
pub mod Default
pub mod Cookies
mod Tests
use httpkit.Prelude.{
  ℕ, ℤ, pos, Bool, true, false, String, List, [], Option, none, some, is_some, ◌&&◌, if◌then◌else◌,
}
use httpkit.Http.{Url, Cookie}
use httpkit.Logger.{Logger, new_noop_logger, new_debug_logger, new_logger}
use httpkit.Jar.{CookieJar, cookies, set_cookies}
use httpkit.Profiles.{ClientProfile}
use httpkit.TlsDial.{TrackerKind, counting, nope, RoundTripper}
use httpkit.Transport.{Transport}
use httpkit.RoundTripper.{close_idle_connections}
use httpkit.Connect.{Header, ContextDialer}
use httpkit.ClientOptions.{RedirectFunc, default_redirect_func, HttpClientConfig, duration, second}

-- `http.Client.Transport`: the round tripper and the dialer it was made with.
pub record ClientTransport : Type 0 where
  pub round_tripper : RoundTripper
  pub dialer : ContextDialer

-- `header_locked` is the state of `headerLck` between operations.
pub record HttpClient : Type 0 where
  pub logger : Logger
  pub bandwidth_tracker : TrackerKind
  pub config : HttpClientConfig
  pub transport : ClientTransport
  pub check_redirect : Option RedirectFunc
  pub jar : Option CookieJar
  pub timeout : ℤ
  pub header_locked : Bool

-- The fields of http.Request that the program reads; a nil header is `none`.
pub record Request : Type 0 where
  pub method : String
  pub url : String
  pub header : Option Header
  pub body : Option ℕ

pub record Response : Type 0 where
  pub status : ℕ
  pub has_body : Bool

abbrev pub initial_config : ClientProfile → HttpClientConfig
initial_config profile = record {
  cookie_jar = none;
  custom_redirect_func = none;
  certificate_pins = [];
  default_headers = some [];
  connect_headers = some [];
  bad_pin_handler = false;
  transport_options = none;
  local_addr = none;
  dialer = record { timeout = pos 0; local_addr = none; rest = 0 };
  proxy_dialer_factory = none;
  flow_id = "";
  proxy_url = "";
  server_name_overwrite = "";
  client_profile = profile;
  timeout = duration second (pos 30);
  catch_panics = false;
  debug = false;
  follow_redirects = true;
  insecure_skip_verify = false;
  with_random_tls_extension_order = false;
  force_http1 = false;
  disable_ipv6 = false;
  disable_ipv4 = false;
  enabled_bandwidth_tracker = false;
}

unfoldable pub choose_logger : Option Logger → Bool → Logger
unfolding new_noop_logger new_debug_logger new_logger
choose_logger none debug = if debug then new_debug_logger new_logger else new_noop_logger
choose_logger (some l) debug = if debug then new_debug_logger l else l

-- The redirect function of buildFromConfig.
unfoldable pub build_redirect : HttpClientConfig → Option RedirectFunc
build_redirect c = if c.follow_redirects then c.custom_redirect_func else some default_redirect_func

abbrev pub tracker_of : Bool → TrackerKind
tracker_of enabled = if enabled then counting else nope

unfoldable pub apply_follow_redirect : HttpClient → HttpClient
apply_follow_redirect c = record c {
  check_redirect =
      if is_some c.config.custom_redirect_func && c.config.follow_redirects
      then c.config.custom_redirect_func
      else if c.config.follow_redirects
      then none
      else some default_redirect_func;
}

unfoldable pub set_follow_redirect : HttpClient → Bool → HttpClient
unfolding apply_follow_redirect
set_follow_redirect c b =
    apply_follow_redirect (record c { config = record c.config { follow_redirects = b } })

abbrev pub get_follow_redirect : HttpClient → Bool
get_follow_redirect c = c.config.follow_redirects

abbrev pub get_proxy : HttpClient → String
get_proxy c = c.config.proxy_url

-- The client with another proxy URL in its configuration.
abbrev pub with_proxy : HttpClient → String → HttpClient
with_proxy c url = record c { config = record c.config { proxy_url = url } }

-- `CloseIdleConnections`: the transports of the round tripper that are called.
pub close_idle_transports : (Transport → Bool) → HttpClient → List Transport
unfolding close_idle_connections
close_idle_transports closes_idle c = close_idle_connections closes_idle c.transport.round_tripper

unfoldable pub set_cookie_jar : HttpClient → Option CookieJar → HttpClient
set_cookie_jar c j = record c { jar = j }

-- The jar that answers a read holds what the read leaves.
unfoldable pub read_cookies : HttpClient → Url → Option CookieJar → HttpClient × List Cookie
read_cookies c u none = (c, [])
read_cookies c u (some j) = (record c { jar = some (cookies j u).0 }, (cookies j u).1)

unfoldable pub get_cookies : HttpClient → Url → HttpClient × List Cookie
unfolding read_cookies
get_cookies c u = read_cookies c u c.jar

unfoldable pub write_cookies : HttpClient → Url → List Cookie → Option CookieJar → HttpClient
write_cookies c u cs none = c
write_cookies c u cs (some j) = record c { jar = some (set_cookies j u cs).0 }

-- `SetCookies` of the client.
unfoldable pub store_cookies : HttpClient → Url → List Cookie → HttpClient
unfolding write_cookies
store_cookies c u cs = write_cookies c u cs c.jar
