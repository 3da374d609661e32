-- ===== src/ClientOptions.antt =====
-- client_options.go: the configuration of a client, and the options that set it.
pub mod Timeouts
use Prim.Native.String.{◌++◌ as append}
use httpkit.Prelude.{
  ℕ, ◌+◌, ◌-◌, ◌*◌, ◌%◌, ◌^◌, ℤ, pos, negsuc, Bool, true, false, String, List, [], ◌∷◌, Option,
  some, Assoc, ◌==◌, ltb, if◌then◌else◌,
}
use httpkit.Jar.{CookieJar}
use httpkit.Profiles.{ClientProfile}
use httpkit.Transport.{TransportOptions}
use httpkit.Connect.{Header, NetDialer, DialerResult}

-- The values of `CheckRedirect`: the function that stops at the first response, and those of the
-- user.
pub data RedirectFunc : Type 0 where
  default_redirect_func : RedirectFunc
  user_func : ℕ → RedirectFunc

-- The URL of the proxy, the timeout, the local address and the headers of CONNECT.
abbrev pub ProxyDialerFactory : Type 0
ProxyDialerFactory = String → ℤ → Option String → Option Header → DialerResult

pub record HttpClientConfig : Type 0 where
  pub cookie_jar : Option CookieJar
  pub custom_redirect_func : Option RedirectFunc
  pub certificate_pins : Assoc (List String)
  pub default_headers : Option Header
  pub connect_headers : Option Header
  pub bad_pin_handler : Bool
  pub transport_options : Option TransportOptions
  pub local_addr : Option String
  pub dialer : NetDialer
  pub proxy_dialer_factory : Option ProxyDialerFactory
  pub flow_id : String
  pub proxy_url : String
  pub server_name_overwrite : String
  pub client_profile : ClientProfile
  pub timeout : ℤ
  pub catch_panics : Bool
  pub debug : Bool
  pub follow_redirects : Bool
  pub insecure_skip_verify : Bool
  pub with_random_tls_extension_order : Bool
  pub force_http1 : Bool
  pub disable_ipv6 : Bool
  pub disable_ipv4 : Bool
  pub enabled_bandwidth_tracker : Bool

-- The options, by the function that makes each.
pub data HttpClientOption : Type 0 where
  with_flow_id with_proxy_url with_server_name_overwrite : String → HttpClientOption
  with_charles_proxy : String → String → HttpClientOption
  with_cookie_jar : Option CookieJar → HttpClientOption
  with_timeout_milliseconds with_timeout_seconds : ℤ → HttpClientOption
  with_dialer : NetDialer → HttpClientOption
  with_proxy_dialer_factory : Option ProxyDialerFactory → HttpClientOption
  with_local_addr : String → HttpClientOption
  with_custom_redirect_func : Option RedirectFunc → HttpClientOption
  with_certificate_pinning : Assoc (List String) → Bool → HttpClientOption
  with_transport_options : Option TransportOptions → HttpClientOption
  with_client_profile : ClientProfile → HttpClientOption
  with_default_headers with_connect_headers : Option Header → HttpClientOption
  with_not_follow_redirects with_random_tls_extension_order with_debug : HttpClientOption
  with_catch_panics with_insecure_skip_verify with_force_http1 : HttpClientOption
  with_disable_ipv6 with_disable_ipv4 with_bandwidth_tracker : HttpClientOption

-- The int64 with the given low 64 bits.
abbrev pub of_bits : ℕ → ℤ
of_bits b = if ltb b (2 ^ 63) then pos b else negsuc (2 ^ 64 - 1 - b)

-- A product with a constant, in int64.
unfoldable pub duration : ℕ → ℤ → ℤ
duration unit (pos n) = of_bits (unit * n % 2 ^ 64)
duration unit (negsuc n) = of_bits (2 ^ 64 - 1 - (unit * (n + 1) - 1) % 2 ^ 64)

abbrev pub millisecond : ℕ
millisecond = 1000000

abbrev pub second : ℕ
second = 1000000000

abbrev or_default : String → String → String
or_default d s = if s == "" then d else s

unfoldable pub charles_proxy_url : String → String → String
charles_proxy_url host port =
    append "http://" (append (or_default "127.0.0.1" host) (append ":" (or_default "8888" port)))

unfoldable pub apply_option : HttpClientOption → HttpClientConfig → HttpClientConfig
unfolding charles_proxy_url duration
apply_option (with_flow_id s) c = record c { flow_id = s }
apply_option (with_proxy_url s) c = record c { proxy_url = s }
apply_option (with_server_name_overwrite s) c = record c { server_name_overwrite = s }
apply_option (with_charles_proxy host port) c = record c { proxy_url = charles_proxy_url host port }
apply_option (with_cookie_jar j) c = record c { cookie_jar = j }
apply_option (with_timeout_milliseconds t) c = record c { timeout = duration millisecond t }
apply_option (with_timeout_seconds t) c = record c { timeout = duration second t }
apply_option (with_dialer d) c = record c { dialer = d }
apply_option (with_proxy_dialer_factory f) c = record c { proxy_dialer_factory = f }
apply_option (with_local_addr a) c = record c { local_addr = some a }
apply_option (with_custom_redirect_func f) c = record c { custom_redirect_func = f }
apply_option (with_certificate_pinning pins handler) c = record c {
  certificate_pins = pins;
  bad_pin_handler = handler;
}
apply_option (with_transport_options o) c = record c { transport_options = o }
apply_option (with_client_profile p) c = record c { client_profile = p }
apply_option (with_default_headers h) c = record c { default_headers = h }
apply_option (with_connect_headers h) c = record c { connect_headers = h }
apply_option with_not_follow_redirects c = record c { follow_redirects = false }
apply_option with_random_tls_extension_order c = record c { with_random_tls_extension_order = true }
apply_option with_debug c = record c { debug = true }
apply_option with_catch_panics c = record c { catch_panics = true }
apply_option with_insecure_skip_verify c = record c { insecure_skip_verify = true }
apply_option with_force_http1 c = record c { force_http1 = true }
apply_option with_disable_ipv6 c = record c { disable_ipv6 = true }
apply_option with_disable_ipv4 c = record c { disable_ipv4 = true }
apply_option with_bandwidth_tracker c = record c { enabled_bandwidth_tracker = true }

unfoldable pub apply_options : List HttpClientOption → HttpClientConfig → HttpClientConfig
unfolding apply_option
apply_options [] c = c
apply_options (o ∷ os) c = apply_options os (apply_option o c)
