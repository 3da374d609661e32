-- ===== src/Jar.antt =====
-- jar.go: a cookie jar that keeps, for each host key, the cookies that were set.
-- `CookieJar.calls` records the calls of the underlying cookiejar.Jar, which the jar only writes
-- to; `CookieJar.cookies` is the map of the same name. A slice is the list of its elements: the
-- methods that filter in place (`cookies[:0]`) return what the array holds afterwards. Locks and
-- debug messages are left out.
pub mod HostKey
pub mod Lookup
pub mod Distinct
pub mod Expiry
pub mod Sound
pub mod Store
pub mod Alive
pub mod Refinement
mod Tests
use Prim.Native.String.{◌++◌ as append}
use httpkit.Prelude.{
  ◌-◌, Bool, true, false, ◌||◌, ◌&&◌, not, String, List, [], ◌∷◌, ◌++◌, reverse, Option, none, some,
  ℤ, negsuc, lebℤ, leb, length, drop, get_or, filter, Assoc, lookup, put, is_some, ◌==◌,
  if◌then◌else◌,
}
use httpkit.Text.{split}
use httpkit.Http.{Url, Cookie}
use httpkit.Logger.{Logger, new_noop_logger, new_debug_logger}

-- const CookieExpired = -1
abbrev pub cookie_expired : ℤ
cookie_expired = negsuc 0

pub record CookieJarConfig : Type 0 where
  pub logger : Option Logger
  pub skip_existing : Bool
  pub debug : Bool
  pub allow_empty : Bool

-- The options WithSkipExisting, WithAllowEmpty, WithDebugLogger and WithLogger.
pub data CookieJarOption : Type 0 where
  with_skip_existing with_allow_empty with_debug_logger : CookieJarOption
  with_logger : Logger → CookieJarOption

unfoldable pub apply_option : CookieJarOption → CookieJarConfig → CookieJarConfig
apply_option with_skip_existing config = record config { skip_existing = true }
apply_option with_allow_empty config = record config { allow_empty = true }
apply_option with_debug_logger config = record config { debug = true }
apply_option (with_logger logger) config = record config { logger = some logger }

apply_options : List CookieJarOption → CookieJarConfig → CookieJarConfig
apply_options [] config = config
apply_options (opt ∷ opts) config = apply_options opts (apply_option opt config)

pub record CookieJar : Type 0 where
  pub calls : List (Url × List Cookie)
  pub config : CookieJarConfig
  pub cookies : Assoc (List Cookie)

abbrev empty_config : CookieJarConfig
empty_config = record { logger = none; skip_existing = false; debug = false; allow_empty = false }

default_logger : Option Logger → Logger
default_logger none = new_noop_logger
default_logger (some logger) = logger

-- NewCookieJar, where the underlying jar is created.
pub new_cookie_jar : List CookieJarOption → CookieJar
unfolding apply_options default_logger
new_cookie_jar options =
    let config = apply_options options empty_config in
    let logger = default_logger config.logger in
    record {
      calls = [];
      config = record config {
        logger = some (if config.debug then new_debug_logger logger else logger);
      };
      cookies = [];
    }

unfoldable pub find_cookie_by_name : List Cookie → String → Option Cookie
find_cookie_by_name [] name = none
find_cookie_by_name (c ∷ cookies) name =
    if c.name == name then some c else find_cookie_by_name cookies name

-- What an array holds after its first elements were overwritten by those that passed a filter.
pub compact : List Cookie → List Cookie → List Cookie
compact kept array = kept ++ drop (length kept) array

abbrev pub is_full : Cookie → Bool
is_full c = not (c.value == "")

pub non_empty : CookieJarConfig → List Cookie → List Cookie
non_empty config cookies = if config.allow_empty then cookies else filter is_full cookies

pub has_name : String → List String → Bool
has_name name [] = false
has_name name (n ∷ names) = n == name || has_name name names

-- The loop of `unique`, from the end of the slice; `seen` holds the names met so far.
pub unique_from : List String → List Cookie → List Cookie
unfolding has_name
unique_from seen [] = []
unique_from seen (c ∷ cookies) =
    let skipped = unique_from seen cookies in
    let kept = c ∷ unique_from (c.name ∷ seen) cookies in
    if has_name c.name seen then skipped else kept

pub unique : List Cookie → List Cookie
unfolding unique_from
unique cookies = unique_from [] (reverse cookies)

unfoldable pub build_cookie_host_key : Url → String
unfolding split
build_cookie_host_key u =
    let host_parts = split b'.' u.host in
    if leb 2 (length host_parts)
    then append (get_or host_parts (length host_parts - 2) "")
        (append "." (get_or host_parts (length host_parts - 1) ""))
    else u.host

-- jar.cookies[hostKey], which is nil for a missing key.
abbrev slice_of : Option (List Cookie) → List Cookie
slice_of none = []
slice_of (some cookies) = cookies

pub stored : CookieJar → String → List Cookie
stored jar host_key = slice_of (lookup host_key jar.cookies)

-- The cookies whose names are not in the other slice.
pub absent_from : List Cookie → List Cookie → List Cookie
unfolding find_cookie_by_name
absent_from others cookies = filter (λ c. not (is_some (find_cookie_by_name others c.name))) cookies

-- The two branches of `SetCookies` on `skipExisting`.
pub merge : Bool → List Cookie → List Cookie → List Cookie
unfolding absent_from
merge skip_existing existing cookies =
    if skip_existing
    then existing ++ absent_from existing cookies
    else absent_from cookies existing ++ cookies

-- The jar, and what the caller's slice holds afterwards.
pub set_cookies : CookieJar → Url → List Cookie → CookieJar × List Cookie
unfolding compact non_empty unique stored merge build_cookie_host_key
set_cookies jar u cookies =
    let kept = non_empty jar.config cookies in
    let host_key = build_cookie_host_key u in
    let merged = merge jar.config.skip_existing (stored jar host_key) (unique kept) in
    (
      record jar {
        calls = jar.calls ++ (u, merged) ∷ [];
        cookies = put host_key merged jar.cookies;
      },
      if jar.config.allow_empty then cookies else compact kept cookies,
    )

abbrev pub is_alive : Cookie → Bool
is_alive c = not (lebℤ c.max_age cookie_expired)

pub not_expired : List Cookie → List Cookie
not_expired cookies = filter is_alive cookies

-- The result of `notExpired` is written over the front of the array that the map still holds.
pub cookies : CookieJar → Url → CookieJar × List Cookie
unfolding compact not_expired stored build_cookie_host_key
cookies jar u =
    let host_key = build_cookie_host_key u in
    elim (lookup host_key jar.cookies) [
      | none ↦ (jar, [])
      | some slice ↦ (
        record jar { cookies = put host_key (compact (not_expired slice) slice) jar.cookies },
        not_expired slice,
      )
    ]

pub cookies_map : CookieJar → Assoc (List Cookie)
cookies_map jar = jar.cookies

pub find_alive : List Cookie → String → Option Cookie
find_alive [] name = none
find_alive (c ∷ slice) name = if c.name == name && is_alive c then some c else find_alive slice name

pub cookie : CookieJar → Url → String → Option Cookie
unfolding find_alive stored build_cookie_host_key
cookie jar u name = find_alive (stored jar (build_cookie_host_key u)) name
