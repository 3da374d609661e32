-- ===== src/Jar/Refinement.antt =====
-- jar.go: the slices of a jar implement a store.
use httpkit.Prelude.{
  ◌≡◌, refl, Bool, false, String, List, [], ◌∷◌, Option, none, arith, eq_iff, lookup,
}
use httpkit.Http.{Url, Cookie}
use httpkit.Jar.{
  CookieJar, CookieJarOption, new_cookie_jar, find_cookie_by_name, non_empty, stored, set_cookies,
  build_cookie_host_key, find_alive, cookie, cookies,
}
use httpkit.Jar.Store.{Store, store_set}
use httpkit.Jar.Alive.{find-offered, find_alive-compact, merged}
use httpkit.Jar.Lookup.{stored-set_cookies}
use httpkit.Jar.Sound.{config-set_cookies, config-cookies}
use httpkit.Jar.Expiry.{find_alive-eq, cookies-eq-not_expired, stored-cookies}

-- The calls of a jar.
pub data Call : Type 0 where
  call_set_cookies : Url → List Cookie → Call
  call_cookies : Url → Call
  call_cookie : Url → String → Call

pub data Answer : Type 0 where
  nothing : Answer
  slice : List Cookie → Answer
  one : Option Cookie → Answer

pub run : CookieJar → List Call → List Answer
run jar [] = []
run jar (call_set_cookies u cs ∷ calls) = nothing ∷ run (set_cookies jar u cs).0 calls
run jar (call_cookies u ∷ calls) = slice (cookies jar u).1 ∷ run (cookies jar u).0 calls
run jar (call_cookie u name ∷ calls) = one (cookie jar u name) ∷ run jar calls

-- The answers are those of the store: a returned slice has under each name the live cookie.
pub Meets : Bool → Store → List Call → List Answer → Type 0
Meets allow_empty s (call_set_cookies u cs ∷ calls) (nothing ∷ answers) =
    Meets allow_empty (store_set allow_empty s u cs) calls answers
Meets allow_empty s (call_cookies u ∷ calls) (slice found ∷ answers) =
    ((name : String) → find_cookie_by_name found name ≡ s (build_cookie_host_key u) name)
    × Meets allow_empty s calls answers
Meets allow_empty s (call_cookie u name ∷ calls) (one found ∷ answers) =
    (found ≡ s (build_cookie_host_key u) name) × Meets allow_empty s calls answers
Meets allow_empty s [] [] = Unit
Meets allow_empty s _ _ = ⊥

-- A jar without `WithSkipExisting` implements a store.
pub record Implements (jar : CookieJar) (allow_empty : Bool) (s : Store) : Type 0 where
  pub same : (key name : String) → find_alive (stored jar key) name ≡ s key name
  pub overwrites : jar.config.skip_existing ≡ false
  pub allows : jar.config.allow_empty ≡ allow_empty

module _ (allow_empty : Bool) where
  set_cookies-same :
      (jar : CookieJar) (s : Store) (u : Url) (cs : List Cookie) (key name : String)
      → Implements jar allow_empty s
      → find_alive (stored (set_cookies jar u cs).0 key) name
        ≡ store_set allow_empty s u cs key name
  unfolding store_set
  set_cookies-same jar s u cs key name i =
      let kept = non_empty jar.config cs in
      let at_key = stored jar (build_cookie_host_key u) in
      rw (stored-set_cookies jar u cs key) (
        ground (
          arith,
          eq_iff (build_cookie_host_key u) key,
          i.same key name,
          i.allows,
          merged jar.config.skip_existing at_key kept name i.overwrites,
          find-offered jar.config cs name,
        ))

  pub set_cookies-Implements :
      (jar : CookieJar) (s : Store) (u : Url) (cs : List Cookie)
      → Implements jar allow_empty s
      → Implements (set_cookies jar u cs).0 allow_empty (store_set allow_empty s u cs)
  set_cookies-Implements jar s u cs i = record {
    same = λ key name. set_cookies-same jar s u cs key name i;
    overwrites = rw (config-set_cookies jar u cs) i.overwrites;
    allows = rw (config-set_cookies jar u cs) i.allows;
  }

  pub cookies-Implements :
      (jar : CookieJar) (s : Store) (u : Url)
      → Implements jar allow_empty s
      → Implements (cookies jar u).0 allow_empty s
  cookies-Implements jar s u i = record {
    same = λ key name.
        rw (stored-cookies jar u key)
          (ground (arith, i.same key name, find_alive-compact (stored jar key) name));
    overwrites = rw (config-cookies jar u) i.overwrites;
    allows = rw (config-cookies jar u) i.allows;
  }

  run-Meets_from :
      (calls : List Call) (jar : CookieJar) (s : Store)
      → Implements jar allow_empty s
      → Meets allow_empty s calls (run jar calls)
  unfolding run Meets cookie
  run-Meets_from [] jar s i = tt
  run-Meets_from (call_set_cookies u cs ∷ calls) jar s i =
      run-Meets_from calls (set_cookies jar u cs).0 (store_set allow_empty s u cs)
        (set_cookies-Implements jar s u cs i)
  run-Meets_from (call_cookies u ∷ calls) jar s i = (
    λ name. rw (cookies-eq-not_expired jar u) (
        rw⁻¹ (find_alive-eq (stored jar (build_cookie_host_key u)) name)
          (i.same (build_cookie_host_key u) name)),
    run-Meets_from calls (cookies jar u).0 s (cookies-Implements jar s u i),
  )
  run-Meets_from (call_cookie u name ∷ calls) jar s i =
      (i.same (build_cookie_host_key u) name, run-Meets_from calls jar s i)

abbrev pub no_cookies : Store
no_cookies key name = none

pub fresh-Implements :
    (options : List CookieJarOption)
    → (new_cookie_jar options).config.skip_existing ≡ false
    → Implements (new_cookie_jar options) (new_cookie_jar options).config.allow_empty no_cookies
unfolding new_cookie_jar stored lookup find_alive
fresh-Implements options e = record { same = λ key name. refl; overwrites = e; allows = refl }

pub default-Implements : Implements (new_cookie_jar []) false no_cookies
unfolding new_cookie_jar
default-Implements = fresh-Implements [] refl

-- A jar made without `WithSkipExisting` answers every sequence of calls as a map from host keys
-- and names to cookies does, which `SetCookies` overwrites with the last cookie of each name that
-- is not dropped as empty, an expired one deleting: `Cookie` returns the cookie of the map, and
-- the slice of `Cookies` has under each name that cookie, and no other name.
pub run-Meets :
    (options : List CookieJarOption) (calls : List Call)
    → (new_cookie_jar options).config.skip_existing ≡ false
    → Meets
        (new_cookie_jar options).config.allow_empty
        (λ key name. none)
        calls
        (run (new_cookie_jar options) calls)
run-Meets options calls e =
    run-Meets_from (new_cookie_jar options).config.allow_empty calls (new_cookie_jar options)
      no_cookies (fresh-Implements options e)
