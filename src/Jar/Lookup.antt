-- ===== src/Jar/Lookup.antt =====
-- jar.go, SetCookies and Cookie: which cookie a name stands for.
use httpkit.Prelude.{
  ◌≡◌, refl, Bool, true, false, String, List, [], ◌∷◌, ◌++◌, reverse, Option, none, arith, is_some,
  or_else, ◌==◌, eq_iff, if◌then◌else◌, lookup-put,
}
use httpkit.Http.{Url, Cookie}
use httpkit.Jar.{
  CookieJar, find_cookie_by_name, non_empty, has_name, unique_from, unique, stored, absent_from,
  merge, set_cookies, build_cookie_host_key,
}

pub find-append :
    (xs ys : List Cookie) (n : String)
    → find_cookie_by_name (xs ++ ys) n
      ≡ or_else (find_cookie_by_name xs n) (find_cookie_by_name ys n)
unfolding find_cookie_by_name
find-append [] ys n = refl
find-append (x ∷ xs) ys n = ground (arith, find-append xs ys n)

pub find-absent_from :
    (others xs : List Cookie) (n : String)
    → find_cookie_by_name (absent_from others xs) n
      ≡ (if is_some (find_cookie_by_name others n) then none else find_cookie_by_name xs n)
unfolding absent_from
find-absent_from others [] n = ground arith
find-absent_from others (x ∷ xs) n = ground (arith, find-absent_from others xs n, eq_iff x.name n)

pub find-unique_from :
    (seen : List String) (xs : List Cookie) (n : String)
    → find_cookie_by_name (unique_from seen xs) n
      ≡ (if has_name n seen then none else find_cookie_by_name xs n)
unfolding unique_from find_cookie_by_name
find-unique_from seen [] n = ground arith
find-unique_from seen (x ∷ xs) n =
    ground
      (arith, find-unique_from seen xs n, find-unique_from (x.name ∷ seen) xs n, eq_iff x.name n)

-- `unique` keeps the last cookie of each name.
pub find-unique :
    (xs : List Cookie) (n : String)
    → find_cookie_by_name (unique xs) n ≡ find_cookie_by_name (reverse xs) n
unfolding unique
find-unique xs n = ground (arith, find-unique_from [] (reverse xs) n)

find-merge :
    (skip : Bool) (existing xs : List Cookie) (n : String)
    → find_cookie_by_name (merge skip existing xs) n ≡ (
        if skip
        then or_else (find_cookie_by_name existing n) (find_cookie_by_name xs n)
        else or_else (find_cookie_by_name xs n) (find_cookie_by_name existing n))
unfolding merge
find-merge true existing xs n =
    ground (arith, find-append existing (absent_from existing xs) n, find-absent_from existing xs n)
find-merge false existing xs n =
    ground (arith, find-append (absent_from xs existing) xs n, find-absent_from xs existing n)

-- The cookie that a call of `SetCookies` offers for a name: the last one that is kept.
abbrev pub offered : CookieJar → List Cookie → String → Option Cookie
offered jar cs n = find_cookie_by_name (reverse (non_empty jar.config cs)) n

pub stored-set_cookies :
    (jar : CookieJar) (u : Url) (cs : List Cookie) (k : String)
    → stored (set_cookies jar u cs).0 k ≡ (
        if build_cookie_host_key u == k
        then merge jar.config.skip_existing
            (stored jar (build_cookie_host_key u))
            (unique (non_empty jar.config cs))
        else stored jar k)
unfolding set_cookies
stored-set_cookies jar u cs k = ground (
  arith,
  lookup-put (build_cookie_host_key u) k
      (merge jar.config.skip_existing (stored jar (build_cookie_host_key u))
        (unique (non_empty jar.config cs)))
      jar.cookies,
)

-- After `SetCookies` a name stands, under the key of the URL, for the stored cookie or for the
-- last kept cookie of the call, the former first exactly with `skipExisting`; under every other
-- key nothing changes.
pub find-set_cookies :
    (jar : CookieJar) (u : Url) (cs : List Cookie) (k n : String)
    → find_cookie_by_name (stored (set_cookies jar u cs).0 k) n ≡ (
        if build_cookie_host_key u == k
        then (if jar.config.skip_existing
            then or_else (find_cookie_by_name (stored jar k) n) (offered jar cs n)
            else or_else (offered jar cs n) (find_cookie_by_name (stored jar k) n))
        else find_cookie_by_name (stored jar k) n)
find-set_cookies jar u cs k n = rw (stored-set_cookies jar u cs k) (
    ground (
      arith,
      eq_iff (build_cookie_host_key u) k,
      find-merge jar.config.skip_existing (stored jar (build_cookie_host_key u))
          (unique (non_empty jar.config cs)) n,
      find-unique (non_empty jar.config cs) n,
    ))
