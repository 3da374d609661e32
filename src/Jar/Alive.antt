-- ===== src/Jar/Alive.antt =====
-- jar.go: the live cookie of a name, in each slice that the jar makes.
use httpkit.Prelude.{
  ◌≡◌, refl, Bool, true, false, ℕ, zero, suc, String, List, [], ◌∷◌, ◌++◌, reverse, none, some,
  arith, is_some, or_else, drop, length, ◌==◌, eq_iff, if◌then◌else◌, filter, inl, inr, Bool-cases,
}
use mathlib.Core.List.{reverse-cons}
use httpkit.Http.{Cookie}
use httpkit.Jar.{
  CookieJarConfig, find_cookie_by_name, is_full, non_empty, has_name, unique_from, unique,
  absent_from, merge, find_alive, not_expired, compact,
}
use httpkit.Jar.Store.{newest, if_alive, overwrite}
use httpkit.Jar.Lookup.{find-append, find-unique_from}

find_alive-append :
    (xs ys : List Cookie) (n : String)
    → find_alive (xs ++ ys) n ≡ or_else (find_alive xs n) (find_alive ys n)
unfolding find_alive
find_alive-append [] ys n = refl
find_alive-append (x ∷ xs) ys n = ground (arith, find_alive-append xs ys n)

find_alive-absent_from :
    (others xs : List Cookie) (n : String)
    → find_alive (absent_from others xs) n
      ≡ (if is_some (find_cookie_by_name others n) then none else find_alive xs n)
unfolding absent_from find_alive
find_alive-absent_from others [] n = ground arith
find_alive-absent_from others (x ∷ xs) n =
    ground (arith, find_alive-absent_from others xs n, eq_iff x.name n)

find_alive-unique_from :
    (seen : List String) (xs : List Cookie) (n : String)
    → find_alive (unique_from seen xs) n
      ≡ (if has_name n seen then none else if_alive (find_cookie_by_name xs n))
unfolding unique_from find_alive find_cookie_by_name
find_alive-unique_from seen [] n = ground arith
find_alive-unique_from seen (x ∷ xs) n = ground (
  arith,
  find_alive-unique_from seen xs n,
  find_alive-unique_from (x.name ∷ seen) xs n,
  eq_iff x.name n,
)

find-reverse-cons :
    (x : Cookie) (xs : List Cookie) (n : String)
    → find_cookie_by_name (reverse (x ∷ xs)) n
      ≡ or_else (find_cookie_by_name (reverse xs) n) (if x.name == n then some x else none)
unfolding find_cookie_by_name
find-reverse-cons x xs n = rw reverse-cons (rw (find-append (reverse xs) (x ∷ []) n) refl)

find-reverse :
    (cs : List Cookie) (n : String) → find_cookie_by_name (reverse cs) n ≡ newest true cs n
unfolding find_cookie_by_name newest
find-reverse [] n = refl
find-reverse (c ∷ cs) n =
    rw (find-reverse-cons c cs n) (ground (arith, find-reverse cs n, eq_iff c.name n))

find-reverse-filter :
    (cs : List Cookie) (n : String)
    → find_cookie_by_name (reverse (filter is_full cs)) n ≡ newest false cs n
unfolding find_cookie_by_name newest
find-reverse-filter [] n = refl
find-reverse-filter (c ∷ cs) n = elim (Bool-cases (is_full c)) [
  | inl full ↦ rw full (
      rw (find-reverse-cons c (filter is_full cs) n)
        (ground (arith, find-reverse-filter cs n, eq_iff c.name n)))
  | inr empty ↦ rw empty (ground (arith, find-reverse-filter cs n))
]

-- The cookie that a call offers for a name is the newest.
pub find-offered :
    (config : CookieJarConfig) (cs : List Cookie) (n : String)
    → find_cookie_by_name (reverse (non_empty config cs)) n ≡ newest config.allow_empty cs n
unfolding non_empty
find-offered config cs n = elim (Bool-cases config.allow_empty) [
  | inl all ↦ rw all (find-reverse cs n)
  | inr some_only ↦ rw some_only (find-reverse-filter cs n)
]

find_alive-merge :
    (existing xs : List Cookie) (n : String)
    → find_alive (merge false existing (unique xs)) n
      ≡ overwrite (find_cookie_by_name (reverse xs) n) (find_alive existing n)
unfolding merge unique
find_alive-merge existing xs n = ground (
  arith,
  find_alive-append (absent_from (unique xs) existing) (unique xs) n,
  find_alive-absent_from (unique xs) existing n,
  find_alive-unique_from [] (reverse xs) n,
  find-unique_from [] (reverse xs) n,
)

find_alive-drop :
    (k : ℕ) (xs : List Cookie) (n : String)
    → find_alive xs n ≡ none
    → find_alive (drop k xs) n ≡ none
unfolding find_alive
find_alive-drop zero xs n e = e
find_alive-drop (suc k) [] n e = refl
find_alive-drop (suc k) (x ∷ xs) n e = find_alive-drop k xs n (ground arith)

find_alive-not_expired :
    (xs : List Cookie) (n : String) → find_alive (not_expired xs) n ≡ find_alive xs n
unfolding not_expired find_alive
find_alive-not_expired [] n = refl
find_alive-not_expired (x ∷ xs) n = ground (arith, find_alive-not_expired xs n)

-- What a read leaves in the slice has the same live cookies.
pub find_alive-compact :
    (xs : List Cookie) (n : String) → find_alive (compact (not_expired xs) xs) n ≡ find_alive xs n
unfolding compact
find_alive-compact xs n = ground (
  arith,
  find_alive-append (not_expired xs) (drop (length (not_expired xs)) xs) n,
  find_alive-not_expired xs n,
  find_alive-drop (length (not_expired xs)) xs n,
)

pub merged :
    (skip : Bool) (existing xs : List Cookie) (n : String)
    → skip ≡ false
    → find_alive (merge skip existing (unique xs)) n
      ≡ overwrite (find_cookie_by_name (reverse xs) n) (find_alive existing n)
merged true existing xs n e = cc
merged false existing xs n e = find_alive-merge existing xs n
