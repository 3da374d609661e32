-- ===== src/Jar/Sound.antt =====
-- jar.go: what every jar satisfies that was only written to, or read while no stored cookie of
-- the URL had expired.
use httpkit.Prelude.{
  lookup, ◌≡◌, ◌≢◌, refl, Bool, true, false, String, List, [], ◌∷◌, reverse, arith, eq_iff, eq_refl,
  All, filter, All-append, All-filter,
}
use mathlib.Core.List.{reverse-cons}
use httpkit.Http.{Url, Cookie}
use httpkit.Jar.{
  CookieJarOption, CookieJar, new_cookie_jar, is_full, non_empty, unique_from, unique, stored,
  absent_from, merge, set_cookies, build_cookie_host_key, not_expired, cookies,
}
use httpkit.Jar.Expiry.{stored-cookies_of_alive}
use httpkit.Jar.Distinct.{IsDistinct, set_cookies-IsDistinct}
use httpkit.Jar.Lookup.{stored-set_cookies}

abbrev HasValue : Cookie → Type 0
HasValue c = c.value ≢ ""

-- The invariant of a jar.
pub record IsSound (jar : CookieJar) : Type 0 where
  pub distinct : (k : String) → IsDistinct (stored jar k)
  pub full : jar.config.allow_empty ≡ false → (k : String) → All HasValue (stored jar k)

-- Calls of the two methods that change a jar, reads only where nothing stored has expired.
pub data Step (jar : CookieJar) : CookieJar → Type 0 where
  set : (u : Url) (cs : List Cookie) → Step jar (set_cookies jar u cs).0
  get :
      (u : Url)
      → not_expired (stored jar (build_cookie_host_key u)) ≡ stored jar (build_cookie_host_key u)
      → Step jar (cookies jar u).0

pub data Reach (jar : CookieJar) : CookieJar → Type 0 where
  here : Reach jar jar
  next : {j k : CookieJar} → Reach jar j → Step j k → Reach jar k

module _ (P : Cookie → Type 0) where
  All-reverse : (xs : List Cookie) → All P xs → All P (reverse xs)
  All-reverse [] h = h
  All-reverse (x ∷ xs) (p, h) =
      rw reverse-cons (All-append P (reverse xs) (x ∷ []) (All-reverse xs h) (p, tt))

  All-unique_from : (seen : List String) (xs : List Cookie) → All P xs → All P (unique_from seen xs)
  unfolding unique_from
  All-unique_from seen [] h = tt
  All-unique_from seen (x ∷ xs) (p, h) =
      ground (arith, All-unique_from seen xs h, All-unique_from (x.name ∷ seen) xs h)

  All-merge :
      (skip : Bool) (existing xs : List Cookie)
      → All P existing
      → All P xs
      → All P (merge skip existing xs)
  unfolding merge absent_from
  All-merge true existing xs h k = All-append P existing _ h (All-filter P _ xs k)
  All-merge false existing xs h k = All-append P _ xs (All-filter P _ existing h) k

full_of_non_empty : (xs : List Cookie) → All HasValue (filter is_full xs)
full_of_non_empty [] = tt
full_of_non_empty (x ∷ xs) =
    ground (arith, full_of_non_empty xs, eq_refl x.value, eq_iff x.value "")

offered_full :
    (jar : CookieJar) (cs : List Cookie)
    → jar.config.allow_empty ≡ false
    → All HasValue (unique (non_empty jar.config cs))
unfolding non_empty unique
offered_full jar cs e =
    rw e (All-unique_from HasValue [] _ (All-reverse HasValue _ (full_of_non_empty cs)))

set_cookies-full :
    (jar : CookieJar) (u : Url) (cs : List Cookie) (k : String)
    → jar.config.allow_empty ≡ false
    → ((j : String) → All HasValue (stored jar j))
    → All HasValue (stored (set_cookies jar u cs).0 k)
set_cookies-full jar u cs k e h = rw (stored-set_cookies jar u cs k) (
    ground (
      arith,
      h k,
      All-merge HasValue jar.config.skip_existing (stored jar (build_cookie_host_key u))
          (unique (non_empty jar.config cs)) (h (build_cookie_host_key u)) (offered_full jar cs e),
    ))

pub config-set_cookies :
    (jar : CookieJar) (u : Url) (cs : List Cookie) → (set_cookies jar u cs).0.config ≡ jar.config
unfolding set_cookies
config-set_cookies jar u cs = refl

pub config-cookies : (jar : CookieJar) (u : Url) → (cookies jar u).0.config ≡ jar.config
unfolding cookies
config-cookies jar u = ground arith

Step-IsSound : {j k : CookieJar} → Step j k → IsSound j → IsSound k
Step-IsSound {j} (set u cs) s = record {
  distinct = λ k. set_cookies-IsDistinct j u cs k s.distinct;
  full = λ e k.
      let e' = config-set_cookies j u cs in
      let f : j.config.allow_empty ≡ false = rw e' at e in set_cookies-full j u cs k f (s.full f);
}
Step-IsSound {j} (get u alive) s = record {
  distinct = λ k. rw (stored-cookies_of_alive j u k alive) (s.distinct k);
  full = λ e k.
      let e' = config-cookies j u in
      let f : j.config.allow_empty ≡ false = rw e' at e in
      rw (stored-cookies_of_alive j u k alive) (s.full f k);
}

IsSound-new : (options : List CookieJarOption) → IsSound (new_cookie_jar options)
unfolding new_cookie_jar stored lookup
IsSound-new options = record { distinct = λ k. tt; full = λ e k. tt }

Reach-IsSound_from : {j k : CookieJar} → IsSound j → Reach j k → IsSound k
Reach-IsSound_from s here = s
Reach-IsSound_from s (next r st) = Step-IsSound st (Reach-IsSound_from s r)

-- A jar made by `NewCookieJar` and used by `SetCookies`, and by `Cookies` where nothing stored for
-- the URL has expired, holds under every key at most one cookie of each name, and without
-- `WithAllowEmpty` none with an empty value.
pub Reach-IsSound :
    (options : List CookieJarOption) (jar : CookieJar)
    → Reach (new_cookie_jar options) jar
    → IsSound jar
Reach-IsSound options jar r = Reach-IsSound_from (IsSound-new options) r
