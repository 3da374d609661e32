-- ===== src/Jar/Tests.antt =====
-- jar.go at concrete jars: the theorems' instances, and the runs of jar_test.go.
use httpkit.Prelude.{
  false, none, ◌≡◌, ◌<◌, refl, String, List, [], ◌∷◌, ◌++◌, lookup, drop, remove, put, pos, negsuc,
  length, ◌==◌, if◌then◌else◌, or_else, arith,
}
use httpkit.Http.{Url, Cookie}
use httpkit.Jar.{
  CookieJar, new_cookie_jar, apply_option, with_skip_existing, find_cookie_by_name, stored,
  set_cookies, cookies, not_expired, build_cookie_host_key,
}
use httpkit.Jar.HostKey.{dotted, url_of, build_cookie_host_key-dotted}
use httpkit.Jar.Lookup.{offered, find-set_cookies}
use httpkit.Jar.Expiry.{cookies_twice}
use httpkit.Jar.Refinement.{
  call_set_cookies, call_cookies, call_cookie, Call, run, Meets, run-Meets,
}
use httpkit.Jar.Sound.{IsSound, here, next, set, Reach-IsSound}

abbrev test_url : Url
test_url = record { scheme = "http"; host = "www.test.com" }

abbrev alive_cookie : String → String → Cookie
alive_cookie n v = record { name = n; value = v; max_age = pos 1 }

abbrev expired_cookie : String → String → Cookie
expired_cookie n v = record { name = n; value = v; max_age = negsuc 0 }

abbrev jar0 : CookieJar
jar0 = new_cookie_jar []

-- An expired cookie in front of a live one.
abbrev mixed : List Cookie
mixed = alive_cookie "b" "2" ∷ expired_cookie "a" "1" ∷ []

abbrev jar1 : CookieJar
jar1 = (set_cookies jar0 test_url mixed).0

host_key : build_cookie_host_key test_url ≡ "test.com"
unfolding build_cookie_host_key
host_key = refl

last_wins :
    (set_cookies
      (set_cookies jar0 test_url (alive_cookie "1" "first" ∷ [])).0
      test_url
      (alive_cookie "1" "second" ∷ [])).0.cookies
    ≡ ("test.com", alive_cookie "1" "second" ∷ []) ∷ []
unfolding set_cookies new_cookie_jar lookup put remove
last_wins = refl

skipped :
    (set_cookies
      (set_cookies
        (new_cookie_jar (with_skip_existing ∷ []))
        test_url
        (alive_cookie "1" "first" ∷ [])).0
      test_url
      (alive_cookie "1" "second" ∷ [])).0.cookies
    ≡ ("test.com", alive_cookie "1" "first" ∷ []) ∷ []
unfolding set_cookies new_cookie_jar lookup put remove apply_option
skipped = refl

-- The caller's slice is filtered in place.
callers_slice :
    (set_cookies jar0 test_url (alive_cookie "a" "" ∷ alive_cookie "b" "2" ∷ [])).1
    ≡ alive_cookie "b" "2" ∷ alive_cookie "b" "2" ∷ []
unfolding set_cookies new_cookie_jar
callers_slice = refl

build_cookie_host_key-dotted_example :
    build_cookie_host_key (url_of (dotted "www.eu" (dotted "test" "com"))) ≡ dotted "test" "com"
build_cookie_host_key-dotted_example =
    build_cookie_host_key-dotted "www.eu" "test" "com" (omega arith) (omega arith)

find-set_cookies_example : find_cookie_by_name (stored jar1 "test.com") "b" ≡ (
    if build_cookie_host_key test_url == "test.com"
    then (if jar0.config.skip_existing
        then or_else (find_cookie_by_name (stored jar0 "test.com") "b") (offered jar0 mixed "b")
        else or_else (offered jar0 mixed "b") (find_cookie_by_name (stored jar0 "test.com") "b"))
    else find_cookie_by_name (stored jar0 "test.com") "b")
find-set_cookies_example = find-set_cookies jar0 test_url mixed "test.com" "b"

Reach-IsSound_example : IsSound jar1
Reach-IsSound_example = Reach-IsSound [] jar1 (next here (set test_url mixed))

cookies_twice_example :
    (cookies (cookies jar1 test_url).0 test_url).1
    ≡ (cookies jar1 test_url).1
      ++ not_expired
          (drop (length (cookies jar1 test_url).1) (stored jar1 (build_cookie_host_key test_url)))
cookies_twice_example = cookies_twice jar1 test_url

stored_mixed :
    stored jar1 (build_cookie_host_key test_url)
    ≡ (expired_cookie "a" "1" ∷ []) ++ alive_cookie "b" "2" ∷ []
unfolding set_cookies new_cookie_jar lookup put build_cookie_host_key
stored_mixed = refl

one_expired :
    length (not_expired (expired_cookie "a" "1" ∷ [])) < length (expired_cookie "a" "1" ∷ [])
unfolding not_expired
one_expired = omega arith

nothing_expired :
    not_expired (stored jar0 (build_cookie_host_key test_url))
    ≡ stored jar0 (build_cookie_host_key test_url)
unfolding new_cookie_jar stored lookup not_expired
nothing_expired = refl

abbrev calls : List Call
calls =
    call_set_cookies test_url mixed
    ∷ call_cookies test_url
    ∷ call_cookies test_url
    ∷ call_cookie test_url "b"
    ∷ []

run-Meets_example : Meets false (λ key name. none) calls (run (new_cookie_jar []) calls)
unfolding new_cookie_jar
run-Meets_example = run-Meets [] calls refl
