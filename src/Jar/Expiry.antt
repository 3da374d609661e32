-- ===== src/Jar/Expiry.antt =====
-- jar.go, Cookies and Cookie: reading a jar, and what a read does to the stored slice.
use httpkit.Prelude.{
  ℕ, zero, suc, ◌+◌, ◌≤◌, ◌<◌, ◌≡◌, refl, true, String, List, [], ◌∷◌, ◌++◌, arith, length, drop,
  ◌==◌, eq_iff, eq_refl, if◌then◌else◌, lookup-put, filter-append, filter_idem, length-append,
}
use mathlib.Core.List.{append_assoc, append-nil}
use httpkit.Http.{Url, Cookie}
use httpkit.Jar.{
  CookieJar, find_cookie_by_name, stored, build_cookie_host_key, find_alive, cookie, cookies,
  not_expired, compact, is_alive,
}

pub find_alive-eq :
    (xs : List Cookie) (n : String) → find_alive xs n ≡ find_cookie_by_name (not_expired xs) n
unfolding find_alive not_expired find_cookie_by_name
find_alive-eq [] n = refl
find_alive-eq (x ∷ xs) n = ground (arith, find_alive-eq xs n)

module _ (jar : CookieJar) (u : Url) where
  pub cookies-eq-not_expired :
      (cookies jar u).1 ≡ not_expired (stored jar (build_cookie_host_key u))
  unfolding cookies
  cookies-eq-not_expired = ground arith

  -- `Cookie` finds by name in what `Cookies` returns.
  pub cookie-eq-find : (n : String) → cookie jar u n ≡ find_cookie_by_name (cookies jar u).1 n
  unfolding cookie
  cookie-eq-find n =
      rw cookies-eq-not_expired (find_alive-eq (stored jar (build_cookie_host_key u)) n)

  pub stored-cookies :
      (k : String)
      → stored (cookies jar u).0 k ≡ (
          if build_cookie_host_key u == k
          then compact (not_expired (stored jar k)) (stored jar k)
          else stored jar k)
  unfolding cookies
  stored-cookies k = ground (
    arith,
    lookup-put (build_cookie_host_key u) k
        (compact (not_expired (stored jar (build_cookie_host_key u)))
          (stored jar (build_cookie_host_key u)))
        jar.cookies,
    eq_iff (build_cookie_host_key u) k,
  )

compact-not_expired :
    (s : List Cookie)
    → not_expired (compact (not_expired s) s)
      ≡ not_expired s ++ not_expired (drop (length (not_expired s)) s)
unfolding compact not_expired
compact-not_expired s = simp (filter-append, filter_idem)

drop-length {ℓ} : {A : Type ℓ} (xs : List A) → drop (length xs) xs ≡ []
drop-length [] = refl
drop-length (x ∷ xs) = drop-length xs

compact_self : (s : List Cookie) → compact s s ≡ s
unfolding compact
compact_self s = rw drop-length (append-nil s)

-- A read leaves, at the front of the stored slice, the cookies that it returns, and behind them
-- what stood there before: the second read returns those that are alive among the latter again.
pub cookies_twice :
    (jar : CookieJar) (u : Url)
    → (cookies (cookies jar u).0 u).1
      ≡ (cookies jar u).1
        ++ not_expired (drop (length (cookies jar u).1) (stored jar (build_cookie_host_key u)))
cookies_twice jar u = simp (
  cookies-eq-not_expired,
  stored-cookies jar u (build_cookie_host_key u),
  eq_refl (build_cookie_host_key u),
  compact-not_expired,
)

-- Where nothing stored for the URL has expired, a read changes no stored slice.
pub stored-cookies_of_alive :
    (jar : CookieJar) (u : Url) (k : String)
    → not_expired (stored jar (build_cookie_host_key u)) ≡ stored jar (build_cookie_host_key u)
    → stored (cookies jar u).0 k ≡ stored jar k
stored-cookies_of_alive jar u k e =
    rw (stored-cookies jar u k)
      (ground (arith, eq_iff (build_cookie_host_key u) k, compact_self (stored jar k)))

drop-append : (n : ℕ) (xs ys : List Cookie) → n ≤ length xs → drop n (xs ++ ys) ≡ drop n xs ++ ys
drop-append zero xs ys h = refl
drop-append (suc n) [] ys h = elim h [ ]
drop-append (suc n) (x ∷ xs) ys h = drop-append n xs ys (omega arith)

not_expired-append_alive :
    (xs : List Cookie) (c : Cookie)
    → is_alive c ≡ true
    → not_expired (xs ++ c ∷ []) ≡ not_expired xs ++ c ∷ []
unfolding not_expired
not_expired-append_alive xs c alive = rw filter-append (rw alive)

-- A live cookie stored last behind an expired one is returned a second time by the second read.
cookies_repeats :
    (jar : CookieJar) (u : Url) (xs : List Cookie) (c : Cookie)
    → stored jar (build_cookie_host_key u) ≡ xs ++ c ∷ []
    → is_alive c ≡ true
    → length (not_expired xs) < length xs
    → (ys : List Cookie) × ((cookies (cookies jar u).0 u).1 ≡ not_expired xs ++ c ∷ ys ++ c ∷ [])
cookies_repeats jar u xs c e alive short =
    let n = length (not_expired xs) in
    let n_next : length (not_expired xs ++ c ∷ []) ≡ n + 1 =
      omega (arith, length-append (not_expired xs) (c ∷ [])) in
    (
      not_expired (drop (n + 1) xs),
      simp (
        cookies_twice jar u,
        cookies-eq-not_expired jar u,
        e,
        not_expired-append_alive xs c alive,
        n_next,
        drop-append (n + 1) xs (c ∷ []) (omega arith),
        not_expired-append_alive (drop (n + 1) xs) c alive,
        append_assoc,
      ),
    )
