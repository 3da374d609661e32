-- ===== src/Jar/Distinct.antt =====
-- jar.go: the cookies that `SetCookies` stores have distinct names.
use httpkit.Prelude.{
  ◌≡◌, Bool, true, false, String, List, [], ◌∷◌, ◌++◌, reverse, none, arith, eq_refl, All, All-imp,
  is_some,
}
use httpkit.Http.{Url, Cookie}
use httpkit.Jar.{
  CookieJar, find_cookie_by_name, non_empty, unique_from, unique, stored, absent_from, merge,
  set_cookies, build_cookie_host_key,
}
use httpkit.Jar.Lookup.{find-append, find-absent_from, find-unique_from, stored-set_cookies}

-- No two cookies of the slice have one name.
abbrev pub IsDistinct : List Cookie → Type 0
IsDistinct [] = Unit
IsDistinct (c ∷ cs) = (find_cookie_by_name cs c.name ≡ none) × IsDistinct cs

unique_from-IsDistinct : (seen : List String) (xs : List Cookie) → IsDistinct (unique_from seen xs)
unfolding unique_from
unique_from-IsDistinct seen [] = tt
unique_from-IsDistinct seen (x ∷ xs) = ground (
  arith,
  unique_from-IsDistinct seen xs,
  unique_from-IsDistinct (x.name ∷ seen) xs,
  find-unique_from (x.name ∷ seen) xs x.name,
  eq_refl x.name,
)

pub unique-IsDistinct : (xs : List Cookie) → IsDistinct (unique xs)
unfolding unique
unique-IsDistinct xs = unique_from-IsDistinct [] (reverse xs)

absent_from-IsDistinct :
    (others xs : List Cookie) → IsDistinct xs → IsDistinct (absent_from others xs)
unfolding absent_from
absent_from-IsDistinct others [] h = tt
absent_from-IsDistinct others (x ∷ xs) (p, h) =
    ground (arith, absent_from-IsDistinct others xs h, find-absent_from others xs x.name)

absent :
    (others xs : List Cookie)
    → All (λ c. find_cookie_by_name others c.name ≡ none) (absent_from others xs)
unfolding absent_from
absent others [] = tt
absent others (x ∷ xs) = ground (arith, absent others xs)

append-IsDistinct :
    (xs ys : List Cookie)
    → IsDistinct xs
    → IsDistinct ys
    → All (λ c. find_cookie_by_name ys c.name ≡ none) xs
    → IsDistinct (xs ++ ys)
append-IsDistinct [] ys h k d = k
append-IsDistinct (x ∷ xs) ys (p, h) k (q, d) =
    ground (arith, append-IsDistinct xs ys h k d, find-append xs ys x.name)

abbrev Finds : List Cookie → Cookie → Type 0
Finds xs c = is_some (find_cookie_by_name xs c.name) ≡ true

Finds-cons : (x : Cookie) (xs : List Cookie) (c : Cookie) → Finds xs c → Finds (x ∷ xs) c
unfolding find_cookie_by_name
Finds-cons x xs c h = ground arith

Finds-self : (xs : List Cookie) → All (Finds xs) xs
Finds-self [] = tt
Finds-self (x ∷ xs) = (
  unfold find_cookie_by_name in rw (eq_refl x.name),
  All-imp (Finds xs) (Finds (x ∷ xs)) xs (Finds-cons x xs) (Finds-self xs),
)

merge-IsDistinct :
    (skip : Bool) (existing xs : List Cookie)
    → IsDistinct existing
    → IsDistinct xs
    → IsDistinct (merge skip existing xs)
unfolding merge
merge-IsDistinct true existing xs h k =
    append-IsDistinct existing (absent_from existing xs) h (absent_from-IsDistinct existing xs k) (
      All-imp (Finds existing) (λ c. find_cookie_by_name (absent_from existing xs) c.name ≡ none)
        existing (λ c found. rw (find-absent_from existing xs c.name, found)) (Finds-self existing))
merge-IsDistinct false existing xs h k =
    append-IsDistinct (absent_from xs existing) xs (absent_from-IsDistinct xs existing h) k
      (absent xs existing)

pub set_cookies-IsDistinct :
    (jar : CookieJar) (u : Url) (cs : List Cookie) (k : String)
    → ((j : String) → IsDistinct (stored jar j))
    → IsDistinct (stored (set_cookies jar u cs).0 k)
set_cookies-IsDistinct jar u cs k h = rw (stored-set_cookies jar u cs k) (
    ground (
      arith,
      h k,
      merge-IsDistinct jar.config.skip_existing (stored jar (build_cookie_host_key u))
          (unique (non_empty jar.config cs)) (h (build_cookie_host_key u))
          (unique-IsDistinct (non_empty jar.config cs)),
    ))
