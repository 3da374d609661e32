-- ===== src/Jar/HostKey.antt =====
-- jar.go, buildCookieHostKey: which hosts share their cookies.
use Prim.Native.String.{◌++◌ as append}
use text.Mathlib.TextLemmas.{nil-append, cons-append}
use httpkit.Prelude.{
  ℕ, zero, suc, ◌-◌, ◌<◌, ◌≡◌, refl, String, Char, List, [], ◌∷◌, ◌++◌, arith, leb, length, get_or,
  All, Bool-cases, inl, inr, length-append, true, false,
}
use httpkit.Text.{split, IsFree, split_of_IsFree, split-append, split-IsFree}
use httpkit.Http.{Url}
use httpkit.Jar.{build_cookie_host_key}

-- Two labels joined by a dot.
abbrev pub dotted : String → String → String
dotted d t = append d (append "." t)

abbrev pub url_of : String → Url
url_of h = record { scheme = "https"; host = h }

dot-append : (t : String) → append "." t ≡ String.◌∷◌ (Char.char b'.' tt) t
dot-append t = rw (cons-append, nil-append)

split-dotted : (s t : String) → split b'.' (dotted s t) ≡ split b'.' s ++ split b'.' t
split-dotted s t = rw dot-append (split-append s (Char.char b'.' tt) t)

module _ {ℓ} {A : Type ℓ} where
  get_or-append :
      (xs : List A) (y : A) (ys : List A) (d : A) → get_or (xs ++ y ∷ ys) (length xs) d ≡ y
  get_or-append [] y ys d = refl
  get_or-append (x ∷ xs) y ys d = get_or-append xs y ys d

  get_or-append_next :
      (xs : List A) (y z : A) (ys : List A) (d : A)
      → get_or (xs ++ y ∷ z ∷ ys) (suc (length xs)) d ≡ z
  get_or-append_next [] y z ys d = refl
  get_or-append_next (x ∷ xs) y z ys d = get_or-append_next xs y z ys d

  get_or-All :
      (P : A → Type 0) (xs : List A) (i : ℕ) (d : A) → i < length xs → All P xs → P (get_or xs i d)
  get_or-All P [] i d h a = elim h [ ]
  get_or-All P (x ∷ xs) zero d h (p, a) = p
  get_or-All P (x ∷ xs) (suc i) d h (p, a) = get_or-All P xs i d (omega arith) a

length_two : (xs : List String) (d t : String) → length (xs ++ d ∷ t ∷ []) ≡ suc (suc (length xs))
length_two xs d t = omega (arith, length-append xs (d ∷ t ∷ []))

key_of_parts :
    (h : String) (xs : List String) (d t : String)
    → split b'.' h ≡ xs ++ d ∷ t ∷ []
    → build_cookie_host_key (url_of h) ≡ dotted d t
unfolding build_cookie_host_key
key_of_parts h xs d t e =
    let n : length (xs ++ d ∷ t ∷ []) - 2 ≡ length xs = omega (arith, length_two xs d t) in
    let m : length (xs ++ d ∷ t ∷ []) - 1 ≡ suc (length xs) = omega (arith, length_two xs d t) in
    let long : leb 2 (length (xs ++ d ∷ t ∷ [])) ≡ true = ground (arith, length_two xs d t) in
    rw (e, long, n, m, get_or-append xs d (t ∷ []) "", get_or-append_next xs d t [] "")

-- Whatever stands before the last two labels of a host, the key is those two labels.
pub build_cookie_host_key-dotted :
    (p d t : String)
    → IsFree b'.' d
    → IsFree b'.' t
    → build_cookie_host_key (url_of (dotted p (dotted d t))) ≡ dotted d t
build_cookie_host_key-dotted p d t hd ht =
    key_of_parts (dotted p (dotted d t)) (split b'.' p) d t
      (simp (split-dotted, split_of_IsFree b'.' d hd, split_of_IsFree b'.' t ht))

key_of_key :
    (d t : String)
    → IsFree b'.' d
    → IsFree b'.' t
    → build_cookie_host_key (url_of (dotted d t)) ≡ dotted d t
key_of_key d t hd ht =
    key_of_parts (dotted d t) [] d t
      (simp (split-dotted, split_of_IsFree b'.' d hd, split_of_IsFree b'.' t ht))

module _ (h : String) where
  key-short : leb 2 (length (split b'.' h)) ≡ false → build_cookie_host_key (url_of h) ≡ h
  unfolding build_cookie_host_key
  key-short e = rw e

  key-long :
      leb 2 (length (split b'.' h)) ≡ true
      → build_cookie_host_key (url_of h)
        ≡ dotted
            (get_or (split b'.' h) (length (split b'.' h) - 2) "")
            (get_or (split b'.' h) (length (split b'.' h) - 1) "")
  unfolding build_cookie_host_key
  key-long e = rw e

  part-IsFree : (i : ℕ) → i < length (split b'.' h) → IsFree b'.' (get_or (split b'.' h) i "")
  part-IsFree i l = get_or-All (IsFree b'.') (split b'.' h) i "" l (split-IsFree b'.' h)

-- The key of a key is the key itself, for every host.
pub build_cookie_host_key_idem :
    (h : String)
    → build_cookie_host_key (url_of (build_cookie_host_key (url_of h)))
      ≡ build_cookie_host_key (url_of h)
build_cookie_host_key_idem h = elim (Bool-cases (leb 2 (length (split b'.' h)))) [
  | inl long ↦
      rw (key-long h long)
        (key_of_key _ _ (part-IsFree h _ (ground arith)) (part-IsFree h _ (ground arith)))
  | inr short ↦ rw (key-short h short) (key-short h short)
]
