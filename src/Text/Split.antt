-- ===== src/Text/Split.antt =====
-- strings.Split by a separator of one character, and the laws that its callers need.
use Prim.Native.String.{◌++◌ as append}
use text.Mathlib.TextLemmas.{nil-append, cons-append}
use httpkit.Prelude.{
  ℕ, ◌≡◌, ◌≢◌, refl, List, [], ◌∷◌, ◌++◌, String, Char, code, eqb, arith, if◌then◌else◌, All,
}

-- Puts a character before the first part.
abbrev pub cons_head : Char → List String → List String
cons_head c [] = (String.◌∷◌ c String.[]) ∷ []
cons_head c (p ∷ ps) = (String.◌∷◌ c p) ∷ ps

unfoldable pub split : ℕ → String → List String
split sep String.[] = "" ∷ []
split sep (String.◌∷◌ c s) =
    let rest = split sep s in if eqb (code c) sep then "" ∷ rest else cons_head c rest

-- The text holds no character of that code.
abbrev pub IsFree : ℕ → String → Type 0
IsFree sep String.[] = Unit
IsFree sep (String.◌∷◌ c s) = (code c ≢ sep) × IsFree sep s

pub split_of_IsFree : (sep : ℕ) (s : String) → IsFree sep s → split sep s ≡ s ∷ []
unfolding split
split_of_IsFree sep String.[] h = refl
split_of_IsFree sep (String.◌∷◌ c s) (p, h) = ground (arith, split_of_IsFree sep s h)

cons_head-append :
    (c : Char) (xs ys : List String) → xs ≢ [] → cons_head c (xs ++ ys) ≡ cons_head c xs ++ ys
cons_head-append c [] ys h = absurd (h refl)
cons_head-append c (x ∷ xs) ys h = refl

pub split-ne-nil : (sep : ℕ) (s : String) → split sep s ≢ []
unfolding split
split-ne-nil sep String.[] h = cc
split-ne-nil sep (String.◌∷◌ c s) h = ground (arith, split-ne-nil sep s)

-- A separator closes a part.
pub split-append :
    (s : String) (c : Char) (t : String)
    → split (code c) (append s (String.◌∷◌ c t)) ≡ split (code c) s ++ split (code c) t
unfolding split
split-append String.[] c t = rw nil-append (ground arith)
split-append (String.◌∷◌ d s) c t = rw cons-append (
    ground (
      arith,
      split-append s c t,
      cons_head-append d (split (code c) s) (split (code c) t) (split-ne-nil (code c) s),
    ))

cons_head-IsFree :
    (sep : ℕ) (c : Char) (xs : List String)
    → code c ≢ sep
    → All (IsFree sep) xs
    → All (IsFree sep) (cons_head c xs)
cons_head-IsFree sep c [] p h = ((p, tt), tt)
cons_head-IsFree sep c (x ∷ xs) p (q, h) = ((p, q), h)

-- No part holds the separator.
pub split-IsFree : (sep : ℕ) (s : String) → All (IsFree sep) (split sep s)
unfolding split
split-IsFree sep String.[] = (tt, tt)
split-IsFree sep (String.◌∷◌ c s) =
    ground (arith, split-IsFree sep s, cons_head-IsFree sep c (split sep s))
