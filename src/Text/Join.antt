-- ===== src/Text/Join.antt =====
-- Texts joined by a separator, as JA3 strings are written, and strings.Split on them.
use Prim.Native.String.{◌++◌ as append}
use httpkit.Prelude.{◌≡◌, ◌≢◌, refl, String, Char, code, List, [], ◌∷◌, All, ℕ}
use httpkit.Text.Decimal.{IsFree-append}
use httpkit.Text.Split.{split, IsFree, split_of_IsFree, split-append}

unfoldable pub join : Char → List String → String
join c [] = ""
join c (s ∷ []) = s
join c (s ∷ t ∷ ts) = append s (String.◌∷◌ c (join c (t ∷ ts)))

-- Parts without the separator are found again, unless there are none.
pub split-join :
    (c : Char) (s : String) (ts : List String)
    → All (IsFree (code c)) (s ∷ ts)
    → split (code c) (join c (s ∷ ts)) ≡ s ∷ ts
unfolding join
split-join c s [] (p, h) = split_of_IsFree (code c) s p
split-join c s (t ∷ ts) (p, h) =
    rw (split-append s c (join c (t ∷ ts)))
      (rw (split_of_IsFree (code c) s p) (rw (split-join c t ts h) refl))

-- A joined text holds a character only if a part or the separator does.
pub join-IsFree :
    (sep : ℕ) (c : Char) (ts : List String)
    → code c ≢ sep
    → All (IsFree sep) ts
    → IsFree sep (join c ts)
unfolding join
join-IsFree sep c [] ne h = tt
join-IsFree sep c (s ∷ []) ne (p, h) = p
join-IsFree sep c (s ∷ t ∷ ts) ne (p, h) =
    IsFree-append sep s (String.◌∷◌ c (join c (t ∷ ts))) p (ne, join-IsFree sep c (t ∷ ts) ne h)
