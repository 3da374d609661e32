-- ===== src/Ja3/Parts.antt =====
-- ja3.go, stringToSpec: strings with too few parts.
use httpkit.Prelude.{
  ℕ, ◌≡◌, ◌↔◌, ◌≢◌, ◌<◌, refl, String, List, [], ◌∷◌, Option, none, some, arith, length, Bool-cases,
  inl, inr, eqb,
}
use httpkit.Text.{split}
use httpkit.Tls.{TlsIds}
use httpkit.Ja3.{
  Result, ok, err, panic, ◌>>=◌, or_error, Ja3Error, Ja3Lists, map_all, parse_number, map_extension,
  ExtMap, ext_lookup, ext_map, drop_empty, spec_of_parts, of_split, string_to_spec,
}

or_error-ne-panic {ℓ} : {A : Type ℓ} (e : Ja3Error) (o : Option A) → or_error e o ≢ panic
or_error-ne-panic e none = λ p. cc
or_error-ne-panic e (some a) = λ p. cc

>>=-ne-panic {ℓ κ} :
    {A : Type ℓ} {B : Type κ} (r : Result A) (f : A → Result B)
    → r ≢ panic
    → ((a : A) → f a ≢ panic)
    → (r >>= f) ≢ panic
>>=-ne-panic (ok a) f h k = k a
>>=-ne-panic (err e) f h k = λ p. cc
>>=-ne-panic panic f h k = λ p. h refl

map_all-ne-panic :
    {A B : Type 0} (f : A → Result B) (xs : List A) → ((x : A) → f x ≢ panic) → map_all f xs ≢ panic
unfolding map_all
map_all-ne-panic f [] h = λ p. cc
map_all-ne-panic f (x ∷ xs) h =
    >>=-ne-panic (f x) _ (h x)
      (λ y. >>=-ne-panic (map_all f xs) _ (map_all-ne-panic f xs h) (λ ys p. cc))

parse_number-ne-panic : (bits : ℕ) (s : String) → parse_number bits s ≢ panic
unfolding parse_number
parse_number-ne-panic bits s = or_error-ne-panic _ _

map_extension-ne-panic : (ids : TlsIds) (m : ExtMap) (s : String) → map_extension ids m s ≢ panic
unfolding map_extension
map_extension-ne-panic ids m s =
    >>=-ne-panic (parse_number 16 s) _ (parse_number-ne-panic 16 s) (λ id.
      elim (Bool-cases (eqb id ids.grease_placeholder)) [
        | inl y ↦ rw y (λ p. cc)
        | inr n ↦ rw n (or_error-ne-panic _ (ext_lookup id m))
      ])

spec_of_parts-ne-panic :
    (ids : TlsIds) (l : Ja3Lists) (a b c d : String) → spec_of_parts ids l a b c d ≢ panic
unfolding spec_of_parts
spec_of_parts-ne-panic ids l a b c d =
    >>=-ne-panic _ _ (map_all-ne-panic _ (drop_empty (split b'-' c)) (parse_number-ne-panic 16))
      λ qs.
        >>=-ne-panic _ _ (map_all-ne-panic _ (drop_empty (split b'-' d)) (parse_number-ne-panic 8))
          λ ps.
            >>=-ne-panic _ _
              (map_all-ne-panic _ (split b'-' b) (map_extension-ne-panic ids (ext_map ids l qs ps)))
              λ exts.
                >>=-ne-panic _ _ (map_all-ne-panic _ (split b'-' a) (parse_number-ne-panic 16))
                  λ suites p. cc

of_split-eq-panic_iff :
    (ids : TlsIds) (l : Ja3Lists) (xs : List String) → (of_split ids l xs ≡ panic) ↔ (length xs < 5)
unfolding of_split
of_split-eq-panic_iff ids l (v ∷ a ∷ b ∷ c ∷ d ∷ r) =
    (λ p. absurd (spec_of_parts-ne-panic ids l a b c d p), λ h. absurd (omega arith))
of_split-eq-panic_iff ids l [] = (λ p. omega arith, λ h. refl)
of_split-eq-panic_iff ids l (v ∷ []) = (λ p. omega arith, λ h. refl)
of_split-eq-panic_iff ids l (v ∷ a ∷ []) = (λ p. omega arith, λ h. refl)
of_split-eq-panic_iff ids l (v ∷ a ∷ b ∷ []) = (λ p. omega arith, λ h. refl)
of_split-eq-panic_iff ids l (v ∷ a ∷ b ∷ c ∷ []) = (λ p. omega arith, λ h. refl)

pub string_to_spec-eq-panic_iff :
    (ids : TlsIds) (l : Ja3Lists) (ja3 : String)
    → (string_to_spec ids l ja3 ≡ panic) ↔ (length (split b',' ja3) < 5)
unfolding string_to_spec
string_to_spec-eq-panic_iff ids l ja3 = of_split-eq-panic_iff ids l (split b',' ja3)
