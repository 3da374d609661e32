-- ===== src/Text/Lower.antt =====
-- strings.ToLower. Only the letters of ASCII are mapped: the program lowers URL schemes and header
-- names, which are ASCII.
use Prim.Native.Char.{IsScalar}
use Prim.Native.Nat.{compare, Ordering}
use native.Mathlib.Decide.{dec_le}
use mathlib.Core.Logic.{dite, ite}
use httpkit.Prelude.{ℕ, ◌+◌, ◌≤◌, ◌≡◌, refl, String, Char, code, arith}

upper_scalar : (n : ℕ) → n ≤ 0x5a → IsScalar (n + 32)
upper_scalar n h = let e : compare (n + 32) 55296 ≡ Ordering.lt = ground arith in rw e tt

unfoldable pub lower_char : Char → Char
unfolding dec_le upper_scalar
lower_char c =
    ite (dec_le 0x41 (code c))
      (dite (dec_le (code c) 0x5a) (λ h. Char.char (code c + 32) (upper_scalar (code c) h))
        (λ _. c))
      c

unfoldable pub to_lower : String → String
unfolding lower_char
to_lower String.[] = String.[]
to_lower (String.◌∷◌ c s) = String.◌∷◌ (lower_char c) (to_lower s)

lower_char_idem : (c : Char) → lower_char (lower_char c) ≡ lower_char c
unfolding lower_char
lower_char_idem c = ground arith

pub to_lower_idem : (s : String) → to_lower (to_lower s) ≡ to_lower s
unfolding to_lower
to_lower_idem String.[] = refl
to_lower_idem (String.◌∷◌ c s) = cc (lower_char_idem c, to_lower_idem s)

lowered : to_lower "Content-TYPE" ≡ "content-type"
unfolding to_lower
lowered = refl
