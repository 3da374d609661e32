-- ===== src/Text/Decimal.antt =====
-- Numbers in decimal, as JA3 strings hold them, and strconv.ParseUint on them.
use Prim.Native.Char.{IsScalar}
use Prim.Native.Nat.{compare, Ordering}
use Prim.Native.String.{◌++◌ as append}
use native.Mathlib.Nat.{pow-suc}
use text.Mathlib.TextLemmas.{nil-append, cons-append, cons≢nil, append-ne-nil_of_right_ne-nil}
use httpkit.Prelude.{
  ℕ, zero, suc, ◌+◌, ◌-◌, ◌*◌, ◌/◌, ◌%◌, ◌^◌, ◌≤◌, ◌<◌, ◌≡◌, ◌≢◌, refl, sym, ap, ◌∙◌, Option, none,
  some, String, Char, ltb, arith, if◌then◌else◌, Bool-cases, inl, inr,
}
use httpkit.Text.Split.{IsFree}
use httpkit.Text.ParseUint.{digit, push_digit, parse_digits, parse_digits-none, parse_uint}

digit_scalar : (d : ℕ) → d < 10 → IsScalar (48 + d)
digit_scalar d h = let e : compare (48 + d) 55296 ≡ Ordering.lt = ground arith in rw e tt

unfoldable pub digit_char : ℕ → Char
unfolding digit_scalar
digit_char n = Char.char (48 + n % 10) (digit_scalar (n % 10) (omega arith))

abbrev one_char : Char → String
one_char c = String.◌∷◌ c String.[]

-- At most `k` digits.
unfoldable pub decimal_fuel : ℕ → ℕ → String
unfolding digit_char
decimal_fuel zero n = ""
decimal_fuel (suc k) n =
    let longer = append (decimal_fuel k (n / 10)) (String.◌∷◌ (digit_char n) String.[]) in
    if ltb n 10 then String.◌∷◌ (digit_char n) String.[] else longer

-- Five digits are enough for 16 bits.
unfoldable pub decimal : ℕ → String
unfolding decimal_fuel
decimal n = decimal_fuel 5 n

digit-digit_char : (n : ℕ) → digit (digit_char n) ≡ some (n % 10)
unfolding digit digit_char
digit-digit_char n = ground arith

parse_digits-append :
    (base top : ℕ) (o : Option ℕ) (s t : String)
    → parse_digits base top o (append s t) ≡ parse_digits base top (parse_digits base top o s) t
unfolding parse_digits
parse_digits-append base top o String.[] t = rw nil-append refl
parse_digits-append base top none (String.◌∷◌ c s) t =
    rw cons-append (sym (parse_digits-none base top t))
parse_digits-append base top (some n) (String.◌∷◌ c s) t =
    rw cons-append (parse_digits-append base top (push_digit base top n (digit c)) s t)

parse_digits_last :
    (top m n : ℕ)
    → m * 10 + n % 10 ≤ top
    → parse_digits 10 top (some m) (one_char (digit_char n)) ≡ some (m * 10 + n % 10)
unfolding parse_digits
parse_digits_last top m n h = rw (digit-digit_char n) (ground arith)

tenth : (k n : ℕ) → n < 10 ^ suc k → n / 10 < 10 ^ k
tenth k n h = let e = pow-suc 10 k in omega arith

parse_digits-decimal :
    (k top n : ℕ) → n < 10 ^ k → n ≤ top → parse_digits 10 top (some 0) (decimal_fuel k n) ≡ some n
unfolding decimal_fuel parse_digits
parse_digits-decimal zero top n h l = (ground arith)
parse_digits-decimal (suc k) top n h l = elim (Bool-cases (ltb n 10)) [
  | inl small ↦ rw small (parse_digits_last top 0 n (omega arith) ∙ ap some (ground arith))
  | inr big ↦ rw big (
      rw (parse_digits-append 10 top (some 0) (decimal_fuel k (n / 10)) (one_char (digit_char n))) (
        rw (parse_digits-decimal k top (n / 10) (tenth k n h) (omega arith))
          (parse_digits_last top (n / 10) n (omega arith) ∙ ap some (omega arith))))
]

decimal_fuel-ne : (k n : ℕ) → decimal_fuel (suc k) n ≢ ""
unfolding decimal_fuel
decimal_fuel-ne k n e = elim (Bool-cases (ltb n 10)) [
  | inl small ↦ let e' = rw small at e in cons≢nil e'
  | inr big ↦
      let e' = rw big at e in append-ne-nil_of_right_ne-nil (decimal_fuel k (n / 10)) cons≢nil e'
]

parse_uint_of_ne :
    (base bits : ℕ) (s : String)
    → s ≢ ""
    → parse_uint base bits s ≡ parse_digits base (2 ^ bits - 1) (some 0) s
unfolding parse_uint
parse_uint_of_ne base bits String.[] h = absurd (h refl)
parse_uint_of_ne base bits (String.◌∷◌ c s) h = refl

-- A number in decimal is parsed to itself, if it fits in the bits.
pub parse_uint-decimal :
    (bits n : ℕ) → n < 10 ^ 5 → n < 2 ^ bits → parse_uint 10 bits (decimal n) ≡ some n
unfolding decimal
parse_uint-decimal bits n h l =
    parse_uint_of_ne 10 bits (decimal_fuel 5 n) (decimal_fuel-ne 4 n)
    ∙ parse_digits-decimal 5 (2 ^ bits - 1) n h (omega arith)

pub IsFree-append : (sep : ℕ) (s t : String) → IsFree sep s → IsFree sep t → IsFree sep (append s t)
IsFree-append sep String.[] t h k = rw nil-append k
IsFree-append sep (String.◌∷◌ c s) t (p, h) k = rw cons-append (p, IsFree-append sep s t h k)

decimal_fuel-IsFree : (sep k n : ℕ) → sep < 48 → IsFree sep (decimal_fuel k n)
unfolding decimal_fuel
decimal_fuel-IsFree sep zero n h = tt
decimal_fuel-IsFree sep (suc k) n h = elim (Bool-cases (ltb n 10)) [
  | inl small ↦ rw small (omega arith, tt)
  | inr big ↦ rw big (
      IsFree-append sep (decimal_fuel k (n / 10)) (one_char (digit_char n))
        (decimal_fuel-IsFree sep k (n / 10) h) (omega arith, tt))
]

-- It holds no separator.
pub decimal-IsFree : (sep n : ℕ) → sep < 48 → IsFree sep (decimal n)
unfolding decimal
decimal-IsFree sep n h = decimal_fuel-IsFree sep 5 n h

pub decimal-ne : (n : ℕ) → decimal n ≢ ""
unfolding decimal
decimal-ne n = decimal_fuel-ne 4 n
