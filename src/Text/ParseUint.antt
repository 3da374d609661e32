-- ===== src/Text/ParseUint.antt =====
-- strconv.ParseUint(s, base, bits) for base 10 or 16 and at most 16 bits, where the check against
-- the 64-bit cutoff never decides; an error is `none`.
use httpkit.Prelude.{
  ℕ, ◌+◌, ◌-◌, ◌*◌, ◌^◌, ◌≤◌, ◌<◌, ◌≡◌, refl, ◌&&◌, Option, none, some, String, Char, code, leb,
  ltb, arith, if◌then◌else◌, Option-cases, inl, inr,
}

-- The value of a digit or of a letter of either case.
unfoldable pub digit : Char → Option ℕ
digit c =
    if leb b'0' (code c) && leb (code c) b'9'
    then some (code c - b'0')
    else if leb b'a' (code c) && leb (code c) b'z'
    then some (code c - b'a' + 10)
    else if leb b'A' (code c) && leb (code c) b'Z'
    then some (code c - b'A' + 10)
    else none

-- One round of the loop: the value so far, and a character.
abbrev pub push_digit : ℕ → ℕ → ℕ → Option ℕ → Option ℕ
push_digit base top n none = none
push_digit base top n (some d) =
    if leb base d then none else if ltb top (n * base + d) then none else some (n * base + d)

unfoldable pub parse_digits : ℕ → ℕ → Option ℕ → String → Option ℕ
unfolding digit
parse_digits base top o String.[] = o
parse_digits base top none (String.◌∷◌ c s) = none
parse_digits base top (some n) (String.◌∷◌ c s) =
    parse_digits base top (push_digit base top n (digit c)) s

unfoldable pub parse_uint : ℕ → ℕ → String → Option ℕ
unfolding parse_digits
parse_uint base bits String.[] = none
parse_uint base bits (String.◌∷◌ c s) = parse_digits base (2 ^ bits - 1) (some 0) (String.◌∷◌ c s)

tests :
    (parse_uint 10 16 "65535" ≡ some 65535)
    × (parse_uint 10 16 "65536" ≡ none)
    × (parse_uint 16 16 "0a0A" ≡ some 2570)
    × (parse_uint 10 16 "" ≡ none)
    × (parse_uint 10 8 "1x" ≡ none)
unfolding parse_uint
tests = (refl, refl, refl, refl, refl)

push_digit-le : (base top n : ℕ) (o : Option ℕ) (m : ℕ) → push_digit base top n o ≡ some m → m ≤ top
push_digit-le base top n none m e = absurd (cc)
push_digit-le base top n (some d) m e = ground arith

pub parse_digits-none : (base top : ℕ) (s : String) → parse_digits base top none s ≡ none
unfolding parse_digits
parse_digits-none base top String.[] = refl
parse_digits-none base top (String.◌∷◌ c s) = refl

parse_digits-le :
    (base top n : ℕ) (s : String) (m : ℕ)
    → n ≤ top
    → parse_digits base top (some n) s ≡ some m
    → m ≤ top
unfolding parse_digits
parse_digits-le base top n String.[] m h e = ground arith
parse_digits-le base top n (String.◌∷◌ c s) m h e =
    elim (Option-cases (push_digit base top n (digit c))) [
      | inl bad ↦ let e' = rw bad at e in cc (parse_digits-none base top s)
      | inr (n', good) ↦
          parse_digits-le base top n' s m (push_digit-le base top n (digit c) n' good)
            (rw good at e)
    ]

-- What is parsed fits in the bits.
pub parse_uint-lt :
    (base bits : ℕ) (s : String) (m : ℕ)
    → 0 < 2 ^ bits
    → parse_uint base bits s ≡ some m
    → m < 2 ^ bits
unfolding parse_uint
parse_uint-lt base bits String.[] m h e = cc
parse_uint-lt base bits (String.◌∷◌ c s) m h e =
    let le = parse_digits-le base (2 ^ bits - 1) 0 (String.◌∷◌ c s) m (omega arith) e in omega arith
