-- ===== src/Text/Wildcard.antt =====
-- strings.Contains(s, "*.") and strings.ReplaceAll(s, "*.", "").
use Prim.Native.String.{◌++◌ as append}
use text.Mathlib.TextLemmas.{nil-append, cons-append}
use httpkit.Prelude.{
  ◌≡◌, refl, Bool, true, false, ◌&&◌, ◌||◌, String, Char, code, eqb, arith, if◌then◌else◌,
}

abbrev pub is_wildcard : Char → Char → Bool
is_wildcard c d = eqb (code c) b'*' && eqb (code d) b'.'

unfoldable pub contains_wildcard : String → Bool
contains_wildcard String.[] = false
contains_wildcard (String.◌∷◌ c String.[]) = false
contains_wildcard (String.◌∷◌ c (String.◌∷◌ d s)) =
    is_wildcard c d || contains_wildcard (String.◌∷◌ d s)

unfoldable pub remove_wildcards : String → String
remove_wildcards String.[] = String.[]
remove_wildcards (String.◌∷◌ c String.[]) = String.◌∷◌ c String.[]
remove_wildcards (String.◌∷◌ c (String.◌∷◌ d s)) =
    let shorter = remove_wildcards s in
    let kept = String.◌∷◌ c (remove_wildcards (String.◌∷◌ d s)) in
    if is_wildcard c d then shorter else kept

-- Where there is no wildcard, nothing is removed.
pub remove_wildcards_of_none : (s : String) → contains_wildcard s ≡ false → remove_wildcards s ≡ s
unfolding contains_wildcard remove_wildcards
remove_wildcards_of_none String.[] h = refl
remove_wildcards_of_none (String.◌∷◌ c String.[]) h = refl
remove_wildcards_of_none (String.◌∷◌ c (String.◌∷◌ d s)) h =
    ground (arith, remove_wildcards_of_none (String.◌∷◌ d s))

-- The wildcard in front of a name without one is taken off.
pub remove_wildcards-append :
    (s : String) → contains_wildcard s ≡ false → remove_wildcards (append "*." s) ≡ s
unfolding remove_wildcards
remove_wildcards-append s h =
    rw cons-append (rw cons-append (rw nil-append (remove_wildcards_of_none s h)))

pub contains_wildcard-append : (s : String) → contains_wildcard (append "*." s) ≡ true
unfolding contains_wildcard
contains_wildcard-append s = rw cons-append (rw cons-append refl)
