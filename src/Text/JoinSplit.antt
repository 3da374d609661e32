-- ===== src/Text/JoinSplit.antt =====
-- net.SplitHostPort takes apart what net.JoinHostPort joins.
use Prim.Native.String.{◌++◌ as append}
use text.Mathlib.TextLemmas.{nil-append, cons-append}
use httpkit.Prelude.{
  ℕ, ◌≡◌, refl, false, none, some, String, Char, code, eqb, arith, Bool-cases, inl, inr,
  Option-cases,
}
use httpkit.Text.HostPort.{
  has_code, split_last, split_first, bracketed, plain, split_host_port, join_host_port,
}

-- The text holds no bracket.
abbrev pub NoBrackets : String → Type 0
NoBrackets s = (has_code b'[' s ≡ false) × (has_code b']' s ≡ false)

-- A text that can stand behind the last colon.
abbrev pub IsPort : String → Type 0
IsPort s = NoBrackets s × (has_code b':' s ≡ false)

split_last_of_free : (n : ℕ) (s : String) → has_code n s ≡ false → split_last n s ≡ none
unfolding has_code split_last
split_last_of_free n String.[] h = refl
split_last_of_free n (String.◌∷◌ c s) h = ground (arith, split_last_of_free n s)

split_last-append :
    (s : String) (c : Char) (t : String)
    → has_code (code c) t ≡ false
    → split_last (code c) (append s (String.◌∷◌ c t)) ≡ some (s, t)
unfolding split_last
split_last-append String.[] c t h = rw nil-append (ground (arith, split_last_of_free (code c) t h))
split_last-append (String.◌∷◌ d s) c t h =
    rw cons-append (rw (split_last-append s c t h, split_last) refl)

split_first-append :
    (s : String) (c : Char) (t : String)
    → has_code (code c) s ≡ false
    → split_first (code c) (append s (String.◌∷◌ c t)) ≡ some (s, t)
unfolding split_first has_code
split_first-append String.[] c t h = rw nil-append (ground arith)
split_first-append (String.◌∷◌ d s) c t h =
    rw cons-append (ground (arith, split_first-append s c t))

split-plain :
    (host port : String)
    → NoBrackets host
    → has_code b':' host ≡ false
    → IsPort port
    → split_host_port (append host (append ":" port)) ≡ some (host, port)
unfolding split_host_port has_code
split-plain String.[] port h nc q =
    rw nil-append (rw cons-append (rw nil-append (ground (arith, split_last_of_free b':' port))))
split-plain (String.◌∷◌ c host) port h nc q = rw cons-append (
    rw cons-append
      (rw nil-append (ground (arith, split_last-append host (Char.char b':' tt) port))))

split-bracketed :
    (host port : String)
    → NoBrackets host
    → IsPort port
    → split_host_port (append "[" (append host (append "]:" port))) ≡ some (host, port)
unfolding split_host_port has_code
split-bracketed host port h q = rw cons-append (
    rw nil-append (
      rw cons-append (
        rw cons-append (
          rw nil-append (
            ground (
              arith,
              split_first-append host (Char.char b']' tt) (String.◌∷◌ (Char.char b':' tt) port),
            ))))))

-- A host without brackets and a port are found again.
pub split_host_port-join_host_port :
    (host port : String)
    → NoBrackets host
    → IsPort port
    → split_host_port (join_host_port host port) ≡ some (host, port)
unfolding join_host_port
split_host_port-join_host_port host port h q = elim (Bool-cases (has_code b':' host)) [
  | inl colon ↦ rw colon (split-bracketed host port h q)
  | inr free ↦ rw free (split-plain host port h free q)
]

free_of_split_last : (n : ℕ) (s : String) → split_last n s ≡ none → has_code n s ≡ false
unfolding split_last has_code
free_of_split_last n String.[] e = refl
free_of_split_last n (String.◌∷◌ c s) e = ground (arith, free_of_split_last n s)

free_behind_last : (n : ℕ) (s a b : String) → split_last n s ≡ some (a, b) → has_code n b ≡ false
unfolding split_last
free_behind_last n String.[] a b e = cc
free_behind_last n (String.◌∷◌ c s) a b e = elim (Option-cases (split_last n s)) [
  | inl missing ↦
      let e' = rw (missing, split_last) at e in
      let same : s ≡ b = ground arith in rw (← same) (free_of_split_last n s missing)
  | inr ((x, y), found) ↦
      let e' = rw (found, split_last) at e in
      let same : y ≡ b = ground arith in rw (← same) (free_behind_last n s x y found)
]

free_before_first : (n : ℕ) (s a b : String) → split_first n s ≡ some (a, b) → has_code n a ≡ false
unfolding split_first has_code
free_before_first n String.[] a b e = cc
free_before_first n (String.◌∷◌ c s) a b e = elim (Bool-cases (eqb (code c) n)) [
  | inl here ↦ let e' = rw here at e in let same : String.[] ≡ a = ground arith in rw (← same) refl
  | inr there ↦ elim (Option-cases (split_first n s)) [
    | inl missing ↦ let e' = rw there at (rw missing at e) in cc
    | inr ((x, y), found) ↦
        let e' = rw there at (rw found at e) in
        let same : String.◌∷◌ c x ≡ a = ground arith in
        rw (← same) (rw there (free_before_first n s x y found))
  ]
]

plain_clean :
    (s a b : String)
    → split_last b':' s ≡ some (a, b)
    → (host port : String) → plain (some (a, b)) ≡ some (host, port)
    → NoBrackets host × IsPort port
unfolding plain
plain_clean s a b e host port k = ground (arith, free_behind_last b':' s a b)

bracketed_clean :
    (s a b host port : String)
    → split_first b']' s ≡ some (a, b)
    → bracketed (some (a, b)) ≡ some (host, port)
    → NoBrackets host × IsPort port
unfolding bracketed
bracketed_clean s a String.[] host port e k = cc
bracketed_clean s a (String.◌∷◌ c b) host port e k =
    ground (arith, free_before_first b']' s a (String.◌∷◌ c b))

-- Whatever is split has a host without brackets and a clean port.
pub split_host_port_clean :
    (s host port : String) → split_host_port s ≡ some (host, port) → NoBrackets host × IsPort port
unfolding split_host_port
split_host_port_clean String.[] host port e = cc
split_host_port_clean (String.◌∷◌ c s) host port e = elim (Bool-cases (eqb (code c) b'[')) [
  | inl bracket ↦ elim (Option-cases (split_first b']' s)) [
    | inl missing ↦ let e' = rw missing at (rw bracket at e) in cc
    | inr ((a, b), found) ↦ bracketed_clean s a b host port found (rw found at (rw bracket at e))
  ]
  | inr other ↦ elim (Option-cases (split_last b':' (String.◌∷◌ c s))) [
    | inl missing ↦ let e' = rw (missing, split_last) at (rw other at e) in cc
    | inr ((a, b), found) ↦
        plain_clean (String.◌∷◌ c s) a b found host port (rw (found, split_last) at (rw other at e))
  ]
]
