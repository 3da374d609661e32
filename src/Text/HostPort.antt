-- ===== src/Text/HostPort.antt =====
-- net.SplitHostPort and net.JoinHostPort, over code points.
use Prim.Native.String.{◌++◌ as append}
use httpkit.Prelude.{
  ℕ, Char, ◌≡◌, refl, Bool, false, ◌||◌, Option, none, some, String, code, eqb, if◌then◌else◌,
}

-- The byte occurs in the text.
unfoldable pub has_code : ℕ → String → Bool
has_code n String.[] = false
has_code n (String.◌∷◌ c s) = eqb (code c) n || has_code n s

-- What stands before and behind the last occurrence.
unfoldable pub split_last : ℕ → String → Option (String × String)
split_last n String.[] = none
split_last n (String.◌∷◌ c s) = elim (split_last n s) [
  | some (a, b) ↦ some (String.◌∷◌ c a, b)
  | none ↦ if eqb (code c) n then some ("", s) else none
]

abbrev pub cons_first : Char → Option (String × String) → Option (String × String)
cons_first c none = none
cons_first c (some (a, b)) = some (String.◌∷◌ c a, b)

-- What stands before and behind the first occurrence.
unfoldable pub split_first : ℕ → String → Option (String × String)
split_first n String.[] = none
split_first n (String.◌∷◌ c s) =
    let rest = cons_first c (split_first n s) in if eqb (code c) n then some ("", s) else rest

-- The host of "[host]:port" once the text behind the bracket is known.
unfoldable pub bracketed : Option (String × String) → Option (String × String)
unfolding has_code
bracketed none = none
bracketed (some (host, String.[])) = none
bracketed (some (host, String.◌∷◌ c port)) =
    if eqb (code c) b':'
    then (if has_code b':' port || has_code b'[' host || has_code b'[' port || has_code b']' port
        then none
        else some (host, port))
    else none

unfoldable pub plain : Option (String × String) → Option (String × String)
unfolding has_code
plain none = none
plain (some (host, port)) =
    if has_code b':' host
      || has_code b'[' host
      || has_code b'[' port
      || has_code b']' host
      || has_code b']' port
    then none
    else some (host, port)

unfoldable pub split_host_port : String → Option (String × String)
unfolding bracketed plain split_first split_last
split_host_port String.[] = none
split_host_port (String.◌∷◌ c s) =
    if eqb (code c) b'['
    then bracketed (split_first b']' s)
    else plain (split_last b':' (String.◌∷◌ c s))

-- A host with a colon is an IPv6 literal, and gets brackets.
unfoldable pub join_host_port : String → String → String
unfolding has_code
join_host_port host port =
    if has_code b':' host
    then append "[" (append host (append "]:" port))
    else append host (append ":" port)

split_tests :
    (split_host_port "a.b:80" ≡ some ("a.b", "80"))
    × (split_host_port "[::1]:443" ≡ some ("::1", "443"))
    × (split_host_port "::1" ≡ none)
    × (split_host_port "a.b" ≡ none)
    × (split_host_port "[::1]" ≡ none)
    × (join_host_port "::1" "443" ≡ "[::1]:443")
unfolding split_host_port join_host_port
split_tests = (refl, refl, refl, refl, refl, refl)
