-- ===== src/Jar/Store.antt =====
-- jar.go: what a jar without `WithSkipExisting` promises, as a map to live cookies.
use httpkit.Prelude.{
  Bool, ◌||◌, ◌&&◌, String, List, [], ◌∷◌, Option, none, some, or_else, ◌==◌, if◌then◌else◌,
}
use httpkit.Http.{Url, Cookie}
use httpkit.Jar.{is_full, build_cookie_host_key, is_alive}

-- The live cookie of a host key and a name.
abbrev pub Store : Type 0
Store = String → String → Option Cookie

-- The last cookie of the name in the slice that is not dropped for its empty value.
unfoldable pub newest : Bool → List Cookie → String → Option Cookie
newest allow_empty [] name = none
newest allow_empty (c ∷ cs) name =
    or_else (newest allow_empty cs name)
      (if c.name == name && (allow_empty || is_full c) then some c else none)

abbrev pub if_alive : Option Cookie → Option Cookie
if_alive none = none
if_alive (some c) = if is_alive c then some c else none

abbrev pub overwrite : Option Cookie → Option Cookie → Option Cookie
overwrite none old = old
overwrite (some c) old = if_alive (some c)

-- A call of `SetCookies` overwrites the names that it offers; an expired cookie deletes.
unfoldable pub store_set : Bool → Store → Url → List Cookie → Store
store_set allow_empty s u cs key name =
    if build_cookie_host_key u == key
    then overwrite (newest allow_empty cs name) (s key name)
    else s key name
