-- ===== src/Pinner/Sample.antt =====
-- A storage of pins for tests: an association list, found by exact name. A header that is not
-- permanent and has no age deletes.
use httpkit.Prelude.{
  ◌≡◌, String, some, Assoc, lookup, put, lookup-put, eq_refl, List, [], ◌∷◌, Bool, true, false,
  ◌||◌, not, ℤ, pos, negsuc, eqb, remove, if◌then◌else◌, ◌==◌,
}
use httpkit.Pinner.{HpkpHeader, HpkpStorage}

unfoldable pub has_pin : List String → String → Bool
has_pin [] p = false
has_pin (x ∷ xs) p = x == p || has_pin xs p

abbrev is_zero : ℤ → Bool
is_zero (pos n) = eqb n 0
is_zero (negsuc n) = false

abbrev pub mem_storage : HpkpStorage
mem_storage = record {
  Storage = Assoc HpkpHeader;
  find = λ s k. lookup k s;
  add = λ s k x. if x.permanent || not (is_zero x.max_age) then put k x s else remove k s;
  matches = λ header p. has_pin header.sha256_pins p;
}

pub mem_storage-find-add_permanent :
    (s : Assoc HpkpHeader) (k : String) (x : HpkpHeader)
    → x.permanent ≡ true
    → mem_storage.find (mem_storage.add s k x) k ≡ some x
mem_storage-find-add_permanent s k x kept = rw kept (simp (lookup-put, eq_refl))
