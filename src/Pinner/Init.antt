-- ===== src/Pinner/Init.antt =====
-- pinner.go, init: what the storage holds for a host that was initialised.
use Prim.Native.String.{◌++◌ as append}
use httpkit.Prelude.{
  ◌≡◌, refl, pos, true, false, String, List, [], ◌∷◌, Option, none, some, arith, eq_iff, eq_refl,
  Bool-cases, inl, inr,
}
use httpkit.Text.{contains_wildcard, contains_wildcard-append, remove_wildcards-append}
use httpkit.Pinner.{HpkpHeader, HpkpStorage, deep_equal, same_pins, pinned_name, init_host}

deep_equal_sound : (xs ys : List String) → deep_equal xs ys ≡ true → xs ≡ ys
unfolding deep_equal
deep_equal_sound [] [] e = refl
deep_equal_sound (x ∷ xs) (y ∷ ys) e = ground (arith, eq_iff x y, deep_equal_sound xs ys)
deep_equal_sound _ _ e = cc

deep_equal_refl : (xs : List String) → deep_equal xs xs ≡ true
unfolding deep_equal
deep_equal_refl [] = refl
deep_equal_refl (x ∷ xs) = ground (arith, eq_refl x, deep_equal_refl xs)

same_pins_sound :
    (pins : List String) (o : Option HpkpHeader)
    → same_pins pins o ≡ true
    → (header : HpkpHeader) × (o ≡ some header) × (header.sha256_pins ≡ pins)
same_pins_sound pins none e = cc
same_pins_sound pins (some header) e = (header, refl, deep_equal_sound header.sha256_pins pins e)

init_host_known :
    (h : HpkpStorage) (s : h.Storage) (host : String) (pins : List String) (header : HpkpHeader)
    → h.find s (pinned_name host) ≡ some header
    → header.sha256_pins ≡ pins
    → init_host h s host pins ≡ s
unfolding init_host
init_host_known h s host pins header found same = rw found (rw same (rw (deep_equal_refl pins)))

module _ (h : HpkpStorage)
    (find-add_permanent : (s : h.Storage) (k : String) (x : HpkpHeader)
      → x.permanent ≡ true
      → h.find (h.add s k x) k ≡ some x) where
  open h use {Storage, find}

  -- Where adding a permanent header makes it found, a host is stored after a round of `init` with
  -- the pins of the map, whether or not it was there before.
  pub init_host-pins :
      (s : Storage) (host : String) (pins : List String)
      → (header : HpkpHeader) × (find (init_host h s host pins) (pinned_name host) ≡ some header)
        × (header.sha256_pins ≡ pins)
  unfolding init_host
  init_host-pins s host pins = elim (Bool-cases (same_pins pins (find s (pinned_name host)))) [
    | inl same ↦ rw same (same_pins_sound pins (find s (pinned_name host)) same)
    | inr new ↦ rw new (
      record {
        max_age = pos 0;
        permanent = true;
        sha256_pins = pins;
        include_sub_domains = contains_wildcard host;
      },
      find-add_permanent s (pinned_name host) _ refl,
      refl,
    )
  ]

  -- A second round for the same host and pins changes nothing.
  pub init_host_idem :
      (s : Storage) (host : String) (pins : List String)
      → init_host h (init_host h s host pins) host pins ≡ init_host h s host pins
  init_host_idem s host pins =
      let (header, found, same) = init_host-pins s host pins in
      init_host_known h (init_host h s host pins) host pins header found same

-- A host that is stored without its subdomains stays so when a later pinner asks for the same
-- pins with a wildcard.
pub init_host_ignores_wildcard :
    (h : HpkpStorage) (s : h.Storage) (host : String) (header : HpkpHeader)
    → contains_wildcard host ≡ false
    → h.find s host ≡ some header
    → header.include_sub_domains ≡ false
    → h.find (init_host h s (append "*." host) header.sha256_pins) host ≡ some header
unfolding init_host pinned_name
init_host_ignores_wildcard h s host header plain found scope = rw (contains_wildcard-append host) (
    rw (remove_wildcards-append host plain)
      (rw found (rw (deep_equal_refl header.sha256_pins) found)))
