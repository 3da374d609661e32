-- ===== src/Pinner/Tests.antt =====
-- pinner.go at concrete pins: the theorems' instances, and runs.
use Prim.Native.String.{◌++◌ as append}
use httpkit.Prelude.{
  pos, ◌≡◌, ◌↔◌, ◌⊎◌, refl, String, List, [], ◌∷◌, none, some, true, false, lookup, Assoc,
}
use httpkit.Text.{contains_wildcard}
use httpkit.Pinner.{HpkpHeader, bad_pin_detected, pinned_name, init_host, pin}
use httpkit.Pinner.Init.{init_host-pins, init_host_ignores_wildcard}
use httpkit.Pinner.Check.{Accepted, pin-eq-none_iff}
use httpkit.Pinner.Sample.{has_pin, mem_storage, mem_storage-find-add_permanent}

abbrev exact : HpkpHeader
exact = record {
  max_age = pos 0;
  permanent = true;
  sha256_pins = "p1" ∷ "p2" ∷ [];
  include_sub_domains = false;
}

abbrev shop : Assoc HpkpHeader
shop = ("shop.com", exact) ∷ []

wrong_pin :
    pin mem_storage shop (("shop.com", "p1" ∷ []) ∷ []) "shop.com" ("p3" ∷ [])
    ≡ some bad_pin_detected
unfolding pin lookup has_pin
wrong_pin = refl

right_pin : pin mem_storage shop (("shop.com", "p1" ∷ []) ∷ []) "shop.com" ("p3" ∷ "p2" ∷ []) ≡ none
unfolding pin lookup has_pin
right_pin = refl

pin-eq-none_iff_example :
    (pin mem_storage shop (("shop.com", "p1" ∷ []) ∷ []) "shop.com" ("p3" ∷ []) ≡ none) ↔ (
      (◌≡◌ {A = Assoc (List String)} (("shop.com", "p1" ∷ []) ∷ []) [])
      ⊎ Accepted mem_storage shop "shop.com" ("p3" ∷ []))
pin-eq-none_iff_example =
    pin-eq-none_iff mem_storage shop (("shop.com", "p1" ∷ []) ∷ []) "shop.com" ("p3" ∷ [])

init_host-pins_example :
    (header : HpkpHeader) × (lookup
        (pinned_name "*.shop.com")
        (init_host mem_storage shop "*.shop.com" ("p3" ∷ []))
      ≡ some header)
    × (header.sha256_pins ≡ "p3" ∷ [])
init_host-pins_example =
    init_host-pins mem_storage mem_storage-find-add_permanent shop "*.shop.com" ("p3" ∷ [])

plain_name : contains_wildcard "shop.com" ≡ false
unfolding contains_wildcard
plain_name = refl

shop_found : lookup "shop.com" shop ≡ some exact
unfolding lookup
shop_found = refl

init_host_ignores_wildcard_example :
    lookup "shop.com" (init_host mem_storage shop (append "*." "shop.com") ("p1" ∷ "p2" ∷ []))
    ≡ some exact
init_host_ignores_wildcard_example =
    init_host_ignores_wildcard mem_storage shop "shop.com" exact plain_name shop_found refl
