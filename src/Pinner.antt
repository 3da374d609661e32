-- ===== src/Pinner.antt =====
-- pinner.go: certificate pinning over the storage of tam7t/hpkp, which is a parameter. The storage
-- is one for the process, and is passed in and out.
pub mod Init
pub mod Check
pub mod Sample
mod Tests
use httpkit.Prelude.{
  ℤ, pos, Bool, true, false, ◌||◌, ◌&&◌, String, List, [], ◌∷◌, Option, none, some, Assoc, ◌==◌,
  if◌then◌else◌,
}
use httpkit.Text.{contains_wildcard, remove_wildcards}

-- hpkp.Header: the fields that the program sets, and the age that it leaves at 0. `Created` and
-- `ReportURI`, which it neither sets nor reads, are left out.
pub record HpkpHeader : Type 0 where
  pub max_age : ℤ
  pub permanent : Bool
  pub sha256_pins : List String
  pub include_sub_domains : Bool

-- hpkp.MemStorage with `Lookup` and `Add`, and the method `Matches` of a header.
pub record HpkpStorage : Type 1 where
  pub Storage : Type 0
  pub find : Storage → String → Option HpkpHeader
  pub add : Storage → String → HpkpHeader → Storage
  pub matches : HpkpHeader → String → Bool

-- reflect.DeepEqual on two slices of strings. A nil slice is the empty one here: for an empty list
-- of pins the code tells the two apart, and then adds the header again.
unfoldable pub deep_equal : List String → List String → Bool
deep_equal [] [] = true
deep_equal (x ∷ xs) (y ∷ ys) = x == y && deep_equal xs ys
deep_equal _ _ = false

pub data PinError : Type 0 where
  bad_pin_detected : PinError

-- The name under which a key of the map is stored.
unfoldable pub pinned_name : String → String
unfolding contains_wildcard remove_wildcards
pinned_name host = if contains_wildcard host then remove_wildcards host else host

abbrev pub same_pins : List String → Option HpkpHeader → Bool
same_pins pins none = false
same_pins pins (some header) = deep_equal header.sha256_pins pins

module _ (h : HpkpStorage) where
  open h use {Storage, find, add, matches}

  -- One round of the loop of `init`.
  unfoldable pub init_host : Storage → String → List String → Storage
  unfolding deep_equal pinned_name
  init_host storage host pins =
      if same_pins pins (find storage (pinned_name host))
      then storage
      else add storage (pinned_name host) (record {
        max_age = pos 0;
        permanent = true;
        sha256_pins = pins;
        include_sub_domains = contains_wildcard host;
      })

  -- `init`, over the entries of the map in the order in which the runtime gives them.
  unfoldable pub init : Storage → Assoc (List String) → Storage
  unfolding init_host
  init storage [] = storage
  init storage ((host, pins) ∷ rest) = init (init_host storage host pins) rest

  -- One of the peer's certificates has a pinned fingerprint.
  unfoldable pub some_match : HpkpHeader → List String → Bool
  some_match header [] = false
  some_match header (pin ∷ pins) = matches header pin || some_match header pins

  check_header : Option HpkpHeader → List String → Option PinError
  unfolding some_match
  check_header none fingerprints = none
  check_header (some header) fingerprints =
      if some_match header fingerprints then none else some bad_pin_detected

  -- `Pin`: no error, or `ErrBadPinDetected`; `fingerprints` are those of the peer's certificates.
  unfoldable pub pin : Storage → Assoc (List String) → String → List String → Option PinError
  unfolding check_header
  pin storage [] host fingerprints = none
  pin storage (_ ∷ _) host fingerprints = check_header (find storage host) fingerprints
