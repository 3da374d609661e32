-- ===== src/Pinner/Check.antt =====
-- pinner.go, Pin: which connections are accepted.
use httpkit.Prelude.{
  ◌≡◌, ◌↔◌, ◌⊎◌, inl, inr, refl, true, String, List, [], ◌∷◌, none, some, arith, Assoc, Bool-cases,
  Option-cases,
}
use httpkit.Pinner.{HpkpHeader, HpkpStorage, some_match, check_header, pin}

module _ (h : HpkpStorage) where
  open h use {Storage, find, matches}

  -- One of the fingerprints matches.
  pub data AnyMatches (header : HpkpHeader) : List String → Type 0 where
    here : {p : String} {ps : List String} → matches header p ≡ true → AnyMatches header (p ∷ ps)
    there : {p : String} {ps : List String} → AnyMatches header ps → AnyMatches header (p ∷ ps)

  some_match_sound :
      (header : HpkpHeader) (ps : List String)
      → some_match h header ps ≡ true
      → AnyMatches header ps
  unfolding some_match
  some_match_sound header [] e = cc
  some_match_sound header (p ∷ ps) e = elim (Bool-cases (matches header p)) [
    | inl y ↦ here y
    | inr n ↦ there (some_match_sound header ps (rw n at e))
  ]

  some_match_complete :
      (header : HpkpHeader) {ps : List String}
      → AnyMatches header ps
      → some_match h header ps ≡ true
  unfolding some_match
  some_match_complete header (here m) = rw m
  some_match_complete header (there {p} a) = ground (arith, some_match_complete header a)

  -- What makes a connection acceptable to a pinner with at least one pinned host.
  pub data Accepted (s : Storage) (host : String) (ps : List String) : Type 0 where
    not_pinned : find s host ≡ none → Accepted s host ps
    pinned :
        (header : HpkpHeader)
        → find s host ≡ some header
        → AnyMatches header ps
        → Accepted s host ps

  Accepted-sound :
      (s : Storage) (host : String) (ps : List String)
      → check_header h (find s host) ps ≡ none
      → Accepted s host ps
  unfolding check_header
  Accepted-sound s host ps e = elim (Option-cases (find s host)) [
    | inl missing ↦ not_pinned missing
    | inr (header, found) ↦ pinned header found (some_match_sound header ps (ground arith))
  ]

  Accepted-complete :
      (s : Storage) (host : String) (ps : List String)
      → Accepted s host ps
      → check_header h (find s host) ps ≡ none
  unfolding check_header
  Accepted-complete s host ps (not_pinned e) = rw e
  Accepted-complete s host ps (pinned header found any) =
      rw found (rw (some_match_complete header any))

  -- `Pin` accepts a connection exactly when the pinner has no pins, or when the storage does not
  -- know the host, or when one of the peer's certificates matches what is stored; the entries of
  -- the pinner's own map play no other part.
  pub pin-eq-none_iff :
      (s : Storage) (pins : Assoc (List String)) (host : String) (ps : List String)
      → (pin h s pins host ps ≡ none) ↔ ((pins ≡ []) ⊎ Accepted s host ps)
  unfolding pin
  pin-eq-none_iff s [] host ps = (λ e. inl refl, λ a. refl)
  pin-eq-none_iff s (p ∷ pins) host ps = (
    λ e. inr (Accepted-sound s host ps e),
    elim [ inl e ↦ cc | inr a ↦ Accepted-complete s host ps a ],
  )
