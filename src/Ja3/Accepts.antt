-- ===== src/Ja3/Accepts.antt =====
-- ja3.go, stringToSpec: which strings give a specification, which an error and which a panic.
use httpkit.Prelude.{
  ℕ, ◌≡◌, ◌↔◌, ◌⊎◌, ◌<◌, refl, sym, subst, true, false, String, List, [], ◌∷◌, map, some, All,
  length, arith, Bool-cases, inl, inr, eqb, if◌then◌else◌,
}
use httpkit.Text.{split, parse_uint}
use httpkit.Tls.{TlsIds, TlsExtension, grease}
use httpkit.Ja3.{
  Result, ok, panic, or_error, unknown_extension, invalid_number, Ja3Lists, map_all, parse_number,
  map_extension, ExtMap, ext_lookup, ext_map, drop_empty, spec_of_parts, of_split, string_to_spec,
  get_extension_base_map, compress_entry,
}
use httpkit.Ja3.Results.{
  IsOk, bind-IsOk_iff, or_error-IsOk_iff, or_error-eq-ok_iff, map_all-IsOk_iff,
}
use httpkit.Ja3.Parts.{string_to_spec-eq-panic_iff}

-- A decimal number that fits in the bits.
abbrev pub IsNumber : ℕ → String → Type 0
IsNumber bits s = (n : ℕ) × (parse_uint 10 bits s ≡ some n)

abbrev pub Among : ℕ → List ℕ → Type 0
Among id [] = ⊥
Among id (j ∷ js) = (j ≡ id) ⊎ Among id js

abbrev compressed : TlsIds → List ℕ → List ℕ → List ℕ
compressed ids [] rest = rest
compressed ids (_ ∷ _) rest = ids.extension_compress_certificate ∷ rest

-- The extensions that can be built; that for compressed certificates needs algorithms.
abbrev pub known_ids : TlsIds → Ja3Lists → List ℕ
known_ids ids l =
    ids.extension_record_size_limit
    ∷ ids.extension_alps
    ∷ ids.extension_alps_old
    ∷ ids.extension_alpn
    ∷ ids.extension_delegated_credentials
    ∷ ids.extension_signature_algorithms
    ∷ ids.extension_supported_versions
    ∷ ids.extension_ech
    ∷ ids.extension_supported_points
    ∷ ids.extension_key_share
    ∷ compressed ids l.cert_compressions (
        ids.extension_supported_curves ∷ ids.extension_server_name ∷ ids.extension_status_request
        ∷ ids.extension_sct ∷ ids.extension_padding ∷ ids.extension_extended_master_secret
        ∷ ids.extension_session_ticket ∷ ids.extension_pre_shared_key ∷ ids.extension_early_data
        ∷ ids.extension_cookie ∷ ids.extension_psk_modes ∷ ids.extension_next_proto_neg
        ∷ ids.extension_renegotiation_info ∷ [])

-- GREASE, or the number of an extension that can be built.
abbrev pub IsKnown : TlsIds → Ja3Lists → String → Type 0
IsKnown ids l s =
    (id : ℕ) × (parse_uint 10 16 s ≡ some id)
    × ((id ≡ ids.grease_placeholder) ⊎ Among id (known_ids ids l))

-- The version is not read, and parts behind the fifth neither. Of the lists only those of curves
-- and point formats may be empty.
abbrev pub Accepts : TlsIds → Ja3Lists → List String → Type 0
Accepts ids l (version ∷ ciphers ∷ extensions ∷ curves ∷ points ∷ _) =
    All (IsNumber 16) (drop_empty (split b'-' curves))
    × All (IsNumber 8) (drop_empty (split b'-' points))
    × All (IsKnown ids l) (split b'-' extensions)
    × All (IsNumber 16) (split b'-' ciphers)
Accepts ids l _ = ⊥

eqb-true : (a b : ℕ) → eqb a b ≡ true → a ≡ b
eqb-true a b e = ground arith

eqb-false : (a b : ℕ) → eqb a b ≡ false → ¬ (a ≡ b)
eqb-false a b e q = ground arith

parse_number-IsOk_iff : (bits : ℕ) (s : String) → IsOk (parse_number bits s) ↔ IsNumber bits s
unfolding parse_number
parse_number-IsOk_iff bits s = or_error-IsOk_iff _ (parse_uint 10 bits s)

ext_lookup-Among_iff :
    (id : ℕ) (m : ExtMap)
    → ((e : TlsExtension) × (ext_lookup id m ≡ some e)) ↔ Among id (map (λ x. x.0) m)
unfolding ext_lookup
ext_lookup-Among_iff id [] = (λ (e, q). cc, λ a. elim a [ ])
ext_lookup-Among_iff id ((j, x) ∷ m) = elim (Bool-cases (eqb j id)) [
  | inl same ↦ (λ i. inl (eqb-true j id same), λ a. (x, rw same refl))
  | inr other ↦ (
    λ (e, q). inr ((ext_lookup-Among_iff id m).0 (e, ground (arith, other, q))),
    λ a. elim a [
      | inl y ↦ absurd (eqb-false j id other y)
      | inr b ↦ rw other ((ext_lookup-Among_iff id m).1 b)
    ],
  )
]

compress_entry-known_ids :
    (ids : TlsIds) (algorithms : List ℕ) (m : ExtMap)
    → map (λ x. x.0) (compress_entry ids algorithms m)
      ≡ compressed ids algorithms (map (λ x. x.0) m)
compress_entry-known_ids ids [] m = refl
compress_entry-known_ids ids (a ∷ algorithms) m = refl

ext_map-known_ids :
    (ids : TlsIds) (l : Ja3Lists) (qs ps : List ℕ)
    → map (λ x. x.0) (ext_map ids l qs ps) ≡ known_ids ids l
unfolding ext_map get_extension_base_map
ext_map-known_ids ids l qs ps = rw (compress_entry-known_ids ids l.cert_compressions _) refl

-- What one round of the loop over the extensions does with a number.
extension_of_id : TlsIds → ExtMap → String → ℕ → Result TlsExtension
extension_of_id ids m s id =
    if eqb id ids.grease_placeholder
    then ok grease
    else or_error (unknown_extension s) (ext_lookup id m)

extension_of_id-IsOk_iff :
    (ids : TlsIds) (l : Ja3Lists) (qs ps : List ℕ) (s : String) (id : ℕ)
    → IsOk (extension_of_id ids (ext_map ids l qs ps) s id)
      ↔ ((id ≡ ids.grease_placeholder) ⊎ Among id (known_ids ids l))
unfolding extension_of_id
extension_of_id-IsOk_iff ids l qs ps s id =
    let m = ext_map ids l qs ps in
    let known = ext_map-known_ids ids l qs ps in
    let found = ext_lookup-Among_iff id m in
    let read = or_error-IsOk_iff (unknown_extension s) (ext_lookup id m) in
    elim (Bool-cases (eqb id ids.grease_placeholder)) [
      | inl same ↦ (λ i. inl (eqb-true id ids.grease_placeholder same), λ k. (grease, rw same refl))
      | inr other ↦ rw other (
        λ i. inr (subst (Among id) known (found.0 (read.0 i))),
        λ k. elim k [
          | inl y ↦ absurd (eqb-false id ids.grease_placeholder other y)
          | inr b ↦ read.1 (found.1 (subst (Among id) (sym known) b))
        ],
      )
    ]

map_extension-IsOk_iff :
    (ids : TlsIds) (l : Ja3Lists) (qs ps : List ℕ) (s : String)
    → IsOk (map_extension ids (ext_map ids l qs ps) s) ↔ IsKnown ids l s
unfolding map_extension parse_number extension_of_id
map_extension-IsOk_iff ids l qs ps s =
    let bound = bind-IsOk_iff (parse_number 16 s) (extension_of_id ids (ext_map ids l qs ps) s) in
    let read = or_error-eq-ok_iff (invalid_number s) (parse_uint 10 16 s) in
    (
      λ i.
          let (id, e, j) = bound.0 i in
          (id, (read id).0 e, (extension_of_id-IsOk_iff ids l qs ps s id).0 j),
      λ (id, e, k). bound.1 (id, (read id).1 e, (extension_of_id-IsOk_iff ids l qs ps s id).1 k),
    )

numbers-IsOk_iff :
    (bits : ℕ) (xs : List String) → IsOk (map_all (parse_number bits) xs) ↔ All (IsNumber bits) xs
numbers-IsOk_iff bits =
    map_all-IsOk_iff (parse_number bits) (IsNumber bits) (parse_number-IsOk_iff bits)

IsKnown-IsOk_iff :
    (ids : TlsIds) (l : Ja3Lists) (qs ps : List ℕ) (xs : List String)
    → IsOk (map_all (map_extension ids (ext_map ids l qs ps)) xs) ↔ All (IsKnown ids l) xs
IsKnown-IsOk_iff ids l qs ps =
    map_all-IsOk_iff (map_extension ids (ext_map ids l qs ps)) (IsKnown ids l)
      (map_extension-IsOk_iff ids l qs ps)

spec_of_parts-IsOk_iff :
    (ids : TlsIds) (l : Ja3Lists) (version ciphers extensions curves points : String)
    (rest : List String)
    → IsOk (spec_of_parts ids l ciphers extensions curves points)
      ↔ Accepts ids l (version ∷ ciphers ∷ extensions ∷ curves ∷ points ∷ rest)
unfolding spec_of_parts
spec_of_parts-IsOk_iff ids l version ciphers extensions curves points rest = (
  λ i.
      let (qs, a, i1) = (bind-IsOk_iff _ _).0 i in
      let (ps, b, i2) = (bind-IsOk_iff _ _).0 i1 in
      let (es, c, i3) = (bind-IsOk_iff _ _).0 i2 in
      let (ss, d, _) = (bind-IsOk_iff _ _).0 i3 in
      (
        (numbers-IsOk_iff 16 _).0 (qs, a),
        (numbers-IsOk_iff 8 _).0 (ps, b),
        (IsKnown-IsOk_iff ids l qs ps _).0 (es, c),
        (numbers-IsOk_iff 16 _).0 (ss, d),
      ),
  λ (a, b, c, d).
      let (qs, e) = (numbers-IsOk_iff 16 _).1 a in
      let (ps, f) = (numbers-IsOk_iff 8 _).1 b in
      let (es, g) = (IsKnown-IsOk_iff ids l qs ps _).1 c in
      let (ss, k) = (numbers-IsOk_iff 16 _).1 d in
      (
        record {
          cipher_suites = ss;
          compression_methods = ids.compression_none ∷ [];
          extensions = es;
        },
        rw e (rw f (rw g (rw k refl))),
      ),
)

of_split-IsOk_iff :
    (ids : TlsIds) (l : Ja3Lists) (xs : List String) → IsOk (of_split ids l xs) ↔ Accepts ids l xs
unfolding of_split
of_split-IsOk_iff ids l (v ∷ a ∷ b ∷ c ∷ d ∷ r) = spec_of_parts-IsOk_iff ids l v a b c d r
of_split-IsOk_iff ids l [] = (λ (s, q). absurd (cc), λ f. elim f [ ])
of_split-IsOk_iff ids l (v ∷ []) = (λ (s, q). absurd (cc), λ f. elim f [ ])
of_split-IsOk_iff ids l (v ∷ a ∷ []) = (λ (s, q). absurd (cc), λ f. elim f [ ])
of_split-IsOk_iff ids l (v ∷ a ∷ b ∷ []) = (λ (s, q). absurd (cc), λ f. elim f [ ])
of_split-IsOk_iff ids l (v ∷ a ∷ b ∷ c ∷ []) = (λ (s, q). absurd (cc), λ f. elim f [ ])

-- `stringToSpec` panics exactly when the string has fewer than five parts between commas, and
-- returns a specification exactly when it has five, of which the ciphers, curves and point formats
-- are decimal numbers of 16, 16 and 8 bits and every extension is GREASE or one that can be built,
-- where only the parts of curves and point formats may be empty. Every other string is an error.
pub string_to_spec-IsOk_iff :
    (ids : TlsIds) (l : Ja3Lists) (ja3 : String)
    → ((string_to_spec ids l ja3 ≡ panic) ↔ (length (split b',' ja3) < 5))
      × (IsOk (string_to_spec ids l ja3) ↔ Accepts ids l (split b',' ja3))
unfolding string_to_spec
string_to_spec-IsOk_iff ids l ja3 =
    (string_to_spec-eq-panic_iff ids l ja3, of_split-IsOk_iff ids l (split b',' ja3))
