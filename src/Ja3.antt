-- ===== src/Ja3.antt =====
-- ja3.go: a ClientHello specification from a JA3 string and the lists that a JA3 string lacks. A
-- panic (an index out of range) is a result of its own.
pub mod Lists
pub mod Parts
pub mod Results
pub mod Accepts
pub mod RoundTrip
pub mod Sample
mod Tests
use httpkit.Prelude.{
  ℕ, String, List, [], ◌∷◌, Option, none, some, Assoc, lookup, eqb, ◌==◌, if◌then◌else◌,
}
use httpkit.Text.{split, parse_uint}
use httpkit.Tls.{
  TlsIds, TlsExtension, sni, status_request, sct, extended_master_secret, session_ticket,
  pre_shared_key, cookie, next_proto_neg, boring_padding, renegotiate_once_as_client, grease,
  generic, psk_key_exchange_modes, supported_curves, supported_points, key_share, grease_ech,
  supported_versions, signature_algorithms, delegated_credentials, alpn, application_settings,
  application_settings_new, record_size_limit, compress_certificate, KeyShare,
  HpkeSymmetricCipherSuite, ClientHelloSpec,
}
use httpkit.Mapper.{
  tls_versions, signature_algorithm_ids, delegated_credentials_algorithm_ids, kdf_ids, aead_ids,
  curve_ids, cert_compression_ids,
}

pub record CandidateCipherSuites : Type 0 where
  pub kdf_id : String
  pub aead_id : String

pub data Ja3Error : Type 0 where
  invalid_signature_algorithm invalid_delegated_algorithm : String → Ja3Error
  invalid_kdf_id invalid_aead_id : String → Ja3Error
  invalid_number unknown_extension : String → Ja3Error

pub data Result {ℓ} (A : Type ℓ) : Type ℓ where
  ok : A → Result A
  err : Ja3Error → Result A
  panic : Result A

infixl 5 ◌>>=◌
abbrev pub ◌>>=◌ {ℓ κ} : {A : Type ℓ} {B : Type κ} → Result A → (A → Result B) → Result B
ok a >>= f = f a
err e >>= f = err e
panic >>= f = panic

abbrev pub or_error {ℓ} : {A : Type ℓ} → Ja3Error → Option A → Result A
or_error e none = err e
or_error e (some a) = ok a

-- A loop that appends one result for each element, and returns at the first error.
unfoldable pub map_all {ℓ κ} : {A : Type ℓ} {B : Type κ} → (A → Result B) → List A → Result (List B)
map_all f [] = ok []
map_all f (x ∷ xs) = do y ← f x; ys ← map_all f xs; ok (y ∷ ys)

-- A loop that drops the names that the map does not have.
unfoldable pub map_known {ℓ} : {A : Type ℓ} → (String → Option A) → List String → List A
map_known f [] = []
map_known f (x ∷ xs) = let rest = map_known f xs in elim (f x) [ none ↦ rest | some y ↦ y ∷ rest ]

-- A name of the map, or four hexadecimal digits.
abbrev named_or_hex : Assoc ℕ → (String → Ja3Error) → String → Option ℕ → Result ℕ
named_or_hex table error name (some id) = ok id
named_or_hex table error name none = or_error (error name) (parse_uint 16 16 name)

unfoldable pub map_algorithm : Assoc ℕ → (String → Ja3Error) → String → Result ℕ
map_algorithm table error name = named_or_hex table error name (lookup name table)

abbrev hpke_hex : CandidateCipherSuites → Result HpkeSymmetricCipherSuite
hpke_hex c = do
  kdf ← or_error (invalid_kdf_id c.kdf_id) (parse_uint 16 16 c.kdf_id)
  aead ← or_error (invalid_aead_id c.aead_id) (parse_uint 16 16 c.aead_id)
  ok (record { kdf_id = kdf; aead_id = aead })

abbrev hpke_suite : CandidateCipherSuites → Option ℕ → Option ℕ → Result HpkeSymmetricCipherSuite
hpke_suite c (some kdf) (some aead) = ok (record { kdf_id = kdf; aead_id = aead })
hpke_suite c _ _ = hpke_hex c

-- Both names are known, or both are read as hexadecimal.
unfoldable pub map_hpke : TlsIds → CandidateCipherSuites → Result HpkeSymmetricCipherSuite
map_hpke ids c = hpke_suite c (lookup c.kdf_id (kdf_ids ids)) (lookup c.aead_id (aead_ids ids))

abbrev share_of : String → Option ℕ → Option KeyShare
share_of name none = none
share_of name (some group) =
    some (record { group = group; key_data = if name == "GREASE" then 0 ∷ [] else [] })

unfoldable pub map_key_share : TlsIds → String → Option KeyShare
map_key_share ids name = share_of name (lookup name (curve_ids ids))

-- map[uint16]tls.TLSExtension
abbrev pub ExtMap : Type 0
ExtMap = List (ℕ × TlsExtension)

-- The entry set last counts.
unfoldable pub ext_lookup : ℕ → ExtMap → Option TlsExtension
ext_lookup k [] = none
ext_lookup k ((j, e) ∷ m) = if eqb j k then some e else ext_lookup k m

unfoldable pub get_extension_base_map : TlsIds → ExtMap
get_extension_base_map ids =
    (ids.extension_server_name, sni)
    ∷ (ids.extension_status_request, status_request)
    ∷ (ids.extension_sct, sct)
    ∷ (ids.extension_padding, boring_padding)
    ∷ (ids.extension_extended_master_secret, extended_master_secret)
    ∷ (ids.extension_session_ticket, session_ticket)
    ∷ (ids.extension_pre_shared_key, pre_shared_key)
    ∷ (ids.extension_early_data, generic ids.extension_early_data)
    ∷ (ids.extension_cookie, cookie)
    ∷ (ids.extension_psk_modes, psk_key_exchange_modes (ids.psk_mode_dhe ∷ []))
    ∷ (ids.extension_next_proto_neg, next_proto_neg)
    ∷ (ids.extension_renegotiation_info, renegotiate_once_as_client)
    ∷ []

-- The lists that `stringToSpec` takes beside the string.
pub record Ja3Lists : Type 0 where
  pub signature_schemes : List ℕ
  pub delegated_schemes : List ℕ
  pub versions : List ℕ
  pub key_shares : List KeyShare
  pub hpke_suites : List HpkeSymmetricCipherSuite
  pub candidate_payloads : List ℕ
  pub protocols_alpn : List String
  pub protocols_alps : List String
  pub cert_compressions : List ℕ
  pub size_limit : ℕ

-- The entry for compressed certificates, if algorithms are given.
abbrev compress_entry : TlsIds → List ℕ → ExtMap → ExtMap
compress_entry ids [] m = m
compress_entry ids (a ∷ algorithms) m =
    (ids.extension_compress_certificate, compress_certificate (a ∷ algorithms)) ∷ m

-- The map once all entries are set, the last one first.
unfoldable pub ext_map : TlsIds → Ja3Lists → List ℕ → List ℕ → ExtMap
unfolding get_extension_base_map
ext_map ids l curves points =
    (ids.extension_record_size_limit, record_size_limit l.size_limit)
    ∷ (ids.extension_alps, application_settings_new l.protocols_alps)
    ∷ (ids.extension_alps_old, application_settings l.protocols_alps)
    ∷ (ids.extension_alpn, alpn l.protocols_alpn)
    ∷ (ids.extension_delegated_credentials, delegated_credentials l.delegated_schemes)
    ∷ (ids.extension_signature_algorithms, signature_algorithms l.signature_schemes)
    ∷ (ids.extension_supported_versions, supported_versions l.versions)
    ∷ (ids.extension_ech, grease_ech l.hpke_suites l.candidate_payloads)
    ∷ (ids.extension_supported_points, supported_points points)
    ∷ (ids.extension_key_share, key_share l.key_shares)
    ∷ compress_entry ids l.cert_compressions
        ((ids.extension_supported_curves, supported_curves curves) ∷ get_extension_base_map ids)

-- A part that is the empty text stands for no elements.
abbrev pub drop_empty : List String → List String
drop_empty [] = []
drop_empty (s ∷ t ∷ ts) = s ∷ t ∷ ts
drop_empty (s ∷ []) = if s == "" then [] else s ∷ []

unfoldable pub parse_number : ℕ → String → Result ℕ
parse_number bits s = or_error (invalid_number s) (parse_uint 10 bits s)

-- One round of the loop over the extensions.
unfoldable pub map_extension : TlsIds → ExtMap → String → Result TlsExtension
unfolding parse_number ext_lookup
map_extension ids m s = do
  id ← parse_number 16 s
  if eqb id ids.grease_placeholder
      then ok grease
      else or_error (unknown_extension s) (ext_lookup id m)

spec_of_parts : TlsIds → Ja3Lists → String → String → String → String → Result ClientHelloSpec
unfolding map_all map_extension ext_map split
spec_of_parts ids l ciphers extensions curves points = do
  target_curves ← map_all (parse_number 16) (drop_empty (split b'-' curves))
  target_points ← map_all (parse_number 8) (drop_empty (split b'-' points))
  exts ←
      map_all (map_extension ids (ext_map ids l target_curves target_points))
        (split b'-' extensions)
  suites ← map_all (parse_number 16) (split b'-' ciphers)
  ok (record {
    cipher_suites = suites;
    compression_methods = ids.compression_none ∷ [];
    extensions = exts;
  })

-- The version, which is not read, and four parts; fewer parts are an index out of range.
of_split : TlsIds → Ja3Lists → List String → Result ClientHelloSpec
unfolding spec_of_parts
of_split ids l (version ∷ ciphers ∷ extensions ∷ curves ∷ points ∷ _) =
    spec_of_parts ids l ciphers extensions curves points
of_split ids l _ = panic

unfoldable pub string_to_spec : TlsIds → Ja3Lists → String → Result ClientHelloSpec
unfolding of_split
string_to_spec ids l ja3 = of_split ids l (split b',' ja3)

-- The arguments of GetSpecFactoryFromJa3String beside the string.
pub record Ja3Names : Type 0 where
  pub supported_signature_algorithms : List String
  pub supported_delegated_credentials_algorithms : List String
  pub supported_versions : List String
  pub key_share_curves : List String
  pub supported_protocols_alpn : List String
  pub supported_protocols_alps : List String
  pub ech_candidate_cipher_suites : List CandidateCipherSuites
  pub candidate_payloads : List ℕ
  pub cert_compression_algorithms : List String
  pub record_size_limit : ℕ

-- The function that GetSpecFactoryFromJa3String returns, when it is called.
pub spec_from_ja3_string : TlsIds → Ja3Names → String → Result ClientHelloSpec
unfolding map_all map_algorithm map_hpke map_known map_key_share string_to_spec
spec_from_ja3_string ids n ja3 = do
  signatures ←
      map_all (map_algorithm (signature_algorithm_ids ids) invalid_signature_algorithm)
        n.supported_signature_algorithms
  delegated ←
      map_all (map_algorithm (delegated_credentials_algorithm_ids ids) invalid_delegated_algorithm)
        n.supported_delegated_credentials_algorithms
  hpke ← map_all (map_hpke ids) n.ech_candidate_cipher_suites
  string_to_spec ids
      (record {
        signature_schemes = signatures;
        delegated_schemes = delegated;
        versions = map_known (λ v. lookup v (tls_versions ids)) n.supported_versions;
        key_shares = map_known (map_key_share ids) n.key_share_curves;
        hpke_suites = hpke;
        candidate_payloads = n.candidate_payloads;
        protocols_alpn = n.supported_protocols_alpn;
        protocols_alps = n.supported_protocols_alps;
        cert_compressions =
            map_known (λ c. lookup c (cert_compression_ids ids)) n.cert_compression_algorithms;
        size_limit = n.record_size_limit;
      })
      ja3
