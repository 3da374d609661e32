-- ===== src/Ja3/Tests.antt =====
-- ja3.go at concrete strings: the theorems' instances, and runs.
use httpkit.Prelude.{
  ℕ, ◌≡◌, ◌↔◌, ◌<◌, refl, String, [], ◌∷◌, map, none, some, length, arith, lookup, true, is_some,
}
use httpkit.Text.{split, parse_uint}
use httpkit.Tls.{sni, supported_curves, grease}
use httpkit.Mapper.{kdf_ids, aead_ids, signature_algorithm_ids}
use httpkit.Ja3.{
  Result, ok, err, panic, unknown_extension, invalid_signature_algorithm, Ja3Lists,
  CandidateCipherSuites, map_algorithm, ext_map, ext_lookup, string_to_spec,
}
use httpkit.Ja3.Sample.{registered}
use httpkit.Ja3.Results.{IsOk}
use httpkit.Ja3.Accepts.{Accepts, string_to_spec-IsOk_iff}
use httpkit.Ja3.RoundTrip.{render, extension_of, string_to_spec-render}

abbrev lists : Ja3Lists
lists = record {
  signature_schemes = 0x403 ∷ [];
  delegated_schemes = [];
  versions = 0x304 ∷ [];
  key_shares = [];
  hpke_suites = [];
  candidate_payloads = [];
  protocols_alpn = "h2" ∷ [];
  protocols_alps = "h2" ∷ [];
  cert_compressions = [];
  size_limit = 0;
}

read_back :
    string_to_spec registered lists "771,4865-4866,2570-0-10,29-23,0"
    ≡ ok (record {
      cipher_suites = 4865 ∷ 4866 ∷ [];
      compression_methods = 0 ∷ [];
      extensions = grease ∷ sni ∷ supported_curves (29 ∷ 23 ∷ []) ∷ [];
    })
unfolding string_to_spec parse_uint
read_back = refl

-- Without algorithms for it, the extension for compressed certificates is unknown.
no_compression : string_to_spec registered lists "771,4865,27,29,0" ≡ err (unknown_extension "27")
unfolding string_to_spec parse_uint
no_compression = refl

short : string_to_spec registered lists "771,4865" ≡ panic
unfolding string_to_spec parse_uint
short = refl

string_to_spec-IsOk_iff_example :
    let ja3 : String = "771,4865-4866,2570-0-10,29-23,0" in
    ((string_to_spec registered lists ja3 ≡ panic) ↔ (length (split b',' ja3) < 5))
    × (IsOk (string_to_spec registered lists ja3) ↔ Accepts registered lists (split b',' ja3))
string_to_spec-IsOk_iff_example =
    string_to_spec-IsOk_iff registered lists "771,4865-4866,2570-0-10,29-23,0"

known_extensions :
    map (extension_of registered (ext_map registered lists (29 ∷ []) (0 ∷ []))) (0 ∷ 10 ∷ [])
    ≡ map some (sni ∷ supported_curves (29 ∷ []) ∷ [])
unfolding extension_of ext_map ext_lookup
known_extensions = refl

string_to_spec-render_example :
    string_to_spec registered lists (render 771 (4865 ∷ []) (0 ∷ 10 ∷ []) (29 ∷ []) (0 ∷ []))
    ≡ ok (record {
      cipher_suites = 4865 ∷ [];
      compression_methods = 0 ∷ [];
      extensions = sni ∷ supported_curves (29 ∷ []) ∷ [];
    })
string_to_spec-render_example =
    string_to_spec-render registered lists 771 4865 0 [] (10 ∷ []) (29 ∷ []) (0 ∷ [])
      (sni ∷ supported_curves (29 ∷ []) ∷ []) (omega arith) (omega arith) (omega arith)
      (omega arith) known_extensions

abbrev algorithm : String → Result ℕ
algorithm = map_algorithm (signature_algorithm_ids registered) invalid_signature_algorithm

abbrev mixed : CandidateCipherSuites
mixed = record { kdf_id = "HKDF_SHA256"; aead_id = "0001" }

kdf_known : is_some (lookup mixed.kdf_id (kdf_ids registered)) ≡ true
unfolding lookup kdf_ids
kdf_known = refl

aead_unknown : lookup mixed.aead_id (aead_ids registered) ≡ none
unfolding lookup aead_ids
aead_unknown = refl
