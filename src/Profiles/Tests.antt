-- ===== src/Profiles/Tests.antt =====
-- profiles/ at the registered numbers: the theorems' instances.
use httpkit.Prelude.{◌≡◌, refl, String, [], lookup, none, some, true, false}
use httpkit.Tls.{ClientHelloId, ClientHelloSpec}
use httpkit.Ja3.Sample.{registered}
use httpkit.Pinner.Sample.{mem_storage}
use httpkit.Transport.{Http2Transport, build_http2_transport}
use httpkit.TlsDial.{nope}
use httpkit.RoundTripper.{new_round_tripper}
use httpkit.Profiles.{ClientProfile}
use httpkit.Profiles.Constants.{Constants, HasNoFactories}
use httpkit.Profiles.ChromeLatest.{chrome_133}
use httpkit.Profiles.Table.{mapped_tls_clients}
use httpkit.Profiles.Hello.{IsValid}
use httpkit.Profiles.WellFormed.{mapped_tls_clients-IsValid}
use httpkit.Profiles.Announced.{Announces, build_http2_transport-Announces}

abbrev preset : String → String → ClientHelloId
preset client version = record {
  client = client;
  version = version;
  random_extension_order = false;
  spec_factory = none;
}

abbrev numbers : Constants
numbers = record {
  tls_ids = registered;
  disabled_tls_ecdhe_ecdsa_with_aes_256_cbc_sha384 = 49188;
  disabled_tls_ecdhe_rsa_with_aes_256_cbc_sha384 = 49192;
  fake_ffdhe2048 = 256;
  fake_ffdhe3072 = 257;
  fake_tls_empty_renegotiation_info_scsv = 255;
  point_format_uncompressed = 0;
  tls_aes_128_gcm_sha256 = 4865;
  tls_aes_256_gcm_sha384 = 4866;
  tls_chacha20_poly1305_sha256 = 4867;
  tls_ecdhe_ecdsa_with_3des_ede_cbc_sha = 49160;
  tls_ecdhe_ecdsa_with_aes_128_cbc_sha = 49161;
  tls_ecdhe_ecdsa_with_aes_128_cbc_sha256 = 49187;
  tls_ecdhe_ecdsa_with_aes_128_gcm_sha256 = 49195;
  tls_ecdhe_ecdsa_with_aes_256_cbc_sha = 49162;
  tls_ecdhe_ecdsa_with_aes_256_gcm_sha384 = 49196;
  tls_ecdhe_ecdsa_with_chacha20_poly1305 = 52393;
  tls_ecdhe_ecdsa_with_chacha20_poly1305_sha256 = 52393;
  tls_ecdhe_rsa_with_3des_ede_cbc_sha = 49170;
  tls_ecdhe_rsa_with_aes_128_cbc_sha = 49171;
  tls_ecdhe_rsa_with_aes_128_cbc_sha256 = 49191;
  tls_ecdhe_rsa_with_aes_128_gcm_sha256 = 49199;
  tls_ecdhe_rsa_with_aes_256_cbc_sha = 49172;
  tls_ecdhe_rsa_with_aes_256_gcm_sha384 = 49200;
  tls_ecdhe_rsa_with_chacha20_poly1305 = 52392;
  tls_ecdhe_rsa_with_chacha20_poly1305_sha256 = 52392;
  tls_rsa_with_3des_ede_cbc_sha = 10;
  tls_rsa_with_aes_128_cbc_sha = 47;
  tls_rsa_with_aes_128_gcm_sha256 = 156;
  tls_rsa_with_aes_256_cbc_sha = 53;
  tls_rsa_with_aes_256_gcm_sha384 = 157;
  hello_chrome_103 = preset "chrome" "103";
  hello_chrome_104 = preset "chrome" "104";
  hello_chrome_105 = preset "chrome" "105";
  hello_chrome_106 = preset "chrome" "106";
  hello_chrome_107 = preset "chrome" "107";
  hello_chrome_108 = preset "chrome" "108";
  hello_chrome_109 = preset "chrome" "109";
  hello_chrome_110 = preset "chrome" "110";
  hello_chrome_111 = preset "chrome" "111";
  hello_chrome_112 = preset "chrome" "112";
  hello_chrome_112_psk = preset "chrome" "112_psk";
  hello_chrome_115_pq_psk = preset "chrome" "115_pq_psk";
  hello_firefox_102 = preset "firefox" "102";
  hello_firefox_104 = preset "firefox" "104";
  hello_firefox_105 = preset "firefox" "105";
  hello_firefox_106 = preset "firefox" "106";
  hello_firefox_108 = preset "firefox" "108";
  hello_firefox_110 = preset "firefox" "110";
  hello_ios_15_5 = preset "ios" "15_5";
  hello_ios_15_6 = preset "ios" "15_6";
  hello_ios_16_0 = preset "ios" "16_0";
  hello_ipad_15_6 = preset "ipad" "15_6";
  hello_opera_89 = preset "opera" "89";
  hello_opera_90 = preset "opera" "90";
  hello_opera_91 = preset "opera" "91";
  hello_safari_15_6_1 = preset "safari" "15_6_1";
  hello_safari_16_0 = preset "safari" "16_0";
}

numbers-HasNoFactories : HasNoFactories numbers
numbers-HasNoFactories = record {
  hello_chrome_103 = refl;
  hello_chrome_104 = refl;
  hello_chrome_105 = refl;
  hello_chrome_106 = refl;
  hello_chrome_107 = refl;
  hello_chrome_108 = refl;
  hello_chrome_109 = refl;
  hello_chrome_110 = refl;
  hello_chrome_111 = refl;
  hello_chrome_112 = refl;
  hello_chrome_112_psk = refl;
  hello_chrome_115_pq_psk = refl;
  hello_firefox_102 = refl;
  hello_firefox_104 = refl;
  hello_firefox_105 = refl;
  hello_firefox_106 = refl;
  hello_firefox_108 = refl;
  hello_firefox_110 = refl;
  hello_ios_15_5 = refl;
  hello_ios_15_6 = refl;
  hello_ios_16_0 = refl;
  hello_ipad_15_6 = refl;
  hello_opera_89 = refl;
  hello_opera_90 = refl;
  hello_opera_91 = refl;
  hello_safari_15_6_1 = refl;
  hello_safari_16_0 = refl;
}

abbrev chrome : ClientProfile
unfolding chrome_133
chrome = chrome_133 numbers

chrome_in_table : lookup "chrome_133" (mapped_tls_clients numbers) ≡ some chrome
unfolding lookup mapped_tls_clients chrome_133
chrome_in_table = refl

abbrev chrome_spec : ClientHelloSpec
chrome_spec = elim chrome.client_hello_id.spec_factory [
  | some spec ↦ spec
  | none ↦ record { cipher_suites = []; compression_methods = []; extensions = [] }
]

mapped_tls_clients-IsValid_example : IsValid "chrome_133" chrome_spec
unfolding chrome
mapped_tls_clients-IsValid_example =
    mapped_tls_clients-IsValid numbers "chrome_133" chrome chrome_spec numbers-HasNoFactories refl
      chrome_in_table refl

abbrev sent : Http2Transport
sent =
    build_http2_transport (λ keys. keys) none
      (new_round_tripper (λ _. none) (λ id. id.spec_factory) mem_storage [] 7 chrome none "" false
        true false [] false false false nope).1.config

build_http2_transport-Announces_example :
    Announces sent.settings sent.settings_order sent.pseudo_header_order
build_http2_transport-Announces_example =
    build_http2_transport-Announces (λ _. none) (λ id. id.spec_factory) mem_storage [] 7 none ""
      false true false [] false false false nope numbers "chrome_133" chrome (λ keys. keys) none
      chrome_in_table
