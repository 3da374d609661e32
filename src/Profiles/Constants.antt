-- ===== src/Profiles/Constants.antt =====
-- The constants and the presets of utls that the profiles name; they are not in the repository.
use httpkit.Prelude.{ℕ, ◌≡◌, none}
use httpkit.Tls.{TlsIds, ClientHelloId}

pub record Constants : Type 0 where
  pub tls_ids : TlsIds
  pub open tls_ids use *
  pub disabled_tls_ecdhe_ecdsa_with_aes_256_cbc_sha384 : ℕ
  pub disabled_tls_ecdhe_rsa_with_aes_256_cbc_sha384 : ℕ
  pub fake_ffdhe2048 : ℕ
  pub fake_ffdhe3072 : ℕ
  pub fake_tls_empty_renegotiation_info_scsv : ℕ
  pub point_format_uncompressed : ℕ
  pub tls_aes_128_gcm_sha256 : ℕ
  pub tls_aes_256_gcm_sha384 : ℕ
  pub tls_chacha20_poly1305_sha256 : ℕ
  pub tls_ecdhe_ecdsa_with_3des_ede_cbc_sha : ℕ
  pub tls_ecdhe_ecdsa_with_aes_128_cbc_sha : ℕ
  pub tls_ecdhe_ecdsa_with_aes_128_cbc_sha256 : ℕ
  pub tls_ecdhe_ecdsa_with_aes_128_gcm_sha256 : ℕ
  pub tls_ecdhe_ecdsa_with_aes_256_cbc_sha : ℕ
  pub tls_ecdhe_ecdsa_with_aes_256_gcm_sha384 : ℕ
  pub tls_ecdhe_ecdsa_with_chacha20_poly1305 : ℕ
  pub tls_ecdhe_ecdsa_with_chacha20_poly1305_sha256 : ℕ
  pub tls_ecdhe_rsa_with_3des_ede_cbc_sha : ℕ
  pub tls_ecdhe_rsa_with_aes_128_cbc_sha : ℕ
  pub tls_ecdhe_rsa_with_aes_128_cbc_sha256 : ℕ
  pub tls_ecdhe_rsa_with_aes_128_gcm_sha256 : ℕ
  pub tls_ecdhe_rsa_with_aes_256_cbc_sha : ℕ
  pub tls_ecdhe_rsa_with_aes_256_gcm_sha384 : ℕ
  pub tls_ecdhe_rsa_with_chacha20_poly1305 : ℕ
  pub tls_ecdhe_rsa_with_chacha20_poly1305_sha256 : ℕ
  pub tls_rsa_with_3des_ede_cbc_sha : ℕ
  pub tls_rsa_with_aes_128_cbc_sha : ℕ
  pub tls_rsa_with_aes_128_gcm_sha256 : ℕ
  pub tls_rsa_with_aes_256_cbc_sha : ℕ
  pub tls_rsa_with_aes_256_gcm_sha384 : ℕ
  pub hello_chrome_103 : ClientHelloId
  pub hello_chrome_104 : ClientHelloId
  pub hello_chrome_105 : ClientHelloId
  pub hello_chrome_106 : ClientHelloId
  pub hello_chrome_107 : ClientHelloId
  pub hello_chrome_108 : ClientHelloId
  pub hello_chrome_109 : ClientHelloId
  pub hello_chrome_110 : ClientHelloId
  pub hello_chrome_111 : ClientHelloId
  pub hello_chrome_112 : ClientHelloId
  pub hello_chrome_112_psk : ClientHelloId
  pub hello_chrome_115_pq_psk : ClientHelloId
  pub hello_firefox_102 : ClientHelloId
  pub hello_firefox_104 : ClientHelloId
  pub hello_firefox_105 : ClientHelloId
  pub hello_firefox_106 : ClientHelloId
  pub hello_firefox_108 : ClientHelloId
  pub hello_firefox_110 : ClientHelloId
  pub hello_ios_15_5 : ClientHelloId
  pub hello_ios_15_6 : ClientHelloId
  pub hello_ios_16_0 : ClientHelloId
  pub hello_ipad_15_6 : ClientHelloId
  pub hello_opera_89 : ClientHelloId
  pub hello_opera_90 : ClientHelloId
  pub hello_opera_91 : ClientHelloId
  pub hello_safari_15_6_1 : ClientHelloId
  pub hello_safari_16_0 : ClientHelloId

-- The presets of utls hold no factory: UTLSIdToSpec knows what they send.
pub record HasNoFactories (c : Constants) : Type 0 where
  pub hello_chrome_103 : c.hello_chrome_103.spec_factory ≡ none
  pub hello_chrome_104 : c.hello_chrome_104.spec_factory ≡ none
  pub hello_chrome_105 : c.hello_chrome_105.spec_factory ≡ none
  pub hello_chrome_106 : c.hello_chrome_106.spec_factory ≡ none
  pub hello_chrome_107 : c.hello_chrome_107.spec_factory ≡ none
  pub hello_chrome_108 : c.hello_chrome_108.spec_factory ≡ none
  pub hello_chrome_109 : c.hello_chrome_109.spec_factory ≡ none
  pub hello_chrome_110 : c.hello_chrome_110.spec_factory ≡ none
  pub hello_chrome_111 : c.hello_chrome_111.spec_factory ≡ none
  pub hello_chrome_112 : c.hello_chrome_112.spec_factory ≡ none
  pub hello_chrome_112_psk : c.hello_chrome_112_psk.spec_factory ≡ none
  pub hello_chrome_115_pq_psk : c.hello_chrome_115_pq_psk.spec_factory ≡ none
  pub hello_firefox_102 : c.hello_firefox_102.spec_factory ≡ none
  pub hello_firefox_104 : c.hello_firefox_104.spec_factory ≡ none
  pub hello_firefox_105 : c.hello_firefox_105.spec_factory ≡ none
  pub hello_firefox_106 : c.hello_firefox_106.spec_factory ≡ none
  pub hello_firefox_108 : c.hello_firefox_108.spec_factory ≡ none
  pub hello_firefox_110 : c.hello_firefox_110.spec_factory ≡ none
  pub hello_ios_15_5 : c.hello_ios_15_5.spec_factory ≡ none
  pub hello_ios_15_6 : c.hello_ios_15_6.spec_factory ≡ none
  pub hello_ios_16_0 : c.hello_ios_16_0.spec_factory ≡ none
  pub hello_ipad_15_6 : c.hello_ipad_15_6.spec_factory ≡ none
  pub hello_opera_89 : c.hello_opera_89.spec_factory ≡ none
  pub hello_opera_90 : c.hello_opera_90.spec_factory ≡ none
  pub hello_opera_91 : c.hello_opera_91.spec_factory ≡ none
  pub hello_safari_15_6_1 : c.hello_safari_15_6_1.spec_factory ≡ none
  pub hello_safari_16_0 : c.hello_safari_16_0.spec_factory ≡ none
