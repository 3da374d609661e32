-- ===== src/Mapper.antt =====
-- mapper.go: the names that stand for protocol numbers, for given numbers.
use httpkit.Prelude.{ℕ, [], ◌∷◌, Assoc}
use httpkit.Tls.{
  TlsIds, SettingId, header_table_size, enable_push, max_concurrent_streams, initial_window_size,
  max_frame_size, max_header_list_size, other,
}

unfoldable pub h2_settings_map : Assoc SettingId
h2_settings_map =
    ("HEADER_TABLE_SIZE", header_table_size)
    ∷ ("ENABLE_PUSH", enable_push)
    ∷ ("MAX_CONCURRENT_STREAMS", max_concurrent_streams)
    ∷ ("INITIAL_WINDOW_SIZE", initial_window_size)
    ∷ ("MAX_FRAME_SIZE", max_frame_size)
    ∷ ("MAX_HEADER_LIST_SIZE", max_header_list_size)
    ∷ ("UNKNOWN_SETTING_7", other 7)
    ∷ ("UNKNOWN_SETTING_8", other 8)
    ∷ ("UNKNOWN_SETTING_9", other 9)
    ∷ []

module _ (ids : TlsIds) where
  unfoldable pub tls_versions : Assoc ℕ
  tls_versions =
      ("GREASE", ids.grease_placeholder)
      ∷ ("1.3", ids.version_tls13)
      ∷ ("1.2", ids.version_tls12)
      ∷ ("1.1", ids.version_tls11)
      ∷ ("1.0", ids.version_tls10)
      ∷ []

  unfoldable pub signature_algorithm_ids : Assoc ℕ
  signature_algorithm_ids =
      ("PKCS1WithSHA256", ids.pkcs1_with_sha256)
      ∷ ("PKCS1WithSHA384", ids.pkcs1_with_sha384)
      ∷ ("PKCS1WithSHA512", ids.pkcs1_with_sha512)
      ∷ ("PSSWithSHA256", ids.pss_with_sha256)
      ∷ ("PSSWithSHA384", ids.pss_with_sha384)
      ∷ ("PSSWithSHA512", ids.pss_with_sha512)
      ∷ ("ECDSAWithP256AndSHA256", ids.ecdsa_with_p256_and_sha256)
      ∷ ("ECDSAWithP384AndSHA384", ids.ecdsa_with_p384_and_sha384)
      ∷ ("ECDSAWithP521AndSHA512", ids.ecdsa_with_p521_and_sha512)
      ∷ ("PKCS1WithSHA1", ids.pkcs1_with_sha1)
      ∷ ("ECDSAWithSHA1", ids.ecdsa_with_sha1)
      ∷ ("Ed25519", ids.ed25519)
      ∷ ("SHA224_RSA", ids.sha224_rsa)
      ∷ ("SHA224_ECDSA", ids.sha224_ecdsa)
      ∷ []

  unfoldable pub delegated_credentials_algorithm_ids : Assoc ℕ
  delegated_credentials_algorithm_ids =
      ("PKCS1WithSHA256", ids.pkcs1_with_sha256)
      ∷ ("PKCS1WithSHA384", ids.pkcs1_with_sha384)
      ∷ ("PKCS1WithSHA512", ids.pkcs1_with_sha512)
      ∷ ("PSSWithSHA256", ids.pss_with_sha256)
      ∷ ("PSSWithSHA384", ids.pss_with_sha384)
      ∷ ("PSSWithSHA512", ids.pss_with_sha512)
      ∷ ("ECDSAWithP256AndSHA256", ids.ecdsa_with_p256_and_sha256)
      ∷ ("ECDSAWithP384AndSHA384", ids.ecdsa_with_p384_and_sha384)
      ∷ ("ECDSAWithP521AndSHA512", ids.ecdsa_with_p521_and_sha512)
      ∷ ("PKCS1WithSHA1", ids.pkcs1_with_sha1)
      ∷ ("ECDSAWithSHA1", ids.ecdsa_with_sha1)
      ∷ ("Ed25519", ids.ed25519)
      ∷ ("SHA224_RSA", ids.sha224_rsa)
      ∷ ("SHA224_ECDSA", ids.sha224_ecdsa)
      ∷ []

  unfoldable pub kdf_ids : Assoc ℕ
  kdf_ids =
      ("HKDF_SHA256", ids.hkdf_sha256)
      ∷ ("HKDF_SHA384", ids.hkdf_sha384)
      ∷ ("HKDF_SHA512", ids.hkdf_sha512)
      ∷ []

  unfoldable pub aead_ids : Assoc ℕ
  aead_ids =
      ("AEAD_AES_128_GCM", ids.aead_aes_128_gcm)
      ∷ ("AEAD_AES_256_GCM", ids.aead_aes_256_gcm)
      ∷ ("AEAD_CHACHA20_POLY1305", ids.aead_chacha20_poly1305)
      ∷ []

  unfoldable pub curve_ids : Assoc ℕ
  curve_ids =
      ("GREASE", ids.grease_placeholder)
      ∷ ("P256", ids.curve_p256)
      ∷ ("P384", ids.curve_p384)
      ∷ ("P521", ids.curve_p521)
      ∷ ("X25519", ids.x25519)
      ∷ ("P256Kyber768", ids.p256_kyber768_draft00)
      ∷ ("X25519Kyber512D", ids.x25519_kyber512_draft00)
      ∷ ("X25519Kyber768", ids.x25519_kyber768_draft00)
      ∷ ("X25519Kyber768Old", ids.x25519_kyber768_draft00_old)
      ∷ ("X25519MLKEM768", ids.x25519_mlkem768)
      ∷ []

  unfoldable pub cert_compression_ids : Assoc ℕ
  cert_compression_ids =
      ("zlib", ids.cert_compression_zlib)
      ∷ ("brotli", ids.cert_compression_brotli)
      ∷ ("zstd", ids.cert_compression_zstd)
      ∷ []
