-- ===== src/Ja3/Sample.antt =====
-- Registered numbers, for tests: those of the IANA registries and of browsers' drafts.
use httpkit.Tls.{TlsIds}

abbrev pub registered : TlsIds
registered = record {
  grease_placeholder = 2570;
  compression_none = 0;
  psk_mode_dhe = 1;
  version_tls13 = 772;
  version_tls12 = 771;
  version_tls11 = 770;
  version_tls10 = 769;
  pkcs1_with_sha256 = 1025;
  pkcs1_with_sha384 = 1281;
  pkcs1_with_sha512 = 1537;
  pss_with_sha256 = 2052;
  pss_with_sha384 = 2053;
  pss_with_sha512 = 2054;
  ecdsa_with_p256_and_sha256 = 1027;
  ecdsa_with_p384_and_sha384 = 1283;
  ecdsa_with_p521_and_sha512 = 1539;
  pkcs1_with_sha1 = 513;
  ecdsa_with_sha1 = 515;
  ed25519 = 2055;
  sha224_rsa = 769;
  sha224_ecdsa = 771;
  hkdf_sha256 = 1;
  hkdf_sha384 = 2;
  hkdf_sha512 = 3;
  aead_aes_128_gcm = 1;
  aead_aes_256_gcm = 2;
  aead_chacha20_poly1305 = 3;
  curve_p256 = 23;
  curve_p384 = 24;
  curve_p521 = 25;
  x25519 = 29;
  p256_kyber768_draft00 = 65074;
  x25519_kyber512_draft00 = 65072;
  x25519_kyber768_draft00 = 25497;
  x25519_kyber768_draft00_old = 65073;
  x25519_mlkem768 = 4588;
  cert_compression_zlib = 1;
  cert_compression_brotli = 2;
  cert_compression_zstd = 3;
  extension_server_name = 0;
  extension_status_request = 5;
  extension_supported_curves = 10;
  extension_supported_points = 11;
  extension_signature_algorithms = 13;
  extension_alpn = 16;
  extension_sct = 18;
  extension_padding = 21;
  extension_extended_master_secret = 23;
  extension_compress_certificate = 27;
  extension_record_size_limit = 28;
  extension_delegated_credentials = 34;
  extension_session_ticket = 35;
  extension_pre_shared_key = 41;
  extension_early_data = 42;
  extension_supported_versions = 43;
  extension_cookie = 44;
  extension_psk_modes = 45;
  extension_key_share = 51;
  extension_next_proto_neg = 13172;
  extension_alps_old = 17513;
  extension_alps = 17613;
  extension_ech = 65037;
  extension_renegotiation_info = 65281;
}
