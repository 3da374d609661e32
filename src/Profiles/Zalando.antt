-- ===== src/Profiles/Zalando.antt =====
-- profiles/contributed_custom_profiles.go: the profiles of Zalando.
use httpkit.Prelude.{[], ◌∷◌, some, none, false}
use httpkit.Tls.{
  alpn, boring_padding, compress_certificate, extended_master_secret, grease, header_table_size,
  initial_window_size, key_share, max_concurrent_streams, max_frame_size, max_header_list_size,
  psk_key_exchange_modes, renegotiate_once_as_client, sct, session_ticket, signature_algorithms,
  sni, status_request, supported_curves, supported_points, supported_versions,
}
use httpkit.Profiles.{ClientProfile}
use httpkit.Profiles.Constants.{Constants}

module _ (c : Constants) where
  open c use {
    cert_compression_zlib, compression_none, curve_p256, curve_p384, curve_p521,
    ecdsa_with_p256_and_sha256, ecdsa_with_p384_and_sha384, ecdsa_with_sha1, grease_placeholder,
    pkcs1_with_sha1, pkcs1_with_sha256, pkcs1_with_sha384, pkcs1_with_sha512,
    point_format_uncompressed, psk_mode_dhe, pss_with_sha256, pss_with_sha384, pss_with_sha512,
    tls_aes_128_gcm_sha256, tls_aes_256_gcm_sha384, tls_chacha20_poly1305_sha256,
    tls_ecdhe_ecdsa_with_aes_128_cbc_sha, tls_ecdhe_ecdsa_with_aes_128_gcm_sha256,
    tls_ecdhe_ecdsa_with_aes_256_cbc_sha, tls_ecdhe_ecdsa_with_aes_256_gcm_sha384,
    tls_ecdhe_ecdsa_with_chacha20_poly1305, tls_ecdhe_ecdsa_with_chacha20_poly1305_sha256,
    tls_ecdhe_rsa_with_aes_128_cbc_sha, tls_ecdhe_rsa_with_aes_128_gcm_sha256,
    tls_ecdhe_rsa_with_aes_256_cbc_sha, tls_ecdhe_rsa_with_aes_256_gcm_sha384,
    tls_ecdhe_rsa_with_chacha20_poly1305, tls_ecdhe_rsa_with_chacha20_poly1305_sha256,
    tls_rsa_with_aes_128_cbc_sha, tls_rsa_with_aes_128_gcm_sha256, tls_rsa_with_aes_256_cbc_sha,
    tls_rsa_with_aes_256_gcm_sha384, version_tls12, version_tls13, x25519,
  }

  unfoldable pub zalando_android_mobile : ClientProfile
  zalando_android_mobile = record {
    client_hello_id = record {
      client = "ZalandoAndroidCustom";
      version = "1";
      random_extension_order = false;
      spec_factory = some (record {
        cipher_suites =
            tls_aes_128_gcm_sha256 ∷ tls_aes_256_gcm_sha384 ∷ tls_chacha20_poly1305_sha256
            ∷ tls_ecdhe_ecdsa_with_aes_128_gcm_sha256 ∷ tls_ecdhe_ecdsa_with_aes_256_gcm_sha384
            ∷ tls_ecdhe_ecdsa_with_chacha20_poly1305 ∷ tls_ecdhe_rsa_with_aes_128_gcm_sha256
            ∷ tls_ecdhe_rsa_with_aes_256_gcm_sha384 ∷ tls_ecdhe_rsa_with_chacha20_poly1305
            ∷ tls_ecdhe_rsa_with_aes_128_cbc_sha ∷ tls_ecdhe_rsa_with_aes_256_cbc_sha
            ∷ tls_rsa_with_aes_128_gcm_sha256 ∷ tls_rsa_with_aes_256_gcm_sha384
            ∷ tls_rsa_with_aes_128_cbc_sha ∷ tls_rsa_with_aes_256_cbc_sha ∷ [];
        compression_methods = compression_none ∷ [];
        extensions =
            sni
            ∷ extended_master_secret
            ∷ renegotiate_once_as_client
            ∷ supported_curves (x25519 ∷ curve_p256 ∷ curve_p384 ∷ [])
            ∷ supported_points (point_format_uncompressed ∷ [])
            ∷ session_ticket
            ∷ alpn ("h2" ∷ "http/1.1" ∷ [])
            ∷ status_request
            ∷ signature_algorithms (
                ecdsa_with_p256_and_sha256 ∷ pss_with_sha256 ∷ pkcs1_with_sha256
                ∷ ecdsa_with_p384_and_sha384 ∷ pss_with_sha384 ∷ pkcs1_with_sha384 ∷ pss_with_sha512
                ∷ pkcs1_with_sha512 ∷ pkcs1_with_sha1 ∷ [])
            ∷ sct
            ∷ key_share ((record { group = x25519; key_data = [] }) ∷ [])
            ∷ psk_key_exchange_modes (psk_mode_dhe ∷ [])
            ∷ supported_versions (version_tls13 ∷ version_tls12 ∷ [])
            ∷ boring_padding
            ∷ [];
      });
    };
    header_priority = none;
    settings = some (
        (header_table_size, 4096)
        ∷ (max_concurrent_streams, 4294967295)
        ∷ (initial_window_size, 16777216)
        ∷ (max_frame_size, 16384)
        ∷ (max_header_list_size, 4294967295)
        ∷ []);
    priorities = [];
    pseudo_header_order = some (":method" ∷ ":path" ∷ ":authority" ∷ ":scheme" ∷ []);
    settings_order =
        header_table_size ∷ max_concurrent_streams ∷ initial_window_size ∷ max_frame_size
        ∷ max_header_list_size ∷ [];
    connection_flow = 15663105;
  }

  unfoldable pub zalando_ios_mobile : ClientProfile
  zalando_ios_mobile = record {
    client_hello_id = record {
      client = "ZalandoIosCustom";
      version = "1";
      random_extension_order = false;
      spec_factory = some (record {
        cipher_suites =
            grease_placeholder ∷ tls_aes_128_gcm_sha256 ∷ tls_aes_256_gcm_sha384
            ∷ tls_chacha20_poly1305_sha256 ∷ tls_ecdhe_ecdsa_with_aes_256_gcm_sha384
            ∷ tls_ecdhe_ecdsa_with_aes_128_gcm_sha256
            ∷ tls_ecdhe_ecdsa_with_chacha20_poly1305_sha256 ∷ tls_ecdhe_rsa_with_aes_256_gcm_sha384
            ∷ tls_ecdhe_rsa_with_aes_128_gcm_sha256 ∷ tls_ecdhe_rsa_with_chacha20_poly1305_sha256
            ∷ tls_ecdhe_ecdsa_with_aes_256_cbc_sha ∷ tls_ecdhe_ecdsa_with_aes_128_cbc_sha
            ∷ tls_ecdhe_rsa_with_aes_256_cbc_sha ∷ tls_ecdhe_rsa_with_aes_128_cbc_sha ∷ [];
        compression_methods = compression_none ∷ [];
        extensions =
            grease
            ∷ sni
            ∷ extended_master_secret
            ∷ renegotiate_once_as_client
            ∷ supported_curves
                (grease_placeholder ∷ x25519 ∷ curve_p256 ∷ curve_p384 ∷ curve_p521 ∷ [])
            ∷ supported_points (point_format_uncompressed ∷ [])
            ∷ alpn ("h2" ∷ "http/1.1" ∷ [])
            ∷ status_request
            ∷ signature_algorithms (
                ecdsa_with_p256_and_sha256 ∷ pss_with_sha256 ∷ pkcs1_with_sha256
                ∷ ecdsa_with_p384_and_sha384 ∷ ecdsa_with_sha1 ∷ pss_with_sha384 ∷ pss_with_sha384
                ∷ pkcs1_with_sha384 ∷ pss_with_sha512 ∷ pkcs1_with_sha512 ∷ pkcs1_with_sha1 ∷ [])
            ∷ sct
            ∷ key_share (
                (record { group = grease_placeholder; key_data = 0 ∷ [] })
                ∷ (record { group = x25519; key_data = [] })
                ∷ [])
            ∷ psk_key_exchange_modes (psk_mode_dhe ∷ [])
            ∷ supported_versions (grease_placeholder ∷ version_tls13 ∷ version_tls12 ∷ [])
            ∷ compress_certificate (cert_compression_zlib ∷ [])
            ∷ grease
            ∷ boring_padding
            ∷ [];
      });
    };
    header_priority = none;
    settings = some (
        (header_table_size, 4096)
        ∷ (max_concurrent_streams, 100)
        ∷ (initial_window_size, 2097152)
        ∷ (max_frame_size, 16384)
        ∷ (max_header_list_size, 4294967295)
        ∷ []);
    priorities = [];
    pseudo_header_order = some (":method" ∷ ":path" ∷ ":authority" ∷ ":scheme" ∷ []);
    settings_order =
        header_table_size ∷ max_concurrent_streams ∷ initial_window_size ∷ max_frame_size
        ∷ max_header_list_size ∷ [];
    connection_flow = 15663105;
  }
