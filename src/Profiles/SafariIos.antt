-- ===== src/Profiles/SafariIos.antt =====
-- profiles/internal_browser_profiles.go: the profiles of Safari on iOS 17 and 18.
use httpkit.Prelude.{[], ◌∷◌, some, none, false}
use httpkit.Tls.{
  alpn, boring_padding, compress_certificate, enable_push, extended_master_secret, grease,
  initial_window_size, key_share, max_concurrent_streams, no_rfc7540_priorities, other,
  psk_key_exchange_modes, renegotiate_once_as_client, sct, signature_algorithms, sni,
  status_request, supported_curves, supported_points, supported_versions,
}
use httpkit.Profiles.{ClientProfile}
use httpkit.Profiles.Constants.{Constants}

module _ (c : Constants) where
  open c use {
    cert_compression_zlib, compression_none, curve_p256, curve_p384, curve_p521,
    ecdsa_with_p256_and_sha256, ecdsa_with_p384_and_sha384, ecdsa_with_sha1, grease_placeholder,
    pkcs1_with_sha1, pkcs1_with_sha256, pkcs1_with_sha384, pkcs1_with_sha512,
    point_format_uncompressed, psk_mode_dhe, pss_with_sha256, pss_with_sha384, pss_with_sha512,
    tls_aes_128_gcm_sha256, tls_aes_256_gcm_sha384, tls_chacha20_poly1305_sha256,
    tls_ecdhe_ecdsa_with_3des_ede_cbc_sha, tls_ecdhe_ecdsa_with_aes_128_cbc_sha,
    tls_ecdhe_ecdsa_with_aes_128_gcm_sha256, tls_ecdhe_ecdsa_with_aes_256_cbc_sha,
    tls_ecdhe_ecdsa_with_aes_256_gcm_sha384, tls_ecdhe_ecdsa_with_chacha20_poly1305_sha256,
    tls_ecdhe_rsa_with_3des_ede_cbc_sha, tls_ecdhe_rsa_with_aes_128_cbc_sha,
    tls_ecdhe_rsa_with_aes_128_gcm_sha256, tls_ecdhe_rsa_with_aes_256_cbc_sha,
    tls_ecdhe_rsa_with_aes_256_gcm_sha384, tls_ecdhe_rsa_with_chacha20_poly1305_sha256,
    tls_rsa_with_3des_ede_cbc_sha, tls_rsa_with_aes_128_cbc_sha, tls_rsa_with_aes_128_gcm_sha256,
    tls_rsa_with_aes_256_cbc_sha, tls_rsa_with_aes_256_gcm_sha384, version_tls10, version_tls11,
    version_tls12, version_tls13, x25519,
  }

  unfoldable pub safari_ios_17_0 : ClientProfile
  safari_ios_17_0 = record {
    client_hello_id = record {
      client = "iOS";
      version = "17.0";
      random_extension_order = false;
      spec_factory = some (record {
        cipher_suites =
            grease_placeholder ∷ tls_aes_128_gcm_sha256 ∷ tls_aes_256_gcm_sha384
            ∷ tls_chacha20_poly1305_sha256 ∷ tls_ecdhe_ecdsa_with_aes_256_gcm_sha384
            ∷ tls_ecdhe_ecdsa_with_aes_128_gcm_sha256
            ∷ tls_ecdhe_ecdsa_with_chacha20_poly1305_sha256 ∷ tls_ecdhe_rsa_with_aes_256_gcm_sha384
            ∷ tls_ecdhe_rsa_with_aes_128_gcm_sha256 ∷ tls_ecdhe_rsa_with_chacha20_poly1305_sha256
            ∷ tls_ecdhe_ecdsa_with_aes_256_cbc_sha ∷ tls_ecdhe_ecdsa_with_aes_128_cbc_sha
            ∷ tls_ecdhe_rsa_with_aes_256_cbc_sha ∷ tls_ecdhe_rsa_with_aes_128_cbc_sha
            ∷ tls_rsa_with_aes_256_gcm_sha384 ∷ tls_rsa_with_aes_128_gcm_sha256
            ∷ tls_rsa_with_aes_256_cbc_sha ∷ tls_rsa_with_aes_128_cbc_sha
            ∷ tls_ecdhe_ecdsa_with_3des_ede_cbc_sha ∷ tls_ecdhe_rsa_with_3des_ede_cbc_sha
            ∷ tls_rsa_with_3des_ede_cbc_sha ∷ [];
        compression_methods = compression_none ∷ [];
        extensions =
            grease
            ∷ sni
            ∷ extended_master_secret
            ∷ renegotiate_once_as_client
            ∷ supported_curves
                (grease_placeholder ∷ x25519 ∷ curve_p256 ∷ curve_p384 ∷ curve_p521 ∷ [])
            ∷ supported_points (point_format_uncompressed ∷ [])
            ∷ alpn ("h2" ∷ "http/1.1" ∷ [])
            ∷ status_request
            ∷ signature_algorithms (
                ecdsa_with_p256_and_sha256 ∷ pss_with_sha256 ∷ pkcs1_with_sha256
                ∷ ecdsa_with_p384_and_sha384 ∷ ecdsa_with_sha1 ∷ pss_with_sha384 ∷ pss_with_sha384
                ∷ pkcs1_with_sha384 ∷ pss_with_sha512 ∷ pkcs1_with_sha512 ∷ pkcs1_with_sha1 ∷ [])
            ∷ sct
            ∷ key_share (
                (record { group = grease_placeholder; key_data = 0 ∷ [] })
                ∷ (record { group = x25519; key_data = [] })
                ∷ [])
            ∷ psk_key_exchange_modes (psk_mode_dhe ∷ [])
            ∷ supported_versions (
                grease_placeholder ∷ version_tls13 ∷ version_tls12 ∷ version_tls11 ∷ version_tls10
                ∷ [])
            ∷ compress_certificate (cert_compression_zlib ∷ [])
            ∷ grease
            ∷ boring_padding
            ∷ [];
      });
    };
    header_priority = none;
    settings =
        some
          ((enable_push, 0) ∷ (initial_window_size, 2097152) ∷ (max_concurrent_streams, 100) ∷ []);
    priorities = [];
    pseudo_header_order = some (":method" ∷ ":scheme" ∷ ":path" ∷ ":authority" ∷ []);
    settings_order = enable_push ∷ initial_window_size ∷ max_concurrent_streams ∷ [];
    connection_flow = 10485760;
  }

  unfoldable pub safari_ios_18_0 : ClientProfile
  safari_ios_18_0 = record {
    client_hello_id = record {
      client = "iOS";
      version = "18.0";
      random_extension_order = false;
      spec_factory = some (record {
        cipher_suites =
            grease_placeholder ∷ tls_aes_128_gcm_sha256 ∷ tls_aes_256_gcm_sha384
            ∷ tls_chacha20_poly1305_sha256 ∷ tls_ecdhe_ecdsa_with_aes_256_gcm_sha384
            ∷ tls_ecdhe_ecdsa_with_aes_128_gcm_sha256
            ∷ tls_ecdhe_ecdsa_with_chacha20_poly1305_sha256 ∷ tls_ecdhe_rsa_with_aes_256_gcm_sha384
            ∷ tls_ecdhe_rsa_with_aes_128_gcm_sha256 ∷ tls_ecdhe_rsa_with_chacha20_poly1305_sha256
            ∷ tls_ecdhe_ecdsa_with_aes_256_cbc_sha ∷ tls_ecdhe_ecdsa_with_aes_128_cbc_sha
            ∷ tls_ecdhe_rsa_with_aes_256_cbc_sha ∷ tls_ecdhe_rsa_with_aes_128_cbc_sha
            ∷ tls_rsa_with_aes_256_gcm_sha384 ∷ tls_rsa_with_aes_128_gcm_sha256
            ∷ tls_rsa_with_aes_256_cbc_sha ∷ tls_rsa_with_aes_128_cbc_sha
            ∷ tls_ecdhe_ecdsa_with_3des_ede_cbc_sha ∷ tls_ecdhe_rsa_with_3des_ede_cbc_sha
            ∷ tls_rsa_with_3des_ede_cbc_sha ∷ [];
        compression_methods = compression_none ∷ [];
        extensions =
            grease
            ∷ sni
            ∷ extended_master_secret
            ∷ renegotiate_once_as_client
            ∷ supported_curves
                (grease_placeholder ∷ x25519 ∷ curve_p256 ∷ curve_p384 ∷ curve_p521 ∷ [])
            ∷ supported_points (point_format_uncompressed ∷ [])
            ∷ alpn ("h2" ∷ "http/1.1" ∷ [])
            ∷ status_request
            ∷ signature_algorithms (
                ecdsa_with_p256_and_sha256 ∷ pss_with_sha256 ∷ pkcs1_with_sha256
                ∷ ecdsa_with_p384_and_sha384 ∷ ecdsa_with_sha1 ∷ pss_with_sha384 ∷ pss_with_sha384
                ∷ pkcs1_with_sha384 ∷ pss_with_sha512 ∷ pkcs1_with_sha512 ∷ pkcs1_with_sha1 ∷ [])
            ∷ sct
            ∷ key_share (
                (record { group = grease_placeholder; key_data = 0 ∷ [] })
                ∷ (record { group = x25519; key_data = [] })
                ∷ [])
            ∷ psk_key_exchange_modes (psk_mode_dhe ∷ [])
            ∷ supported_versions (
                grease_placeholder ∷ version_tls13 ∷ version_tls12 ∷ version_tls11 ∷ version_tls10
                ∷ [])
            ∷ compress_certificate (cert_compression_zlib ∷ [])
            ∷ grease
            ∷ boring_padding
            ∷ [];
      });
    };
    header_priority = none;
    settings = some (
        (enable_push, 0)
        ∷ (max_concurrent_streams, 100)
        ∷ (initial_window_size, 2097152)
        ∷ (other 8, 1)
        ∷ (other 9, 1)
        ∷ []);
    priorities = [];
    pseudo_header_order = some (":method" ∷ ":scheme" ∷ ":authority" ∷ ":path" ∷ []);
    settings_order =
        enable_push ∷ max_concurrent_streams ∷ initial_window_size ∷ (other 8) ∷ (other 9) ∷ [];
    connection_flow = 10420225;
  }

  unfoldable pub safari_ios_18_5 : ClientProfile
  safari_ios_18_5 = record {
    client_hello_id = record {
      client = "iOS";
      version = "18.5";
      random_extension_order = false;
      spec_factory = some (record {
        cipher_suites =
            grease_placeholder ∷ tls_aes_128_gcm_sha256 ∷ tls_aes_256_gcm_sha384
            ∷ tls_chacha20_poly1305_sha256 ∷ tls_ecdhe_ecdsa_with_aes_256_gcm_sha384
            ∷ tls_ecdhe_ecdsa_with_aes_128_gcm_sha256
            ∷ tls_ecdhe_ecdsa_with_chacha20_poly1305_sha256 ∷ tls_ecdhe_rsa_with_aes_256_gcm_sha384
            ∷ tls_ecdhe_rsa_with_aes_128_gcm_sha256 ∷ tls_ecdhe_rsa_with_chacha20_poly1305_sha256
            ∷ tls_ecdhe_ecdsa_with_aes_256_cbc_sha ∷ tls_ecdhe_ecdsa_with_aes_128_cbc_sha
            ∷ tls_ecdhe_rsa_with_aes_256_cbc_sha ∷ tls_ecdhe_rsa_with_aes_128_cbc_sha
            ∷ tls_rsa_with_aes_256_gcm_sha384 ∷ tls_rsa_with_aes_128_gcm_sha256
            ∷ tls_rsa_with_aes_256_cbc_sha ∷ tls_rsa_with_aes_128_cbc_sha
            ∷ tls_ecdhe_ecdsa_with_3des_ede_cbc_sha ∷ tls_ecdhe_rsa_with_3des_ede_cbc_sha
            ∷ tls_rsa_with_3des_ede_cbc_sha ∷ [];
        compression_methods = compression_none ∷ [];
        extensions =
            grease
            ∷ sni
            ∷ extended_master_secret
            ∷ renegotiate_once_as_client
            ∷ supported_curves
                (grease_placeholder ∷ x25519 ∷ curve_p256 ∷ curve_p384 ∷ curve_p521 ∷ [])
            ∷ supported_points (point_format_uncompressed ∷ [])
            ∷ alpn ("h2" ∷ "http/1.1" ∷ [])
            ∷ status_request
            ∷ signature_algorithms (
                ecdsa_with_p256_and_sha256 ∷ pss_with_sha256 ∷ pkcs1_with_sha256
                ∷ ecdsa_with_p384_and_sha384 ∷ pss_with_sha384 ∷ pss_with_sha384 ∷ pkcs1_with_sha384
                ∷ pss_with_sha512 ∷ pkcs1_with_sha512 ∷ pkcs1_with_sha1 ∷ [])
            ∷ sct
            ∷ key_share (
                (record { group = grease_placeholder; key_data = 0 ∷ [] })
                ∷ (record { group = x25519; key_data = [] })
                ∷ [])
            ∷ psk_key_exchange_modes (psk_mode_dhe ∷ [])
            ∷ supported_versions (
                grease_placeholder ∷ version_tls13 ∷ version_tls12 ∷ version_tls11 ∷ version_tls10
                ∷ [])
            ∷ compress_certificate (cert_compression_zlib ∷ [])
            ∷ grease
            ∷ boring_padding
            ∷ [];
      });
    };
    header_priority = some (record { stream_dep = 0; exclusive = false; weight = 255 });
    settings = some (
        (enable_push, 0)
        ∷ (max_concurrent_streams, 100)
        ∷ (initial_window_size, 2097152)
        ∷ (no_rfc7540_priorities, 1)
        ∷ []);
    priorities = [];
    pseudo_header_order = some (":method" ∷ ":scheme" ∷ ":authority" ∷ ":path" ∷ []);
    settings_order =
        enable_push ∷ max_concurrent_streams ∷ initial_window_size ∷ no_rfc7540_priorities ∷ [];
    connection_flow = 10420225;
  }
