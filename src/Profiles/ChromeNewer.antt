-- ===== src/Profiles/ChromeNewer.antt =====
-- profiles/internal_browser_profiles.go, profiles/contributed_browser_profiles.go: the profiles of Chrome 124 to 131.
use httpkit.Prelude.{[], ◌∷◌, some, none, false}
use httpkit.Tls.{
  alpn, application_settings, boring_grease_ech, compress_certificate, enable_push,
  extended_master_secret, grease, header_table_size, initial_window_size, key_share,
  max_header_list_size, pre_shared_key, psk_key_exchange_modes, renegotiate_once_as_client, sct,
  session_ticket, signature_algorithms, sni, status_request, supported_curves, supported_points,
  supported_versions,
}
use httpkit.Profiles.{ClientProfile}
use httpkit.Profiles.Constants.{Constants}

module _ (c : Constants) where
  open c use {
    cert_compression_brotli, compression_none, curve_p256, curve_p384, ecdsa_with_p256_and_sha256,
    ecdsa_with_p384_and_sha384, grease_placeholder, pkcs1_with_sha256, pkcs1_with_sha384,
    pkcs1_with_sha512, point_format_uncompressed, psk_mode_dhe, pss_with_sha256, pss_with_sha384,
    pss_with_sha512, tls_aes_128_gcm_sha256, tls_aes_256_gcm_sha384, tls_chacha20_poly1305_sha256,
    tls_ecdhe_ecdsa_with_aes_128_gcm_sha256, tls_ecdhe_ecdsa_with_aes_256_gcm_sha384,
    tls_ecdhe_ecdsa_with_chacha20_poly1305, tls_ecdhe_ecdsa_with_chacha20_poly1305_sha256,
    tls_ecdhe_rsa_with_aes_128_cbc_sha, tls_ecdhe_rsa_with_aes_128_gcm_sha256,
    tls_ecdhe_rsa_with_aes_256_cbc_sha, tls_ecdhe_rsa_with_aes_256_gcm_sha384,
    tls_ecdhe_rsa_with_chacha20_poly1305, tls_ecdhe_rsa_with_chacha20_poly1305_sha256,
    tls_rsa_with_aes_128_cbc_sha, tls_rsa_with_aes_128_gcm_sha256, tls_rsa_with_aes_256_cbc_sha,
    tls_rsa_with_aes_256_gcm_sha384, version_tls12, version_tls13, x25519, x25519_kyber768_draft00,
    x25519_mlkem768,
  }

  unfoldable pub chrome_124 : ClientProfile
  chrome_124 = record {
    client_hello_id = record {
      client = "Chrome";
      version = "124";
      random_extension_order = false;
      spec_factory = some (record {
        cipher_suites =
            grease_placeholder ∷ tls_aes_128_gcm_sha256 ∷ tls_aes_256_gcm_sha384
            ∷ tls_chacha20_poly1305_sha256 ∷ tls_ecdhe_ecdsa_with_aes_128_gcm_sha256
            ∷ tls_ecdhe_rsa_with_aes_128_gcm_sha256 ∷ tls_ecdhe_ecdsa_with_aes_256_gcm_sha384
            ∷ tls_ecdhe_rsa_with_aes_256_gcm_sha384 ∷ tls_ecdhe_ecdsa_with_chacha20_poly1305
            ∷ tls_ecdhe_rsa_with_chacha20_poly1305 ∷ tls_ecdhe_rsa_with_aes_128_cbc_sha
            ∷ tls_ecdhe_rsa_with_aes_256_cbc_sha ∷ tls_rsa_with_aes_128_gcm_sha256
            ∷ tls_rsa_with_aes_256_gcm_sha384 ∷ tls_rsa_with_aes_128_cbc_sha
            ∷ tls_rsa_with_aes_256_cbc_sha ∷ [];
        compression_methods = compression_none ∷ [];
        extensions =
            grease
            ∷ compress_certificate (cert_compression_brotli ∷ [])
            ∷ sct
            ∷ extended_master_secret
            ∷ application_settings ("h2" ∷ [])
            ∷ alpn ("h2" ∷ "http/1.1" ∷ [])
            ∷ supported_versions (grease_placeholder ∷ version_tls13 ∷ version_tls12 ∷ [])
            ∷ signature_algorithms (
                ecdsa_with_p256_and_sha256 ∷ pss_with_sha256 ∷ pkcs1_with_sha256
                ∷ ecdsa_with_p384_and_sha384 ∷ pss_with_sha384 ∷ pkcs1_with_sha384 ∷ pss_with_sha512
                ∷ pkcs1_with_sha512 ∷ [])
            ∷ supported_points (point_format_uncompressed ∷ [])
            ∷ sni
            ∷ session_ticket
            ∷ supported_curves (
                grease_placeholder ∷ x25519_kyber768_draft00 ∷ x25519 ∷ curve_p256 ∷ curve_p384
                ∷ [])
            ∷ boring_grease_ech
            ∷ status_request
            ∷ renegotiate_once_as_client
            ∷ psk_key_exchange_modes (psk_mode_dhe ∷ [])
            ∷ key_share (
                (record { group = grease_placeholder; key_data = 0 ∷ [] })
                ∷ (record { group = x25519_kyber768_draft00; key_data = [] })
                ∷ (record { group = x25519; key_data = [] })
                ∷ [])
            ∷ grease
            ∷ [];
      });
    };
    header_priority = none;
    settings = some (
        (header_table_size, 65536)
        ∷ (enable_push, 0)
        ∷ (initial_window_size, 6291456)
        ∷ (max_header_list_size, 262144)
        ∷ []);
    priorities = [];
    pseudo_header_order = some (":method" ∷ ":authority" ∷ ":scheme" ∷ ":path" ∷ []);
    settings_order =
        header_table_size ∷ enable_push ∷ initial_window_size ∷ max_header_list_size ∷ [];
    connection_flow = 15663105;
  }

  unfoldable pub chrome_130_psk : ClientProfile
  chrome_130_psk = record {
    client_hello_id = record {
      client = "Chrome";
      version = "130";
      random_extension_order = false;
      spec_factory = some (record {
        cipher_suites =
            grease_placeholder ∷ tls_aes_128_gcm_sha256 ∷ tls_aes_256_gcm_sha384
            ∷ tls_chacha20_poly1305_sha256 ∷ tls_ecdhe_ecdsa_with_aes_128_gcm_sha256
            ∷ tls_ecdhe_rsa_with_aes_128_gcm_sha256 ∷ tls_ecdhe_ecdsa_with_aes_256_gcm_sha384
            ∷ tls_ecdhe_rsa_with_aes_256_gcm_sha384 ∷ tls_ecdhe_ecdsa_with_chacha20_poly1305_sha256
            ∷ tls_ecdhe_rsa_with_chacha20_poly1305_sha256 ∷ tls_ecdhe_rsa_with_aes_128_cbc_sha
            ∷ tls_ecdhe_rsa_with_aes_256_cbc_sha ∷ tls_rsa_with_aes_128_gcm_sha256
            ∷ tls_rsa_with_aes_256_gcm_sha384 ∷ tls_rsa_with_aes_128_cbc_sha
            ∷ tls_rsa_with_aes_256_cbc_sha ∷ [];
        compression_methods = compression_none ∷ [];
        extensions =
            grease
            ∷ signature_algorithms (
                ecdsa_with_p256_and_sha256 ∷ pss_with_sha256 ∷ pkcs1_with_sha256
                ∷ ecdsa_with_p384_and_sha384 ∷ pss_with_sha384 ∷ pkcs1_with_sha384 ∷ pss_with_sha512
                ∷ pkcs1_with_sha512 ∷ [])
            ∷ boring_grease_ech
            ∷ renegotiate_once_as_client
            ∷ sct
            ∷ compress_certificate (cert_compression_brotli ∷ [])
            ∷ alpn ("h2" ∷ "http/1.1" ∷ [])
            ∷ status_request
            ∷ supported_curves (grease_placeholder ∷ x25519 ∷ curve_p256 ∷ curve_p384 ∷ [])
            ∷ application_settings ("h2" ∷ [])
            ∷ supported_points (point_format_uncompressed ∷ [])
            ∷ key_share (
                (record { group = grease_placeholder; key_data = 0 ∷ [] })
                ∷ (record { group = x25519; key_data = [] })
                ∷ [])
            ∷ session_ticket
            ∷ supported_versions (grease_placeholder ∷ version_tls13 ∷ version_tls12 ∷ [])
            ∷ psk_key_exchange_modes (psk_mode_dhe ∷ [])
            ∷ sni
            ∷ extended_master_secret
            ∷ grease
            ∷ pre_shared_key
            ∷ [];
      });
    };
    header_priority = none;
    settings = some (
        (header_table_size, 65536)
        ∷ (enable_push, 0)
        ∷ (initial_window_size, 6291456)
        ∷ (max_header_list_size, 262144)
        ∷ []);
    priorities = [];
    pseudo_header_order = some (":method" ∷ ":authority" ∷ ":scheme" ∷ ":path" ∷ []);
    settings_order =
        header_table_size ∷ enable_push ∷ initial_window_size ∷ max_header_list_size ∷ [];
    connection_flow = 15663105;
  }

  unfoldable pub chrome_131 : ClientProfile
  chrome_131 = record {
    client_hello_id = record {
      client = "Chrome";
      version = "131";
      random_extension_order = false;
      spec_factory = some (record {
        cipher_suites =
            grease_placeholder ∷ tls_aes_128_gcm_sha256 ∷ tls_aes_256_gcm_sha384
            ∷ tls_chacha20_poly1305_sha256 ∷ tls_ecdhe_ecdsa_with_aes_128_gcm_sha256
            ∷ tls_ecdhe_rsa_with_aes_128_gcm_sha256 ∷ tls_ecdhe_ecdsa_with_aes_256_gcm_sha384
            ∷ tls_ecdhe_rsa_with_aes_256_gcm_sha384 ∷ tls_ecdhe_ecdsa_with_chacha20_poly1305_sha256
            ∷ tls_ecdhe_rsa_with_chacha20_poly1305_sha256 ∷ tls_ecdhe_rsa_with_aes_128_cbc_sha
            ∷ tls_ecdhe_rsa_with_aes_256_cbc_sha ∷ tls_rsa_with_aes_128_gcm_sha256
            ∷ tls_rsa_with_aes_256_gcm_sha384 ∷ tls_rsa_with_aes_128_cbc_sha
            ∷ tls_rsa_with_aes_256_cbc_sha ∷ [];
        compression_methods = compression_none ∷ [];
        extensions =
            grease
            ∷ signature_algorithms (
                ecdsa_with_p256_and_sha256 ∷ pss_with_sha256 ∷ pkcs1_with_sha256
                ∷ ecdsa_with_p384_and_sha384 ∷ pss_with_sha384 ∷ pkcs1_with_sha384 ∷ pss_with_sha512
                ∷ pkcs1_with_sha512 ∷ [])
            ∷ boring_grease_ech
            ∷ renegotiate_once_as_client
            ∷ sct
            ∷ compress_certificate (cert_compression_brotli ∷ [])
            ∷ alpn ("h2" ∷ "http/1.1" ∷ [])
            ∷ status_request
            ∷ supported_curves
                (grease_placeholder ∷ x25519_mlkem768 ∷ x25519 ∷ curve_p256 ∷ curve_p384 ∷ [])
            ∷ application_settings ("h2" ∷ [])
            ∷ supported_points (point_format_uncompressed ∷ [])
            ∷ key_share (
                (record { group = grease_placeholder; key_data = 0 ∷ [] })
                ∷ (record { group = x25519_mlkem768; key_data = [] })
                ∷ (record { group = x25519; key_data = [] })
                ∷ [])
            ∷ session_ticket
            ∷ supported_versions (grease_placeholder ∷ version_tls13 ∷ version_tls12 ∷ [])
            ∷ psk_key_exchange_modes (psk_mode_dhe ∷ [])
            ∷ sni
            ∷ extended_master_secret
            ∷ grease
            ∷ [];
      });
    };
    header_priority = none;
    settings = some (
        (header_table_size, 65536)
        ∷ (enable_push, 0)
        ∷ (initial_window_size, 6291456)
        ∷ (max_header_list_size, 262144)
        ∷ []);
    priorities = [];
    pseudo_header_order = some (":method" ∷ ":authority" ∷ ":scheme" ∷ ":path" ∷ []);
    settings_order =
        header_table_size ∷ enable_push ∷ initial_window_size ∷ max_header_list_size ∷ [];
    connection_flow = 15663105;
  }
