-- ===== src/Profiles/ChromeLater.antt =====
-- profiles/internal_browser_profiles.go: the profiles of Chrome 116 to 120.
use httpkit.Prelude.{[], ◌∷◌, some, none, false}
use httpkit.Tls.{
  alpn, application_settings, boring_grease_ech, boring_padding, compress_certificate, enable_push,
  extended_master_secret, grease, header_table_size, initial_window_size, key_share,
  max_concurrent_streams, max_header_list_size, psk_key_exchange_modes, renegotiate_once_as_client,
  sct, session_ticket, signature_algorithms, sni, status_request, supported_curves,
  supported_points, supported_versions,
}
use httpkit.Profiles.{ClientProfile}
use httpkit.Profiles.Constants.{Constants}

module _ (c : Constants) where
  open c use {
    cert_compression_brotli, compression_none, curve_p256, curve_p384, ecdsa_with_p256_and_sha256,
    ecdsa_with_p384_and_sha384, grease_placeholder, hello_chrome_112_psk, hello_chrome_115_pq_psk,
    pkcs1_with_sha256, pkcs1_with_sha384, pkcs1_with_sha512, point_format_uncompressed,
    psk_mode_dhe, pss_with_sha256, pss_with_sha384, pss_with_sha512, tls_aes_128_gcm_sha256,
    tls_aes_256_gcm_sha384, tls_chacha20_poly1305_sha256, tls_ecdhe_ecdsa_with_aes_128_gcm_sha256,
    tls_ecdhe_ecdsa_with_aes_256_gcm_sha384, tls_ecdhe_ecdsa_with_chacha20_poly1305,
    tls_ecdhe_ecdsa_with_chacha20_poly1305_sha256, tls_ecdhe_rsa_with_aes_128_cbc_sha,
    tls_ecdhe_rsa_with_aes_128_gcm_sha256, tls_ecdhe_rsa_with_aes_256_cbc_sha,
    tls_ecdhe_rsa_with_aes_256_gcm_sha384, tls_ecdhe_rsa_with_chacha20_poly1305,
    tls_ecdhe_rsa_with_chacha20_poly1305_sha256, tls_rsa_with_aes_128_cbc_sha,
    tls_rsa_with_aes_128_gcm_sha256, tls_rsa_with_aes_256_cbc_sha, tls_rsa_with_aes_256_gcm_sha384,
    version_tls12, version_tls13, x25519,
  }

  unfoldable pub chrome_116_psk : ClientProfile
  chrome_116_psk = record {
    client_hello_id = hello_chrome_112_psk;
    header_priority = none;
    settings = some (
        (header_table_size, 65536)
        ∷ (enable_push, 0)
        ∷ (max_concurrent_streams, 1000)
        ∷ (initial_window_size, 6291456)
        ∷ (max_header_list_size, 262144)
        ∷ []);
    priorities = [];
    pseudo_header_order = some (":method" ∷ ":authority" ∷ ":scheme" ∷ ":path" ∷ []);
    settings_order =
        header_table_size ∷ enable_push ∷ max_concurrent_streams ∷ initial_window_size
        ∷ max_header_list_size ∷ [];
    connection_flow = 15663105;
  }

  unfoldable pub chrome_116_psk_pq : ClientProfile
  chrome_116_psk_pq = record {
    client_hello_id = hello_chrome_115_pq_psk;
    header_priority = none;
    settings = some (
        (header_table_size, 65536)
        ∷ (enable_push, 0)
        ∷ (max_concurrent_streams, 1000)
        ∷ (initial_window_size, 6291456)
        ∷ (max_header_list_size, 262144)
        ∷ []);
    priorities = [];
    pseudo_header_order = some (":method" ∷ ":authority" ∷ ":scheme" ∷ ":path" ∷ []);
    settings_order =
        header_table_size ∷ enable_push ∷ max_concurrent_streams ∷ initial_window_size
        ∷ max_header_list_size ∷ [];
    connection_flow = 15663105;
  }

  unfoldable pub chrome_117 : ClientProfile
  chrome_117 = record {
    client_hello_id = record {
      client = "Chrome";
      version = "117";
      random_extension_order = false;
      spec_factory = some (record {
        cipher_suites =
            grease_placeholder ∷ tls_aes_128_gcm_sha256 ∷ tls_aes_256_gcm_sha384
            ∷ tls_chacha20_poly1305_sha256 ∷ tls_ecdhe_ecdsa_with_aes_128_gcm_sha256
            ∷ tls_ecdhe_rsa_with_aes_128_gcm_sha256 ∷ tls_ecdhe_ecdsa_with_aes_256_gcm_sha384
            ∷ tls_ecdhe_rsa_with_aes_256_gcm_sha384 ∷ tls_ecdhe_ecdsa_with_chacha20_poly1305_sha256
            ∷ tls_ecdhe_rsa_with_chacha20_poly1305_sha256 ∷ tls_ecdhe_rsa_with_aes_128_cbc_sha
            ∷ tls_ecdhe_rsa_with_aes_256_cbc_sha ∷ tls_rsa_with_aes_128_gcm_sha256
            ∷ tls_rsa_with_aes_256_gcm_sha384 ∷ tls_rsa_with_aes_128_cbc_sha
            ∷ tls_rsa_with_aes_256_cbc_sha ∷ [];
        compression_methods = compression_none ∷ [];
        extensions =
            grease
            ∷ psk_key_exchange_modes (psk_mode_dhe ∷ [])
            ∷ sni
            ∷ alpn ("h2" ∷ "http/1.1" ∷ [])
            ∷ signature_algorithms (
                ecdsa_with_p256_and_sha256 ∷ pss_with_sha256 ∷ pkcs1_with_sha256
                ∷ ecdsa_with_p384_and_sha384 ∷ pss_with_sha384 ∷ pkcs1_with_sha384 ∷ pss_with_sha512
                ∷ pkcs1_with_sha512 ∷ [])
            ∷ supported_versions (grease_placeholder ∷ version_tls13 ∷ version_tls12 ∷ [])
            ∷ application_settings ("h2" ∷ [])
            ∷ supported_curves (grease_placeholder ∷ x25519 ∷ curve_p256 ∷ curve_p384 ∷ [])
            ∷ extended_master_secret
            ∷ session_ticket
            ∷ compress_certificate (cert_compression_brotli ∷ [])
            ∷ sct
            ∷ status_request
            ∷ key_share (
                (record { group = grease_placeholder; key_data = 0 ∷ [] })
                ∷ (record { group = x25519; key_data = [] })
                ∷ [])
            ∷ renegotiate_once_as_client
            ∷ supported_points (point_format_uncompressed ∷ [])
            ∷ grease
            ∷ boring_padding
            ∷ [];
      });
    };
    header_priority = none;
    settings = some (
        (header_table_size, 65536)
        ∷ (enable_push, 0)
        ∷ (initial_window_size, 6291456)
        ∷ (max_header_list_size, 262144)
        ∷ []);
    priorities = [];
    pseudo_header_order = some (":method" ∷ ":authority" ∷ ":scheme" ∷ ":path" ∷ []);
    settings_order =
        header_table_size ∷ enable_push ∷ initial_window_size ∷ max_header_list_size ∷ [];
    connection_flow = 15663105;
  }

  unfoldable pub chrome_120 : ClientProfile
  chrome_120 = record {
    client_hello_id = record {
      client = "Chrome";
      version = "120";
      random_extension_order = false;
      spec_factory = some (record {
        cipher_suites =
            grease_placeholder ∷ tls_aes_128_gcm_sha256 ∷ tls_aes_256_gcm_sha384
            ∷ tls_chacha20_poly1305_sha256 ∷ tls_ecdhe_ecdsa_with_aes_128_gcm_sha256
            ∷ tls_ecdhe_rsa_with_aes_128_gcm_sha256 ∷ tls_ecdhe_ecdsa_with_aes_256_gcm_sha384
            ∷ tls_ecdhe_rsa_with_aes_256_gcm_sha384 ∷ tls_ecdhe_ecdsa_with_chacha20_poly1305
            ∷ tls_ecdhe_rsa_with_chacha20_poly1305 ∷ tls_ecdhe_rsa_with_aes_128_cbc_sha
            ∷ tls_ecdhe_rsa_with_aes_256_cbc_sha ∷ tls_rsa_with_aes_128_gcm_sha256
            ∷ tls_rsa_with_aes_256_gcm_sha384 ∷ tls_rsa_with_aes_128_cbc_sha
            ∷ tls_rsa_with_aes_256_cbc_sha ∷ [];
        compression_methods = compression_none ∷ [];
        extensions =
            grease
            ∷ sni
            ∷ psk_key_exchange_modes (psk_mode_dhe ∷ [])
            ∷ supported_versions (grease_placeholder ∷ version_tls13 ∷ version_tls12 ∷ [])
            ∷ status_request
            ∷ extended_master_secret
            ∷ session_ticket
            ∷ signature_algorithms (
                ecdsa_with_p256_and_sha256 ∷ pss_with_sha256 ∷ pkcs1_with_sha256
                ∷ ecdsa_with_p384_and_sha384 ∷ pss_with_sha384 ∷ pkcs1_with_sha384 ∷ pss_with_sha512
                ∷ pkcs1_with_sha512 ∷ [])
            ∷ renegotiate_once_as_client
            ∷ alpn ("h2" ∷ "http/1.1" ∷ [])
            ∷ boring_grease_ech
            ∷ sct
            ∷ key_share (
                (record { group = grease_placeholder; key_data = 0 ∷ [] })
                ∷ (record { group = x25519; key_data = [] })
                ∷ [])
            ∷ supported_curves (grease_placeholder ∷ x25519 ∷ curve_p256 ∷ curve_p384 ∷ [])
            ∷ supported_points (point_format_uncompressed ∷ [])
            ∷ application_settings ("h2" ∷ [])
            ∷ compress_certificate (cert_compression_brotli ∷ [])
            ∷ grease
            ∷ [];
      });
    };
    header_priority = none;
    settings = some (
        (header_table_size, 65536)
        ∷ (enable_push, 0)
        ∷ (initial_window_size, 6291456)
        ∷ (max_header_list_size, 262144)
        ∷ []);
    priorities = [];
    pseudo_header_order = some (":method" ∷ ":authority" ∷ ":scheme" ∷ ":path" ∷ []);
    settings_order =
        header_table_size ∷ enable_push ∷ initial_window_size ∷ max_header_list_size ∷ [];
    connection_flow = 15663105;
  }
