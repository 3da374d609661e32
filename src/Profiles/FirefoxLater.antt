-- ===== src/Profiles/FirefoxLater.antt =====
-- profiles/internal_browser_profiles.go, profiles/contributed_browser_profiles.go: the profiles of Firefox 117 and 120.
use httpkit.Prelude.{[], ◌∷◌, some, false}
use httpkit.Tls.{
  alpn, boring_grease_ech, boring_padding, delegated_credentials, extended_master_secret,
  header_table_size, initial_window_size, key_share, max_frame_size, psk_key_exchange_modes,
  record_size_limit, renegotiate_once_as_client, session_ticket, signature_algorithms, sni,
  status_request, supported_curves, supported_points, supported_versions,
}
use httpkit.Profiles.{ClientProfile}
use httpkit.Profiles.Constants.{Constants}

module _ (c : Constants) where
  open c use {
    compression_none, curve_p256, curve_p384, curve_p521, ecdsa_with_p256_and_sha256,
    ecdsa_with_p384_and_sha384, ecdsa_with_p521_and_sha512, ecdsa_with_sha1, fake_ffdhe2048,
    fake_ffdhe3072, pkcs1_with_sha1, pkcs1_with_sha256, pkcs1_with_sha384, pkcs1_with_sha512,
    point_format_uncompressed, psk_mode_dhe, pss_with_sha256, pss_with_sha384, pss_with_sha512,
    tls_aes_128_gcm_sha256, tls_aes_256_gcm_sha384, tls_chacha20_poly1305_sha256,
    tls_ecdhe_ecdsa_with_aes_128_cbc_sha, tls_ecdhe_ecdsa_with_aes_128_gcm_sha256,
    tls_ecdhe_ecdsa_with_aes_256_cbc_sha, tls_ecdhe_ecdsa_with_aes_256_gcm_sha384,
    tls_ecdhe_ecdsa_with_chacha20_poly1305_sha256, tls_ecdhe_rsa_with_aes_128_cbc_sha,
    tls_ecdhe_rsa_with_aes_128_gcm_sha256, tls_ecdhe_rsa_with_aes_256_cbc_sha,
    tls_ecdhe_rsa_with_aes_256_gcm_sha384, tls_ecdhe_rsa_with_chacha20_poly1305_sha256,
    tls_rsa_with_aes_128_cbc_sha, tls_rsa_with_aes_128_gcm_sha256, tls_rsa_with_aes_256_cbc_sha,
    tls_rsa_with_aes_256_gcm_sha384, version_tls12, version_tls13, x25519,
  }

  unfoldable pub firefox_117 : ClientProfile
  firefox_117 = record {
    client_hello_id = record {
      client = "Firefox";
      version = "117";
      random_extension_order = false;
      spec_factory = some (record {
        cipher_suites =
            tls_aes_128_gcm_sha256 ∷ tls_chacha20_poly1305_sha256 ∷ tls_aes_256_gcm_sha384
            ∷ tls_ecdhe_ecdsa_with_aes_128_gcm_sha256 ∷ tls_ecdhe_rsa_with_aes_128_gcm_sha256
            ∷ tls_ecdhe_ecdsa_with_chacha20_poly1305_sha256
            ∷ tls_ecdhe_rsa_with_chacha20_poly1305_sha256 ∷ tls_ecdhe_ecdsa_with_aes_256_gcm_sha384
            ∷ tls_ecdhe_rsa_with_aes_256_gcm_sha384 ∷ tls_ecdhe_ecdsa_with_aes_256_cbc_sha
            ∷ tls_ecdhe_ecdsa_with_aes_128_cbc_sha ∷ tls_ecdhe_rsa_with_aes_128_cbc_sha
            ∷ tls_ecdhe_rsa_with_aes_256_cbc_sha ∷ tls_rsa_with_aes_128_gcm_sha256
            ∷ tls_rsa_with_aes_256_gcm_sha384 ∷ tls_rsa_with_aes_128_cbc_sha
            ∷ tls_rsa_with_aes_256_cbc_sha ∷ [];
        compression_methods = compression_none ∷ [];
        extensions =
            sni
            ∷ extended_master_secret
            ∷ renegotiate_once_as_client
            ∷ supported_curves (
                x25519 ∷ curve_p256 ∷ curve_p384 ∷ curve_p521 ∷ fake_ffdhe2048 ∷ fake_ffdhe3072
                ∷ [])
            ∷ supported_points (point_format_uncompressed ∷ [])
            ∷ session_ticket
            ∷ alpn ("h2" ∷ "http/1.1" ∷ [])
            ∷ status_request
            ∷ delegated_credentials (
                ecdsa_with_p256_and_sha256 ∷ ecdsa_with_p384_and_sha384 ∷ ecdsa_with_p521_and_sha512
                ∷ ecdsa_with_sha1 ∷ [])
            ∷ key_share (
                (record { group = x25519; key_data = [] })
                ∷ (record { group = curve_p256; key_data = [] })
                ∷ [])
            ∷ supported_versions (version_tls13 ∷ version_tls12 ∷ [])
            ∷ signature_algorithms (
                ecdsa_with_p256_and_sha256 ∷ ecdsa_with_p384_and_sha384 ∷ ecdsa_with_p521_and_sha512
                ∷ pss_with_sha256 ∷ pss_with_sha384 ∷ pss_with_sha512 ∷ pkcs1_with_sha256
                ∷ pkcs1_with_sha384 ∷ pkcs1_with_sha512 ∷ ecdsa_with_sha1 ∷ pkcs1_with_sha1 ∷ [])
            ∷ psk_key_exchange_modes (psk_mode_dhe ∷ [])
            ∷ record_size_limit 16385
            ∷ boring_padding
            ∷ [];
      });
    };
    header_priority = some (record { stream_dep = 13; exclusive = false; weight = 41 });
    settings =
        some (
          (header_table_size, 65536)
          ∷ (initial_window_size, 131072)
          ∷ (max_frame_size, 16384)
          ∷ []);
    priorities =
        (record {
          stream_id = 3;
          priority_param = record { stream_dep = 0; exclusive = false; weight = 200 };
        })
        ∷ (record {
          stream_id = 5;
          priority_param = record { stream_dep = 0; exclusive = false; weight = 100 };
        })
        ∷ (record {
          stream_id = 7;
          priority_param = record { stream_dep = 0; exclusive = false; weight = 0 };
        })
        ∷ (record {
          stream_id = 9;
          priority_param = record { stream_dep = 7; exclusive = false; weight = 0 };
        })
        ∷ (record {
          stream_id = 11;
          priority_param = record { stream_dep = 3; exclusive = false; weight = 0 };
        })
        ∷ (record {
          stream_id = 13;
          priority_param = record { stream_dep = 0; exclusive = false; weight = 240 };
        })
        ∷ [];
    pseudo_header_order = some (":method" ∷ ":path" ∷ ":authority" ∷ ":scheme" ∷ []);
    settings_order = header_table_size ∷ initial_window_size ∷ max_frame_size ∷ [];
    connection_flow = 12517377;
  }

  unfoldable pub firefox_120 : ClientProfile
  firefox_120 = record {
    client_hello_id = record {
      client = "Firefox";
      version = "120";
      random_extension_order = false;
      spec_factory = some (record {
        cipher_suites =
            tls_aes_128_gcm_sha256 ∷ tls_chacha20_poly1305_sha256 ∷ tls_aes_256_gcm_sha384
            ∷ tls_ecdhe_ecdsa_with_aes_128_gcm_sha256 ∷ tls_ecdhe_rsa_with_aes_128_gcm_sha256
            ∷ tls_ecdhe_ecdsa_with_chacha20_poly1305_sha256
            ∷ tls_ecdhe_rsa_with_chacha20_poly1305_sha256 ∷ tls_ecdhe_ecdsa_with_aes_256_gcm_sha384
            ∷ tls_ecdhe_rsa_with_aes_256_gcm_sha384 ∷ tls_ecdhe_ecdsa_with_aes_256_cbc_sha
            ∷ tls_ecdhe_ecdsa_with_aes_128_cbc_sha ∷ tls_ecdhe_rsa_with_aes_128_cbc_sha
            ∷ tls_ecdhe_rsa_with_aes_256_cbc_sha ∷ tls_rsa_with_aes_128_gcm_sha256
            ∷ tls_rsa_with_aes_256_gcm_sha384 ∷ tls_rsa_with_aes_128_cbc_sha
            ∷ tls_rsa_with_aes_256_cbc_sha ∷ [];
        compression_methods = compression_none ∷ [];
        extensions =
            sni
            ∷ extended_master_secret
            ∷ renegotiate_once_as_client
            ∷ supported_curves (
                x25519 ∷ curve_p256 ∷ curve_p384 ∷ curve_p521 ∷ fake_ffdhe2048 ∷ fake_ffdhe3072
                ∷ [])
            ∷ supported_points (point_format_uncompressed ∷ [])
            ∷ alpn ("h2" ∷ "http/1.1" ∷ [])
            ∷ status_request
            ∷ delegated_credentials (
                ecdsa_with_p256_and_sha256 ∷ ecdsa_with_p384_and_sha384 ∷ ecdsa_with_p521_and_sha512
                ∷ ecdsa_with_sha1 ∷ [])
            ∷ key_share (
                (record { group = x25519; key_data = [] })
                ∷ (record { group = curve_p256; key_data = [] })
                ∷ [])
            ∷ supported_versions (version_tls13 ∷ version_tls12 ∷ [])
            ∷ signature_algorithms (
                ecdsa_with_p256_and_sha256 ∷ ecdsa_with_p384_and_sha384 ∷ ecdsa_with_p521_and_sha512
                ∷ pss_with_sha256 ∷ pss_with_sha384 ∷ pss_with_sha512 ∷ pkcs1_with_sha256
                ∷ pkcs1_with_sha384 ∷ pkcs1_with_sha512 ∷ ecdsa_with_sha1 ∷ pkcs1_with_sha1 ∷ [])
            ∷ record_size_limit 16385
            ∷ boring_grease_ech
            ∷ [];
      });
    };
    header_priority = some (record { stream_dep = 13; exclusive = false; weight = 41 });
    settings =
        some (
          (header_table_size, 65536)
          ∷ (initial_window_size, 131072)
          ∷ (max_frame_size, 16384)
          ∷ []);
    priorities =
        (record {
          stream_id = 3;
          priority_param = record { stream_dep = 0; exclusive = false; weight = 200 };
        })
        ∷ (record {
          stream_id = 5;
          priority_param = record { stream_dep = 0; exclusive = false; weight = 100 };
        })
        ∷ (record {
          stream_id = 7;
          priority_param = record { stream_dep = 0; exclusive = false; weight = 0 };
        })
        ∷ (record {
          stream_id = 9;
          priority_param = record { stream_dep = 7; exclusive = false; weight = 0 };
        })
        ∷ (record {
          stream_id = 11;
          priority_param = record { stream_dep = 3; exclusive = false; weight = 0 };
        })
        ∷ (record {
          stream_id = 13;
          priority_param = record { stream_dep = 0; exclusive = false; weight = 240 };
        })
        ∷ [];
    pseudo_header_order = some (":method" ∷ ":path" ∷ ":authority" ∷ ":scheme" ∷ []);
    settings_order = header_table_size ∷ initial_window_size ∷ max_frame_size ∷ [];
    connection_flow = 12517377;
  }
