-- ===== src/Profiles/Okhttp.antt =====
-- profiles/contributed_custom_profiles.go: the profiles of OkHttp on Android 10 to 13.
use httpkit.Prelude.{[], ◌∷◌, some, false}
use httpkit.Tls.{
  alpn, boring_padding, extended_master_secret, initial_window_size, key_share,
  psk_key_exchange_modes, renegotiate_never, session_ticket, signature_algorithms, sni,
  status_request, supported_curves, supported_points, supported_versions,
}
use httpkit.Profiles.{ClientProfile}
use httpkit.Profiles.Constants.{Constants}

module _ (c : Constants) where
  open c use {
    compression_none, curve_p256, curve_p384, ecdsa_with_p256_and_sha256,
    ecdsa_with_p384_and_sha384, pkcs1_with_sha1, pkcs1_with_sha256, pkcs1_with_sha384,
    pkcs1_with_sha512, point_format_uncompressed, psk_mode_dhe, pss_with_sha256, pss_with_sha384,
    pss_with_sha512, tls_aes_128_gcm_sha256, tls_aes_256_gcm_sha384, tls_chacha20_poly1305_sha256,
    tls_ecdhe_ecdsa_with_aes_128_gcm_sha256, tls_ecdhe_ecdsa_with_aes_256_gcm_sha384,
    tls_ecdhe_ecdsa_with_chacha20_poly1305_sha256, tls_ecdhe_rsa_with_aes_128_cbc_sha,
    tls_ecdhe_rsa_with_aes_128_gcm_sha256, tls_ecdhe_rsa_with_aes_256_cbc_sha,
    tls_ecdhe_rsa_with_aes_256_gcm_sha384, tls_ecdhe_rsa_with_chacha20_poly1305_sha256,
    tls_rsa_with_aes_128_cbc_sha, tls_rsa_with_aes_128_gcm_sha256, tls_rsa_with_aes_256_cbc_sha,
    tls_rsa_with_aes_256_gcm_sha384, version_tls12, version_tls13, x25519,
  }

  unfoldable pub okhttp4_android10 : ClientProfile
  okhttp4_android10 = record {
    client_hello_id = record {
      client = "OkHttp4Android10";
      version = "4.10.0";
      random_extension_order = false;
      spec_factory = some (record {
        cipher_suites =
            tls_aes_128_gcm_sha256 ∷ tls_aes_256_gcm_sha384 ∷ tls_chacha20_poly1305_sha256
            ∷ tls_ecdhe_ecdsa_with_aes_128_gcm_sha256 ∷ tls_ecdhe_ecdsa_with_aes_256_gcm_sha384
            ∷ tls_ecdhe_ecdsa_with_chacha20_poly1305_sha256 ∷ tls_ecdhe_rsa_with_aes_128_gcm_sha256
            ∷ tls_ecdhe_rsa_with_aes_256_gcm_sha384 ∷ tls_ecdhe_rsa_with_chacha20_poly1305_sha256
            ∷ tls_ecdhe_rsa_with_aes_128_cbc_sha ∷ tls_ecdhe_rsa_with_aes_256_cbc_sha
            ∷ tls_rsa_with_aes_128_gcm_sha256 ∷ tls_rsa_with_aes_256_gcm_sha384
            ∷ tls_rsa_with_aes_128_cbc_sha ∷ tls_rsa_with_aes_256_cbc_sha ∷ [];
        compression_methods = compression_none ∷ [];
        extensions =
            sni
            ∷ extended_master_secret
            ∷ renegotiate_never
            ∷ supported_curves (x25519 ∷ curve_p256 ∷ curve_p384 ∷ [])
            ∷ supported_points (point_format_uncompressed ∷ [])
            ∷ session_ticket
            ∷ alpn ("h2" ∷ "http/1.1" ∷ [])
            ∷ status_request
            ∷ signature_algorithms (
                ecdsa_with_p256_and_sha256 ∷ pss_with_sha256 ∷ pkcs1_with_sha256
                ∷ ecdsa_with_p384_and_sha384 ∷ pss_with_sha384 ∷ pkcs1_with_sha384 ∷ pss_with_sha512
                ∷ pkcs1_with_sha512 ∷ pkcs1_with_sha1 ∷ [])
            ∷ key_share ((record { group = x25519; key_data = [] }) ∷ [])
            ∷ psk_key_exchange_modes (psk_mode_dhe ∷ [])
            ∷ supported_versions (version_tls13 ∷ version_tls12 ∷ [])
            ∷ boring_padding
            ∷ [];
      });
    };
    header_priority = some (record { stream_dep = 0; exclusive = false; weight = 0 });
    settings = some ((initial_window_size, 16777216) ∷ []);
    priorities = [];
    pseudo_header_order = some (":method" ∷ ":path" ∷ ":authority" ∷ ":scheme" ∷ []);
    settings_order = initial_window_size ∷ [];
    connection_flow = 16711681;
  }

  unfoldable pub okhttp4_android11 : ClientProfile
  okhttp4_android11 = record {
    client_hello_id = record {
      client = "OkHttp4Android11";
      version = "4.10.0";
      random_extension_order = false;
      spec_factory = okhttp4_android10.client_hello_id.spec_factory;
    };
    header_priority = some (record { stream_dep = 0; exclusive = false; weight = 0 });
    settings = some ((initial_window_size, 16777216) ∷ []);
    priorities = [];
    pseudo_header_order = some (":method" ∷ ":path" ∷ ":authority" ∷ ":scheme" ∷ []);
    settings_order = initial_window_size ∷ [];
    connection_flow = 16711681;
  }

  unfoldable pub okhttp4_android12 : ClientProfile
  okhttp4_android12 = record {
    client_hello_id = record {
      client = "OkHttp4Android12";
      version = "4.10.0";
      random_extension_order = false;
      spec_factory = okhttp4_android10.client_hello_id.spec_factory;
    };
    header_priority = some (record { stream_dep = 0; exclusive = false; weight = 0 });
    settings = some ((initial_window_size, 16777216) ∷ []);
    priorities = [];
    pseudo_header_order = some (":method" ∷ ":path" ∷ ":authority" ∷ ":scheme" ∷ []);
    settings_order = initial_window_size ∷ [];
    connection_flow = 16711681;
  }

  unfoldable pub okhttp4_android13 : ClientProfile
  okhttp4_android13 = record {
    client_hello_id = record {
      client = "OkHttp4Android13";
      version = "4.10.0";
      random_extension_order = false;
      spec_factory = okhttp4_android10.client_hello_id.spec_factory;
    };
    header_priority = some (record { stream_dep = 0; exclusive = false; weight = 0 });
    settings = some ((initial_window_size, 16777216) ∷ []);
    priorities = [];
    pseudo_header_order = some (":method" ∷ ":path" ∷ ":authority" ∷ ":scheme" ∷ []);
    settings_order = initial_window_size ∷ [];
    connection_flow = 16711681;
  }
