-- ===== src/Profiles/OkhttpEarly.antt =====
-- profiles/contributed_custom_profiles.go: the profiles of OkHttp on Android 7 to 9.
use httpkit.Prelude.{[], ◌∷◌, some, false}
use httpkit.Tls.{
  alpn, boring_padding, extended_master_secret, initial_window_size, renegotiate_never,
  session_ticket, signature_algorithms, sni, status_request, supported_curves, supported_points,
}
use httpkit.Profiles.{ClientProfile}
use httpkit.Profiles.Constants.{Constants}

module _ (c : Constants) where
  open c use {
    compression_none, curve_p256, curve_p384, curve_p521, ecdsa_with_p256_and_sha256,
    ecdsa_with_p384_and_sha384, ecdsa_with_p521_and_sha512, ecdsa_with_sha1, pkcs1_with_sha1,
    pkcs1_with_sha256, pkcs1_with_sha384, pkcs1_with_sha512, point_format_uncompressed,
    pss_with_sha256, pss_with_sha384, pss_with_sha512, tls_ecdhe_ecdsa_with_aes_128_gcm_sha256,
    tls_ecdhe_ecdsa_with_aes_256_gcm_sha384, tls_ecdhe_ecdsa_with_chacha20_poly1305_sha256,
    tls_ecdhe_rsa_with_aes_128_cbc_sha, tls_ecdhe_rsa_with_aes_128_gcm_sha256,
    tls_ecdhe_rsa_with_aes_256_cbc_sha, tls_ecdhe_rsa_with_aes_256_gcm_sha384,
    tls_ecdhe_rsa_with_chacha20_poly1305_sha256, tls_rsa_with_aes_128_cbc_sha,
    tls_rsa_with_aes_128_gcm_sha256, tls_rsa_with_aes_256_cbc_sha, tls_rsa_with_aes_256_gcm_sha384,
    x25519,
  }

  unfoldable pub okhttp4_android7 : ClientProfile
  okhttp4_android7 = record {
    client_hello_id = record {
      client = "OkHttp4Android7";
      version = "4.10.0";
      random_extension_order = false;
      spec_factory = some (record {
        cipher_suites =
            tls_ecdhe_ecdsa_with_aes_128_gcm_sha256 ∷ tls_ecdhe_ecdsa_with_aes_256_gcm_sha384
            ∷ tls_ecdhe_ecdsa_with_chacha20_poly1305_sha256 ∷ tls_ecdhe_rsa_with_aes_128_gcm_sha256
            ∷ tls_ecdhe_rsa_with_aes_256_gcm_sha384 ∷ tls_ecdhe_rsa_with_chacha20_poly1305_sha256
            ∷ tls_ecdhe_rsa_with_aes_128_cbc_sha ∷ tls_ecdhe_rsa_with_aes_256_cbc_sha
            ∷ tls_rsa_with_aes_128_gcm_sha256 ∷ tls_rsa_with_aes_256_gcm_sha384
            ∷ tls_rsa_with_aes_128_cbc_sha ∷ tls_rsa_with_aes_256_cbc_sha ∷ [];
        compression_methods = compression_none ∷ [];
        extensions =
            renegotiate_never
            ∷ sni
            ∷ extended_master_secret
            ∷ session_ticket
            ∷ signature_algorithms (
                pkcs1_with_sha512 ∷ ecdsa_with_p521_and_sha512 ∷ pkcs1_with_sha384
                ∷ ecdsa_with_p384_and_sha384 ∷ pkcs1_with_sha256 ∷ ecdsa_with_p256_and_sha256 ∷ 769
                ∷ 771 ∷ pkcs1_with_sha1 ∷ ecdsa_with_sha1 ∷ [])
            ∷ alpn ("h2" ∷ "http/1.1" ∷ [])
            ∷ supported_points (point_format_uncompressed ∷ [])
            ∷ supported_curves (curve_p256 ∷ curve_p384 ∷ curve_p521 ∷ [])
            ∷ boring_padding
            ∷ [];
      });
    };
    header_priority = some (record { stream_dep = 0; exclusive = false; weight = 0 });
    settings = some ((initial_window_size, 16777216) ∷ []);
    priorities = [];
    pseudo_header_order = some (":method" ∷ ":path" ∷ ":authority" ∷ ":scheme" ∷ []);
    settings_order = initial_window_size ∷ [];
    connection_flow = 16711681;
  }

  unfoldable pub okhttp4_android8 : ClientProfile
  okhttp4_android8 = record {
    client_hello_id = record {
      client = "OkHttp4Android8";
      version = "4.10.0";
      random_extension_order = false;
      spec_factory = some (record {
        cipher_suites =
            tls_ecdhe_ecdsa_with_aes_128_gcm_sha256 ∷ tls_ecdhe_ecdsa_with_aes_256_gcm_sha384
            ∷ tls_ecdhe_ecdsa_with_chacha20_poly1305_sha256 ∷ tls_ecdhe_rsa_with_aes_128_gcm_sha256
            ∷ tls_ecdhe_rsa_with_aes_256_gcm_sha384 ∷ tls_ecdhe_rsa_with_chacha20_poly1305_sha256
            ∷ tls_ecdhe_rsa_with_aes_128_cbc_sha ∷ tls_ecdhe_rsa_with_aes_256_cbc_sha
            ∷ tls_rsa_with_aes_128_gcm_sha256 ∷ tls_rsa_with_aes_256_gcm_sha384
            ∷ tls_rsa_with_aes_128_cbc_sha ∷ tls_rsa_with_aes_256_cbc_sha ∷ [];
        compression_methods = compression_none ∷ [];
        extensions =
            renegotiate_never
            ∷ sni
            ∷ extended_master_secret
            ∷ session_ticket
            ∷ signature_algorithms (
                ecdsa_with_p256_and_sha256 ∷ pkcs1_with_sha256 ∷ ecdsa_with_p384_and_sha384
                ∷ pkcs1_with_sha384 ∷ ecdsa_with_p521_and_sha512 ∷ pkcs1_with_sha512
                ∷ pkcs1_with_sha1 ∷ [])
            ∷ status_request
            ∷ alpn ("h2" ∷ "http/1.1" ∷ [])
            ∷ supported_points (point_format_uncompressed ∷ [])
            ∷ supported_curves (x25519 ∷ curve_p256 ∷ curve_p384 ∷ [])
            ∷ boring_padding
            ∷ [];
      });
    };
    header_priority = some (record { stream_dep = 0; exclusive = false; weight = 0 });
    settings = some ((initial_window_size, 16777216) ∷ []);
    priorities = [];
    pseudo_header_order = some (":method" ∷ ":path" ∷ ":authority" ∷ ":scheme" ∷ []);
    settings_order = initial_window_size ∷ [];
    connection_flow = 16711681;
  }

  unfoldable pub okhttp4_android9 : ClientProfile
  okhttp4_android9 = record {
    client_hello_id = record {
      client = "OkHttp4Android9";
      version = "4.10.0";
      random_extension_order = false;
      spec_factory = some (record {
        cipher_suites =
            tls_ecdhe_ecdsa_with_aes_128_gcm_sha256 ∷ tls_ecdhe_ecdsa_with_aes_256_gcm_sha384
            ∷ tls_ecdhe_ecdsa_with_chacha20_poly1305_sha256 ∷ tls_ecdhe_rsa_with_aes_128_gcm_sha256
            ∷ tls_ecdhe_rsa_with_aes_256_gcm_sha384 ∷ tls_ecdhe_rsa_with_chacha20_poly1305_sha256
            ∷ tls_ecdhe_rsa_with_aes_128_cbc_sha ∷ tls_ecdhe_rsa_with_aes_256_cbc_sha
            ∷ tls_rsa_with_aes_128_gcm_sha256 ∷ tls_rsa_with_aes_256_gcm_sha384
            ∷ tls_rsa_with_aes_128_cbc_sha ∷ tls_rsa_with_aes_256_cbc_sha ∷ [];
        compression_methods = compression_none ∷ [];
        extensions =
            renegotiate_never
            ∷ sni
            ∷ extended_master_secret
            ∷ session_ticket
            ∷ signature_algorithms (
                ecdsa_with_p256_and_sha256 ∷ pss_with_sha256 ∷ pkcs1_with_sha256
                ∷ ecdsa_with_p384_and_sha384 ∷ pss_with_sha384 ∷ pkcs1_with_sha384 ∷ pss_with_sha512
                ∷ pkcs1_with_sha512 ∷ pkcs1_with_sha1 ∷ [])
            ∷ status_request
            ∷ alpn ("h2" ∷ "http/1.1" ∷ [])
            ∷ supported_points (point_format_uncompressed ∷ [])
            ∷ supported_curves (x25519 ∷ curve_p256 ∷ curve_p384 ∷ [])
            ∷ boring_padding
            ∷ [];
      });
    };
    header_priority = some (record { stream_dep = 0; exclusive = false; weight = 0 });
    settings = some ((initial_window_size, 16777216) ∷ []);
    priorities = [];
    pseudo_header_order = some (":method" ∷ ":path" ∷ ":authority" ∷ ":scheme" ∷ []);
    settings_order = initial_window_size ∷ [];
    connection_flow = 16711681;
  }
