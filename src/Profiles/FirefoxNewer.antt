-- ===== src/Profiles/FirefoxNewer.antt =====
-- profiles/contributed_browser_profiles.go: the profiles of Firefox 123 and 132.
use httpkit.Prelude.{[], ◌∷◌, some, none, false}
use httpkit.Tls.{
  alpn, boring_grease_ech, compress_certificate, delegated_credentials, enable_push,
  extended_master_secret, grease_ech, header_table_size, initial_window_size, key_share,
  max_frame_size, no_rfc7540_priorities, psk_key_exchange_modes, record_size_limit,
  renegotiate_once_as_client, session_ticket, signature_algorithms, sni, status_request,
  supported_curves, supported_points, supported_versions,
}
use httpkit.Profiles.{ClientProfile}
use httpkit.Profiles.Constants.{Constants}

module _ (c : Constants) where
  open c use {
    aead_aes_128_gcm, aead_aes_256_gcm, aead_chacha20_poly1305, cert_compression_brotli,
    cert_compression_zlib, cert_compression_zstd, compression_none, curve_p256, curve_p384,
    curve_p521, ecdsa_with_p256_and_sha256, ecdsa_with_p384_and_sha384, ecdsa_with_p521_and_sha512,
    ecdsa_with_sha1, fake_ffdhe2048, fake_ffdhe3072, hkdf_sha256, pkcs1_with_sha1,
    pkcs1_with_sha256, pkcs1_with_sha384, pkcs1_with_sha512, point_format_uncompressed,
    psk_mode_dhe, pss_with_sha256, pss_with_sha384, pss_with_sha512, tls_aes_128_gcm_sha256,
    tls_aes_256_gcm_sha384, tls_chacha20_poly1305_sha256, tls_ecdhe_ecdsa_with_aes_128_cbc_sha,
    tls_ecdhe_ecdsa_with_aes_128_gcm_sha256, tls_ecdhe_ecdsa_with_aes_256_cbc_sha,
    tls_ecdhe_ecdsa_with_aes_256_gcm_sha384, tls_ecdhe_ecdsa_with_chacha20_poly1305_sha256,
    tls_ecdhe_rsa_with_aes_128_cbc_sha, tls_ecdhe_rsa_with_aes_128_gcm_sha256,
    tls_ecdhe_rsa_with_aes_256_cbc_sha, tls_ecdhe_rsa_with_aes_256_gcm_sha384,
    tls_ecdhe_rsa_with_chacha20_poly1305_sha256, tls_rsa_with_aes_128_cbc_sha,
    tls_rsa_with_aes_128_gcm_sha256, tls_rsa_with_aes_256_cbc_sha, tls_rsa_with_aes_256_gcm_sha384,
    version_tls12, version_tls13, x25519, x25519_mlkem768,
  }

  unfoldable pub firefox_123 : ClientProfile
  firefox_123 = record {
    client_hello_id = record {
      client = "Firefox";
      version = "123";
      random_extension_order = false;
      spec_factory = some (record {
        cipher_suites =
            tls_aes_128_gcm_sha256 ∷ tls_chacha20_poly1305_sha256 ∷ tls_aes_256_gcm_sha384
            ∷ tls_ecdhe_ecdsa_with_aes_128_gcm_sha256 ∷ tls_ecdhe_rsa_with_aes_128_gcm_sha256
            ∷ tls_ecdhe_ecdsa_with_chacha20_poly1305_sha256
            ∷ tls_ecdhe_rsa_with_chacha20_poly1305_sha256 ∷ tls_ecdhe_ecdsa_with_aes_256_gcm_sha384
            ∷ tls_ecdhe_rsa_with_aes_256_gcm_sha384 ∷ tls_ecdhe_ecdsa_with_aes_256_cbc_sha
            ∷ tls_ecdhe_ecdsa_with_aes_128_cbc_sha ∷ tls_ecdhe_rsa_with_aes_128_cbc_sha
            ∷ tls_ecdhe_rsa_with_aes_256_cbc_sha ∷ tls_rsa_with_aes_128_gcm_sha256
            ∷ tls_rsa_with_aes_256_gcm_sha384 ∷ tls_rsa_with_aes_128_cbc_sha
            ∷ tls_rsa_with_aes_256_cbc_sha ∷ [];
        compression_methods = compression_none ∷ [];
        extensions =
            sni
            ∷ extended_master_secret
            ∷ renegotiate_once_as_client
            ∷ supported_curves (
                x25519 ∷ curve_p256 ∷ curve_p384 ∷ curve_p521 ∷ fake_ffdhe2048 ∷ fake_ffdhe3072
                ∷ [])
            ∷ supported_points (point_format_uncompressed ∷ [])
            ∷ session_ticket
            ∷ alpn ("h2" ∷ "http/1.1" ∷ [])
            ∷ status_request
            ∷ delegated_credentials (
                ecdsa_with_p256_and_sha256 ∷ ecdsa_with_p384_and_sha384 ∷ ecdsa_with_p521_and_sha512
                ∷ ecdsa_with_sha1 ∷ [])
            ∷ key_share (
                (record { group = x25519; key_data = [] })
                ∷ (record { group = curve_p256; key_data = [] })
                ∷ [])
            ∷ supported_versions (version_tls13 ∷ version_tls12 ∷ [])
            ∷ signature_algorithms (
                ecdsa_with_p256_and_sha256 ∷ ecdsa_with_p384_and_sha384 ∷ ecdsa_with_p521_and_sha512
                ∷ pss_with_sha256 ∷ pss_with_sha384 ∷ pss_with_sha512 ∷ pkcs1_with_sha256
                ∷ pkcs1_with_sha384 ∷ pkcs1_with_sha512 ∷ ecdsa_with_sha1 ∷ pkcs1_with_sha1 ∷ [])
            ∷ psk_key_exchange_modes (psk_mode_dhe ∷ [])
            ∷ record_size_limit 16385
            ∷ boring_grease_ech
            ∷ [];
      });
    };
    header_priority = some (record { stream_dep = 13; exclusive = false; weight = 41 });
    settings =
        some (
          (header_table_size, 65536)
          ∷ (initial_window_size, 131072)
          ∷ (max_frame_size, 16384)
          ∷ []);
    priorities =
        (record {
          stream_id = 3;
          priority_param = record { stream_dep = 0; exclusive = false; weight = 200 };
        })
        ∷ (record {
          stream_id = 5;
          priority_param = record { stream_dep = 0; exclusive = false; weight = 100 };
        })
        ∷ (record {
          stream_id = 7;
          priority_param = record { stream_dep = 0; exclusive = false; weight = 0 };
        })
        ∷ (record {
          stream_id = 9;
          priority_param = record { stream_dep = 7; exclusive = false; weight = 0 };
        })
        ∷ (record {
          stream_id = 11;
          priority_param = record { stream_dep = 3; exclusive = false; weight = 0 };
        })
        ∷ (record {
          stream_id = 13;
          priority_param = record { stream_dep = 0; exclusive = false; weight = 240 };
        })
        ∷ [];
    pseudo_header_order = some (":method" ∷ ":path" ∷ ":authority" ∷ ":scheme" ∷ []);
    settings_order = header_table_size ∷ initial_window_size ∷ max_frame_size ∷ [];
    connection_flow = 12517377;
  }

  unfoldable pub firefox_132 : ClientProfile
  firefox_132 = record {
    client_hello_id = record {
      client = "Firefox";
      version = "132";
      random_extension_order = false;
      spec_factory = some (record {
        cipher_suites =
            tls_aes_128_gcm_sha256 ∷ tls_chacha20_poly1305_sha256 ∷ tls_aes_256_gcm_sha384
            ∷ tls_ecdhe_ecdsa_with_aes_128_gcm_sha256 ∷ tls_ecdhe_rsa_with_aes_128_gcm_sha256
            ∷ tls_ecdhe_ecdsa_with_chacha20_poly1305_sha256
            ∷ tls_ecdhe_rsa_with_chacha20_poly1305_sha256 ∷ tls_ecdhe_ecdsa_with_aes_256_gcm_sha384
            ∷ tls_ecdhe_rsa_with_aes_256_gcm_sha384 ∷ tls_ecdhe_ecdsa_with_aes_256_cbc_sha
            ∷ tls_ecdhe_ecdsa_with_aes_128_cbc_sha ∷ tls_ecdhe_rsa_with_aes_128_cbc_sha
            ∷ tls_ecdhe_rsa_with_aes_256_cbc_sha ∷ tls_rsa_with_aes_128_gcm_sha256
            ∷ tls_rsa_with_aes_256_gcm_sha384 ∷ tls_rsa_with_aes_128_cbc_sha
            ∷ tls_rsa_with_aes_256_cbc_sha ∷ [];
        compression_methods = compression_none ∷ [];
        extensions =
            sni
            ∷ extended_master_secret
            ∷ renegotiate_once_as_client
            ∷ supported_curves (
                x25519_mlkem768 ∷ x25519 ∷ curve_p256 ∷ curve_p384 ∷ curve_p521 ∷ fake_ffdhe2048
                ∷ fake_ffdhe3072 ∷ [])
            ∷ supported_points (point_format_uncompressed ∷ [])
            ∷ alpn ("h2" ∷ "http/1.1" ∷ [])
            ∷ status_request
            ∷ delegated_credentials (
                ecdsa_with_p256_and_sha256 ∷ ecdsa_with_p384_and_sha384 ∷ ecdsa_with_p521_and_sha512
                ∷ ecdsa_with_sha1 ∷ [])
            ∷ key_share (
                (record { group = x25519_mlkem768; key_data = [] })
                ∷ (record { group = x25519; key_data = [] })
                ∷ (record { group = curve_p256; key_data = [] })
                ∷ [])
            ∷ supported_versions (version_tls13 ∷ version_tls12 ∷ [])
            ∷ signature_algorithms (
                ecdsa_with_p256_and_sha256 ∷ ecdsa_with_p384_and_sha384 ∷ ecdsa_with_p521_and_sha512
                ∷ pss_with_sha256 ∷ pss_with_sha384 ∷ pss_with_sha512 ∷ pkcs1_with_sha256
                ∷ pkcs1_with_sha384 ∷ pkcs1_with_sha512 ∷ ecdsa_with_sha1 ∷ pkcs1_with_sha1 ∷ [])
            ∷ record_size_limit 16385
            ∷ compress_certificate
                (cert_compression_zlib ∷ cert_compression_brotli ∷ cert_compression_zstd ∷ [])
            ∷ grease_ech
                ((record { kdf_id = hkdf_sha256; aead_id = aead_aes_128_gcm })
                  ∷ (record { kdf_id = hkdf_sha256; aead_id = aead_aes_256_gcm })
                  ∷ (record { kdf_id = hkdf_sha256; aead_id = aead_chacha20_poly1305 })
                  ∷ [])
                (128 ∷ 223 ∷ [])
            ∷ [];
      });
    };
    header_priority = none;
    settings = some (
        (header_table_size, 65536)
        ∷ (enable_push, 0)
        ∷ (initial_window_size, 131072)
        ∷ (max_frame_size, 16384)
        ∷ (no_rfc7540_priorities, 1)
        ∷ []);
    priorities = [];
    pseudo_header_order = some (":method" ∷ ":path" ∷ ":authority" ∷ ":scheme" ∷ []);
    settings_order =
        header_table_size ∷ enable_push ∷ initial_window_size ∷ max_frame_size
        ∷ no_rfc7540_priorities ∷ [];
    connection_flow = 12517377;
  }
