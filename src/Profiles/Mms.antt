-- ===== src/Profiles/Mms.antt =====
-- profiles/contributed_custom_profiles.go, profiles/internal_custom_profiles.go: the profiles of MMS.
use httpkit.Prelude.{[], ◌∷◌, some, none, false}
use httpkit.Tls.{
  alpn, boring_padding, compress_certificate, enable_push, extended_master_secret, grease,
  header_table_size, initial_window_size, key_share, max_concurrent_streams, max_frame_size,
  max_header_list_size, psk_key_exchange_modes, renegotiate_once_as_client, sct, session_ticket,
  signature_algorithms, sni, status_request, supported_curves, supported_points, supported_versions,
}
use httpkit.Profiles.{ClientProfile}
use httpkit.Profiles.Constants.{Constants}

module _ (c : Constants) where
  open c use {
    cert_compression_zlib, compression_none, grease_placeholder, point_format_uncompressed,
    psk_mode_dhe, version_tls12, version_tls13, x25519,
  }

  unfoldable pub mms_ios : ClientProfile
  mms_ios = record {
    client_hello_id = record {
      client = "MMSIos";
      version = "1";
      random_extension_order = false;
      spec_factory = some (record {
        cipher_suites =
            4867 ∷ 4865 ∷ 4866 ∷ 52393 ∷ 52392 ∷ 49195 ∷ 49199 ∷ 49196 ∷ 49200 ∷ 49161 ∷ 49171
            ∷ 49162 ∷ 49172 ∷ 156 ∷ 157 ∷ 47 ∷ 53 ∷ 10 ∷ [];
        compression_methods = compression_none ∷ [];
        extensions =
            sni
            ∷ extended_master_secret
            ∷ renegotiate_once_as_client
            ∷ supported_curves (29 ∷ 23 ∷ 24 ∷ [])
            ∷ supported_points (point_format_uncompressed ∷ [])
            ∷ session_ticket
            ∷ signature_algorithms
                (1027 ∷ 2052 ∷ 1025 ∷ 1283 ∷ 2053 ∷ 1281 ∷ 2054 ∷ 1537 ∷ 513 ∷ [])
            ∷ key_share ((record { group = x25519; key_data = [] }) ∷ [])
            ∷ psk_key_exchange_modes (psk_mode_dhe ∷ [])
            ∷ supported_versions (version_tls13 ∷ version_tls12 ∷ [])
            ∷ [];
      });
    };
    header_priority = none;
    settings = some (
        (header_table_size, 4096)
        ∷ (enable_push, 1)
        ∷ (max_concurrent_streams, 100)
        ∷ (initial_window_size, 2097152)
        ∷ (max_frame_size, 16384)
        ∷ (max_header_list_size, 4294967295)
        ∷ []);
    priorities = [];
    pseudo_header_order = some (":method" ∷ ":scheme" ∷ ":path" ∷ ":authority" ∷ []);
    settings_order =
        header_table_size ∷ enable_push ∷ max_concurrent_streams ∷ initial_window_size
        ∷ max_frame_size ∷ max_header_list_size ∷ [];
    connection_flow = 15663105;
  }

  unfoldable pub mms_ios2 : ClientProfile
  mms_ios2 = record {
    client_hello_id = record {
      client = "MMSIos";
      version = "2";
      random_extension_order = false;
      spec_factory = some (record {
        cipher_suites =
            4865 ∷ 4866 ∷ 4867 ∷ 49195 ∷ 49199 ∷ 49196 ∷ 49200 ∷ 52393 ∷ 52392 ∷ 49161 ∷ 49171
            ∷ 49162 ∷ 49172 ∷ 156 ∷ 157 ∷ 47 ∷ 53 ∷ 10 ∷ [];
        compression_methods = compression_none ∷ [];
        extensions =
            sni
            ∷ extended_master_secret
            ∷ renegotiate_once_as_client
            ∷ supported_curves (29 ∷ 23 ∷ 24 ∷ [])
            ∷ supported_points (point_format_uncompressed ∷ [])
            ∷ session_ticket
            ∷ signature_algorithms
                (1027 ∷ 2052 ∷ 1025 ∷ 1283 ∷ 2053 ∷ 1281 ∷ 2054 ∷ 1537 ∷ 513 ∷ [])
            ∷ key_share ((record { group = x25519; key_data = [] }) ∷ [])
            ∷ psk_key_exchange_modes (psk_mode_dhe ∷ [])
            ∷ supported_versions (version_tls13 ∷ version_tls12 ∷ [])
            ∷ [];
      });
    };
    header_priority = none;
    settings = some (
        (header_table_size, 4096)
        ∷ (enable_push, 1)
        ∷ (max_concurrent_streams, 100)
        ∷ (initial_window_size, 2097152)
        ∷ (max_frame_size, 16384)
        ∷ (max_header_list_size, 4294967295)
        ∷ []);
    priorities = [];
    pseudo_header_order = some (":method" ∷ ":scheme" ∷ ":path" ∷ ":authority" ∷ []);
    settings_order =
        header_table_size ∷ enable_push ∷ max_concurrent_streams ∷ initial_window_size
        ∷ max_frame_size ∷ max_header_list_size ∷ [];
    connection_flow = 15663105;
  }

  unfoldable pub mms_ios3 : ClientProfile
  mms_ios3 = record {
    client_hello_id = record {
      client = "MMSIos";
      version = "3";
      random_extension_order = false;
      spec_factory = some (record {
        cipher_suites =
            grease_placeholder ∷ 4865 ∷ 4866 ∷ 4867 ∷ 49196 ∷ 49195 ∷ 52393 ∷ 49200 ∷ 49199 ∷ 52392
            ∷ 49162 ∷ 49161 ∷ 49172 ∷ 49171 ∷ [];
        compression_methods = compression_none ∷ [];
        extensions =
            grease
            ∷ sni
            ∷ extended_master_secret
            ∷ renegotiate_once_as_client
            ∷ supported_curves (grease_placeholder ∷ 29 ∷ 23 ∷ 24 ∷ 25 ∷ [])
            ∷ supported_points (point_format_uncompressed ∷ [])
            ∷ alpn ("h2" ∷ "http/1.1" ∷ [])
            ∷ status_request
            ∷ signature_algorithms
                (1027 ∷ 2052 ∷ 1025 ∷ 1283 ∷ 515 ∷ 2053 ∷ 1281 ∷ 2054 ∷ 1537 ∷ 513 ∷ [])
            ∷ sct
            ∷ key_share (
                (record { group = grease_placeholder; key_data = 0 ∷ [] })
                ∷ (record { group = x25519; key_data = [] })
                ∷ [])
            ∷ psk_key_exchange_modes (psk_mode_dhe ∷ [])
            ∷ supported_versions (grease_placeholder ∷ version_tls13 ∷ version_tls12 ∷ [])
            ∷ compress_certificate (cert_compression_zlib ∷ [])
            ∷ grease
            ∷ boring_padding
            ∷ [];
      });
    };
    header_priority = none;
    settings = some (
        (header_table_size, 4096)
        ∷ (enable_push, 1)
        ∷ (max_concurrent_streams, 100)
        ∷ (initial_window_size, 2097152)
        ∷ (max_frame_size, 16384)
        ∷ (max_header_list_size, 4294967295)
        ∷ []);
    priorities = [];
    pseudo_header_order = some (":method" ∷ ":scheme" ∷ ":path" ∷ ":authority" ∷ []);
    settings_order =
        header_table_size ∷ enable_push ∷ max_concurrent_streams ∷ initial_window_size
        ∷ max_frame_size ∷ max_header_list_size ∷ [];
    connection_flow = 15663105;
  }
