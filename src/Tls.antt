-- ===== src/Tls.antt =====
-- The types and constants of utls, fhttp/http2 and dicttls that the program names. The numbers are
-- not in the repository: `TlsIds` is a parameter of what uses them.
use httpkit.Prelude.{ℕ, String, List, Option, Bool}

-- tls.KeyShare
pub record KeyShare : Type 0 where
  pub group : ℕ
  pub key_data : List ℕ

-- tls.HPKESymmetricCipherSuite
pub record HpkeSymmetricCipherSuite : Type 0 where
  pub kdf_id : ℕ
  pub aead_id : ℕ

-- The values of tls.TLSExtension that the program builds.
pub data TlsExtension : Type 0 where
  sni status_request sct extended_master_secret session_ticket pre_shared_key : TlsExtension
  cookie next_proto_neg boring_padding boring_padding_will_pad grease boring_grease_ech :
      TlsExtension
  renegotiate_once_as_client renegotiate_never : TlsExtension
  generic : ℕ → TlsExtension
  psk_key_exchange_modes : List ℕ → TlsExtension
  supported_curves : List ℕ → TlsExtension
  supported_points : List ℕ → TlsExtension
  key_share : List KeyShare → TlsExtension
  grease_ech : List HpkeSymmetricCipherSuite → List ℕ → TlsExtension
  supported_versions : List ℕ → TlsExtension
  signature_algorithms : List ℕ → TlsExtension
  delegated_credentials : List ℕ → TlsExtension
  alpn : List String → TlsExtension
  application_settings : List String → TlsExtension
  application_settings_new : List String → TlsExtension
  record_size_limit : ℕ → TlsExtension
  compress_certificate : List ℕ → TlsExtension

-- tls.ClientHelloSpec, without the function that makes session ids.
pub record ClientHelloSpec : Type 0 where
  pub cipher_suites : List ℕ
  pub compression_methods : List ℕ
  pub extensions : List TlsExtension

-- tls.ClientHelloID; `spec_factory` is what the factory returns, nothing for an error.
pub record ClientHelloId : Type 0 where
  pub client : String
  pub version : String
  pub random_extension_order : Bool
  pub spec_factory : Option ClientHelloSpec

-- http2.SettingID by name; `other` is an identifier without a name.
pub data SettingId : Type 0 where
  header_table_size enable_push max_concurrent_streams : SettingId
  initial_window_size max_frame_size max_header_list_size : SettingId
  no_rfc7540_priorities : SettingId
  other : ℕ → SettingId

-- http2.PriorityParam
pub record PriorityParam : Type 0 where
  pub stream_dep : ℕ
  pub exclusive : Bool
  pub weight : ℕ

-- http2.Priority
pub record Priority : Type 0 where
  pub stream_id : ℕ
  pub priority_param : PriorityParam

-- The constants by name.
pub record TlsIds : Type 0 where
  pub grease_placeholder : ℕ
  pub compression_none : ℕ
  pub psk_mode_dhe : ℕ
  pub version_tls13 : ℕ
  pub version_tls12 : ℕ
  pub version_tls11 : ℕ
  pub version_tls10 : ℕ
  pub pkcs1_with_sha256 : ℕ
  pub pkcs1_with_sha384 : ℕ
  pub pkcs1_with_sha512 : ℕ
  pub pss_with_sha256 : ℕ
  pub pss_with_sha384 : ℕ
  pub pss_with_sha512 : ℕ
  pub ecdsa_with_p256_and_sha256 : ℕ
  pub ecdsa_with_p384_and_sha384 : ℕ
  pub ecdsa_with_p521_and_sha512 : ℕ
  pub pkcs1_with_sha1 : ℕ
  pub ecdsa_with_sha1 : ℕ
  pub ed25519 : ℕ
  pub sha224_rsa : ℕ
  pub sha224_ecdsa : ℕ
  pub hkdf_sha256 : ℕ
  pub hkdf_sha384 : ℕ
  pub hkdf_sha512 : ℕ
  pub aead_aes_128_gcm : ℕ
  pub aead_aes_256_gcm : ℕ
  pub aead_chacha20_poly1305 : ℕ
  pub curve_p256 : ℕ
  pub curve_p384 : ℕ
  pub curve_p521 : ℕ
  pub x25519 : ℕ
  pub p256_kyber768_draft00 : ℕ
  pub x25519_kyber512_draft00 : ℕ
  pub x25519_kyber768_draft00 : ℕ
  pub x25519_kyber768_draft00_old : ℕ
  pub x25519_mlkem768 : ℕ
  pub cert_compression_zlib : ℕ
  pub cert_compression_brotli : ℕ
  pub cert_compression_zstd : ℕ
  pub extension_server_name : ℕ
  pub extension_status_request : ℕ
  pub extension_supported_curves : ℕ
  pub extension_supported_points : ℕ
  pub extension_signature_algorithms : ℕ
  pub extension_alpn : ℕ
  pub extension_sct : ℕ
  pub extension_padding : ℕ
  pub extension_extended_master_secret : ℕ
  pub extension_compress_certificate : ℕ
  pub extension_record_size_limit : ℕ
  pub extension_delegated_credentials : ℕ
  pub extension_session_ticket : ℕ
  pub extension_pre_shared_key : ℕ
  pub extension_early_data : ℕ
  pub extension_supported_versions : ℕ
  pub extension_cookie : ℕ
  pub extension_psk_modes : ℕ
  pub extension_key_share : ℕ
  pub extension_next_proto_neg : ℕ
  pub extension_alps_old : ℕ
  pub extension_alps : ℕ
  pub extension_ech : ℕ
  pub extension_renegotiation_info : ℕ
