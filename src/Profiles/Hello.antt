-- ===== src/Profiles/Hello.antt =====
-- profiles/: what RFC 8446 asks of a ClientHello, as far as the profiles are held to it.
use httpkit.Prelude.{
  ℕ, ◌+◌, ◌≡◌, ◌⊎◌, Bool, true, false, ◌&&◌, not, String, List, [], ◌∷◌, map, eqb, if◌then◌else◌,
}
use httpkit.Tls.{
  TlsExtension, sni, status_request, sct, extended_master_secret, session_ticket, pre_shared_key,
  cookie, next_proto_neg, boring_padding, boring_padding_will_pad, grease, boring_grease_ech,
  renegotiate_once_as_client, renegotiate_never, generic, psk_key_exchange_modes, supported_curves,
  supported_points, KeyShare, key_share, grease_ech, supported_versions, signature_algorithms,
  delegated_credentials, alpn, application_settings, application_settings_new, record_size_limit,
  compress_certificate, ClientHelloSpec,
}

-- A number for each type of extension; those for padding, renegotiation, ECH and the two ALPS are
-- of one type each.
abbrev pub kind : TlsExtension → ℕ
kind sni = 0
kind status_request = 1
kind sct = 2
kind extended_master_secret = 3
kind session_ticket = 4
kind pre_shared_key = 5
kind cookie = 6
kind next_proto_neg = 7
kind boring_padding = 8
kind boring_padding_will_pad = 8
kind renegotiate_once_as_client = 9
kind renegotiate_never = 9
kind boring_grease_ech = 10
kind (grease_ech _ _) = 10
kind (psk_key_exchange_modes _) = 11
kind (supported_curves _) = 12
kind (supported_points _) = 13
kind (key_share _) = 14
kind (supported_versions _) = 15
kind (signature_algorithms _) = 16
kind (delegated_credentials _) = 17
kind (alpn _) = 18
kind (application_settings _) = 19
kind (application_settings_new _) = 19
kind (record_size_limit _) = 20
kind (compress_certificate _) = 21
kind grease = 22
kind (generic n) = n + 23

-- Whether an extension of the kind is there.
abbrev pub has_kind : ℕ → List TlsExtension → Bool
has_kind k [] = false
has_kind k (x ∷ xs) = let rest = has_kind k xs in if eqb k (kind x) then true else rest

-- No type of extension stands there twice, but for GREASE.
abbrev pub no_repeats : List TlsExtension → Bool
no_repeats [] = true
no_repeats (grease ∷ xs) = no_repeats xs
no_repeats (x ∷ xs) = not (has_kind (kind x) xs) && no_repeats xs

-- A pre-shared key is the last extension.
abbrev pub psk_is_last : List TlsExtension → Bool
psk_is_last [] = true
psk_is_last (pre_shared_key ∷ []) = true
psk_is_last (pre_shared_key ∷ x ∷ xs) = false
psk_is_last (x ∷ xs) = psk_is_last xs

abbrev both_or_none : Bool → Bool → Bool
both_or_none true b = b
both_or_none false b = not b

abbrev implies : Bool → Bool → Bool
implies true b = b
implies false b = true

-- A name, groups and signature algorithms; key shares exactly with supported versions; a
-- pre-shared key last, and only with its modes.
unfoldable pub is_well_formed : List TlsExtension → Bool
is_well_formed xs =
    no_repeats xs
    && psk_is_last xs
    && implies (has_kind 5 xs) (has_kind 11 xs)
    && has_kind 0 xs
    && has_kind 12 xs
    && has_kind 16 xs
    && both_or_none (has_kind 14 xs) (has_kind 15 xs)

-- The groups of the key shares, and the groups that are offered.
abbrev pub share_groups : List TlsExtension → List ℕ
share_groups [] = []
share_groups (key_share shares ∷ xs) = map (λ (s : KeyShare). s.group) shares
share_groups (x ∷ xs) = share_groups xs

abbrev pub offered_groups : List TlsExtension → List ℕ
offered_groups [] = []
offered_groups (supported_curves groups ∷ xs) = groups
offered_groups (x ∷ xs) = offered_groups xs

-- The first numbers stand among the second, in the same order.
pub data IsOffered : List ℕ → List ℕ → Type 0 where
  done : {ys : List ℕ} → IsOffered [] ys
  keep : {x y : ℕ} {xs ys : List ℕ} → x ≡ y → IsOffered xs ys → IsOffered (x ∷ xs) (y ∷ ys)
  skip : {y : ℕ} {xs ys : List ℕ} → IsOffered xs ys → IsOffered xs (y ∷ ys)

abbrev pub exception : String
exception = "nike_android_mobile"

abbrev pub IsValid : String → ClientHelloSpec → Type 0
IsValid name spec =
    (is_well_formed spec.extensions ≡ true)
    × ((name ≡ exception)
        ⊎ IsOffered (share_groups spec.extensions) (offered_groups spec.extensions))
