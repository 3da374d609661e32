-- ===== src/Profiles/Announced.antt =====
-- profiles/ and roundtripper.go, newRoundTripper and dialTLS: the SETTINGS frame and the pseudo
-- headers of the HTTP/2 transports that a profile of the table makes.
use httpkit.Prelude.{
  ℕ, ◌≡◌, refl, subst, inl, inr, Bool, true, false, ◌&&◌, not, String, List, [], ◌∷◌, map, Option,
  none, some, Assoc, lookup, ◌==◌, Bool-cases, if◌then◌else◌, suc, arith, eqb, length, length,
}
use native.Mathlib.Decide.{ℕ_discrete}
use httpkit.Tls.{SettingId, ClientHelloId, ClientHelloSpec}
use httpkit.Transport.{
  TransportOptions, InnerTransport, settings_or_default, settings_order_of, pseudo_order_of,
  build_http2_transport,
}
use httpkit.Pinner.{HpkpStorage}
use httpkit.TlsDial.{TrackerKind, RoundTripper}
use httpkit.RoundTripper.{new_round_tripper}
use httpkit.Profiles.{ClientProfile}
use httpkit.Profiles.Constants.{Constants}
use httpkit.Profiles.Table.{mapped_tls_clients}

SettingId-discrete : Discrete SettingId
SettingId-discrete = hlevel (ℕ_discrete)

order-discrete : Discrete (List SettingId)
order-discrete = hlevel (ℕ_discrete)

abbrev to_bool {ℓ} : {A : Type ℓ} → Dec A → Bool
to_bool (yes _) = true
to_bool (no _) = false

same : SettingId → SettingId → Bool
unfolding SettingId-discrete
same a b = to_bool (SettingId-discrete a b)

is_among : SettingId → List SettingId → Bool
unfolding same
is_among a [] = false
is_among a (b ∷ bs) = let rest = is_among a bs in if same a b then true else rest

pub has_no_twice : List SettingId → Bool
unfolding is_among
has_no_twice [] = true
has_no_twice (a ∷ rest) = not (is_among a rest) && has_no_twice rest

times : String → List String → ℕ
times s [] = 0
times s (x ∷ xs) = let rest = times s xs in if s == x then suc rest else rest

-- Four pseudo headers, and each of RFC 9113's once.
pub is_complete : List String → Bool
unfolding times
is_complete pseudo =
    eqb (length pseudo) 4
    && eqb (times ":method" pseudo) 1
    && eqb (times ":authority" pseudo) 1
    && eqb (times ":scheme" pseudo) 1
    && eqb (times ":path" pseudo) 1

-- The order names the keys of the settings, each once, and the pseudo headers are complete.
abbrev pub Announces : List (SettingId × ℕ) → List SettingId → List String → Type 0
Announces settings order pseudo =
    (order ≡ map (λ e. e.0) settings) × (has_no_twice order ≡ true) × (is_complete pseudo ≡ true)

-- The tests of a profile: its settings and its pseudo headers are given, and `Announces` holds.
given : Option (List (SettingId × ℕ)) → List SettingId → Option (List String) → Bool
unfolding order-discrete has_no_twice is_complete
given (some settings) order (some pseudo) =
    to_bool (order-discrete order (map (λ e. e.0) settings))
    && has_no_twice order
    && is_complete pseudo
given _ _ _ = false

all_given : Assoc ClientProfile → Bool
unfolding given
all_given [] = true
all_given ((_, p) ∷ m) = given p.settings p.settings_order p.pseudo_header_order && all_given m

mapped_tls_clients-all_given : (c : Constants) → all_given (mapped_tls_clients c) ≡ true
unfolding mapped_tls_clients all_given ℕ_discrete
mapped_tls_clients-all_given c = refl

both : (a b : Bool) → a && b ≡ true → (a ≡ true) × (b ≡ true)
both true b e = (refl, e)
both false b e = cc

of_to_bool {ℓ} : {A : Type ℓ} (d : Dec A) → to_bool d ≡ true → A
of_to_bool (yes a) e = a
of_to_bool (no _) e = absurd (cc)

given_of_lookup :
    (m : Assoc ClientProfile) (name : String) (p : ClientProfile)
    → all_given m ≡ true
    → lookup name m ≡ some p
    → given p.settings p.settings_order p.pseudo_header_order ≡ true
unfolding lookup all_given
given_of_lookup [] name p h e = cc
given_of_lookup ((k, v) ∷ m) name p h e = elim (Bool-cases (k == name)) [
  | inl hit ↦
      let w : v ≡ p = let q = rw hit at e in ground arith in
      subst {A = ClientProfile}
        (λ r. given r.settings r.settings_order r.pseudo_header_order ≡ true) w ((both _ _ h).0)
  | inr miss ↦ given_of_lookup m name p (both _ _ h).1 (rw miss at e)
]

-- What the built transport has of a profile that passes the test.
Announces-of_given :
    (range : List SettingId → List SettingId) (settings : Option (List (SettingId × ℕ)))
    (order : List SettingId) (pseudo : Option (List String))
    → given settings order pseudo ≡ true
    → Announces
        (settings_or_default settings)
        (settings_order_of range settings order)
        (pseudo_order_of pseudo)
unfolding given
Announces-of_given range (some settings) order (some pseudo) h =
    let same_keys = order-discrete order (map (λ e. e.0) settings) in
    let (first, last) = both (to_bool same_keys && has_no_twice order) (is_complete pseudo) h in
    let (keys, distinct) = both (to_bool same_keys) (has_no_twice order) first in
    (of_to_bool same_keys keys, distinct, last)
Announces-of_given range (some settings) order none h = cc
Announces-of_given range none order pseudo h = cc

module _ (utls_id_to_spec to_spec : ClientHelloId → Option ClientHelloSpec) (h : HpkpStorage)
    (storage : h.Storage) (cache : ℕ) (options : Option TransportOptions) (overwrite : String)
    (skip random force : Bool) (pins : Assoc (List String)) (handler no6 no4 : Bool)
    (tracker : TrackerKind) where
  abbrev round_tripper_of : ClientProfile → RoundTripper
  round_tripper_of p =
      (new_round_tripper utls_id_to_spec to_spec h storage cache p options overwrite skip random
        force pins handler no6 no4 tracker).1

  -- The HTTP/2 transport that a round tripper of any profile of the table builds announces every
  -- setting of the profile exactly once, and sends the four pseudo headers, each once; whatever
  -- the other arguments, and the order in which the runtime goes through a map.
  pub build_http2_transport-Announces :
      (c : Constants) (name : String) (p : ClientProfile) (range : List SettingId → List SettingId)
      (get_t1 : Option InnerTransport)
      → lookup name (mapped_tls_clients c) ≡ some p
      → let t = build_http2_transport range get_t1 (round_tripper_of p).config in
        Announces t.settings t.settings_order t.pseudo_header_order
  unfolding build_http2_transport new_round_tripper
  build_http2_transport-Announces c name p range get_t1 e =
      Announces-of_given range p.settings p.settings_order p.pseudo_header_order
        (given_of_lookup (mapped_tls_clients c) name p (mapped_tls_clients-all_given c) e)
