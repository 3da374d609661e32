-- ===== src/Profiles/WellFormed.antt =====
-- profiles/: what the ClientHello of every profile in the table satisfies, of what RFC 8446 asks.
use httpkit.Prelude.{
  ℕ, ◌≡◌, refl, sym, subst, inl, inr, String, [], ◌∷◌, Option, none, some, Assoc, lookup, drop,
  ◌==◌, eq_iff, Bool-cases, arith,
}
use httpkit.Tls.{ClientHelloSpec}
use httpkit.Profiles.{ClientProfile}
use httpkit.Profiles.Constants.{Constants, HasNoFactories}
use httpkit.Profiles.Table.{mapped_tls_clients}
use httpkit.Profiles.Hello.{is_well_formed, done, keep, IsValid}

abbrev IsFine : String → Option ClientHelloSpec → Type 0
IsFine name none = Unit
IsFine name (some spec) = IsValid name spec

of_none : (name : String) {o : Option ClientHelloSpec} → o ≡ none → IsFine name o
of_none name e = subst (IsFine name) (sym e) tt

infixr 5 ◌and◌
data AllFine : Assoc ClientProfile → Type 0 where
  end : AllFine []
  ◌and◌ :
      {name : String} {p : ClientProfile} {m : Assoc ClientProfile}
      → IsFine name p.client_hello_id.spec_factory
      → AllFine m
      → AllFine ((name, p) ∷ m)

module _ (c : Constants) (h : HasNoFactories c) (x : c.tls_ids.x25519 ≡ 29) where
  -- The profiles of the table from a place on.
  abbrev from : ℕ → Assoc ClientProfile
  from n = drop n (mapped_tls_clients c)

  custom-AllFine : AllFine (from 44)
  unfolding mapped_tls_clients is_well_formed
  custom-AllFine =
      (refl, inr (keep refl done))
      and (refl, inr (keep refl (keep refl done)))
      and (refl, inr (keep refl (keep refl done)))
      and (refl, inl refl)
      and (refl, inr done)
      and (refl, inr (keep x done))
      and (refl, inr (keep x done))
      and (refl, inr (keep x done))
      and (refl, inr (keep refl (keep x done)))
      and (refl, inr (keep refl (keep x done)))
      and (refl, inr (keep refl (keep x done)))
      and (refl, inr (keep refl (keep refl done)))
      and (refl, inr (keep refl (keep refl done)))
      and (refl, inr (keep refl (keep refl done)))
      and (refl, inr done)
      and (refl, inr (keep refl (keep refl done)))
      and (refl, inr done)
      and (refl, inr done)
      and (refl, inr done)
      and (refl, inr done)
      and (refl, inr (keep refl done))
      and (refl, inr (keep refl done))
      and (refl, inr (keep refl done))
      and (refl, inr (keep refl done))
      and end

  firefox-AllFine : AllFine (from 29)
  unfolding mapped_tls_clients is_well_formed
  firefox-AllFine =
      of_none _ h.hello_firefox_102
      and of_none _ h.hello_firefox_104
      and of_none _ h.hello_firefox_105
      and of_none _ h.hello_firefox_106
      and of_none _ h.hello_firefox_108
      and of_none _ h.hello_firefox_110
      and (refl, inr (keep refl (keep refl done)))
      and (refl, inr (keep refl (keep refl done)))
      and (refl, inr (keep refl (keep refl done)))
      and (refl, inr (keep refl (keep refl (keep refl done))))
      and (refl, inr (keep refl (keep refl (keep refl done))))
      and (refl, inr (keep refl (keep refl (keep refl done))))
      and of_none _ h.hello_opera_89
      and of_none _ h.hello_opera_90
      and of_none _ h.hello_opera_91
      and custom-AllFine

  apple-AllFine : AllFine (from 20)
  unfolding mapped_tls_clients is_well_formed
  apple-AllFine =
      of_none _ h.hello_safari_15_6_1
      and of_none _ h.hello_safari_16_0
      and of_none _ h.hello_ipad_15_6
      and of_none _ h.hello_ios_15_5
      and of_none _ h.hello_ios_15_6
      and of_none _ h.hello_ios_16_0
      and (refl, inr (keep refl (keep refl done)))
      and (refl, inr (keep refl (keep refl done)))
      and (refl, inr (keep refl (keep refl done)))
      and firefox-AllFine

  chrome-AllFine : AllFine (from 0)
  unfolding mapped_tls_clients is_well_formed
  chrome-AllFine =
      of_none _ h.hello_chrome_103
      and of_none _ h.hello_chrome_104
      and of_none _ h.hello_chrome_105
      and of_none _ h.hello_chrome_106
      and of_none _ h.hello_chrome_107
      and of_none _ h.hello_chrome_108
      and of_none _ h.hello_chrome_109
      and of_none _ h.hello_chrome_110
      and of_none _ h.hello_chrome_111
      and of_none _ h.hello_chrome_112
      and of_none _ h.hello_chrome_112_psk
      and of_none _ h.hello_chrome_115_pq_psk
      and (refl, inr (keep refl (keep refl done)))
      and (refl, inr (keep refl (keep refl done)))
      and (refl, inr (keep refl (keep refl (keep refl done))))
      and (refl, inr (keep refl (keep refl done)))
      and (refl, inr (keep refl (keep refl (keep refl done))))
      and (refl, inr (keep refl (keep refl (keep refl done))))
      and (refl, inr (keep refl (keep refl (keep refl done))))
      and (refl, inr (keep refl (keep refl (keep refl done))))
      and apple-AllFine

spec_of_lookup :
    (m : Assoc ClientProfile) (name : String) (p : ClientProfile)
    → AllFine m
    → lookup name m ≡ some p
    → IsFine name p.client_hello_id.spec_factory
unfolding lookup
spec_of_lookup [] name p end e = absurd (cc)
spec_of_lookup ((k, v) ∷ m) name p (f and h) e = elim (Bool-cases (k == name)) [
  | inl same ↦
      let q = rw same at e in
      let w : v ≡ p = ground arith in
      subst (λ n. IsFine n p.client_hello_id.spec_factory) ((eq_iff k name).0 same)
        (subst (λ (r : ClientProfile). IsFine k r.client_hello_id.spec_factory) w f)
  | inr other ↦ spec_of_lookup m name p h (rw other at e)
]

-- Where the presets of utls hold no factory and X25519 has its number, every profile of the table
-- that makes its own ClientHello makes a well-formed one: no type of extension twice but for
-- GREASE, the pre-shared key last and with its modes, a name, groups and signature algorithms, key
-- shares exactly with supported versions, and shares for offered groups only, in the same order;
-- this last not for nike_android_mobile.
pub mapped_tls_clients-IsValid :
    (c : Constants) (name : String) (p : ClientProfile) (spec : ClientHelloSpec)
    → HasNoFactories c
    → c.tls_ids.x25519 ≡ 29
    → lookup name (mapped_tls_clients c) ≡ some p
    → p.client_hello_id.spec_factory ≡ some spec
    → IsValid name spec
mapped_tls_clients-IsValid c name p spec h x e s =
    subst (IsFine name) s (spec_of_lookup (mapped_tls_clients c) name p (chrome-AllFine c h x) e)
