-- ===== src/Ja3/Lists.antt =====
-- ja3.go, GetSpecFactoryFromJa3String: the loops over names.
use httpkit.Prelude.{
  ◌≡◌, ◌↔◌, refl, true, String, List, [], ◌∷◌, none, lookup, arith, eq_iff, ◌==◌, Option-cases, inl,
  inr, Bool-cases, is_some,
}
use httpkit.Text.{parse_uint}
use httpkit.Tls.{TlsIds}
use httpkit.Mapper.{kdf_ids, aead_ids}
use httpkit.Ja3.{
  Result, Ja3Error, ok, err, panic, ◌>>=◌, map_all, map_hpke, hpke_suite, CandidateCipherSuites,
  invalid_kdf_id,
}

module _ {A B : Type 0} (f : A → Result B) where
  -- The second list holds the results of the first, in order.
  pub data Each : List A → List B → Type 0 where
    done : Each [] []
    more :
        {x : A} {y : B} {xs : List A} {ys : List B}
        → f x ≡ ok y
        → Each xs ys
        → Each (x ∷ xs) (y ∷ ys)

  -- A list stopped at its first element that fails.
  pub data Stops (e : Ja3Error) : List A → Type 0 where
    here : {x : A} {xs : List A} → f x ≡ err e → Stops e (x ∷ xs)
    later : {x : A} {y : B} {xs : List A} → f x ≡ ok y → Stops e xs → Stops e (x ∷ xs)

module _ {A B : Type 0} (f : A → Result B) where
  map_all_complete : {xs : List A} {ys : List B} → Each f xs ys → map_all f xs ≡ ok ys
  unfolding map_all
  map_all_complete done = refl
  map_all_complete (more p h) = rw p (rw (map_all_complete h) refl)

  map_all-Stops : {e : Ja3Error} {xs : List A} → Stops f e xs → map_all f xs ≡ err e
  unfolding map_all
  map_all-Stops (here p) = rw p refl
  map_all-Stops (later p s) = rw p (rw (map_all-Stops s) refl)

  -- How a call of the loop ends.
  data Ends (xs : List A) (r : Result (List B)) : Type 0 where
    ends_ok : (ys : List B) → r ≡ ok ys → Each f xs ys → Ends xs r
    ends_err : (e : Ja3Error) → r ≡ err e → Stops f e xs → Ends xs r
    ends_panic : r ≡ panic → Ends xs r

  after :
      (x : A) (xs : List A) (r : Result B) (rs : Result (List B))
      → f x ≡ r
      → Ends xs rs
      → Ends (x ∷ xs) (r >>= λ y. rs >>= λ ys. ok (y ∷ ys))
  after x xs (ok y) rs p (ends_ok ys q h) = ends_ok (y ∷ ys) (rw q refl) (more p h)
  after x xs (ok y) rs p (ends_err e q h) = ends_err e (rw q refl) (later p h)
  after x xs (ok y) rs p (ends_panic q) = ends_panic (rw q refl)
  after x xs (err e) rs p h = ends_err e refl (here p)
  after x xs panic rs p h = ends_panic refl

  map_all-Ends : (xs : List A) → Ends xs (map_all f xs)
  unfolding map_all
  map_all-Ends [] = ends_ok [] refl done
  map_all-Ends (x ∷ xs) = after x xs (f x) (map_all f xs) refl (map_all-Ends xs)

  ok_of_Ends :
      (xs : List A) (r : Result (List B)) (ys : List B) → Ends xs r → r ≡ ok ys → Each f xs ys
  ok_of_Ends xs r ys (ends_ok zs q h) e = let same : zs ≡ ys = ground arith in rw (← same) h
  ok_of_Ends xs r ys (ends_err x q h) e = cc
  ok_of_Ends xs r ys (ends_panic q) e = cc

  err_of_Ends :
      (xs : List A) (r : Result (List B)) (e : Ja3Error) → Ends xs r → r ≡ err e → Stops f e xs
  err_of_Ends xs r e (ends_ok zs q h) k = cc
  err_of_Ends xs r e (ends_err x q h) k = let same : x ≡ e = ground arith in rw (← same) h
  err_of_Ends xs r e (ends_panic q) k = cc

  -- The loop succeeds exactly with the results of all elements, in order, and fails exactly with
  -- the error of the first element that fails.
  pub map_all_iff :
      (xs : List A) (ys : List B) (e : Ja3Error)
      → ((map_all f xs ≡ ok ys) ↔ Each f xs ys) × ((map_all f xs ≡ err e) ↔ Stops f e xs)
  map_all_iff xs ys e = (
    (ok_of_Ends xs (map_all f xs) ys (map_all-Ends xs), map_all_complete),
    (err_of_Ends xs (map_all f xs) e (map_all-Ends xs), map_all-Stops),
  )

kdf_name-not_hex :
    (ids : TlsIds) (name : String)
    → is_some (lookup name (kdf_ids ids)) ≡ true
    → parse_uint 16 16 name ≡ none
unfolding lookup kdf_ids parse_uint
kdf_name-not_hex ids name h = elim (Bool-cases ("HKDF_SHA256" == name)) [
  | inl e ↦ rw (← (eq_iff _ _).0 e) refl
  | inr n ↦ elim (Bool-cases ("HKDF_SHA384" == name)) [
    | inl e ↦ rw (← (eq_iff _ _).0 e) refl
    | inr m ↦ elim (Bool-cases ("HKDF_SHA512" == name)) [
      | inl e ↦ rw (← (eq_iff _ _).0 e) refl
      | inr k ↦ let h' = rw k at (rw m at (rw n at h)) in cc
    ]
  ]
]

-- A key derivation function given by its name beside an AEAD that is not, such as one given in
-- hexadecimal, is always refused.
pub map_hpke_mixed :
    (ids : TlsIds) (c : CandidateCipherSuites)
    → is_some (lookup c.kdf_id (kdf_ids ids)) ≡ true
    → lookup c.aead_id (aead_ids ids) ≡ none
    → map_hpke ids c ≡ err (invalid_kdf_id c.kdf_id)
unfolding map_hpke
map_hpke_mixed ids c known unknown = elim (Option-cases (lookup c.kdf_id (kdf_ids ids))) [
  | inl missing ↦ cc
  | inr (k, found) ↦
      rw (found, hpke_suite)
        (rw (unknown, hpke_suite) (rw (kdf_name-not_hex ids c.kdf_id known) refl))
]
