-- ===== src/Ja3/Results.antt =====
-- ja3.go: when a chain of results, and a loop over results, ends in a value.
use httpkit.Prelude.{◌≡◌, ◌↔◌, refl, sym, ap, subst, List, [], ◌∷◌, Option, none, some, All}
use httpkit.Ja3.{Result, ok, err, panic, ◌>>=◌, or_error, Ja3Error, map_all}

abbrev pub IsOk {ℓ} : {A : Type ℓ} → Result A → Type ℓ
IsOk {A = A} r = (a : A) × (r ≡ ok a)

abbrev ok_or {ℓ} : {A : Type ℓ} → A → Result A → A
ok_or d (ok a) = a
ok_or d _ = d

pub bind-IsOk_iff {ℓ κ} :
    {A : Type ℓ} {B : Type κ} (r : Result A) (f : A → Result B)
    → IsOk (r >>= f) ↔ ((a : A) × (r ≡ ok a) × IsOk (f a))
bind-IsOk_iff (ok a) f =
    (λ i. (a, refl, i), λ (b, q, i). subst (λ x. IsOk (f x)) (sym (ap (ok_or a) q)) i)
bind-IsOk_iff (err e) f = (λ (b, q). absurd (cc), λ (b, q, _). absurd (cc))
bind-IsOk_iff panic f = (λ (b, q). absurd (cc), λ (b, q, _). absurd (cc))

pub or_error-IsOk_iff {ℓ} :
    {A : Type ℓ} (e : Ja3Error) (o : Option A) → IsOk (or_error e o) ↔ ((a : A) × (o ≡ some a))
or_error-IsOk_iff e none = (λ (b, q). absurd (cc), λ (b, q). absurd (cc))
or_error-IsOk_iff e (some a) = (λ i. (a, refl), λ i. (a, refl))

pub map_all-IsOk_iff :
    {A B : Type 0} (f : A → Result B) (P : A → Type 0)
    → ((x : A) → IsOk (f x) ↔ P x)
    → (xs : List A) → IsOk (map_all f xs) ↔ All P xs
unfolding map_all
map_all-IsOk_iff f P each [] = (λ i. tt, λ a. ([], refl))
map_all-IsOk_iff f P each (x ∷ xs) = (
  λ i.
      let (y, e, j) = (bind-IsOk_iff (f x) _).0 i in
      let (ys, k, _) = (bind-IsOk_iff (map_all f xs) _).0 j in
      ((each x).0 (y, e), (map_all-IsOk_iff f P each xs).0 (ys, k)),
  λ (p, a).
      let (y, e) = (each x).1 p in
      let (ys, k) = (map_all-IsOk_iff f P each xs).1 a in (y ∷ ys, rw e (rw k refl)),
)

pub or_error-eq-ok_iff {ℓ} :
    {A : Type ℓ} (e : Ja3Error) (o : Option A) (a : A) → (or_error e o ≡ ok a) ↔ (o ≡ some a)
or_error-eq-ok_iff e none a = (λ q. absurd (cc), λ q. absurd (cc))
or_error-eq-ok_iff e (some b) a = (λ q. ap (λ r. some (ok_or b r)) q, λ q. cc)
