-- ===== src/RoundTripper/Threads/Counting.antt =====
-- roundtripper.go as threads: sums over the threads, and how a step changes them.
use httpkit.Prelude.{
  ℕ, ◌+◌, ◌≤◌, ◌<◌, ◌≡◌, refl, Bool, ◌⊎◌, inl, inr, zero, suc, List, [], ◌∷◌, some, arith,
}
use httpkit.Pinner.{HpkpStorage}
use httpkit.Transport.{Transport}
use httpkit.TlsDial.{Protocols}
use httpkit.RoundTripper.Threads.{Shared, Pc, move, Step, here, there}

unfoldable pub total : (Pc → ℕ) → List Pc → ℕ
total f [] = 0
total f (p ∷ ts) = f p + total f ts

pub data Has (p : Pc) : List Pc → Type 0 where
  first : {ts : List Pc} → Has p (p ∷ ts)
  rest : {q : Pc} {ts : List Pc} → Has p ts → Has p (q ∷ ts)

pub le-total : (f : Pc → ℕ) {p : Pc} {ts : List Pc} → Has p ts → f p ≤ total f ts
unfolding total
le-total f first = omega arith
le-total f (rest a) = omega (arith, le-total f a)

pub zero_cases : (n : ℕ) → (n ≡ 0) ⊎ (0 < n)
zero_cases zero = inl refl
zero_cases (suc n) = inr (omega arith)

pub total-inv : (f : Pc → ℕ) (ts : List Pc) → 0 < total f ts → (p : Pc) × Has p ts × (0 < f p)
unfolding total
total-inv f [] pos = absurd (omega arith)
total-inv f (p ∷ ts) pos = elim (zero_cases (f p)) [
  | inl e ↦ let (q, a, b) = total-inv f ts (omega arith) in (q, rest a, b)
  | inr more ↦ (p, first, more)
]

-- A thread after a step: the one that stepped from `p` to `p'`, or one beside it.
abbrev pub IsBeside : Pc → Pc → List Pc → Pc → Type 0
IsBeside p p' ts q = (q ≡ p') ⊎ (Has q ts × ((f : Pc → ℕ) → (f q + f p ≤ total f ts)))

IsBeside-first : (p p' : Pc) (ts : List Pc) (q : Pc) → Has q (p' ∷ ts) → IsBeside p p' (p ∷ ts) q
unfolding total
IsBeside-first p p' ts q first = inl refl
IsBeside-first p p' ts q (rest a) = inr (rest a, λ f. omega (arith, le-total f a))

IsBeside-rest :
    (p p' r : Pc) (ts ts' : List Pc)
    → Has p ts
    → ((q : Pc) → Has q ts' → IsBeside p p' ts q)
    → (q : Pc) → Has q (r ∷ ts')
    → IsBeside p p' (r ∷ ts) q
unfolding total
IsBeside-rest p p' r ts ts' has others q first = inr (first, λ f. omega (arith, le-total f has))
IsBeside-rest p p' r ts ts' has others q (rest a) = elim (others q a) [
  | inl same ↦ inl same
  | inr (b, few) ↦ inr (rest b, λ f. omega (arith, few f))
]

module _ (h : HpkpStorage) (pr : Protocols) (storage : h.Storage)
    (closes_idle : Transport → Bool) where
  -- The thread that stepped, before and after, the change of every sum, and where the others stand.
  pub stepped :
      {m m' : Shared} {ts ts' : List Pc}
      → Step h pr storage closes_idle m ts m' ts'
      → (p p' : Pc) × (move h pr storage closes_idle m p ≡ some (m', p'))
        × Has p ts
        × ((f : Pc → ℕ) → (total f ts' + f p ≡ total f ts + f p'))
        × ((q : Pc) → Has q ts' → IsBeside p p' ts q)
  unfolding total
  stepped (here {p} {p'} {ts} e) =
      (p, p', e, first, λ f. omega arith, λ q a. IsBeside-first p p' ts q a)
  stepped (there {p = r} {ts} {ts'} s) =
      let (p, p', e, a, t, others) = stepped s in
      (p, p', e, rest a, λ f. omega (arith, t f), λ q b. IsBeside-rest p p' r ts ts' a others q b)

  -- Where a thread can step, so can the threads.
  pub step_of :
      {m m' : Shared} {p p' : Pc} {ts : List Pc}
      → Has p ts
      → move h pr storage closes_idle m p ≡ some (m', p')
      → (ts' : List Pc) × Step h pr storage closes_idle m ts m' ts'
  step_of {p'} first e = (_, here e)
  step_of (rest a) e = let (ts', s) = step_of a e in (_, there s)
