-- ===== src/RoundTripper/Threads/Progress.antt =====
-- roundtripper.go as threads: the locks exclude, nothing deadlocks, and every run ends.
use httpkit.Prelude.{
  ℕ, zero, suc, ◌≤◌, ◌<◌, ◌≡◌, refl, Bool, true, false, List, some, inl, inr, arith,
}
use httpkit.Pinner.{HpkpStorage}
use httpkit.Transport.{Transport}
use httpkit.TlsDial.{Protocols}
use httpkit.RoundTripper.Threads.{
  Shared, Pc, entering, dialing, panicked, finished, dialed_tls, closing, closed_idle, move, Step,
  Run, start, later, looking, closing_each, checking,
}
use httpkit.RoundTripper.Threads.Counting.{total, Has, le-total, zero_cases, total-inv, step_of}
use httpkit.RoundTripper.Threads.Invariant.{Step-Fits, Run-Inv}
use httpkit.RoundTripper.Threads.Locks.{holds_transports, in_dial, bit, steps_left, Inv}

-- 1 for a thread that is not over.
abbrev pub is_running : Pc → ℕ
is_running panicked = 0
is_running (finished o) = 0
is_running (dialed_tls d) = 0
is_running (closed_idle ts) = 0
is_running _ = 1

abbrev pub is_panicked : Pc → ℕ
is_panicked panicked = 1
is_panicked _ = 0

abbrev wants_transports : Pc → Bool
wants_transports (entering r) = true
wants_transports closing = true
wants_transports _ = false

abbrev wants_lock : Pc → Bool
wants_lock (dialing _ _ _ _) = true
wants_lock _ = false

-- No thread is inside a lock yet, and both locks are free.
pub record IsFresh (m : Shared) (ts : List Pc) : Type 0 where
  pub transports_unlocked : m.transports_locked ≡ false
  pub unlocked : m.locked ≡ false
  pub outside_transports : total holds_transports ts ≡ 0
  pub outside_dial : total in_dial ts ≡ 0

le_one : (b : Bool) → bit b ≤ 1
le_one false = omega arith
le_one true = omega arith

unlocked_of_bit : (b : Bool) → bit b ≡ 0 → b ≡ false
unlocked_of_bit false e = refl
unlocked_of_bit true e = absurd (omega arith)

module _ (h : HpkpStorage) (pr : Protocols) (storage : h.Storage)
    (closes_idle : Transport → Bool) where
  abbrev CanMove : Shared → Pc → Type 0
  CanMove m p = (m' : Shared) × (p' : Pc) × (move h pr storage closes_idle m p ≡ some (m', p'))

  abbrev CanStep : Shared → List Pc → Type 0
  CanStep m ts = (m' : Shared) × (ts' : List Pc) × Step h pr storage closes_idle m ts m' ts'

  move-total :
      (m : Shared) (p : Pc)
      → is_running p ≡ 1
      → (wants_transports p ≡ true → m.transports_locked ≡ false)
      → (wants_lock p ≡ true → m.locked ≡ false)
      → CanMove m p
  unfolding move
  move-total m (entering r) run t l =
      (record m { transports_locked = true }, checking r, rw (t refl) refl)
  move-total m (dialing caller answers network addr) run t l =
      (record m { locked = true }, looking caller answers network addr, rw (l refl) refl)
  move-total m closing run t l =
      (record m { transports_locked = true }, closing_each, rw (t refl) refl)
  move-total m panicked run t l = absurd (omega arith)
  move-total m (finished o) run t l = absurd (omega arith)
  move-total m (dialed_tls d) run t l = absurd (omega arith)
  move-total m (closed_idle ts) run t l = absurd (omega arith)
  move-total m p run t l = (_, _, refl)

  pub Inv-of_fresh : {m : Shared} {ts : List Pc} → IsFresh m ts → Inv m ts
  Inv-of_fresh f = record {
    transports = rw f.transports_unlocked f.outside_transports;
    dial = rw f.unlocked f.outside_dial;
  }

  -- Of the threads that start outside the locks, in any interleaving at most one is inside
  -- `dialTLS`, where the stashed connections are read and written, and at most one holds the lock
  -- of the transports.
  pub Run-exclusive :
      {m : Shared} {ts : List Pc} {m' : Shared} {ts' : List Pc}
      → IsFresh m ts
      → Run h pr storage closes_idle m ts m' ts'
      → (total in_dial ts' ≤ 1) × (total holds_transports ts' ≤ 1)
  Run-exclusive {m'} fresh r =
      let i = Run-Inv h pr storage closes_idle (Inv-of_fresh fresh) r in
      (rw i.dial (le_one m'.locked), rw i.transports (le_one m'.transports_locked))

  moves : {m : Shared} {ts : List Pc} {p : Pc} → Has p ts → CanMove m p → CanStep m ts
  moves a (m', p', e) = let (ts', s) = step_of h pr storage closes_idle a e in (m', ts', s)

  running_of_holder : (p : Pc) → 0 < holds_transports p → is_panicked p ≡ 0 → is_running p ≡ 1
  running_of_holder p held calm = ground arith

  pub Inv-CanStep :
      {m : Shared} {ts : List Pc}
      → Inv m ts
      → total is_panicked ts ≡ 0
      → 0 < total is_running ts
      → CanStep m ts
  Inv-CanStep {m} {ts} i calm run = elim (zero_cases (total in_dial ts)) [
    | inr inside ↦
        let (p, a, b) = total-inv in_dial ts inside in
        moves a (move-total m p (ground arith) (λ e. ground arith) (λ e. ground arith))
    | inl no_dial ↦
        let free = unlocked_of_bit m.locked (omega (arith, i.dial, no_dial)) in
        elim (zero_cases (total holds_transports ts)) [
          | inr held ↦
              let (p, a, b) = total-inv holds_transports ts held in
              moves a (
                move-total m p (running_of_holder p b (omega (arith, calm, le-total is_panicked a)))
                  (λ e. ground arith) (λ e. free))
          | inl no_holder ↦
              let (p, a, b) = total-inv is_running ts run in
              let unheld =
                unlocked_of_bit m.transports_locked (omega (arith, i.transports, no_holder)) in
              moves a (move-total m p (ground arith) (λ e. unheld) (λ e. free))
        ]
  ]

  -- Where not all is over, and none panicked, a run goes on.
  goes_on :
      {m : Shared} {ts : List Pc} {m' : Shared} {ts' : List Pc}
      → IsFresh m ts
      → Run h pr storage closes_idle m ts m' ts'
      → total is_panicked ts' ≡ 0
      → 0 < total is_running ts'
      → (m'' : Shared) × (ts'' : List Pc) × Step h pr storage closes_idle m' ts' m'' ts''
        × (total steps_left ts'' < total steps_left ts')
  goes_on fresh r calm run =
      let i = Run-Inv h pr storage closes_idle (Inv-of_fresh fresh) r in
      let (m'', ts'', s) = Inv-CanStep i calm run in
      let (p, p', fits, sum) = Step-Fits h pr storage closes_idle i s in
      (m'', ts'', s, omega (arith, fits.steps, sum steps_left))

  Run-trans :
      {m : Shared} {ts : List Pc} {m' : Shared} {ts' : List Pc} {m'' : Shared} {ts'' : List Pc}
      → Run h pr storage closes_idle m ts m' ts'
      → Run h pr storage closes_idle m' ts' m'' ts''
      → Run h pr storage closes_idle m ts m'' ts''
  Run-trans r start = r
  Run-trans r (later s e) = later (Run-trans r s) e

  -- From a state that is reached, a run goes on to the end of all threads, where none can panic.
  module _ {m : Shared} {ts : List Pc} {m' : Shared} {ts' : List Pc} (fresh : IsFresh m ts)
      (calm : (m'' : Shared) (ts'' : List Pc)
        → Run h pr storage closes_idle m ts m'' ts''
        → total is_panicked ts'' ≡ 0)
      (r : Run h pr storage closes_idle m ts m' ts') where
    finishes_in :
        (n : ℕ) {m'' : Shared} {ts'' : List Pc}
        → Run h pr storage closes_idle m' ts' m'' ts''
        → total steps_left ts'' ≤ n
        → (e : Shared) × (es : List Pc) × Run h pr storage closes_idle m' ts' e es
          × (total is_running es ≡ 0)
    finishes_in zero {m''} {ts''} c bound = elim (zero_cases (total is_running ts'')) [
      | inl over ↦ (m'', ts'', c, over)
      | inr run ↦
          let far = Run-trans r c in
          let (e, es, s, less) = goes_on fresh far (calm m'' ts'' far) run in absurd (omega arith)
    ]
    finishes_in (suc n) {m''} {ts''} c bound = elim (zero_cases (total is_running ts'')) [
      | inl over ↦ (m'', ts'', c, over)
      | inr run ↦
          let far = Run-trans r c in
          let (e, es, s, less) = goes_on fresh far (calm m'' ts'' far) run in
          finishes_in n (later c s) (omega arith)
    ]

    pub finishes :
        (e : Shared) × (es : List Pc) × Run h pr storage closes_idle m' ts' e es
        × (total is_running es ≡ 0)
    finishes = finishes_in (total steps_left ts') start (omega arith)
