-- ===== src/RoundTripper/Threads/Invariant.antt =====
-- roundtripper.go as threads: the locks and their holders in every run.
use httpkit.Prelude.{ℕ, ◌+◌, ◌≡◌, Bool, List, arith, subst}
use httpkit.Pinner.{HpkpStorage}
use httpkit.Transport.{Transport}
use httpkit.TlsDial.{Protocols}
use httpkit.RoundTripper.Threads.{Shared, Pc, Step, Run, start, later}
use httpkit.RoundTripper.Threads.Counting.{total, le-total, stepped}
use httpkit.RoundTripper.Threads.Locks.{holds_transports, in_dial, Fits, Unlocks, Inv}
use httpkit.RoundTripper.Threads.Fits.{AllFit, move-AllFit}

module _ (h : HpkpStorage) (pr : Protocols) (storage : h.Storage)
    (closes_idle : Transport → Bool) where
  -- A step of the threads, with what it does to the locks.
  pub Step-Fits :
      {m m' : Shared} {ts ts' : List Pc}
      → Inv m ts
      → Step h pr storage closes_idle m ts m' ts'
      → (p p' : Pc) × Fits m p m' p' × ((f : Pc → ℕ) → (total f ts' + f p ≡ total f ts + f p'))
  Step-Fits {m} i s =
      let (p, p', e, has, sum, others) = stepped h pr storage closes_idle s in
      let holds : Unlocks m p = (
        omega (arith, i.transports, le-total holds_transports has),
        omega (arith, i.dial, le-total in_dial has),
      ) in
      (
        p,
        p',
        subst (AllFit h pr storage closes_idle m p) e
            (move-AllFit h pr storage closes_idle m p holds),
        sum,
      )

  Step-Inv :
      {m m' : Shared} {ts ts' : List Pc}
      → Inv m ts
      → Step h pr storage closes_idle m ts m' ts'
      → Inv m' ts'
  Step-Inv i s =
      let (p, p', fits, sum) = Step-Fits i s in
      record {
        transports = omega (arith, i.transports, fits.transports, sum holds_transports);
        dial = omega (arith, i.dial, fits.dial, sum in_dial);
      }

  pub Run-Inv :
      {m : Shared} {ts : List Pc} {m' : Shared} {ts' : List Pc}
      → Inv m ts
      → Run h pr storage closes_idle m ts m' ts'
      → Inv m' ts'
  Run-Inv i start = i
  Run-Inv i (later r s) = Step-Inv (Run-Inv i r) s
