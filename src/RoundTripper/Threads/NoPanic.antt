-- ===== src/RoundTripper/Threads/NoPanic.antt =====
-- roundtripper.go as threads: no thread panics, and all end.
use httpkit.Prelude.{ℕ, ◌+◌, ◌≤◌, ◌≡◌, refl, subst, Bool, false, List, [], ◌∷◌, lookup, arith}
use httpkit.Pinner.{HpkpStorage}
use httpkit.Transport.{Transport}
use httpkit.TlsDial.{Protocols, RoundTripper}
use httpkit.TlsDial.Invariant.{IsStashed}
use httpkit.RoundTripper.{panic}
use httpkit.RoundTripper.NoPanic.{IsNew}
use httpkit.RoundTripper.Threads.{
  Request, Shared, Pc, entering, panicked, finished, dialed_tls, closing, Step, here, there, Run,
  start, later,
}
use httpkit.RoundTripper.Threads.Counting.{total, Has, first, rest}
use httpkit.RoundTripper.Threads.Locks.{holds_transports, in_dial}
use httpkit.RoundTripper.Threads.Progress.{
  is_running, is_panicked, IsFresh, Run-exclusive, finishes,
}
use httpkit.RoundTripper.Threads.Facts.{IsServed, IsFine, Grows, Grows-IsFine}
use httpkit.RoundTripper.Threads.Good.{AllGood}
use httpkit.RoundTripper.Threads.Moves.{move-AllGood}

abbrev pub AllFine : RoundTripper → List Pc → Type 0
AllFine rt [] = Unit
AllFine rt (p ∷ ts) = IsFine rt p × AllFine rt ts

Grows-AllFine :
    (rt rt' : RoundTripper) (held : ℕ) (ts : List Pc)
    → Grows rt rt' held
    → total holds_transports ts + held ≤ 1
    → AllFine rt ts
    → AllFine rt' ts
unfolding total
Grows-AllFine rt rt' held [] g few f = tt
Grows-AllFine rt rt' held (p ∷ ts) g few (f, fs) =
    (Grows-IsFine rt rt' held g p (omega arith) f, Grows-AllFine rt rt' held ts g (omega arith) fs)

-- The threads before anything ran: requests, and calls of CloseIdleConnections.
pub data AreStarts : List Pc → Type 0 where
  no_thread : AreStarts []
  a_request : (r : Request) {ts : List Pc} → AreStarts ts → AreStarts (entering r ∷ ts)
  a_close : {ts : List Pc} → AreStarts ts → AreStarts (closing ∷ ts)

pub record IsStart (m : Shared) (ts : List Pc) : Type 0 where
  pub new : IsNew m.rt
  pub transports_unlocked : m.transports_locked ≡ false
  pub unlocked : m.locked ≡ false
  pub threads : AreStarts ts

-- No panic, and no "protocol negotiated" for a transport.
abbrev pub IsCalm : Pc → Type 0
IsCalm panicked = ⊥
IsCalm (finished panic) = ⊥
IsCalm (dialed_tls d) = IsServed d
IsCalm _ = Unit

outside : (ts : List Pc) → AreStarts ts → (total holds_transports ts ≡ 0) × (total in_dial ts ≡ 0)
unfolding total
outside [] no_thread = (refl, refl)
outside (p ∷ ts) (a_request r a) = let (t, d) = outside ts a in (omega arith, omega arith)
outside (p ∷ ts) (a_close a) = let (t, d) = outside ts a in (omega arith, omega arith)

AreStarts-AllFine : (rt : RoundTripper) (ts : List Pc) → AreStarts ts → AllFine rt ts
AreStarts-AllFine rt [] no_thread = tt
AreStarts-AllFine rt (p ∷ ts) (a_request r a) = (tt, AreStarts-AllFine rt ts a)
AreStarts-AllFine rt (p ∷ ts) (a_close a) = (tt, AreStarts-AllFine rt ts a)

calm_here : (rt : RoundTripper) (p : Pc) → IsFine rt p → is_panicked p ≡ 0
calm_here rt panicked f = elim f [ ]
calm_here rt p f = refl

not_panicked : (rt : RoundTripper) (ts : List Pc) → AllFine rt ts → total is_panicked ts ≡ 0
unfolding total
not_panicked rt [] f = refl
not_panicked rt (p ∷ ts) (f, fs) =
    let here_not : is_panicked p ≡ 0 = calm_here rt p f in omega (arith, not_panicked rt ts fs)

IsCalm-here : (rt : RoundTripper) (p : Pc) → IsFine rt p → IsCalm p
IsCalm-here rt panicked f = f
IsCalm-here rt (finished panic) f = f
IsCalm-here rt (dialed_tls d) f = f
IsCalm-here rt p f = tt

IsCalm-of_fine : (rt : RoundTripper) (ts : List Pc) (p : Pc) → AllFine rt ts → Has p ts → IsCalm p
IsCalm-of_fine rt [] p f a = elim a [ ]
IsCalm-of_fine rt (q ∷ ts) p (f, fs) first = IsCalm-here rt q f
IsCalm-of_fine rt (q ∷ ts) p (f, fs) (rest a) = IsCalm-of_fine rt ts p fs a

IsStashed-of_new : (rt : RoundTripper) → IsNew rt → IsStashed rt
unfolding lookup
IsStashed-of_new rt (e, _) a k = let k' = rw e at k in cc

module _ (h : HpkpStorage) (pr : Protocols) (storage : h.Storage)
    (closes_idle : Transport → Bool) where
  Step-AllFine :
      {m : Shared} {ts : List Pc} {m' : Shared} {ts' : List Pc}
      → Step h pr storage closes_idle m ts m' ts'
      → IsStashed m.rt
      → AllFine m.rt ts
      → total holds_transports ts ≤ 1
      → IsStashed m'.rt × AllFine m'.rt ts' × Grows m.rt m'.rt (total holds_transports ts)
  unfolding total
  Step-AllFine {m} (here {p} {p'} {ts} {m'} e) s (f, fs) few =
      let good =
        subst (AllGood h pr storage closes_idle m p) e
          (move-AllGood h pr storage closes_idle m p s f) in
      (
        good.stashed,
        (good.fine, Grows-AllFine m.rt m'.rt (holds_transports p) ts good.grows (omega arith) fs),
        record { kept = good.grows.kept; same = λ none_held. good.grows.same (omega arith) },
      )
  Step-AllFine {m} {m' = m'} (there {p} {ts} st) s (f, fs) few =
      let (s', fs', g) = Step-AllFine st s fs (omega arith) in
      (
        s',
        (Grows-IsFine m.rt m'.rt (total holds_transports ts) g p (omega arith) f, fs'),
        record { kept = g.kept; same = λ none_held. g.same (omega arith) },
      )

  pub fresh : {m : Shared} {ts : List Pc} → IsStart m ts → IsFresh m ts
  fresh {ts} i = record {
    transports_unlocked = i.transports_unlocked;
    unlocked = i.unlocked;
    outside_transports = (outside ts i.threads).0;
    outside_dial = (outside ts i.threads).1;
  }

  pub Run-AllFine :
      {m : Shared} {ts : List Pc} {m' : Shared} {ts' : List Pc}
      → IsStart m ts
      → Run h pr storage closes_idle m ts m' ts'
      → IsStashed m'.rt × AllFine m'.rt ts'
  Run-AllFine {m} {ts} i start = (IsStashed-of_new m.rt i.new, AreStarts-AllFine m.rt ts i.threads)
  Run-AllFine i (later r st) =
      let (s, f) = Run-AllFine i r in
      let (s', f', g) =
        Step-AllFine st s f (Run-exclusive h pr storage closes_idle (fresh i) r).1 in
      (s', f')

  -- However the requests of a new round tripper interleave, no thread panics, neither on a
  -- connection that comes back while the transport is being determined nor on a transport that is
  -- not there, and no transport is told "protocol negotiated" by its dial.
  pub Run-IsCalm :
      {m : Shared} {ts : List Pc} {m' : Shared} {ts' : List Pc} (p : Pc)
      → IsStart m ts
      → Run h pr storage closes_idle m ts m' ts'
      → Has p ts'
      → IsCalm p
  Run-IsCalm {m'} {ts'} p i r a = IsCalm-of_fine m'.rt ts' p (Run-AllFine i r).1 a

  -- From every state that they reach, the requests of a new round tripper can all run to their
  -- ends: the two locks never deadlock.
  pub Run-Ended :
      {m : Shared} {ts : List Pc} {m' : Shared} {ts' : List Pc}
      → IsStart m ts
      → Run h pr storage closes_idle m ts m' ts'
      → (m'' : Shared) × (ts'' : List Pc) × Run h pr storage closes_idle m' ts' m'' ts''
        × (total is_running ts'' ≡ 0)
  Run-Ended {m'} {ts'} i r =
      finishes h pr storage closes_idle (fresh i)
        (λ e es s. not_panicked e.rt es (Run-AllFine i s).1) r
