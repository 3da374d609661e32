-- ===== src/RoundTripper/Threads/Good.antt =====
-- roundtripper.go as threads: what a step of one thread does for the others.
use httpkit.Prelude.{
  ◌≡◌, ap, Bool, true, false, String, Option, none, some, put, lookup-put, eq_refl, arith,
}
use httpkit.Pinner.{HpkpStorage}
use httpkit.Transport.{Transport}
use httpkit.TlsDial.{Protocols}
use httpkit.TlsDial.Invariant.{IsStashed}
use httpkit.RoundTripper.Threads.{with_rt, on_lock, Shared, Pc}
use httpkit.RoundTripper.Threads.Facts.{has_transport, IsFine, Grows}
use httpkit.RoundTripper.Threads.Locks.{holds_transports}

-- What a step of a thread does for the others, and where it stands then.
pub record Good (m : Shared) (p : Pc) (m' : Shared) (p' : Pc) : Type 0 where
  pub stashed : IsStashed m'.rt
  pub fine : IsFine m'.rt p'
  pub grows : Grows m.rt m'.rt (holds_transports p)

module _ (h : HpkpStorage) (pr : Protocols) (storage : h.Storage)
    (closes_idle : Transport → Bool) where
  abbrev pub AllGood : Shared → Pc → Option (Shared × Pc) → Type 0
  AllGood m p none = Unit
  AllGood m p (some (m', p')) = Good m p m' p'

  -- Where the maps stay as they are.
  pub quiet :
      (m m' : Shared) (p p' : Pc)
      → IsStashed m.rt
      → m'.rt.cached_connections ≡ m.rt.cached_connections
      → m'.rt.cached_transports ≡ m.rt.cached_transports
      → IsFine m'.rt p'
      → Good m p m' p'
  quiet m m' p p' s c t f = record {
    stashed = λ addr k. rw t (s addr (rw c at k));
    fine = f;
    grows = record { kept = λ addr k. rw t k; same = λ e. t };
  }

  pub quiet_lock :
      (b : Bool) (m m' : Shared) (p p' : Pc)
      → IsStashed m.rt
      → m'.rt ≡ m.rt
      → IsFine m'.rt p'
      → AllGood m p (on_lock b (m', p'))
  quiet_lock true m m' p p' s e f = tt
  quiet_lock false m m' p p' s e f =
      quiet m m' p p' s (ap (λ r. r.cached_connections) e) (ap (λ r. r.cached_transports) e) f

  -- A transport is added by a thread that holds the lock.
  pub adds :
      (m : Shared) (p p' : Pc) (addr : String) (t : Transport)
      → holds_transports p ≡ 1
      → IsStashed m.rt
      → (has_transport (record m.rt { cached_transports = put addr t m.rt.cached_transports }) addr
            ≡ true
          → IsFine (record m.rt { cached_transports = put addr t m.rt.cached_transports }) p')
      → Good m p
          (with_rt m (record m.rt { cached_transports = put addr t m.rt.cached_transports }))
          p'
  adds m p p' addr t held s f = record {
    stashed = λ a k. ground (arith, s a, lookup-put addr a t m.rt.cached_transports);
    fine = f (ground (arith, eq_refl addr, lookup-put addr addr t m.rt.cached_transports));
    grows = record {
      kept = λ a k. ground (arith, lookup-put addr a t m.rt.cached_transports);
      same = λ e. absurd (omega arith);
    };
  }
