-- ===== src/RoundTripper/Threads/Moves.antt =====
-- roundtripper.go as threads: what every step does for the other threads.
use httpkit.Prelude.{
  ◌≡◌, refl, Bool, true, false, inl, inr, String, Option, none, some, lookup, ◌==◌, Bool-cases,
  arith,
}
use httpkit.Text.{to_lower}
use httpkit.Pinner.{HpkpStorage}
use httpkit.Transport.{Transport}
use httpkit.TlsDial.{Protocols, RoundTripper, DialResult, conn, error, protocol_negotiated}
use httpkit.TlsDial.Invariant.{IsStashed}
use httpkit.RoundTripper.{Outcome, round_trip, failed, panic, use_transport}
use httpkit.RoundTripper.Threads.{
  Request, addr_of, of_scheme, after_checking, after_unlocking, of_result, after_leaving, Caller,
  request, transport, Shared, Pc, entering, checking, putting, dialing, looking, connecting,
  testing, building, stashing, unlocking, returned, reading, leaving, panicked, finished,
  dialed_tls, closing, closing_each, closing_left, closed_idle, move,
}
use httpkit.RoundTripper.Threads.Facts.{has_transport, Negotiates, MayUnlock, MayLeave, IsFine}
use httpkit.RoundTripper.Threads.Good.{Good, AllGood, quiet, quiet_lock, adds}
use httpkit.RoundTripper.Threads.Dials.{
  looking-Good, connecting-Good, testing-IsFine, building-Good, stashing-Good,
}

module _ (h : HpkpStorage) (pr : Protocols) (storage : h.Storage)
    (closes_idle : Transport → Bool) where
  of_scheme-IsFine :
      (rt : RoundTripper) (r : Request)
      → has_transport rt (addr_of r) ≡ false
      → IsFine rt (of_scheme r (to_lower r.url.scheme))
  unfolding of_scheme
  of_scheme-IsFine rt r f = elim (Bool-cases (to_lower r.url.scheme == "http")) [
    | inl http ↦ rw http (http, f)
    | inr other ↦ elim (Bool-cases (to_lower r.url.scheme == "https")) [
      | inl https ↦ rw (other, https) (refl, f)
      | inr none_of_both ↦ rw (other, none_of_both) tt
    ]
  ]

  checking-Good :
      (m : Shared) (r : Request) (o : Option Transport)
      → IsStashed m.rt
      → lookup (addr_of r) m.rt.cached_transports ≡ o
      → Good m (checking r) m (after_checking r o)
  unfolding after_checking
  checking-Good m r (some t) s e = quiet h pr storage closes_idle m m _ _ s refl refl (rw e refl)
  checking-Good m r none s e =
      quiet h pr storage closes_idle m m _ _ s refl refl (of_scheme-IsFine m.rt r (rw e refl))

  unlocking-Good :
      (m : Shared) (caller : Caller) (addr : String) (d : DialResult)
      → IsStashed m.rt
      → MayUnlock m.rt caller d
      → Good m (unlocking caller addr d) (record m { locked = false }) (after_unlocking caller d)
  unfolding after_unlocking
  unlocking-Good m (request r) addr d s f = quiet h pr storage closes_idle m _ _ _ s refl refl f
  unlocking-Good m transport addr d s f = quiet h pr storage closes_idle m _ _ _ s refl refl f

  of_result-IsFine :
      (rt : RoundTripper) (handler : Bool) (r : Request) (d : DialResult)
      → Negotiates rt r d
      → IsFine rt (of_result handler r d)
  unfolding of_result
  of_result-IsFine rt handler r (conn c) f = elim f [ ]
  of_result-IsFine rt handler r (error protocol_negotiated) f = f
  of_result-IsFine rt handler r (error e) f = tt

  reading-MayLeave :
      (rt : RoundTripper) (r : Request) (o : Option Transport)
      → lookup (addr_of r) rt.cached_transports ≡ o
      → has_transport rt (addr_of r) ≡ true
      → MayLeave rt r (use_transport o)
  unfolding use_transport
  reading-MayLeave rt r (some t) e f = f
  reading-MayLeave rt r none e f = absurd (cc)

  after_leaving-IsFine :
      (rt : RoundTripper) (r : Request) (o : Outcome)
      → MayLeave rt r o
      → IsFine rt (after_leaving r o)
  unfolding after_leaving
  after_leaving-IsFine rt r (round_trip t) f = ground arith
  after_leaving-IsFine rt r (failed e b) f = tt
  after_leaving-IsFine rt r panic f = elim f [ ]

  pub move-AllGood :
      (m : Shared) (p : Pc)
      → IsStashed m.rt
      → IsFine m.rt p
      → AllGood h pr storage closes_idle m p (move h pr storage closes_idle m p)
  unfolding move
  move-AllGood m (entering r) s f =
      quiet_lock h pr storage closes_idle m.transports_locked m _ _ _ s refl tt
  move-AllGood m (checking r) s f =
      checking-Good m r (lookup (addr_of r) m.rt.cached_transports) s refl
  move-AllGood m (putting r) s f = adds h pr storage closes_idle m _ _ (addr_of r) _ refl s (λ k. k)
  move-AllGood m (dialing caller answers network addr) s f =
      quiet_lock h pr storage closes_idle m.locked m _ _ _ s refl f
  move-AllGood m (looking caller answers network addr) s f =
      looking-Good h pr storage closes_idle m caller answers network addr
        (lookup addr m.rt.cached_connections) s f refl
  move-AllGood m (connecting caller answers network addr) s f =
      connecting-Good h pr storage closes_idle m caller answers network addr s f answers.dial
  move-AllGood m (testing caller answers addr c) s f =
      quiet h pr storage closes_idle m m _ _ s refl refl
        (testing-IsFine h pr storage closes_idle m.rt caller answers addr c f)
  move-AllGood m (building caller answers addr c) s f =
      building-Good h pr storage closes_idle m caller answers addr c _ s f
  move-AllGood m (stashing caller answers addr c) s f =
      stashing-Good h pr storage closes_idle m caller answers addr c s f
  move-AllGood m (unlocking caller addr d) s f = unlocking-Good m caller addr d s f
  move-AllGood m (returned r d) s f =
      quiet h pr storage closes_idle m m _ _ s refl refl
        (of_result-IsFine m.rt m.rt.has_bad_pin_handler r d f)
  move-AllGood m (reading r) s f =
      quiet h pr storage closes_idle m m _ _ s refl refl (reading-MayLeave m.rt r _ refl f)
  move-AllGood m (leaving r o) s f =
      quiet h pr storage closes_idle m _ _ _ s refl refl (after_leaving-IsFine m.rt r o f)
  move-AllGood m closing s f =
      quiet_lock h pr storage closes_idle m.transports_locked m _ _ _ s refl tt
  move-AllGood m closing_each s f = quiet h pr storage closes_idle m m _ _ s refl refl tt
  move-AllGood m (closing_left ts) s f = quiet h pr storage closes_idle m _ _ _ s refl refl tt
  move-AllGood m panicked s f = elim f [ ]
  move-AllGood m (finished o) s f = tt
  move-AllGood m (dialed_tls d) s f = tt
  move-AllGood m (closed_idle ts) s f = tt
