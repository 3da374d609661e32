-- ===== src/RoundTripper/Threads/Fits.antt =====
-- roundtripper.go as threads: what a step of one thread does to the locks.
use httpkit.Prelude.{
  ℕ, ◌+◌, ◌<◌, ◌≡◌, refl, Bool, true, false, Option, none, some, lookup, arith, String,
}
use httpkit.Pinner.{HpkpStorage, PinError}
use httpkit.Transport.{Transport}
use httpkit.TlsDial.{
  Protocols, RoundTripper, Answers, Conn, DialResult, conn, error, protocol_negotiated, Dialed,
  connected, refused,
}
use httpkit.RoundTripper.{Outcome}
use httpkit.RoundTripper.Threads.{
  Request, addr_of, with_rt, on_lock, of_scheme, after_checking, after_looking, after_pin,
  after_handshake, after_connecting, after_unlocking, of_result, after_leaving, Caller, request,
  transport, Shared, Pc, entering, checking, putting, dialing, looking, connecting, testing,
  building, stashing, unlocking, returned, reading, leaving, panicked, finished, dialed_tls,
  closing, closing_each, closing_left, closed_idle, move,
}
use httpkit.RoundTripper.Threads.Locks.{holds_transports, in_dial, steps_left, Fits, Unlocks}

module _ (h : HpkpStorage) (pr : Protocols) (storage : h.Storage)
    (closes_idle : Transport → Bool) where
  abbrev pub step_of : Shared → Pc → Option (Shared × Pc)
  step_of = move h pr storage closes_idle

  abbrev pub AllFit : Shared → Pc → Option (Shared × Pc) → Type 0
  AllFit m p none = Unit
  AllFit m p (some (m', p')) = Fits m p m' p'

  -- A step that leaves the locks alone.
  keeps :
      (m : Shared) (rt : RoundTripper) (p p' : Pc)
      → holds_transports p' ≡ holds_transports p
      → in_dial p' ≡ in_dial p
      → steps_left p' < steps_left p
      → Fits m p (with_rt m rt) p'
  keeps m rt p p' a b c = record { transports = omega arith; dial = omega arith; steps = c }

  takes_transports :
      (b : Bool) (m : Shared) (p p' : Pc)
      → m.transports_locked ≡ b
      → holds_transports p' ≡ 1 + holds_transports p
      → in_dial p' ≡ in_dial p
      → steps_left p' < steps_left p
      → AllFit m p (on_lock b (record m { transports_locked = true }, p'))
  takes_transports true m p p' free a d c = tt
  takes_transports false m p p' free a d c = record {
    transports = rw free (omega arith);
    dial = omega arith;
    steps = c;
  }

  takes_lock :
      (b : Bool) (m : Shared) (p p' : Pc)
      → m.locked ≡ b
      → holds_transports p' ≡ holds_transports p
      → in_dial p' ≡ 1 + in_dial p
      → steps_left p' < steps_left p
      → AllFit m p (on_lock b (record m { locked = true }, p'))
  takes_lock true m p p' free a d c = tt
  takes_lock false m p p' free a d c = record {
    transports = omega arith;
    dial = rw free (omega arith);
    steps = c;
  }

  leaves_transports :
      (m : Shared) (p p' : Pc)
      → Unlocks m p
      → holds_transports p ≡ 1 + holds_transports p'
      → in_dial p' ≡ in_dial p
      → steps_left p' < steps_left p
      → Fits m p (record m { transports_locked = false }) p'
  leaves_transports m p p' u a d c = record {
    transports = ground arith;
    dial = omega arith;
    steps = c;
  }

  leaves_lock :
      (m : Shared) (p p' : Pc)
      → Unlocks m p
      → holds_transports p' ≡ holds_transports p
      → in_dial p ≡ 1 + in_dial p'
      → steps_left p' < steps_left p
      → Fits m p (record m { locked = false }) p'
  leaves_lock m p p' u a d c = record { transports = omega arith; dial = ground arith; steps = c }

  checking-Fits :
      (m : Shared) (r : Request) (o : Option Transport) → Fits m (checking r) m (after_checking r o)
  unfolding after_checking of_scheme
  checking-Fits m r (some t) = keeps m m.rt _ _ refl refl (omega arith)
  checking-Fits m r none = keeps m m.rt _ _ (ground arith) (ground arith) (ground arith)

  looking-AllFit :
      (m : Shared) (caller : Caller) (answers : Answers) (network addr : String) (o : Option Conn)
      → AllFit m
          (looking caller answers network addr)
          (some (after_looking h pr storage closes_idle m caller answers network addr o))
  unfolding after_looking
  looking-AllFit m caller answers network addr (some c) = keeps m _ _ _ refl refl (omega arith)
  looking-AllFit m caller answers network addr none = keeps m _ _ _ refl refl (omega arith)

  after_pin-Fits :
      (m : Shared) (caller : Caller) (answers : Answers) (network addr : String) (c : Conn)
      (e : Option PinError)
      → Fits m
          (connecting caller answers network addr)
          m
          (after_pin h pr storage closes_idle caller answers addr c e)
  unfolding after_pin
  after_pin-Fits m caller answers network addr c none = keeps m m.rt _ _ refl refl (omega arith)
  after_pin-Fits m caller answers network addr c (some e) = keeps m m.rt _ _ refl refl (omega arith)

  after_handshake-Fits :
      (m : Shared) (caller : Caller) (answers : Answers) (network addr : String) (c : Conn)
      (e : Option ℕ)
      → let r = after_handshake h pr storage closes_idle m caller answers addr c e in
        Fits m (connecting caller answers network addr) r.0 r.1
  unfolding after_handshake
  after_handshake-Fits m caller answers network addr c none =
      after_pin-Fits m caller answers network addr c _
  after_handshake-Fits m caller answers network addr c (some e) =
      keeps m _ _ _ refl refl (omega arith)

  after_connecting-Fits :
      (m : Shared) (caller : Caller) (answers : Answers) (network addr : String) (d : Dialed)
      → let r = after_connecting h pr storage closes_idle m caller answers addr d in
        Fits m (connecting caller answers network addr) r.0 r.1
  unfolding after_connecting
  after_connecting-Fits m caller answers network addr (refused e) =
      keeps m m.rt _ _ refl refl (omega arith)
  after_connecting-Fits m caller answers network addr (connected n) =
      after_handshake-Fits m caller answers network addr _ answers.handshake_error

  unlocking-Fits :
      (m : Shared) (caller : Caller) (addr : String) (d : DialResult)
      → Unlocks m (unlocking caller addr d)
      → Fits m (unlocking caller addr d) (record m { locked = false }) (after_unlocking caller d)
  unfolding after_unlocking
  unlocking-Fits m (request r) addr d u = leaves_lock m _ _ u refl refl (omega arith)
  unlocking-Fits m transport addr d u = leaves_lock m _ _ u refl refl (omega arith)

  returned-Fits :
      (m : Shared) (handler : Bool) (r : Request) (d : DialResult)
      → Fits m (returned r d) m (of_result handler r d)
  unfolding of_result
  returned-Fits m handler r (conn c) = keeps m m.rt _ _ refl refl (omega arith)
  returned-Fits m handler r (error protocol_negotiated) = keeps m m.rt _ _ refl refl (omega arith)
  returned-Fits m handler r (error e) = keeps m m.rt _ _ refl refl (omega arith)

  leaving-Fits :
      (m : Shared) (r : Request) (o : Outcome)
      → Unlocks m (leaving r o)
      → Fits m (leaving r o) (record m { transports_locked = false }) (after_leaving r o)
  unfolding after_leaving
  leaving-Fits m r o u = leaves_transports m _ _ u (ground arith) (ground arith) (ground arith)

  pub move-AllFit : (m : Shared) (p : Pc) → Unlocks m p → AllFit m p (step_of m p)
  unfolding move
  move-AllFit m (entering r) u =
      takes_transports m.transports_locked m _ _ refl refl refl (omega arith)
  move-AllFit m (checking r) u = checking-Fits m r (lookup (addr_of r) m.rt.cached_transports)
  move-AllFit m (putting r) u = keeps m _ _ _ refl refl (omega arith)
  move-AllFit m (dialing caller answers network addr) u =
      takes_lock m.locked m _ _ refl refl refl (omega arith)
  move-AllFit m (looking caller answers network addr) u =
      looking-AllFit m caller answers network addr (lookup addr m.rt.cached_connections)
  move-AllFit m (connecting caller answers network addr) u =
      after_connecting-Fits m caller answers network addr answers.dial
  move-AllFit m (testing caller answers addr c) u =
      keeps m m.rt _ _ (ground arith) (ground arith) (ground arith)
  move-AllFit m (building caller answers addr c) u = keeps m _ _ _ refl refl (omega arith)
  move-AllFit m (stashing caller answers addr c) u = keeps m _ _ _ refl refl (omega arith)
  move-AllFit m (unlocking caller addr d) u = unlocking-Fits m caller addr d u
  move-AllFit m (returned r d) u = returned-Fits m m.rt.has_bad_pin_handler r d
  move-AllFit m (reading r) u = keeps m m.rt _ _ refl refl (omega arith)
  move-AllFit m (leaving r o) u = leaving-Fits m r o u
  move-AllFit m panicked u = tt
  move-AllFit m (finished o) u = tt
  move-AllFit m (dialed_tls d) u = tt
  move-AllFit m closing u = takes_transports m.transports_locked m _ _ refl refl refl (omega arith)
  move-AllFit m closing_each u = keeps m m.rt _ _ refl refl (omega arith)
  move-AllFit m (closing_left ts) u = leaves_transports m _ _ u refl refl (omega arith)
  move-AllFit m (closed_idle ts) u = tt
