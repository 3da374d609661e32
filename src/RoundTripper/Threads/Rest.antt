-- ===== src/RoundTripper/Threads/Rest.antt =====
-- roundtripper.go, dialTLS, as threads: what is left to do of a critical section.
use httpkit.Prelude.{
  ℕ, ◌≡◌, refl, Bool, true, false, String, Option, none, some, lookup, put, arith, if◌then◌else◌,
}
use httpkit.Pinner.{HpkpStorage, PinError}
use httpkit.Transport.{Transport, http1, build_http1_transport}
use httpkit.TlsDial.{
  Protocols, RoundTripper, Answers, Conn, DialResult, conn, error, protocol_negotiated, Dialed,
  connected, refused, build_transport, finish, check_pin, handshake, after_dial, dial_tls,
}
use httpkit.RoundTripper.{Outcome}
use httpkit.RoundTripper.Threads.{
  Request, addr_of, on_lock, of_scheme, after_checking, after_looking, after_pin, after_handshake,
  after_connecting, after_unlocking, of_result, after_leaving, Caller, request, transport, Shared,
  Pc, entering, checking, putting, dialing, looking, connecting, testing, building, stashing,
  unlocking, returned, reading, leaving, panicked, finished, dialed_tls, closing, closing_each,
  closing_left, closed_idle, move,
}
use httpkit.RoundTripper.Threads.Locks.{in_dial}
use httpkit.RoundTripper.Threads.Facts.{has_transport}

-- The assignment of `getTransport` for "http".
abbrev pub put_http : RoundTripper → Request → RoundTripper
put_http rt r = record rt {
  cached_transports =
      put (addr_of r) (http1 (build_http1_transport rt.config)) rt.cached_transports;
}

-- 1 for a thread that has the result of its dial.
abbrev pub has_result : Pc → ℕ
has_result (returned r d) = 1
has_result (dialed_tls d) = 1
has_result _ = 0

module _ (h : HpkpStorage) (pr : Protocols) (storage : h.Storage)
    (closes_idle : Transport → Bool) where
  -- The round tripper once the thread has left its critical section, and the result of the dial.
  unfoldable pub rest : RoundTripper → Pc → RoundTripper × DialResult
  rest rt (looking caller answers network addr) = dial_tls h pr storage rt answers network addr
  rest rt (connecting caller answers network addr) =
      after_dial h pr storage rt answers addr answers.dial
  rest rt (testing caller answers addr c) = finish h pr storage rt answers c addr
  rest rt (building caller answers addr c) = (
    record rt {
      cached_transports =
          put addr (build_transport pr answers rt.config c.connection_state.negotiated_protocol)
            rt.cached_transports;
      cached_connections = put addr c rt.cached_connections;
    },
    error protocol_negotiated,
  )
  rest rt (stashing caller answers addr c) = (
    record rt { cached_connections = put addr c rt.cached_connections },
    error protocol_negotiated,
  )
  rest rt (unlocking caller addr d) = (rt, d)
  rest rt (returned r d) = (rt, d)
  rest rt (dialed_tls d) = (rt, d)
  rest rt p = (rt, error protocol_negotiated)

  -- What a step of a thread does to what is left.
  pub data Shape (m : Shared) (p : Pc) (m' : Shared) (p' : Pc) : Type 0 where
    outside : in_dial p ≡ 0 → in_dial p' ≡ 0 → has_result p' ≡ 0 → m'.rt ≡ m.rt → Shape m p m' p'
    puts :
        (r : Request)
        → p ≡ putting r
        → in_dial p' ≡ 0
        → has_result p' ≡ 0
        → m'.rt ≡ put_http m.rt r
        → Shape m p m' p'
    enters :
        (answers : Answers) (network addr : String)
        → in_dial p ≡ 0
        → in_dial p' ≡ 1
        → m'.rt ≡ m.rt
        → rest m'.rt p' ≡ dial_tls h pr storage m.rt answers network addr
        → Shape m p m' p'
    inside : in_dial p ≡ 1 → in_dial p' ≡ 1 → rest m'.rt p' ≡ rest m.rt p → Shape m p m' p'
    leaves :
        in_dial p ≡ 1
        → in_dial p' ≡ 0
        → m'.rt ≡ (rest m.rt p).0
        → (rest m'.rt p').1 ≡ (rest m.rt p).1
        → Shape m p m' p'

  abbrev pub AllShape : Shared → Pc → Option (Shared × Pc) → Type 0
  AllShape m p none = Unit
  AllShape m p (some (m', p')) = Shape m p m' p'

  locks_transports :
      (b : Bool) (m m' : Shared) (p p' : Pc)
      → in_dial p ≡ 0
      → in_dial p' ≡ 0
      → has_result p' ≡ 0
      → m'.rt ≡ m.rt
      → AllShape m p (on_lock b (m', p'))
  locks_transports true m m' p p' a c n e = tt
  locks_transports false m m' p p' a c n e = outside a c n e

  dialing-Shape :
      (b : Bool) (m : Shared) (caller : Caller) (answers : Answers) (network addr : String)
      → AllShape m
          (dialing caller answers network addr)
          (on_lock b (record m { locked = true }, looking caller answers network addr))
  unfolding rest
  dialing-Shape true m caller answers network addr = tt
  dialing-Shape false m caller answers network addr =
      enters answers network addr refl refl refl refl

  looking-Shape :
      (m : Shared) (caller : Caller) (answers : Answers) (network addr : String) (o : Option Conn)
      → lookup addr m.rt.cached_connections ≡ o
      → let r = after_looking h pr storage closes_idle m caller answers network addr o in
        Shape m (looking caller answers network addr) r.0 r.1
  unfolding after_looking rest dial_tls
  looking-Shape m caller answers network addr (some c) e =
      inside refl refl (rw (e, rest, dial_tls) refl)
  looking-Shape m caller answers network addr none e =
      inside refl refl (rw (e, rest, dial_tls) refl)

  module _ (m : Shared) (caller : Caller) (answers : Answers) (network addr : String) where
    pin_rest :
        (c : Conn) (e : Option PinError)
        → let p' = after_pin h pr storage closes_idle caller answers addr c e in
          (in_dial p' ≡ 1) × (rest m.rt p' ≡ check_pin h pr storage m.rt answers c addr e)
    unfolding after_pin check_pin rest
    pin_rest c none = (refl, refl)
    pin_rest c (some e) = (refl, refl)

    handshake_rest :
        (c : Conn) (e : Option ℕ)
        → let r = after_handshake h pr storage closes_idle m caller answers addr c e in
          (in_dial r.1 ≡ 1) × (rest r.0.rt r.1 ≡ handshake h pr storage m.rt answers c addr e)
    unfolding after_handshake handshake rest
    handshake_rest c none = pin_rest c _
    handshake_rest c (some e) = (refl, refl)

    dial_rest :
        (d : Dialed)
        → let r = after_connecting h pr storage closes_idle m caller answers addr d in
          (in_dial r.1 ≡ 1) × (rest r.0.rt r.1 ≡ after_dial h pr storage m.rt answers addr d)
    unfolding after_connecting after_dial rest
    dial_rest (refused e) = (refl, refl)
    dial_rest (connected n) = handshake_rest _ answers.handshake_error

  testing-Shape :
      (m : Shared) (caller : Caller) (answers : Answers) (addr : String) (c : Conn) (b : Bool)
      → has_transport m.rt addr ≡ b
      → Shape m
          (testing caller answers addr c)
          m
          (if b then unlocking caller addr (conn c) else building caller answers addr c)
  unfolding rest finish
  testing-Shape m caller answers addr c true e = inside refl refl (rw (e, rest, finish) refl)
  testing-Shape m caller answers addr c false e = inside refl refl (rw (e, rest, finish) refl)

  checked :
      (r : Request) (o : Option Transport)
      → (in_dial (after_checking r o) ≡ 0) × (has_result (after_checking r o) ≡ 0)
  unfolding after_checking of_scheme
  checked r (some t) = (refl, refl)
  checked r none = (ground arith, ground arith)

  answered :
      (handler : Bool) (r : Request) (d : DialResult)
      → (in_dial (of_result handler r d) ≡ 0) × (has_result (of_result handler r d) ≡ 0)
  unfolding of_result
  answered handler r (conn c) = (refl, refl)
  answered handler r (error protocol_negotiated) = (refl, refl)
  answered handler r (error e) = (refl, refl)

  left :
      (r : Request) (o : Outcome)
      → (in_dial (after_leaving r o) ≡ 0) × (has_result (after_leaving r o) ≡ 0)
  unfolding after_leaving
  left r o = (ground arith, ground arith)

  pub move-AllShape : (m : Shared) (p : Pc) → AllShape m p (move h pr storage closes_idle m p)
  unfolding move rest after_unlocking
  move-AllShape m (entering r) = locks_transports m.transports_locked m _ _ _ refl refl refl refl
  move-AllShape m (checking r) = let (at, none_yet) = checked r _ in outside refl at none_yet refl
  move-AllShape m (putting r) = puts r refl refl refl refl
  move-AllShape m (dialing caller answers network addr) =
      dialing-Shape m.locked m caller answers network addr
  move-AllShape m (looking caller answers network addr) =
      looking-Shape m caller answers network addr (lookup addr m.rt.cached_connections) refl
  move-AllShape m (connecting caller answers network addr) =
      let (at, same) = dial_rest m caller answers network addr answers.dial in inside refl at same
  move-AllShape m (testing caller answers addr c) =
      testing-Shape m caller answers addr c (has_transport m.rt addr) refl
  move-AllShape m (building caller answers addr c) = inside refl refl refl
  move-AllShape m (stashing caller answers addr c) = inside refl refl refl
  move-AllShape m (unlocking (request r) addr d) = leaves refl refl refl refl
  move-AllShape m (unlocking transport addr d) = leaves refl refl refl refl
  move-AllShape m (returned r d) =
      let (at, none_yet) = answered _ r d in outside refl at none_yet refl
  move-AllShape m (reading r) = outside refl refl refl refl
  move-AllShape m (leaving r o) = let (at, none_yet) = left r o in outside refl at none_yet refl
  move-AllShape m closing = locks_transports m.transports_locked m _ _ _ refl refl refl refl
  move-AllShape m closing_each = outside refl refl refl refl
  move-AllShape m (closing_left ts) = outside refl refl refl refl
  move-AllShape m panicked = tt
  move-AllShape m (finished o) = tt
  move-AllShape m (dialed_tls d) = tt
  move-AllShape m (closed_idle ts) = tt
