-- ===== src/RoundTripper/Threads.antt =====
-- roundtripper.go: `RoundTrip`, `dialTLS` and `CloseIdleConnections` as threads that share a round
-- tripper, one access to what they share at a time, under the two locks.
pub mod Counting
pub mod Locks
pub mod Fits
pub mod Invariant
pub mod Progress
pub mod Facts
pub mod Good
pub mod Dials
pub mod Moves
pub mod NoPanic
pub mod Alone
pub mod Rest
pub mod Commute
pub mod Linear
pub mod Atomic
pub mod Race
mod Tests
use httpkit.Prelude.{
  ℕ, Bool, true, false, ◌&&◌, String, List, [], ◌∷◌, ◌++◌, Option, none, some, lookup, put, remove,
  is_some, ◌==◌, ◌≡◌, if◌then◌else◌,
}
use httpkit.Text.{to_lower}
use httpkit.Http.{Url}
use httpkit.Pinner.{HpkpStorage, PinError, pin}
use httpkit.Transport.{Transport, http1, build_http1_transport}
use httpkit.TlsDial.{
  RoundTripper, Answers, Protocols, Conn, Dialed, connected, refused, DialResult, conn, error,
  protocol_negotiated, bad_pin, dial_failed, handshake_failed, invalid_url_scheme, dial_context,
  closed, dial_tls_network, u_client, build_transport,
}
use httpkit.RoundTripper.{
  Outcome, round_trip, failed, get_dial_tls_addr, use_transport, is_bad_pin, closers,
}

-- A call of `RoundTrip`, with what the network answers to it; the transport may then dial the
-- request's address over TLS, with other answers.
pub record Request : Type 0 where
  pub url : Url
  pub answers : Answers
  pub later : Option Answers

-- Who calls `dialTLS`: `getTransport`, or a transport.
pub data Caller : Type 0 where
  request : Request → Caller
  transport : Caller

-- Where a thread stands. `testing`, `building` and `stashing` follow a dial that passed its
-- handshake and its pins. A panic in `getTransport` leaves `cachedTransportsLck` locked.
pub data Pc : Type 0 where
  entering : Request → Pc  -- before cachedTransportsLck.Lock()
  checking : Request → Pc  -- before the lookup of cachedTransports
  putting : Request → Pc  -- before the assignment for "http"
  dialing looking connecting : Caller → Answers → (network addr : String) → Pc
  testing building stashing : Caller → Answers → (addr : String) → Conn → Pc
  unlocking : Caller → (addr : String) → DialResult → Pc  -- before rt.Unlock()
  returned : Request → DialResult → Pc  -- the switch of `getTransport`
  reading : Request → Pc  -- before t := rt.cachedTransports[addr]
  leaving : Request → Outcome → Pc  -- before cachedTransportsLck.Unlock()
  panicked : Pc
  finished : Outcome → Pc
  dialed_tls : DialResult → Pc  -- `dialTLS` returned to a transport
  closing : Pc  -- CloseIdleConnections, before its lock
  closing_each : Pc
  closing_left : List Transport → Pc
  closed_idle : List Transport → Pc

pub record Shared : Type 0 where
  pub rt : RoundTripper
  pub transports_locked : Bool  -- cachedTransportsLck
  pub locked : Bool  -- sync.Mutex

-- `Lock()` waits while the lock is taken.
abbrev on_lock : Bool → Shared × Pc → Option (Shared × Pc)
on_lock true r = none
on_lock false r = some r

abbrev addr_of : Request → String
addr_of r = get_dial_tls_addr r.url

-- After `RoundTrip` left its lock, `t.RoundTrip(req)`.
after_leaving : Request → Outcome → Pc
after_leaving r (round_trip t) = elim r.later [
  | some answers ↦ dialing transport answers "tcp" (addr_of r)
  | none ↦ finished (round_trip t)
]
after_leaving r outcome = finished outcome

of_scheme : Request → String → Pc
of_scheme r scheme =
    if scheme == "http"
    then putting r
    else if scheme == "https"
    then dialing (request r) r.answers "tcp" (addr_of r)
    else leaving r (failed (invalid_url_scheme r.url.scheme) false)

after_checking : Request → Option Transport → Pc
unfolding of_scheme to_lower
after_checking r (some t) = reading r
after_checking r none = of_scheme r (to_lower r.url.scheme)

after_unlocking : Caller → DialResult → Pc
after_unlocking (request r) d = returned r d
after_unlocking transport d = dialed_tls d

-- The switch on the error of `dialTLS`.
of_result : Bool → Request → DialResult → Pc
of_result handler r (conn c) = panicked
of_result handler r (error protocol_negotiated) = reading r
of_result handler r (error e) = leaving r (failed e (is_bad_pin e && handler))

abbrev with_rt : Shared → RoundTripper → Shared
with_rt m rt = record m { rt = rt }

module _ (h : HpkpStorage) (p : Protocols) (storage : h.Storage)
    (closes_idle : Transport → Bool) where
  after_pin : Caller → Answers → String → Conn → Option PinError → Pc
  after_pin caller answers addr c none = testing caller answers addr c
  after_pin caller answers addr c (some e) = unlocking caller addr (error (bad_pin e))

  after_handshake : Shared → Caller → Answers → String → Conn → Option ℕ → Shared × Pc
  unfolding after_pin
  after_handshake m caller answers addr c none = (
    m,
    after_pin caller answers addr c (
        pin h storage m.rt.certificate_pins c.config.server_name
          c.connection_state.peer_fingerprints),
  )
  after_handshake m caller answers addr c (some e) = (
    with_rt m (record m.rt { trace = m.rt.trace ++ closed c.raw ∷ [] }),
    unlocking caller addr (error (handshake_failed e)),
  )

  pub after_connecting : Shared → Caller → Answers → String → Dialed → Shared × Pc
  unfolding after_handshake
  after_connecting m caller answers addr (refused e) =
      (m, unlocking caller addr (error (dial_failed e)))
  after_connecting m caller answers addr (connected n) =
      after_handshake m caller answers addr (u_client m.rt answers n addr) answers.handshake_error

  pub after_looking : Shared → Caller → Answers → String → String → Option Conn → Shared × Pc
  unfolding dial_tls_network
  after_looking m caller answers network addr (some c) = (
    with_rt m (record m.rt { cached_connections = remove addr m.rt.cached_connections }),
    unlocking caller addr (conn c),
  )
  after_looking m caller answers network addr none = (
    with_rt m (record m.rt {
      trace = m.rt.trace ++ dial_context (dial_tls_network m.rt.config network) addr ∷ [];
    }),
    connecting caller answers network addr,
  )

  -- The next step of a thread: none where it waits for a lock or is over.
  pub move : Shared → Pc → Option (Shared × Pc)
  unfolding after_leaving after_checking after_unlocking of_result after_looking after_connecting
      use_transport build_transport
  move m (entering r) =
      on_lock m.transports_locked (record m { transports_locked = true }, checking r)
  move m (checking r) = some (m, after_checking r (lookup (addr_of r) m.rt.cached_transports))
  move m (putting r) = some (
    with_rt m (record m.rt {
      cached_transports =
          put (addr_of r) (http1 (build_http1_transport m.rt.config)) m.rt.cached_transports;
    }),
    reading r,
  )
  move m (dialing caller answers network addr) =
      on_lock m.locked (record m { locked = true }, looking caller answers network addr)
  move m (looking caller answers network addr) =
      some (after_looking m caller answers network addr (lookup addr m.rt.cached_connections))
  move m (connecting caller answers network addr) =
      some (after_connecting m caller answers addr answers.dial)
  move m (testing caller answers addr c) = some (
    m,
    if is_some (lookup addr m.rt.cached_transports)
        then unlocking caller addr (conn c)
        else building caller answers addr c,
  )
  move m (building caller answers addr c) = some (
    with_rt m (record m.rt {
      cached_transports =
          put addr (build_transport p answers m.rt.config c.connection_state.negotiated_protocol)
            m.rt.cached_transports;
    }),
    stashing caller answers addr c,
  )
  move m (stashing caller answers addr c) = some (
    with_rt m (record m.rt { cached_connections = put addr c m.rt.cached_connections }),
    unlocking caller addr (error protocol_negotiated),
  )
  move m (unlocking caller addr d) = some (record m { locked = false }, after_unlocking caller d)
  move m (returned r d) = some (m, of_result m.rt.has_bad_pin_handler r d)
  move m (reading r) =
      some (m, leaving r (use_transport (lookup (addr_of r) m.rt.cached_transports)))
  move m (leaving r outcome) =
      some (record m { transports_locked = false }, after_leaving r outcome)
  move m closing = on_lock m.transports_locked (record m { transports_locked = true }, closing_each)
  move m closing_each = some (m, closing_left (closers closes_idle m.rt.cached_transports))
  move m (closing_left ts) = some (record m { transports_locked = false }, closed_idle ts)
  move m _ = none

  -- A step of one of the threads.
  pub data Step (m : Shared) : List Pc → Shared → List Pc → Type 0 where
    here :
        {p p' : Pc} {ts : List Pc} {m' : Shared}
        → move m p ≡ some (m', p')
        → Step m (p ∷ ts) m' (p' ∷ ts)
    there :
        {p : Pc} {ts ts' : List Pc} {m' : Shared} → Step m ts m' ts' → Step m (p ∷ ts) m' (p ∷ ts')

  pub data Run (m : Shared) (ts : List Pc) : Shared → List Pc → Type 0 where
    start : Run m ts m ts
    later :
        {m' m'' : Shared} {ts' ts'' : List Pc}
        → Run m ts m' ts'
        → Step m' ts' m'' ts''
        → Run m ts m'' ts''
