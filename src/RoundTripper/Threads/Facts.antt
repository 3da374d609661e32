-- ===== src/RoundTripper/Threads/Facts.antt =====
-- roundtripper.go as threads: what each thread may rely on while the others run.
use httpkit.Prelude.{ℕ, ◌+◌, ◌≤◌, ◌≡◌, Bool, true, false, String, lookup, is_some, ◌==◌, arith}
use httpkit.Text.{to_lower}
use httpkit.TlsDial.{RoundTripper, DialResult, conn, error, protocol_negotiated}
use httpkit.RoundTripper.{Outcome, round_trip, failed, panic}
use httpkit.RoundTripper.Threads.{
  Request, addr_of, Caller, request, transport, Pc, putting, dialing, looking, connecting, testing,
  building, stashing, unlocking, returned, reading, leaving, panicked, finished, dialed_tls,
}
use httpkit.RoundTripper.Threads.Locks.{of_caller, holds_transports}

abbrev pub has_transport : RoundTripper → String → Bool
has_transport rt addr = is_some (lookup addr rt.cached_transports)

-- A request dials its own address, which has no transport yet; a transport dials one that has.
abbrev pub MayDial : RoundTripper → Caller → String → Type 0
MayDial rt (request r) addr = (addr ≡ addr_of r) × (has_transport rt addr ≡ false)
MayDial rt transport addr = has_transport rt addr ≡ true

-- Only a request makes a transport.
abbrev pub MayBuild : RoundTripper → Caller → String → Type 0
MayBuild rt (request r) addr = (addr ≡ addr_of r) × (has_transport rt addr ≡ false)
MayBuild rt transport addr = ⊥

abbrev pub MayStash : RoundTripper → Caller → String → Type 0
MayStash rt (request r) addr = (addr ≡ addr_of r) × (has_transport rt addr ≡ true)
MayStash rt transport addr = ⊥

-- A dial for a request ends in an error, and in "protocol negotiated" only with a transport.
abbrev pub Negotiates : RoundTripper → Request → DialResult → Type 0
Negotiates rt r (conn c) = ⊥
Negotiates rt r (error protocol_negotiated) = has_transport rt (addr_of r) ≡ true
Negotiates rt r (error e) = Unit

-- A transport's dial never ends in "protocol negotiated".
abbrev pub IsServed : DialResult → Type 0
IsServed (error protocol_negotiated) = ⊥
IsServed d = Unit

abbrev pub MayUnlock : RoundTripper → Caller → DialResult → Type 0
MayUnlock rt (request r) d = Negotiates rt r d
MayUnlock rt transport d = IsServed d

abbrev pub MayLeave : RoundTripper → Request → Outcome → Type 0
MayLeave rt r (round_trip t) = has_transport rt (addr_of r) ≡ true
MayLeave rt r (failed e b) = Unit
MayLeave rt r panic = ⊥

-- The transport of a plain HTTP request is put where there is none.
abbrev pub MayPut : RoundTripper → Request → Type 0
MayPut rt r = ((to_lower r.url.scheme == "http") ≡ true) × (has_transport rt (addr_of r) ≡ false)

-- What holds of the shared state wherever a thread stands.
abbrev pub IsFine : RoundTripper → Pc → Type 0
IsFine rt (putting r) = MayPut rt r
IsFine rt (dialing caller _ _ addr) = MayDial rt caller addr
IsFine rt (looking caller _ _ addr) = MayDial rt caller addr
IsFine rt (connecting caller _ _ addr) = MayDial rt caller addr
IsFine rt (testing caller _ addr _) = MayDial rt caller addr
IsFine rt (building caller _ addr _) = MayBuild rt caller addr
IsFine rt (stashing caller _ addr _) = MayStash rt caller addr
IsFine rt (unlocking caller _ d) = MayUnlock rt caller d
IsFine rt (returned r d) = Negotiates rt r d
IsFine rt (reading r) = has_transport rt (addr_of r) ≡ true
IsFine rt (leaving r o) = MayLeave rt r o
IsFine rt panicked = ⊥
IsFine rt (finished panic) = ⊥
IsFine rt (dialed_tls d) = IsServed d
IsFine rt _ = Unit

-- Only a thread that holds the lock of the transports adds any, and none is lost.
pub record Grows (rt rt' : RoundTripper) (held : ℕ) : Type 0 where
  pub kept : (addr : String) → has_transport rt addr ≡ true → has_transport rt' addr ≡ true
  pub same : (held ≡ 0) → rt'.cached_transports ≡ rt.cached_transports

module _ (rt rt' : RoundTripper) (held : ℕ) (g : Grows rt rt' held) where
  Grows-MayDial :
      (caller : Caller) (addr : String)
      → of_caller caller + held ≤ 1
      → MayDial rt caller addr
      → MayDial rt' caller addr
  Grows-MayDial (request r) addr few (e, f) = (e, rw (g.same (omega arith)) f)
  Grows-MayDial transport addr few f = g.kept addr f

  Grows-Negotiates : (r : Request) (d : DialResult) → Negotiates rt r d → Negotiates rt' r d
  Grows-Negotiates r (conn _) f = elim f [ ]
  Grows-Negotiates r (error protocol_negotiated) f = g.kept (addr_of r) f
  Grows-Negotiates r (error _) f = f

  pub Grows-IsFine : (p : Pc) → holds_transports p + held ≤ 1 → IsFine rt p → IsFine rt' p
  Grows-IsFine (putting r) few (e, f) = (e, rw (g.same (omega arith)) f)
  Grows-IsFine (dialing caller _ _ addr) few f = Grows-MayDial caller addr few f
  Grows-IsFine (looking caller _ _ addr) few f = Grows-MayDial caller addr few f
  Grows-IsFine (connecting caller _ _ addr) few f = Grows-MayDial caller addr few f
  Grows-IsFine (testing caller _ addr _) few f = Grows-MayDial caller addr few f
  Grows-IsFine (building (request r) _ addr _) few (e, f) = (e, rw (g.same (omega arith)) f)
  Grows-IsFine (stashing (request r) _ addr _) few (e, f) = (e, g.kept addr f)
  Grows-IsFine (unlocking (request r) _ d) few f = Grows-Negotiates r d f
  Grows-IsFine (unlocking transport _ d) few f = f
  Grows-IsFine (returned r d) few f = Grows-Negotiates r d f
  Grows-IsFine (reading r) few f = g.kept (addr_of r) f
  Grows-IsFine (leaving r (round_trip t)) few f = g.kept (addr_of r) f
  Grows-IsFine (leaving r (failed _ _)) few f = f
  Grows-IsFine p few f = f
