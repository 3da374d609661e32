-- ===== src/RoundTripper/Threads/Locks.antt =====
-- roundtripper.go as threads: who holds which lock, and what is left of a thread.
use httpkit.Prelude.{ℕ, ◌+◌, ◌≤◌, ◌<◌, ◌≡◌, Bool, true, false, List}
use httpkit.RoundTripper.Threads.{
  Caller, request, transport, Shared, Pc, entering, checking, putting, dialing, looking, connecting,
  testing, building, stashing, unlocking, returned, reading, leaving, panicked, finished,
  dialed_tls, closing, closing_each, closing_left, closed_idle,
}
use httpkit.RoundTripper.Threads.Counting.{total}

abbrev pub of_caller : Caller → ℕ
of_caller (request r) = 1
of_caller transport = 0

-- 1 for a thread that holds `cachedTransportsLck`.
abbrev pub holds_transports : Pc → ℕ
holds_transports (entering r) = 0
holds_transports (checking r) = 1
holds_transports (putting r) = 1
holds_transports (dialing caller _ _ _) = of_caller caller
holds_transports (looking caller _ _ _) = of_caller caller
holds_transports (connecting caller _ _ _) = of_caller caller
holds_transports (testing caller _ _ _) = of_caller caller
holds_transports (building caller _ _ _) = of_caller caller
holds_transports (stashing caller _ _ _) = of_caller caller
holds_transports (unlocking caller _ _) = of_caller caller
holds_transports (returned r d) = 1
holds_transports (reading r) = 1
holds_transports (leaving r o) = 1
holds_transports panicked = 1
holds_transports (finished o) = 0
holds_transports (dialed_tls d) = 0
holds_transports closing = 0
holds_transports closing_each = 1
holds_transports (closing_left _) = 1
holds_transports (closed_idle _) = 0

-- 1 for a thread inside `dialTLS`, which holds the round tripper's own lock.
abbrev pub in_dial : Pc → ℕ
in_dial (looking _ _ _ _) = 1
in_dial (connecting _ _ _ _) = 1
in_dial (testing _ _ _ _) = 1
in_dial (building _ _ _ _) = 1
in_dial (stashing _ _ _ _) = 1
in_dial (unlocking _ _ _) = 1
in_dial _ = 0

abbrev pub bit : Bool → ℕ
bit false = 0
bit true = 1

-- What is left of a thread's own steps, at most.
abbrev pub after_dial_steps : Caller → ℕ
after_dial_steps (request r) = 10
after_dial_steps transport = 0

abbrev pub steps_left : Pc → ℕ
steps_left (entering r) = 19
steps_left (checking r) = 18
steps_left (putting r) = 10
steps_left (dialing caller _ _ _) = 7 + after_dial_steps caller
steps_left (looking caller _ _ _) = 6 + after_dial_steps caller
steps_left (connecting caller _ _ _) = 5 + after_dial_steps caller
steps_left (testing caller _ _ _) = 4 + after_dial_steps caller
steps_left (building caller _ _ _) = 3 + after_dial_steps caller
steps_left (stashing caller _ _ _) = 2 + after_dial_steps caller
steps_left (unlocking caller _ _) = 1 + after_dial_steps caller
steps_left (returned r d) = 10
steps_left (reading r) = 9
steps_left (leaving r o) = 8
steps_left closing = 3
steps_left closing_each = 2
steps_left (closing_left _) = 1
steps_left _ = 0

-- What a step of a thread does to the locks, and to the steps that are left.
pub record Fits (m : Shared) (p : Pc) (m' : Shared) (p' : Pc) : Type 0 where
  pub transports :
      holds_transports p' + bit m.transports_locked ≡ holds_transports p + bit m'.transports_locked
  pub dial : in_dial p' + bit m.locked ≡ in_dial p + bit m'.locked
  pub steps : steps_left p' < steps_left p

abbrev pub Unlocks : Shared → Pc → Type 0
Unlocks m p = (holds_transports p ≤ bit m.transports_locked) × (in_dial p ≤ bit m.locked)

-- A lock is taken exactly where one thread holds it.
pub record Inv (m : Shared) (ts : List Pc) : Type 0 where
  pub transports : total holds_transports ts ≡ bit m.transports_locked
  pub dial : total in_dial ts ≡ bit m.locked
