-- ===== src/Bandwidth.antt =====
-- bandwidth/*.go: byte counters of the connections. A counter is the bit pattern of Go's int64, a
-- number below 2 ^ 64; an atomic operation on it is one step, so concurrent connections are a list
-- of operations in some order.
pub mod Counts
mod Tests
use httpkit.Prelude.{ℕ, ◌+◌, ◌%◌, ◌^◌, List, [], ◌∷◌}

abbrev pub int64_mod : ℕ
int64_mod = 2 ^ 64

pub record Tracker : Type 0 where
  pub write_bytes : ℕ
  pub read_bytes : ℕ

abbrev pub new_tracker : Tracker
new_tracker = record { write_bytes = 0; read_bytes = 0 }

unfoldable pub add_write_bytes : ℕ → Tracker → Tracker
add_write_bytes n t = record t { write_bytes = (t.write_bytes + n) % int64_mod }

unfoldable pub add_read_bytes : ℕ → Tracker → Tracker
add_read_bytes n t = record t { read_bytes = (t.read_bytes + n) % int64_mod }

-- The two stores of `Reset`.
unfoldable pub store_write : Tracker → Tracker
store_write t = record t { write_bytes = 0 }

unfoldable pub store_read : Tracker → Tracker
store_read t = record t { read_bytes = 0 }

unfoldable pub reset : Tracker → Tracker
unfolding store_read store_write
reset t = store_read (store_write t)

unfoldable pub get_write_bytes : Tracker → ℕ
get_write_bytes t = t.write_bytes

unfoldable pub get_read_bytes : Tracker → ℕ
get_read_bytes t = t.read_bytes

unfoldable pub get_total_bandwidth : Tracker → ℕ
get_total_bandwidth t = (t.read_bytes + t.write_bytes) % int64_mod

-- What a connection's `Read` or `Write` returns: how many bytes it moved, also where it fails.
pub record Moved {ℓ} (E : Type ℓ) : Type ℓ where
  pub n : ℕ
  pub err : E

-- BTConn.Read and BTConn.Write, over what the wrapped connection returns.
unfoldable pub read {ℓ} : {E : Type ℓ} → Moved E → Tracker → Tracker × Moved E
unfolding add_read_bytes
read m t = (add_read_bytes m.n t, m)

unfoldable pub write {ℓ} : {E : Type ℓ} → Moved E → Tracker → Tracker × Moved E
unfolding add_write_bytes
write m t = (add_write_bytes m.n t, m)

-- The tracker that does nothing.
pub data NopeTracker : Type 0 where
  new_nope_tracker : NopeTracker

unfoldable pub nope_reset : NopeTracker → NopeTracker
nope_reset t = t

unfoldable pub nope_write_bytes : NopeTracker → ℕ
nope_write_bytes t = 0

unfoldable pub nope_read_bytes : NopeTracker → ℕ
nope_read_bytes t = 0

unfoldable pub nope_total_bandwidth : NopeTracker → ℕ
nope_total_bandwidth t = 0

-- One atomic operation of some connection, or of the owner of the tracker.
pub data Op : Type 0 where
  read_moved write_moved : ℕ → Op
  write_stored read_stored : Op

unfoldable pub apply_op : Op → Tracker → Tracker
unfolding add_read_bytes add_write_bytes store_read store_write
apply_op (read_moved n) t = add_read_bytes n t
apply_op (write_moved n) t = add_write_bytes n t
apply_op write_stored t = store_write t
apply_op read_stored t = store_read t

unfoldable pub run : List Op → Tracker → Tracker
unfolding apply_op
run [] t = t
run (op ∷ ops) t = run ops (apply_op op t)
