-- ===== src/Bandwidth/Counts.antt =====
-- bandwidth/tracker.go: what the counters hold after any interleaving of connections.
use httpkit.Prelude.{ℕ, ◌+◌, ◌<◌, ◌%◌, ◌≡◌, refl, List, [], ◌∷◌, arith, All, ap, ◌∙◌}
use httpkit.Bandwidth.{
  int64_mod, Tracker, Op, read_moved, write_moved, write_stored, read_stored, apply_op, run,
  get_read_bytes, get_write_bytes, get_total_bandwidth,
}

-- The bytes that the operations after the last store of 0 count, on top of what was there.
pub read_count : ℕ → List Op → ℕ
read_count n [] = n
read_count n (read_moved k ∷ ops) = read_count (n + k) ops
read_count n (read_stored ∷ ops) = read_count 0 ops
read_count n (_ ∷ ops) = read_count n ops

pub write_count : ℕ → List Op → ℕ
write_count n [] = n
write_count n (write_moved k ∷ ops) = write_count (n + k) ops
write_count n (write_stored ∷ ops) = write_count 0 ops
write_count n (_ ∷ ops) = write_count n ops

run-read_bytes :
    (n : ℕ) (ops : List Op) (t : Tracker)
    → t.read_bytes ≡ n % int64_mod
    → (run ops t).read_bytes ≡ read_count n ops % int64_mod
unfolding run read_count
run-read_bytes n [] t e = e
run-read_bytes n (read_moved k ∷ ops) t e = run-read_bytes (n + k) ops _ (omega arith)
run-read_bytes n (write_moved k ∷ ops) t e = run-read_bytes n ops _ e
run-read_bytes n (write_stored ∷ ops) t e = run-read_bytes n ops _ e
run-read_bytes n (read_stored ∷ ops) t e = run-read_bytes 0 ops _ refl

run-write_bytes :
    (n : ℕ) (ops : List Op) (t : Tracker)
    → t.write_bytes ≡ n % int64_mod
    → (run ops t).write_bytes ≡ write_count n ops % int64_mod
unfolding run write_count
run-write_bytes n [] t e = e
run-write_bytes n (write_moved k ∷ ops) t e = run-write_bytes (n + k) ops _ (omega arith)
run-write_bytes n (read_moved k ∷ ops) t e = run-write_bytes n ops _ e
run-write_bytes n (read_stored ∷ ops) t e = run-write_bytes n ops _ e
run-write_bytes n (write_stored ∷ ops) t e = run-write_bytes 0 ops _ refl

-- After any sequence of atomic operations the three getters return, modulo 2 ^ 64, the bytes read,
-- written and moved since the last store of 0 in the counter.
pub run_counts :
    (t : Tracker) (ops : List Op)
    → t.read_bytes < int64_mod
    → t.write_bytes < int64_mod
    → (get_read_bytes (run ops t) ≡ read_count t.read_bytes ops % int64_mod)
      × (get_write_bytes (run ops t) ≡ write_count t.write_bytes ops % int64_mod)
      × (get_total_bandwidth (run ops t)
          ≡ (read_count t.read_bytes ops + write_count t.write_bytes ops) % int64_mod)
unfolding get_read_bytes get_write_bytes get_total_bandwidth
run_counts t ops hr hw =
    let r = run-read_bytes t.read_bytes ops t (omega arith) in
    let w = run-write_bytes t.write_bytes ops t (omega arith) in (r, w, omega arith)

-- The orders in which the operations of two connections can come.
pub data Interleave : List Op → List Op → List Op → Type 0 where
  done : Interleave [] [] []
  left : {op : Op} {xs ys zs : List Op} → Interleave xs ys zs → Interleave (op ∷ xs) ys (op ∷ zs)
  right : {op : Op} {xs ys zs : List Op} → Interleave xs ys zs → Interleave xs (op ∷ ys) (op ∷ zs)

-- The operations of a connection: reads and writes.
pub data IsMove : Op → Type 0 where
  is_read : {n : ℕ} → IsMove (read_moved n)
  is_write : {n : ℕ} → IsMove (write_moved n)

apply_op_comm :
    {a b : Op}
    → IsMove a
    → IsMove b
    → (t : Tracker) → apply_op a (apply_op b t) ≡ apply_op b (apply_op a t)
unfolding apply_op
apply_op_comm (is_read {n}) (is_read {n = m}) t =
    ap (λ x. record { write_bytes = t.write_bytes; read_bytes = x }) (omega arith)
apply_op_comm is_read is_write t = refl
apply_op_comm is_write is_read t = refl
apply_op_comm (is_write {n}) (is_write {n = m}) t =
    ap (λ x. record { write_bytes = x; read_bytes = t.read_bytes }) (omega arith)

run-apply_op :
    {op : Op} (xs : List Op) (t : Tracker)
    → IsMove op
    → All IsMove xs
    → run xs (apply_op op t) ≡ apply_op op (run xs t)
unfolding run
run-apply_op [] t m h = refl
run-apply_op {op} (x ∷ xs) t m (p, h) =
    rw (apply_op_comm p m t) (run-apply_op xs (apply_op x t) m h)

-- However the reads and writes of two connections interleave, the counters end as if one had
-- followed the other.
pub run-Interleave :
    {xs ys zs : List Op} (t : Tracker)
    → Interleave xs ys zs
    → All IsMove xs
    → All IsMove ys
    → run zs t ≡ run ys (run xs t)
unfolding run
run-Interleave t done h k = refl
run-Interleave t (left {op} i) (p, h) k = run-Interleave (apply_op op t) i h k
run-Interleave t (right {op} {xs} {ys} {zs} i) h (q, k) =
    run-Interleave (apply_op op t) i h k ∙ ap (run ys) (run-apply_op xs t q h)
