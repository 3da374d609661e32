-- ===== src/Bandwidth/Tests.antt =====
-- bandwidth/*.go at concrete counters: the theorems' instances, and runs.
use httpkit.Prelude.{◌+◌, ◌%◌, ◌≡◌, refl, List, [], ◌∷◌, arith}
use httpkit.Bandwidth.{
  int64_mod, new_tracker, Op, read_moved, write_moved, read_stored, run, get_read_bytes,
  get_write_bytes, get_total_bandwidth,
}
use httpkit.Bandwidth.Counts.{
  read_count, write_count, run_counts, done, left, right, is_read, is_write, run-Interleave,
}

abbrev traffic : List Op
traffic = read_moved 3 ∷ write_moved 4 ∷ read_stored ∷ read_moved 5 ∷ []

total : get_total_bandwidth (run traffic new_tracker) ≡ 9
unfolding get_total_bandwidth run
total = refl

run_counts_example :
    (get_read_bytes (run traffic new_tracker) ≡ read_count 0 traffic % int64_mod)
    × (get_write_bytes (run traffic new_tracker) ≡ write_count 0 traffic % int64_mod)
    × (get_total_bandwidth (run traffic new_tracker)
        ≡ (read_count 0 traffic + write_count 0 traffic) % int64_mod)
run_counts_example = run_counts new_tracker traffic (omega arith) (omega arith)

run-Interleave_example :
    run (write_moved 4 ∷ read_moved 3 ∷ []) new_tracker
    ≡ run (write_moved 4 ∷ []) (run (read_moved 3 ∷ []) new_tracker)
run-Interleave_example = run-Interleave new_tracker (right (left done)) (is_read, tt) (is_write, tt)
