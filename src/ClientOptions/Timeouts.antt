-- ===== src/ClientOptions/Timeouts.antt =====
-- client_options.go, WithTimeoutSeconds and WithTimeoutMilliseconds: the product in int64.
use httpkit.Prelude.{ℕ, ◌+◌, ◌-◌, ◌*◌, ◌%◌, ◌^◌, ◌≤◌, ◌<◌, ◌≡◌, ap, ℤ, pos, negsuc, arith}
use httpkit.ClientOptions.{
  HttpClientConfig, HttpClientOption, with_timeout_seconds, with_timeout_milliseconds, of_bits,
  duration, apply_option,
}

of_bits_pos : (m : ℕ) → m < 2 ^ 63 → of_bits (m % 2 ^ 64) ≡ pos m
of_bits_pos m h = ground arith

of_bits_negsuc : (m : ℕ) → m < 2 ^ 63 → of_bits (2 ^ 64 - 1 - m % 2 ^ 64) ≡ negsuc m
of_bits_negsuc m h = ground arith

-- The timeout of a configuration after an option.
abbrev pub timeout_after : HttpClientOption → HttpClientConfig → ℤ
timeout_after o c = (apply_option o c).timeout

-- Where the nanoseconds of n seconds fit in an int64, WithTimeoutSeconds sets n * 10 ^ 9
-- nanoseconds, and WithTimeoutMilliseconds sets n * 10 ^ 6 for n milliseconds; so for negative
-- numbers. For every n from 0 on, also where the product wraps around, n seconds are 1000 * n
-- milliseconds.
pub with_timeout_exact :
    (c : HttpClientConfig) (n m k : ℕ)
    → 1000000000 * n < 2 ^ 63
    → 1000000000 * (m + 1) ≤ 2 ^ 63
    → (timeout_after (with_timeout_seconds (pos n)) c ≡ pos (1000000000 * n))
      × (timeout_after (with_timeout_seconds (negsuc m)) c ≡ negsuc (1000000000 * (m + 1) - 1))
      × (timeout_after (with_timeout_milliseconds (pos n)) c ≡ pos (1000000 * n))
      × (timeout_after (with_timeout_milliseconds (negsuc m)) c ≡ negsuc (1000000 * (m + 1) - 1))
      × (apply_option (with_timeout_seconds (pos k)) c
          ≡ apply_option (with_timeout_milliseconds (pos (1000 * k))) c)
unfolding apply_option duration
with_timeout_exact c n m k h l = (
  of_bits_pos (1000000000 * n) (omega arith),
  of_bits_negsuc (1000000000 * (m + 1) - 1) (omega arith),
  of_bits_pos (1000000 * n) (omega arith),
  of_bits_negsuc (1000000 * (m + 1) - 1) (omega arith),
  ap (λ x. record c { timeout = of_bits (x % 2 ^ 64) }) (omega arith),
)
