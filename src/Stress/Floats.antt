-- ===== src/Stress/Floats.antt =====
-- float64 as the stress suite uses it: an interface, with the facts of IEEE 754 arithmetic that the
-- code relies on. NaN does not arise: latencies and rates come from clocks and counters.
use etcd_infra.Common.{ℕ, ◌≤◌, ◌≡◌, ◌⊎◌, Bool, true, false, not, ℤ}

pub record Floats : Type 1 where
  pub F : Type 0
  -- comparisons
  pub leq : F → F → Bool
  pub leq_total : (a b : F) → (leq a b ≡ true) ⊎ (leq b a ≡ true)
  pub leq_trans : (a b c : F) → leq a b ≡ true → leq b c ≡ true → leq a c ≡ true
  pub zero : F
  pub one : F
  -- arithmetic
  pub add : F → F → F
  -- `x / float64(n)` and `float64(a) / float64(b)`
  pub div_count : F → ℕ → F
  pub ratio : ℕ → ℕ → F
  -- the literals 0.0625, 0.50, 0.95, 0.99 and 0.5
  pub bucket_min : F
  pub p50 : F
  pub p95 : F
  pub p99 : F
  pub half : F
  pub half-gt-zero : leq half zero ≡ false
  -- `int(math.Floor(8 * math.Log2(x / 0.0625)))`, for x above 0.0625
  pub octave_steps : F → ℤ
  -- `int(math.Ceil(p * float64(n)))`, for p above 0; rounding is monotone
  pub ceil_times : F → ℕ → ℕ
  pub ceil_times_mono : (p q : F) (n : ℕ) → leq p q ≡ true → ceil_times p n ≤ ceil_times q n
  pub p50-le-p95 : leq p50 p95 ≡ true
  pub p95-le-p99 : leq p95 p99 ≡ true
  -- the percentiles lie strictly between 0 and 1
  pub p50-gt-zero : leq p50 zero ≡ false
  pub p95-gt-zero : leq p95 zero ≡ false
  pub p99-gt-zero : leq p99 zero ≡ false
  pub p50-lt-one : leq one p50 ≡ false
  pub p95-lt-one : leq one p95 ≡ false
  pub p99-lt-one : leq one p99 ≡ false

abbrev pub lt : (fl : Floats) → fl.F → fl.F → Bool
lt fl a b = not (fl.leq b a)
