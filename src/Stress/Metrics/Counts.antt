-- ===== src/Stress/Metrics/Counts.antt =====
-- metrics.go: the counters, the histogram and the reservoir over a series of calls.
use etcd_infra.Common.{
  ℕ, zero, suc, ◌+◌, ◌^◌, ◌≤◌, ◌<◌, ◌≡◌, refl, ap, List, [], ◌∷◌, min, arith, Text, length, set,
  replicate, length-set, length-append, length-replicate,
}
use etcd_infra.Stress.Floats.{Floats}
use etcd_infra.Stress.Metrics.{
  MetricsCollector, new_metrics_collector, max_latency_samples, latency_bucket_count,
  latency_bucket_index, get_or, add64, word64, bump, count_error, sample, record_latency,
  record_success, record_failure, record_bytes_written, record_bytes_read, reset, zero_all,
}

abbrev pub sum : List ℕ → ℕ
sum [] = 0
sum (x ∷ xs) = x + sum xs

abbrev pub sum_counts : List (Text × ℕ) → ℕ
sum_counts [] = 0
sum_counts ((k, n) ∷ errors) = n + sum_counts errors

sum-set :
    (xs : List ℕ) (i : ℕ)
    → i < length xs
    → suc (sum xs) < word64
    → sum (set xs i (add64 (get_or xs i 0) 1)) ≡ suc (sum xs)
sum-set [] i h w = absurd (omega arith)
sum-set (x ∷ xs) zero h w = omega arith
sum-set (x ∷ xs) (suc i) h w = omega (arith, sum-set xs i (omega arith) (omega arith))

sum-replicate : (n : ℕ) → sum (replicate n 0) ≡ 0
sum-replicate zero = refl
sum-replicate (suc n) = omega (arith, sum-replicate n)

module _ (fl : Floats) where
  open fl use {F}

  latency_bucket_index-lt : (x : F) → latency_bucket_index fl x < latency_bucket_count
  unfolding latency_bucket_index
  latency_bucket_index-lt x = ground arith

  count_error-sum :
      (e : Text) (errors : List (Text × ℕ))
      → suc (sum_counts errors) < word64
      → sum_counts (count_error fl e errors) ≡ suc (sum_counts errors)
  unfolding count_error
  count_error-sum e [] w = refl
  count_error-sum e ((k, n) ∷ errors) w = ground (arith, count_error-sum e errors)

  length-sample :
      (drawn : ℕ) (x : F) (xs : List F) (n : ℕ)
      → length xs ≡ min n max_latency_samples
      → length (sample fl drawn x xs) ≡ min (suc n) max_latency_samples
  unfolding sample
  length-sample drawn x xs n h = ground (arith, length-append xs (x ∷ []), length-set xs drawn x)

  -- After `n` recorded requests.
  pub record Counted (n : ℕ) (m : MetricsCollector fl) : Type 0 where
    pub total : m.total_samples ≡ n
    pub requests : m.success_count + m.failure_count ≡ n
    pub bucket_count : length m.latency_buckets ≡ latency_bucket_count
    pub histogram : sum m.latency_buckets ≡ n
    pub failures : sum_counts m.errors ≡ m.failure_count
    pub reservoir : length m.latencies ≡ min n max_latency_samples

  pub data Call : Type 0 where
    success : ℕ → F → Call
    failure : ℕ → F → Text → Call
    wrote : ℕ → Call
    read : ℕ → Call
    resets : Call

  pub step : Call → MetricsCollector fl → MetricsCollector fl
  step (success drawn x) m = record_success fl drawn x m
  step (failure drawn x e) m = record_failure fl drawn x e m
  step (wrote n) m = record_bytes_written fl n m
  step (read n) m = record_bytes_read fl n m
  step resets m = reset fl m

  -- The requests recorded since the last reset.
  abbrev pub requests_after : Call → ℕ → ℕ
  requests_after (success drawn x) n = suc n
  requests_after (failure drawn x e) n = suc n
  requests_after resets n = 0
  requests_after _ n = n

  new-Counted : Counted 0 (new_metrics_collector fl)
  unfolding new_metrics_collector
  new-Counted = record {
    total = refl;
    requests = omega arith;
    bucket_count = length-replicate {A = ℕ} latency_bucket_count 0;
    histogram = sum-replicate latency_bucket_count;
    failures = refl;
    reservoir = omega arith;
  }

  length-zero_all : (xs : List ℕ) → length (zero_all fl xs) ≡ length xs
  unfolding zero_all
  length-zero_all [] = refl
  length-zero_all (x ∷ xs) = ap suc (length-zero_all xs)

  sum-zero_all : (xs : List ℕ) → sum (zero_all fl xs) ≡ 0
  unfolding zero_all
  sum-zero_all [] = refl
  sum-zero_all (x ∷ xs) = omega (arith, sum-zero_all xs)

  module _ (n : ℕ) (small : suc n < 2 ^ 63) (m : MetricsCollector fl) (c : Counted n m) where
    record_success-Counted : (drawn : ℕ) (x : F) → Counted (suc n) (record_success fl drawn x m)
    unfolding record_success record_latency bump
    record_success-Counted drawn x =
        let i = latency_bucket_index fl x in
        record {
          total = omega (arith, c.total);
          requests = omega (arith, c.requests);
          bucket_count = omega (
            arith,
            c.bucket_count,
            length-set m.latency_buckets i (add64 (get_or m.latency_buckets i 0) 1),
          );
          histogram = omega (
            arith,
            c.histogram,
            sum-set m.latency_buckets i (omega (arith, c.bucket_count, latency_bucket_index-lt x))
                (omega (arith, c.histogram)),
          );
          failures = c.failures;
          reservoir = length-sample drawn x m.latencies n c.reservoir;
        }

    record_failure-Counted :
        (drawn : ℕ) (x : F) (e : Text) → Counted (suc n) (record_failure fl drawn x e m)
    unfolding record_failure record_latency bump
    record_failure-Counted drawn x e =
        let i = latency_bucket_index fl x in
        record {
          total = omega (arith, c.total);
          requests = omega (arith, c.requests);
          bucket_count = omega (
            arith,
            c.bucket_count,
            length-set m.latency_buckets i (add64 (get_or m.latency_buckets i 0) 1),
          );
          histogram = omega (
            arith,
            c.histogram,
            sum-set m.latency_buckets i (omega (arith, c.bucket_count, latency_bucket_index-lt x))
                (omega (arith, c.histogram)),
          );
          failures = omega (
            arith,
            c.failures,
            c.requests,
            count_error-sum e m.errors (omega (arith, c.failures, c.requests)),
          );
          reservoir = length-sample drawn x m.latencies n c.reservoir;
        }

    reset-Counted : Counted 0 (reset fl m)
    unfolding reset
    reset-Counted = record {
      total = refl;
      requests = omega arith;
      bucket_count = omega (arith, c.bucket_count, length-zero_all m.latency_buckets);
      histogram = sum-zero_all m.latency_buckets;
      failures = refl;
      reservoir = omega arith;
    }

    step-Counted : (call : Call) → Counted (requests_after call n) (step call m)
    unfolding step record_bytes_written record_bytes_read
    step-Counted (success drawn x) = record_success-Counted drawn x
    step-Counted (failure drawn x e) = record_failure-Counted drawn x e
    step-Counted resets = reset-Counted
    step-Counted (wrote k) = record {
      total = c.total;
      requests = c.requests;
      bucket_count = c.bucket_count;
      histogram = c.histogram;
      failures = c.failures;
      reservoir = c.reservoir;
    }
    step-Counted (read k) = record {
      total = c.total;
      requests = c.requests;
      bucket_count = c.bucket_count;
      histogram = c.histogram;
      failures = c.failures;
      reservoir = c.reservoir;
    }

  pub run : List Call → MetricsCollector fl → MetricsCollector fl
  run [] m = m
  run (c ∷ cs) m = run cs (step c m)

  abbrev pub requests_of : ℕ → List Call → ℕ
  requests_of n [] = n
  requests_of n (c ∷ cs) = requests_of (requests_after c n) cs

  requests_after-le : (c : Call) (n : ℕ) → requests_after c n ≤ suc n
  requests_after-le (success drawn x) n = omega arith
  requests_after-le (failure drawn x e) n = omega arith
  requests_after-le _ n = omega arith

  run_from-Counted :
      (cs : List Call) (n : ℕ) (m : MetricsCollector fl)
      → n + length cs < 2 ^ 63
      → Counted n m
      → Counted (requests_of n cs) (run cs m)
  unfolding run
  run_from-Counted [] n m small c = c
  run_from-Counted (call ∷ cs) n m small c =
      run_from-Counted cs (requests_after call n) (step call m)
        (omega (arith, requests_after-le call n)) (step-Counted n (omega arith) m c call)

  -- After any fewer than 2^63 calls on a new collector, with whatever numbers drawn: the total, the
  -- two request counters together and the histogram all count the requests since the last reset,
  -- the error counts add up to the failures, and the reservoir holds that many samples, 100,000 at
  -- most.
  pub run-Counted :
      (cs : List Call)
      → length cs < 2 ^ 63
      → Counted (requests_of 0 cs) (run cs (new_metrics_collector fl))
  run-Counted cs small = run_from-Counted cs 0 _ (omega arith) new-Counted
