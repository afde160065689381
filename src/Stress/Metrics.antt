-- ===== src/Stress/Metrics.antt =====
-- metrics.go: the collector of latencies and counters, one call at a time. The calls of concurrent
-- workers are atomic adds or hold a lock, so a run is some sequence of them.
pub mod Counts
pub mod Percentiles
use etcd_infra.Common.{
  ℕ, zero, suc, ◌+◌, ◌-◌, ◌%◌, ◌^◌, Bool, true, false, not, List, [], ◌∷◌, ◌++◌, Option, none, some,
  if◌then◌else◌, ltb, leb, ◌==◌, is_empty, ℤ, pos, negsuc, Text, text_eq, length, get_elem?, set,
  replicate, sort,
}
use etcd_infra.Stress.Floats.{Floats}

abbrev pub max_latency_samples : ℕ
max_latency_samples = 100_000

abbrev pub latency_bucket_count : ℕ
latency_bucket_count = 145

-- An int64 as its bit pattern.
abbrev pub word64 : ℕ
word64 = 2 ^ 64

abbrev pub add64 : ℕ → ℕ → ℕ
add64 a b = (a + b) % word64

abbrev pub get_or {ℓ} : {A : Type ℓ} → List A → ℕ → A → A
get_or [] i d = d
get_or (x ∷ xs) zero d = x
get_or (x ∷ xs) (suc i) d = get_or xs i d

module _ (fl : Floats) where
  open fl use {F, leq, bucket_min, octave_steps, ceil_times, p50, p95, p99, div_count, ratio, add}

  -- MetricsCollector; the locks and the capacity of `latencies` are left out
  pub record MetricsCollector : Type 0 where
    pub success_count : ℕ
    pub failure_count : ℕ
    pub bytes_written : ℕ
    pub bytes_read : ℕ
    pub latencies : List F
    pub total_samples : ℕ
    pub latency_buckets : List ℕ
    pub errors : List (Text × ℕ)

  unfoldable pub new_metrics_collector : MetricsCollector
  new_metrics_collector = record {
    success_count = 0;
    failure_count = 0;
    bytes_written = 0;
    bytes_read = 0;
    latencies = [];
    total_samples = 0;
    latency_buckets = replicate latency_bucket_count 0;
    errors = [];
  }

  -- `min(max(idx, 0), latencyBucketCount-1)`
  abbrev clamp_bucket : ℤ → ℕ
  clamp_bucket (pos n) = if ltb n latency_bucket_count then n else latency_bucket_count - 1
  clamp_bucket (negsuc n) = 0

  unfoldable pub latency_bucket_index : F → ℕ
  latency_bucket_index latency =
      if leq latency bucket_min then 0 else clamp_bucket (octave_steps latency)

  -- Adds 1 to the counter at index `i`.
  unfoldable pub bump : ℕ → List ℕ → List ℕ
  bump i counts = set counts i (add64 (get_or counts i 0) 1)

  -- `m.errors[errType]++`
  unfoldable pub count_error : Text → List (Text × ℕ) → List (Text × ℕ)
  count_error e [] = (e, 1) ∷ []
  count_error e ((k, n) ∷ errors) =
      if text_eq k e then (k, add64 n 1) ∷ errors else (k, n) ∷ count_error e errors

  -- The reservoir: the first samples fill it, a later one replaces the sample at the drawn index,
  -- if that index lies in the reservoir.
  unfoldable pub sample : ℕ → F → List F → List F
  sample drawn latency latencies =
      if ltb (length latencies) max_latency_samples
      then latencies ++ latency ∷ []
      else if ltb drawn max_latency_samples
      then set latencies drawn latency
      else latencies

  -- recordLatency; `drawn` is the number that `randutil.Intn` would give
  unfoldable pub record_latency : ℕ → F → MetricsCollector → MetricsCollector
  unfolding bump sample
  record_latency drawn latency m = record m {
    latency_buckets = bump (latency_bucket_index latency) m.latency_buckets;
    total_samples = add64 m.total_samples 1;
    latencies = sample drawn latency m.latencies;
  }

  unfoldable pub record_success : ℕ → F → MetricsCollector → MetricsCollector
  unfolding record_latency
  record_success drawn latency m =
      record_latency drawn latency (record m { success_count = add64 m.success_count 1 })

  unfoldable pub record_failure : ℕ → F → Text → MetricsCollector → MetricsCollector
  unfolding record_latency
  record_failure drawn latency err_type m =
      let m' =
        record_latency drawn latency (record m { failure_count = add64 m.failure_count 1 }) in
      record m' { errors = count_error err_type m'.errors }

  -- Byte counts are int64 patterns too.
  unfoldable pub record_bytes_written : ℕ → MetricsCollector → MetricsCollector
  record_bytes_written n m = record m { bytes_written = add64 m.bytes_written n }

  unfoldable pub record_bytes_read : ℕ → MetricsCollector → MetricsCollector
  record_bytes_read n m = record m { bytes_read = add64 m.bytes_read n }

  zero_all : List ℕ → List ℕ
  zero_all [] = []
  zero_all (c ∷ counts) = 0 ∷ zero_all counts

  unfoldable pub reset : MetricsCollector → MetricsCollector
  unfolding zero_all
  reset m = record {
    success_count = 0;
    failure_count = 0;
    bytes_written = 0;
    bytes_read = 0;
    latencies = [];
    total_samples = 0;
    latency_buckets = zero_all m.latency_buckets;
    errors = [];
  }

  pub record Statistics : Type 0 where
    pub total_requests : ℕ
    pub success_count : ℕ
    pub failure_count : ℕ
    pub bytes_written : ℕ
    pub bytes_read : ℕ
    pub average_latency : F
    pub p50_latency : F
    pub p95_latency : F
    pub p99_latency : F
    pub max_latency : F

  -- `sorted[index]`; `percentile` never reads out of range
  abbrev at : List F → ℕ → F
  at sorted index = get_or sorted index fl.zero

  -- The index that `percentile` reads for a p between 0 and 1.
  unfoldable pub percentile_index : ℕ → F → ℕ
  percentile_index len p =
      let index = ceil_times p len - 1 in if leb len index then len - 1 else index

  unfoldable pub percentile : List F → F → F
  unfolding percentile_index
  percentile sorted p =
      if is_empty sorted
      then fl.zero
      else if leq p fl.zero
      then at sorted 0
      else if leq fl.one p
      then at sorted (length sorted - 1)
      else at sorted (percentile_index (length sorted) p)

  sum_onto : F → List F → F
  sum_onto sum [] = sum
  sum_onto sum (x ∷ xs) = sum_onto (add sum x) xs

  -- GetStatistics
  unfoldable pub get_statistics : MetricsCollector → Statistics
  unfolding sum_onto
  get_statistics m =
      let sorted = sort leq m.latencies in
      let none_yet = is_empty sorted in
      record {
        total_requests = add64 m.success_count m.failure_count;
        success_count = m.success_count;
        failure_count = m.failure_count;
        bytes_written = m.bytes_written;
        bytes_read = m.bytes_read;
        average_latency =
            if none_yet then fl.zero else div_count (sum_onto fl.zero sorted) (length sorted);
        p50_latency = if none_yet then fl.zero else percentile sorted p50;
        p95_latency = if none_yet then fl.zero else percentile sorted p95;
        p99_latency = if none_yet then fl.zero else percentile sorted p99;
        max_latency = if none_yet then fl.zero else at sorted (length sorted - 1);
      }

  -- Statistics.SuccessRate
  unfoldable pub success_rate : Statistics → F
  success_rate s = if s.total_requests == 0 then fl.zero else ratio s.success_count s.total_requests
