-- ===== src/Stress/Samples.antt =====
-- Concrete runs of the stress suite, with numbers in thousandths for the floats.
use native.Mathlib.Nat.{mul-le-mul_right}
use mathlib.Core.List.{Mem, Memᴰ, Perm}
use etcd_infra.Common.{
  ℕ, ◌+◌, ◌*◌, ◌/◌, ◌≤◌, ◌<◌, ◌≡◌, ◌↔◌, refl, ◌⊎◌, true, List, [], ◌∷◌, none, arith, leb,
  if◌then◌else◌, is_empty, pos, All, Text, codes, text_eq,
}
use etcd_infra.Stress.Floats.{Floats, lt}
use etcd_infra.Stress.Registry.{valid_stress_id}
use etcd_infra.Stress.Config.{
  Config, named_error, size_error, validate_and_set_defaults, IsReady,
  validate_and_set_defaults-IsReady,
}
use etcd_infra.Stress.Metrics.{
  MetricsCollector, Statistics, new_metrics_collector, get_statistics, success_rate,
}
use etcd_infra.Stress.Metrics.Counts.{
  Call, success, failure, wrote, run, requests_of, Counted, run-Counted,
}
use etcd_infra.Stress.Metrics.Percentiles.{get_statistics_ordered}
use etcd_infra.Stress.Maintenance.{
  RevisionSample, compact_target, Status, status, defrag_order, Tick, MaintenanceConfig,
  MaintenanceEvent, message, run_k8s_maintenance,
}
use etcd_infra.Stress.Maintenance.Compaction.{
  compact_target_greatest, climbs, run_k8s_maintenance-climbs,
}
use etcd_infra.Stress.Maintenance.Order.{Distinct, LeaderLast, defrag_order-perm}
use etcd_infra.Stress.Maintenance.Leases.{
  Grant, refused, granted, hand_out, new_lease_pool, revoked, hand_out-revoked,
}
use etcd_infra.Stress.Maintenance.Judge.{
  ClassResult, judge_k8s_mixed, judge_k8s_mixed_passes, final_reason, final_success,
  final_success_iff,
}

ceil_thousandths : ℕ → ℕ → ℕ
ceil_thousandths p n = (p * n + 999) / 1000

ceil_thousandths_mono : (p q n : ℕ) → leb p q ≡ true → ceil_thousandths p n ≤ ceil_thousandths q n
unfolding ceil_thousandths
ceil_thousandths_mono p q n h =
    let le : p ≤ q = ground arith in omega (arith, mul-le-mul_right n le)

leb_total : (a b : ℕ) → (leb a b ≡ true) ⊎ (leb b a ≡ true)
leb_total a b = ground arith

leb_trans : (a b c : ℕ) → leb a b ≡ true → leb b c ≡ true → leb a c ≡ true
leb_trans a b c p q = ground arith

-- A number above 62 lies in the bucket of its hundreds.
abbrev thousandths : Floats
thousandths = record {
  F = ℕ;
  leq = leb;
  leq_total = leb_total;
  leq_trans = leb_trans;
  zero = 0;
  one = 1000;
  add = λ a b. a + b;
  div_count = λ a n. a / n;
  ratio = λ a b. 1000 * a / b;
  bucket_min = 62;
  p50 = 500;
  p95 = 950;
  p99 = 990;
  half = 500;
  half-gt-zero = refl;
  octave_steps = λ x. pos (x / 100);
  ceil_times = ceil_thousandths;
  ceil_times_mono = ceil_thousandths_mono;
  p50-le-p95 = refl;
  p95-le-p99 = refl;
  p50-gt-zero = refl;
  p95-gt-zero = refl;
  p99-gt-zero = refl;
  p50-lt-one = refl;
  p95-lt-one = refl;
  p99-lt-one = refl;
}

abbrev given : Config thousandths
given = record {
  endpoints = codes "https://10.0.0.1:2379" ∷ [];
  test_key_prefix = codes "/stress/";
  scenario_ids = codes "BURST_WRITES" ∷ [];
  duration_seconds = pos 0;
  concurrent_workers = pos 4;
  requests_per_second = pos 0;
  key_size_bytes = pos 16;
  value_size_bytes = pos 256;
  compact_interval_seconds = pos 60;
  defrag_after_compact = true;
  keyspace_scale = 1000;
  max_error_rate = 0;
  max_latency_ms = pos 0;
  warmup_duration_seconds = pos 0;
  cooldown_duration_seconds = pos 0;
}

abbrev ready : Config thousandths
ready = record given { duration_seconds = pos 60; max_error_rate = 500; max_latency_ms = pos 30000 }

given-ready : validate_and_set_defaults thousandths given ≡ (ready, none)
unfolding validate_and_set_defaults named_error valid_stress_id text_eq size_error
given-ready = refl

abbrev calls : List (Call thousandths)
calls = success 0 120 ∷ failure 0 800 (codes "timeout") ∷ wrote 256 ∷ []

abbrev measured : MetricsCollector thousandths
measured = record {
  success_count = 2;
  failure_count = 0;
  bytes_written = 0;
  bytes_read = 0;
  latencies = 7 ∷ 3 ∷ [];
  total_samples = 2;
  latency_buckets = 2 ∷ [];
  errors = [];
}

abbrev samples : List RevisionSample
samples =
    record { at = 5; rev = 10 } ∷ record { at = 9; rev = 14 } ∷ record { at = 20; rev = 30 } ∷ []

abbrev members : List Text
members = codes "a" ∷ codes "b" ∷ codes "c" ∷ []

abbrev ask : Text → Status
ask e = if text_eq e (codes "b") then status 7 7 else status 3 7

abbrev tick : Tick
tick = record {
  samples = samples;
  now = 70_000_000_000;
  compact_error = none;
  endpoints = members;
  ask = ask;
  defrag_error = λ e. none;
}

abbrev every_minute : MaintenanceConfig
every_minute = record { compact_interval_seconds = pos 60; defrag_after_compact = true }

abbrev leases_asked : List (ℕ × Grant)
leases_asked = (1, granted 5 2) ∷ (3, refused) ∷ (20_000_000_000, granted 6 20_000_000_001) ∷ []

members-Distinct : Distinct members
unfolding text_eq
members-Distinct = ((refl, (refl, tt)), ((refl, tt), (tt, tt)))

validate_and_set_defaults-IsReady_example :
    IsReady thousandths ready × (validate_and_set_defaults thousandths ready ≡ (ready, none))
validate_and_set_defaults-IsReady_example =
    validate_and_set_defaults-IsReady thousandths given ready given-ready

run-Counted_example :
    Counted thousandths
      (requests_of thousandths 0 calls)
      (run thousandths calls (new_metrics_collector thousandths))
run-Counted_example = run-Counted thousandths calls (omega arith)

get_statistics_ordered_example :
    let s = get_statistics thousandths measured in
    (leb s.p50_latency s.p95_latency ≡ true)
    × (leb s.p95_latency s.p99_latency ≡ true)
    × (leb s.p99_latency s.max_latency ≡ true)
    × Mem s.p50_latency measured.latencies
    × Mem s.p95_latency measured.latencies
    × Mem s.p99_latency measured.latencies
    × Mem s.max_latency measured.latencies
get_statistics_ordered_example = get_statistics_ordered thousandths measured refl

compact_target_greatest_example :
    let target = compact_target samples 10 in
    All (λ s. s.at ≤ 10 → s.rev ≤ target) samples
    × ((target ≡ 0) ⊎ ((s : RevisionSample) × Memᴰ s samples × (s.at ≤ 10) × (s.rev ≡ target)))
compact_target_greatest_example = compact_target_greatest samples 10

run_k8s_maintenance-climbs_example :
    climbs 0 (run_k8s_maintenance every_minute (tick ∷ tick ∷ [])) ≡ true
run_k8s_maintenance-climbs_example = run_k8s_maintenance-climbs every_minute (tick ∷ tick ∷ [])

defrag_order-perm_example :
    Perm (defrag_order ask members) members × LeaderLast ask members (defrag_order ask members)
defrag_order-perm_example = defrag_order-perm ask members members-Distinct

hand_out-revoked_example :
    let (p, leases) = hand_out leases_asked new_lease_pool in All (λ id. Memᴰ id (revoked p)) leases
hand_out-revoked_example = hand_out-revoked leases_asked

abbrev classes : List (ClassResult thousandths (λ a b. a * b / 1000) 1500)
classes = record { class_name = codes "pods"; p99_latency = 900 } ∷ []

judge_k8s_mixed_passes_example :
    (is_empty (judge_k8s_mixed thousandths (λ a b. a * b / 1000) 1500 0 0 [] 0 12 1000 classes)
      ≡ true)
    ↔ ((◌≡◌ {A = ℕ} 0 0)
        × (◌≡◌ {A = ℕ} 0 0)
        × All (λ (m : MaintenanceEvent). is_empty (message m.error) ≡ true) []
        × (◌≡◌ {A = ℕ} 0 0)
        × (0 < 12)
        × All (λ c. leb c.p99_latency 1000 ≡ true) classes)
judge_k8s_mixed_passes_example =
    judge_k8s_mixed_passes thousandths (λ a b. a * b / 1000) 1500 0 0 [] 0 12 1000 classes

abbrev stats : Statistics thousandths
stats = get_statistics thousandths measured

final_success_iff_example :
    (final_success thousandths
        (λ a b. a * b / 1000)
        1500
        true
        (final_reason thousandths (λ a b. a * b / 1000) 1500 stats [] 900 10)
      ≡ true)
    ↔ ((is_empty {A = Text} [] ≡ true)
        × (0 < stats.total_requests)
        × (leb 900 (success_rate thousandths stats) ≡ true)
        × (let limit = if lt thousandths 0 10 then 10 * 1500 / 1000 else 10 in
            (leb limit 0 ≡ true) ⊎ (leb stats.p99_latency limit ≡ true)))
final_success_iff_example = final_success_iff thousandths (λ a b. a * b / 1000) 1500 stats [] 900 10
