-- ===== src/Drive/Samples.antt =====
-- Concrete histograms of stress clients.
use etcd_infra.Common.{
  ℕ, ◌-◌, ◌≤◌, ◌≡◌, ◌↔◌, refl, true, List, [], ◌∷◌, some, arith, is_some, length, All,
}
use etcd_infra.Stress.Metrics.Counts.{sum}
use etcd_infra.Drive.{merge_results, merged_p99, threshold_of}
use etcd_infra.Drive.Percentile.{Reaches, merged_p99-Reaches}
use etcd_infra.Drive.Merge.{merge_results_iff}

abbrev buckets : List ℕ
buckets = 3 ∷ 90 ∷ 6 ∷ 1 ∷ []

merged_p99-Reaches_example :
    (i : ℕ) × (merged_p99 (λ n. n - 1) buckets ≡ some i)
    × Reaches (threshold_of (λ n. n - 1) (sum buckets)) 0 buckets i
merged_p99-Reaches_example =
    merged_p99-Reaches (λ n. n - 1) buckets (omega arith) (omega arith) (omega arith)

merge_results_iff_example :
    (is_some (merge_results buckets ((1 ∷ 2 ∷ []) ∷ [] ∷ buckets ∷ [])) ≡ true)
    ↔ All (λ r. length r ≤ length buckets) ((1 ∷ 2 ∷ []) ∷ [] ∷ buckets ∷ [])
merge_results_iff_example = merge_results_iff buckets ((1 ∷ 2 ∷ []) ∷ [] ∷ buckets ∷ []) refl
