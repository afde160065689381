-- ===== src/Drive.antt =====
-- cmd/etcd-infra/aws_drive_aggregate.go: the latency histograms of the stress clients, merged, and
-- the bucket of the fleet's 99th percentile. Files, rates and average latencies are left out.
pub mod Percentile
pub mod Merge
pub mod Samples
use etcd_infra.Common.{
  ℕ, zero, suc, ◌-◌, Bool, true, false, List, [], ◌∷◌, Option, none, some, if◌then◌else◌, leb, ltb,
  ◌==◌, is_empty, length, replicate,
}
use etcd_infra.Stress.Metrics.{add64}

-- `buckets[i] += count` for each index of a result's buckets; `none` if an index is out of range,
-- where the program panics
unfoldable pub add_buckets : List ℕ → List ℕ → Option (List ℕ)
add_buckets buckets [] = some buckets
add_buckets [] (c ∷ counts) = none
add_buckets (b ∷ buckets) (c ∷ counts) = elim (add_buckets buckets counts) [
  | none ↦ none
  | some rest ↦ some (add64 b c ∷ rest)
]

-- One result of aggregateDriveResults, with the buckets so far; these are nil before the first.
unfoldable pub merge_result : List ℕ → List ℕ → Option (List ℕ)
unfolding add_buckets
merge_result buckets counts =
    if is_empty counts
    then some buckets
    else add_buckets (if is_empty buckets then replicate (length counts) 0 else buckets) counts

unfoldable pub merge_results : List ℕ → List (List ℕ) → Option (List ℕ)
unfolding merge_result
merge_results buckets [] = some buckets
merge_results buckets (r ∷ rs) = elim (merge_result buckets r) [
  | none ↦ none
  | some buckets' ↦ merge_results buckets' rs
]

unfoldable pub total_from : ℕ → List ℕ → ℕ
total_from total [] = total
total_from total (c ∷ counts) = total_from (add64 total c) counts

-- The first bucket, from index `i` on, at which the cumulative count reaches the threshold.
unfoldable pub reached : ℕ → ℕ → ℕ → List ℕ → Option ℕ
reached threshold cumulative i [] = none
reached threshold cumulative i (c ∷ counts) =
    let cumulative' = add64 cumulative c in
    let rest = reached threshold cumulative' (suc i) counts in
    if leb threshold cumulative' then some i else rest

-- `int64(float64(total) * 0.99)` is `scaled total`
abbrev pub threshold_of : (ℕ → ℕ) → ℕ → ℕ
threshold_of scaled total = if ltb (scaled total) 1 then 1 else scaled total

abbrev or_last : ℕ → Option ℕ → ℕ
or_last len none = len - 1
or_last len (some i) = i

-- mergedP99Ms: the bucket whose upper bound it returns, and `none` for its -1
unfoldable pub merged_p99 : (ℕ → ℕ) → List ℕ → Option ℕ
unfolding total_from reached
merged_p99 scaled buckets =
    let total = total_from 0 buckets in
    if total == 0
    then none
    else some (or_last (length buckets) (reached (threshold_of scaled total) 0 0 buckets))
