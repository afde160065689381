-- ===== src/Drive/Percentile.antt =====
-- mergedP99Ms: the bucket of the percentile.
use etcd_infra.Common.{
  ℕ, suc, ◌+◌, ◌^◌, ◌≤◌, ◌<◌, ◌≡◌, ap, ◌∙◌, inl, inr, false, List, [], ◌∷◌, some, arith, Bool-cases,
  leb, ◌==◌, length, take,
}
use etcd_infra.Stress.Metrics.{add64, word64}
use etcd_infra.Stress.Metrics.Counts.{sum}
use etcd_infra.Drive.{total_from, reached, threshold_of, merged_p99}

total_from-sum : (t : ℕ) (cs : List ℕ) → t + sum cs < word64 → total_from t cs ≡ t + sum cs
unfolding total_from
total_from-sum t [] h = omega arith
total_from-sum t (c ∷ cs) h =
    let same : add64 t c ≡ t + c = omega arith in
    rw same (omega (arith, total_from-sum (t + c) cs (omega arith)))

-- The cumulative count reaches the threshold in bucket `j`, counted from the first, and not before.
abbrev pub Reaches : ℕ → ℕ → List ℕ → ℕ → Type 0
Reaches threshold before counts j =
    (j < length counts)
    × (before + sum (take j counts) < threshold)
    × (threshold ≤ before + sum (take (suc j) counts))

add_shift : (a b : ℕ) → suc a + b ≡ a + suc b
add_shift a b = omega arith

add_from_zero : (n : ℕ) → 0 + n ≡ n
add_from_zero n = omega arith

-- The bucket found from index `i` on.
abbrev Finds : ℕ → ℕ → ℕ → List ℕ → Type 0
Finds threshold before i cs =
    (j : ℕ) × (reached threshold before i cs ≡ some (i + j)) × Reaches threshold before cs j

reached_later :
    (threshold before i c : ℕ) (cs : List ℕ)
    → before + c < word64
    → leb threshold (before + c) ≡ false
    → Finds threshold (before + c) (suc i) cs
    → Finds threshold before i (c ∷ cs)
unfolding reached
reached_later threshold before i c cs w e (j, found, (k, below, above)) =
    let same : add64 before c ≡ before + c = omega arith in
    (
      suc j,
      rw (same, e) (found ∙ ap some (add_shift i j)),
      (omega (arith, k), omega (arith, below), omega (arith, above)),
    )

reached-Reaches :
    (threshold before i : ℕ) (cs : List ℕ)
    → before + sum cs < word64
    → before < threshold
    → threshold ≤ before + sum cs
    → Finds threshold before i cs
unfolding reached
reached-Reaches threshold before i [] w lt le = absurd (omega arith)
reached-Reaches threshold before i (c ∷ cs) w lt le =
    let same : add64 before c ≡ before + c = omega arith in
    elim (Bool-cases (leb threshold (before + c))) [
      | inl e ↦ (0, rw (same, e) (ap some (omega arith)), (omega arith, omega arith, ground arith))
      | inr e ↦ reached_later threshold before i c cs (omega arith) e (
          reached-Reaches threshold (before + c) (suc i) cs (omega arith) (ground arith)
            (omega arith))
    ]

-- If the buckets hold some requests, fewer than 2^63, and 99 percent of the count are no more than
-- the count, then the percentile's bucket is one of the buckets, and it is the first at which the
-- cumulative count reaches the threshold.
pub merged_p99-Reaches :
    (scaled : ℕ → ℕ) (buckets : List ℕ)
    → sum buckets < 2 ^ 63
    → 0 < sum buckets
    → scaled (sum buckets) ≤ sum buckets
    → (i : ℕ) × (merged_p99 scaled buckets ≡ some i)
      × Reaches (threshold_of scaled (sum buckets)) 0 buckets i
unfolding merged_p99
merged_p99-Reaches scaled buckets small pos below =
    let total : total_from 0 buckets ≡ sum buckets =
      total_from-sum 0 buckets (omega arith) ∙ omega arith in
    let some_requests : (sum buckets == 0) ≡ false = ground arith in
    found_bucket
      (reached-Reaches (threshold_of scaled (sum buckets)) 0 0 buckets (omega arith) (ground arith)
        (ground arith))
      total some_requests
  where
    found_bucket :
        Finds (threshold_of scaled (sum buckets)) 0 0 buckets
        → total_from 0 buckets ≡ sum buckets
        → (sum buckets == 0) ≡ false
        → (i : ℕ) × (merged_p99 scaled buckets ≡ some i)
          × Reaches (threshold_of scaled (sum buckets)) 0 buckets i
    found_bucket (i, found, at) total positive =
        (i, rw (total, positive, found) (ap some (add_from_zero i)), at)
