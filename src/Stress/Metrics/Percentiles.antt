-- ===== src/Stress/Metrics/Percentiles.antt =====
-- metrics.go: the percentiles of GetStatistics.
use mathlib.Core.List.{Mem, mem-cons_self, mem-cons_of_mem}
use mathlib.Core.List.Perm
use etcd_infra.Common.{
  ℕ, zero, suc, ◌-◌, ◌≤◌, ◌<◌, ◌≡◌, ◌∙◌, inl, inr, true, false, List, [], ◌∷◌, arith, is_empty, All,
  length, sort, sort-perm, sort-IsSorted, IsSorted, sort-is_empty,
}
use etcd_infra.Stress.Floats.{Floats}
use etcd_infra.Stress.Metrics.{
  MetricsCollector, get_or, percentile, percentile_index, get_statistics,
}

module _ (fl : Floats) where
  open fl use {F, leq, ceil_times, p50, p95, p99}

  leq_refl : (a : F) → leq a a ≡ true
  leq_refl a = elim (fl.leq_total a a) [ inl p ↦ p | inr p ↦ p ]

  percentile_index-lt : (n : ℕ) (p : F) → 0 < n → percentile_index fl n p < n
  unfolding percentile_index
  percentile_index-lt n p h = ground arith

  percentile_index_mono :
      (n : ℕ) (p q : F) → leq p q ≡ true → percentile_index fl n p ≤ percentile_index fl n q
  unfolding percentile_index
  percentile_index_mono n p q h = ground (arith, fl.ceil_times_mono p q n)

  All-get_or :
      (P : F → Type 0) (xs : List F) (j : ℕ) → All P xs → j < length xs → P (get_or xs j fl.zero)
  All-get_or P [] j h lt = absurd (omega arith)
  All-get_or P (x ∷ xs) zero (p, h) lt = p
  All-get_or P (x ∷ xs) (suc j) (p, h) lt = All-get_or P xs j h (omega arith)

  get_or_mono :
      (xs : List F) (i j : ℕ)
      → IsSorted leq xs
      → i ≤ j
      → j < length xs
      → leq (get_or xs i fl.zero) (get_or xs j fl.zero) ≡ true
  get_or_mono [] i j s h lt = absurd (omega arith)
  get_or_mono (x ∷ xs) zero zero s h lt = leq_refl x
  get_or_mono (x ∷ xs) zero (suc j) (below, s) h lt =
      All-get_or (λ y. leq x y ≡ true) xs j below (omega arith)
  get_or_mono (x ∷ xs) (suc i) zero s h lt = absurd (omega arith)
  get_or_mono (x ∷ xs) (suc i) (suc j) (below, s) h lt =
      get_or_mono xs i j s (omega arith) (omega arith)

  get_or-mem : (xs : List F) (i : ℕ) → i < length xs → Mem (get_or xs i fl.zero) xs
  get_or-mem [] i lt = absurd (omega arith)
  get_or-mem (x ∷ xs) zero lt = mem-cons_self
  get_or-mem (x ∷ xs) (suc i) lt = mem-cons_of_mem x (get_or-mem xs i (omega arith))

  length-pos : (xs : List F) → is_empty xs ≡ false → 0 < length xs
  length-pos [] h = absurd (cc)
  length-pos (x ∷ xs) h = omega arith

  percentile_eq :
      (sorted : List F) (p : F)
      → is_empty sorted ≡ false
      → leq p fl.zero ≡ false
      → leq fl.one p ≡ false
      → percentile fl sorted p ≡ get_or sorted (percentile_index fl (length sorted) p) fl.zero
  unfolding percentile
  percentile_eq sorted p e a b = rw (e, a, b)

  module _ (m : MetricsCollector fl) (h : is_empty m.latencies ≡ false) where
    sorted_some : is_empty (sort leq m.latencies) ≡ false
    sorted_some = sort-is_empty leq m.latencies ∙ h

    -- The latency at an index of the sorted reservoir.
    abbrev nth : ℕ → F
    nth i = get_or (sort leq m.latencies) i fl.zero

    abbrev size : ℕ
    size = length (sort leq m.latencies)

    nth-mem : (i : ℕ) → i < size → Mem (nth i) m.latencies
    nth-mem i lt =
        (Perm.mem_iff (sort-perm leq m.latencies)).0 (get_or-mem (sort leq m.latencies) i lt)

    nth_mono : (i j : ℕ) → i ≤ j → j < size → leq (nth i) (nth j) ≡ true
    nth_mono i j =
        get_or_mono (sort leq m.latencies) i j
          (sort-IsSorted leq fl.leq_total fl.leq_trans m.latencies)

    index-lt : (p : F) → percentile_index fl size p < size
    index-lt p = percentile_index-lt size p (length-pos _ sorted_some)

    statistics_eq :
        let s = get_statistics fl m in
        (s.p50_latency ≡ nth (percentile_index fl size p50))
        × (s.p95_latency ≡ nth (percentile_index fl size p95))
        × (s.p99_latency ≡ nth (percentile_index fl size p99))
        × (s.max_latency ≡ nth (size - 1))
    unfolding get_statistics
    statistics_eq = (
      rw sorted_some (percentile_eq _ p50 sorted_some fl.p50-gt-zero fl.p50-lt-one),
      rw sorted_some (percentile_eq _ p95 sorted_some fl.p95-gt-zero fl.p95-lt-one),
      rw sorted_some (percentile_eq _ p99 sorted_some fl.p99-gt-zero fl.p99-lt-one),
      rw sorted_some,
    )

  -- Once a latency is in the reservoir, the statistics have the median below the 95th percentile,
  -- that below the 99th and that below the maximum, and each of the four is a latency of the
  -- reservoir.
  pub get_statistics_ordered :
      (m : MetricsCollector fl)
      → is_empty m.latencies ≡ false
      → let s = get_statistics fl m in
        (leq s.p50_latency s.p95_latency ≡ true)
        × (leq s.p95_latency s.p99_latency ≡ true)
        × (leq s.p99_latency s.max_latency ≡ true)
        × Mem s.p50_latency m.latencies
        × Mem s.p95_latency m.latencies
        × Mem s.p99_latency m.latencies
        × Mem s.max_latency m.latencies
  get_statistics_ordered m h =
      let (e50, e95, e99, emax) = statistics_eq m h in
      let last : ℕ = size m h - 1 in
      let last_lt = index-lt m h p99 in
      rw (e50, e95, e99, emax)
        (
          nth_mono m h _ _ (percentile_index_mono _ p50 p95 fl.p50-le-p95) (index-lt m h p95),
          nth_mono m h _ _ (percentile_index_mono _ p95 p99 fl.p95-le-p99) (index-lt m h p99),
          nth_mono m h _ _ (omega (arith, last_lt)) (omega (arith, last_lt)),
          nth-mem m h _ (index-lt m h p50),
          nth-mem m h _ (index-lt m h p95),
          nth-mem m h _ (index-lt m h p99),
          nth-mem m h _ (omega (arith, last_lt)),
        )
