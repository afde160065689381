-- ===== src/Drive/Merge.antt =====
-- aggregateDriveResults: the lengths of the histograms that are merged.
use etcd_infra.Common.{
  ℕ, suc, ◌≤◌, ◌<◌, ◌≡◌, ◌↔◌, refl, sym, ap, subst, ◌⊎◌, inl, inr, true, false, List, [], ◌∷◌, none,
  some, arith, is_empty, is_some, length, All,
}
use etcd_infra.Stress.Metrics.{add64}
use etcd_infra.Drive.{add_buckets, merge_result, merge_results}

add_buckets-length :
    (bs cs : List ℕ)
    → ((length cs ≤ length bs)
        × (rs : List ℕ) × (add_buckets bs cs ≡ some rs)
        × (length rs ≡ length bs))
      ⊎ ((length bs < length cs) × (add_buckets bs cs ≡ none))
unfolding add_buckets
add_buckets-length bs [] = inl (omega arith, bs, refl, refl)
add_buckets-length [] (c ∷ cs) = inr (omega arith, refl)
add_buckets-length (b ∷ bs) (c ∷ cs) = elim (add_buckets-length bs cs) [
  | inl (le, rs, e, l) ↦ inl (omega arith, add64 b c ∷ rs, rw e, ap suc l)
  | inr (lt, e) ↦ inr (omega arith, rw e)
]

is_empty_of_length : (xs : List ℕ) (n : ℕ) → length xs ≡ suc n → is_empty xs ≡ false
is_empty_of_length [] n h = absurd (omega arith)
is_empty_of_length (x ∷ xs) n h = refl

-- With buckets that are not empty, the results are merged without a panic exactly when none of them
-- has more buckets than these.
pub merge_results_iff :
    (buckets : List ℕ) (rs : List (List ℕ))
    → is_empty buckets ≡ false
    → (is_some (merge_results buckets rs) ≡ true) ↔ All (λ r. length r ≤ length buckets) rs
unfolding merge_results merge_result
merge_results_iff buckets [] h = ((λ e. tt), (λ a. refl))
merge_results_iff [] (r ∷ rs) h = absurd (cc)
merge_results_iff (b ∷ bs) ([] ∷ rs) h = ground (arith, merge_results_iff (b ∷ bs) rs refl)
merge_results_iff (b ∷ bs) ((c ∷ cs) ∷ rs) h = elim (add_buckets-length (b ∷ bs) (c ∷ cs)) [
  | inr (lt, e) ↦ rw e ((λ x. absurd (cc)), (λ a. absurd (omega (arith, a.0))))
  | inl (le, out, e, l) ↦
      let (there, back) = merge_results_iff out rs (is_empty_of_length out (length bs) l) in
      rw e (
        λ x. (le, subst (λ n. All (λ r. length r ≤ n) rs) l (there x)),
        λ a. back (subst (λ n. All (λ r. length r ≤ n) rs) (sym l) a.1),
      )
]
