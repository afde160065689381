-- ===== src/Conformance/Suite/Failures.antt =====
-- suite_workflow.go: a scenario of RunScenarios that fails on all its attempts.
use mathlib.Core.List.{reverse, reverse-cons}
use etcd_infra.Common.{
  ℕ, zero, suc, ◌+◌, ◌≡◌, refl, sym, subst, inl, inr, Bool, true, false, ◌||◌, List, [], ◌∷◌, ◌++◌,
  some, is_some, arith, Option-cases, Text, length,
}
use etcd_infra.Conformance.Tuning.{max_attempts}
use etcd_infra.Conformance.Runner.{Result, failed, newest_failure, last_recorded_failure}
use etcd_infra.Conformance.Suite.{
  Attempt, Failure, Outcome, returned, panicked, timed_out, attempt_failure,
  run_scenario_with_timeout, run_from,
}
use etcd_infra.Conformance.Suite.Verdicts.{max_attempts_pos}
use etcd_infra.Conformance.Suite.Tally.{
  verdict, ended, followed, contribution, contributions, unreported, run_from-contributions,
}

or-true : (b : Bool) → (b || true) ≡ true
or-true true = refl
or-true false = refl

failed-append : (xs ys : List Result) → failed (xs ++ ys) ≡ (failed xs || failed ys)
unfolding failed
failed-append [] ys = refl
failed-append (x ∷ xs) ys = ground (arith, failed-append xs ys)

newest_failure-failed :
    (s : Text) (rs : List Result) (r : Result) → newest_failure s rs ≡ some r → failed rs ≡ true
unfolding newest_failure failed
newest_failure-failed s [] r h = cc
newest_failure-failed s (x ∷ xs) r h = ground (arith, newest_failure-failed s xs r)

failed-reverse : (rs : List Result) → failed (reverse rs) ≡ failed rs
failed-reverse [] = refl
failed-reverse (r ∷ rs) =
    rw (reverse-cons r rs, failed-append (reverse rs) (r ∷ []), failed-reverse rs)
      (unfold failed in ground arith)

-- An attempt with a failing verdict has recorded a failed result, or the suite records one.
module _ (s : Text) (recorded : List Result) (f : Failure) where
  failed-attempt_failure :
      (o : Outcome)
      → attempt_failure s o recorded 0 ≡ some f
      → (failed recorded || failed (unreported s (some f))) ≡ true
  unfolding attempt_failure run_scenario_with_timeout last_recorded_failure
  failed-attempt_failure returned h = elim (Option-cases (newest_failure s (reverse recorded))) [
    | inl e ↦ cc
    | inr (r, e) ↦
        ground (arith, newest_failure-failed s (reverse recorded) r e, failed-reverse recorded)
  ]
  failed-attempt_failure (panicked value) h = unfold failed in ground arith
  failed-attempt_failure timed_out h = unfold failed in ground arith

failed-ended : (s : Text) (a : Attempt) → is_some (verdict s a) ≡ true → failed (ended s a) ≡ true
unfolding verdict
failed-ended s a h = elim (Option-cases (verdict s a)) [
  | inl e ↦ absurd (cc)
  | inr (f, e) ↦
      simp (failed-append, e) (ground (arith, failed-attempt_failure s a.recorded f a.outcome e))
]

-- Each of the `n` attempts from `k` on fails: it panics or times out, or the newest result that it
-- has recorded for the scenario is a failure.
abbrev pub Exhausted : (ℕ → Attempt) → Text → ℕ → ℕ → Type 0
Exhausted env s k zero = Unit
Exhausted env s k (suc n) = (is_some (verdict s (env k)) ≡ true) × Exhausted env s (suc k) n

failed-contribution :
    (env : ℕ → Attempt) (s : Text) (k n : ℕ)
    → Exhausted env s k (suc n)
    → failed (contribution env s k (suc n)) ≡ true
unfolding contribution
failed-contribution env s k zero (h, _) = failed-ended s (env k) h
failed-contribution env s k (suc n) (h, hs) = elim (Option-cases (verdict s (env k))) [
  | inl e ↦ absurd (cc)
  | inr (f, e) ↦
      rw (e, followed, contribution)
        (simp (failed-append, failed-contribution env s (suc k) n hs) (or-true _))
]

failed-contributions :
    (env : ℕ → ℕ → Attempt) (idx at : ℕ) (before after : List Text) (s : Text)
    → at ≡ length before + idx
    → Exhausted (env at) s 1 (max_attempts s)
    → failed (contributions env idx (before ++ s ∷ after)) ≡ true
unfolding contributions
failed-contributions env idx at [] after s e h =
    let (n, e') = max_attempts_pos s in
    let first =
      subst (λ m. failed (contribution (env at) s 1 m) ≡ true) (sym e')
        (failed-contribution (env at) s 1 n (subst (Exhausted (env at) s 1) e' h)) in
    let same : at ≡ idx = omega arith in simp failed-append (rw (← same, first))
failed-contributions env idx at (b ∷ before) after s e h =
    simp (failed-append, failed-contributions env (suc idx) at before after s (omega arith) h)
      (or-true _)

-- Whatever the scenarios and the goroutines left behind do: a scenario that fails on every attempt
-- it is given leaves the suite with a failed result.
pub run_from-failed :
    (env : ℕ → ℕ → Attempt) (before after : List Text) (s : Text)
    → Exhausted (env (length before)) s 1 (max_attempts s)
    → failed (run_from env 0 (before ++ s ∷ after) []) ≡ true
run_from-failed env before after s h =
    rw run_from-contributions
      (failed-contributions env 0 (length before) before after s (omega arith) h)
