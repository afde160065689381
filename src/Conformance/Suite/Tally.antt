-- ===== src/Conformance/Suite/Tally.antt =====
-- suite_workflow.go: what one scenario of RunScenarios adds to the results.
use mathlib.Core.List.{reverse}
use etcd_infra.Common.{
  ℕ, zero, suc, ◌≡◌, refl, sym, ap, true, false, List, [], ◌∷◌, ◌++◌, Option, none, some, inl, inr,
  Option-cases, append_assoc, append-nil, Text, length, drop-append_length,
}
use etcd_infra.Conformance.Tuning.{get_scenario_timeout, max_attempts}
use etcd_infra.Conformance.Runner.{
  Result, drop_results_from-append, last_recorded_failure, newest_failure, record_result,
}
use etcd_infra.Conformance.Suite.{
  Attempt, LoopEnd, Failure, stop, inspected, attempt_failure, retry_loop, record_failure,
  failure_result, run_scenario, run_scenario_with_timeout, run_from,
}

-- The verdict on an attempt, from its own records alone.
unfoldable pub verdict : Text → Attempt → Option Failure
unfolding attempt_failure last_recorded_failure
verdict scenario a = attempt_failure scenario a.outcome a.recorded 0

-- The result that the suite adds for a failure that no recorded result reports.
abbrev pub unreported : Text → Option Failure → List Result
unreported scenario none = []
unreported scenario (some (error, true)) = []
unreported scenario (some (error, false)) = failure_result scenario error ∷ []

-- The records of an attempt that ends the loop.
abbrev pub ended : Text → Attempt → List Result
ended scenario a = a.recorded ++ a.landed ++ unreported scenario (verdict scenario a) ++ a.late

-- The records of an attempt that passes, or what it leaves behind together with `rest`, the records
-- of the attempts after it.
abbrev pub followed : Text → Attempt → List Result → List Result
followed scenario a rest = elim (verdict scenario a) [
  | none ↦ a.recorded ++ a.landed ++ a.late
  | some f ↦ a.late ++ rest
]

-- What the attempts from `attempt` on leave: the first that passes, or the last, ends the loop with
-- its records; of an earlier one only the late records stay.
unfoldable pub contribution : (ℕ → Attempt) → Text → ℕ → ℕ → List Result
unfolding verdict
contribution env scenario attempt zero = []
contribution env scenario attempt (suc zero) = ended scenario (env attempt)
contribution env scenario attempt (suc (suc left)) =
    followed scenario (env attempt) (contribution env scenario (suc attempt) (suc left))

-- The suite's results, scenario by scenario.
unfoldable pub contributions : (ℕ → ℕ → Attempt) → ℕ → List Text → List Result
contributions env idx [] = []
contributions env idx (s ∷ ss) =
    contribution (env idx) s 1 (max_attempts s) ++ contributions env (suc idx) ss

attempt_failure-append :
    (s : Text) (a : Attempt) (results : List Result)
    → attempt_failure s a.outcome (results ++ a.recorded) (length results) ≡ verdict s a
unfolding attempt_failure last_recorded_failure verdict
attempt_failure-append s a results =
    ap
      (λ t.
        inspected s (run_scenario_with_timeout s (get_scenario_timeout s) a.outcome)
          (newest_failure s (reverse t)))
      (drop-append_length results a.recorded)

record_failure-append :
    (s : Text) (f : Option Failure) (results : List Result)
    → record_failure s f results ≡ results ++ unreported s f
unfolding record_result
record_failure-append s none results = sym (append-nil results)
record_failure-append s (some (e, true)) results = sym (append-nil results)
record_failure-append s (some (e, false)) results = refl

abbrev whole : Text → LoopEnd → List Result
whole s end = record_failure s end.failure end.results ++ end.late

whole-stop :
    (s : Text) (a : Attempt) (f : Option Failure) (results : List Result)
    → whole s (stop a (results ++ a.recorded) f)
      ≡ results ++ (a.recorded ++ a.landed ++ unreported s f ++ a.late)
whole-stop s a f results = simp (record_failure-append, append_assoc)

retry_loop-contribution :
    (env : ℕ → Attempt) (s : Text) (attempt left : ℕ) (results : List Result)
    → whole s (retry_loop env s attempt left results) ≡ results ++ contribution env s attempt left
unfolding retry_loop contribution
retry_loop-contribution env s attempt zero results = refl
retry_loop-contribution env s attempt (suc zero) results =
    rw attempt_failure-append (whole-stop s (env attempt) _ results)
retry_loop-contribution env s attempt (suc (suc left)) results =
    elim (Option-cases (verdict s (env attempt))) [
      | inl e ↦
          rw (attempt_failure-append s (env attempt) results, e, retry_loop, contribution, followed)
            (simp append_assoc)
      | inr (f, e) ↦
          rw (attempt_failure-append s (env attempt) results, e, retry_loop, contribution, followed)
            (simp (
              retry_loop-contribution env s (suc attempt) (suc left),
              drop_results_from-append,
              append_assoc,
            ))
    ]

pub run_scenario-contribution :
    (env : ℕ → Attempt) (s : Text) (results : List Result)
    → run_scenario env s results ≡ results ++ contribution env s 1 (max_attempts s)
unfolding run_scenario
run_scenario-contribution env s results = retry_loop-contribution env s 1 (max_attempts s) results

-- A scenario's attempts neither lose nor change a result recorded before it, and what they add
-- depends on them alone: the suite's results are the scenarios' contributions in order.
pub run_from-contributions :
    (env : ℕ → ℕ → Attempt) (idx : ℕ) (ids : List Text) (results : List Result)
    → run_from env idx ids results ≡ results ++ contributions env idx ids
unfolding run_from contributions
run_from-contributions env idx [] results = sym (append-nil results)
run_from-contributions env idx (s ∷ ss) results =
    rw (run_from-contributions env (suc idx) ss, run_scenario-contribution, append_assoc)
