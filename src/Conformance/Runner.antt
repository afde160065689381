-- ===== src/Conformance/Runner.antt =====
-- suite_workflow.go: the runner's list of results, which the scenarios and the retry loop write.
use etcd_infra.Common.{
  ℕ, zero, suc, ◌+◌, ◌≡◌, refl, Bool, true, false, ◌&&◌, List, [], ◌∷◌, ◌++◌, Option, none, some,
  arith, if◌then◌else◌, ltb, Text, text_eq, length, take, length-append, take-append_length,
}
use mathlib.Core.List.{reverse}
use etcd_infra.Common

-- scenarios.Result; times are nanoseconds, and 0 is Go's zero time.
pub record Result : Type 0 where
  pub scenario : Text
  pub time_start : ℕ
  pub time_end : ℕ
  pub took : ℕ
  pub success : Bool
  pub output : Text

-- Results.Failed
unfoldable pub failed : List Result → Bool
failed [] = false
failed (r ∷ rs) = if r.success then failed rs else true

-- countResults: the passed and the failed results
unfoldable pub count_results : List Result → ℕ × ℕ
count_results [] = (0, 0)
count_results (r ∷ rs) =
    let (passed, failed) = count_results rs in
    if r.success then (suc passed, failed) else (passed, suc failed)

-- runner.RecordResult
unfoldable pub record_result : Result → List Result → List Result
record_result r results = results ++ r ∷ []

-- runner.DropResultsFrom
unfoldable pub drop_results_from : ℕ → List Result → List Result
drop_results_from n results = if ltb n (length results) then take n results else results

-- The newest result of the scenario, if it is a failure; the list has the newest first.
unfoldable pub newest_failure : Text → List Result → Option Result
newest_failure scenario [] = none
newest_failure scenario (r ∷ rs) =
    if text_eq r.scenario scenario
    then (if r.success then none else some r)
    else newest_failure scenario rs

-- lastRecordedFailure: from the last result down to the one at index `before`
unfoldable pub last_recorded_failure : List Result → ℕ → Text → Option Result
unfolding newest_failure
last_recorded_failure results before scenario =
    newest_failure scenario (reverse (Common.drop before results))

-- Dropping from the length that the list had before gives that list back.
pub drop_results_from-append :
    (old new : List Result) → drop_results_from (length old) (old ++ new) ≡ old
unfolding drop_results_from
drop_results_from-append old [] = ground (arith, length-append old [], Common.append-nil old)
drop_results_from-append old (r ∷ new) =
    ground (arith, length-append old (r ∷ new), take-append_length old (r ∷ new))

-- Every result is counted once, and the suite has failed exactly when the count of failures is not 0.
pub count_results_total :
    (rs : List Result)
    → ((count_results rs).0 + (count_results rs).1 ≡ length rs)
      × (failed rs ≡ ltb 0 (count_results rs).1)
unfolding count_results failed
count_results_total [] = (refl, refl)
count_results_total (r ∷ rs) = ground (arith, count_results_total rs)
