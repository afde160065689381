-- ===== src/Conformance/Suite.antt =====
-- suite_workflow.go: RunScenarios, its retry loop and the wrapper with the timeout. What a run of a
-- scenario function does is the environment's: an `Attempt` for each scenario and each attempt.
-- Sleeps and log lines are left out, and so is the clean-up of the test keys when the suite ends.
pub mod Tally
pub mod Verdicts
pub mod Failures
pub mod Panics
use etcd_infra.Common.{
  ℕ, zero, suc, ◌+◌, ◌/◌, ◌%◌, Bool, true, false, List, [], ◌∷◌, ◌++◌, Option, none, some,
  if◌then◌else◌, ltb, Text, codes, itoa, length,
}
use etcd_infra.Conformance.Registry.{has_runner}
use etcd_infra.Conformance.Tuning.{second, get_scenario_timeout, max_attempts}
use etcd_infra.Conformance.Runner.{Result, record_result, drop_results_from, last_recorded_failure}

-- How the goroutine of one attempt ends, as the wrapper sees it; a panic comes with its text.
pub data Outcome : Type 0 where
  returned : Outcome
  panicked : Text → Outcome
  timed_out : Outcome

-- One attempt. The results that are recorded while it runs come from its own goroutine or from one
-- that timed out earlier and was left running; such a goroutine may also record after the attempt
-- was inspected and before its results are dropped (`landed`), or after that (`late`).
pub record Attempt : Type 0 where
  pub outcome : Outcome
  pub recorded : List Result
  pub landed : List Result
  pub late : List Result

-- time.Duration.String on a positive number of whole seconds
unfoldable pub duration_text : ℕ → Text
duration_text n =
    let s = n / second in
    let tail = itoa (s / 60 % 60) ++ codes "m" ++ itoa (s % 60) ++ codes "s" in
    if ltb 3599 s
    then itoa (s / 3600) ++ codes "h" ++ tail
    else if ltb 59 s
    then tail
    else itoa s ++ codes "s"

-- The error of runScenarioWithTimeout.
unfoldable pub run_scenario_with_timeout : Text → ℕ → Outcome → Option Text
unfolding duration_text
run_scenario_with_timeout scenario timeout returned = none
run_scenario_with_timeout scenario timeout (panicked value) =
    some (codes "scenario " ++ scenario ++ codes " panicked: " ++ value)
run_scenario_with_timeout scenario timeout timed_out = some (
    codes "scenario "
    ++ scenario
    ++ codes " timed out after "
    ++ duration_text timeout
    ++ codes " (stuck on network operation or leader election)")

-- The error of an attempt, and whether a recorded result reported it.
abbrev pub Failure : Type 0
Failure = Text × Bool

abbrev reported : Text → Option Result → Option Failure
reported scenario none = none
reported scenario (some r) =
    some (codes "scenario " ++ scenario ++ codes " failed: " ++ r.output, true)

abbrev inspected : Text → Option Text → Option Result → Option Failure
inspected scenario none found = reported scenario found
inspected scenario (some e) found = some (e, false)

-- `results` are those after the attempt, `before` their number when it began.
unfoldable pub attempt_failure : Text → Outcome → List Result → ℕ → Option Failure
unfolding run_scenario_with_timeout
attempt_failure scenario outcome results before =
    inspected scenario (run_scenario_with_timeout scenario (get_scenario_timeout scenario) outcome)
      (last_recorded_failure results before scenario)

-- The runner's results when the retry loop ends, `finalErr` with `finalRecorded`, and what is still
-- recorded after that.
pub record LoopEnd : Type 0 where
  pub results : List Result
  pub failure : Option Failure
  pub late : List Result

abbrev stop : Attempt → List Result → Option Failure → LoopEnd
stop a results f = record { results = results ++ a.landed; failure = f; late = a.late }

-- The loop over the attempts from `attempt` on, of which `left` are left.
unfoldable pub retry_loop : (ℕ → Attempt) → Text → ℕ → ℕ → List Result → LoopEnd
retry_loop env scenario attempt zero results = record {
  results = results;
  failure = none;
  late = [];
}
retry_loop env scenario attempt (suc zero) results =
    let a = env attempt in
    let after = results ++ a.recorded in
    stop a after (attempt_failure scenario a.outcome after (length results))
retry_loop env scenario attempt (suc (suc left)) results =
    let a = env attempt in
    let after = results ++ a.recorded in
    elim (attempt_failure scenario a.outcome after (length results)) [
      | none ↦ stop a after none
      | some f ↦
          retry_loop env scenario (suc attempt) (suc left)
            (drop_results_from (length results) (after ++ a.landed) ++ a.late)
    ]

-- A scenario function's result that the suite itself records.
abbrev pub failure_result : Text → Text → Result
failure_result scenario error = record {
  scenario = scenario;
  time_start = 0;
  time_end = 0;
  took = 0;
  success = false;
  output = error;
}

abbrev record_failure : Text → Option Failure → List Result → List Result
record_failure scenario none results = results
record_failure scenario (some (error, true)) results = results
record_failure scenario (some (error, false)) results =
    unfold record_result in record_result (failure_result scenario error) results

-- The body of the loop over the scenarios.
unfoldable pub run_scenario : (ℕ → Attempt) → Text → List Result → List Result
unfolding record_result
run_scenario env scenario results =
    let end = retry_loop env scenario 1 (max_attempts scenario) results in
    record_failure scenario end.failure end.results ++ end.late

-- The scenarios from index `idx` on.
unfoldable pub run_from : (ℕ → ℕ → Attempt) → ℕ → List Text → List Result → List Result
run_from env idx [] results = results
run_from env idx (s ∷ ss) results = run_from env (suc idx) ss (run_scenario (env idx) s results)

unfoldable pub unknown_scenario : List Text → Option Text
unknown_scenario [] = none
unknown_scenario (s ∷ ss) = if has_runner s then unknown_scenario ss else some s

-- RunScenarios: the results, or the first scenario that has no runner function
pub data Suite : Type 0 where
  finished : List Result → Suite
  unknown : Text → Suite

abbrev suite_of : List Result → Option Text → Suite
suite_of results none = finished results
suite_of results (some s) = unknown s

unfoldable pub run_scenarios : (ℕ → ℕ → Attempt) → List Text → Suite
unfolding unknown_scenario run_from
run_scenarios env ids = suite_of (run_from env 0 ids []) (unknown_scenario ids)
