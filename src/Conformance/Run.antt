-- ===== src/Conformance/Run.antt =====
-- suite_workflow.go: Run, from the options of the command to its error.
use etcd_infra.Common.{
  ℕ, ◌≡◌, ◌↔◌, sym, ◌∙◌, true, false, [], Option, none, some, arith, All-imp, Text, if◌then◌else◌,
  ltb,
}
use etcd_infra.Conformance.Registry.{valid_id, valid_id-has_runner}
use etcd_infra.Conformance.Runner.{failed, count_results, count_results_total}
use etcd_infra.Conformance.Config.{Options, ConfigError, config_of, validate, validate-valid}
use etcd_infra.Conformance.Suite.{Attempt, Suite, finished, unknown, run_scenarios, run_from}
use etcd_infra.Conformance.Suite.Verdicts.{unknown_scenario-none}

pub data RunError : Type 0 where
  invalid_config : ConfigError → RunError
  tests_failed : Text → RunError
  scenarios_failed : ℕ → RunError

abbrev judged : ℕ × ℕ → Option RunError
judged (passed, failed) = if ltb 0 failed then some (scenarios_failed failed) else none

abbrev after_suite : Suite → Option RunError
after_suite (finished results) = judged (count_results results)
after_suite (unknown s) = some (tests_failed s)

abbrev after_validate : Option ConfigError → Option RunError → Option RunError
after_validate none rest = rest
after_validate (some e) rest = some (invalid_config e)

-- Run; the suite is run if the configuration is accepted.
unfoldable pub run : (ℕ → ℕ → Attempt) → Options → Option RunError
run env opts =
    let cfg = config_of opts in
    after_validate (validate cfg) (after_suite (run_scenarios env cfg.scenario_ids))

-- A run with an accepted configuration runs every scenario, and fails exactly when a result of the
-- suite is a failure.
pub run_fails_iff :
    (env : ℕ → ℕ → Attempt) (opts : Options)
    → validate (config_of opts) ≡ none
    → let results = run_from env 0 (config_of opts).scenario_ids [] in
      (run env opts ≡ none) ↔ (failed results ≡ false)
unfolding run run_scenarios
run_fails_iff env opts h =
    let ids = (config_of opts).scenario_ids in
    let known = unknown_scenario-none ids (
      All-imp {P = λ s. valid_id s ≡ true} ids (λ s v. sym (valid_id-has_runner s) ∙ v)
        (validate-valid (config_of opts) h)) in
    ground (arith, known, count_results_total (run_from env 0 ids []))
