-- ===== src/Conformance/Samples.antt =====
-- Concrete runs of the conformance suite.
use etcd_infra.Common.{
  ℕ, ◌≡◌, ◌≢◌, ◌↔◌, refl, ◌⊎◌, Bool, true, false, some, List, [], ◌∷◌, none, arith, ◌==◌,
  if◌then◌else◌, All, Text, codes, trim_space, has_prefix, contains, text_eq,
}
use etcd_infra.Conformance.Registry.Tables.{id_string_to_id}
use etcd_infra.Conformance.Registry.Runners.{
  runner_by_name, runner_by_id, runner_by_name-runner_by_id,
}
use etcd_infra.Conformance.Registry.{find_id, valid_id, has_runner, valid_id-has_runner}
use etcd_infra.Conformance.Tuning.{
  get_scenario_timeout, scenario_timeout_extended, max_attempts, should_retry_scenario,
  retried_is_extended,
}
use etcd_infra.Conformance.Runner.{Result, failed, count_results}
use etcd_infra.Conformance.Suite.{Attempt, run_scenario, run_from, run_scenarios, finished}
use etcd_infra.Conformance.Suite.Tally.{contributions, verdict, run_from-contributions}
use etcd_infra.Conformance.Suite.Verdicts.{
  Reply, reports, hangs, attempt_of, summary, expected, run_scenarios-summary,
}
use etcd_infra.Conformance.Suite.Failures.{run_from-failed}
use etcd_infra.Conformance.Suite.Panics.{panicking, panic_counts_twice}
use etcd_infra.Conformance.Config.{Options, config_of, validate, names_valid, validate-config_of}
use etcd_infra.Conformance.Run.{run, run_fails_iff}

abbrev lease_list : Text
lease_list = codes "LEASE_LIST"

abbrev watch : Text
watch = codes "WATCH_WITH_PREFIX"

abbrev put : Text
put = codes "PUT"

abbrev result_of : Text → Bool → Result
result_of s b = record {
  scenario = s;
  time_start = 1;
  time_end = 3;
  took = 2;
  success = b;
  output = codes "done";
}

-- The first attempt hangs, the second fails, the third passes.
abbrev replies : ℕ → ℕ → Reply
replies idx k =
    if k == 1
    then hangs
    else if k == 2
    then reports (result_of put false)
    else reports (result_of put true)

abbrev env : ℕ → ℕ → Attempt
env idx k = attempt_of lease_list (replies idx k)

abbrev hanging : ℕ → ℕ → Attempt
hanging idx k = attempt_of lease_list hangs

abbrev some_options : Options
some_options = record {
  endpoints = codes " https://10.0.0.1:2379 " ∷ codes "  " ∷ [];
  ca_cert_file = [];
  client_cert_file = [];
  client_key_file = [];
  test_key_prefix = [];
  scenario_id = codes " LEASE_LIST";
  step_timeout = [];
}

watch_retried : max_attempts watch ≢ 1
unfolding max_attempts should_retry_scenario has_prefix contains text_eq
watch_retried e = absurd (omega arith)

lease_list_known : All (λ s. has_runner s ≡ true) (lease_list ∷ [])
unfolding has_runner text_eq
lease_list_known = (refl, tt)

lease_list_valid : validate (config_of some_options) ≡ none
unfolding validate config_of valid_id trim_space text_eq
lease_list_valid = refl

valid_id-has_runner_example : valid_id lease_list ≡ has_runner lease_list
valid_id-has_runner_example = valid_id-has_runner lease_list

retried_is_extended_example :
    (get_scenario_timeout watch ≡ scenario_timeout_extended) ⊎ (watch ≡ codes "LEASE_LIST")
retried_is_extended_example = retried_is_extended watch watch_retried

run_from-contributions_example :
    run_from env 0 (lease_list ∷ lease_list ∷ []) []
    ≡ contributions env 0 (lease_list ∷ lease_list ∷ [])
run_from-contributions_example = run_from-contributions env 0 (lease_list ∷ lease_list ∷ []) []

run_scenarios-summary_example :
    (results : List Result) × (run_scenarios env (lease_list ∷ []) ≡ finished results)
    × (summary results ≡ expected replies 0 (lease_list ∷ []))
run_scenarios-summary_example =
    run_scenarios-summary env replies (lease_list ∷ []) lease_list_known ((λ k. refl), tt)

run_from-failed_example : failed (run_from hanging 0 (lease_list ∷ lease_list ∷ put ∷ []) []) ≡ true
unfolding max_attempts should_retry_scenario has_prefix contains text_eq verdict
run_from-failed_example =
    run_from-failed hanging (lease_list ∷ []) (put ∷ []) lease_list (refl, (refl, (refl, tt)))

panic_counts_twice_example :
    count_results (run_scenario (λ k. panicking (codes "boom") (result_of put true)) put [])
    ≡ (1, 1)
panic_counts_twice_example =
    panic_counts_twice (λ k. panicking (codes "boom") (result_of put true)) put (codes "boom")
      (result_of put true) (λ k. refl) refl

validate-config_of_example :
    (validate (config_of some_options) ≡ none) ↔ (names_valid some_options.scenario_id ≡ true)
validate-config_of_example = validate-config_of some_options

run_fails_iff_example :
    let results = run_from env 0 (config_of some_options).scenario_ids [] in
    (run env some_options ≡ none) ↔ (failed results ≡ false)
run_fails_iff_example = run_fails_iff env some_options lease_list_valid

lease_list_found : find_id lease_list id_string_to_id ≡ some 121
unfolding find_id text_eq
lease_list_found = refl

runner_by_name-runner_by_id_example :
    (f : Text) × (runner_by_name lease_list ≡ some f) × (runner_by_id 121 ≡ some f)
runner_by_name-runner_by_id_example = runner_by_name-runner_by_id lease_list 121 lease_list_found
