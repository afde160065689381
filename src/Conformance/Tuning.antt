-- ===== src/Conformance/Tuning.antt =====
-- suite_workflow.go: the timeout and the number of attempts that a scenario's name gives it.
use etcd_infra.Common.{
  ℕ, ◌+◌, ◌*◌, ◌^◌, ◌≡◌, ◌≢◌, ◌⊎◌, Bool, ◌||◌, arith, if◌then◌else◌, Text, codes, text_eq,
  text_eq_iff, has_prefix, contains,
}

-- time.Duration counts nanoseconds.
abbrev pub second : ℕ
second = 10 ^ 9

abbrev pub scenario_timeout_default : ℕ
scenario_timeout_default = 5 * 60 * second

abbrev pub scenario_timeout_extended : ℕ
scenario_timeout_extended = 10 * 60 * second

-- getScenarioTimeout: the cases of the `switch`, in order
unfoldable pub get_scenario_timeout : Text → ℕ
get_scenario_timeout s =
    if has_prefix s (codes "MIRROR_SYNC")
    then scenario_timeout_extended
    else if contains s (codes "CONTENDING")
    then scenario_timeout_extended
    else if has_prefix s (codes "WATCH_WITH")
    then scenario_timeout_extended
    else if has_prefix s (codes "MAINTENANCE")
    then scenario_timeout_extended
    else if text_eq s (codes "LEASING_PUT_AND_GET_AND_DELETE_CONCURRENT")
    then scenario_timeout_extended
    else if contains s (codes "WITH_PREFIX")
    then scenario_timeout_extended
    else if contains s (codes "FROM_KEY")
    then scenario_timeout_extended
    else if text_eq s (codes "TLS_CLIENT_AUTH")
    then scenario_timeout_extended
    else if text_eq s (codes "RESOURCE_SIZE_ESTIMATION")
    then scenario_timeout_extended
    else scenario_timeout_default

abbrev pub scenario_retry_count : ℕ
scenario_retry_count = 2

-- shouldRetryScenario
unfoldable pub should_retry_scenario : Text → Bool
should_retry_scenario s =
    has_prefix s (codes "WATCH_WITH")
    || contains s (codes "WITH_PREFIX")
    || contains s (codes "FROM_KEY")
    || text_eq s (codes "TLS_CLIENT_AUTH")
    || text_eq s (codes "RESOURCE_SIZE_ESTIMATION")
    || text_eq s (codes "LEASE_LIST")
    || text_eq s (codes "LEASING_PUT_AND_GET_AND_DELETE_CONCURRENT")

-- The number of attempts that `RunScenarios` gives a scenario.
unfoldable pub max_attempts : Text → ℕ
max_attempts s = if should_retry_scenario s then 1 + scenario_retry_count else 1

-- A scenario that may be run more than once has the extended timeout on each attempt, the lease
-- listing alone excepted.
pub retried_is_extended :
    (s : Text)
    → max_attempts s ≢ 1
    → (get_scenario_timeout s ≡ scenario_timeout_extended) ⊎ (s ≡ codes "LEASE_LIST")
unfolding max_attempts should_retry_scenario get_scenario_timeout
retried_is_extended s h = ground (arith, text_eq_iff s (codes "LEASE_LIST"))
