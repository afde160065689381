-- ===== src/Stress/Config.antt =====
-- configuration.go: the stress configuration, its check and its defaults; runner_workflow.go: the
-- scenario names of the command line.
use etcd_infra.Common.{
  ℕ, ◌≡◌, refl, sym, ap, subst, ◌∙◌, Bool, true, false, ◌&&◌, ◌||◌, List, [], ◌∷◌, Option, none,
  some, arith, if◌then◌else◌, is_empty, ℤ, pos, is_negative, is_non_positive, is_zero, Text, codes,
  split, sort, text_leb, map, trim_space,
}
use etcd_infra.Stress.Floats.{Floats, lt}
use etcd_infra.Stress.Registry.{valid_stress_id, runner_names}

-- The fields that the check reads or writes, with those of the run's shape. Floating-point fields
-- have the interface's type.
pub record Config (fl : Floats) : Type 0 where
  pub endpoints : List Text
  pub test_key_prefix : Text
  pub scenario_ids : List Text
  pub duration_seconds : ℤ
  pub concurrent_workers : ℤ
  pub requests_per_second : ℤ
  pub key_size_bytes : ℤ
  pub value_size_bytes : ℤ
  pub compact_interval_seconds : ℤ
  pub defrag_after_compact : Bool
  pub keyspace_scale : fl.F
  pub max_error_rate : fl.F
  pub max_latency_ms : ℤ
  pub warmup_duration_seconds : ℤ
  pub cooldown_duration_seconds : ℤ

pub data ConfigError : Type 0 where
  no_endpoints no_test_key_prefix no_scenarios : ConfigError
  unknown_scenario : Text → ConfigError
  negative_size negative_maintenance defrag_without_compact : ConfigError

-- resolveScenarioIDs for a name list of the command line: the trimmed parts between the commas,
-- without those that are empty
unfoldable pub trim_parts : List Text → List Text
trim_parts [] = []
trim_parts (p ∷ ps) =
    let rest = trim_parts ps in if is_empty (trim_space p) then rest else trim_space p ∷ rest

unfoldable pub resolve_scenario_ids : Text → List Text
unfolding trim_parts
resolve_scenario_ids scenario_id =
    if is_empty (trim_space scenario_id)
    then sort text_leb (map codes runner_names)
    else trim_parts (split (trim_space scenario_id) b',')

module _ (fl : Floats) where
  first_invalid : List Text → Option Text
  first_invalid [] = none
  first_invalid (id ∷ ids) = if valid_stress_id id then first_invalid ids else some id

  -- The checks that come before any default is set.
  unfoldable pub named_error : Config fl → Option ConfigError
  unfolding first_invalid
  named_error cfg =
      if is_empty cfg.endpoints
      then some no_endpoints
      else if is_empty cfg.test_key_prefix
      then some no_test_key_prefix
      else if is_empty cfg.scenario_ids
      then some no_scenarios
      else elim (first_invalid cfg.scenario_ids) [
        | none ↦ none
        | some id ↦ some (unknown_scenario id)
      ]

  abbrev or_positive : ℤ → ℕ → ℤ
  or_positive n default = if is_non_positive n then pos default else n

  -- The defaults for the duration and the workers, set before the sizes are checked.
  abbrev with_first_defaults : Config fl → Config fl
  with_first_defaults cfg = record cfg {
    duration_seconds = or_positive cfg.duration_seconds 60;
    concurrent_workers = or_positive cfg.concurrent_workers 10;
  }

  abbrev with_last_defaults : Config fl → Config fl
  with_last_defaults cfg = record cfg {
    max_error_rate = if fl.leq cfg.max_error_rate fl.zero then fl.half else cfg.max_error_rate;
    max_latency_ms = or_positive cfg.max_latency_ms 30000;
  }

  unfoldable pub size_error : Config fl → Option ConfigError
  size_error cfg =
      if is_negative cfg.key_size_bytes || is_negative cfg.value_size_bytes
      then some negative_size
      else if is_negative cfg.compact_interval_seconds || lt fl cfg.keyspace_scale fl.zero
      then some negative_maintenance
      else if cfg.defrag_after_compact && is_zero cfg.compact_interval_seconds
      then some defrag_without_compact
      else none

  abbrev finish : Config fl → Option ConfigError → Config fl × Option ConfigError
  finish cfg none = (with_last_defaults cfg, none)
  finish cfg (some e) = (cfg, some e)

  abbrev set_defaults : Config fl → Option ConfigError → Config fl × Option ConfigError
  set_defaults cfg none = let cfg' = with_first_defaults cfg in finish cfg' (size_error cfg')
  set_defaults cfg (some e) = (cfg, some e)

  -- Config.ValidateAndSetDefaults: the configuration as it is left, and the error.
  unfoldable pub validate_and_set_defaults : Config fl → Config fl × Option ConfigError
  validate_and_set_defaults cfg = set_defaults cfg (named_error cfg)

  -- What an accepted configuration guarantees to the runner.
  pub record IsReady (cfg : Config fl) : Type 0 where
    pub duration : is_non_positive cfg.duration_seconds ≡ false
    pub workers : is_non_positive cfg.concurrent_workers ≡ false
    pub latency : is_non_positive cfg.max_latency_ms ≡ false
    pub error_rate : fl.leq cfg.max_error_rate fl.zero ≡ false
    pub named : named_error cfg ≡ none
    pub sized : size_error cfg ≡ none
    pub key_size : is_negative cfg.key_size_bytes ≡ false
    pub value_size : is_negative cfg.value_size_bytes ≡ false
    pub interval : is_negative cfg.compact_interval_seconds ≡ false
    pub scale : lt fl cfg.keyspace_scale fl.zero ≡ false
    pub defrag :
        cfg.defrag_after_compact ≡ true → is_non_positive cfg.compact_interval_seconds ≡ false

  named_kept :
      (cfg : Config fl)
      → named_error (with_last_defaults (with_first_defaults cfg)) ≡ named_error cfg
  unfolding named_error
  named_kept cfg = refl

  size_kept :
      (cfg : Config fl)
      → size_error (with_last_defaults (with_first_defaults cfg))
        ≡ size_error (with_first_defaults cfg)
  unfolding size_error
  size_kept cfg = refl

  abbrev SizesGood : Config fl → Type 0
  SizesGood cfg =
      (is_negative cfg.key_size_bytes ≡ false)
      × (is_negative cfg.value_size_bytes ≡ false)
      × (is_negative cfg.compact_interval_seconds ≡ false)
      × (lt fl cfg.keyspace_scale fl.zero ≡ false)

  SizesGood-of_none : (cfg : Config fl) → size_error cfg ≡ none → SizesGood cfg
  unfolding size_error
  SizesGood-of_none cfg h = ground arith

  defrag_of_none :
      (cfg : Config fl)
      → size_error cfg ≡ none
      → cfg.defrag_after_compact ≡ true
      → is_non_positive cfg.compact_interval_seconds ≡ false
  unfolding size_error
  defrag_of_none cfg h d = ground arith

  IsReady-of_errors :
      (cfg : Config fl)
      → named_error cfg ≡ none
      → size_error (with_first_defaults cfg) ≡ none
      → IsReady (with_last_defaults (with_first_defaults cfg))
  IsReady-of_errors cfg named sized =
      let good = SizesGood-of_none (with_first_defaults cfg) sized in
      record {
        duration = ground arith;
        workers = ground arith;
        latency = ground arith;
        error_rate = ground (arith, fl.half-gt-zero);
        named = named_kept cfg ∙ named;
        sized = size_kept cfg ∙ sized;
        key_size = good.0;
        value_size = good.1;
        interval = good.2;
        scale = good.3;
        defrag = defrag_of_none (with_first_defaults cfg) sized;
      }

  defaults_of_IsReady :
      (cfg : Config fl) → IsReady cfg → with_last_defaults (with_first_defaults cfg) ≡ cfg
  defaults_of_IsReady cfg r = rw (r.duration, r.workers, r.latency, r.error_rate)

  validate_of_IsReady :
      (cfg : Config fl) → IsReady cfg → validate_and_set_defaults cfg ≡ (cfg, none)
  unfolding validate_and_set_defaults
  validate_of_IsReady cfg r = rw (r.named, r.duration, r.workers, r.sized, r.error_rate, r.latency)

  finish-none :
      (cfg cfg' : Config fl) (e : Option ConfigError)
      → finish cfg e ≡ (cfg', none)
      → (e ≡ none) × (with_last_defaults cfg ≡ cfg')
  finish-none cfg cfg' none h = (refl, ap (λ (p : Config fl × Option ConfigError). p.0) h)
  finish-none cfg cfg' (some e) h = absurd (cc (ap (λ (p : Config fl × Option ConfigError). p.1) h))

  set_defaults-IsReady :
      (cfg cfg' : Config fl) (e : Option ConfigError)
      → e ≡ named_error cfg
      → set_defaults cfg e ≡ (cfg', none)
      → IsReady cfg'
  set_defaults-IsReady cfg cfg' none n h =
      let (sized, e) =
        finish-none (with_first_defaults cfg) cfg' (size_error (with_first_defaults cfg)) h in
      subst IsReady e (IsReady-of_errors cfg (sym n) sized)
  set_defaults-IsReady cfg cfg' (some e) n h =
      absurd (cc (ap (λ (p : Config fl × Option ConfigError). p.1) h))

  -- An accepted configuration is ready: its names are good; the seconds of its run, its workers and its
  -- limits on the error rate and the latency are positive; its key and value sizes, its compaction
  -- interval and its keyspace scale are not negative; and defragmentation comes with a positive
  -- compaction interval. Checking it again accepts it and changes nothing.
  pub validate_and_set_defaults-IsReady :
      (cfg cfg' : Config fl)
      → validate_and_set_defaults cfg ≡ (cfg', none)
      → IsReady cfg' × (validate_and_set_defaults cfg' ≡ (cfg', none))
  validate_and_set_defaults-IsReady cfg cfg' h =
      let r : IsReady cfg' =
        unfold validate_and_set_defaults in
        set_defaults-IsReady cfg cfg' (named_error cfg) refl h in
      (r, validate_of_IsReady cfg' r)
