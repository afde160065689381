-- ===== src/Conformance/Config.antt =====
-- suite_workflow.go: the options of the command, their normal form and the check of the
-- configuration. Flags come in as texts; the maps of the registry give the scenario names.
use etcd_infra.Common.{
  ◌≡◌, refl, ap, ◌∙◌, ◌↔◌, inl, inr, Bool, true, false, ◌||◌, List, [], ◌∷◌, map, Option, none,
  some, arith, Bool-cases, if◌then◌else◌, is_empty, All, Text, codes, trim_space, trim_space_idem,
  sort, sort-All, sort-is_empty, All-imp, text_leb,
}
use etcd_infra.Conformance.Registry.{
  valid_id, has_runner, valid_id-has_runner, runner_names-has_runner,
}
use etcd_infra.Conformance.Registry.Tables.{runner_names}

pub record Options : Type 0 where
  pub endpoints : List Text
  pub ca_cert_file : Text
  pub client_cert_file : Text
  pub client_key_file : Text
  pub test_key_prefix : Text
  pub scenario_id : Text
  pub step_timeout : Text

pub record Config : Type 0 where
  pub endpoints : List Text
  pub ca_cert_file : Text
  pub private_key_file : Text
  pub cert_file : Text
  pub test_key_prefix : Text
  pub scenario_ids : List Text
  pub step_timeout : Text

abbrev pub default_endpoints : Text
default_endpoints = codes "https://127.0.0.1:2379"

abbrev pub default_test_key_prefix : Text
default_test_key_prefix = codes "/etcd-infra-conformance/"

-- The trimmed endpoints, without those that are empty.
unfoldable pub trim_endpoints : List Text → List Text
trim_endpoints [] = []
trim_endpoints (e ∷ es) =
    let rest = trim_endpoints es in if is_empty (trim_space e) then rest else trim_space e ∷ rest

abbrev or_default : List Text → List Text
or_default [] = default_endpoints ∷ []
or_default (e ∷ es) = e ∷ es

-- normalizeEndpoints
unfoldable normalize_endpoints : List Text → List Text
unfolding trim_endpoints
normalize_endpoints endpoints = or_default (trim_endpoints (or_default endpoints))

-- resolveScenarioIDs
unfoldable pub resolve_scenario_ids : Text → List Text
resolve_scenario_ids scenario_id =
    if is_empty (trim_space scenario_id)
    then sort text_leb (map codes runner_names)
    else trim_space scenario_id ∷ []

-- normalizeTestKeyPrefix
unfoldable pub normalize_test_key_prefix : Text → Text
normalize_test_key_prefix prefix =
    if is_empty (trim_space prefix) then default_test_key_prefix else trim_space prefix

pub data ConfigError : Type 0 where
  no_endpoints no_test_key_prefix no_scenarios : ConfigError
  unknown_scenario : Text → ConfigError

unfoldable pub first_invalid : List Text → Option Text
first_invalid [] = none
first_invalid (id ∷ ids) = if valid_id id then first_invalid ids else some id

abbrev invalid_id : Option Text → Option ConfigError
invalid_id none = none
invalid_id (some id) = some (unknown_scenario id)

-- Config.ValidateAndSetDefaults, which changes no field
unfoldable pub validate : Config → Option ConfigError
unfolding first_invalid
validate cfg =
    if is_empty cfg.endpoints
    then some no_endpoints
    else if is_empty cfg.test_key_prefix
    then some no_test_key_prefix
    else if is_empty cfg.scenario_ids
    then some no_scenarios
    else invalid_id (first_invalid cfg.scenario_ids)

-- The configuration that Run makes of the options.
unfoldable pub config_of : Options → Config
unfolding normalize_endpoints normalize_test_key_prefix resolve_scenario_ids
config_of opts = record {
  endpoints = normalize_endpoints opts.endpoints;
  ca_cert_file = trim_space opts.ca_cert_file;
  private_key_file = trim_space opts.client_key_file;
  cert_file = trim_space opts.client_cert_file;
  test_key_prefix = normalize_test_key_prefix opts.test_key_prefix;
  scenario_ids = resolve_scenario_ids opts.scenario_id;
  step_timeout = trim_space opts.step_timeout;
}

-- An endpoint that the client can be given: trimmed, and not empty.
abbrev IsEndpoint : Text → Type 0
IsEndpoint e = (trim_space e ≡ e) × (is_empty e ≡ false)

trim_endpoints-IsEndpoint : (es : List Text) → All IsEndpoint (trim_endpoints es)
unfolding trim_endpoints
trim_endpoints-IsEndpoint [] = tt
trim_endpoints-IsEndpoint (e ∷ es) = elim (Bool-cases (is_empty (trim_space e))) [
  | inl h ↦ rw h (trim_endpoints-IsEndpoint es)
  | inr h ↦ rw h ((trim_space_idem e, h), trim_endpoints-IsEndpoint es)
]

trim_endpoints_of_IsEndpoint : (es : List Text) → All IsEndpoint es → trim_endpoints es ≡ es
unfolding trim_endpoints
trim_endpoints_of_IsEndpoint [] h = refl
trim_endpoints_of_IsEndpoint (e ∷ es) ((t, p), h) =
    rw (t, p) (ap (◌∷◌ e) (trim_endpoints_of_IsEndpoint es h))

or_default-IsEndpoint : (es : List Text) → All IsEndpoint es → All IsEndpoint (or_default es)
unfolding trim_space
or_default-IsEndpoint [] h = ((refl, refl), tt)
or_default-IsEndpoint (e ∷ es) h = h

or_default-is_empty : (es : List Text) → is_empty (or_default es) ≡ false
or_default-is_empty [] = refl
or_default-is_empty (e ∷ es) = refl

or_default_idem : (es : List Text) → or_default (or_default es) ≡ or_default es
or_default_idem [] = refl
or_default_idem (e ∷ es) = refl

-- Whatever the endpoints given, the normal form is not empty, holds only trimmed endpoints that are
-- not empty, and is its own normal form.
normalize_endpoints_normal :
    (es : List Text)
    → let n = normalize_endpoints es in
      (is_empty n ≡ false) × All IsEndpoint n × (normalize_endpoints n ≡ n)
unfolding normalize_endpoints
normalize_endpoints_normal es =
    let es' = trim_endpoints (or_default es) in
    let good : All IsEndpoint (or_default es') =
      or_default-IsEndpoint es' (trim_endpoints-IsEndpoint (or_default es)) in
    (
      or_default-is_empty es',
      good,
      rw (
        or_default_idem es',
        trim_endpoints_of_IsEndpoint (or_default es') good,
        or_default_idem es',
      ),
    )

first_invalid-none : (ids : List Text) → first_invalid ids ≡ none → All (λ s. valid_id s ≡ true) ids
unfolding first_invalid
first_invalid-none [] h = tt
first_invalid-none (id ∷ ids) h = elim (Bool-cases (valid_id id)) [
  | inl e ↦ (e, first_invalid-none ids (ground arith))
  | inr e ↦ absurd (ground arith)
]

first_invalid_of_valid :
    (ids : List Text) → All (λ s. valid_id s ≡ true) ids → first_invalid ids ≡ none
unfolding first_invalid
first_invalid_of_valid [] h = refl
first_invalid_of_valid (id ∷ ids) (v, h) = rw v (first_invalid_of_valid ids h)

invalid_id-none : (o : Option Text) → invalid_id o ≡ none → o ≡ none
invalid_id-none none h = refl
invalid_id-none (some id) h = absurd (cc)

-- A configuration that is accepted names scenarios of the registry only.
pub validate-valid :
    (cfg : Config) → validate cfg ≡ none → All (λ s. valid_id s ≡ true) cfg.scenario_ids
unfolding validate
validate-valid cfg h =
    first_invalid-none cfg.scenario_ids
      (ground (arith, invalid_id-none (first_invalid cfg.scenario_ids)))

normalize_test_key_prefix-is_empty : (p : Text) → is_empty (normalize_test_key_prefix p) ≡ false
unfolding normalize_test_key_prefix
normalize_test_key_prefix-is_empty p = ground arith

every_scenario_good : All (λ s. valid_id s ≡ true) (sort text_leb (map codes runner_names))
every_scenario_good =
    sort-All text_leb (λ s. valid_id s ≡ true) (map codes runner_names)
      (All-imp {P = λ s. has_runner s ≡ true} (map codes runner_names)
        (λ s h. valid_id-has_runner s ∙ h) runner_names-has_runner)

all_scenarios_some : is_empty (sort text_leb (map codes runner_names)) ≡ false
all_scenarios_some = sort-is_empty text_leb (map codes runner_names)

-- A configuration is accepted if it has endpoints, a prefix, and scenarios of the registry only.
validate_of_valid :
    (cfg : Config)
    → is_empty cfg.endpoints ≡ false
    → is_empty cfg.test_key_prefix ≡ false
    → is_empty cfg.scenario_ids ≡ false
    → All (λ s. valid_id s ≡ true) cfg.scenario_ids
    → validate cfg ≡ none
unfolding validate
validate_of_valid cfg e p i v = rw (e, p, i, first_invalid_of_valid cfg.scenario_ids v) refl

-- The scenario that the options name, if they name one, is in the registry.
abbrev pub names_valid : Text → Bool
names_valid id = is_empty (trim_space id) || valid_id (trim_space id)

resolve_scenario_ids-valid :
    (id : Text)
    → names_valid id ≡ true
    → (is_empty (resolve_scenario_ids id) ≡ false)
      × All (λ s. valid_id s ≡ true) (resolve_scenario_ids id)
unfolding resolve_scenario_ids
resolve_scenario_ids-valid id h = elim (Bool-cases (is_empty (trim_space id))) [
  | inl e ↦ rw e (all_scenarios_some, every_scenario_good)
  | inr e ↦ rw e (refl, (ground arith, tt))
]

names_valid_of_ids :
    (id : Text) → All (λ s. valid_id s ≡ true) (resolve_scenario_ids id) → names_valid id ≡ true
unfolding resolve_scenario_ids
names_valid_of_ids id h = elim (Bool-cases (is_empty (trim_space id))) [
  | inl e ↦ rw e
  | inr e ↦ let (v, _) = rw e at h in rw (e, v)
]

-- The configuration that is made of any options is accepted exactly when no scenario is named or the
-- one that is named belongs to the registry: endpoints and prefix are always good.
pub validate-config_of :
    (opts : Options) → (validate (config_of opts) ≡ none) ↔ (names_valid opts.scenario_id ≡ true)
unfolding config_of
validate-config_of opts = (
  λ h. names_valid_of_ids opts.scenario_id (validate-valid (config_of opts) h),
  λ h.
      let (some_id, valid) = resolve_scenario_ids-valid opts.scenario_id h in
      validate_of_valid (config_of opts) (normalize_endpoints_normal opts.endpoints).0
        (normalize_test_key_prefix-is_empty opts.test_key_prefix) some_id valid,
)
