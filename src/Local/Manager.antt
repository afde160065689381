-- ===== src/Local/Manager.antt =====
-- manager.go, manager_lifecycle.go: the manager's operations on a cluster's containers. The
-- container runtime is a parameter, a world with its commands; what was asked of it is logged, the
-- newest event first. Sleeps, deadlines of single commands and texts of errors are left out.
pub mod Guarded
pub mod Restored
pub mod Created
pub mod Operations
use etcd_infra.Common.{
  ℕ, zero, suc, Bool, true, false, not, ◌&&◌, ◌||◌, List, [], ◌∷◌, ◌++◌, Option, none, some, ◌⊎◌,
  inl, inr, if◌then◌else◌, ℤ, is_negative, is_empty, is_some, Text, codes, text_eq, trim_space,
}
use etcd_infra.Local.Containers.{
  ContainerInspect, cluster_label, cluster_label_key, data_volume_name, is_pending_status,
  lookup_or,
}
use etcd_infra.Local.Env.{same_env}
use etcd_infra.Local.Arguments.{
  PortMapping, CreateConfig, ConfigError, client_port_mapping, validate_create_config,
  create_run_args,
}
use etcd_infra.Local.Replacement.{
  ReplacementSpec, SpecError, replacement_spec_from_inspect, run_args,
}

-- What `inspect` prints: nothing, for an error, or records, or a text that is no JSON list of them.
pub data Reply : Type 0 where
  failed garbled : Reply
  records : List ContainerInspect → Reply

-- The same for `volume inspect`, of which the labels are read.
pub data VolumeReply : Type 0 where
  failed garbled : VolumeReply
  volumes : List (List (Text × Text)) → VolumeReply

-- The runtime's commands; a command that fails has an error.
pub record Runtime (W : Type 0) : Type 0 where
  pub inspect : W → Text → W × Reply
  pub inspect_volume : W → Text → W × VolumeReply
  pub command : W → List Text → W × Option Text

pub data Event : Type 0 where
  inspected : Text → Reply → Event
  volume_inspected : Text → VolumeReply → Event
  removed volume_removed : Text → Event
  ran : List Text → Event

pub data LocalError : Type 0 where
  no_runtime no_cluster negative_downtime no_name no_image cancelled : LocalError
  already_exists volume_exists no_create_config : LocalError
  inspect_failed inspect_garbled wrong_count not_owned : LocalError
  bad_config : ConfigError → LocalError
  bad_spec : SpecError → LocalError
  command_failed : Text → LocalError
  pending relaunching not_replaced identity_changed : LocalError
  timed_out : LocalError → LocalError

pub record Manager : Type 0 where
  pub runtime : Text
  pub cluster : Text
  pub downtime : ℤ

-- Manager.validate
unfoldable pub validate : Manager → Option LocalError
validate m =
    if is_empty (trim_space m.runtime)
    then some no_runtime
    else if is_empty (trim_space m.cluster)
    then some no_cluster
    else if is_negative m.downtime
    then some negative_downtime
    else none

-- The checks of ownedContainer and ownedVolume.
unfoldable pub owned_record : Text → Reply → LocalError ⊎ ContainerInspect
owned_record cluster failed = inl inspect_failed
owned_record cluster garbled = inl inspect_garbled
owned_record cluster (records []) = inl wrong_count
owned_record cluster (records (c ∷ [])) =
    if text_eq (lookup_or [] cluster_label_key c.labels) cluster then inr c else inl not_owned
owned_record cluster (records (c ∷ c' ∷ cs)) = inl wrong_count

unfoldable pub owns_volume : Text → VolumeReply → Bool
owns_volume cluster failed = false
owns_volume cluster garbled = false
owns_volume cluster (volumes []) = false
owns_volume cluster (volumes (labels ∷ [])) =
    text_eq (lookup_or [] cluster_label_key labels) cluster
owns_volume cluster (volumes (l ∷ l' ∷ ls)) = false

abbrev pub exists : Reply → Bool
exists failed = false
exists garbled = true
exists (records cs) = true

abbrev pub volume_exists_in : VolumeReply → Bool
volume_exists_in failed = false
volume_exists_in garbled = true
volume_exists_in (volumes vs) = true

abbrev failure : Option Text → Option LocalError
failure none = none
failure (some e) = some (command_failed e)

-- The fields of compute.CreateRequest that Create reads; the configuration is `none` if it is not a
-- CreateConfig.
pub record CreateRequest : Type 0 where
  pub name : Text
  pub image : Text
  pub port_mappings : List PortMapping
  pub provider_config : Option CreateConfig

module _ {W : Type 0} (rt : Runtime W) where
  pub record State : Type 0 where
    pub world : W
    pub log : List Event

  abbrev pub Result : Type 0
  Result = State × Option LocalError

  abbrev pub inspect : Text → State → State × Reply
  inspect id s =
      let (w, r) = rt.inspect s.world id in (record { world = w; log = inspected id r ∷ s.log }, r)

  abbrev pub inspect_volume : Text → State → State × VolumeReply
  inspect_volume v s =
      let (w, r) = rt.inspect_volume s.world v in
      (record { world = w; log = volume_inspected v r ∷ s.log }, r)

  abbrev pub logged : Event → W × Option Text → State → Result
  logged e (w, err) s = (record { world = w; log = e ∷ s.log }, failure err)

  abbrev pub run_command : List Text → State → Result
  run_command args s = logged (ran args) (rt.command s.world args) s

  abbrev pub remove : Text → State → Result
  remove id s = logged (removed id) (rt.command s.world (codes "rm" ∷ codes "--force" ∷ id ∷ [])) s

  abbrev pub remove_volume : Text → State → Result
  remove_volume v s =
      logged (volume_removed v)
        (rt.command s.world (codes "volume" ∷ codes "rm" ∷ codes "--force" ∷ v ∷ [])) s

  -- ownedContainer
  abbrev pub owned_container : Text → Text → State → State × (LocalError ⊎ ContainerInspect)
  owned_container cluster id s = let (s', r) = inspect id s in (s', owned_record cluster r)

  abbrev pub on_owned :
      (State → ContainerInspect → Result) → State × (LocalError ⊎ ContainerInspect) → Result
  on_owned k (s, inl e) = (s, some e)
  on_owned k (s, inr c) = k s c

  abbrev pub unless : Option LocalError → State → Result → Result
  unless (some e) s r = (s, some e)
  unless none s r = r

  -- How Delete, Stop, Start and ReplaceMachine begin; `early` is the check that ReplaceMachine alone
  -- makes before it inspects the container.
  unfoldable pub with_owned :
      Manager
      → Option LocalError
      → Text
      → (Text → State → ContainerInspect → Result)
      → State
      → Result
  unfolding validate
  with_owned m early id k s = unless (validate m) s (
      if is_empty (trim_space id)
      then (s, some no_name)
      else unless early s
          (on_owned (k (trim_space id)) (owned_container m.cluster (trim_space id) s)))

  -- Manager.Get, less the view of the container that it returns
  unfoldable pub get : Manager → Text → State → Result
  unfolding with_owned
  get m id s = with_owned m none id (λ id s c. (s, none)) s

  -- Manager.Delete
  unfoldable pub delete : Manager → Text → State → Result
  unfolding with_owned
  delete m id s = with_owned m none id (λ id s c. remove id s) s

  -- Manager.power, with "stop" for Stop and "start" for Start
  unfoldable pub power : Manager → Text → Text → State → Result
  unfolding with_owned
  power m operation id s = with_owned m none id (λ id s c. run_command (operation ∷ id ∷ []) s) s

  -- What one round of restoreContainer comes to.
  pub data Next : Type 0 where
    done : Next
    fail again : LocalError → Next

  abbrev pub same_identity : ReplacementSpec → ReplacementSpec → Bool
  same_identity after before =
      text_eq after.private_ip before.private_ip
      && text_eq after.volume before.volume
      && text_eq after.aux_publish before.aux_publish
      && same_env after.env before.env

  abbrev then_again : LocalError → Result → State × Next
  then_again e (s, none) = (s, again e)
  then_again e (s, some e') = (s, again e')

  abbrev then_unless : LocalError → Result → State × Next
  then_unless e (s, none) = (s, again e)
  then_unless e (s, some e') = (s, fail e)

  -- A running container.
  unfoldable pub judge_running :
      ReplacementSpec → State → SpecError ⊎ ReplacementSpec → State × Next
  judge_running before s (inl e) = (s, again (bad_spec e))
  judge_running before s (inr after) =
      if text_eq after.container_id before.container_id
      then (s, fail not_replaced)
      else if same_identity after before
      then (s, done)
      else then_unless identity_changed (remove before.name s)

  unfoldable pub judge_owned :
      Text → ReplacementSpec → State × (LocalError ⊎ ContainerInspect) → State × Next
  unfolding judge_running
  judge_owned cluster before (s, inl e) = then_again e (run_command (run_args before) s)
  judge_owned cluster before (s, inr c) =
      if c.running
      then judge_running before s (replacement_spec_from_inspect c cluster)
      else if is_pending_status c.status
      then (s, again pending)
      else then_again relaunching (remove before.name s)

  -- The body of restoreContainer's loop.
  unfoldable pub attempt : Text → ReplacementSpec → State → State × Next
  unfolding judge_owned
  attempt cluster before s = judge_owned cluster before (owned_container cluster before.name s)

  abbrev at_deadline : State × Next → Result
  at_deadline (s, done) = (s, none)
  at_deadline (s, fail e) = (s, some e)
  at_deadline (s, again e) = (s, some (timed_out e))

  -- restoreContainer, when `ticks` ticks come before the deadline
  unfoldable pub restore_container : Text → ReplacementSpec → ℕ → State → Result
  unfolding attempt
  restore_container cluster before zero s = at_deadline (attempt cluster before s)
  restore_container cluster before (suc ticks) s =
      let (s', next) = attempt cluster before s in
      elim next [
        | done ↦ (s', none)
        | fail e ↦ (s', some e)
        | again e ↦ restore_container cluster before ticks s'
      ]

  unfoldable pub and_restore : Text → ReplacementSpec → ℕ → Result → Result
  unfolding restore_container
  and_restore cluster before ticks (s, some e) = (s, some e)
  and_restore cluster before ticks (s, none) = restore_container cluster before ticks s

  unfoldable pub replace_owned : Text → ℕ → State → SpecError ⊎ ReplacementSpec → Result
  unfolding and_restore
  replace_owned cluster ticks s (inl e) = (s, some (bad_spec e))
  replace_owned cluster ticks s (inr before) =
      and_restore cluster before ticks (remove before.name s)

  -- Manager.ReplaceMachine; `is_cancelled` is the state of the caller's context when it begins
  unfoldable pub replace_machine : Manager → Bool → ℕ → Text → State → Result
  unfolding with_owned replace_owned
  replace_machine m is_cancelled ticks id s =
      with_owned m (if is_cancelled then some cancelled else none) id
        (λ id s c. replace_owned m.cluster ticks s (replacement_spec_from_inspect c m.cluster)) s

  -- The deferred function of Create, when nothing was created.
  abbrev pub remove_owned : Text → State × (LocalError ⊎ ContainerInspect) → State
  remove_owned name (s, inl e) = s
  remove_owned name (s, inr c) = (remove name s).0

  unfoldable pub remove_owned_volume : Text → Text → State × VolumeReply → State
  unfolding owns_volume
  remove_owned_volume cluster volume (s, r) =
      if owns_volume cluster r then (remove_volume volume s).0 else s

  unfoldable pub clean_up : Text → Text → Text → State → State
  unfolding remove_owned_volume
  clean_up cluster name volume s =
      remove_owned_volume cluster volume
        (inspect_volume volume (remove_owned name (owned_container cluster name s)))

  unfoldable pub or_clean_up : Text → Text → Text → Result → Result
  unfolding clean_up
  or_clean_up cluster name volume (s, none) = (s, none)
  or_clean_up cluster name volume (s, some e) = (clean_up cluster name volume s, some e)

  abbrev pub and_then : Result → (State → Result) → Result
  and_then (s, some e) k = (s, some e)
  and_then (s, none) k = k s

  -- Create from the check of the volume on; `name` is trimmed.
  unfoldable pub create_resources :
      Manager → Text → Text → PortMapping → CreateConfig → State × VolumeReply → Result
  unfolding get or_clean_up
  create_resources m name image port cfg (s, r) =
      let volume = data_volume_name name in
      if volume_exists_in r
      then (s, some volume_exists)
      else and_then
          (run_command
            (codes "volume"
              ∷ codes "create"
              ∷ codes "--label"
              ∷ cluster_label m.cluster
              ∷ volume
              ∷ [])
            s)
          (λ s'. or_clean_up m.cluster name volume (
            and_then (run_command (create_run_args m.cluster name image volume port cfg) s')
              (get m name)))

  abbrev pub config_failure : Option ConfigError → Option LocalError
  config_failure none = none
  config_failure (some e) = some (bad_config e)

  unfoldable pub create_with_port :
      Manager → Text → Text → CreateConfig → State → ConfigError ⊎ PortMapping → Result
  unfolding create_resources
  create_with_port m name image cfg s (inl e) = (s, some (bad_config e))
  create_with_port m name image cfg s (inr port) =
      unless (config_failure (validate_create_config cfg)) s
        (create_resources m name image port cfg (inspect_volume (data_volume_name name) s))

  -- Create from the check of its configuration on.
  unfoldable pub create_named :
      Manager → Text → CreateRequest → State → Option CreateConfig → Result
  unfolding create_with_port
  create_named m name req s none = (s, some no_create_config)
  create_named m name req s (some cfg) =
      if is_empty cfg.command
      then (s, some no_create_config)
      else create_with_port m name req.image cfg s (client_port_mapping req.port_mappings)

  abbrev pub unless_exists : State × Reply → (State → Result) → Result
  unless_exists (s, r) k = if exists r then (s, some already_exists) else k s

  -- Manager.Create
  unfoldable pub create : Manager → CreateRequest → State → Result
  unfolding create_named
  create m req s =
      let name = trim_space req.name in
      unless (validate m) s (
        if is_empty name
        then (s, some no_name)
        else if is_empty (trim_space req.image)
        then (s, some no_image)
        else unless_exists (inspect name s) (λ s'. create_named m name req s' req.provider_config))
