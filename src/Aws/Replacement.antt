-- ===== src/Aws/Replacement.antt =====
-- pkg/providers/aws/manager_lifecycle.go: replacing a machine that no Auto Scaling group owns.
pub mod Trace
use etcd_infra.Common.{
  ℕ, zero, suc, Bool, true, false, not, ◌&&◌, List, [], ◌∷◌, Option, none, some, ◌⊎◌, inl, inr,
  if◌then◌else◌, is_empty, has_prefix, keep, sort, text_leb, trim_space, Text, codes, text_eq,
}

pub record Instance : Type 0 where
  pub id : Text
  pub state : Text
  pub image_id : Text
  pub instance_type : Text
  pub subnet_id : Text
  pub private_ip : Text
  pub security_groups : List Text
  -- A device, with its volume if it is an EBS volume
  pub mappings : List (Text × Option Text)
  pub tags : List (Text × Text)
  pub key_name : Text
  pub profile_arn : Text

pub record RunInput : Type 0 where
  pub min_count : ℕ
  pub max_count : ℕ
  pub image_id : Text
  pub instance_type : Text
  pub subnet_id : Text
  pub private_ip : Text
  pub tags : List (Text × Text)
  pub security_groups : List Text
  pub key_name : Option Text
  pub profile_arn : Option Text

pub record ReplaceLaunchSpec : Type 0 where
  pub input : RunInput
  pub data_volume_id : Text

pub data DescribeReply : Type 0 where
  describe_failed id_not_found : DescribeReply
  described : List Instance → DescribeReply

pub data RunReply : Type 0 where
  run_failed ip_in_use : RunReply
  launched : List Text → RunReply

pub data ReplaceError : Type 0 where
  client_nil id_required describe_error not_found no_private_ip terminate_failed not_terminated
        volume_not_available :
      ReplaceError
  relaunch_failed ip_still_in_use no_instances not_running attach_failed : ReplaceError

-- The calls that change something, with their answers
pub data Call : Type 0 where
  terminated : Text → Bool → Call
  ran : RunInput → RunReply → Call
  attached : Text → Text → Bool → Call

-- EC2 over the state of the cloud, the passing of time between two looks, and how many of these each
-- wait has before its deadline or the end of its context.
pub record Ec2 (W : Type 0) : Type 0 where
  pub has_client : Bool
  pub describe : Text → W → W × DescribeReply
  pub describe_volume : Text → W → W × Option (List Text)
  pub terminate : Text → W → W × Bool
  pub run : RunInput → W → W × RunReply
  pub attach : Text → Text → W → W × Bool
  pub tick : W → W
  pub terminate_ticks : ℕ
  pub volume_ticks : ℕ
  pub relaunch_ticks : ℕ
  pub running_ticks : ℕ

pub record ReplaceState (W : Type 0) : Type 0 where
  pub world : W
  pub log : List Call

abbrev pub data_volume_device_name : Text
data_volume_device_name = codes "/dev/xvdf"

-- The last instance with the ID
unfoldable pub find_last : Text → List Instance → Option Instance
find_last id [] = none
find_last id (i ∷ is) = elim (find_last id is) [
  | some j ↦ some j
  | none ↦ (if text_eq i.id id then some i else none)
]

unfoldable pub data_volume : List (Text × Option Text) → Text → Text
data_volume [] found = found
data_volume ((device, none) ∷ ms) found = data_volume ms found
data_volume ((device, some v) ∷ ms) found =
    data_volume ms (if text_eq device data_volume_device_name then v else found)

abbrev is_own_tag : Text × Text → Bool
is_own_tag (k, v) = not (is_empty k) && not (has_prefix k (codes "aws:"))

abbrev non_empty : Text → Option Text
non_empty [] = none
non_empty (c ∷ s) = some (c ∷ s)

unfoldable pub relaunch_input : Instance → RunInput
relaunch_input i = record {
  min_count = 1;
  max_count = 1;
  image_id = i.image_id;
  instance_type = i.instance_type;
  subnet_id = i.subnet_id;
  private_ip = i.private_ip;
  tags = sort (λ a b. text_leb a.0 b.0) (keep is_own_tag i.tags);
  security_groups = sort text_leb (keep (λ g. not (is_empty g)) i.security_groups);
  key_name = non_empty i.key_name;
  profile_arn = non_empty i.profile_arn;
}

unfoldable pub spec_of : Option Instance → ReplaceError ⊎ ReplaceLaunchSpec
unfolding relaunch_input data_volume
spec_of none = inl not_found
spec_of (some i) =
    if is_empty i.private_ip
    then inl no_private_ip
    else inr (record { input = relaunch_input i; data_volume_id = data_volume i.mappings [] })

-- launchSpecForReplace, from the answer of EC2
unfoldable pub launch_spec_for_replace : Text → DescribeReply → ReplaceError ⊎ ReplaceLaunchSpec
unfolding spec_of find_last
launch_spec_for_replace id describe_failed = inl describe_error
launch_spec_for_replace id id_not_found = inl describe_error
launch_spec_for_replace id (described is) = spec_of (find_last id is)

-- The state of the first instance with the ID, as Get finds it
unfoldable pub state_of : Text → List Instance → Option Text
state_of id [] = none
state_of id (i ∷ is) = let rest = state_of id is in if text_eq i.id id then some i.state else rest

-- WaitForTerminated's test: mapEC2State takes an instance that is shutting down for terminated.
unfoldable pub seen_terminated : Text → DescribeReply → Bool
unfolding state_of
seen_terminated id describe_failed = false
seen_terminated id id_not_found = true
seen_terminated id (described is) = elim (state_of id is) [
  | none ↦ true
  | some s ↦ (if text_eq s (codes "terminated") then true else text_eq s (codes "shutting-down"))
]

unfoldable pub seen_running : Text → DescribeReply → Bool
unfolding state_of
seen_running id describe_failed = false
seen_running id id_not_found = false
seen_running id (described is) = elim (state_of id is) [
  | none ↦ false
  | some s ↦ text_eq s (codes "running")
]

unfoldable pub seen_available : Option (List Text) → Bool
seen_available none = false
seen_available (some []) = false
seen_available (some (s ∷ [])) = text_eq s (codes "available")
seen_available (some (s ∷ t ∷ ss)) = false

module _ {W : Type 0} (e : Ec2 W) where
  -- The loops of the waits: looks until one succeeds or the ticks run out
  unfoldable pub wait_for : (W → W × Bool) → ℕ → W → W × Bool
  wait_for look zero w = look w
  wait_for look (suc ticks) w =
      let (w', seen) = look w in
      let rest = wait_for look ticks (e.tick w') in if seen then (w', true) else rest

  abbrev pub look_terminated : Text → W → W × Bool
  look_terminated id w = let (w', r) = e.describe id w in (w', seen_terminated id r)

  abbrev pub look_running : Text → W → W × Bool
  look_running id w = let (w', r) = e.describe id w in (w', seen_running id r)

  abbrev pub look_available : Text → W → W × Bool
  look_available volume w = let (w', r) = e.describe_volume volume w in (w', seen_available r)

  abbrev pub R : Type 0 → Type 0
  R A = ReplaceState W × (ReplaceError ⊎ A)

  abbrev pub then_do : {A B : Type 0} → R A → (A → ReplaceState W → R B) → R B
  then_do (s, inl err) k = (s, inl err)
  then_do (s, inr a) k = k a s

  unfoldable pub terminate_old : Text → ReplaceState W → R (Unit {0})
  terminate_old id s =
      let (w, good) = e.terminate id s.world in
      (
        record { world = w; log = terminated id good ∷ s.log },
        if good then inr tt else inl terminate_failed,
      )

  unfoldable pub wait_or : (W → W × Bool) → ℕ → ReplaceError → ReplaceState W → R (Unit {0})
  unfolding wait_for
  wait_or look ticks err s =
      let (w, seen) = wait_for look ticks s.world in
      (record s { world = w }, if seen then inr tt else inl err)

  -- What follows a try to launch: the end, or the rest of the loop if the address is in use
  abbrev pub after_run : ReplaceState W → R Text → RunReply → R Text
  after_run s rest run_failed = (s, inl relaunch_failed)
  after_run s rest ip_in_use = rest
  after_run s rest (launched []) = (s, inl no_instances)
  after_run s rest (launched (id ∷ ids)) = (s, inr id)

  -- The loop of the relaunch: again as long as the address is in use
  unfoldable pub relaunch : ℕ → RunInput → ReplaceState W → R Text
  relaunch zero input s =
      let (w, r) = e.run input s.world in
      let s' : ReplaceState W = record { world = w; log = ran input r ∷ s.log } in
      after_run s' (s', inl ip_still_in_use) r
  relaunch (suc ticks) input s =
      let (w, r) = e.run input s.world in
      let s' : ReplaceState W = record { world = w; log = ran input r ∷ s.log } in
      let rest = relaunch ticks input (record s' { world = e.tick w }) in after_run s' rest r

  -- TerminateInstances for the replacement, whose error is dropped
  unfoldable pub terminate_new : Text → ReplaceError → ReplaceState W → R Text
  terminate_new id err s =
      let (w, good) = e.terminate id s.world in
      (record { world = w; log = terminated id good ∷ s.log }, inl err)

  unfoldable pub attach_to : Text → Text → ReplaceState W → R Text
  unfolding terminate_new
  attach_to volume id s =
      let (w, good) = e.attach volume id s.world in
      let s' : ReplaceState W = record { world = w; log = attached volume id good ∷ s.log } in
      if good then (s', inr id) else terminate_new id attach_failed s'

  unfoldable pub reattach : Text → Text → ReplaceState W → R Text
  unfolding attach_to wait_for
  reattach volume id s =
      let (w, seen) = wait_for (look_running id) e.running_ticks s.world in
      let s' : ReplaceState W = record s { world = w } in
      if is_empty volume
      then (s, inr id)
      else if seen
      then attach_to volume id s'
      else terminate_new id not_running s'

  unfoldable pub replace_with : Text → ReplaceLaunchSpec → ReplaceState W → R Text
  unfolding terminate_old wait_or relaunch reattach
  replace_with id spec s = then_do (terminate_old id s) λ _ s1.
      then_do (wait_or (look_terminated id) e.terminate_ticks not_terminated s1) λ _ s2.
        then_do
          (if is_empty spec.data_volume_id
            then (s2, inr tt)
            else wait_or (look_available spec.data_volume_id) e.volume_ticks volume_not_available
                s2)
          λ _ s3.
            then_do (relaunch e.relaunch_ticks spec.input s3)
              λ new s4. reattach spec.data_volume_id new s4

  abbrev pub with_spec : Text → ReplaceState W → ReplaceError ⊎ ReplaceLaunchSpec → R Text
  with_spec id s (inl err) = (s, inl err)
  with_spec id s (inr spec) = replace_with id spec s

  unfoldable pub replace_standalone : Text → ReplaceState W → R Text
  unfolding replace_with launch_spec_for_replace
  replace_standalone id s =
      let (w, r) = e.describe id s.world in
      if e.has_client
      then with_spec id (record s { world = w }) (launch_spec_for_replace id r)
      else (s, inl client_nil)
