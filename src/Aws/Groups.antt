-- ===== src/Aws/Groups.antt =====
-- launch_group.go: CreateAutoScalingGroup, GroupMembers, WaitForGroupSize, DeleteAutoScalingGroup.
pub mod Owned
pub mod Waits
pub mod Size
use etcd_infra.Common.{
  ℕ, zero, suc, ◌+◌, ◌/◌, Bool, true, false, ◌||◌, List, [], ◌∷◌, Option, none, some, ◌⊎◌, inl, inr,
  if◌then◌else◌, ltb, ◌==◌, length, keep, map, join, sort, text_leb, Text, codes, text_eq,
}
use etcd_infra.Aws.{
  SdkError, api_error_code, is_group_not_found_error, AwsError, client_nil, already_exists,
  group_missing, timed_out, interrupted, sdk, LaunchGroupSpec, GroupRequest, GroupMember, Group,
  Cloud,
}
use etcd_infra.Aws.Tags.{lookup, or_nothing, sorted_keys, in_order, has_all_tags}

abbrev pub suspended_group_processes : List Text
suspended_group_processes = codes "AZRebalance" ∷ codes "ReplaceUnhealthy" ∷ []

unfoldable pub group_request : LaunchGroupSpec → Text → ℕ → GroupRequest
group_request spec template_id version = record {
  name = spec.name;
  template_id = template_id;
  version = version;
  min_size = spec.count;
  max_size = spec.count;
  desired_capacity = spec.count;
  subnets = join spec.subnet_ids (codes ",");
  tags = in_order spec.tags (sorted_keys spec.tags);
}

unfoldable pub in_service : GroupMember → Bool
in_service m = text_eq m.lifecycle_state (codes "InService")

abbrev tags_of :
    {W : Type 0} → W × (SdkError ⊎ List Group) → W × (AwsError ⊎ Option (List (Text × Text)))
tags_of (w, inl e) = (w, inl (sdk e))
tags_of (w, inr []) = (w, inr none)
tags_of (w, inr (g ∷ gs)) = (w, inr (some g.tags))

-- The instances of a group in the order of their IDs
abbrev pub members_of :
    {W : Type 0} → W × (SdkError ⊎ List Group) → W × (AwsError ⊎ Option (List GroupMember))
members_of (w, inl e) = (w, inl (sdk e))
members_of (w, inr []) = (w, inr none)
members_of (w, inr (g ∷ gs)) = (w, inr (some (sort (λ a b. text_leb a.id b.id) g.instances)))

-- The IDs, if the group is as large as asked for and all of it is in service
unfoldable pub ready_ids : ℕ → List GroupMember → Option (List Text)
unfolding in_service
ready_ids count members =
    let ids = map (λ m. m.id) (keep in_service members) in
    if length members == count then (if length ids == count then some ids else none) else none

-- What one look at the group says to the wait: an end, or to go on
unfoldable pub look : ℕ → AwsError ⊎ Option (List GroupMember) → Option (AwsError ⊎ List Text)
unfolding ready_ids
look count (inl e) = none
look count (inr none) = some (inl group_missing)
look count (inr (some members)) = elim (ready_ids count members) [
  | none ↦ none
  | some ids ↦ some (inr ids)
]

module _ {W : Type 0} (c : Cloud W) where
  unfoldable pub auto_scaling_group_tags : Text → W → W × (AwsError ⊎ Option (List (Text × Text)))
  auto_scaling_group_tags name w =
      if c.has_groups then tags_of (c.describe_groups name w) else (w, inl client_nil)

  abbrev pub suspended : W × Option SdkError → W × Option AwsError
  suspended (w, none) = (w, none)
  suspended (w, some e) = (w, some (sdk e))

  unfoldable pub suspend : Text → W → W × Option AwsError
  suspend name w = suspended (c.suspend_processes name suspended_group_processes w)

  -- The group that has the name already: if its tags show it as one's own, it is used.
  unfoldable pub taken_group :
      LaunchGroupSpec → W × (AwsError ⊎ Option (List (Text × Text))) → W × Option AwsError
  unfolding suspend
  taken_group spec (w, inl e) = (w, some already_exists)
  taken_group spec (w, inr none) = (w, some already_exists)
  taken_group spec (w, inr (some tags)) =
      if has_all_tags tags spec.tags then suspend spec.name w else (w, some already_exists)

  unfoldable pub group_created : LaunchGroupSpec → W × Option SdkError → W × Option AwsError
  unfolding taken_group auto_scaling_group_tags
  group_created spec (w, none) = suspend spec.name w
  group_created spec (w, some e) =
      if text_eq (api_error_code e) (codes "AlreadyExists")
      then taken_group spec (auto_scaling_group_tags spec.name w)
      else (w, some (sdk e))

  unfoldable pub create_auto_scaling_group : LaunchGroupSpec → Text → ℕ → W → W × Option AwsError
  unfolding group_created group_request
  create_auto_scaling_group spec template_id version w =
      if c.has_groups
      then group_created spec (c.create_group (group_request spec template_id version) w)
      else (w, some client_nil)

  unfoldable pub group_members : Text → W → W × (AwsError ⊎ Option (List GroupMember))
  group_members name w =
      if c.has_groups then members_of (c.describe_groups name w) else (w, inl client_nil)

  -- The loop of WaitForGroupSize; `none` if the rounds do not suffice. The error of a timeout also
  -- tells the last failed activity, which is only read.
  unfoldable pub size_loop : Text → ℕ → ℕ → ℕ → ℕ → W → Option (W × (AwsError ⊎ List Text))
  unfolding look
  size_loop name count deadline poll zero w = none
  size_loop name count deadline poll (suc fuel) w =
      let (w', r) = group_members name w in
      let (w'', done) = c.sleep poll w' in
      let rest = size_loop name count deadline poll fuel w'' in
      elim (look count r) [
        | some end ↦ some (w', end)
        | none ↦
            (if ltb deadline (c.now w')
              then some (w', inl timed_out)
              else if done
              then some (w'', inl interrupted)
              else rest)
      ]

  unfoldable pub wait_for_group_size : Text → ℕ → ℕ → ℕ → W → Option (W × (AwsError ⊎ List Text))
  unfolding size_loop
  wait_for_group_size name count timeout poll w =
      size_loop name count (c.now w + timeout) poll (timeout / poll + 2) w

  -- Whether the reply of a deletion lets the loop go on to the wait: the group goes, or is not there.
  abbrev pub deleted : Option SdkError → Bool
  deleted none = true
  deleted (some e) = is_group_not_found_error e

  abbrev pub in_use : Option SdkError → Bool
  in_use none = false
  in_use (some e) =
      text_eq (api_error_code e) (codes "ScalingActivityInProgress")
      || text_eq (api_error_code e) (codes "ResourceInUse")

  abbrev pub error_of : Option SdkError → AwsError
  error_of none = timed_out
  error_of (some e) = sdk e

  -- The first loop of DeleteAutoScalingGroup: until the group is being deleted
  unfoldable pub delete_loop : Text → ℕ → ℕ → ℕ → W → Option (W × Option AwsError)
  unfolding is_group_not_found_error
  delete_loop name deadline poll zero w = none
  delete_loop name deadline poll (suc fuel) w =
      let (w', r) = c.delete_group name w in
      let (w'', done) = c.sleep poll w' in
      let rest = delete_loop name deadline poll fuel w'' in
      if deleted r
      then some (w', none)
      else if in_use r
      then if ltb deadline (c.now w')
        then some (w', some (error_of r))
        else if done
        then some (w'', some interrupted)
        else rest
      else some (w', some (error_of r))

  abbrev pub is_gone : AwsError ⊎ Option (List GroupMember) → Bool
  is_gone (inl e) = false
  is_gone (inr none) = true
  is_gone (inr (some members)) = false

  -- The second loop: until the group is gone
  unfoldable pub gone_loop : Text → ℕ → ℕ → ℕ → W → Option (W × Option AwsError)
  unfolding group_members
  gone_loop name deadline poll zero w = none
  gone_loop name deadline poll (suc fuel) w =
      let (w', r) = group_members name w in
      let (w'', done) = c.sleep poll w' in
      let rest = gone_loop name deadline poll fuel w'' in
      if is_gone r
      then some (w', none)
      else if ltb deadline (c.now w')
      then some (w', some timed_out)
      else if done
      then some (w'', some interrupted)
      else rest

  abbrev pub then_gone :
      Text → ℕ → ℕ → ℕ → Option (W × Option AwsError) → Option (W × Option AwsError)
  then_gone name deadline poll fuel none = none
  then_gone name deadline poll fuel (some (w, some e)) = some (w, some e)
  then_gone name deadline poll fuel (some (w, none)) = gone_loop name deadline poll fuel w

  unfoldable pub delete_auto_scaling_group : Text → ℕ → ℕ → W → Option (W × Option AwsError)
  unfolding delete_loop gone_loop
  delete_auto_scaling_group name timeout poll w =
      let deadline = c.now w + timeout in
      let rounds = timeout / poll + 2 in
      if c.has_groups
      then then_gone name deadline poll rounds (delete_loop name deadline poll rounds w)
      else some (w, some client_nil)
