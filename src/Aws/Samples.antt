-- ===== src/Aws/Samples.antt =====
-- A small cloud: its state is the time, and the group is there until an hour after the start.
use Prim.Native.Nat.{ℕ}
use etcd_infra.Common.{
  zero, suc, ◌≤◌, ◌<◌, ◌⊎◌, ◌↔◌, length, take, subst, ◌+◌, ◌≡◌, refl, Bool, true, false, List, [],
  ◌∷◌, Option, none, some, inl, inr, is_empty, leb, ltb, if◌then◌else◌, arith, pos, Text, codes,
  text_eq, sort, text_leb,
}
use etcd_infra.Aws.{
  SdkError, api_error_code, AwsError, already_exists, LaunchGroupSpec, LaunchTemplate, GroupMember,
  Cloud,
}
use etcd_infra.Aws.Tags.{ec2_tags, Distinct, lookup, has_all_tags}
use etcd_infra.Aws.Templates.{
  create_launch_template, template_request, template_taken, create_launch_template_again,
}
use etcd_infra.Aws.Groups.{
  create_auto_scaling_group, group_request, group_members, wait_for_group_size,
  delete_auto_scaling_group,
}
use etcd_infra.Aws.Groups.Owned.{OwnGroup, create_auto_scaling_group-OwnGroup}
use etcd_infra.Aws.Groups.Waits.{SeenGone, Ticks, delete_auto_scaling_group_correct}
use etcd_infra.Aws.Groups.Size.{SeenReady, wait_for_group_size_correct}
use etcd_infra.Aws.Replacement.{
  Instance, Ec2, ip_in_use, launched, described, attach_failed, terminated, ran, attached,
  ReplaceLaunchSpec, launch_spec_for_replace, seen_terminated, seen_available, seen_running,
  replace_standalone,
}
use etcd_infra.Aws.Replacement.Trace.{
  retried, KeepsToMaxCount, CleanedUp, replace_standalone-Preserves, replace_standalone-CleanedUp,
}

abbrev sample_tags : List (Text × Text)
sample_tags = (codes "owner", codes "alice") ∷ (codes "env", codes "dev") ∷ []

abbrev sample_spec : LaunchGroupSpec
sample_spec = record {
  name = codes "fleet";
  subnet_ids = codes "subnet-1" ∷ codes "subnet-2" ∷ [];
  security_group_ids = codes "sg-1" ∷ [];
  image_id = codes "ami-1";
  instance_type = codes "m5.large";
  iam_instance_profile = [];
  user_data = [];
  data_volume_size_gb = pos 100;
  data_volume_iops = pos 0;
  data_volume_throughput = pos 0;
  tags = sample_tags;
  count = pos 2;
}

ec2_tags_test :
    ec2_tags sample_tags (codes "fleet")
    ≡ (codes "Name", codes "fleet")
      ∷ (codes "env", codes "dev")
      ∷ (codes "owner", codes "alice")
      ∷ []
unfolding ec2_tags text_eq sort text_leb
ec2_tags_test = refl

sample_tags-Distinct : Distinct sample_tags
unfolding lookup text_eq
sample_tags-Distinct = (refl, (refl, tt))

abbrev sample_member : Text → Bool → GroupMember
sample_member id up = record {
  id = id;
  lifecycle_state = if up then codes "InService" else codes "Pending";
  health_status = codes "Healthy";
  availability_zone = codes "a";
}

abbrev sample_template : LaunchTemplate
sample_template = record {
  id = codes "lt-1";
  version = 1;
  tags = ec2_tags sample_tags (codes "fleet");
}

abbrev taken : SdkError
taken = record { is_api = true; code = template_taken; message = [] }

-- The second instance is in service from the time 30 on; names are taken.
abbrev sample_cloud : Cloud ℕ
sample_cloud = record {
  has_templates = true;
  has_groups = true;
  create_template = λ request t. (t, inl taken);
  describe_templates = λ name t. (t, inr (sample_template ∷ []));
  delete_template = λ id t. (t, none);
  create_group = λ request t. (t, none);
  suspend_processes = λ name processes t. (t, none);
  describe_groups = λ name t. (
    t,
    inr (
        if leb 3600 t
        then []
        else record {
          tags = sample_tags;
          instances =
              sample_member (codes "i-2") (leb 30 t) ∷ sample_member (codes "i-1") true ∷ [];
        }
          ∷ []),
  );
  delete_group = λ name t. (t, none);
  now = λ t. t;
  sleep = λ d t. (t + d, false);
}

create_launch_template_again_example :
    (create_launch_template sample_cloud sample_spec 0).1 ≡ inr (codes "lt-1", 1)
create_launch_template_again_example =
    create_launch_template_again sample_cloud sample_spec 0 0 taken sample_template [] refl
      sample_tags-Distinct refl (unfold api_error_code in refl) refl
      (unfold template_request in refl)

-- The same cloud where the group is there before its creation
abbrev taken_cloud : Cloud ℕ
taken_cloud = record sample_cloud {
  create_group =
      λ request t. (t, some (record { is_api = true; code = codes "AlreadyExists"; message = [] }));
}

taken_group_test : (create_auto_scaling_group taken_cloud sample_spec (codes "lt-1") 1 0).1 ≡ none
unfolding create_auto_scaling_group text_eq api_error_code has_all_tags
taken_group_test = refl

foreign_group_test :
    (create_auto_scaling_group taken_cloud
      (record sample_spec { tags = (codes "owner", codes "bob") ∷ [] })
      (codes "lt-1")
      1
      0).1
    ≡ some already_exists
unfolding create_auto_scaling_group text_eq api_error_code has_all_tags
foreign_group_test = refl

create_auto_scaling_group-OwnGroup_example :
    ((create_auto_scaling_group taken_cloud sample_spec (codes "lt-1") 1 0).1 ≡ none) ↔ (
      (taken_cloud.has_groups ≡ true)
      × OwnGroup taken_cloud sample_spec
          (group_request sample_spec (codes "lt-1") 1)
          (taken_cloud.create_group (group_request sample_spec (codes "lt-1") 1) 0))
create_auto_scaling_group-OwnGroup_example =
    create_auto_scaling_group-OwnGroup taken_cloud sample_spec sample_tags-Distinct (codes "lt-1") 1
      0

wait_test :
    wait_for_group_size sample_cloud (codes "fleet") 2 300 15 0
    ≡ some (30, inr (codes "i-1" ∷ codes "i-2" ∷ []))
unfolding wait_for_group_size group_members text_eq sort text_leb
wait_test = refl

sample-Ticks : (poll : ℕ) → 0 < poll → Ticks sample_cloud (codes "fleet") poll
unfolding group_members
sample-Ticks poll p = record {
  positive = p;
  look_later = λ w. grind arith;
  delete_later = λ w. omega arith;
  sleep_later = λ w. omega arith;
}

wait_for_group_size_correct_example :
    (v : ℕ) × (r : AwsError ⊎ List Text) × (wait_for_group_size sample_cloud
        (codes "fleet")
        2
        300
        15
        0
      ≡ some (v, r))
    × ((ids : List Text)
        → r ≡ inr ids
        → SeenReady sample_cloud (codes "fleet") 2 15 (sample_cloud.now 0 + 300) 0 v ids)
wait_for_group_size_correct_example =
    wait_for_group_size_correct sample_cloud (codes "fleet") 2 300 15 0
      (sample-Ticks 15 (omega arith))

delete_test : delete_auto_scaling_group sample_cloud (codes "fleet") 4000 900 0 ≡ some (3600, none)
unfolding delete_auto_scaling_group group_members
delete_test = refl

delete_auto_scaling_group_correct_example :
    (v : ℕ) × (o : Option AwsError) × (delete_auto_scaling_group sample_cloud
        (codes "fleet")
        4000
        900
        0
      ≡ some (v, o))
    × (o ≡ none → SeenGone sample_cloud (codes "fleet") v)
delete_auto_scaling_group_correct_example =
    delete_auto_scaling_group_correct sample_cloud (codes "fleet") 4000 900 0
      (sample-Ticks 900 (omega arith))

-- An instance with a data volume, whose address is in use for one more try after its termination.
abbrev sample_instance : Instance
sample_instance = record {
  id = codes "i-old";
  state = codes "running";
  image_id = codes "ami-1";
  instance_type = codes "m5.large";
  subnet_id = codes "subnet-1";
  private_ip = codes "10.0.0.7";
  security_groups = codes "sg-1" ∷ [];
  mappings =
      (codes "/dev/xvda", some (codes "vol-root"))
      ∷ (codes "/dev/xvdf", some (codes "vol-data"))
      ∷ [];
  tags = (codes "Name", codes "etcd-1") ∷ (codes "aws:autoscaling", codes "x") ∷ [];
  key_name = [];
  profile_arn = codes "arn:aws:iam::1:instance-profile/etcd";
}

-- The state is the number of ticks; an instance that was asked for runs after two.
abbrev sample_ec2 : Bool → Ec2 ℕ
sample_ec2 attaches = record {
  has_client = true;
  describe = λ id t. (
    t,
    if text_eq id (codes "i-old")
        then described (
            (if ltb t 1
              then sample_instance
              else record sample_instance { state = codes "terminated" })
            ∷ [])
        else described (record sample_instance { id = id } ∷ []),
  );
  describe_volume = λ id t. (t, some (codes "available" ∷ []));
  terminate = λ id t. (t + 1, true);
  run = λ input t.
      (t, if ltb t 2 then ip_in_use else launched (take input.max_count (codes "i-new" ∷ [])));
  attach = λ volume id t. (t, attaches);
  tick = λ t. t + 1;
  terminate_ticks = 60;
  volume_ticks = 60;
  relaunch_ticks = 36;
  running_ticks = 150;
}

replaced_test :
    (replace_standalone (sample_ec2 true) (codes "i-old") (record { world = 0; log = [] })).1
    ≡ inr (codes "i-new")
unfolding replace_standalone text_eq seen_terminated seen_available seen_running
replaced_test = refl

replace_standalone-Preserves_example :
    (spec : ReplaceLaunchSpec) × (k : ℕ) × (others : List Text) × (launch_spec_for_replace
        (codes "i-old")
        ((sample_ec2 true).describe (codes "i-old") 0).1
      ≡ inr spec)
    × ((replace_standalone (sample_ec2 true) (codes "i-old") (record { world = 0; log = [] })).0.log
        ≡ (let before =
              ran spec.input (launched (codes "i-new" ∷ others))
              ∷ retried k spec.input (terminated (codes "i-old") true ∷ []) in
            if is_empty spec.data_volume_id
            then before
            else attached spec.data_volume_id (codes "i-new") true ∷ before))
replace_standalone-Preserves_example =
    replace_standalone-Preserves (sample_ec2 true) (codes "i-old") 0 (codes "i-new") replaced_test

attach_failed_test :
    (replace_standalone (sample_ec2 false) (codes "i-old") (record { world = 0; log = [] })).1
    ≡ inl attach_failed
unfolding replace_standalone text_eq seen_terminated seen_available seen_running
attach_failed_test = refl

length-take-le : (n : ℕ) (ids : List Text) → length (take n ids) ≤ n
length-take-le zero ids = omega arith
length-take-le (suc n) [] = omega arith
length-take-le (suc n) (id ∷ ids) = omega (arith, length-take-le n ids)

sample_ec2-KeepsToMaxCount : KeepsToMaxCount (sample_ec2 false)
sample_ec2-KeepsToMaxCount input w ids h = launched_ids (ltb w 2) h
  where
    launched_ids :
        (b : Bool)
        → (if b then ip_in_use else launched (take input.max_count (codes "i-new" ∷ [])))
          ≡ launched ids
        → length ids ≤ input.max_count
    launched_ids true q = absurd (cc)
    launched_ids false q =
        let same : take input.max_count (codes "i-new" ∷ []) ≡ ids = cc in
        subst (λ l. length l ≤ input.max_count) same
          (length-take-le input.max_count (codes "i-new" ∷ []))

replace_standalone-CleanedUp_example :
    CleanedUp
      (sample_ec2 false)
      (replace_standalone (sample_ec2 false) (codes "i-old") (record { world = 0; log = [] })).0.log
replace_standalone-CleanedUp_example =
    replace_standalone-CleanedUp (sample_ec2 false) (codes "i-old") 0 attach_failed
      sample_ec2-KeepsToMaxCount attach_failed_test
