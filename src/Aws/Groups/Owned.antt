-- ===== src/Aws/Groups/Owned.antt =====
-- launch_group.go: whose group CreateAutoScalingGroup sets up.
use etcd_infra.Common.{
  ℕ, ◌≡◌, ◌↔◌, refl, ap, subst, sym, ◌∙◌, ◌⊎◌, inl, inr, Bool, true, false, List, [], ◌∷◌, Option,
  none, some, if◌then◌else◌, Text, codes, text_eq, text_eq_iff,
}
use etcd_infra.Aws.{
  SdkError, api_error_code, AwsError, client_nil, already_exists, sdk, LaunchGroupSpec,
  GroupRequest, Group, Cloud,
}
use etcd_infra.Aws.Tags.{Distinct, Carries, has_all_tags, has_all_tags_iff, in_order-Carries}
use etcd_infra.Aws.Groups.{
  group_request, suspend, suspended, taken_group, group_created, tags_of, auto_scaling_group_tags,
  create_auto_scaling_group,
}

-- A call under a test, the other branch of which fails
chosen_iff :
    {W : Type 0} (b : Bool) (x y : W × Option AwsError)
    → (y.1 ≡ none → ⊥)
    → ((if b then x else y).1 ≡ none) ↔ ((b ≡ true) × (x.1 ≡ none))
chosen_iff true x y n = ((λ h. (refl, h)), (λ h. h.1))
chosen_iff false x y n = ((λ h. absurd (n h)), (λ h. absurd (let q = h.0 in cc)))

-- The code of an API error; another error never has this one.
api_error_code_iff :
    (e : SdkError)
    → (text_eq (api_error_code e) (codes "AlreadyExists") ≡ true)
      ↔ ((e.is_api ≡ true) × (e.code ≡ codes "AlreadyExists"))
unfolding api_error_code text_eq
api_error_code_iff e = coded e.is_api
  where
    coded :
        (b : Bool)
        → (text_eq (if b then e.code else codes "unknown") (codes "AlreadyExists") ≡ true)
          ↔ ((b ≡ true) × (e.code ≡ codes "AlreadyExists"))
    coded true = (
      (λ h. (refl, (text_eq_iff e.code (codes "AlreadyExists")).0 h)),
      (λ h. (text_eq_iff e.code (codes "AlreadyExists")).1 h.1),
    )
    coded false = ((λ h. absurd (cc)), (λ h. absurd (let q = h.0 in cc)))

module _ {W : Type 0} (c : Cloud W) where
  -- In a state of the cloud the group's processes AZRebalance and ReplaceUnhealthy, which terminate
  -- instances, are suspended with success.
  abbrev pub Suspends : Text → W → Type 0
  Suspends name w =
      (c.suspend_processes name (codes "AZRebalance" ∷ codes "ReplaceUnhealthy" ∷ []) w).1 ≡ none

  -- The first group of an answer carries the tags, and is suspended in the state after the answer.
  abbrev pub OwnTaken : LaunchGroupSpec → W × (SdkError ⊎ List Group) → Type 0
  OwnTaken spec (w, r) =
      (g : Group) × (gs : List Group) × (r ≡ inr (g ∷ gs))
      × Carries g.tags spec.tags
      × Suspends spec.name w

  -- From the request and its answer: the group is new and was asked for with the tags, or its name is
  -- taken by a group with the tags.
  abbrev pub OwnGroup : LaunchGroupSpec → GroupRequest → W × Option SdkError → Type 0
  OwnGroup spec request (w, r) =
      ((r ≡ none) × Carries request.tags spec.tags × Suspends spec.name w)
      ⊎ ((e : SdkError) × (r ≡ some e)
          × (e.is_api ≡ true)
          × (e.code ≡ codes "AlreadyExists")
          × OwnTaken spec (c.describe_groups spec.name w))

  suspend_iff : (name : Text) (w : W) → ((suspend c name w).1 ≡ none) ↔ Suspends name w
  unfolding suspend
  suspend_iff name w =
      kept (c.suspend_processes name (codes "AZRebalance" ∷ codes "ReplaceUnhealthy" ∷ []) w)
    where
      kept : (r : W × Option SdkError) → ((suspended c r).1 ≡ none) ↔ (r.1 ≡ none)
      kept (w', none) = ((λ q. refl), (λ q. refl))
      kept (w', some e) = ((λ q. absurd (cc)), (λ q. absurd (cc)))

  module _ (spec : LaunchGroupSpec) (distinct : Distinct spec.tags) where
    taken_group_iff :
        (r : W × (SdkError ⊎ List Group))
        → ((taken_group c spec (tags_of r)).1 ≡ none) ↔ OwnTaken spec r
    unfolding taken_group
    taken_group_iff (w, inl e) = ((λ h. absurd (cc)), (λ h. absurd (let q = h.2 in cc)))
    taken_group_iff (w, inr []) = ((λ h. absurd (cc)), (λ h. absurd (let q = h.2 in cc)))
    taken_group_iff (w, inr (g ∷ gs)) =
        let test =
          chosen_iff (has_all_tags g.tags spec.tags) (suspend c spec.name w)
            (w, some already_exists) (λ q. cc) in
        let tags = has_all_tags_iff g.tags spec.tags distinct in
        let suspends = suspend_iff spec.name w in
        (
          (λ h. let (own, good) = test.0 h in (g, gs, refl, tags.0 own, suspends.0 good)),
          (λ h.
              let (g', gs', same, carries, good) = h in
              let first : g' ≡ g = cc in
              test.1 (
                tags.1 (subst (λ (x : Group). Carries x.tags spec.tags) first carries),
                suspends.1 good,
              )),
        )

    listed :
        (w : W)
        → c.has_groups ≡ true
        → auto_scaling_group_tags c spec.name w ≡ tags_of (c.describe_groups spec.name w)
    unfolding auto_scaling_group_tags
    listed w has = rw has refl

    group_created_iff :
        (request : GroupRequest) (r : W × Option SdkError)
        → c.has_groups ≡ true
        → Carries request.tags spec.tags
        → ((group_created c spec r).1 ≡ none) ↔ OwnGroup spec request r
    unfolding group_created
    group_created_iff request (w, none) has asked =
        let suspends = suspend_iff spec.name w in
        (
          (λ h. inl (refl, asked, suspends.0 h)),
          (λ h. elim h [ inl (q, a, s) ↦ suspends.1 s | inr (e, q, api, at, o) ↦ absurd (cc) ]),
        )
    group_created_iff request (w, some e) has asked =
        let test =
          chosen_iff (text_eq (api_error_code e) (codes "AlreadyExists"))
            (taken_group c spec (auto_scaling_group_tags c spec.name w)) (w, some (sdk e))
            (λ q. cc) in
        let code = api_error_code_iff e in
        let own = taken_group_iff (c.describe_groups spec.name w) in
        let answer = ap (λ a. (taken_group c spec a).1) (listed w has) in
        (
          (λ h.
              let (taken, good) = test.0 h in
              let (api, at) = code.0 taken in inr (e, refl, api, at, own.0 (sym answer ∙ good))),
          (λ h. elim h [
            | inl (q, a, s) ↦ absurd (cc)
            | inr (e', q, api, at, o) ↦
                let same : e' ≡ e = cc in
                test.1 (
                  code.1 (
                      subst (λ (x : SdkError). (x.is_api ≡ true) × (x.code ≡ codes "AlreadyExists"))
                        same (api, at)),
                  answer ∙ own.1 o,
                )
          ]),
        )

    request_tags :
        (template_id : Text) (version : ℕ)
        → Carries (group_request spec template_id version).tags spec.tags
    unfolding group_request
    request_tags template_id version = in_order-Carries spec.tags

    -- CreateAutoScalingGroup succeeds exactly when there is a client and one of two things holds: the group
    -- was created, asked for with every tag of the specification and its value; or AWS said that the name
    -- is taken, and the group found under it has every tag of the specification with its value. In both
    -- cases the processes AZRebalance and ReplaceUnhealthy were then suspended with success. The keys of
    -- the specification's tags are distinct, as those of a map are.
    pub create_auto_scaling_group-OwnGroup :
        (template_id : Text) (version : ℕ) (w : W)
        → ((create_auto_scaling_group c spec template_id version w).1 ≡ none) ↔ (
            (c.has_groups ≡ true)
            × OwnGroup spec
                (group_request spec template_id version)
                (c.create_group (group_request spec template_id version) w))
    unfolding create_auto_scaling_group
    create_auto_scaling_group-OwnGroup template_id version w =
        let request = group_request spec template_id version in
        let r = c.create_group request w in
        let asked = request_tags template_id version in
        let test =
          chosen_iff c.has_groups (group_created c spec r) (w, some client_nil) (λ q. cc) in
        (
          (λ h.
              let (has, good) = test.0 h in (has, (group_created_iff request r has asked).0 good)),
          (λ h. test.1 (h.0, (group_created_iff request r h.0 asked).1 h.1)),
        )
