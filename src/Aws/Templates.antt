-- ===== src/Aws/Templates.antt =====
-- launch_group.go: CreateLaunchTemplate, LaunchTemplateByName and DeleteLaunchTemplate.
use etcd_infra.Common.{
  ℕ, ◌≡◌, refl, ap, subst, ◌∙◌, ◌⊎◌, inl, inr, Bool, true, false, List, [], ◌∷◌, Option, none, some,
  Bool-cases, if◌then◌else◌, if_true, is_empty, ℤ, is_non_positive, has_prefix, trim_space, Text,
  codes, text_eq, text_eq_refl,
}
use etcd_infra.Aws.{
  SdkError, api_error_code, is_launch_template_not_found, AwsError, client_nil, already_exists,
  no_id, sdk, LaunchGroupSpec, Profile, by_arn, by_name, VolumeRequest, TemplateRequest,
  LaunchTemplate, Cloud,
}
use etcd_infra.Aws.Tags.{has_all_tags, ec2_tags, Distinct, has_all_tags-ec2_tags}

abbrev positive : ℤ → Option ℤ
positive n = if is_non_positive n then none else some n

unfoldable pub profile_of : Text → Option Profile
profile_of text =
    let profile = trim_space text in
    if has_prefix profile (codes "arn:")
    then some (by_arn profile)
    else if is_empty profile
    then none
    else some (by_name profile)

unfoldable pub volume_of : LaunchGroupSpec → Option VolumeRequest
volume_of spec =
    if is_non_positive spec.data_volume_size_gb
    then none
    else some (record {
      size = spec.data_volume_size_gb;
      iops = positive spec.data_volume_iops;
      throughput = positive spec.data_volume_throughput;
      encrypted = true;
      delete_on_termination = true;
    })

-- The request of a template; its user data goes in base 64.
unfoldable pub template_request : LaunchGroupSpec → TemplateRequest
unfolding profile_of volume_of
template_request spec = record {
  name = spec.name;
  image_id = spec.image_id;
  instance_type = spec.instance_type;
  security_group_ids = spec.security_group_ids;
  require_tokens = true;
  hop_limit = 2;
  user_data = if is_empty spec.user_data then none else some spec.user_data;
  profile = profile_of spec.iam_instance_profile;
  volume = volume_of spec;
  instance_tags = ec2_tags spec.tags spec.name;
  volume_tags = ec2_tags spec.tags spec.name;
  template_tags = ec2_tags spec.tags spec.name;
}

abbrev found_template :
    {W : Type 0} → W × (SdkError ⊎ List LaunchTemplate) → W × (AwsError ⊎ Option LaunchTemplate)
found_template (w, inl e) = (w, if is_launch_template_not_found e then inr none else inl (sdk e))
found_template (w, inr []) = (w, inr none)
found_template (w, inr (t ∷ ts)) = (w, inr (some t))

-- The template that has the name already, if its tags show it as one's own
unfoldable pub taken_template :
    {W : Type 0}
    → LaunchGroupSpec
    → W × (AwsError ⊎ Option LaunchTemplate)
    → W × (AwsError ⊎ (Text × ℕ))
taken_template spec (w, inl e) = (w, inl already_exists)
taken_template spec (w, inr none) = (w, inl already_exists)
taken_template spec (w, inr (some t)) =
    (w, if has_all_tags t.tags spec.tags then inr (t.id, t.version) else inl already_exists)

abbrev pub template_taken : Text
template_taken = codes "InvalidLaunchTemplateName.AlreadyExistsException"

taken_template-inr :
    {W : Type 0} (spec : LaunchGroupSpec) (r : W × (AwsError ⊎ Option LaunchTemplate)) (id : Text)
    (version : ℕ)
    → (taken_template spec r).1 ≡ inr (id, version)
    → (t : LaunchTemplate) × (r.1 ≡ inr (some t))
      × (has_all_tags t.tags spec.tags ≡ true)
      × (t.id ≡ id)
      × (t.version ≡ version)
unfolding taken_template
taken_template-inr spec (w, inl e) id version h = absurd (cc)
taken_template-inr spec (w, inr none) id version h = absurd (cc)
taken_template-inr spec (w, inr (some t)) id version h =
    elim (Bool-cases (has_all_tags t.tags spec.tags)) [
      | inl e ↦ let h' = rw e at h in (t, refl, e, cc, cc)
      | inr e ↦ absurd (let h' = rw e at h in cc)
    ]

own_template :
    {W : Type 0} (spec : LaunchGroupSpec) (w : W) (t : LaunchTemplate)
    → has_all_tags t.tags spec.tags ≡ true
    → (taken_template spec (w, inr (some t))).1 ≡ inr (t.id, t.version)
unfolding taken_template
own_template spec w t h =
    if_true (has_all_tags t.tags spec.tags) (inr (t.id, t.version)) (inl already_exists) h

-- A call through a client gets its answer only if the client is there.
has_client-inr :
    {W A : Type 0} (b : Bool) (w : W) (r : W × (AwsError ⊎ A)) {a : A}
    → (if b then r else (w, inl client_nil)).1 ≡ inr a
    → (b ≡ true) × (r.1 ≡ inr a)
has_client-inr true w r h = (refl, h)
has_client-inr false w r h = absurd (cc)

found_template-inr :
    {W : Type 0} (r : W × (SdkError ⊎ List LaunchTemplate)) (t : LaunchTemplate)
    → (found_template r).1 ≡ inr (some t)
    → (ts : List LaunchTemplate) × (r.1 ≡ inr (t ∷ ts))
found_template-inr (w, inl e) t h = absurd (missing (is_launch_template_not_found e) h)
  where
    missing : (b : Bool) → (if b then inr none else inl (sdk e)) ≡ inr (some t) → ⊥
    missing true q = absurd (cc)
    missing false q = absurd (cc)
found_template-inr (w, inr []) t h = absurd (cc)
found_template-inr (w, inr (t' ∷ ts)) t h = (ts, cc)

module _ {W : Type 0} (c : Cloud W) where
  unfoldable pub launch_template_by_name : Text → W → W × (AwsError ⊎ Option LaunchTemplate)
  launch_template_by_name name w =
      if c.has_templates then found_template (c.describe_templates name w) else (w, inl client_nil)

  unfoldable pub template_created :
      LaunchGroupSpec → W × (SdkError ⊎ Option LaunchTemplate) → W × (AwsError ⊎ (Text × ℕ))
  unfolding taken_template launch_template_by_name api_error_code
  template_created spec (w, inl e) =
      if text_eq (api_error_code e) template_taken
      then taken_template spec (launch_template_by_name spec.name w)
      else (w, inl (sdk e))
  template_created spec (w, inr none) = (w, inl no_id)
  template_created spec (w, inr (some t)) =
      (w, if is_empty t.id then inl no_id else inr (t.id, t.version))

  unfoldable pub create_launch_template : LaunchGroupSpec → W → W × (AwsError ⊎ (Text × ℕ))
  unfolding template_created template_request
  create_launch_template spec w =
      if c.has_templates
      then template_created spec (c.create_template (template_request spec) w)
      else (w, inl client_nil)

  unfoldable pub delete_launch_template : Text → W → W × Option AwsError
  delete_launch_template id w =
      let (w', r) = c.delete_template id w in
      if c.has_templates
      then (
        w',
        elim r [
          | none ↦ none
          | some e ↦ (if is_launch_template_not_found e then none else some (sdk e))
        ],
      )
      else (w, some client_nil)

  launch_template_by_name-inr :
      (name : Text) (w : W) (t : LaunchTemplate)
      → (launch_template_by_name name w).1 ≡ inr (some t)
      → (ts : List LaunchTemplate) × ((c.describe_templates name w).1 ≡ inr (t ∷ ts))
  unfolding launch_template_by_name
  launch_template_by_name-inr name w t h = elim (Bool-cases c.has_templates) [
    | inl e ↦ found_template-inr (c.describe_templates name w) t (rw e at h)
    | inr e ↦ absurd (let h' = rw e at h in cc)
  ]

  template_created-inr :
      (spec : LaunchGroupSpec) (r : W × (SdkError ⊎ Option LaunchTemplate)) (id : Text)
      (version : ℕ)
      → (template_created spec r).1 ≡ inr (id, version)
      → ((t : LaunchTemplate) × (r.1 ≡ inr (some t)) × (t.id ≡ id) × (t.version ≡ version))
        ⊎ ((t : LaunchTemplate) × (ts : List LaunchTemplate) × ((c.describe_templates spec.name
                r.0).1
              ≡ inr (t ∷ ts))
            × (has_all_tags t.tags spec.tags ≡ true)
            × (t.id ≡ id)
            × (t.version ≡ version))
  unfolding template_created
  template_created-inr spec (w, inl e) id version h =
      elim (Bool-cases (text_eq (api_error_code e) template_taken)) [
        | inl q ↦
            let (t, found, tags, i, v) =
              taken_template-inr spec (launch_template_by_name spec.name w) id version
                (rw q at h) in
            let (ts, there) = launch_template_by_name-inr spec.name w t found in
            inr (t, ts, there, tags, i, v)
        | inr q ↦ absurd (let h' = rw q at h in cc)
      ]
  template_created-inr spec (w, inr none) id version h = absurd (cc)
  template_created-inr spec (w, inr (some t)) id version h = elim (Bool-cases (is_empty t.id)) [
    | inl q ↦ absurd (let h' = rw q at h in cc)
    | inr q ↦ let h' = rw q at h in inl (t, refl, cc, cc)
  ]

  -- A template of the specification: just created, or there under its name with all of its tags
  abbrev pub OwnTemplate : LaunchGroupSpec → W → Text → ℕ → Type 0
  OwnTemplate spec w id version =
      ((t : LaunchTemplate) × ((c.create_template (template_request spec) w).1 ≡ inr (some t))
        × (t.id ≡ id)
        × (t.version ≡ version))
      ⊎ ((t : LaunchTemplate) × (ts : List LaunchTemplate) × ((c.describe_templates spec.name
              (c.create_template (template_request spec) w).0).1
            ≡ inr (t ∷ ts))
          × (has_all_tags t.tags spec.tags ≡ true)
          × (t.id ≡ id)
          × (t.version ≡ version))

  -- A template that CreateLaunchTemplate returns was created by this call, or has the name and carries
  -- all tags of the specification.
  pub create_launch_template-OwnTemplate :
      (spec : LaunchGroupSpec) (w : W) (id : Text) (version : ℕ)
      → (create_launch_template spec w).1 ≡ inr (id, version)
      → OwnTemplate spec w id version
  unfolding create_launch_template
  create_launch_template-OwnTemplate spec w id version ok =
      template_created-inr spec (c.create_template (template_request spec) w) id version
        (has_client-inr c.has_templates w
          (template_created spec (c.create_template (template_request spec) w)) ok).1

  template_created-taken :
      (spec : LaunchGroupSpec) (w' : W) (e : SdkError)
      → api_error_code e ≡ template_taken
      → template_created spec (w', inl e)
        ≡ taken_template spec (launch_template_by_name spec.name w')
  unfolding template_created
  template_created-taken spec w' e q =
      if_true (text_eq (api_error_code e) template_taken)
        (taken_template spec (launch_template_by_name spec.name w')) (w', inl (sdk e))
        (ap (λ code. text_eq code template_taken) q ∙ text_eq_refl template_taken)

  -- Repeating a creation that has succeeded gives the template of the first one: it has the name, and
  -- the tags that the request put on it.
  pub create_launch_template_again :
      (spec : LaunchGroupSpec) (w w' : W) (e : SdkError) (t : LaunchTemplate)
      (ts : List LaunchTemplate)
      → c.has_templates ≡ true
      → Distinct spec.tags
      → c.create_template (template_request spec) w ≡ (w', inl e)
      → api_error_code e ≡ template_taken
      → (c.describe_templates spec.name w').1 ≡ inr (t ∷ ts)
      → t.tags ≡ (template_request spec).template_tags
      → (create_launch_template spec w).1 ≡ inr (t.id, t.version)
  create_launch_template_again spec w w' e t ts has d created code there tags =
      let reply = c.create_template (template_request spec) w in
      let first : create_launch_template spec w ≡ template_created spec reply =
        unfold create_launch_template in
        if_true c.has_templates (template_created spec reply) (w, inl client_nil) has in
      let listed = found_template (c.describe_templates spec.name w') in
      let second : launch_template_by_name spec.name w' ≡ listed =
        unfold launch_template_by_name in if_true c.has_templates listed (w', inl client_nil) has in
      ap (λ r. r.1) (first ∙ ap (template_created spec) created)
      ∙ ap (λ r. r.1) (template_created-taken spec w' e code)
      ∙ ap (λ r. (taken_template spec r).1) second
      ∙ own (c.describe_templates spec.name w') there
    where
      own :
          (r : W × (SdkError ⊎ List LaunchTemplate))
          → r.1 ≡ inr (t ∷ ts)
          → (taken_template spec (found_template r)).1 ≡ inr (t.id, t.version)
      own (w0, inl e') q = absurd (cc)
      own (w0, inr []) q = absurd (cc)
      own (w0, inr (t' ∷ ts')) q =
          let same : t ≡ t' = cc in
          subst (λ x. (taken_template spec (w0, inr (some x))).1 ≡ inr (t.id, t.version)) same
            (own_template spec w0 t (
              ap (λ g. has_all_tags g spec.tags) tags
              ∙ unfold template_request in has_all_tags-ec2_tags spec.tags spec.name d))
