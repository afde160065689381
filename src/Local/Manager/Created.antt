-- ===== src/Local/Manager/Created.antt =====
-- manager_lifecycle.go: what Create and its deferred function remove.
use etcd_infra.Common.{
  true, ◌≡◌, ◌⊎◌, inl, inr, refl, ap, ◌∙◌, List, [], ◌∷◌, Option, none, some, Bool-cases, is_empty,
  Text, codes, text_eq_iff, trim_space,
}
use etcd_infra.Local.Containers.{
  ContainerInspect, cluster_label_key, lookup_or, data_volume_name, cluster_label,
}
use etcd_infra.Local.Manager.{
  VolumeReply, Event, volume_inspected, LocalError, Runtime, State, Result, Manager, validate,
  owned_container, run_command, failed, garbled, volumes, owns_volume, volume_exists_in, exists,
  get, CreateRequest, inspect, inspect_volume, remove_owned, remove_owned_volume, clean_up,
  or_clean_up, and_then, create_resources, create_with_port, create_named, create, config_failure,
}
use etcd_infra.Local.Arguments.{
  PortMapping, CreateConfig, ConfigError, create_run_args, client_port_mapping,
  validate_create_config,
}
use etcd_infra.Local.Manager.Guarded.{Shown, Safe, with_owned-Safe, unless-Safe, owned_record-Shown}

-- What a volume that counts as owned was shown to be.
owns_volume-true :
    (cluster : Text) (r : VolumeReply)
    → owns_volume cluster r ≡ true
    → (labels : List (Text × Text)) × (r ≡ volumes (labels ∷ []))
      × (lookup_or [] cluster_label_key labels ≡ cluster)
unfolding owns_volume
owns_volume-true cluster failed h = absurd (cc)
owns_volume-true cluster garbled h = absurd (cc)
owns_volume-true cluster (volumes []) h = absurd (cc)
owns_volume-true cluster (volumes (l ∷ [])) h =
    (l, refl, (text_eq_iff (lookup_or [] cluster_label_key l) cluster).0 h)
owns_volume-true cluster (volumes (l ∷ l' ∷ ls)) h = absurd (cc)

module _ {W : Type 0} (rt : Runtime W) (m : Manager) where
  and_then-Safe :
      (r : Result rt) (k : State rt → Result rt)
      → Safe rt m r.0
      → ((s : State rt) → Safe rt m s → Safe rt m (k s).0)
      → Safe rt m (and_then rt r k).0
  and_then-Safe (s, some e) k g safe = g
  and_then-Safe (s, none) k g safe = safe s g

  get-Safe : (id : Text) (s : State rt) → Safe rt m s → Safe rt m (get rt m id s).0
  unfolding get
  get-Safe id s g =
      with_owned-Safe rt m none id (λ id s c. (s, none)) s (λ id' s' c r earlier g' log owned. g') g

  remove_owned-Safe :
      (name : Text) (s : State rt) (owned : LocalError ⊎ ContainerInspect)
      → Safe rt m s
      → ((c : ContainerInspect) → owned ≡ inr c → Shown m.cluster name s.log)
      → Safe rt m (remove_owned rt name (s, owned))
  remove_owned-Safe name s (inl e) g shown = g
  remove_owned-Safe name s (inr c) g shown = (shown c refl, g)

  remove_owned_volume-Safe :
      (v : Text) (s : State rt) (r : VolumeReply) (earlier : List Event)
      → s.log ≡ volume_inspected v r ∷ earlier
      → Safe rt m s
      → Safe rt m (remove_owned_volume rt m.cluster v (s, r))
  unfolding remove_owned_volume
  remove_owned_volume-Safe v s r earlier log g = elim (Bool-cases (owns_volume m.cluster r)) [
    | inr e ↦ rw e g
    | inl e ↦
        let (labels, same, label) = owns_volume-true m.cluster r e in
        rw e ((labels, earlier, log ∙ ap (λ q. volume_inspected v q ∷ earlier) same, label), g)
  ]

  clean_up-Safe :
      (name v : Text) (s : State rt) → Safe rt m s → Safe rt m (clean_up rt m.cluster name v s)
  unfolding clean_up
  clean_up-Safe name v s g =
      let (s', owned) = owned_container rt m.cluster name s in
      let s'' = remove_owned rt name (s', owned) in
      let (s3, r) = inspect_volume rt v s'' in
      remove_owned_volume-Safe v s3 r s''.log refl (
        remove_owned-Safe name s' owned g
          (λ c h. owned_record-Shown rt m m.cluster name (rt.inspect s.world name).1 s.log c h))

  or_clean_up-Safe :
      (name v : Text) (r : Result rt)
      → Safe rt m r.0
      → Safe rt m (or_clean_up rt m.cluster name v r).0
  unfolding or_clean_up
  or_clean_up-Safe name v (s, none) g = g
  or_clean_up-Safe name v (s, some e) g = clean_up-Safe name v s g

  create_resources-Safe :
      (name image : Text) (port : PortMapping) (cfg : CreateConfig) (s : State rt) (r : VolumeReply)
      → Safe rt m s
      → Safe rt m (create_resources rt m name image port cfg (s, r)).0
  unfolding create_resources
  create_resources-Safe name image port cfg s r g = elim (Bool-cases (volume_exists_in r)) [
    | inl e ↦ rw e g
    | inr e ↦
        let volume = data_volume_name name in
        let run : State rt → Result rt =
          λ s'. run_command rt (create_run_args m.cluster name image volume port cfg) s' in
        rw e (
          and_then-Safe
            (run_command rt
              (codes "volume"
                ∷ codes "create"
                ∷ codes "--label"
                ∷ cluster_label m.cluster
                ∷ volume
                ∷ [])
              s)
            (λ s'. or_clean_up rt m.cluster name volume (and_then rt (run s') (get rt m name))) g
            (λ s' g'.
              or_clean_up-Safe name volume (and_then rt (run s') (get rt m name))
                (and_then-Safe (run s') (get rt m name) g' (get-Safe name))))
  ]

  create_named-Safe :
      (name : Text) (req : CreateRequest) (s : State rt) (cfg : Option CreateConfig)
      → Safe rt m s
      → Safe rt m (create_named rt m name req s cfg).0
  unfolding create_named create_with_port
  create_named-Safe name req s none g = g
  create_named-Safe name req s (some cfg) g = elim (Bool-cases (is_empty cfg.command)) [
    | inl e ↦ rw e g
    | inr e ↦ rw e (with_port (client_port_mapping req.port_mappings))
  ]
    where
      with_port :
          (port : ConfigError ⊎ PortMapping)
          → Safe rt m (create_with_port rt m name req.image cfg s port).0
      with_port (inl e) = g
      with_port (inr port) =
          let (s', r) = inspect_volume rt (data_volume_name name) s in
          unless-Safe rt m (config_failure rt (validate_create_config cfg)) s
            (create_resources rt m name req.image port cfg (s', r)) g
            (create_resources-Safe name req.image port cfg s' r g)

  pub create-Safe :
      (req : CreateRequest) (s : State rt) → Safe rt m s → Safe rt m (create rt m req s).0
  unfolding create
  create-Safe req s g =
      let name = trim_space req.name in
      let (s', r) = inspect rt name s in
      unless-Safe rt m (validate m) s _ g (elim (Bool-cases (is_empty name)) [
        | inl e ↦ rw e g
        | inr e ↦ elim (Bool-cases (is_empty (trim_space req.image))) [
          | inl e' ↦ rw (e, e') g
          | inr e' ↦ elim (Bool-cases (exists r)) [
            | inl e'' ↦ rw (e, e', e'') g
            | inr e'' ↦ rw (e, e', e'') (create_named-Safe name req s' req.provider_config g)
          ]
        ]
      ])
