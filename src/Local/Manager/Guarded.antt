-- ===== src/Local/Manager/Guarded.antt =====
-- manager.go, manager_lifecycle.go: what Delete, Stop, Start and ReplaceMachine remove.
use etcd_infra.Common.{
  ℕ, zero, suc, ◌≡◌, ◌⊎◌, inl, inr, refl, ap, ◌∙◌, List, [], ◌∷◌, Option, none, some, arith,
  Bool-cases, is_empty, Text, text_eq, trim_space,
}
use etcd_infra.Local.Containers.{
  ContainerInspect, container_name, cluster_label_key, lookup_or, is_pending_status,
}
use etcd_infra.Local.Replacement.{
  ReplacementSpec, SpecError, replacement_spec_from_inspect, run_args,
}
use etcd_infra.Local.Manager.{
  Reply, records, Event, inspected, volume_inspected, removed, volume_removed, ran, LocalError,
  Runtime, State, Result, Next, done, fail, again, Manager, validate, owned_record, owned_container,
  on_owned, unless, with_owned, remove, run_command, judge_running, judge_owned, attempt,
  at_deadline, restore_container, replace_owned, then_again, then_unless, and_restore,
  same_identity, volumes,
}
use etcd_infra.Local.Manager.Restored.{owned_record-inr}

-- The newest event shows a container of the cluster that was asked for as `id`, or has that name.
abbrev pub Shown : Text → Text → List Event → Type 0
Shown cluster id log =
    (asked : Text) × (c : ContainerInspect) × (earlier : List Event) × (log
      ≡ inspected asked (records (c ∷ [])) ∷ earlier)
    × (lookup_or [] cluster_label_key c.labels ≡ cluster)
    × ((id ≡ asked) ⊎ (id ≡ container_name c))

-- The newest event shows a volume of the cluster that was asked for by this name.
abbrev pub VolumeShown : Text → Text → List Event → Type 0
VolumeShown cluster v log =
    (labels : List (Text × Text)) × (earlier : List Event) × (log
      ≡ volume_inspected v (volumes (labels ∷ [])) ∷ earlier)
    × (lookup_or [] cluster_label_key labels ≡ cluster)

-- Each removal follows at once on such an event.
abbrev pub Guarded : Text → List Event → Type 0
Guarded cluster [] = Unit
Guarded cluster (inspected id r ∷ log) = Guarded cluster log
Guarded cluster (volume_inspected v r ∷ log) = Guarded cluster log
Guarded cluster (ran args ∷ log) = Guarded cluster log
Guarded cluster (removed id ∷ log) = Shown cluster id log × Guarded cluster log
Guarded cluster (volume_removed v ∷ log) = VolumeShown cluster v log × Guarded cluster log

pub name_kept :
    (c : ContainerInspect) (cluster : Text) (spec : ReplacementSpec)
    → replacement_spec_from_inspect c cluster ≡ inr spec
    → spec.name ≡ container_name c
unfolding replacement_spec_from_inspect
name_kept c cluster spec h = ground arith

module _ {W : Type 0} (rt : Runtime W) (m : Manager) where
  abbrev pub Safe : State rt → Type 0
  Safe s = Guarded m.cluster s.log

  then_again-Safe :
      (e : LocalError) (r : State rt × Option LocalError) → Safe r.0 → Safe (then_again rt e r).0
  then_again-Safe e (s, none) g = g
  then_again-Safe e (s, some e') g = g

  then_unless-Safe :
      (e : LocalError) (r : State rt × Option LocalError) → Safe r.0 → Safe (then_unless rt e r).0
  then_unless-Safe e (s, none) g = g
  then_unless-Safe e (s, some e') g = g

  judge_running-Safe :
      (before : ReplacementSpec) (s : State rt) (spec : SpecError ⊎ ReplacementSpec)
      → Safe s
      → Shown m.cluster before.name s.log
      → Safe (judge_running rt before s spec).0
  unfolding judge_running
  judge_running-Safe before s (inl e) g shown = g
  judge_running-Safe before s (inr after) g shown =
      elim (Bool-cases (text_eq after.container_id before.container_id)) [
        | inl e ↦ rw e g
        | inr e ↦ elim (Bool-cases (same_identity rt after before)) [
          | inl e' ↦ rw (e, e') g
          | inr e' ↦ rw (e, e') (then_unless-Safe _ (remove rt before.name s) (shown, g))
        ]
      ]

  judge_owned-Safe :
      (before : ReplacementSpec) (s : State rt) (owned : LocalError ⊎ ContainerInspect)
      → Safe s
      → ((c : ContainerInspect) → owned ≡ inr c → Shown m.cluster before.name s.log)
      → Safe (judge_owned rt m.cluster before (s, owned)).0
  unfolding judge_owned replacement_spec_from_inspect
  judge_owned-Safe before s (inl e) g shown =
      then_again-Safe _ (run_command rt (run_args before) s) g
  judge_owned-Safe before s (inr c) g shown = elim (Bool-cases c.running) [
    | inl e ↦
        rw e
          (judge_running-Safe before s (replacement_spec_from_inspect c m.cluster) g (shown c refl))
    | inr e ↦ elim (Bool-cases (is_pending_status c.status)) [
      | inl p ↦ rw (e, p) g
      | inr p ↦ rw (e, p) (then_again-Safe _ (remove rt before.name s) (shown c refl, g))
    ]
  ]

  -- What the checks of ownedContainer make of an inspection.
  pub owned_record-Shown :
      (cluster id : Text) (r : Reply) (earlier : List Event) (c : ContainerInspect)
      → owned_record cluster r ≡ inr c
      → Shown cluster id (inspected id r ∷ earlier)
  owned_record-Shown cluster id r earlier c h =
      let (same, label) = owned_record-inr cluster r c h in
      (id, c, earlier, ap (λ q. inspected id q ∷ earlier) same, label, inl refl)

  attempt-Safe :
      (before : ReplacementSpec) (s : State rt) → Safe s → Safe (attempt rt m.cluster before s).0
  unfolding attempt
  attempt-Safe before s g =
      judge_owned-Safe before _ _ g (λ c h. owned_record-Shown m.cluster before.name _ s.log c h)

  restore_container-Safe :
      (before : ReplacementSpec) (ticks : ℕ) (s : State rt)
      → Safe s
      → Safe (restore_container rt m.cluster before ticks s).0
  unfolding restore_container
  restore_container-Safe before zero s g =
      go (attempt rt m.cluster before s) (attempt-Safe before s g)
    where
      go : (r : State rt × Next rt) → Safe r.0 → Safe (at_deadline rt r).0
      go (s', done) g' = g'
      go (s', fail e) g' = g'
      go (s', again e) g' = g'
  restore_container-Safe before (suc ticks) s g =
      go (attempt rt m.cluster before s) (λ s'. restore_container-Safe before ticks s')
        (attempt-Safe before s g)
    where
      after_attempt : State rt × Next rt → Result rt
      after_attempt (s', done) = (s', none)
      after_attempt (s', fail e) = (s', some e)
      after_attempt (s', again e) = restore_container rt m.cluster before ticks s'

      go :
          (r : State rt × Next rt)
          → ((s' : State rt) → Safe s' → Safe (restore_container rt m.cluster before ticks s').0)
          → Safe r.0
          → Safe (after_attempt r).0
      go (s', done) rest g' = g'
      go (s', fail e) rest g' = g'
      go (s', again e) rest g' = rest s' g'

  and_restore-Safe :
      (before : ReplacementSpec) (ticks : ℕ) (r : Result rt)
      → Safe r.0
      → Safe (and_restore rt m.cluster before ticks r).0
  unfolding and_restore
  and_restore-Safe before ticks (s, some e) g = g
  and_restore-Safe before ticks (s, none) g = restore_container-Safe before ticks s g

  pub replace_owned-Safe :
      (ticks : ℕ) (s : State rt) (spec : SpecError ⊎ ReplacementSpec)
      → Safe s
      → ((before : ReplacementSpec) → spec ≡ inr before → Shown m.cluster before.name s.log)
      → Safe (replace_owned rt m.cluster ticks s spec).0
  unfolding replace_owned
  replace_owned-Safe ticks s (inl e) g shown = g
  replace_owned-Safe ticks s (inr before) g shown =
      and_restore-Safe before ticks (remove rt before.name s) (shown before refl, g)

  on_owned-Safe :
      (k : State rt → ContainerInspect → Result rt) (s : State rt)
      (owned : LocalError ⊎ ContainerInspect)
      → Safe s
      → ((c : ContainerInspect) → owned ≡ inr c → Safe (k s c).0)
      → Safe (on_owned rt k (s, owned)).0
  on_owned-Safe k s (inl e) g safe = g
  on_owned-Safe k s (inr c) g safe = safe c refl

  -- What is done with an owned container is safe.
  abbrev pub SafeOn : (Text → State rt → ContainerInspect → Result rt) → Type 0
  SafeOn k =
      (id : Text) (s : State rt) (c : ContainerInspect) (r : Reply) (earlier : List Event)
      → Safe s
      → s.log ≡ inspected id r ∷ earlier
      → owned_record m.cluster r ≡ inr c
      → Safe (k id s c).0

  pub unless-Safe :
      (e : Option LocalError) (s : State rt) (r : Result rt)
      → Safe s
      → Safe r.0
      → Safe (unless rt e s r).0
  unless-Safe (some e) s r g g' = g
  unless-Safe none s r g g' = g'

  pub with_owned-Safe :
      (early : Option LocalError) (id : Text) (k : Text → State rt → ContainerInspect → Result rt)
      (s : State rt)
      → SafeOn k
      → Safe s
      → Safe (with_owned rt m early id k s).0
  unfolding with_owned
  with_owned-Safe early id k s safe g =
      let (s', owned) = owned_container rt m.cluster (trim_space id) s in
      let inner : Safe (unless rt early s (on_owned rt (k (trim_space id)) (s', owned))).0 =
        unless-Safe early s _ g (
          on_owned-Safe (k (trim_space id)) s' owned g (λ c h.
            safe (trim_space id) s' c (rt.inspect s.world (trim_space id)).1 s.log g refl h)) in
      unless-Safe (validate m) s _ g
        (elim (Bool-cases (is_empty (trim_space id))) [ inl e ↦ rw e g | inr e ↦ rw e inner ])

  pub log-Shown :
      (id : Text) (s : State rt) (c : ContainerInspect) (r : Reply) (earlier : List Event)
      (name : Text)
      → s.log ≡ inspected id r ∷ earlier
      → owned_record m.cluster r ≡ inr c
      → (name ≡ id) ⊎ (name ≡ container_name c)
      → Shown m.cluster name s.log
  log-Shown id s c r earlier name log owned named =
      let (same, label) = owned_record-inr m.cluster r c owned in
      (id, c, earlier, log ∙ ap (λ q. inspected id q ∷ earlier) same, label, named)
