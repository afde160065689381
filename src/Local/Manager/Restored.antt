-- ===== src/Local/Manager/Restored.antt =====
-- manager_lifecycle.go: what restoreContainer has seen when it ends.
use mathlib.Core.List.{Perm}
use etcd_infra.Common.{
  ℕ, zero, suc, ◌≡◌, ◌≢◌, ◌⊎◌, inl, inr, refl, sym, ap, ◌∙◌, true, List, [], ◌∷◌, Option, none,
  some, arith, Bool-cases, Text, text_eq, text_eq_iff,
}
use etcd_infra.Local.Containers.{ContainerInspect, cluster_label_key, lookup_or, is_pending_status}
use etcd_infra.Local.Env.{same_env-perm}
use etcd_infra.Local.Replacement.{ReplacementSpec, SpecError, replacement_spec_from_inspect}
use etcd_infra.Local.Manager.{
  Reply, failed, garbled, records, Event, inspected, LocalError, Runtime, State, Next, done, fail,
  again, owned_record, same_identity, judge_running, judge_owned, attempt, at_deadline,
  restore_container, then_again, then_unless,
}

-- The container `c`, as the newest event shows it, is the cluster's, runs, and is a new container
-- with the identity of the old one.
pub record Restored (cluster : Text) (before : ReplacementSpec) (log : List Event) : Type 0 where
  pub shown : ContainerInspect
  pub after : ReplacementSpec
  pub earlier : List Event
  pub newest : log ≡ inspected before.name (records (shown ∷ [])) ∷ earlier
  pub owned : lookup_or [] cluster_label_key shown.labels ≡ cluster
  pub runs : shown.running ≡ true
  pub kept : replacement_spec_from_inspect shown cluster ≡ inr after
  pub replaced : after.container_id ≢ before.container_id
  pub same_ip : after.private_ip ≡ before.private_ip
  pub same_volume : after.volume ≡ before.volume
  pub same_aux : after.aux_publish ≡ before.aux_publish
  pub env : Perm after.env before.env

pub owned_record-inr :
    (cluster : Text) (r : Reply) (c : ContainerInspect)
    → owned_record cluster r ≡ inr c
    → (r ≡ records (c ∷ [])) × (lookup_or [] cluster_label_key c.labels ≡ cluster)
unfolding owned_record
owned_record-inr cluster failed c h = absurd (cc)
owned_record-inr cluster garbled c h = absurd (cc)
owned_record-inr cluster (records []) c h = absurd (cc)
owned_record-inr cluster (records (c' ∷ [])) c h =
    elim (Bool-cases (text_eq (lookup_or [] cluster_label_key c'.labels) cluster)) [
      | inl e ↦
          let h' : inr c' ≡ inr c = rw e at h in
          let same : c' ≡ c = cc h' in
          (
            ap (λ d. records (d ∷ [])) same,
            ap (λ d. lookup_or [] cluster_label_key d.labels) (sym same)
                ∙ (text_eq_iff (lookup_or [] cluster_label_key c'.labels) cluster).0 e,
          )
      | inr e ↦ let h' = rw e at h in absurd (cc h')
    ]
owned_record-inr cluster (records (c' ∷ c'' ∷ cs)) c h = absurd (cc)

module _ {W : Type 0} (rt : Runtime W) (cluster : Text) (before : ReplacementSpec) where
  abbrev Good : State rt × Next rt → Type 0
  Good r = r.1 ≡ done → Restored cluster before r.0.log

  then_again-Good : (e : LocalError) (r : State rt × Option LocalError) → Good (then_again rt e r)
  then_again-Good e (s, none) h = absurd (cc)
  then_again-Good e (s, some e') h = absurd (cc)

  then_unless-Good : (e : LocalError) (r : State rt × Option LocalError) → Good (then_unless rt e r)
  then_unless-Good e (s, none) h = absurd (cc)
  then_unless-Good e (s, some e') h = absurd (cc)

  judge_running-Good :
      (s : State rt) (c : ContainerInspect) (earlier : List Event)
      (spec : SpecError ⊎ ReplacementSpec)
      → s.log ≡ inspected before.name (records (c ∷ [])) ∷ earlier
      → lookup_or [] cluster_label_key c.labels ≡ cluster
      → c.running ≡ true
      → replacement_spec_from_inspect c cluster ≡ spec
      → Good (judge_running rt before s spec)
  unfolding judge_running
  judge_running-Good s c earlier (inl e) n o r k = λ h. absurd (cc)
  judge_running-Good s c earlier (inr after) n o r k =
      elim (Bool-cases (text_eq after.container_id before.container_id)) [
        | inl e ↦ rw e (λ h. absurd (cc))
        | inr e ↦ elim (Bool-cases (same_identity rt after before)) [
          | inr e' ↦ rw (e, e') (then_unless-Good _ _)
          | inl e' ↦
              rw (e, e')
                (λ _. record {
                  shown = c;
                  after = after;
                  earlier = earlier;
                  newest = n;
                  owned = o;
                  runs = r;
                  kept = k;
                  replaced = ground (arith, text_eq_iff after.container_id before.container_id);
                  same_ip = ground (arith, text_eq_iff after.private_ip before.private_ip);
                  same_volume = ground (arith, text_eq_iff after.volume before.volume);
                  same_aux = ground (arith, text_eq_iff after.aux_publish before.aux_publish);
                  env = (same_env-perm after.env before.env).0 (ground arith);
                })
        ]
      ]

  judge_owned-Good :
      (s : State rt) (r : Reply) (earlier : List Event) (owned : LocalError ⊎ ContainerInspect)
      → s.log ≡ inspected before.name r ∷ earlier
      → owned_record cluster r ≡ owned
      → Good (judge_owned rt cluster before (s, owned))
  unfolding judge_owned replacement_spec_from_inspect
  judge_owned-Good s r earlier (inl e) n o = then_again-Good _ _
  judge_owned-Good s r earlier (inr c) n o =
      let (same, label) = owned_record-inr cluster r c o in
      elim (Bool-cases c.running) [
        | inl e ↦ rw e (
            judge_running-Good s c earlier (replacement_spec_from_inspect c cluster)
              (n ∙ ap (λ q. inspected before.name q ∷ earlier) same) label e refl)
        | inr e ↦ elim (Bool-cases (is_pending_status c.status)) [
          | inl p ↦ rw (e, p) (λ h. absurd (cc))
          | inr p ↦ rw (e, p) (then_again-Good _ _)
        ]
      ]

  attempt-Good : (s : State rt) → Good (attempt rt cluster before s)
  unfolding attempt
  attempt-Good s = judge_owned-Good _ _ s.log _ refl refl

  at_deadline-Good :
      (r : State rt × Next rt)
      → Good r
      → (at_deadline rt r).1 ≡ none
      → Restored cluster before (at_deadline rt r).0.log
  at_deadline-Good (s, done) g h = g refl
  at_deadline-Good (s, fail e) g h = absurd (cc)
  at_deadline-Good (s, again e) g h = absurd (cc)

  -- If the recovery of a replaced container reports no error, then the last thing it asked of the
  -- runtime was to show the container, and it was shown a running container of the cluster under
  -- the old name, with another ID, and with the address, the data volume, the auxiliary port and,
  -- up to its order, the environment of the old one.
  pub restore_container-Restored :
      (ticks : ℕ) (s : State rt)
      → (restore_container rt cluster before ticks s).1 ≡ none
      → Restored cluster before (restore_container rt cluster before ticks s).0.log
  unfolding restore_container
  restore_container-Restored zero s h = at_deadline-Good _ (attempt-Good s) h
  restore_container-Restored (suc ticks) s h =
      go (attempt rt cluster before s) (λ s'. restore_container-Restored ticks s') (attempt-Good s)
        h
    where
      after_attempt : State rt × Next rt → State rt × Option LocalError
      after_attempt (s', done) = (s', none)
      after_attempt (s', fail e) = (s', some e)
      after_attempt (s', again e) = restore_container rt cluster before ticks s'

      go :
          (r : State rt × Next rt)
          → ((s' : State rt)
              → (restore_container rt cluster before ticks s').1 ≡ none
              → Restored cluster before (restore_container rt cluster before ticks s').0.log)
          → Good r
          → (after_attempt r).1 ≡ none
          → Restored cluster before (after_attempt r).0.log
      go (s', done) rest g e = g refl
      go (s', fail err) rest g e = absurd (cc)
      go (s', again err) rest g e = rest s' e
