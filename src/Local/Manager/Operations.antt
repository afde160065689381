-- ===== src/Local/Manager/Operations.antt =====
-- manager.go, manager_lifecycle.go: sequences of the manager's operations.
use etcd_infra.Common.{
  ℕ, inl, inr, refl, Bool, List, [], ◌∷◌, none, some, if◌then◌else◌, Text, codes,
}
use etcd_infra.Local.Replacement.{replacement_spec_from_inspect}
use etcd_infra.Local.Manager.{
  Runtime, State, Manager, delete, power, remove, run_command, replace_owned, replace_machine,
  cancelled, CreateRequest, create,
}
use etcd_infra.Local.Manager.Guarded.{
  Guarded, with_owned-Safe, log-Shown, replace_owned-Safe, name_kept,
}
use etcd_infra.Local.Manager.Created.{create-Safe}

-- The operations of the manager.
pub data Operation : Type 0 where
  deletes stops starts : Text → Operation
  replaces : Bool → ℕ → Text → Operation
  creates : CreateRequest → Operation

unfoldable pub perform : {W : Type 0} (rt : Runtime W) → Manager → Operation → State rt → State rt
unfolding delete power replace_machine create
perform rt m (deletes id) s = (delete rt m id s).0
perform rt m (stops id) s = (power rt m (codes "stop") id s).0
perform rt m (starts id) s = (power rt m (codes "start") id s).0
perform rt m (creates req) s = (create rt m req s).0
perform rt m (replaces is_cancelled ticks id) s = (replace_machine rt m is_cancelled ticks id s).0

perform-Guarded :
    {W : Type 0} (rt : Runtime W) (m : Manager) (o : Operation) (s : State rt)
    → Guarded m.cluster s.log
    → Guarded m.cluster (perform rt m o s).log
unfolding perform
perform-Guarded rt m (deletes id) s g =
    with_owned-Safe rt m none id (λ id s c. remove rt id s) s
      (λ id' s' c r earlier g' log owned.
        (log-Shown rt m id' s' c r earlier id' log owned (inl refl), g'))
      g
perform-Guarded rt m (stops id) s g =
    with_owned-Safe rt m none id (λ id s c. run_command rt (codes "stop" ∷ id ∷ []) s) s
      (λ id' s' c r earlier g' log owned. g') g
perform-Guarded rt m (starts id) s g =
    with_owned-Safe rt m none id (λ id s c. run_command rt (codes "start" ∷ id ∷ []) s) s
      (λ id' s' c r earlier g' log owned. g') g
perform-Guarded rt m (creates req) s g = create-Safe rt m req s g
perform-Guarded rt m (replaces is_cancelled ticks id) s g =
    with_owned-Safe rt m (if is_cancelled then some cancelled else none) id
      (λ id s c. replace_owned rt m.cluster ticks s (replacement_spec_from_inspect c m.cluster)) s
      (λ id' s' c r earlier g' log owned.
        replace_owned-Safe rt m ticks s' (replacement_spec_from_inspect c m.cluster) g' (λ before h.
          log-Shown rt m id' s' c r earlier before.name log owned
            (inr (name_kept c m.cluster before h))))
      g

unfoldable pub perform_all :
    {W : Type 0} (rt : Runtime W) → Manager → List Operation → State rt → State rt
unfolding perform
perform_all rt m [] s = s
perform_all rt m (o ∷ os) s = perform_all rt m os (perform rt m o s)

-- If it holds of the log so far, then it holds after any sequence of the manager's operations,
-- whatever the runtime answers: each container that is removed was shown by the command directly
-- before its removal to carry the label of the manager's cluster, under the name or ID that is
-- removed, and each volume that is removed was shown so too.
pub perform_all-Guarded :
    {W : Type 0} (rt : Runtime W) (m : Manager) (os : List Operation) (s : State rt)
    → Guarded m.cluster s.log
    → Guarded m.cluster (perform_all rt m os s).log
unfolding perform_all
perform_all-Guarded rt m [] s g = g
perform_all-Guarded rt m (o ∷ os) s g =
    perform_all-Guarded rt m os (perform rt m o s) (perform-Guarded rt m o s g)
