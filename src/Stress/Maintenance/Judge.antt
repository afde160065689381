-- ===== src/Stress/Maintenance/Judge.antt =====
-- The verdicts on a stress scenario: finalizeScenario (workload_execution.go) and judgeK8sMixed. The
-- messages are kept as data; their wording and number formats are left out.
use etcd_infra.Common.{
  ℕ, ◌<◌, ◌≡◌, ◌↔◌, refl, ◌⊎◌, Bool, true, false, ◌&&◌, List, [], ◌∷◌, ◌++◌, Option, none, some,
  arith, if◌then◌else◌, ltb, ◌==◌, is_empty, All, Text,
}
use etcd_infra.Stress.Floats.{Floats, lt}
use etcd_infra.Stress.Metrics.{Statistics, success_rate}
use etcd_infra.Stress.Maintenance.{Kind, MaintenanceEvent, message}

module _ (fl : Floats) (mul : fl.F → fl.F → fl.F) (multiplier : fl.F) where
  open fl use {F, leq, zero as f_zero}

  -- Why a scenario fails.
  pub data Reason : Type 0 where
    worker_error : Text → Reason
    no_requests : Reason
    success_rate_low : F → F → Reason
    p99_high : F → F → Reason

  -- finalizeScenario's judgement, and the `result.Success` that it leaves: it never turns a failure
  -- into a success. `errs` are the messages of the workers' errors.
  unfoldable pub final_reason : Statistics fl → List Text → F → F → Option Reason
  final_reason stats [] min_success_rate max_p99 =
      let limit = if lt fl f_zero max_p99 then mul max_p99 multiplier else max_p99 in
      if stats.total_requests == 0
      then some no_requests
      else if lt fl (success_rate fl stats) min_success_rate
      then some (success_rate_low (success_rate fl stats) min_success_rate)
      else if lt fl f_zero limit && lt fl limit stats.p99_latency
      then some (p99_high stats.p99_latency limit)
      else none
  final_reason stats (e ∷ errs) min_success_rate max_p99 = some (worker_error e)

  unfoldable pub final_success : Bool → Option Reason → Bool
  final_success success none = success
  final_success success (some reason) = false

  -- What is wrong with a mixed-size run.
  pub data Fault : Type 0 where
    failed_requests : ℕ → Fault
    missed_arrivals : ℕ → Fault
    maintenance_failed : Kind → Text → Text → Fault
    watch_errors : ℕ → Fault
    no_events : Fault
    class_slow : Text → F → Fault

  -- The fields of ClassResult that the verdict reads.
  pub record ClassResult : Type 0 where
    pub class_name : Text
    pub p99_latency : F

  unfoldable pub maintenance_faults : List MaintenanceEvent → List Fault
  maintenance_faults [] = []
  maintenance_faults (m ∷ ms) =
      let rest = maintenance_faults ms in
      let e = message m.error in
      if is_empty e then rest else maintenance_failed m.kind m.member e ∷ rest

  unfoldable pub class_faults : F → List ClassResult → List Fault
  class_faults budget [] = []
  class_faults budget (c ∷ cs) =
      let rest = class_faults budget cs in
      if lt fl budget c.p99_latency then class_slow c.class_name c.p99_latency ∷ rest else rest

  abbrev fault_if : Bool → Fault → List Fault
  fault_if true f = f ∷ []
  fault_if false f = []

  -- judgeK8sMixed: the list `bad`; the run succeeds if it is empty
  unfoldable pub judge_k8s_mixed :
      ℕ → ℕ → List MaintenanceEvent → ℕ → ℕ → F → List ClassResult → List Fault
  unfolding maintenance_faults class_faults
  judge_k8s_mixed failures missed maintenance watch_errs events budget classes =
      fault_if (ltb 0 failures) (failed_requests failures)
      ++ (fault_if (ltb 0 missed) (missed_arrivals missed)
          ++ (maintenance_faults maintenance
              ++ (fault_if (ltb 0 watch_errs) (watch_errors watch_errs)
                  ++ (fault_if (events == 0) no_events ++ class_faults budget classes))))

  maintenance_faults-nil :
      (ms : List MaintenanceEvent)
      → (is_empty (maintenance_faults ms) ≡ true) ↔ All (λ m. is_empty (message m.error) ≡ true) ms
  unfolding maintenance_faults
  maintenance_faults-nil [] = ((λ h. tt), (λ h. refl))
  maintenance_faults-nil (m ∷ ms) = ground (arith, maintenance_faults-nil ms)

  class_faults-nil :
      (budget : F) (cs : List ClassResult)
      → (is_empty (class_faults budget cs) ≡ true) ↔ All (λ c. leq c.p99_latency budget ≡ true) cs
  unfolding class_faults
  class_faults-nil budget [] = ((λ h. tt), (λ h. refl))
  class_faults-nil budget (c ∷ cs) = ground (arith, class_faults-nil budget cs)

  is_empty-append : (xs ys : List Fault) → is_empty (xs ++ ys) ≡ (is_empty xs && is_empty ys)
  is_empty-append [] ys = refl
  is_empty-append (x ∷ xs) ys = refl

  -- A mixed-size run passes exactly when no request failed, no arrival was missed, no maintenance
  -- operation left an error message, no watch failed, some event was received, and no class has a p99
  -- over the budget.
  pub judge_k8s_mixed_passes :
      (failures missed : ℕ) (maintenance : List MaintenanceEvent) (watch_errs events : ℕ)
      (budget : F) (classes : List ClassResult)
      → (is_empty (judge_k8s_mixed failures missed maintenance watch_errs events budget classes)
          ≡ true)
        ↔ ((failures ≡ 0)
            × (missed ≡ 0)
            × All (λ m. is_empty (message m.error) ≡ true) maintenance
            × (watch_errs ≡ 0)
            × (0 < events)
            × All (λ c. leq c.p99_latency budget ≡ true) classes)
  unfolding judge_k8s_mixed
  judge_k8s_mixed_passes failures missed maintenance watch_errs events budget classes =
      let slow = class_faults budget classes in
      let silent = fault_if (events == 0) no_events ++ slow in
      let unwatched = fault_if (ltb 0 watch_errs) (watch_errors watch_errs) ++ silent in
      ground (
        arith,
        maintenance_faults-nil maintenance,
        class_faults-nil budget classes,
        is_empty-append (maintenance_faults maintenance) unwatched,
      )

  -- A scenario that was a success stays one exactly when no worker reported an error, some request
  -- was made, the success rate is no lower than asked, and the p99, where it is limited, is within
  -- the scaled limit.
  pub final_success_iff :
      (stats : Statistics fl) (errs : List Text) (min_success_rate max_p99 : F)
      → (final_success true (final_reason stats errs min_success_rate max_p99) ≡ true) ↔ (
          (is_empty errs ≡ true)
          × (0 < stats.total_requests)
          × (leq min_success_rate (success_rate fl stats) ≡ true)
          × (let limit = if lt fl f_zero max_p99 then mul max_p99 multiplier else max_p99 in
              (leq limit f_zero ≡ true) ⊎ (leq stats.p99_latency limit ≡ true)))
  unfolding final_success final_reason
  final_success_iff stats [] r p = ground arith
  final_success_iff stats (e ∷ errs) r p = ((λ h. absurd (cc)), (λ h. absurd (cc)))
