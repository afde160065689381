-- ===== src/Conformance/Suite/Panics.antt =====
-- A scenario function that panics after it was to record a success.
use etcd_infra.Common.{ℕ, zero, suc, ◌≡◌, refl, sym, subst, true, [], ◌∷◌, ◌++◌, Text, codes}
use etcd_infra.Conformance.Runner.{Result, count_results}
use etcd_infra.Conformance.Suite.{
  Attempt, panicked, attempt_failure, run_scenario, run_scenario_with_timeout, failure_result,
}
use etcd_infra.Conformance.Suite.Verdicts.{max_attempts_pos}
use etcd_infra.Conformance.Suite.Tally.{ended, followed, contribution, run_scenario-contribution}

-- The function panics; its deferred call records the result as it stands.
abbrev pub panicking : Text → Result → Attempt
panicking value r = record { outcome = panicked value; recorded = r ∷ []; landed = []; late = [] }

abbrev panic_error : Text → Text → Text
panic_error s value = codes "scenario " ++ s ++ codes " panicked: " ++ value

module _ (env : ℕ → Attempt) (s value : Text) (r : Result)
    (h : (k : ℕ) → env k ≡ panicking value r) where
  contribution-panics :
      (k n : ℕ) → contribution env s k (suc n) ≡ r ∷ failure_result s (panic_error s value) ∷ []
  unfolding contribution attempt_failure run_scenario_with_timeout
  contribution-panics k zero =
      subst (λ a. ended s a ≡ r ∷ failure_result s (panic_error s value) ∷ []) (sym (h k)) refl
  contribution-panics k (suc n) =
      subst
        (λ a.
          followed s a (contribution env s (suc k) (suc n))
          ≡ r ∷ failure_result s (panic_error s value) ∷ [])
        (sym (h k)) (contribution-panics (suc k) n)

  -- If the function panics on every attempt and its deferred call records a success, the scenario
  -- is tallied twice: once as passed and once as failed.
  pub panic_counts_twice : r.success ≡ true → count_results (run_scenario env s []) ≡ (1, 1)
  unfolding count_results
  panic_counts_twice p =
      let (n, e) = max_attempts_pos s in
      rw (run_scenario-contribution, e, contribution-panics 1 n, p)
