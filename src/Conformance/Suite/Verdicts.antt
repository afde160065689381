-- ===== src/Conformance/Suite/Verdicts.antt =====
-- suite_workflow.go: RunScenarios on scenario functions that keep to their contract.
use etcd_infra.Common.{
  ℕ, zero, suc, ◌≡◌, refl, sym, ap, subst, Bool, true, false, ◌||◌, List, [], ◌∷◌, map, none, arith,
  if◌then◌else◌, Text, text_eq_refl, All,
}
use mathlib.Core.List.{map-append}
use etcd_infra.Conformance.Registry.{has_runner}
use etcd_infra.Conformance.Tuning.{max_attempts, should_retry_scenario}
use etcd_infra.Conformance.Runner.{Result, newest_failure}
use etcd_infra.Conformance.Suite.{
  Attempt, returned, timed_out, run_scenario_with_timeout, run_from, run_scenarios, finished,
  suite_of, unknown_scenario,
}
use etcd_infra.Conformance.Suite.Tally.{
  verdict, ended, followed, contribution, contributions, run_from-contributions,
}

-- A scenario function by its contract: it records one result of its own and returns, or it hangs
-- and is heard of no more.
pub data Reply : Type 0 where
  reports : Result → Reply
  hangs : Reply

abbrev pub attempt_of : Text → Reply → Attempt
attempt_of s (reports r) = record {
  outcome = returned;
  recorded = record r { scenario = s } ∷ [];
  landed = [];
  late = [];
}
attempt_of s hangs = record { outcome = timed_out; recorded = []; landed = []; late = [] }

abbrev pub passes : Reply → Bool
passes (reports r) = r.success
passes hangs = false

-- One of the `n` attempts from `k` on passes.
unfoldable pub some_pass : (ℕ → Reply) → ℕ → ℕ → Bool
some_pass replies k zero = false
some_pass replies k (suc n) = passes (replies k) || some_pass replies (suc k) n

-- Each scenario, run at its index, replies as listed.
abbrev pub Replies : (ℕ → ℕ → Attempt) → (ℕ → ℕ → Reply) → ℕ → List Text → Type 0
Replies env replies idx [] = Unit
Replies env replies idx (s ∷ ss) =
    ((k : ℕ) → env idx k ≡ attempt_of s (replies idx k)) × Replies env replies (suc idx) ss

unfoldable pub expected : (ℕ → ℕ → Reply) → ℕ → List Text → List (Text × Bool)
expected replies idx [] = []
expected replies idx (s ∷ ss) =
    (s, some_pass (replies idx) 1 (max_attempts s)) ∷ expected replies (suc idx) ss

abbrev pub summary : List Result → List (Text × Bool)
summary = map (λ r. (r.scenario, r.success))

or-false : (b : Bool) → (b || false) ≡ b
or-false true = refl
or-false false = refl

summary-ended :
    (s : Text) (p : Reply) → summary (ended s (attempt_of s p)) ≡ (s, passes p || false) ∷ []
unfolding verdict run_scenario_with_timeout newest_failure
summary-ended s (reports r) = ground (arith, text_eq_refl s)
summary-ended s hangs = refl

-- One more attempt, before others.
summary-followed :
    (s : Text) (p : Reply) (rest : List Result) (later : Bool)
    → summary rest ≡ (s, later) ∷ []
    → summary (followed s (attempt_of s p) rest) ≡ (s, passes p || later) ∷ []
unfolding verdict run_scenario_with_timeout newest_failure
summary-followed s (reports r) rest later h = ground (arith, text_eq_refl s)
summary-followed s hangs rest later h = h

module _ (s : Text) (env : ℕ → Attempt) (replies : ℕ → Reply)
    (h : (k : ℕ) → env k ≡ attempt_of s (replies k)) where
  summary-contribution :
      (k n : ℕ) → summary (contribution env s k (suc n)) ≡ (s, some_pass replies k (suc n)) ∷ []
  unfolding contribution some_pass
  summary-contribution k zero =
      subst (λ a. summary (ended s a) ≡ (s, passes (replies k) || false) ∷ []) (sym (h k))
        (summary-ended s (replies k))
  summary-contribution k (suc n) =
      subst
        (λ a.
          summary (followed s a (contribution env s (suc k) (suc n)))
          ≡ (s, some_pass replies k (suc (suc n))) ∷ [])
        (sym (h k))
        (summary-followed s (replies k) (contribution env s (suc k) (suc n)) _
          (summary-contribution (suc k) n))

pub max_attempts_pos : (s : Text) → (n : ℕ) × (max_attempts s ≡ suc n)
unfolding max_attempts
max_attempts_pos s = (if should_retry_scenario s then 2 else 0, ground arith)

summary-contributions :
    (env : ℕ → ℕ → Attempt) (replies : ℕ → ℕ → Reply) (idx : ℕ) (ids : List Text)
    → Replies env replies idx ids
    → summary (contributions env idx ids) ≡ expected replies idx ids
unfolding contributions expected
summary-contributions env replies idx [] h = refl
summary-contributions env replies idx (s ∷ ss) (h, hs) =
    let (n, e) = max_attempts_pos s in
    rw (map-append, e, summary-contribution s (env idx) (replies idx) h 1 n)
      (ap (◌∷◌ (s, some_pass (replies idx) 1 (suc n)))
        (summary-contributions env replies (suc idx) ss hs))

pub unknown_scenario-none :
    (ids : List Text) → All (λ s. has_runner s ≡ true) ids → unknown_scenario ids ≡ none
unfolding unknown_scenario
unknown_scenario-none [] h = refl
unknown_scenario-none (s ∷ ss) (h, hs) = rw h (unknown_scenario-none ss hs)

-- If every listed scenario has a runner and keeps to its contract, the suite finishes with exactly
-- one result for each scenario, in the order of the list, and that result is a success exactly when
-- one of the attempts that the scenario is given passes.
pub run_scenarios-summary :
    (env : ℕ → ℕ → Attempt) (replies : ℕ → ℕ → Reply) (ids : List Text)
    → All (λ s. has_runner s ≡ true) ids
    → Replies env replies 0 ids
    → (results : List Result) × (run_scenarios env ids ≡ finished results)
      × (summary results ≡ expected replies 0 ids)
unfolding run_scenarios
run_scenarios-summary env replies ids known h = (
  run_from env 0 ids [],
  ap (suite_of (run_from env 0 ids [])) (unknown_scenario-none ids known),
  rw run_from-contributions (summary-contributions env replies 0 ids h),
)
