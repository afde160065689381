-- ===== src/Conformance/Registry/Runners.antt =====
-- scenario_registry.go: a scenario's runner function by its name and by its ID.
use Prim.Native.String.{String}
use etcd_infra.Common.{
  ℕ, ◌≡◌, refl, sym, ap, subst, inl, inr, Bool, true, false, ◌&&◌, List, [], ◌∷◌, Option, none,
  some, arith, if◌then◌else◌, ◌==◌, Bool-cases, Text, codes, text_eq, text_eq_iff,
}
use etcd_infra.Conformance.Registry.{find_id}
use etcd_infra.Conformance.Registry.Tables.{id_string_to_id, id_string_to_runner}
use etcd_infra.Conformance.Registry.ById.{id_to_runner}

find_name : Text → List (String × String) → Option Text
find_name s [] = none
find_name s ((name, f) ∷ table) =
    if text_eq (codes name) s then some (codes f) else find_name s table

find_number : ℕ → List (ℕ × String) → Option Text
find_number id [] = none
find_number id ((n, f) ∷ table) = if n == id then some (codes f) else find_number id table

-- IDStringToRunnerFunc[s]
unfoldable pub runner_by_name : Text → Option Text
unfolding find_name
runner_by_name s = find_name s id_string_to_runner

-- IDToRunner[id]
unfoldable pub runner_by_id : ℕ → Option Text
unfolding find_number
runner_by_id id = find_number id id_to_runner

same_runner : Option Text → Option Text → Bool
same_runner none b = false
same_runner (some f) none = false
same_runner (some f) (some g) = text_eq f g

agree : List (String × ℕ) → Bool
unfolding runner_by_name runner_by_id same_runner
agree [] = true
agree ((name, id) ∷ table) =
    same_runner (runner_by_name (codes name)) (runner_by_id id) && agree table

tables_agree : agree id_string_to_id ≡ true
unfolding agree runner_by_name runner_by_id find_name find_number same_runner text_eq
tables_agree = refl

same_runner_eq :
    (a b : Option Text) → same_runner a b ≡ true → (f : Text) × (a ≡ some f) × (b ≡ some f)
unfolding same_runner
same_runner_eq none b h = absurd (cc)
same_runner_eq (some f) none h = absurd (cc)
same_runner_eq (some f) (some g) h = (f, refl, ap some (sym ((text_eq_iff f g).0 h)))

agree-find_id :
    (s : Text) (id : ℕ) (table : List (String × ℕ))
    → agree table ≡ true
    → find_id s table ≡ some id
    → same_runner (runner_by_name s) (runner_by_id id) ≡ true
unfolding agree find_id
agree-find_id s id [] h e = absurd (cc)
agree-find_id s id ((name, n) ∷ table) h e = elim (Bool-cases (text_eq (codes name) s)) [
  | inl t ↦
      let same : n ≡ id = ground arith in
      subst (λ z. same_runner (runner_by_name s) (runner_by_id z) ≡ true) same
        (subst (λ z. same_runner (runner_by_name z) (runner_by_id n) ≡ true)
          ((text_eq_iff (codes name) s).0 t) (ground arith))
  | inr t ↦ agree-find_id s id table (ground arith) (rw t at e)
]

-- A scenario name of the registry has one runner function, and the scenario's ID has the same one.
pub runner_by_name-runner_by_id :
    (s : Text) (id : ℕ)
    → find_id s id_string_to_id ≡ some id
    → (f : Text) × (runner_by_name s ≡ some f) × (runner_by_id id ≡ some f)
runner_by_name-runner_by_id s id h =
    same_runner_eq _ _ (agree-find_id s id id_string_to_id tables_agree h)
