-- ===== src/Conformance/Registry.antt =====
-- internal/etcd/conformance/scenarios: the maps of scenario_registry.go and ValidID.
pub mod Tables
pub mod ById
pub mod Runners
pub mod Names
pub mod Ids
use etcd_infra.Common.{
  ℕ, ◌≡◌, refl, sym, ap, ◌∙◌, Bool, true, false, List, [], ◌∷◌, Option, none, some, arith, is_some,
  if◌then◌else◌, Text, codes, text_eq, text_eq_refl, All, All-imp, map,
}
use Prim.Native.String.{String}
use Tables.{id_string_to_id, runner_names}

-- IDStringToID[id]
unfoldable pub find_id : Text → List (String × ℕ) → Option ℕ
find_id s [] = none
find_id s ((name, id) ∷ table) = if text_eq (codes name) s then some id else find_id s table

-- ValidID
unfoldable pub valid_id : Text → Bool
unfolding find_id
valid_id s = is_some (find_id s id_string_to_id)

any_name : Text → List String → Bool
any_name s [] = false
any_name s (name ∷ names) = if text_eq (codes name) s then true else any_name s names

-- `_, ok := IDStringToRunnerFunc[scenario]`
unfoldable pub has_runner : Text → Bool
unfolding any_name
has_runner s = any_name s runner_names

id_names : List (String × ℕ) → List String
id_names [] = []
id_names ((name, id) ∷ table) = name ∷ id_names table

any_name-id_names :
    (s : Text) (table : List (String × ℕ)) → any_name s (id_names table) ≡ is_some (find_id s table)
unfolding any_name find_id id_names
any_name-id_names s [] = refl
any_name-id_names s ((name, id) ∷ table) = ground (arith, any_name-id_names s table)

tables_agree : id_names id_string_to_id ≡ runner_names
unfolding id_names
tables_agree = refl

-- The configuration accepts exactly the scenario names that have a runner function.
pub valid_id-has_runner : (s : Text) → valid_id s ≡ has_runner s
unfolding valid_id has_runner
valid_id-has_runner s =
    sym (ap (any_name s) (sym tables_agree) ∙ any_name-id_names s id_string_to_id)

any_name_self : (names : List String) → All (λ s. any_name s names ≡ true) (map codes names)
unfolding any_name
any_name_self [] = tt
any_name_self (name ∷ names) = (
  ground (arith, text_eq_refl (codes name)),
  All-imp {P = λ s. any_name s names ≡ true} (map codes names) (λ s h. ground arith)
      (any_name_self names),
)

pub runner_names-has_runner : All (λ s. has_runner s ≡ true) (map codes runner_names)
unfolding has_runner
runner_names-has_runner = any_name_self runner_names
