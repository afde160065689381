-- ===== src/Client.antt =====
-- internal/etcd/client/cluster_health_waiter.go: waiting until a quorum of the endpoints answers.
mod Quorum
mod Samples
use etcd_infra.Common.{
  ℕ, zero, suc, ◌+◌, ◌/◌, Bool, List, [], ◌∷◌, Option, none, some, if◌then◌else◌, ltb, leb, length,
  is_empty, ℤ, pos, negsuc, is_non_positive, Text,
}

pub data HealthResult : Type 0 where
  healthy client_nil no_endpoints max_wait_invalid interrupted timed_out : HealthResult
  failed_check : Text → HealthResult

-- Times are in milliseconds.
abbrev pub poll_interval : ℕ
poll_interval = 200

unfoldable pub required_healthy : List Text → ℕ
required_healthy endpoints = length endpoints / 2 + 1

-- What a round finds: how many endpoints answer, and the last error of those that do not
unfoldable pub count_healthy : (Text → Option Text) → List Text → ℕ
count_healthy status [] = 0
count_healthy status (ep ∷ eps) = elim (status ep) [
  | none ↦ suc (count_healthy status eps)
  | some e ↦ count_healthy status eps
]

unfoldable pub last_error : (Text → Option Text) → List Text → Option Text → Option Text
last_error status [] e = e
last_error status (ep ∷ eps) e =
    last_error status eps (elim (status ep) [ none ↦ e | some e' ↦ some e' ])

abbrev gave_up : Option Text → HealthResult
gave_up none = timed_out
gave_up (some e) = failed_check e

-- The environment: the time at which each round begins, what the endpoints answer in it, and whether
-- the context is done before the sleep after it ends.
pub record Rounds : Type 0 where
  pub now : ℕ → ℕ
  pub status : ℕ → Text → Option Text
  pub done : ℕ → Bool

-- The loop from round `i` on, for at most so many rounds; `none` if they do not suffice
unfoldable pub health_loop : Rounds → List Text → ℕ → ℕ → ℕ → Option Text → Option HealthResult
unfolding required_healthy count_healthy last_error
health_loop env endpoints deadline zero i e = none
health_loop env endpoints deadline (suc fuel) i e =
    let rest =
      health_loop env endpoints deadline fuel (suc i) (last_error (env.status i) endpoints e) in
    if ltb (env.now i) deadline
    then if leb (required_healthy endpoints) (count_healthy (env.status i) endpoints)
      then some healthy
      else if env.done i
      then some interrupted
      else rest
    else some (gave_up e)

-- WaitForClusterHealthy, from a client that is there or not and at the time `start`. Each round ends
-- with a sleep of the poll interval, so that this many rounds reach the deadline.
unfoldable pub wait_for_cluster_healthy : Rounds → Bool → List Text → ℤ → ℕ → Option HealthResult
unfolding health_loop
wait_for_cluster_healthy env has_client endpoints (pos max_wait) start =
    if has_client
    then if is_empty endpoints
      then some no_endpoints
      else if is_non_positive (pos max_wait)
      then some max_wait_invalid
      else health_loop env endpoints (start + max_wait) (max_wait / poll_interval + 2) 0 none
    else some client_nil
wait_for_cluster_healthy env has_client endpoints (negsuc n) start =
    if has_client
    then if is_empty endpoints then some no_endpoints else some max_wait_invalid
    else some client_nil
