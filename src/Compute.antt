-- ===== src/Compute.antt =====
-- pkg/providers/compute/pollable_adapter.go: running a command by submitting it and polling.
mod Backoff
mod Samples
use etcd_infra.Common.{
  ℕ, zero, suc, ◌*◌, ◌/◌, ◌+◌, Bool, true, false, List, [], ◌∷◌, Option, none, some, if◌then◌else◌,
  ltb, ℤ, pos, negsuc, is_non_positive, Text,
}

-- Times are in milliseconds.
abbrev pub poll_backoff_initial : ℕ
poll_backoff_initial = 500

abbrev pub poll_backoff_max : ℕ
poll_backoff_max = 5000

abbrev pub poll_default_timeout : ℕ
poll_default_timeout = 300000

pub data PollReply : Type 0 where
  in_flight poll_failed : PollReply
  finished : Text → PollReply

-- The command's handle and its context: what each poll answers, and whether the context is done in
-- the wait after it, before the timer fires.
pub record CommandHandle : Type 0 where
  pub poll : ℕ → PollReply
  pub expired : ℕ → Bool

pub data PollResult : Type 0 where
  result : Text → PollResult
  poll_error context_done async_error : PollResult

-- How a command ends, the lengths of the waits, and whether the command was cancelled
pub record PollOutcome : Type 0 where
  pub ending : PollResult
  pub waits : List ℕ
  pub cancelled : Bool

unfoldable pub next_interval : ℕ → ℕ
next_interval interval =
    let doubled = interval * 2 in if ltb poll_backoff_max doubled then poll_backoff_max else doubled

abbrev pub ended : PollResult → Option PollOutcome
ended r = some (record { ending = r; waits = []; cancelled = false })

abbrev pub after_wait : ℕ → Option PollOutcome → Option PollOutcome
after_wait interval none = none
after_wait interval (some o) = some (record o { waits = interval ∷ o.waits })

abbrev pub expired_in : ℕ → Option PollOutcome
expired_in interval =
    some (record { ending = context_done; waits = interval ∷ []; cancelled = true })

-- The loop of poll from the k-th poll on; `none` if the rounds do not suffice
unfoldable pub poll_loop : CommandHandle → ℕ → ℕ → ℕ → Option PollOutcome
unfolding next_interval
poll_loop h zero k interval = none
poll_loop h (suc fuel) k interval =
    let rest = after_wait interval (poll_loop h fuel (suc k) (next_interval interval)) in
    elim (h.poll k) [
      | poll_failed ↦ ended poll_error
      | finished r ↦ ended (result r)
      | in_flight ↦ (if h.expired k then expired_in interval else rest)
    ]

-- The timeout of the options, if they are there and it is positive
unfoldable pub command_timeout : Option ℤ → ℕ
command_timeout none = poll_default_timeout
command_timeout (some (pos n)) = if is_non_positive (pos n) then poll_default_timeout else n
command_timeout (some (negsuc n)) = poll_default_timeout

-- RunCommandWithOptions, for a command that can be submitted or not. No wait is shorter than the first
-- one, so that these rounds reach the timeout.
unfoldable pub run_command_with_options : Option CommandHandle → Option ℤ → Option PollOutcome
unfolding poll_loop command_timeout
run_command_with_options none timeout = ended async_error
run_command_with_options (some h) timeout =
    poll_loop h (command_timeout timeout / poll_backoff_initial + 2) 0 poll_backoff_initial
