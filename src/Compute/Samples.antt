-- ===== src/Compute/Samples.antt =====
-- The polling adapter with a command that ends and one that does not.
use etcd_infra.Common.{
  ◌≡◌, refl, false, [], ◌∷◌, none, some, arith, ltb, if◌then◌else◌, leb, pos, codes, subst, zero,
  suc,
}
use etcd_infra.Compute.{
  in_flight, finished, CommandHandle, result, PollOutcome, command_timeout,
  run_command_with_options,
}
use etcd_infra.Compute.Backoff.{Decided, Expires, run_command_with_options_correct}

abbrev slow_command : CommandHandle
slow_command = record {
  poll = λ k. if ltb k 6 then in_flight else finished (codes "ok");
  expired = λ k. false;
}

abbrev slow_outcome : PollOutcome
slow_outcome = record {
  ending = result (codes "ok");
  waits = 500 ∷ 1000 ∷ 2000 ∷ 4000 ∷ 5000 ∷ 5000 ∷ [];
  cancelled = false;
}

slow_test : run_command_with_options (some slow_command) none ≡ some slow_outcome
unfolding run_command_with_options
slow_test = refl

-- The command never ends, and the context does from the third wait on.
abbrev stuck_command : CommandHandle
stuck_command = record { poll = λ k. in_flight; expired = λ k. leb 2 k }

stuck-Expires :
    (h : CommandHandle)
    → some stuck_command ≡ some h
    → Expires h (command_timeout (some (pos 3000)))
unfolding command_timeout
stuck-Expires h e = subst (λ c. Expires c 3000) (some_command e) expires
  where
    some_command : some stuck_command ≡ some h → stuck_command ≡ h
    some_command p = cc

    expires : Expires stuck_command 3000
    expires zero t = absurd (omega arith)
    expires (suc zero) t = absurd (omega arith)
    expires (suc (suc k)) t = ground arith

run_command_with_options_correct_example :
    (o : PollOutcome) × (run_command_with_options (some stuck_command) (some (pos 3000)) ≡ some o)
    × Decided (some stuck_command) o
run_command_with_options_correct_example =
    run_command_with_options_correct (some stuck_command) (some (pos 3000)) stuck-Expires
