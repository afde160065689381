-- ===== src/Client/Samples.antt =====
-- The wait for a healthy cluster on a schedule of rounds.
use Prim.Native.Nat.{◌*◌}
use etcd_infra.Common.{
  ℕ, ◌≡◌, ◌↔◌, ◌+◌, ◌<◌, refl, true, false, [], ◌∷◌, none, some, arith, ltb, if◌then◌else◌, pos,
  codes, text_eq,
}
use etcd_infra.Client.{HealthResult, healthy, failed_check, Rounds, wait_for_cluster_healthy}
use etcd_infra.Client.Quorum.{
  Majority, wait_for_cluster_healthy_total, wait_for_cluster_healthy_iff,
}

-- Two of three members come up with the third round.
abbrev sample_rounds : Rounds
sample_rounds = record {
  now = λ i. 1000 + 250 * i;
  status = λ i ep.
      if text_eq ep (codes "c")
      then some (codes "down")
      else if ltb i 2
      then some (codes "starting")
      else none;
  done = λ i. false;
}

wait_test :
    wait_for_cluster_healthy sample_rounds true
      (codes "a" ∷ codes "b" ∷ codes "c" ∷ [])
      (pos 2000)
      1000
    ≡ some healthy
unfolding wait_for_cluster_healthy text_eq
wait_test = refl

short_wait_test :
    wait_for_cluster_healthy sample_rounds true
      (codes "a" ∷ codes "b" ∷ codes "c" ∷ [])
      (pos 500)
      1000
    ≡ some (failed_check (codes "down"))
unfolding wait_for_cluster_healthy text_eq
short_wait_test = refl

wait_for_cluster_healthy_total_example :
    (r : HealthResult) × (wait_for_cluster_healthy sample_rounds true (codes "a" ∷ []) (pos 700) 900
      ≡ some r)
wait_for_cluster_healthy_total_example =
    wait_for_cluster_healthy_total sample_rounds true (codes "a" ∷ []) (pos 700) 900
      (omega arith, λ i. omega arith)

wait_for_cluster_healthy_iff_example :
    (wait_for_cluster_healthy sample_rounds true
        (codes "a" ∷ codes "b" ∷ codes "c" ∷ [])
        (pos 2000)
        1000
      ≡ some healthy)
    ↔ ((j : ℕ) × (sample_rounds.now j < 1000 + 2000)
        × Majority sample_rounds (codes "a" ∷ codes "b" ∷ codes "c" ∷ []) j)
wait_for_cluster_healthy_iff_example =
    wait_for_cluster_healthy_iff sample_rounds (codes "a") (codes "b" ∷ codes "c" ∷ []) 2000 1000
      (omega arith, λ i. omega arith) (λ i. refl)
