-- ===== src/Client/Quorum.antt =====
-- cluster_health_waiter.go: when the wait ends, and with what.
use etcd_infra.Common.{
  ℕ, zero, suc, ◌+◌, ◌*◌, ◌/◌, ◌≤◌, ◌<◌, ◌≡◌, ◌↔◌, refl, sym, ◌∙◌, ◌==◌, Bool, true, false, List,
  [], ◌∷◌, Option, none, some, arith, inl, inr, ◌⊎◌, Bool-cases, if◌then◌else◌, ltb, leb, ltb→lt,
  lt→ltb, length, ℤ, pos, negsuc, Text,
}
use etcd_infra.Client.{
  HealthResult, healthy, client_nil, no_endpoints, max_wait_invalid, interrupted, Rounds,
  poll_interval, required_healthy, count_healthy, health_loop, last_error, gave_up,
  wait_for_cluster_healthy,
}

-- The clock: a round ends with a sleep of the poll interval.
abbrev pub Advances : Rounds → ℕ → Type 0
Advances env start = (start ≤ env.now 0) × ((i : ℕ) → env.now i + poll_interval ≤ env.now (suc i))

-- In round `j` most of the endpoints answer.
abbrev pub Majority : Rounds → List Text → ℕ → Type 0
Majority env endpoints j = length endpoints < 2 * count_healthy (env.status j) endpoints

-- How a round comes to a healthy end
healthy_cases :
    (b b' b'' : Bool) (e : Option Text) {o : Option HealthResult}
    → (if b
        then if b' then some healthy else if b'' then some interrupted else o
        else some (gave_up e))
      ≡ some healthy
    → ((b ≡ true) × (b' ≡ true)) ⊎ (o ≡ some healthy)
healthy_cases true true b'' e h = inl (refl, refl)
healthy_cases true false true e h = absurd (cc)
healthy_cases true false false e h = inr h
healthy_cases false b' b'' none h = absurd (cc)
healthy_cases false b' b'' (some e) h = absurd (cc)

module _ (env : Rounds) (endpoints : List Text) (deadline : ℕ) where
  -- With rounds enough to reach the deadline the loop ends.
  health_loop_total :
      ((i : ℕ) → env.now i + poll_interval ≤ env.now (suc i))
      → (fuel i : ℕ) (e : Option Text) → deadline + poll_interval ≤ env.now i + poll_interval * fuel
      → 0 < fuel
      → (r : HealthResult) × (health_loop env endpoints deadline fuel i e ≡ some r)
  unfolding health_loop
  health_loop_total step zero i e h p = absurd (omega arith)
  health_loop_total step (suc fuel) i e h p = elim (Bool-cases (ltb (env.now i) deadline)) [
    | inr late ↦ rw late (gave_up e, refl)
    | inl early ↦
        let before = ltb→lt (env.now i) deadline early in
        rw early (
          ended (leb (required_healthy endpoints) (count_healthy (env.status i) endpoints))
            (env.done i)
            (health_loop_total step fuel (suc i) (last_error (env.status i) endpoints e)
              (omega (arith, step i)) (omega (arith, step i))))
  ]
    where
      ended :
          (b b' : Bool) {o : Option HealthResult}
          → ((r : HealthResult) × (o ≡ some r))
          → (r : HealthResult) × ((if b then some healthy else if b' then some interrupted else o)
              ≡ some r)
      ended true b' h = (healthy, refl)
      ended false true h = (interrupted, refl)
      ended false false h = h

  -- A healthy end comes from a round before the deadline in which most of the endpoints answer.
  health_loop-healthy :
      (fuel i : ℕ) (e : Option Text)
      → health_loop env endpoints deadline fuel i e ≡ some healthy
      → (j : ℕ) × (env.now j < deadline) × Majority env endpoints j
  unfolding health_loop required_healthy
  health_loop-healthy zero i e h = absurd (cc)
  health_loop-healthy (suc fuel) i e h =
      elim (healthy_cases (ltb (env.now i) deadline)
        (leb (required_healthy endpoints) (count_healthy (env.status i) endpoints)) (env.done i) e
        h) [
          | inl (early, most) ↦ (i, ltb→lt (env.now i) deadline early, ground arith)
          | inr rest ↦ health_loop-healthy fuel (suc i) (last_error (env.status i) endpoints e) rest
        ]

  mono_from :
      ((i : ℕ) → env.now i + poll_interval ≤ env.now (suc i))
      → (k i j : ℕ) → j ≡ k + i
      → env.now i ≤ env.now j
  mono_from step zero i j e = let at : i ≡ j = omega arith in rw at (omega arith)
  mono_from step (suc k) i j e = omega (arith, step i, mono_from step k (suc i) j (omega arith))

  -- A round before the deadline with most of the endpoints is not missed.
  health_loop-reaches :
      ((i : ℕ) → env.now i + poll_interval ≤ env.now (suc i))
      → ((i : ℕ) → env.done i ≡ false)
      → (fuel i k j : ℕ) (e : Option Text) → j ≡ k + i
      → k < fuel
      → env.now j < deadline
      → Majority env endpoints j
      → health_loop env endpoints deadline fuel i e ≡ some healthy
  unfolding health_loop required_healthy
  health_loop-reaches step going zero i k j e at h t m = absurd (omega arith)
  health_loop-reaches step going (suc fuel) i zero j e at h t m =
      let same : i ≡ j = omega arith in rw (same, lt→ltb (env.now j) deadline t) (ground arith)
  health_loop-reaches step going (suc fuel) i (suc k) j e at h t m =
      let earlier = mono_from step (suc k) i j at in
      rw (lt→ltb (env.now i) deadline (omega arith), going i)
        (skipped (leb (required_healthy endpoints) (count_healthy (env.status i) endpoints)) (
          health_loop-reaches step going fuel (suc i) k j (last_error (env.status i) endpoints e)
            (omega arith) (omega arith) t m))
    where
      skipped :
          (b : Bool) {o : Option HealthResult}
          → o ≡ some healthy
          → (if b then some healthy else o) ≡ some healthy
      skipped true p = refl
      skipped false p = p

now_from :
    (env : Rounds) (start : ℕ)
    → Advances env start
    → (j : ℕ) → start + poll_interval * j ≤ env.now j
now_from env start clock zero = omega (arith, clock.0)
now_from env start clock (suc j) = omega (arith, clock.1 j, now_from env start clock j)

suc_positive : (n : ℕ) → (suc n == 0) ≡ false
suc_positive n = ground arith

-- The wait itself, once the arguments have passed
wait_for_cluster_healthy-health_loop :
    (env : Rounds) (ep : Text) (eps : List Text) (n start : ℕ)
    → wait_for_cluster_healthy env true (ep ∷ eps) (pos (suc n)) start
      ≡ health_loop env (ep ∷ eps) (start + suc n) (suc n / poll_interval + 2) 0 none
unfolding wait_for_cluster_healthy
wait_for_cluster_healthy-health_loop env ep eps n start = rw (suc_positive n) refl

-- Whatever the endpoints answer, and however slowly the rounds follow one another, the wait ends: the
-- rounds that the model allows are enough, since each ends with a sleep of the poll interval.
pub wait_for_cluster_healthy_total :
    (env : Rounds) (has_client : Bool) (endpoints : List Text) (max_wait : ℤ) (start : ℕ)
    → Advances env start
    → (r : HealthResult) × (wait_for_cluster_healthy env has_client endpoints max_wait start
        ≡ some r)
unfolding wait_for_cluster_healthy
wait_for_cluster_healthy_total env false endpoints (pos n) start clock = (client_nil, refl)
wait_for_cluster_healthy_total env false endpoints (negsuc n) start clock = (client_nil, refl)
wait_for_cluster_healthy_total env true [] (pos n) start clock = (no_endpoints, refl)
wait_for_cluster_healthy_total env true [] (negsuc n) start clock = (no_endpoints, refl)
wait_for_cluster_healthy_total env true (ep ∷ eps) (pos zero) start clock = (max_wait_invalid, refl)
wait_for_cluster_healthy_total env true (ep ∷ eps) (pos (suc n)) start clock =
    let (r, e) =
      health_loop_total env (ep ∷ eps) (start + suc n) clock.1 (suc n / poll_interval + 2) 0 none
        (omega (arith, clock.0)) (omega arith) in
    (r, wait_for_cluster_healthy-health_loop env ep eps n start ∙ e)
wait_for_cluster_healthy_total env true (ep ∷ eps) (negsuc n) start clock = (max_wait_invalid, refl)

-- While the context is not done, the wait succeeds exactly if in some round that begins before the
-- deadline more than half of the endpoints answer: one with too few answers never passes, and the
-- first one with enough is not missed.
pub wait_for_cluster_healthy_iff :
    (env : Rounds) (ep : Text) (eps : List Text) (max_wait start : ℕ)
    → Advances env start
    → ((i : ℕ) → env.done i ≡ false)
    → (wait_for_cluster_healthy env true (ep ∷ eps) (pos max_wait) start ≡ some healthy)
      ↔ ((j : ℕ) × (env.now j < start + max_wait) × Majority env (ep ∷ eps) j)
unfolding wait_for_cluster_healthy
wait_for_cluster_healthy_iff env ep eps zero start clock going =
    (λ h. absurd (cc), λ (j, t, m). absurd (omega (arith, now_from env start clock j)))
wait_for_cluster_healthy_iff env ep eps (suc n) start clock going = (
  λ h.
      health_loop-healthy env (ep ∷ eps) (start + suc n) (suc n / poll_interval + 2) 0 none
        (sym (wait_for_cluster_healthy-health_loop env ep eps n start) ∙ h),
  λ (j, t, m).
      wait_for_cluster_healthy-health_loop env ep eps n start
      ∙ health_loop-reaches env (ep ∷ eps) (start + suc n) clock.1 going (suc n / poll_interval + 2)
          0 j j none (omega arith) (omega (arith, now_from env start clock j)) t m,
)
