-- ===== src/Compute/Backoff.antt =====
-- pollable_adapter.go: the waits between the polls, and the end of the loop.
use Prim.Native.Nat.{min}
use native.Mathlib.Nat.{pow-succ'}
use etcd_infra.Common.{
  ℕ, zero, suc, ◌*◌, ◌/◌, ◌+◌, ◌^◌, ◌≤◌, ◌<◌, ◌≡◌, ◌⊎◌, ◌==◌, ==_iff, Text, refl, subst, ap, ◌∙◌,
  Bool, true, false, List, [], ◌∷◌, Option, none, some, arith, inl, inr, Bool-cases, if◌then◌else◌,
  ltb, ltb→lt, length, ℤ,
}
use etcd_infra.Compute.{
  poll_backoff_initial, poll_backoff_max, PollReply, in_flight, poll_failed, finished,
  CommandHandle, result, poll_error, context_done, async_error, PollOutcome, next_interval, ended,
  after_wait, expired_in, poll_loop, command_timeout, run_command_with_options,
}

-- The k-th wait: half a second, doubled k times, and five seconds at most
abbrev pub backoff : ℕ → ℕ
backoff k = min (poll_backoff_initial * 2 ^ k) poll_backoff_max

-- The waits from the k-th on, so many of them
abbrev pub schedule : ℕ → ℕ → List ℕ
schedule k zero = []
schedule k (suc n) = backoff k ∷ schedule (suc k) n

next_interval-backoff : (k : ℕ) → next_interval (backoff k) ≡ backoff (suc k)
unfolding next_interval
next_interval-backoff k = ground (arith, pow-succ' 2 k)

abbrev sum : List ℕ → ℕ
sum [] = 0
sum (x ∷ xs) = x + sum xs

-- A poll that finds the command running, and a wait that the context does not end
abbrev pub Quiet : CommandHandle → ℕ → Type 0
Quiet h j = (h.poll j ≡ in_flight) × (h.expired j ≡ false)

-- What the m-th poll and the wait after it make of the loop that began with the k-th poll. The command
-- is cancelled in the last case only.
abbrev pub Verdict : CommandHandle → ℕ → ℕ → PollOutcome → Type 0
Verdict h k m o =
    ((h.poll m ≡ poll_failed)
      × (o.ending ≡ poll_error)
      × (o.cancelled ≡ false)
      × (k + length o.waits ≡ m))
    ⊎ (((r : Text) × (h.poll m ≡ finished r)
          × (o.ending ≡ result r)
          × (o.cancelled ≡ false)
          × (k + length o.waits ≡ m))
        ⊎ ((h.poll m ≡ in_flight)
            × (h.expired m ≡ true)
            × (o.ending ≡ context_done)
            × (o.cancelled ≡ true)
            × (k + length o.waits ≡ suc m)))

-- The waits keep to the schedule, and the first poll that is not quiet decides.
abbrev Scheduled : CommandHandle → ℕ → PollOutcome → Type 0
Scheduled h k o =
    (o.waits ≡ schedule k (length o.waits))
    × ((m : ℕ) × (k ≤ m) × ((j : ℕ) → k ≤ j → j < m → Quiet h j) × Verdict h k m o)

some_inj : {o o' : PollOutcome} → some o ≡ some o' → o ≡ o'
some_inj p = cc

Verdict-earlier :
    (h : CommandHandle) (k m interval : ℕ) (o : PollOutcome)
    → Verdict h (suc k) m o
    → Verdict h k m (record o { waits = interval ∷ o.waits })
Verdict-earlier h k m interval o (inl (p, e, c, n)) = inl (p, e, c, omega (arith, n))
Verdict-earlier h k m interval o (inr (inl (r, p, e, c, n))) =
    inr (inl (r, p, e, c, omega (arith, n)))
Verdict-earlier h k m interval o (inr (inr (p, x, e, c, n))) =
    inr (inr (p, x, e, c, omega (arith, n)))

none_between : (h : CommandHandle) (k j : ℕ) → k ≤ j → j < k → Quiet h j
none_between h k j le lt = absurd (omega (arith, le, lt))

here_or_later :
    (h : CommandHandle) (k m : ℕ)
    → Quiet h k
    → ((j : ℕ) → suc k ≤ j → j < m → Quiet h j)
    → (j : ℕ) → k ≤ j
    → j < m
    → Quiet h j
here_or_later h k m here later j le lt = elim (Bool-cases (k == j)) [
  | inl e ↦ subst (Quiet h) ((==_iff k j).0 e) here
  | inr e ↦ later j (ground (arith, e, le)) lt
]

reply_Scheduled :
    (h : CommandHandle) (k : ℕ) (reply : PollReply) (b : Bool) (interval : ℕ)
    (rest : Option PollOutcome) (o : PollOutcome)
    → h.poll k ≡ reply
    → h.expired k ≡ b
    → interval ≡ backoff k
    → ((o' : PollOutcome) → rest ≡ some o' → Scheduled h (suc k) o')
    → elim reply [
      | poll_failed ↦ ended poll_error
      | finished r ↦ ended (result r)
      | in_flight ↦ (if b then expired_in interval else after_wait interval rest)
    ]
      ≡ some o
    → Scheduled h k o
reply_Scheduled h k poll_failed b interval rest o at x e ih p =
    subst (Scheduled h k) (some_inj p)
      (refl, (k, omega arith, none_between h k, inl (at, refl, refl, omega arith)))
reply_Scheduled h k (finished r) b interval rest o at x e ih p =
    subst (Scheduled h k) (some_inj p)
      (refl, (k, omega arith, none_between h k, inr (inl (r, at, refl, refl, omega arith))))
reply_Scheduled h k in_flight true interval rest o at x e ih p =
    subst (Scheduled h k) (some_inj p) (
      ap (λ i. i ∷ []) e,
      (k, omega arith, none_between h k, inr (inr (at, x, refl, refl, omega arith))),
    )
reply_Scheduled h k in_flight false interval none o at x e ih p = absurd (cc)
reply_Scheduled h k in_flight false interval (some o') o at x e ih p =
    let (waits, (m, le, quiet, verdict)) = ih o' refl in
    subst (Scheduled h k) (some_inj p) (
      ap (λ i. i ∷ o'.waits) e ∙ ap (◌∷◌ (backoff k)) waits,
      (
        m,
        omega (arith, le),
        here_or_later h k m (at, x) quiet,
        Verdict-earlier h k m interval o' verdict,
      ),
    )

poll_loop-Scheduled :
    (h : CommandHandle) (fuel k interval : ℕ) (o : PollOutcome)
    → interval ≡ backoff k
    → poll_loop h fuel k interval ≡ some o
    → Scheduled h k o
unfolding poll_loop
poll_loop-Scheduled h zero k interval o e p = absurd (cc)
poll_loop-Scheduled h (suc fuel) k interval o e p =
    reply_Scheduled h k (h.poll k) (h.expired k) interval
      (poll_loop h fuel (suc k) (next_interval interval)) o refl refl e
      (λ o' q.
        poll_loop-Scheduled h fuel (suc k) (next_interval interval) o'
          (ap next_interval e ∙ next_interval-backoff k) q)
      p

-- The outcome of a command that could not be submitted, and of one that could
abbrev pub Decided : Option CommandHandle → PollOutcome → Type 0
Decided none o = (o.ending ≡ async_error) × (o.waits ≡ []) × (o.cancelled ≡ false)
Decided (some h) o =
    (o.waits ≡ schedule 0 (length o.waits))
    × ((m : ℕ) × ((j : ℕ) → j < m → Quiet h j) × Verdict h 0 m o)

run_command_with_options-Decided :
    (handle : Option CommandHandle) (timeout : Option ℤ) (o : PollOutcome)
    → run_command_with_options handle timeout ≡ some o
    → Decided handle o
unfolding run_command_with_options
run_command_with_options-Decided none timeout o p =
    subst (Decided none) (some_inj p) (refl, refl, refl)
run_command_with_options-Decided (some h) timeout o p =
    let (waits, (m, le, quiet, verdict)) =
      poll_loop-Scheduled h (command_timeout timeout / poll_backoff_initial + 2) 0
        poll_backoff_initial o refl p in
    (waits, (m, (λ j lt. quiet j (omega arith) lt), verdict))

-- The context is done once the waits have taken as long as the timeout.
abbrev pub Expires : CommandHandle → ℕ → Type 0
Expires h timeout = (k : ℕ) → timeout ≤ sum (schedule 0 (suc k)) → h.expired k ≡ true

next_interval-le : (i : ℕ) → poll_backoff_initial ≤ i → poll_backoff_initial ≤ next_interval i
unfolding next_interval
next_interval-le i h = ground arith

backoff-le : (k : ℕ) → poll_backoff_initial ≤ backoff k
backoff-le zero = omega arith
backoff-le (suc k) =
    subst (λ i. poll_backoff_initial ≤ i) (next_interval-backoff k)
      (next_interval-le (backoff k) (backoff-le k))

sum-schedule : (k n : ℕ) → poll_backoff_initial * n ≤ sum (schedule k n)
sum-schedule k zero = omega arith
sum-schedule k (suc n) = omega (arith, backoff-le k, sum-schedule (suc k) n)

poll_loop_total :
    (h : CommandHandle) (timeout : ℕ)
    → Expires h timeout
    → (fuel k interval : ℕ) → 0 < fuel
    → timeout ≤ poll_backoff_initial * (k + fuel)
    → (o : PollOutcome) × (poll_loop h fuel k interval ≡ some o)
unfolding poll_loop
poll_loop_total h timeout expires zero k interval pos t = absurd (omega arith)
poll_loop_total h timeout expires (suc fuel) k interval pos t =
    ends (h.poll k) (h.expired k) (λ going.
      let early = not_yet (h.expired k) going (expires k) in
      poll_loop_total h timeout expires fuel (suc k) (next_interval interval)
        (omega (arith, sum-schedule 0 (suc k), early)) (omega arith))
  where
    ends :
        (reply : PollReply) (b : Bool) {rest : Option PollOutcome}
        → (b ≡ false → (o : PollOutcome) × (rest ≡ some o))
        → (o : PollOutcome) × (elim reply [
          | poll_failed ↦ ended poll_error
          | finished r ↦ ended (result r)
          | in_flight ↦ (if b then expired_in interval else after_wait interval rest)
        ]
            ≡ some o)
    ends poll_failed b q = (record { ending = poll_error; waits = []; cancelled = false }, refl)
    ends (finished r) b q = (record { ending = result r; waits = []; cancelled = false }, refl)
    ends in_flight true q =
        (record { ending = context_done; waits = interval ∷ []; cancelled = true }, refl)
    ends in_flight false q =
        let (o, e) = q refl in (record o { waits = interval ∷ o.waits }, ap (after_wait interval) e)

    not_yet :
        (b : Bool)
        → b ≡ false
        → (timeout ≤ sum (schedule 0 (suc k)) → b ≡ true)
        → sum (schedule 0 (suc k)) < timeout
    not_yet b e f = elim (Bool-cases (ltb (sum (schedule 0 (suc k))) timeout)) [
      | inl lt ↦ ltb→lt (sum (schedule 0 (suc k))) timeout lt
      | inr ge ↦ absurd (cc (f (ground arith)))
    ]

run_command_with_options_total :
    (handle : Option CommandHandle) (timeout : Option ℤ)
    → ((h : CommandHandle) → handle ≡ some h → Expires h (command_timeout timeout))
    → (o : PollOutcome) × (run_command_with_options handle timeout ≡ some o)
unfolding run_command_with_options
run_command_with_options_total none timeout expires =
    (record { ending = async_error; waits = []; cancelled = false }, refl)
run_command_with_options_total (some h) timeout expires =
    poll_loop_total h (command_timeout timeout) (expires h refl)
      (command_timeout timeout / poll_backoff_initial + 2) 0 poll_backoff_initial (omega arith)
      (omega arith)

-- If the context ends once the waits have taken its timeout, the adapter returns, even when the command
-- never ends: the polls that the model allows are enough, since no wait is shorter than the first. The
-- waits begin at half a second, double each time and never exceed five seconds. A command that is not
-- submitted is an error without a poll. Otherwise all polls before the last find the command running
-- and are followed by a wait that the context does not end, and the last one decides: a failed poll is
-- an error and a finished command gives its result, neither with a cancellation; and if the command
-- is still running and the context ends the wait, the command is cancelled.
pub run_command_with_options_correct :
    (handle : Option CommandHandle) (timeout : Option ℤ)
    → ((h : CommandHandle) → handle ≡ some h → Expires h (command_timeout timeout))
    → (o : PollOutcome) × (run_command_with_options handle timeout ≡ some o) × Decided handle o
run_command_with_options_correct handle timeout expires =
    let (o, e) = run_command_with_options_total handle timeout expires in
    (o, e, run_command_with_options-Decided handle timeout o e)
