-- ===== src/Aws/Replacement/Trace.antt =====
-- manager_lifecycle.go: the calls that a standalone replacement makes.
use etcd_infra.Common.{
  ℕ, zero, suc, ◌≤◌, arith, ◌≡◌, refl, sym, ap, ◌∙◌, subst, Bool, true, false, List, [], ◌∷◌, ◌++◌,
  Option, none, some, ◌⊎◌, inl, inr, if◌then◌else◌, if_true, if_false, is_empty, length, All,
  All-append, Text,
}
use etcd_infra.Aws.Replacement.{
  Instance, DescribeReply, describe_failed, id_not_found, described, RunInput, find_last, spec_of,
  relaunch_input, data_volume, no_private_ip, ReplaceLaunchSpec, RunReply, run_failed, ip_in_use,
  launched, ReplaceError, client_nil, terminate_failed, relaunch_failed, ip_still_in_use,
  no_instances, not_running, attach_failed, not_terminated, volume_not_available, Call, terminated,
  ran, attached, Ec2, ReplaceState, launch_spec_for_replace, wait_for, look_running,
  look_terminated, look_available, R, then_do, terminate_old, wait_or, after_run, relaunch,
  terminate_new, attach_to, reattach, replace_with, with_spec, replace_standalone,
}

-- The instances that a call has launched
abbrev pub launches : Call → List Text
launches (terminated id good) = []
launches (ran input run_failed) = []
launches (ran input ip_in_use) = []
launches (ran input (launched ids)) = ids
launches (attached volume id good) = []

abbrev pub NoLaunch : List Call → Type 0
NoLaunch log = All (λ c. launches c ≡ []) log

-- The failed relaunches, after the calls before them
abbrev pub retried : ℕ → RunInput → List Call → List Call
retried zero input log = log
retried (suc k) input log = ran input ip_in_use ∷ retried k input log

retried-cons :
    (k : ℕ) (input : RunInput) (log : List Call)
    → retried k input (ran input ip_in_use ∷ log) ≡ retried (suc k) input log
retried-cons zero input log = refl
retried-cons (suc k) input log = ap (◌∷◌ (ran input ip_in_use)) (retried-cons k input log)

retried-NoLaunch :
    (k : ℕ) (input : RunInput) (log : List Call) → NoLaunch log → NoLaunch (retried k input log)
retried-NoLaunch zero input log h = h
retried-NoLaunch (suc k) input log h = (refl, retried-NoLaunch k input log h)

-- What the last reply makes of the relaunch
abbrev result_of : RunReply → ReplaceError ⊎ Text
result_of run_failed = inl relaunch_failed
result_of ip_in_use = inl ip_still_in_use
result_of (launched []) = inl no_instances
result_of (launched (id ∷ ids)) = inr id

-- A relaunch asks for one instance.
spec_of-one :
    (o : Option Instance) (spec : ReplaceLaunchSpec)
    → spec_of o ≡ inr spec
    → spec.input.max_count ≡ 1
unfolding spec_of relaunch_input
spec_of-one none spec h = absurd (cc)
spec_of-one (some i) spec h =
    one (is_empty i.private_ip)
      (record { input = relaunch_input i; data_volume_id = data_volume i.mappings [] }) refl h
  where
    one :
        (b : Bool) (made : ReplaceLaunchSpec)
        → made.input.max_count ≡ 1
        → (if b then inl no_private_ip else inr made) ≡ inr spec
        → spec.input.max_count ≡ 1
    one true made m q = absurd (cc)
    one false made m q =
        let same : made ≡ spec = cc in
        ap (λ (s : ReplaceLaunchSpec). s.input.max_count) (sym same) ∙ m

launch_spec_for_replace-one :
    (id : Text) (reply : DescribeReply) (spec : ReplaceLaunchSpec)
    → launch_spec_for_replace id reply ≡ inr spec
    → spec.input.max_count ≡ 1
unfolding launch_spec_for_replace
launch_spec_for_replace-one id describe_failed spec h = absurd (cc)
launch_spec_for_replace-one id id_not_found spec h = absurd (cc)
launch_spec_for_replace-one id (described is) spec h = spec_of-one (find_last id is) spec h

module _ {W : Type 0} (e : Ec2 W) where
  abbrev Relaunched : RunInput → List Call → R e Text → Type 0
  Relaunched input before r =
      (k : ℕ) × (reply : RunReply) × (r.0.log ≡ ran input reply ∷ retried k input before)
      × (r.1 ≡ result_of reply)
      × ((w : W) × ((e.run input w).1 ≡ reply))

  after_run-Relaunched :
      (input : RunInput) (before : List Call) (s : ReplaceState W) (rest : R e Text)
      (reply : RunReply)
      → s.log ≡ ran input reply ∷ before
      → ((w : W) × ((e.run input w).1 ≡ reply))
      → (reply ≡ ip_in_use → Relaunched input before rest)
      → Relaunched input before (after_run e s rest reply)
  after_run-Relaunched input before s rest run_failed l at again = (zero, run_failed, l, refl, at)
  after_run-Relaunched input before s rest ip_in_use l at again = again refl
  after_run-Relaunched input before s rest (launched []) l at again =
      (zero, launched [], l, refl, at)
  after_run-Relaunched input before s rest (launched (id ∷ ids)) l at again =
      (zero, launched (id ∷ ids), l, refl, at)

  relaunch-Relaunched :
      (ticks : ℕ) (input : RunInput) (s : ReplaceState W)
      → Relaunched input s.log (relaunch e ticks input s)
  unfolding relaunch
  relaunch-Relaunched zero input s =
      let (w, r) = e.run input s.world in
      let s' : ReplaceState W = record { world = w; log = ran input r ∷ s.log } in
      after_run-Relaunched input s.log s' (s', inl ip_still_in_use) r refl (s.world, refl)
        (λ q. (zero, ip_in_use, ap (λ reply. ran input reply ∷ s.log) q, refl, (s.world, q)))
  relaunch-Relaunched (suc ticks) input s =
      let (w, r) = e.run input s.world in
      let s' : ReplaceState W = record { world = w; log = ran input r ∷ s.log } in
      let s'' : ReplaceState W = record s' { world = e.tick w } in
      let ih = relaunch-Relaunched ticks input s'' in
      after_run-Relaunched input s.log s' (relaunch e ticks input s'') r refl (s.world, refl)
        (λ q.
          let (k, reply, log, result, at) = ih in
          (
            suc k,
            reply,
            log
                ∙ ap (λ l. ran input reply ∷ l)
                    (ap (λ x. retried k input (ran input x ∷ s.log)) q
                      ∙ retried-cons k input s.log),
            result,
            at,
          ))

  -- The end after a launch: with the volume attached if there is one, or with the new instance told to
  -- terminate.
  abbrev Ended : Text → Text → List Call → R e Text → Type 0
  Ended volume new before r =
      ((r.1 ≡ inr new)
        × (r.0.log ≡ (if is_empty volume then before else attached volume new true ∷ before)))
      ⊎ ((err : ReplaceError) × (good : Bool) × (mid : List Call) × (r.1 ≡ inl err)
          × (r.0.log ≡ terminated new good ∷ (mid ++ before))
          × NoLaunch mid)

  choice_Ended :
      (volume new : Text) (before : List Call) (b : Bool) (x y : R e Text)
      → (b ≡ true → Ended volume new before x)
      → (b ≡ false → Ended volume new before y)
      → Ended volume new before (if b then x else y)
  choice_Ended volume new before true x y f g = f refl
  choice_Ended volume new before false x y f g = g refl

  terminate_new-Ended :
      (volume new : Text) (err : ReplaceError) (mid before : List Call) (s : ReplaceState W)
      → s.log ≡ mid ++ before
      → NoLaunch mid
      → Ended volume new before (terminate_new e new err s)
  unfolding terminate_new
  terminate_new-Ended volume new err mid before s l h =
      let good = (e.terminate new s.world).1 in
      inr (err, good, mid, refl, ap (◌∷◌ (terminated new good)) l, h)

  attach_to-Ended :
      (volume new : Text) (s : ReplaceState W)
      → is_empty volume ≡ false
      → Ended volume new s.log (attach_to e volume new s)
  unfolding attach_to
  attach_to-Ended volume new s h =
      let (w, good) = e.attach volume new s.world in
      let s' : ReplaceState W = record { world = w; log = attached volume new good ∷ s.log } in
      choice_Ended volume new s.log good (s', inr new) (terminate_new e new attach_failed s')
        (λ q. inl (
          refl,
          ap (λ g. attached volume new g ∷ s.log) q
              ∙ sym (if_false (is_empty volume) s.log (attached volume new true ∷ s.log) h),
        ))
        (λ q.
          terminate_new-Ended volume new attach_failed (attached volume new good ∷ []) s.log s' refl
            (refl, tt))

  reattach-Ended :
      (volume new : Text) (s : ReplaceState W) → Ended volume new s.log (reattach e volume new s)
  unfolding reattach
  reattach-Ended volume new s =
      let (w, seen) = wait_for e (look_running e new) e.running_ticks s.world in
      let s' : ReplaceState W = record s { world = w } in
      let waited = if seen then attach_to e volume new s' else terminate_new e new not_running s' in
      choice_Ended volume new s.log (is_empty volume) (s, inr new) waited
        (λ q.
          inl (refl, sym (if_true (is_empty volume) s.log (attached volume new true ∷ s.log) q)))
        (λ q.
          choice_Ended volume new s.log seen (attach_to e volume new s')
            (terminate_new e new not_running s') (λ q'. attach_to-Ended volume new s' q)
            (λ q'. terminate_new-Ended volume new not_running [] s.log s' refl tt))

  -- A trace of the whole: without a launch, or with one that was ended as above.
  abbrev Traced : Text → W → R e Text → Type 0
  Traced id w r =
      ((err : ReplaceError) × (r.1 ≡ inl err) × NoLaunch r.0.log)
      ⊎ ((spec : ReplaceLaunchSpec) × (k : ℕ) × (new : Text) × (others : List Text)
          × (launch_spec_for_replace id (e.describe id w).1 ≡ inr spec)
          × ((u : W) × ((e.run spec.input u).1 ≡ launched (new ∷ others)))
          × Ended spec.data_volume_id new
              (ran spec.input (launched (new ∷ others))
                ∷ retried k spec.input (terminated id true ∷ []))
              r)

  then_do-Traced :
      {A : Type 0} (id : Text) (w : W) (m : R e A) (k : A → ReplaceState W → R e Text)
      → NoLaunch m.0.log
      → ((a : A) → m.1 ≡ inr a → Traced id w (k a m.0))
      → Traced id w (then_do e m k)
  then_do-Traced id w (s, inl err) k h f = inl (err, refl, h)
  then_do-Traced id w (s, inr a) k h f = f a refl

  reply_inr :
      (reply : RunReply) (new : Text)
      → inr new ≡ result_of reply
      → (others : List Text) × (reply ≡ launched (new ∷ others))
  reply_inr run_failed new h = absurd (cc)
  reply_inr ip_in_use new h = absurd (cc)
  reply_inr (launched []) new h = absurd (cc)
  reply_inr (launched (id ∷ ids)) new h =
      let same : new ≡ id = cc in (ids, ap (λ i. launched (i ∷ ids)) (sym same))

  reply_inl :
      (input : RunInput) (reply : RunReply) (err : ReplaceError)
      → inl err ≡ result_of reply
      → launches (ran input reply) ≡ []
  reply_inl input run_failed err h = refl
  reply_inl input ip_in_use err h = refl
  reply_inl input (launched []) err h = refl
  reply_inl input (launched (id ∷ ids)) err h = absurd (cc)

  Relaunched-Traced :
      (id : Text) (w : W) (spec : ReplaceLaunchSpec) (m : R e Text)
      → launch_spec_for_replace id (e.describe id w).1 ≡ inr spec
      → Relaunched spec.input (terminated id true ∷ []) m
      → Traced id w (then_do e m (λ new s. reattach e spec.data_volume_id new s))
  Relaunched-Traced id w spec (s, inl err) found (k, reply, log, result, at) = inl (
    err,
    refl,
    subst NoLaunch (sym log) (
      reply_inl spec.input reply err result,
      retried-NoLaunch k spec.input (terminated id true ∷ []) (refl, tt),
    ),
  )
  Relaunched-Traced id w spec (s, inr new) found (k, reply, log, result, (u, at)) =
      let (others, same) = reply_inr reply new result in
      inr (
        spec,
        k,
        new,
        others,
        found,
        (u, at ∙ same),
        subst (λ l. Ended spec.data_volume_id new l (reattach e spec.data_volume_id new s))
            (log ∙ ap (λ r. ran spec.input r ∷ retried k spec.input (terminated id true ∷ [])) same)
            (reattach-Ended spec.data_volume_id new s),
      )

  terminate_old-log :
      (id : Text) (s : ReplaceState W)
      → (good : Bool) × ((terminate_old e id s).0.log ≡ terminated id good ∷ s.log)
        × ((a : Unit {0}) → (terminate_old e id s).1 ≡ inr a → good ≡ true)
  unfolding terminate_old
  terminate_old-log id s =
      let good = (e.terminate id s.world).1 in (good, refl, λ a q. accepted good a q)
    where
      accepted :
          (b : Bool) (a : Unit {0})
          → ◌≡◌ {A = ReplaceError ⊎ Unit {0}} (if b then inr tt else inl terminate_failed) (inr a)
          → b ≡ true
      accepted true a q = refl
      accepted false a q = absurd (cc)

  wait_or-log :
      (look : W → W × Bool) (ticks : ℕ) (err : ReplaceError) (s : ReplaceState W)
      → (wait_or e look ticks err s).0.log ≡ s.log
  unfolding wait_or
  wait_or-log look ticks err s = refl

  volume_wait-log :
      (b : Bool) (s : ReplaceState W) (m : R e (Unit {0}))
      → m.0.log ≡ s.log
      → (if b then (s, inr tt) else m).0.log ≡ s.log
  volume_wait-log true s m h = refl
  volume_wait-log false s m h = h

  replace_with-Traced :
      (id : Text) (w : W) (spec : ReplaceLaunchSpec) (s : ReplaceState W)
      → launch_spec_for_replace id (e.describe id w).1 ≡ inr spec
      → s.log ≡ []
      → Traced id w (replace_with e id spec s)
  unfolding replace_with
  replace_with-Traced id w spec s found l =
      let volume = spec.data_volume_id in
      let gone = λ (s1 : ReplaceState W).
        wait_or e (look_terminated e id) e.terminate_ticks not_terminated s1 in
      let free : ReplaceState W → R e (Unit {0}) = λ s2.
        if is_empty volume
        then (s2, inr tt)
        else wait_or e (look_available e volume) e.volume_ticks volume_not_available s2 in
      let launch : Unit {0} → ReplaceState W → R e Text = λ u s3.
        then_do e (relaunch e e.relaunch_ticks spec.input s3)
          (λ new s4. reattach e volume new s4) in
      let third : Unit {0} → ReplaceState W → R e Text = λ u s2. then_do e (free s2) launch in
      let second : Unit {0} → ReplaceState W → R e Text = λ u s1. then_do e (gone s1) third in
      let first = terminate_old e id s in
      let (good, log, accepted) = terminate_old-log id s in
      let log' = log ∙ ap (◌∷◌ (terminated id good)) l in
      then_do-Traced id w first second (subst NoLaunch (sym log') (refl, tt)) (λ a q.
        let s1 = first.0 in
        let log1 : s1.log ≡ terminated id true ∷ [] =
          log' ∙ ap (λ g. terminated id g ∷ []) (accepted a q) in
        let s2 = (gone s1).0 in
        let log2 : s2.log ≡ terminated id true ∷ [] =
          wait_or-log (look_terminated e id) e.terminate_ticks not_terminated s1 ∙ log1 in
        then_do-Traced id w (gone s1) third (subst NoLaunch (sym log2) (refl, tt)) (λ a2 q2.
          let s3 = (free s2).0 in
          let log3 : s3.log ≡ terminated id true ∷ [] =
            volume_wait-log (is_empty volume) s2
              (wait_or e (look_available e volume) e.volume_ticks volume_not_available s2)
              (wait_or-log (look_available e volume) e.volume_ticks volume_not_available s2)
            ∙ log2 in
          then_do-Traced id w (free s2) launch (subst NoLaunch (sym log3) (refl, tt)) (λ a3 q3.
            Relaunched-Traced id w spec (relaunch e e.relaunch_ticks spec.input s3) found (
              subst
                (λ before. Relaunched spec.input before (relaunch e e.relaunch_ticks spec.input s3))
                log3 (relaunch-Relaunched e.relaunch_ticks spec.input s3)))))

  with_spec-Traced :
      (id : Text) (w : W) (s : ReplaceState W) (r : ReplaceError ⊎ ReplaceLaunchSpec)
      → launch_spec_for_replace id (e.describe id w).1 ≡ r
      → s.log ≡ []
      → Traced id w (with_spec e id s r)
  with_spec-Traced id w s (inl err) found l = inl (err, refl, subst NoLaunch (sym l) tt)
  with_spec-Traced id w s (inr spec) found l = replace_with-Traced id w spec s found l

  replace_standalone-Traced :
      (id : Text) (w : W) → Traced id w (replace_standalone e id (record { world = w; log = [] }))
  unfolding replace_standalone
  replace_standalone-Traced id w =
      let s : ReplaceState W = record { world = (e.describe id w).0; log = [] } in
      client e.has_client (with_spec e id s (launch_spec_for_replace id (e.describe id w).1))
        (with_spec-Traced id w s (launch_spec_for_replace id (e.describe id w).1) refl refl)
    where
      client :
          (b : Bool) (r : R e Text)
          → Traced id w r
          → Traced id w (if b then r else (record { world = w; log = [] }, inl client_nil))
      client true r t = t
      client false r t = inl (client_nil, refl, tt)

  -- RunInstances launches no more instances than it is asked for at most.
  abbrev pub KeepsToMaxCount : Type 0
  KeepsToMaxCount =
      (input : RunInput) (w : W) (ids : List Text)
      → (e.run input w).1 ≡ launched ids
      → length ids ≤ input.max_count

  -- No launch, or the last call asks EC2 to terminate the one instance that was launched
  abbrev pub CleanedUp : List Call → Type 0
  CleanedUp log =
      NoLaunch log
      ⊎ ((new : Text) × (good : Bool) × (rest : List Call) × (log ≡ terminated new good ∷ rest)
          × All (λ c. (launches c ≡ []) ⊎ (launches c ≡ new ∷ [])) rest)

  NoLaunch-among :
      (new : Text) (log : List Call)
      → NoLaunch log
      → All (λ c. (launches c ≡ []) ⊎ (launches c ≡ new ∷ [])) log
  NoLaunch-among new [] h = tt
  NoLaunch-among new (c ∷ log) h = (inl h.0, NoLaunch-among new log h.1)

  alone : (new : Text) (others : List Text) → length (new ∷ others) ≤ 1 → others ≡ []
  alone new [] h = refl
  alone new (id ∷ ids) h = absurd (omega arith)

  -- If EC2 launches no more instances than asked for, a standalone replacement that fails either has
  -- launched none, or its last call asks EC2 to terminate the instance that it launched, and no other
  -- was launched. Whether EC2 accepts that last call is not said: the code drops its error.
  pub replace_standalone-CleanedUp :
      (id : Text) (w : W) (err : ReplaceError)
      → KeepsToMaxCount
      → (replace_standalone e id (record { world = w; log = [] })).1 ≡ inl err
      → CleanedUp (replace_standalone e id (record { world = w; log = [] })).0.log
  replace_standalone-CleanedUp id w err most h = elim (replace_standalone-Traced id w) [
    | inl (err', q, idle) ↦ inl idle
    | inr (spec, k, new, others, found, (u, at), end) ↦ elim end [
      | inl (q, log) ↦ absurd (let p = sym h ∙ q in cc)
      | inr (err', good, mid, q, log, quiet) ↦
          let before = retried k spec.input (terminated id true ∷ []) in
          let single : others ≡ [] = alone new others (
            subst (λ n. length (new ∷ others) ≤ n)
              (launch_spec_for_replace-one id (e.describe id w).1 spec found)
              (most spec.input u (new ∷ others) at)) in
          inr (
            new,
            good,
            mid ++ (ran spec.input (launched (new ∷ others)) ∷ before),
            log,
            All-append (λ c. (launches c ≡ []) ⊎ (launches c ≡ new ∷ [])) mid
                (ran spec.input (launched (new ∷ others)) ∷ before) (NoLaunch-among new mid quiet)
                (
                  inr (ap (◌∷◌ new) single),
                  NoLaunch-among new before
                      (retried-NoLaunch k spec.input (terminated id true ∷ []) (refl, tt)),
                ),
          )
    ]
  ]

  -- If a standalone replacement gives a new instance, its calls were, in this order: the termination of
  -- the old one, with success; launches that failed because the address was still in use; the launch of
  -- the new one; and, if the old one had a data volume, its attachment to the new one, with success.
  -- Each launch asked for what was read of the old instance before.
  pub replace_standalone-Preserves :
      (id : Text) (w : W) (new : Text)
      → (replace_standalone e id (record { world = w; log = [] })).1 ≡ inr new
      → (spec : ReplaceLaunchSpec) × (k : ℕ) × (others : List Text) × (launch_spec_for_replace id
            (e.describe id w).1
          ≡ inr spec)
        × ((replace_standalone e id (record { world = w; log = [] })).0.log ≡ (
            let before =
              ran spec.input (launched (new ∷ others))
              ∷ retried k spec.input (terminated id true ∷ []) in
            if is_empty spec.data_volume_id
            then before
            else attached spec.data_volume_id new true ∷ before))
  replace_standalone-Preserves id w new h = elim (replace_standalone-Traced id w) [
    | inl (err, q, idle) ↦ absurd (let p = sym h ∙ q in cc)
    | inr (spec, k, new', others, found, at, end) ↦ elim end [
      | inl (q, log) ↦
          let p : inr new ≡ inr new' = sym h ∙ q in
          let same : new' ≡ new = cc in
          (
            spec,
            k,
            others,
            found,
            log
                ∙ ap
                    (λ n.
                      let before =
                        ran spec.input (launched (n ∷ others))
                        ∷ retried k spec.input (terminated id true ∷ []) in
                      if is_empty spec.data_volume_id
                      then before
                      else attached spec.data_volume_id n true ∷ before)
                    same,
          )
      | inr (err', good, mid, q, log, quiet) ↦ absurd (let p = sym h ∙ q in cc)
    ]
  ]
