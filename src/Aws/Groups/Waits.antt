-- ===== src/Aws/Groups/Waits.antt =====
-- launch_group.go: the end of the waits for the deletion of a group.
use etcd_infra.Common.{
  ℕ, zero, suc, ◌+◌, ◌/◌, ◌*◌, ◌≤◌, ◌<◌, ◌≡◌, refl, ap, ◌∙◌, ◌⊎◌, inl, inr, Bool, true, false, List,
  Option, none, some, arith, if◌then◌else◌, ltb, Text,
}
use etcd_infra.Aws.{AwsError, client_nil, timed_out, interrupted, GroupMember, Cloud}
use etcd_infra.Aws.Groups.{
  group_members, deleted, in_use, error_of, delete_loop, is_gone, gone_loop, then_gone,
  delete_auto_scaling_group,
}

module _ {W : Type 0} (c : Cloud W) (name : Text) where
  gone_cases :
      (r : AwsError ⊎ Option (List GroupMember)) (b b' : Bool) (w' w'' : W)
      (rest : Option (W × Option AwsError)) (v : W)
      → (if is_gone c r
          then some (w', none)
          else if b
          then some (w', some timed_out)
          else if b'
          then some (w'', some interrupted)
          else rest)
        ≡ some (v, none)
      → ((r ≡ inr none) × (w' ≡ v)) ⊎ (rest ≡ some (v, none))
  gone_cases (inr none) b b' w' w'' rest v h = inl (refl, cc)
  gone_cases (inl e) true b' w' w'' rest v h = absurd (cc)
  gone_cases (inl e) false true w' w'' rest v h = absurd (cc)
  gone_cases (inl e) false false w' w'' rest v h = inr h
  gone_cases (inr (some l)) true b' w' w'' rest v h = absurd (cc)
  gone_cases (inr (some l)) false true w' w'' rest v h = absurd (cc)
  gone_cases (inr (some l)) false false w' w'' rest v h = inr h

  -- The state in which it was seen that the group does not exist
  abbrev pub SeenGone : W → Type 0
  SeenGone v = (u : W) × (group_members c name u ≡ (v, inr none))

  gone_loop-SeenGone :
      (deadline poll fuel : ℕ) (w v : W)
      → gone_loop c name deadline poll fuel w ≡ some (v, none)
      → SeenGone v
  unfolding gone_loop
  gone_loop-SeenGone deadline poll zero w v h = absurd (cc)
  gone_loop-SeenGone deadline poll (suc fuel) w v h =
      let w' = (group_members c name w).0 in
      let r = (group_members c name w).1 in
      let w'' = (c.sleep poll w').0 in
      elim (gone_cases r (ltb deadline (c.now w')) (c.sleep poll w').1 w' w''
        (gone_loop c name deadline poll fuel w'') v h) [
          | inl (at, same) ↦ (w, λ i. (same i, at i))
          | inr rest ↦ gone_loop-SeenGone deadline poll fuel w'' v rest
        ]

  -- A deletion that succeeds has come to its second loop.
  reached :
      (deadline poll rounds : ℕ) (b : Bool) (w : W) (o : Option (W × Option AwsError)) (v : W)
      → (if b then then_gone c name deadline poll rounds o else some (w, some client_nil))
        ≡ some (v, none)
      → (u : W) × (gone_loop c name deadline poll rounds u ≡ some (v, none))
  reached deadline poll rounds false w o v h = absurd (cc)
  reached deadline poll rounds true w none v h = absurd (cc)
  reached deadline poll rounds true w (some (u, some e)) v h = absurd (cc)
  reached deadline poll rounds true w (some (u, none)) v h = (u, h)

  delete_auto_scaling_group-SeenGone :
      (timeout poll : ℕ) (w v : W)
      → delete_auto_scaling_group c name timeout poll w ≡ some (v, none)
      → SeenGone v
  unfolding delete_auto_scaling_group
  delete_auto_scaling_group-SeenGone timeout poll w v h =
      let deadline = c.now w + timeout in
      let rounds = timeout / poll + 2 in
      let (u, h') =
        reached deadline poll rounds c.has_groups w (delete_loop c name deadline poll rounds w) v
          h in
      gone_loop-SeenGone deadline poll rounds u v h'

  -- The clock of the cloud: calls do not turn it back, and a sleep takes as long as it is told.
  pub record Ticks (poll : ℕ) : Type 0 where
    pub positive : 0 < poll
    pub look_later : (w : W) → c.now w ≤ c.now (group_members c name w).0
    pub delete_later : (w : W) → c.now w ≤ c.now (c.delete_group name w).0
    pub sleep_later : (w : W) → c.now w + poll ≤ c.now (c.sleep poll w).0

  pub rounds_enough : (timeout poll : ℕ) → 0 < poll → timeout + poll < poll * (timeout / poll + 2)
  rounds_enough timeout poll h = grind arith

  pub not_after : (deadline now : ℕ) → ltb deadline now ≡ false → now ≤ deadline
  not_after deadline now h = ground arith

  -- Before the deadline there is a round left, and after a sleep there are enough again.
  pub more_rounds :
      (deadline poll now fuel : ℕ)
      → deadline + poll < now + poll * suc fuel
      → now ≤ deadline
      → (0 < fuel) × (deadline + poll < now + poll + poll * fuel)
  more_rounds deadline poll now zero h le = absurd (grind arith)
  more_rounds deadline poll now (suc fuel) h le = (omega arith, grind arith)

  gone_loop_total :
      (deadline poll : ℕ)
      → Ticks poll
      → (fuel : ℕ) (w : W) → 0 < fuel
      → deadline + poll < c.now w + poll * fuel
      → (r : W × Option AwsError) × (gone_loop c name deadline poll fuel w ≡ some r)
  unfolding gone_loop
  gone_loop_total deadline poll t zero w p h = absurd (omega arith)
  gone_loop_total deadline poll t (suc fuel) w p h =
      let w' = (group_members c name w).0 in
      let w'' = (c.sleep poll w').0 in
      ends (is_gone c (group_members c name w).1) (ltb deadline (c.now w')) (c.sleep poll w').1 w'
        w''
        (λ early.
          let before = not_after deadline (c.now w') early in
          let more =
            more_rounds deadline poll (c.now w) fuel h (omega (arith, before, t.look_later w)) in
          gone_loop_total deadline poll t fuel w'' more.0
            (omega (arith, more.1, t.look_later w, t.sleep_later w')))
    where
      ends :
          (b b' b'' : Bool) (w' w'' : W) {rest : Option (W × Option AwsError)}
          → (b' ≡ false → (r : W × Option AwsError) × (rest ≡ some r))
          → (r : W × Option AwsError) × ((if b
                then some (w', none)
                else if b'
                then some (w', some timed_out)
                else if b''
                then some (w'', some interrupted)
                else rest)
              ≡ some r)
      ends true b' b'' w' w'' f = ((w', none), refl)
      ends false true b'' w' w'' f = ((w', some timed_out), refl)
      ends false false true w' w'' f = ((w'', some interrupted), refl)
      ends false false false w' w'' f = f refl

  delete_loop_total :
      (deadline poll : ℕ)
      → Ticks poll
      → (fuel : ℕ) (w : W) → 0 < fuel
      → deadline + poll < c.now w + poll * fuel
      → (r : W × Option AwsError) × (delete_loop c name deadline poll fuel w ≡ some r)
        × (c.now w ≤ c.now r.0)
  unfolding delete_loop
  delete_loop_total deadline poll t zero w p h = absurd (omega arith)
  delete_loop_total deadline poll t (suc fuel) w p h =
      let w' = (c.delete_group name w).0 in
      let r = (c.delete_group name w).1 in
      let w'' = (c.sleep poll w').0 in
      ends (deleted c r) (in_use c r) (ltb deadline (c.now w')) (c.sleep poll w').1 w' w''
        (error_of c r) (t.delete_later w) (omega (arith, t.delete_later w, t.sleep_later w'))
        (λ early.
          let before = not_after deadline (c.now w') early in
          let more =
            more_rounds deadline poll (c.now w) fuel h (omega (arith, before, t.delete_later w)) in
          let (o, e, later) =
            delete_loop_total deadline poll t fuel w'' more.0
              (omega (arith, more.1, t.delete_later w, t.sleep_later w')) in
          (o, e, omega (arith, later, t.delete_later w, t.sleep_later w')))
    where
      ends :
          (b u b' b'' : Bool) (w' w'' : W) (err : AwsError) {rest : Option (W × Option AwsError)}
          → c.now w ≤ c.now w'
          → c.now w ≤ c.now w''
          → (b' ≡ false → (r : W × Option AwsError) × (rest ≡ some r) × (c.now w ≤ c.now r.0))
          → (r : W × Option AwsError) × ((if b
                then some (w', none)
                else if u
                then if b'
                  then some (w', some err)
                  else if b''
                  then some (w'', some interrupted)
                  else rest
                else some (w', some err))
              ≡ some r)
            × (c.now w ≤ c.now r.0)
      ends true u b' b'' w' w'' err l l' f = ((w', none), refl, l)
      ends false false b' b'' w' w'' err l l' f = ((w', some err), refl, l)
      ends false true true b'' w' w'' err l l' f = ((w', some err), refl, l)
      ends false true false true w' w'' err l l' f = ((w'', some interrupted), refl, l')
      ends false true false false w' w'' err l l' f = f refl

  delete_auto_scaling_group_total :
      (timeout poll : ℕ) (w : W)
      → Ticks poll
      → (r : W × Option AwsError) × (delete_auto_scaling_group c name timeout poll w ≡ some r)
  unfolding delete_auto_scaling_group
  delete_auto_scaling_group_total timeout poll w t =
      let deadline = c.now w + timeout in
      let rounds = timeout / poll + 2 in
      let enough = rounds_enough timeout poll t.positive in
      let ((u, o), e, later) =
        delete_loop_total deadline poll t rounds w (omega arith) (omega (arith, enough)) in
      let gone =
        gone_loop_total deadline poll t rounds u (omega arith) (omega (arith, enough, later)) in
      finish c.has_groups deadline rounds u o e gone
    where
      finish :
          (b : Bool) (deadline rounds : ℕ) (u : W) (o : Option AwsError)
          {d : Option (W × Option AwsError)}
          → d ≡ some (u, o)
          → ((r : W × Option AwsError) × (gone_loop c name deadline poll rounds u ≡ some r))
          → (r : W × Option AwsError) × ((if b
                then then_gone c name deadline poll rounds d
                else some (w, some client_nil))
              ≡ some r)
      finish false deadline rounds u o e g = ((w, some client_nil), refl)
      finish true deadline rounds u (some err) e g =
          ((u, some err), ap (then_gone c name deadline poll rounds) e)
      finish true deadline rounds u none e (r, g) =
          (r, ap (then_gone c name deadline poll rounds) e ∙ g)

  -- Whatever the cloud answers, DeleteAutoScalingGroup returns, where calls do not turn the clock back, a
  -- sleep takes at least the interval between two looks, and this is positive: the rounds that the model
  -- allows reach the deadline. If it returns with success, its last act was a look at the group which
  -- found none with that name: it does not merely accept that the deletion was begun.
  pub delete_auto_scaling_group_correct :
      (timeout poll : ℕ) (w : W)
      → Ticks poll
      → (v : W) × (o : Option AwsError) × (delete_auto_scaling_group c name timeout poll w
          ≡ some (v, o))
        × (o ≡ none → SeenGone v)
  delete_auto_scaling_group_correct timeout poll w t =
      let ((v, o), e) = delete_auto_scaling_group_total timeout poll w t in
      (
        v,
        o,
        e,
        λ q. delete_auto_scaling_group-SeenGone timeout poll w v (e ∙ ap (λ x. some (v, x)) q),
      )
