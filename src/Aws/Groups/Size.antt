-- ===== src/Aws/Groups/Size.antt =====
-- launch_group.go: the end of the wait for the size of a group, and what it has seen.
use etcd_infra.Common.{
  ℕ, zero, suc, ◌+◌, ◌/◌, ◌*◌, ◌≤◌, ◌<◌, ◌≡◌, refl, sym, ap, ◌∙◌, ◌⊎◌, inl, inr, Bool, true, false,
  List, [], ◌∷◌, Option, none, some, arith, Bool-cases, if◌then◌else◌, ltb, ◌==◌, ==_iff, length,
  keep, every, map, Text,
}
use etcd_infra.Aws.{AwsError, timed_out, interrupted, GroupMember, Cloud}
use etcd_infra.Aws.Groups.{
  in_service, ready_ids, look, group_members, size_loop, wait_for_group_size,
}
use etcd_infra.Aws.Groups.Waits.{Ticks, rounds_enough, not_after, more_rounds}

module _ {A : Type 0} (p : A → Bool) where
  length-keep-le : (xs : List A) → length (keep p xs) ≤ length xs
  length-keep-le [] = omega arith
  length-keep-le (x ∷ xs) = ground (arith, length-keep-le xs)

  -- A selection as long as the list is the list.
  keep-every :
      (xs : List A) → length (keep p xs) ≡ length xs → (keep p xs ≡ xs) × (every p xs ≡ true)
  keep-every [] h = (refl, refl)
  keep-every (x ∷ xs) h = elim (Bool-cases (p x)) [
    | inl e ↦
        let (same, passed) = keep-every xs (ground (arith, h, e)) in rw e (ap (◌∷◌ x) same, passed)
    | inr e ↦ absurd (ground (arith, h, e, length-keep-le xs))
  ]

-- The group has exactly so many members, all of them in service, and these are their IDs.
abbrev pub Ready : ℕ → List GroupMember → List Text → Type 0
Ready count members ids =
    (length members ≡ count) × (every in_service members ≡ true) × (ids ≡ map (λ m. m.id) members)

length-map : {A B : Type 0} (f : A → B) (xs : List A) → length (map f xs) ≡ length xs
length-map f [] = refl
length-map f (x ∷ xs) = ap suc (length-map f xs)

ready_ids-Ready :
    (count : ℕ) (members : List GroupMember) (ids : List Text)
    → ready_ids count members ≡ some ids
    → Ready count members ids
unfolding ready_ids
ready_ids-Ready count members ids h =
    let served = map (λ (m : GroupMember). m.id) (keep in_service members) in
    let (a, b, same) = both (length members == count) (length served == count) served h in
    let size = (==_iff (length members) count).0 a in
    let size' = (==_iff (length served) count).0 b in
    let (kept, passed) =
      keep-every in_service members (
        sym (length-map (λ (m : GroupMember). m.id) (keep in_service members))
        ∙ size'
        ∙ sym size) in
    (size, passed, sym same ∙ ap (map (λ (m : GroupMember). m.id)) kept)
  where
    both :
        (b b' : Bool) (l : List Text)
        → (if b then if b' then some l else none else none) ≡ some ids
        → (b ≡ true) × (b' ≡ true) × (l ≡ ids)
    both true true l q = (refl, refl, cc)
    both true false l q = absurd (cc)
    both false b' l q = absurd (cc)

look-inr :
    (count : ℕ) (r : AwsError ⊎ Option (List GroupMember)) (ids : List Text)
    → look count r ≡ some (inr ids)
    → (members : List GroupMember) × (r ≡ inr (some members)) × Ready count members ids
unfolding look
look-inr count (inl e) ids h = absurd (cc)
look-inr count (inr none) ids h = absurd (cc)
look-inr count (inr (some members)) ids h =
    (members, refl, ready_ids-Ready count members ids (shown (ready_ids count members) h))
  where
    shown :
        (o : Option (List Text))
        → ◌≡◌ {A = Option (AwsError ⊎ List Text)}
            (elim o [ none ↦ none | some l ↦ some (inr l) ])
            (some (inr ids))
        → o ≡ some ids
    shown none q = absurd (cc)
    shown (some l) q = cc

module _ {W : Type 0} (c : Cloud W) (name : Text) (count poll deadline : ℕ) where
  -- The state after a look and the sleep that follows it
  abbrev pub slept : W → W
  slept w = (c.sleep poll (group_members c name w).0).0

  -- From one state the loop comes to another by so many rounds, each with a look that decides nothing, no
  -- later than the deadline, and a sleep that the context does not end.
  abbrev pub WaitedTo : ℕ → W → W → Type 0
  WaitedTo zero w u = w ≡ u
  WaitedTo (suc k) w u =
      (look count (group_members c name w).1 ≡ none)
      × (c.now (group_members c name w).0 ≤ deadline)
      × ((c.sleep poll (group_members c name w).0).1 ≡ false)
      × WaitedTo k (slept w) u

  -- The IDs are those of the group that the last look of the loop has found.
  abbrev pub SeenReady : W → W → List Text → Type 0
  SeenReady w v ids =
      (k : ℕ) × (u : W) × (members : List GroupMember) × WaitedTo k w u
      × (group_members c name u ≡ (v, inr (some members)))
      × Ready count members ids

  abbrev Judged : W → Option (W × (AwsError ⊎ List Text)) → Type 0
  Judged w o =
      (v : W) × (r : AwsError ⊎ List Text) × (o ≡ some (v, r))
      × ((ids : List Text) → r ≡ inr ids → SeenReady w v ids)

  round-Judged :
      (w : W) (o : Option (AwsError ⊎ List Text)) (b b' : Bool)
      (rest : Option (W × (AwsError ⊎ List Text)))
      → look count (group_members c name w).1 ≡ o
      → (o ≡ none → b ≡ false → b' ≡ false → Judged w rest)
      → Judged w (elim o [
        | some end ↦ some ((group_members c name w).0, end)
        | none ↦
            (if b
              then some ((group_members c name w).0, inl timed_out)
              else if b'
              then some (slept w, inl interrupted)
              else rest)
      ])
  round-Judged w (some end) b b' rest seen go_on =
      let w' = (group_members c name w).0 in
      let r = (group_members c name w).1 in
      (
        w',
        end,
        refl,
        λ ids q.
            let (members, at, ready) = look-inr count r ids (seen ∙ ap some q) in
            (zero, w, members, refl, (λ i. (w', at i)), ready),
      )
  round-Judged w none true b' rest seen go_on =
      ((group_members c name w).0, inl timed_out, refl, λ ids q. absurd (cc))
  round-Judged w none false true rest seen go_on =
      (slept w, inl interrupted, refl, λ ids q. absurd (cc))
  round-Judged w none false false rest seen go_on = go_on refl refl refl

  size_loop-Judged :
      Ticks c name poll
      → (fuel : ℕ) (w : W) → 0 < fuel
      → deadline + poll < c.now w + poll * fuel
      → Judged w (size_loop c name count deadline poll fuel w)
  unfolding size_loop
  size_loop-Judged t zero w p h = absurd (omega arith)
  size_loop-Judged t (suc fuel) w p h =
      let w' = (group_members c name w).0 in
      let r = (group_members c name w).1 in
      round-Judged w (look count r) (ltb deadline (c.now w')) (c.sleep poll w').1
        (size_loop c name count deadline poll fuel (slept w)) refl
        (λ open_end early awake.
          let before = not_after c name deadline (c.now w') early in
          let more =
            more_rounds c name deadline poll (c.now w) fuel h
              (omega (arith, before, t.look_later w)) in
          let (v, o, e, seen) =
            size_loop-Judged t fuel (slept w) more.0
              (omega (arith, more.1, t.look_later w, t.sleep_later w')) in
          (
            v,
            o,
            e,
            λ ids q.
                let (k, u, members, waited, at, ready) = seen ids q in
                (suc k, u, members, (open_end, before, awake, waited), at, ready),
          ))

module _ {W : Type 0} (c : Cloud W) (name : Text) where
  -- Whatever the cloud answers, WaitForGroupSize returns, where calls do not turn the clock back, a sleep
  -- takes at least the interval between two looks, and this is positive. If it returns IDs, its last look
  -- found a group that has exactly as many members as asked for, every one of them in service, and the
  -- IDs are theirs, none left out; and every look before that one decided nothing, was no later than the
  -- deadline, and was followed by a sleep that the context did not end.
  pub wait_for_group_size_correct :
      (count timeout poll : ℕ) (w : W)
      → Ticks c name poll
      → (v : W) × (r : AwsError ⊎ List Text) × (wait_for_group_size c name count timeout poll w
          ≡ some (v, r))
        × ((ids : List Text)
            → r ≡ inr ids
            → SeenReady c name count poll (c.now w + timeout) w v ids)
  unfolding wait_for_group_size
  wait_for_group_size_correct count timeout poll w t =
      let enough = rounds_enough c name timeout poll t.positive in
      size_loop-Judged c name count poll (c.now w + timeout) t (timeout / poll + 2) w (omega arith)
        (omega (arith, enough))
