-- ===== src/Stress/Maintenance/Compaction.antt =====
-- scenario_k8s_mixed_size_maintenance.go: the targets of the compactions and their order.
use mathlib.Core.List.{Memᴰ}
use etcd_infra.Common.{
  ℕ, ◌-◌, ◌≤◌, ◌<◌, ◌≡◌, refl, ◌⊎◌, inl, inr, Bool, true, false, ◌&&◌, List, [], ◌∷◌, ◌++◌, Option,
  arith, Bool-cases, if◌then◌else◌, ltb, leb, is_some, is_non_positive, All, Text,
}
use etcd_infra.Stress.Maintenance.{
  RevisionSample, target_from, compact_target, compaction, defrag, MaintenanceEvent, Tick, Loop,
  MaintenanceConfig, defrag_events, compaction_event, on_tick, run_ticks, run_k8s_maintenance,
  defrag_order, seconds,
}

target_from-bound :
    (cutoff : ℕ) (samples : List RevisionSample) (t : ℕ)
    → (t ≤ target_from cutoff samples t)
      × All (λ s. s.at ≤ cutoff → s.rev ≤ target_from cutoff samples t) samples
unfolding target_from
target_from-bound cutoff [] t = (omega arith, tt)
target_from-bound cutoff (s ∷ samples) t =
    let t' = if leb s.at cutoff && ltb t s.rev then s.rev else t in
    let (grows, below) = target_from-bound cutoff samples t' in
    let (a, b) = first cutoff s t in
    (omega (arith, grows, a), (λ h. omega (arith, grows, b h), below))
  where
    first :
        (cutoff : ℕ) (s : RevisionSample) (t : ℕ)
        → (t ≤ (if leb s.at cutoff && ltb t s.rev then s.rev else t))
          × (s.at ≤ cutoff → s.rev ≤ (if leb s.at cutoff && ltb t s.rev then s.rev else t))
    first cutoff s t = (ground arith, λ h. ground arith)

-- The target is one of the revisions that were acknowledged at or before the cutoff, or the one that
-- the loop began with.
abbrev Acknowledged : ℕ → ℕ → List RevisionSample → Type 0
Acknowledged cutoff rev samples =
    (s : RevisionSample) × Memᴰ s samples × (s.at ≤ cutoff) × (s.rev ≡ rev)

target_from-Acknowledged :
    (cutoff : ℕ) (samples : List RevisionSample) (t : ℕ)
    → (target_from cutoff samples t ≡ t)
      ⊎ Acknowledged cutoff (target_from cutoff samples t) samples
unfolding target_from
target_from-Acknowledged cutoff [] t = inl refl
target_from-Acknowledged cutoff (s ∷ samples) t =
    elim (Bool-cases (leb s.at cutoff && ltb t s.rev)) [
      | inl e ↦ rw e (taken (target_from-Acknowledged cutoff samples s.rev) (ground arith))
      | inr e ↦ rw e (passed (target_from-Acknowledged cutoff samples t))
    ]
  where
    taken :
        {r : ℕ}
        → (r ≡ s.rev) ⊎ Acknowledged cutoff r samples
        → s.at ≤ cutoff
        → (r ≡ t) ⊎ Acknowledged cutoff r (s ∷ samples)
    taken (inl p) h = inr (s, Memᴰ.head refl, h, omega arith)
    taken (inr (s', m, h', p)) h = inr (s', Memᴰ.tail m, h', p)

    passed :
        {r : ℕ}
        → (r ≡ t) ⊎ Acknowledged cutoff r samples
        → (r ≡ t) ⊎ Acknowledged cutoff r (s ∷ samples)
    passed (inl p) = inl p
    passed (inr (s', m, h', p)) = inr (s', Memᴰ.tail m, h', p)

-- The target is the greatest revision acknowledged at or before the cutoff: no sample up to the
-- cutoff lies above it, and it is the revision of such a sample, or 0.
pub compact_target_greatest :
    (samples : List RevisionSample) (cutoff : ℕ)
    → let target = compact_target samples cutoff in
      All (λ s. s.at ≤ cutoff → s.rev ≤ target) samples
      × ((target ≡ 0)
          ⊎ ((s : RevisionSample) × Memᴰ s samples × (s.at ≤ cutoff) × (s.rev ≡ target)))
unfolding compact_target
compact_target_greatest samples cutoff =
    ((target_from-bound cutoff samples 0).1, target_from-Acknowledged cutoff samples 0)

-- The compactions among the events, the failed ones included or not.
abbrev succeeded : MaintenanceEvent → Bool
succeeded e = elim e.kind [
  | compaction ↦ (if is_some e.error then false else true)
  | defrag ↦ false
]

-- Reading from the front: each successful compaction goes beyond the one before it, and each failed
-- one aims beyond it too; defragmentations carry no revision.
unfoldable pub climbs : ℕ → List MaintenanceEvent → Bool
climbs last [] = true
climbs last (e ∷ events) = elim e.kind [
  | compaction ↦ ltb last e.revision && climbs (if is_some e.error then last else e.revision) events
  | defrag ↦ climbs last events
]

-- The revision last compacted to, after the events.
unfoldable pub last_compacted : ℕ → List MaintenanceEvent → ℕ
last_compacted last [] = last
last_compacted last (e ∷ events) = last_compacted (if succeeded e then e.revision else last) events

climbs-append :
    (last : ℕ) (xs ys : List MaintenanceEvent)
    → climbs last (xs ++ ys) ≡ (climbs last xs && climbs (last_compacted last xs) ys)
unfolding climbs last_compacted
climbs-append last [] ys = refl
climbs-append last (x ∷ xs) ys =
    ground (arith, climbs-append last xs ys, climbs-append x.revision xs ys)

last_compacted-append :
    (last : ℕ) (xs ys : List MaintenanceEvent)
    → last_compacted last (xs ++ ys) ≡ last_compacted (last_compacted last xs) ys
unfolding last_compacted
last_compacted-append last [] ys = refl
last_compacted-append last (x ∷ xs) ys = last_compacted-append _ xs ys

defrag_events-climb :
    (answer : Text → Option Text) (eps : List Text) (last : ℕ)
    → (climbs last (defrag_events answer eps) ≡ true)
      × (last_compacted last (defrag_events answer eps) ≡ last)
unfolding climbs last_compacted defrag_events
defrag_events-climb answer [] last = (refl, refl)
defrag_events-climb answer (ep ∷ eps) last = defrag_events-climb answer eps last

record Climbing (l : Loop) : Type 0 where
  climbing : climbs 0 l.events ≡ true
  reached : last_compacted 0 l.events ≡ l.compacted

-- The events of one tick that compacts.
abbrev tick_events : Bool → Tick → ℕ → List MaintenanceEvent
tick_events after t rev =
    compaction_event rev t.compact_error
    ∷ (if after then defrag_events t.defrag_error (defrag_order t.ask t.endpoints) else [])

tick_events-climb :
    (after : Bool) (t : Tick) (rev last : ℕ)
    → last < rev
    → (climbs last (tick_events after t rev) ≡ true)
      × (last_compacted last (tick_events after t rev)
          ≡ (if is_some t.compact_error then last else rev))
unfolding climbs last_compacted
tick_events-climb after t rev last h =
    let eps = defrag_order t.ask t.endpoints in
    let next = if is_some t.compact_error then last else rev in
    ground (
      arith,
      defrag_events-climb t.defrag_error eps last,
      defrag_events-climb t.defrag_error eps rev,
    )

on_tick-Climbing :
    (after : Bool) (interval : ℕ) (t : Tick) (l : Loop)
    → Climbing l
    → Climbing (on_tick after interval t l)
unfolding on_tick
on_tick-Climbing after interval t l c =
    let rev = compact_target t.samples (t.now - interval) in
    elim (Bool-cases (leb rev l.compacted)) [
      | inl e ↦ rw e c
      | inr e ↦
          let (up, to) = tick_events-climb after t rev l.compacted (ground arith) in
          record {
            climbing =
                rw (e, climbs-append 0 l.events (tick_events after t rev), c.climbing, c.reached)
                  up;
            reached =
                rw (e, last_compacted-append 0 l.events (tick_events after t rev), c.reached) to;
          }
    ]

run_ticks-Climbing :
    (after : Bool) (interval : ℕ) (ts : List Tick) (l : Loop)
    → Climbing l
    → Climbing (run_ticks after interval ts l)
unfolding run_ticks
run_ticks-Climbing after interval [] l c = c
run_ticks-Climbing after interval (t ∷ ts) l c =
    run_ticks-Climbing after interval ts (on_tick after interval t l)
      (on_tick-Climbing after interval t l c)

abbrev start : Loop
start = record { compacted = 0; events = [] }

start-Climbing : Climbing start
unfolding climbs last_compacted
start-Climbing = record { climbing = refl; reached = refl }

-- Whatever etcd answers at the ticks, each compaction of the log aims beyond every earlier
-- compaction that succeeded.
pub run_k8s_maintenance-climbs :
    (cfg : MaintenanceConfig) (ticks : List Tick) → climbs 0 (run_k8s_maintenance cfg ticks) ≡ true
unfolding run_k8s_maintenance climbs
run_k8s_maintenance-climbs cfg ticks =
    elim (Bool-cases (is_non_positive cfg.compact_interval_seconds)) [
      | inl e ↦ rw e
      | inr e ↦
          rw e
            (run_ticks-Climbing cfg.defrag_after_compact (seconds cfg.compact_interval_seconds)
              ticks start start-Climbing).climbing
    ]
