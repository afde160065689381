-- ===== src/Stress/Maintenance.antt =====
-- scenario_k8s_mixed_size_maintenance.go: the apiserver-style maintenance loop, the order of the
-- defragmentation, the lease pool and the verdict. etcd's answers are inputs of each step. Start
-- times and durations of the logged events are left out.
pub mod Compaction
pub mod Order
pub mod Leases
pub mod Judge
use etcd_infra.Common.{
  ℕ, zero, suc, ◌+◌, ◌*◌, ◌-◌, Bool, true, false, not, ◌&&◌, List, [], ◌∷◌, ◌++◌, Option, none,
  some, if◌then◌else◌, ltb, leb, ◌==◌, is_empty, is_some, keep, ℤ, pos, is_non_positive, Text,
  codes, text_eq,
}

-- revisionSample; times are nanoseconds since the start, revisions are positive
pub record RevisionSample : Type 0 where
  pub at : ℕ
  pub rev : ℕ

-- The loop of compactTarget, from the target so far.
unfoldable pub target_from : ℕ → List RevisionSample → ℕ → ℕ
target_from cutoff [] target = target
target_from cutoff (s ∷ samples) target =
    target_from cutoff samples (if leb s.at cutoff && ltb target s.rev then s.rev else target)

unfoldable pub compact_target : List RevisionSample → ℕ → ℕ
unfolding target_from
compact_target samples cutoff = target_from cutoff samples 0

-- What `Status` says of an endpoint: an error, or the member's ID and the leader's.
pub data Status : Type 0 where
  unreachable : Status
  status : ℕ → ℕ → Status

abbrev leads : Status → Bool
leads unreachable = false
leads (status member leader) = member == leader

-- The first endpoint whose member is the leader.
unfoldable pub find_leader : (Text → Status) → List Text → Option Text
find_leader ask [] = none
find_leader ask (ep ∷ eps) = if leads (ask ep) then some ep else find_leader ask eps

-- defragOrder; `ask` is the answer of each endpoint
unfoldable pub defrag_order : (Text → Status) → List Text → List Text
unfolding find_leader
defrag_order ask endpoints = elim (find_leader ask endpoints) [
  | none ↦ endpoints
  | some leader ↦
      if is_empty leader
      then endpoints
      else keep (λ e. not (text_eq e leader)) endpoints ++ leader ∷ []
]

pub data Kind : Type 0 where
  compaction defrag : Kind

-- MaintenanceEvent, with the error of the operation: the field Error is its message.
pub record MaintenanceEvent : Type 0 where
  pub kind : Kind
  pub member : Text
  pub revision : ℕ
  pub error : Option Text

-- What the loop meets at one tick: the samples acknowledged so far, the time, the answer to the
-- compaction, the endpoints with their status, and the answer to each defragmentation.
pub record Tick : Type 0 where
  pub samples : List RevisionSample
  pub now : ℕ
  pub compact_error : Option Text
  pub endpoints : List Text
  pub ask : Text → Status
  pub defrag_error : Text → Option Text

-- The parts of StressConfig that the loop reads.
pub record MaintenanceConfig : Type 0 where
  pub compact_interval_seconds : ℤ
  pub defrag_after_compact : Bool

-- The variables of the loop: the revision last compacted to, and the events.
pub record Loop : Type 0 where
  pub compacted : ℕ
  pub events : List MaintenanceEvent

-- The field Error of an event, empty where there is no error
abbrev pub message : Option Text → Text
message none = []
message (some e) = e

defrag_events : (Text → Option Text) → List Text → List MaintenanceEvent
defrag_events answer [] = []
defrag_events answer (ep ∷ eps) =
    record { kind = defrag; member = ep; revision = 0; error = answer ep }
    ∷ defrag_events answer eps

abbrev compaction_event : ℕ → Option Text → MaintenanceEvent
compaction_event rev e = record { kind = compaction; member = []; revision = rev; error = e }

-- The body of the loop at a tick; `interval` is in nanoseconds.
unfoldable pub on_tick : Bool → ℕ → Tick → Loop → Loop
unfolding defrag_events
on_tick defrag_after interval t l =
    let rev = compact_target t.samples (t.now - interval) in
    if leb rev l.compacted then l else record {
      compacted = if is_some t.compact_error then l.compacted else rev;
      events =
          l.events
          ++ compaction_event rev t.compact_error
            ∷ (if defrag_after
                then defrag_events t.defrag_error (defrag_order t.ask t.endpoints)
                else []);
    }

unfoldable pub run_ticks : Bool → ℕ → List Tick → Loop → Loop
run_ticks defrag_after interval [] l = l
run_ticks defrag_after interval (t ∷ ts) l =
    run_ticks defrag_after interval ts (on_tick defrag_after interval t l)

abbrev seconds : ℤ → ℕ
seconds (pos n) = n * 1_000_000_000
seconds (ℤ.negsuc n) = 0

-- runK8sMaintenance: the events of the ticks that come before the context ends
unfoldable pub run_k8s_maintenance : MaintenanceConfig → List Tick → List MaintenanceEvent
unfolding run_ticks
run_k8s_maintenance cfg ticks =
    if is_non_positive cfg.compact_interval_seconds
    then []
    else (run_ticks cfg.defrag_after_compact (seconds cfg.compact_interval_seconds) ticks
        (record { compacted = 0; events = [] })).events
