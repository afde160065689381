-- ===== src/Stress/Registry.antt =====
-- scenario_registry.go and scenario_id_codec.go: the names of the stress scenarios.
use Prim.Native.String.{String}
use etcd_infra.Common.{
  ℕ, ◌≡◌, refl, Bool, true, false, List, [], ◌∷◌, if◌then◌else◌, Text, codes, text_eq,
}

-- StressIDStringToID, an ID by its number
abbrev pub stress_id_string_to_id : List (String × ℕ)
stress_id_string_to_id =
    ("CONCURRENT_PUTS", 0)
    ∷ ("BURST_WRITES", 1)
    ∷ ("SUSTAINED_LOAD", 2)
    ∷ ("RAMP_UP_LOAD", 3)
    ∷ ("MIXED_WORKLOAD", 4)
    ∷ ("LARGE_VALUES", 5)
    ∷ ("MANY_KEYS", 6)
    ∷ ("HIGH_CONTENTION", 7)
    ∷ ("SEQUENTIAL_WRITES", 8)
    ∷ ("RANDOM_READS", 9)
    ∷ ("WATCH_PROGRESS_NOTIFY", 10)
    ∷ ("LEASE_INTENSIVE_WORKLOAD", 11)
    ∷ ("LIST_PAGINATION_HEAVY", 12)
    ∷ ("OPTIMISTIC_CONCURRENCY_TXN", 13)
    ∷ ("WATCH_MANY_PREFIXES", 14)
    ∷ ("COMPACT_DURING_LOAD", 15)
    ∷ ("WATCH_WITH_CHURN", 16)
    ∷ ("NAMESPACE_ISOLATION_HEAVY", 17)
    ∷ ("TXN_MULTI_KEY_UPDATE", 18)
    ∷ ("LEADER_ELECTION_CONTENTION", 19)
    ∷ ("WATCH_BOOKMARK_HEAVY", 20)
    ∷ ("K8S_POD_LIFECYCLE_CHURN", 21)
    ∷ ("K8S_NODE_HEARTBEAT_LEASES", 22)
    ∷ ("K8S_MIXED_APISERVER", 23)
    ∷ ("K8S_CRD_HEAVY_CHURN", 24)
    ∷ ("K8S_JOB_STORM", 25)
    ∷ ("K8S_MIXED_SIZE_MAINTENANCE", 26)
    ∷ []

-- StressIDStringToRunnerFunc, a function by its name
abbrev pub stress_id_string_to_runner : List (String × String)
stress_id_string_to_runner =
    ("CONCURRENT_PUTS", "RunConcurrentPuts")
    ∷ ("BURST_WRITES", "RunBurstWrites")
    ∷ ("SUSTAINED_LOAD", "RunSustainedLoad")
    ∷ ("RAMP_UP_LOAD", "RunRampUpLoad")
    ∷ ("MIXED_WORKLOAD", "RunMixedWorkload")
    ∷ ("LARGE_VALUES", "RunLargeValues")
    ∷ ("MANY_KEYS", "RunManyKeys")
    ∷ ("HIGH_CONTENTION", "RunHighContention")
    ∷ ("SEQUENTIAL_WRITES", "RunSequentialWrites")
    ∷ ("RANDOM_READS", "RunRandomReads")
    ∷ ("WATCH_PROGRESS_NOTIFY", "RunWatchProgressNotify")
    ∷ ("LEASE_INTENSIVE_WORKLOAD", "RunLeaseIntensiveWorkload")
    ∷ ("LIST_PAGINATION_HEAVY", "RunListPaginationHeavy")
    ∷ ("OPTIMISTIC_CONCURRENCY_TXN", "RunOptimisticConcurrencyTxn")
    ∷ ("WATCH_MANY_PREFIXES", "RunWatchManyPrefixes")
    ∷ ("COMPACT_DURING_LOAD", "RunCompactDuringLoad")
    ∷ ("WATCH_WITH_CHURN", "RunWatchWithChurn")
    ∷ ("NAMESPACE_ISOLATION_HEAVY", "RunNamespaceIsolationHeavy")
    ∷ ("TXN_MULTI_KEY_UPDATE", "RunTxnMultiKeyUpdate")
    ∷ ("LEADER_ELECTION_CONTENTION", "RunLeaderElectionContention")
    ∷ ("WATCH_BOOKMARK_HEAVY", "RunWatchBookmarkHeavy")
    ∷ ("K8S_POD_LIFECYCLE_CHURN", "RunK8sPodLifecycleChurn")
    ∷ ("K8S_NODE_HEARTBEAT_LEASES", "RunK8sNodeHeartbeatLeases")
    ∷ ("K8S_MIXED_APISERVER", "RunK8sMixedApiserver")
    ∷ ("K8S_CRD_HEAVY_CHURN", "RunK8sCRDHeavyChurn")
    ∷ ("K8S_JOB_STORM", "RunK8sJobStorm")
    ∷ ("K8S_MIXED_SIZE_MAINTENANCE", "RunK8sMixedSizeMaintenance")
    ∷ []

-- StressIDToRunner
abbrev pub stress_id_to_runner : List (ℕ × String)
stress_id_to_runner =
    (0, "RunConcurrentPuts")
    ∷ (1, "RunBurstWrites")
    ∷ (2, "RunSustainedLoad")
    ∷ (3, "RunRampUpLoad")
    ∷ (4, "RunMixedWorkload")
    ∷ (5, "RunLargeValues")
    ∷ (6, "RunManyKeys")
    ∷ (7, "RunHighContention")
    ∷ (8, "RunSequentialWrites")
    ∷ (9, "RunRandomReads")
    ∷ (10, "RunWatchProgressNotify")
    ∷ (11, "RunLeaseIntensiveWorkload")
    ∷ (12, "RunListPaginationHeavy")
    ∷ (13, "RunOptimisticConcurrencyTxn")
    ∷ (14, "RunWatchManyPrefixes")
    ∷ (15, "RunCompactDuringLoad")
    ∷ (16, "RunWatchWithChurn")
    ∷ (17, "RunNamespaceIsolationHeavy")
    ∷ (18, "RunTxnMultiKeyUpdate")
    ∷ (19, "RunLeaderElectionContention")
    ∷ (20, "RunWatchBookmarkHeavy")
    ∷ []

abbrev pub first_names {ℓ} : {A : Type ℓ} → List (String × A) → List String
first_names [] = []
first_names ((name, a) ∷ table) = name ∷ first_names table

abbrev pub stress_id_names : List String
stress_id_names = first_names stress_id_string_to_id

abbrev pub runner_names : List String
runner_names = first_names stress_id_string_to_runner

any_name : Text → List String → Bool
any_name s [] = false
any_name s (name ∷ names) = if text_eq (codes name) s then true else any_name s names

-- ValidStressID
unfoldable pub valid_stress_id : Text → Bool
unfolding any_name
valid_stress_id s = any_name s stress_id_names

-- `_, ok := StressIDStringToRunnerFunc[scenario]`
unfoldable pub has_runner : Text → Bool
unfolding any_name
has_runner s = any_name s runner_names

pub valid_stress_id-has_runner : (s : Text) → valid_stress_id s ≡ has_runner s
unfolding valid_stress_id has_runner
valid_stress_id-has_runner s = refl
