-- ===== src/Conformance/Registry/Ids.antt =====
-- scenario_ids.go: the constants of scenario IDs, and what the registry has for each.
use Prim.Native.String.{String}
use etcd_infra.Common.{
  ℕ, suc, ◌≡◌, refl, ap, Bool, true, false, ◌&&◌, List, [], ◌∷◌, Option, none, some, arith, ◌==◌,
  ==_iff, Text, codes, text_eq, length,
}
use etcd_infra.Conformance.Registry.{find_id}
use etcd_infra.Conformance.Registry.Names.{id_names}
use etcd_infra.Conformance.Registry.Tables.{id_string_to_id}
use etcd_infra.Conformance.Registry.Runners.{
  runner_by_name, runner_by_id, runner_by_name-runner_by_id,
}

-- The constants in the order of `iota`: the ID of each is its place in the list.
abbrev pub scenario_ids : List String
scenario_ids =
    "PutEmptyKeyShouldError" ∷ "PutLargeShouldError" ∷ "PutAndGetWithLatestRevision"
    ∷ "PutAndGetWithOldRevision" ∷ "PutAndGetWithPrefix" ∷ "PutAndGetWithFromKey"
    ∷ "PutAndGetWithNamespace" ∷ "PutAndGetWithSort" ∷ "PutAndGetWithOp" ∷ "PutAndDelete"
    ∷ "PutAndDeleteWithPrefix" ∷ "PutAndDeleteAndGetWithOldRevision" ∷ "PutLinearizability"
    ∷ "PutWithLeaseTimeToLive" ∷ "PutWithLeaseNotFound" ∷ "PutWithLeaseAndRevoke"
    ∷ "PutWithLeaseKeepalive" ∷ "PutWithLeaseKeepaliveOneSecond" ∷ "PutWithLeaseKeepaliveOnce"
    ∷ "PutWithLeaseKeepaliveFullResponseQueue" ∷ "PutWithIgnoreValue" ∷ "PutWithIgnoreLease"
    ∷ "LeaseTooLarge" ∷ "LeaseKeepaliveRevoke" ∷ "GetEmptyKey" ∷ "GetWithPrefix" ∷ "GetWithFromKey"
    ∷ "GetWithRange" ∷ "GetWithLimitAndCount" ∷ "GetWithRevisionFilters" ∷ "GetWithRequireLeader"
    ∷ "DeleteEmptyKey" ∷ "DeleteAllWithPrefix" ∷ "DeleteAllWithFromKey" ∷ "DeleteWithRange"
    ∷ "DeleteWithPrecondition" ∷ "Compact" ∷ "TxnPutOne" ∷ "TxnPutMultiple" ∷ "TxnKeyExists"
    ∷ "TxnKeyMissing" ∷ "TxnCompareRange" ∷ "TxnCompareModrevision" ∷ "TxnNested"
    ∷ "TxnErrorDuplicateKey" ∷ "TxnErrorTooManyOps" ∷ "WatchEmptyKey" ∷ "WatchAndPut"
    ∷ "WatchWithPrevKv" ∷ "WatchAndPutWithOldRevision" ∷ "WatchAndPutWithIgnoreValue"
    ∷ "WatchAndPutWithNamespace" ∷ "WatchWithCompactedRevision" ∷ "WatchEventType"
    ∷ "WatchWithPrefix" ∷ "WatchWithRange" ∷ "WatchWithMultipleWatchers" ∷ "WatchCancelInflight"
    ∷ "WatchCancelImmediate" ∷ "WatchCancelInit" ∷ "WatchCancelOverlappingContext"
    ∷ "WatchCancelClose" ∷ "WatchWithFilter" ∷ "WatchWithCreatedNotification"
    ∷ "WatchWithProgressNotify" ∷ "WatchWithRequestProgress" ∷ "WatchWithTooLargeResponse"
    ∷ "WatchWithFragmentedLargeResponse" ∷ "MirrorSyncBase" ∷ "MirrorSyncUpdates"
    ∷ "ConcurrencyMutexLock" ∷ "ConcurrencyMutexTrylock" ∷ "ConcurrencyMutexLockWithRevokedSession"
    ∷ "ConcurrencyMutexLockWithSessionRevoke" ∷ "ConcurrencyElectionCampaign"
    ∷ "ConcurrencyElectionResume" ∷ "ConcurrencyStmApply" ∷ "LeasingPutAndGet"
    ∷ "LeasingPutAndGetWithPrefix" ∷ "LeasingPutAndGetInvalidateNew"
    ∷ "LeasingPutAndGetInvalidateExisting" ∷ "LeasingPutAndGetWithPrevKv"
    ∷ "LeasingPutAndGetWithRev" ∷ "LeasingPutAndGetWithOpts" ∷ "LeasingPutConcurrent"
    ∷ "LeasingPutAndGetOverwriteResponse" ∷ "LeasingPutAndDeleteWithPrefix"
    ∷ "LeasingPutAndDeleteWithFromKey" ∷ "LeasingPutAndDeleteRangeWithContendingTxn"
    ∷ "LeasingPutAndDeleteRangeWithContendingDelete" ∷ "LeasingPutAndGetAndDeleteConcurrent"
    ∷ "LeasingDeleteOwner" ∷ "LeasingDeleteNonOwner" ∷ "LeasingTxnOwnerGet"
    ∷ "LeasingTxnOwnerGetWithPrefix" ∷ "LeasingTxnOwnerDelete" ∷ "LeasingTxnOwnerDeleteWithPrefix"
    ∷ "LeasingTxnNonOwnerPut" ∷ "LeasingTxnRandIfThenOrElse" ∷ "LeasingTxnAtomicCache"
    ∷ "LeasingTxnRangeCmp" ∷ "LeasingDo" ∷ "LeasingLeaseReuseWindow" ∷ "MaintenanceStatus"
    ∷ "MaintenanceSnapshot" ∷ "ClusterMemberList" ∷ "LeaseExpirationAutoDelete"
    ∷ "WatchResumeAfterDisconnect" ∷ "GetWithContinueToken" ∷ "TLSClientAuth"
    ∷ "ResourceSizeEstimation" ∷ "ErrorCompacted" ∷ "ErrorFutureRev" ∷ "TxnCompareCreaterevision"
    ∷ "TxnCompareVersion" ∷ "TxnCompareValue" ∷ "DeleteWithPrevKv" ∷ "WatchBookmarkDelivery"
    ∷ "HeaderRevisionMonotonic" ∷ "ModRevisionConsistency" ∷ "PutWithPrevKv" ∷ "LeaseList"
    ∷ "TxnCompareLease" ∷ "GetWithKeysOnly" ∷ "PutWithLeaseAttach" ∷ "WatchInitialEvents"
    ∷ "TxnMultiOpAtomicity" ∷ "CompactRevisionRetention" ∷ "WatchOrderingGuarantee"
    ∷ "LeaseGrantTTLBounds" ∷ "MaintenanceDefragment" ∷ "MaintenanceHashKv" ∷ []

unfoldable pub ids_from : ℕ → List String → List ℕ
ids_from i [] = []
ids_from i (name ∷ names) = i ∷ ids_from (suc i) names

-- ListAllIDs: the numbers of the names, in order, and the names
unfoldable pub list_all_ids : List ℕ × List String
unfolding ids_from
list_all_ids = (ids_from 0 id_names, id_names)

is_id : ℕ → Option ℕ → Bool
is_id id none = false
is_id id (some n) = n == id

every_named : List ℕ → List String → Bool
unfolding is_id
every_named [] [] = true
every_named [] (name ∷ names) = false
every_named (id ∷ ids) [] = false
every_named (id ∷ ids) (name ∷ names) =
    is_id id (find_id (codes name) id_string_to_id) && every_named ids names

all_named : every_named list_all_ids.0 list_all_ids.1 ≡ true
unfolding list_all_ids every_named is_id find_id text_eq
all_named = refl

is_id-some : (id : ℕ) (o : Option ℕ) → is_id id o ≡ true → o ≡ some id
unfolding is_id
is_id-some id none h = absurd (cc)
is_id-some id (some n) h = ap some ((==_iff n id).0 h)

-- What the registry has for an ID with its name.
abbrev pub Registered : ℕ → Text → Type 0
Registered id s =
    (find_id s id_string_to_id ≡ some id)
    × ((f : Text) × (runner_by_name s ≡ some f) × (runner_by_id id ≡ some f))

-- The two lists are as long as each other, and hold what is registered.
abbrev pub AllRegistered : List ℕ → List String → Type 0
AllRegistered [] [] = Unit
AllRegistered [] (name ∷ names) = ⊥
AllRegistered (id ∷ ids) [] = ⊥
AllRegistered (id ∷ ids) (name ∷ names) = Registered id (codes name) × AllRegistered ids names

every_named-Registered :
    (ids : List ℕ) (names : List String) → every_named ids names ≡ true → AllRegistered ids names
unfolding every_named
every_named-Registered [] [] h = tt
every_named-Registered [] (name ∷ names) h = absurd (cc)
every_named-Registered (id ∷ ids) [] h = absurd (cc)
every_named-Registered (id ∷ ids) (name ∷ names) h =
    let s = codes name in
    let e = is_id-some id (find_id s id_string_to_id) (ground (arith, h)) in
    ((e, runner_by_name-runner_by_id s id e), every_named-Registered ids names (ground (arith, h)))

-- ListAllIDs lists as many names as IDs, which is the number of the constants. Each name leads to the
-- ID beside it in the registry, and the two have a runner function there, the same by the name and by
-- the number.
pub list_all_ids-Registered :
    AllRegistered list_all_ids.0 list_all_ids.1 × (length list_all_ids.0 ≡ length scenario_ids)
unfolding list_all_ids
list_all_ids-Registered = (every_named-Registered (ids_from 0 id_names) id_names all_named, refl)
