-- ===== src/Conformance/Registry/Tables.antt =====
-- scenario_registry.go: the string maps, in the order of the source. An ID is its number in the
-- constants of scenario_ids.go, and a runner function is its name.
use Prim.Native.String.{String}
use etcd_infra.Common.{ℕ, List, [], ◌∷◌}

-- IDStringToID
abbrev pub id_string_to_id : List (String × ℕ)
id_string_to_id =
    ("PUT_EMPTY_KEY_SHOULD_ERROR", 0)
    ∷ ("PUT_LARGE_SHOULD_ERROR", 1)
    ∷ ("PUT_AND_GET_WITH_LATEST_REVISION", 2)
    ∷ ("PUT_AND_GET_WITH_OLD_REVISION", 3)
    ∷ ("PUT_AND_GET_WITH_PREFIX", 4)
    ∷ ("PUT_AND_GET_WITH_FROM_KEY", 5)
    ∷ ("PUT_AND_GET_WITH_NAMESPACE", 6)
    ∷ ("PUT_AND_GET_WITH_SORT", 7)
    ∷ ("PUT_AND_GET_WITH_OP", 8)
    ∷ ("PUT_AND_DELETE", 9)
    ∷ ("PUT_AND_DELETE_WITH_PREFIX", 10)
    ∷ ("PUT_AND_DELETE_AND_GET_WITH_OLD_REVISION", 11)
    ∷ ("PUT_LINEARIZABILITY", 12)
    ∷ ("PUT_WITH_LEASE_TIME_TO_LIVE", 13)
    ∷ ("PUT_WITH_LEASE_NOT_FOUND", 14)
    ∷ ("PUT_WITH_LEASE_AND_REVOKE", 15)
    ∷ ("PUT_WITH_LEASE_KEEPALIVE", 16)
    ∷ ("PUT_WITH_LEASE_KEEPALIVE_ONE_SECOND", 17)
    ∷ ("PUT_WITH_LEASE_KEEPALIVE_ONCE", 18)
    ∷ ("PUT_WITH_LEASE_KEEPALIVE_FULL_RESPONSE_QUEUE", 19)
    ∷ ("PUT_WITH_IGNORE_VALUE", 20)
    ∷ ("PUT_WITH_IGNORE_LEASE", 21)
    ∷ ("LEASE_TOO_LARGE", 22)
    ∷ ("LEASE_KEEPALIVE_REVOKE", 23)
    ∷ ("GET_EMPTY_KEY", 24)
    ∷ ("GET_WITH_PREFIX", 25)
    ∷ ("GET_WITH_FROM_KEY", 26)
    ∷ ("GET_WITH_RANGE", 27)
    ∷ ("GET_WITH_LIMIT_AND_COUNT", 28)
    ∷ ("GET_WITH_REVISION_FILTERS", 29)
    ∷ ("GET_WITH_REQUIRE_LEADER", 30)
    ∷ ("DELETE_EMPTY_KEY", 31)
    ∷ ("DELETE_ALL_WITH_PREFIX", 32)
    ∷ ("DELETE_ALL_WITH_FROM_KEY", 33)
    ∷ ("DELETE_WITH_RANGE", 34)
    ∷ ("DELETE_WITH_PRECONDITION", 35)
    ∷ ("COMPACT", 36)
    ∷ ("TXN_PUT_ONE", 37)
    ∷ ("TXN_PUT_MULTIPLE", 38)
    ∷ ("TXN_KEY_EXISTS", 39)
    ∷ ("TXN_KEY_MISSING", 40)
    ∷ ("TXN_COMPARE_RANGE", 41)
    ∷ ("TXN_COMPARE_MODREVISION", 42)
    ∷ ("TXN_NESTED", 43)
    ∷ ("TXN_ERROR_DUPLICATE_KEY", 44)
    ∷ ("TXN_ERROR_TOO_MANY_OPS", 45)
    ∷ ("WATCH_EMPTY_KEY", 46)
    ∷ ("WATCH_AND_PUT", 47)
    ∷ ("WATCH_WITH_PREV_KV", 48)
    ∷ ("WATCH_AND_PUT_WITH_OLD_REVISION", 49)
    ∷ ("WATCH_AND_PUT_WITH_IGNORE_VALUE", 50)
    ∷ ("WATCH_AND_PUT_WITH_NAMESPACE", 51)
    ∷ ("WATCH_WITH_COMPACTED_REVISION", 52)
    ∷ ("WATCH_EVENT_TYPE", 53)
    ∷ ("WATCH_WITH_PREFIX", 54)
    ∷ ("WATCH_WITH_RANGE", 55)
    ∷ ("WATCH_WITH_MULTIPLE_WATCHERS", 56)
    ∷ ("WATCH_CANCEL_INFLIGHT", 57)
    ∷ ("WATCH_CANCEL_IMMEDIATE", 58)
    ∷ ("WATCH_CANCEL_INIT", 59)
    ∷ ("WATCH_CANCEL_OVERLAPPING_CONTEXT", 60)
    ∷ ("WATCH_CANCEL_CLOSE", 61)
    ∷ ("WATCH_WITH_FILTER", 62)
    ∷ ("WATCH_WITH_CREATED_NOTIFICATION", 63)
    ∷ ("WATCH_WITH_PROGRESS_NOTIFY", 64)
    ∷ ("WATCH_WITH_REQUEST_PROGRESS", 65)
    ∷ ("WATCH_WITH_TOO_LARGE_RESPONSE", 66)
    ∷ ("WATCH_WITH_FRAGMENTED_LARGE_RESPONSE", 67)
    ∷ ("MIRROR_SYNC_BASE", 68)
    ∷ ("MIRROR_SYNC_UPDATES", 69)
    ∷ ("CONCURRENCY_MUTEX_LOCK", 70)
    ∷ ("CONCURRENCY_MUTEX_TRYLOCK", 71)
    ∷ ("CONCURRENCY_MUTEX_LOCK_WITH_REVOKED_SESSION", 72)
    ∷ ("CONCURRENCY_MUTEX_LOCK_WITH_SESSION_REVOKE", 73)
    ∷ ("CONCURRENCY_ELECTION_CAMPAIGN", 74)
    ∷ ("CONCURRENCY_ELECTION_RESUME", 75)
    ∷ ("CONCURRENCY_STM_APPLY", 76)
    ∷ ("LEASING_PUT_AND_GET", 77)
    ∷ ("LEASING_PUT_AND_GET_WITH_PREFIX", 78)
    ∷ ("LEASING_PUT_AND_GET_INVALIDATE_NEW", 79)
    ∷ ("LEASING_PUT_AND_GET_INVALIDATE_EXISTING", 80)
    ∷ ("LEASING_PUT_AND_GET_WITH_PREV_KV", 81)
    ∷ ("LEASING_PUT_AND_GET_WITH_REV", 82)
    ∷ ("LEASING_PUT_AND_GET_WITH_OPTS", 83)
    ∷ ("LEASING_PUT_CONCURRENT", 84)
    ∷ ("LEASING_PUT_AND_GET_OVERWRITE_RESPONSE", 85)
    ∷ ("LEASING_PUT_AND_DELETE_WITH_PREFIX", 86)
    ∷ ("LEASING_PUT_AND_DELETE_WITH_FROM_KEY", 87)
    ∷ ("LEASING_PUT_AND_DELETE_RANGE_WITH_CONTENDING_TXN", 88)
    ∷ ("LEASING_PUT_AND_DELETE_RANGE_WITH_CONTENDING_DELETE", 89)
    ∷ ("LEASING_PUT_AND_GET_AND_DELETE_CONCURRENT", 90)
    ∷ ("LEASING_DELETE_OWNER", 91)
    ∷ ("LEASING_DELETE_NON_OWNER", 92)
    ∷ ("LEASING_TXN_OWNER_GET", 93)
    ∷ ("LEASING_TXN_OWNER_GET_WITH_PREFIX", 94)
    ∷ ("LEASING_TXN_OWNER_DELETE", 95)
    ∷ ("LEASING_TXN_OWNER_DELETE_WITH_PREFIX", 96)
    ∷ ("LEASING_TXN_NON_OWNER_PUT", 97)
    ∷ ("LEASING_TXN_RAND_IF_THEN_OR_ELSE", 98)
    ∷ ("LEASING_TXN_ATOMIC_CACHE", 99)
    ∷ ("LEASING_TXN_RANGE_CMP", 100)
    ∷ ("LEASING_DO", 101)
    ∷ ("LEASING_LEASE_REUSE_WINDOW", 102)
    ∷ ("MAINTENANCE_STATUS", 103)
    ∷ ("MAINTENANCE_SNAPSHOT", 104)
    ∷ ("CLUSTER_MEMBER_LIST", 105)
    ∷ ("LEASE_EXPIRATION_AUTO_DELETE", 106)
    ∷ ("WATCH_RESUME_AFTER_DISCONNECT", 107)
    ∷ ("GET_WITH_CONTINUE_TOKEN", 108)
    ∷ ("TLS_CLIENT_AUTH", 109)
    ∷ ("RESOURCE_SIZE_ESTIMATION", 110)
    ∷ ("ERROR_COMPACTED", 111)
    ∷ ("ERROR_FUTURE_REV", 112)
    ∷ ("TXN_COMPARE_CREATEREVISION", 113)
    ∷ ("TXN_COMPARE_VERSION", 114)
    ∷ ("TXN_COMPARE_VALUE", 115)
    ∷ ("DELETE_WITH_PREV_KV", 116)
    ∷ ("WATCH_BOOKMARK_DELIVERY", 117)
    ∷ ("HEADER_REVISION_MONOTONIC", 118)
    ∷ ("MOD_REVISION_CONSISTENCY", 119)
    ∷ ("PUT_WITH_PREV_KV", 120)
    ∷ ("LEASE_LIST", 121)
    ∷ ("TXN_COMPARE_LEASE", 122)
    ∷ ("GET_WITH_KEYS_ONLY", 123)
    ∷ ("PUT_WITH_LEASE_ATTACH", 124)
    ∷ ("WATCH_INITIAL_EVENTS", 125)
    ∷ ("TXN_MULTI_OP_ATOMICITY", 126)
    ∷ ("COMPACT_REVISION_RETENTION", 127)
    ∷ ("WATCH_ORDERING_GUARANTEE", 128)
    ∷ ("LEASE_GRANT_TTL_BOUNDS", 129)
    ∷ ("MAINTENANCE_DEFRAGMENT", 130)
    ∷ ("MAINTENANCE_HASH_KV", 131)
    ∷ []

-- IDStringToRunnerFunc
abbrev pub id_string_to_runner : List (String × String)
id_string_to_runner =
    ("PUT_EMPTY_KEY_SHOULD_ERROR", "RunPutEmptyKeyShouldError")
    ∷ ("PUT_LARGE_SHOULD_ERROR", "RunPutLargeShouldError")
    ∷ ("PUT_AND_GET_WITH_LATEST_REVISION", "RunPutAndGetWithLatestRevision")
    ∷ ("PUT_AND_GET_WITH_OLD_REVISION", "RunPutAndGetWithOldRevision")
    ∷ ("PUT_AND_GET_WITH_PREFIX", "RunPutAndGetWithPrefix")
    ∷ ("PUT_AND_GET_WITH_FROM_KEY", "RunPutAndGetWithFromKey")
    ∷ ("PUT_AND_GET_WITH_NAMESPACE", "RunPutAndGetWithNamespace")
    ∷ ("PUT_AND_GET_WITH_SORT", "RunPutAndGetWithSort")
    ∷ ("PUT_AND_GET_WITH_OP", "RunPutAndGetWithOp")
    ∷ ("PUT_AND_DELETE", "RunPutAndDelete")
    ∷ ("PUT_AND_DELETE_WITH_PREFIX", "RunPutAndDeleteWithPrefix")
    ∷ ("PUT_AND_DELETE_AND_GET_WITH_OLD_REVISION", "RunPutAndDeleteAndGetWithOldRevision")
    ∷ ("PUT_LINEARIZABILITY", "RunPutLinearizability")
    ∷ ("PUT_WITH_LEASE_TIME_TO_LIVE", "RunPutWithLeaseTimeToLive")
    ∷ ("PUT_WITH_LEASE_NOT_FOUND", "RunPutWithLeaseNotFound")
    ∷ ("PUT_WITH_LEASE_AND_REVOKE", "RunPutWithLeaseAndRevoke")
    ∷ ("PUT_WITH_LEASE_KEEPALIVE", "RunPutWithLeaseKeepalive")
    ∷ ("PUT_WITH_LEASE_KEEPALIVE_ONE_SECOND", "RunPutWithLeaseKeepaliveOneSecond")
    ∷ ("PUT_WITH_LEASE_KEEPALIVE_ONCE", "RunPutWithLeaseKeepaliveOnce")
    ∷ ("PUT_WITH_LEASE_KEEPALIVE_FULL_RESPONSE_QUEUE", "RunPutWithLeaseKeepaliveFullResponseQueue")
    ∷ ("PUT_WITH_IGNORE_VALUE", "RunPutWithIgnoreValue")
    ∷ ("PUT_WITH_IGNORE_LEASE", "RunPutWithIgnoreLease")
    ∷ ("LEASE_TOO_LARGE", "RunLeaseTooLarge")
    ∷ ("LEASE_KEEPALIVE_REVOKE", "RunLeaseKeepaliveRevoke")
    ∷ ("GET_EMPTY_KEY", "RunGetEmptyKey")
    ∷ ("GET_WITH_PREFIX", "RunGetWithPrefix")
    ∷ ("GET_WITH_FROM_KEY", "RunGetWithFromKey")
    ∷ ("GET_WITH_RANGE", "RunGetWithRange")
    ∷ ("GET_WITH_LIMIT_AND_COUNT", "RunGetWithLimitAndCount")
    ∷ ("GET_WITH_REVISION_FILTERS", "RunGetWithRevisionFilters")
    ∷ ("GET_WITH_REQUIRE_LEADER", "RunGetWithRequireLeader")
    ∷ ("DELETE_EMPTY_KEY", "RunDeleteEmptyKey")
    ∷ ("DELETE_ALL_WITH_PREFIX", "RunDeleteAllWithPrefix")
    ∷ ("DELETE_ALL_WITH_FROM_KEY", "RunDeleteAllWithFromKey")
    ∷ ("DELETE_WITH_RANGE", "RunDeleteWithRange")
    ∷ ("DELETE_WITH_PRECONDITION", "RunDeleteWithPrecondition")
    ∷ ("COMPACT", "RunCompact")
    ∷ ("TXN_PUT_ONE", "RunTxnPutOne")
    ∷ ("TXN_PUT_MULTIPLE", "RunTxnPutMultiple")
    ∷ ("TXN_KEY_EXISTS", "RunTxnKeyExists")
    ∷ ("TXN_KEY_MISSING", "RunTxnKeyMissing")
    ∷ ("TXN_COMPARE_RANGE", "RunTxnCompareRange")
    ∷ ("TXN_COMPARE_MODREVISION", "RunTxnCompareModrevision")
    ∷ ("TXN_NESTED", "RunTxnNested")
    ∷ ("TXN_ERROR_DUPLICATE_KEY", "RunTxnErrorDuplicateKey")
    ∷ ("TXN_ERROR_TOO_MANY_OPS", "RunTxnErrorTooManyOps")
    ∷ ("WATCH_EMPTY_KEY", "RunWatchEmptyKey")
    ∷ ("WATCH_AND_PUT", "RunWatchAndPut")
    ∷ ("WATCH_WITH_PREV_KV", "RunWatchWithPrevKv")
    ∷ ("WATCH_AND_PUT_WITH_OLD_REVISION", "RunWatchAndPutWithOldRevision")
    ∷ ("WATCH_AND_PUT_WITH_IGNORE_VALUE", "RunWatchAndPutWithIgnoreValue")
    ∷ ("WATCH_AND_PUT_WITH_NAMESPACE", "RunWatchAndPutWithNamespace")
    ∷ ("WATCH_WITH_COMPACTED_REVISION", "RunWatchWithCompactedRevision")
    ∷ ("WATCH_EVENT_TYPE", "RunWatchEventType")
    ∷ ("WATCH_WITH_PREFIX", "RunWatchWithPrefix")
    ∷ ("WATCH_WITH_RANGE", "RunWatchWithRange")
    ∷ ("WATCH_WITH_MULTIPLE_WATCHERS", "RunWatchWithMultipleWatchers")
    ∷ ("WATCH_CANCEL_INFLIGHT", "RunWatchCancelInflight")
    ∷ ("WATCH_CANCEL_IMMEDIATE", "RunWatchCancelImmediate")
    ∷ ("WATCH_CANCEL_INIT", "RunWatchCancelInit")
    ∷ ("WATCH_CANCEL_OVERLAPPING_CONTEXT", "RunWatchCancelOverlappingContext")
    ∷ ("WATCH_CANCEL_CLOSE", "RunWatchCancelClose")
    ∷ ("WATCH_WITH_FILTER", "RunWatchWithFilter")
    ∷ ("WATCH_WITH_CREATED_NOTIFICATION", "RunWatchWithCreatedNotification")
    ∷ ("WATCH_WITH_PROGRESS_NOTIFY", "RunWatchWithProgressNotify")
    ∷ ("WATCH_WITH_REQUEST_PROGRESS", "RunWatchWithRequestProgress")
    ∷ ("WATCH_WITH_TOO_LARGE_RESPONSE", "RunWatchWithTooLargeResponse")
    ∷ ("WATCH_WITH_FRAGMENTED_LARGE_RESPONSE", "RunWatchWithFragmentedLargeResponse")
    ∷ ("MIRROR_SYNC_BASE", "RunMirrorSyncBase")
    ∷ ("MIRROR_SYNC_UPDATES", "RunMirrorSyncUpdates")
    ∷ ("CONCURRENCY_MUTEX_LOCK", "RunConcurrencyMutexLock")
    ∷ ("CONCURRENCY_MUTEX_TRYLOCK", "RunConcurrencyMutexTrylock")
    ∷ ("CONCURRENCY_MUTEX_LOCK_WITH_REVOKED_SESSION", "RunConcurrencyMutexLockWithRevokedSession")
    ∷ ("CONCURRENCY_MUTEX_LOCK_WITH_SESSION_REVOKE", "RunConcurrencyMutexLockWithSessionRevoke")
    ∷ ("CONCURRENCY_ELECTION_CAMPAIGN", "RunConcurrencyElectionCampaign")
    ∷ ("CONCURRENCY_ELECTION_RESUME", "RunConcurrencyElectionResume")
    ∷ ("CONCURRENCY_STM_APPLY", "RunConcurrencyStmApply")
    ∷ ("LEASING_PUT_AND_GET", "RunLeasingPutAndGet")
    ∷ ("LEASING_PUT_AND_GET_WITH_PREFIX", "RunLeasingPutAndGetWithPrefix")
    ∷ ("LEASING_PUT_AND_GET_INVALIDATE_NEW", "RunLeasingPutAndGetInvalidateNew")
    ∷ ("LEASING_PUT_AND_GET_INVALIDATE_EXISTING", "RunLeasingPutAndGetInvalidateExisting")
    ∷ ("LEASING_PUT_AND_GET_WITH_PREV_KV", "RunLeasingPutAndGetWithPrevKv")
    ∷ ("LEASING_PUT_AND_GET_WITH_REV", "RunLeasingPutAndGetWithRev")
    ∷ ("LEASING_PUT_AND_GET_WITH_OPTS", "RunLeasingPutAndGetWithOpts")
    ∷ ("LEASING_PUT_CONCURRENT", "RunLeasingPutConcurrent")
    ∷ ("LEASING_PUT_AND_GET_OVERWRITE_RESPONSE", "RunLeasingPutAndGetOverwriteResponse")
    ∷ ("LEASING_PUT_AND_DELETE_WITH_PREFIX", "RunLeasingPutAndDeleteWithPrefix")
    ∷ ("LEASING_PUT_AND_DELETE_WITH_FROM_KEY", "RunLeasingPutAndDeleteWithFromKey")
    ∷ (
      "LEASING_PUT_AND_DELETE_RANGE_WITH_CONTENDING_TXN",
      "RunLeasingPutAndDeleteRangeWithContendingTxn",
    )
    ∷ (
      "LEASING_PUT_AND_DELETE_RANGE_WITH_CONTENDING_DELETE",
      "RunLeasingPutAndDeleteRangeWithContendingDelete",
    )
    ∷ ("LEASING_PUT_AND_GET_AND_DELETE_CONCURRENT", "RunLeasingPutAndGetAndDeleteConcurrent")
    ∷ ("LEASING_DELETE_OWNER", "RunLeasingDeleteOwner")
    ∷ ("LEASING_DELETE_NON_OWNER", "RunLeasingDeleteNonOwner")
    ∷ ("LEASING_TXN_OWNER_GET", "RunLeasingTxnOwnerGet")
    ∷ ("LEASING_TXN_OWNER_GET_WITH_PREFIX", "RunLeasingTxnOwnerGetWithPrefix")
    ∷ ("LEASING_TXN_OWNER_DELETE", "RunLeasingTxnOwnerDelete")
    ∷ ("LEASING_TXN_OWNER_DELETE_WITH_PREFIX", "RunLeasingTxnOwnerDeleteWithPrefix")
    ∷ ("LEASING_TXN_NON_OWNER_PUT", "RunLeasingTxnNonOwnerPut")
    ∷ ("LEASING_TXN_RAND_IF_THEN_OR_ELSE", "RunLeasingTxnRandIfThenOrElse")
    ∷ ("LEASING_TXN_ATOMIC_CACHE", "RunLeasingTxnAtomicCache")
    ∷ ("LEASING_TXN_RANGE_CMP", "RunLeasingTxnRangeCmp")
    ∷ ("LEASING_DO", "RunLeasingDo")
    ∷ ("LEASING_LEASE_REUSE_WINDOW", "RunLeasingLeaseReuseWindow")
    ∷ ("MAINTENANCE_STATUS", "RunMaintenanceStatus")
    ∷ ("MAINTENANCE_SNAPSHOT", "RunMaintenanceSnapshot")
    ∷ ("CLUSTER_MEMBER_LIST", "RunClusterMemberList")
    ∷ ("LEASE_EXPIRATION_AUTO_DELETE", "RunLeaseExpirationAutoDelete")
    ∷ ("WATCH_RESUME_AFTER_DISCONNECT", "RunWatchResumeAfterDisconnect")
    ∷ ("GET_WITH_CONTINUE_TOKEN", "RunGetWithContinueToken")
    ∷ ("TLS_CLIENT_AUTH", "RunTLSClientAuth")
    ∷ ("RESOURCE_SIZE_ESTIMATION", "RunResourceSizeEstimation")
    ∷ ("ERROR_COMPACTED", "RunErrorCompacted")
    ∷ ("ERROR_FUTURE_REV", "RunErrorFutureRev")
    ∷ ("TXN_COMPARE_CREATEREVISION", "RunTxnCompareCreaterevision")
    ∷ ("TXN_COMPARE_VERSION", "RunTxnCompareVersion")
    ∷ ("TXN_COMPARE_VALUE", "RunTxnCompareValue")
    ∷ ("DELETE_WITH_PREV_KV", "RunDeleteWithPrevKv")
    ∷ ("WATCH_BOOKMARK_DELIVERY", "RunWatchBookmarkDelivery")
    ∷ ("HEADER_REVISION_MONOTONIC", "RunHeaderRevisionMonotonic")
    ∷ ("MOD_REVISION_CONSISTENCY", "RunModRevisionConsistency")
    ∷ ("PUT_WITH_PREV_KV", "RunPutWithPrevKv")
    ∷ ("LEASE_LIST", "RunLeaseList")
    ∷ ("TXN_COMPARE_LEASE", "RunTxnCompareLease")
    ∷ ("GET_WITH_KEYS_ONLY", "RunGetWithKeysOnly")
    ∷ ("PUT_WITH_LEASE_ATTACH", "RunPutWithLeaseAttach")
    ∷ ("WATCH_INITIAL_EVENTS", "RunWatchInitialEvents")
    ∷ ("TXN_MULTI_OP_ATOMICITY", "RunTxnMultiOpAtomicity")
    ∷ ("COMPACT_REVISION_RETENTION", "RunCompactRevisionRetention")
    ∷ ("WATCH_ORDERING_GUARANTEE", "RunWatchOrderingGuarantee")
    ∷ ("LEASE_GRANT_TTL_BOUNDS", "RunLeaseGrantTTLBounds")
    ∷ ("MAINTENANCE_DEFRAGMENT", "RunMaintenanceDefragment")
    ∷ ("MAINTENANCE_HASH_KV", "RunMaintenanceHashKv")
    ∷ []

abbrev pub first_names : List (String × String) → List String
first_names [] = []
first_names ((name, f) ∷ table) = name ∷ first_names table

-- The names that have a runner function.
abbrev pub runner_names : List String
runner_names = first_names id_string_to_runner
