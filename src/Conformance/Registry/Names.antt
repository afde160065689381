-- ===== src/Conformance/Registry/Names.antt =====
-- id_string.go: the names of the scenario IDs.
use Prim.Native.String.{String}
use etcd_infra.Common.{List, [], ◌∷◌}

-- The names as _IDIndex cuts them out of _IDName: that of the ID i has the index i.
abbrev pub id_names : List String
id_names =
    "PUT_EMPTY_KEY_SHOULD_ERROR" ∷ "PUT_LARGE_SHOULD_ERROR" ∷ "PUT_AND_GET_WITH_LATEST_REVISION"
    ∷ "PUT_AND_GET_WITH_OLD_REVISION" ∷ "PUT_AND_GET_WITH_PREFIX" ∷ "PUT_AND_GET_WITH_FROM_KEY"
    ∷ "PUT_AND_GET_WITH_NAMESPACE" ∷ "PUT_AND_GET_WITH_SORT" ∷ "PUT_AND_GET_WITH_OP"
    ∷ "PUT_AND_DELETE" ∷ "PUT_AND_DELETE_WITH_PREFIX" ∷ "PUT_AND_DELETE_AND_GET_WITH_OLD_REVISION"
    ∷ "PUT_LINEARIZABILITY" ∷ "PUT_WITH_LEASE_TIME_TO_LIVE" ∷ "PUT_WITH_LEASE_NOT_FOUND"
    ∷ "PUT_WITH_LEASE_AND_REVOKE" ∷ "PUT_WITH_LEASE_KEEPALIVE"
    ∷ "PUT_WITH_LEASE_KEEPALIVE_ONE_SECOND" ∷ "PUT_WITH_LEASE_KEEPALIVE_ONCE"
    ∷ "PUT_WITH_LEASE_KEEPALIVE_FULL_RESPONSE_QUEUE" ∷ "PUT_WITH_IGNORE_VALUE"
    ∷ "PUT_WITH_IGNORE_LEASE" ∷ "LEASE_TOO_LARGE" ∷ "LEASE_KEEPALIVE_REVOKE" ∷ "GET_EMPTY_KEY"
    ∷ "GET_WITH_PREFIX" ∷ "GET_WITH_FROM_KEY" ∷ "GET_WITH_RANGE" ∷ "GET_WITH_LIMIT_AND_COUNT"
    ∷ "GET_WITH_REVISION_FILTERS" ∷ "GET_WITH_REQUIRE_LEADER" ∷ "DELETE_EMPTY_KEY"
    ∷ "DELETE_ALL_WITH_PREFIX" ∷ "DELETE_ALL_WITH_FROM_KEY" ∷ "DELETE_WITH_RANGE"
    ∷ "DELETE_WITH_PRECONDITION" ∷ "COMPACT" ∷ "TXN_PUT_ONE" ∷ "TXN_PUT_MULTIPLE" ∷ "TXN_KEY_EXISTS"
    ∷ "TXN_KEY_MISSING" ∷ "TXN_COMPARE_RANGE" ∷ "TXN_COMPARE_MODREVISION" ∷ "TXN_NESTED"
    ∷ "TXN_ERROR_DUPLICATE_KEY" ∷ "TXN_ERROR_TOO_MANY_OPS" ∷ "WATCH_EMPTY_KEY" ∷ "WATCH_AND_PUT"
    ∷ "WATCH_WITH_PREV_KV" ∷ "WATCH_AND_PUT_WITH_OLD_REVISION" ∷ "WATCH_AND_PUT_WITH_IGNORE_VALUE"
    ∷ "WATCH_AND_PUT_WITH_NAMESPACE" ∷ "WATCH_WITH_COMPACTED_REVISION" ∷ "WATCH_EVENT_TYPE"
    ∷ "WATCH_WITH_PREFIX" ∷ "WATCH_WITH_RANGE" ∷ "WATCH_WITH_MULTIPLE_WATCHERS"
    ∷ "WATCH_CANCEL_INFLIGHT" ∷ "WATCH_CANCEL_IMMEDIATE" ∷ "WATCH_CANCEL_INIT"
    ∷ "WATCH_CANCEL_OVERLAPPING_CONTEXT" ∷ "WATCH_CANCEL_CLOSE" ∷ "WATCH_WITH_FILTER"
    ∷ "WATCH_WITH_CREATED_NOTIFICATION" ∷ "WATCH_WITH_PROGRESS_NOTIFY"
    ∷ "WATCH_WITH_REQUEST_PROGRESS" ∷ "WATCH_WITH_TOO_LARGE_RESPONSE"
    ∷ "WATCH_WITH_FRAGMENTED_LARGE_RESPONSE" ∷ "MIRROR_SYNC_BASE" ∷ "MIRROR_SYNC_UPDATES"
    ∷ "CONCURRENCY_MUTEX_LOCK" ∷ "CONCURRENCY_MUTEX_TRYLOCK"
    ∷ "CONCURRENCY_MUTEX_LOCK_WITH_REVOKED_SESSION" ∷ "CONCURRENCY_MUTEX_LOCK_WITH_SESSION_REVOKE"
    ∷ "CONCURRENCY_ELECTION_CAMPAIGN" ∷ "CONCURRENCY_ELECTION_RESUME" ∷ "CONCURRENCY_STM_APPLY"
    ∷ "LEASING_PUT_AND_GET" ∷ "LEASING_PUT_AND_GET_WITH_PREFIX"
    ∷ "LEASING_PUT_AND_GET_INVALIDATE_NEW" ∷ "LEASING_PUT_AND_GET_INVALIDATE_EXISTING"
    ∷ "LEASING_PUT_AND_GET_WITH_PREV_KV" ∷ "LEASING_PUT_AND_GET_WITH_REV"
    ∷ "LEASING_PUT_AND_GET_WITH_OPTS" ∷ "LEASING_PUT_CONCURRENT"
    ∷ "LEASING_PUT_AND_GET_OVERWRITE_RESPONSE" ∷ "LEASING_PUT_AND_DELETE_WITH_PREFIX"
    ∷ "LEASING_PUT_AND_DELETE_WITH_FROM_KEY" ∷ "LEASING_PUT_AND_DELETE_RANGE_WITH_CONTENDING_TXN"
    ∷ "LEASING_PUT_AND_DELETE_RANGE_WITH_CONTENDING_DELETE"
    ∷ "LEASING_PUT_AND_GET_AND_DELETE_CONCURRENT" ∷ "LEASING_DELETE_OWNER"
    ∷ "LEASING_DELETE_NON_OWNER" ∷ "LEASING_TXN_OWNER_GET" ∷ "LEASING_TXN_OWNER_GET_WITH_PREFIX"
    ∷ "LEASING_TXN_OWNER_DELETE" ∷ "LEASING_TXN_OWNER_DELETE_WITH_PREFIX"
    ∷ "LEASING_TXN_NON_OWNER_PUT" ∷ "LEASING_TXN_RAND_IF_THEN_OR_ELSE" ∷ "LEASING_TXN_ATOMIC_CACHE"
    ∷ "LEASING_TXN_RANGE_CMP" ∷ "LEASING_DO" ∷ "LEASING_LEASE_REUSE_WINDOW" ∷ "MAINTENANCE_STATUS"
    ∷ "MAINTENANCE_SNAPSHOT" ∷ "CLUSTER_MEMBER_LIST" ∷ "LEASE_EXPIRATION_AUTO_DELETE"
    ∷ "WATCH_RESUME_AFTER_DISCONNECT" ∷ "GET_WITH_CONTINUE_TOKEN" ∷ "TLS_CLIENT_AUTH"
    ∷ "RESOURCE_SIZE_ESTIMATION" ∷ "ERROR_COMPACTED" ∷ "ERROR_FUTURE_REV"
    ∷ "TXN_COMPARE_CREATEREVISION" ∷ "TXN_COMPARE_VERSION" ∷ "TXN_COMPARE_VALUE"
    ∷ "DELETE_WITH_PREV_KV" ∷ "WATCH_BOOKMARK_DELIVERY" ∷ "HEADER_REVISION_MONOTONIC"
    ∷ "MOD_REVISION_CONSISTENCY" ∷ "PUT_WITH_PREV_KV" ∷ "LEASE_LIST" ∷ "TXN_COMPARE_LEASE"
    ∷ "GET_WITH_KEYS_ONLY" ∷ "PUT_WITH_LEASE_ATTACH" ∷ "WATCH_INITIAL_EVENTS"
    ∷ "TXN_MULTI_OP_ATOMICITY" ∷ "COMPACT_REVISION_RETENTION" ∷ "WATCH_ORDERING_GUARANTEE"
    ∷ "LEASE_GRANT_TTL_BOUNDS" ∷ "MAINTENANCE_DEFRAGMENT" ∷ "MAINTENANCE_HASH_KV" ∷ []
