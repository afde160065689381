-- ===== src/Conformance/Registry/ById.antt =====
-- scenario_registry.go: the map by ID, in the order of the source.
use Prim.Native.String.{String}
use etcd_infra.Common.{ℕ, List, [], ◌∷◌}

-- IDToRunner
abbrev pub id_to_runner : List (ℕ × String)
id_to_runner =
    (0, "RunPutEmptyKeyShouldError")
    ∷ (1, "RunPutLargeShouldError")
    ∷ (2, "RunPutAndGetWithLatestRevision")
    ∷ (3, "RunPutAndGetWithOldRevision")
    ∷ (4, "RunPutAndGetWithPrefix")
    ∷ (5, "RunPutAndGetWithFromKey")
    ∷ (6, "RunPutAndGetWithNamespace")
    ∷ (7, "RunPutAndGetWithSort")
    ∷ (8, "RunPutAndGetWithOp")
    ∷ (9, "RunPutAndDelete")
    ∷ (10, "RunPutAndDeleteWithPrefix")
    ∷ (11, "RunPutAndDeleteAndGetWithOldRevision")
    ∷ (12, "RunPutLinearizability")
    ∷ (13, "RunPutWithLeaseTimeToLive")
    ∷ (14, "RunPutWithLeaseNotFound")
    ∷ (15, "RunPutWithLeaseAndRevoke")
    ∷ (16, "RunPutWithLeaseKeepalive")
    ∷ (17, "RunPutWithLeaseKeepaliveOneSecond")
    ∷ (18, "RunPutWithLeaseKeepaliveOnce")
    ∷ (19, "RunPutWithLeaseKeepaliveFullResponseQueue")
    ∷ (20, "RunPutWithIgnoreValue")
    ∷ (21, "RunPutWithIgnoreLease")
    ∷ (22, "RunLeaseTooLarge")
    ∷ (23, "RunLeaseKeepaliveRevoke")
    ∷ (24, "RunGetEmptyKey")
    ∷ (25, "RunGetWithPrefix")
    ∷ (26, "RunGetWithFromKey")
    ∷ (27, "RunGetWithRange")
    ∷ (28, "RunGetWithLimitAndCount")
    ∷ (29, "RunGetWithRevisionFilters")
    ∷ (30, "RunGetWithRequireLeader")
    ∷ (31, "RunDeleteEmptyKey")
    ∷ (32, "RunDeleteAllWithPrefix")
    ∷ (33, "RunDeleteAllWithFromKey")
    ∷ (34, "RunDeleteWithRange")
    ∷ (35, "RunDeleteWithPrecondition")
    ∷ (36, "RunCompact")
    ∷ (37, "RunTxnPutOne")
    ∷ (38, "RunTxnPutMultiple")
    ∷ (39, "RunTxnKeyExists")
    ∷ (40, "RunTxnKeyMissing")
    ∷ (41, "RunTxnCompareRange")
    ∷ (42, "RunTxnCompareModrevision")
    ∷ (43, "RunTxnNested")
    ∷ (44, "RunTxnErrorDuplicateKey")
    ∷ (45, "RunTxnErrorTooManyOps")
    ∷ (46, "RunWatchEmptyKey")
    ∷ (47, "RunWatchAndPut")
    ∷ (48, "RunWatchWithPrevKv")
    ∷ (49, "RunWatchAndPutWithOldRevision")
    ∷ (50, "RunWatchAndPutWithIgnoreValue")
    ∷ (51, "RunWatchAndPutWithNamespace")
    ∷ (52, "RunWatchWithCompactedRevision")
    ∷ (53, "RunWatchEventType")
    ∷ (54, "RunWatchWithPrefix")
    ∷ (55, "RunWatchWithRange")
    ∷ (56, "RunWatchWithMultipleWatchers")
    ∷ (57, "RunWatchCancelInflight")
    ∷ (58, "RunWatchCancelImmediate")
    ∷ (59, "RunWatchCancelInit")
    ∷ (60, "RunWatchCancelOverlappingContext")
    ∷ (61, "RunWatchCancelClose")
    ∷ (62, "RunWatchWithFilter")
    ∷ (63, "RunWatchWithCreatedNotification")
    ∷ (64, "RunWatchWithProgressNotify")
    ∷ (65, "RunWatchWithRequestProgress")
    ∷ (66, "RunWatchWithTooLargeResponse")
    ∷ (67, "RunWatchWithFragmentedLargeResponse")
    ∷ (68, "RunMirrorSyncBase")
    ∷ (69, "RunMirrorSyncUpdates")
    ∷ (70, "RunConcurrencyMutexLock")
    ∷ (71, "RunConcurrencyMutexTrylock")
    ∷ (72, "RunConcurrencyMutexLockWithRevokedSession")
    ∷ (73, "RunConcurrencyMutexLockWithSessionRevoke")
    ∷ (74, "RunConcurrencyElectionCampaign")
    ∷ (75, "RunConcurrencyElectionResume")
    ∷ (76, "RunConcurrencyStmApply")
    ∷ (77, "RunLeasingPutAndGet")
    ∷ (78, "RunLeasingPutAndGetWithPrefix")
    ∷ (79, "RunLeasingPutAndGetInvalidateNew")
    ∷ (80, "RunLeasingPutAndGetInvalidateExisting")
    ∷ (81, "RunLeasingPutAndGetWithPrevKv")
    ∷ (82, "RunLeasingPutAndGetWithRev")
    ∷ (83, "RunLeasingPutAndGetWithOpts")
    ∷ (84, "RunLeasingPutConcurrent")
    ∷ (85, "RunLeasingPutAndGetOverwriteResponse")
    ∷ (86, "RunLeasingPutAndDeleteWithPrefix")
    ∷ (87, "RunLeasingPutAndDeleteWithFromKey")
    ∷ (88, "RunLeasingPutAndDeleteRangeWithContendingTxn")
    ∷ (89, "RunLeasingPutAndDeleteRangeWithContendingDelete")
    ∷ (90, "RunLeasingPutAndGetAndDeleteConcurrent")
    ∷ (91, "RunLeasingDeleteOwner")
    ∷ (92, "RunLeasingDeleteNonOwner")
    ∷ (93, "RunLeasingTxnOwnerGet")
    ∷ (94, "RunLeasingTxnOwnerGetWithPrefix")
    ∷ (95, "RunLeasingTxnOwnerDelete")
    ∷ (96, "RunLeasingTxnOwnerDeleteWithPrefix")
    ∷ (97, "RunLeasingTxnNonOwnerPut")
    ∷ (98, "RunLeasingTxnRandIfThenOrElse")
    ∷ (99, "RunLeasingTxnAtomicCache")
    ∷ (100, "RunLeasingTxnRangeCmp")
    ∷ (101, "RunLeasingDo")
    ∷ (102, "RunLeasingLeaseReuseWindow")
    ∷ (103, "RunMaintenanceStatus")
    ∷ (104, "RunMaintenanceSnapshot")
    ∷ (105, "RunClusterMemberList")
    ∷ (106, "RunLeaseExpirationAutoDelete")
    ∷ (107, "RunWatchResumeAfterDisconnect")
    ∷ (108, "RunGetWithContinueToken")
    ∷ (109, "RunTLSClientAuth")
    ∷ (110, "RunResourceSizeEstimation")
    ∷ (111, "RunErrorCompacted")
    ∷ (112, "RunErrorFutureRev")
    ∷ (113, "RunTxnCompareCreaterevision")
    ∷ (114, "RunTxnCompareVersion")
    ∷ (115, "RunTxnCompareValue")
    ∷ (116, "RunDeleteWithPrevKv")
    ∷ (117, "RunWatchBookmarkDelivery")
    ∷ (118, "RunHeaderRevisionMonotonic")
    ∷ (119, "RunModRevisionConsistency")
    ∷ (120, "RunPutWithPrevKv")
    ∷ (121, "RunLeaseList")
    ∷ (122, "RunTxnCompareLease")
    ∷ (123, "RunGetWithKeysOnly")
    ∷ (124, "RunPutWithLeaseAttach")
    ∷ (125, "RunWatchInitialEvents")
    ∷ (126, "RunTxnMultiOpAtomicity")
    ∷ (127, "RunCompactRevisionRetention")
    ∷ (128, "RunWatchOrderingGuarantee")
    ∷ (129, "RunLeaseGrantTTLBounds")
    ∷ (130, "RunMaintenanceDefragment")
    ∷ (131, "RunMaintenanceHashKv")
    ∷ []
