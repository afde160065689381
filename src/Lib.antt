-- ===== src/Lib.antt =====
-- etcd-infra: the parts of the repository that decide what happens to a cluster and to a test run.
--
-- The program creates etcd clusters (pkg/providers), and runs two suites against them: the
-- conformance suite (internal/etcd/conformance) and the stress suite (internal/etcd/stress). Each
-- suite resolves its options to a configuration, checks it, runs its scenarios one after the other
-- and judges their results.
--
-- Which file models what:
-- - Common: the tests on numbers, Go's strings, sort and slices packages as far as they are used,
--   and the lemmas on lists. A text is a list of code points.
-- - Conformance/Registry and its modules: scenarios/scenario_registry.go and scenario_id_codec.go;
--   id_string_to_id, id_string_to_runner and id_to_runner are the maps IDStringToID,
--   IDStringToRunnerFunc and IDToRunner; scenario_ids are the constants of scenario_ids.go, and
--   id_names their names in id_string.go.
-- - Conformance/Tuning: getScenarioTimeout and shouldRetryScenario of suite_workflow.go.
-- - Conformance/Runner: the runner's results (RecordResult, DropResultsFrom, countResults,
--   lastRecordedFailure).
-- - Conformance/Suite: RunScenarios. retry_loop is its loop over attempts, run_from its loop over
--   scenarios, run_scenario_with_timeout the error of runScenarioWithTimeout. What a scenario
--   function does in an attempt is an input: how it ends, what it records, and what a goroutine that
--   had timed out records later. Child modules hold the theorems.
-- - Conformance/Config, Conformance/Run: the normal form of the options, ValidateAndSetDefaults, Run.
-- - Stress/Config, Stress/Registry: configuration.go, resolveScenarioIDs, the names of scenarios.
-- - Stress/Metrics: metrics.go. An int64 is its 64-bit pattern, wrapping around at 2^64.
-- - Stress/Floats: float64 as an interface with the facts on which the code relies.
-- - Stress/Maintenance: scenario_k8s_mixed_size_maintenance.go; Leases is its lease pool, Judge its
--   verdict together with finalizeScenario of workload_execution.go.
-- - Local: pkg/providers/local. Containers has what the container runtime reports, Env sameEnv,
--   Arguments CreateConfig, clientPortMapping, validateCreateConfig and createRunArgs, Replacement
--   replacementSpecFromInspect and runArgs, Manager the operations Create, Get, Delete, Stop, Start
--   and ReplaceMachine with restoreContainer. The container runtime is a parameter: a world with
--   `inspect` and other commands, of which nothing is assumed. Each operation logs what it asks.
-- - Drive: cmd/etcd-infra/aws_drive_aggregate.go; merge_results is how aggregateDriveResults adds the
--   latency buckets (`none` for a panic), merged_p99 is mergedP99Ms up to the bucket's upper bound,
--   with the product by 0.99 in floating point, cut to an integer, as a parameter.
--
-- - ExtraArgs: cmd/etcd-infra/extraargs.go; what reading a file returns is a parameter.
-- - Archive: pkg/archive. Paths has path/filepath's Clean, Join, Rel, Dir and IsAbs on texts that are
--   split at slashes; Archive itself has secureExtractPath, in checked_name and checked_target, with
--   what Lstat answers as a parameter; Extract has the loops of UntarGz and Unzip, with a log of
--   their effects on a file system that is a parameter. Closing files and logging are left out.
-- - Shell: pkg/shell/quote.go; Words has the words that a POSIX shell reads, as the reference.
-- - Client: internal/etcd/client/cluster_health_waiter.go; what the endpoints answer in each round,
--   the clock and the context are parameters. Times are in milliseconds here and in Compute.
-- - Compute: pkg/providers/compute/pollable_adapter.go; the command's handle and the context are
--   parameters.
-- - Aws: pkg/providers/aws/launch_group.go over the SDK, the clock and the sleep as a parameter, a
--   Cloud, whose calls answer and change a state of which nothing is assumed. Tags has the maps of
--   tags, Templates the launch templates, Groups the Auto Scaling groups; size_loop is
--   WaitForGroupSize's loop, delete_loop and gone_loop are those of DeleteAutoScalingGroup.
--   Replacement is replaceStandalone of manager_lifecycle.go over EC2 as a parameter, with a log of
--   the calls that change something; a wait looks once more than it has ticks, and how many ticks
--   come before its deadline, or before its context is done, is a parameter.
--
-- How they meet: the commands create a group of machines (Aws) or of containers (Local), install
-- archives on them (Archive), run commands (Shell, Compute), wait for the cluster (Client), and run
-- the two suites against it (Conformance, Stress), of which Drive adds up the results.
--
-- Bounds. Loops over lists are structural. The retry loop runs on the number of attempts that are
-- left, which max_attempts gives (1 or 3). restoreContainer's loop runs on the number of ticks
-- that come before its deadline, for any number. itoa, the decimal text of a number n, runs on
-- n + 1 steps of fuel, and each step divides by ten. The waits of Client, Compute and Aws run on
-- timeout / interval + 2 rounds: each round but the last ends with a sleep of at least the interval,
-- so that they reach the deadline; with an interval of 0, which the callers do not pass, Aws's
-- rounds may end before it, and the model then returns none.
--
-- Not modelled: reading and writing of files, processes, network calls, log lines, sleeps and the
-- clean-up of test keys; the wording of errors where no decision reads it; time stamps of events;
-- the scenario functions themselves, the rest of the AWS provider, the installer and the rest of the
-- command line; compression of archives.
pub mod Archive
pub mod Aws
pub mod Client
pub mod Common
pub mod Compute
pub mod Conformance
pub mod Drive
pub mod ExtraArgs
pub mod Local
pub mod Shell
pub mod Stress
