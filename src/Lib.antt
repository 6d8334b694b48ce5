-- ===== src/Lib.antt =====
-- ciwi: a CI server, its agents and its native client, in Go. This library models the server's table
-- of job executions and what decides over it, and proves what each part promises.
--
-- The parts. Clients and pipelines create job executions; the server keeps them in SQLite; an agent
-- asks for work and gets a lease of a queued job whose requirements it meets; it reports the status
-- of the job until it ends; maintenance puts stale leases back and fails jobs that run too long.
-- Commands that a client may send twice go through receipts. The native client keeps its own table
-- of operations that the user started.
--
-- The files:
--   Metadata      internal/domain/execution_metadata.go: the metadata map of a job.
--   Status        internal/protocol/job_execution_status.go: the status words.
--   Jobs          internal/protocol/job.go: the records of a job; Jobs.Attempts is job_attempts.go.
--   Requirements  internal/requirements/requirements.go: MatchCapabilities, ToolConstraintMatch,
--                 ShellCapabilityMatch, RequirementLabels, agentAvailabilityIssues and
--                 DiagnoseScheduling.
--   Store         internal/store/sqlite_job_executions_queue.go, sqlite_job_executions_status.go and
--                 internal/server/server_job_execution_maintenance.go. Store.Table has the table and
--                 its queries; Store.Create, Lease, Update, Requeue, Delete, Maintain and Merge have
--                 the methods. Store.Invariant defines what a sound row is, its children show that
--                 every method keeps it, and Store.Invariant.Reach has the calls as a step relation.
--                 Store.Race has an update that another writer overtakes.
--   Receipts      internal/store/sqlite_command_receipts.go; Receipts.Execute is
--                 internal/application/command_receipts.go, Receipts.Errors is errors.go.
--   Operations    internal/presentation/operations/coordinator.go: Operations.Methods has the
--                 methods, Operations.Invariant what its indexes promise, and
--                 Operations.Invariant.Submitting what a submission answers and leaves.
--   Chains        internal/server/server_pipeline_chains_runtime.go: pipelineChainStatus.
--   Blocked       the same file: reconcileBlockedJobExecutions, which releases or fails the jobs that
--                 wait for others. Blocked.Measure counts what is blocked, Blocked.Flags, Progress
--                 and Moves show that every move lowers the count, Blocked.Converge that the loop
--                 ends; Blocked.Needs says when the needs of a job are met, and
--                 Blocked.Rest what still waits at the end.
--   Dependencies  internal/server/server_pipelines_dependencies.go: mergePipelineDependencyContext;
--                 Dependencies.Verify is verifyDependencyRun, Dependencies.Check the check and the
--                 preview, and Dependencies.Artifacts what server_pipelines_enqueue_helpers.go makes
--                 of the executions that were found.
--   Changes       internal/application/changes.go: the hub of changes.
--   Viewport      internal/giodom/viewport.go: keyedViewportState, which finds the items of a virtual
--                 list. Viewport.Bits has the lowest set bit, Viewport.Tree the prefix tree,
--                 Viewport.Sums its reference, Viewport.Search firstVisible and anchorAt,
--                 Viewport.Reconcile reconcileIndex, Viewport.Recency remember, Viewport.Measure
--                 what the layout of an item does to both, and Viewport.Refine any sequence of
--                 rebuildings and measurements.
--   Logtext       internal/logtext/logtext.go: Split and TailRunes.
--   Updates       internal/updateutil/updateutil.go: the comparison of versions and VerifyFileSHA256.
--   Base          the helpers: texts, maps, results, sorting, and lists without repetition, which
--                 `uniqueStrings` of internal/application/changes.go computes.
--   Examples      runs of the theorems at concrete values.
--
-- How the state corresponds. A table is the list of its rows. A statement of SQL is one function on
-- it; a method that reads first and writes later takes the table at the read and the table at the
-- write, or works on one table where nothing comes between. An instant is the number of nanoseconds
-- since the epoch, and 0 is the zero time. A Go map with text keys is an association list, and a
-- range over it visits the list in order. A Go error is a value of an error type. Go's int is ℤ
-- where it may be negative and ℕ where it counts. The sum of a job's timeout and its grace, which a
-- user chooses, wraps around at 2 ^ 64 as the code's does; no other sum comes near 2 ^ 63.
--
-- Bounds. A loop over a list is structural recursion on it. The loops of the prefix tree and of the
-- binary search have fuel: as many rounds as the tree has nodes, the end of the query, or the number
-- of items; their theorems show that this is enough. The reconciliation of blocked jobs has the
-- transitions that the source allows, three for each job and one more; Blocked.Converge shows that
-- it never needs them all. The retries of a busy database repeat one statement, and only the
-- statement that succeeds is modelled.
--
-- Parameters: golang.org/x/mod/semver (`Semver`), `time.Parse` (`parse_time`), encoding/json
-- (`Codec`), the digest of an operation (`fingerprint`), the uuid package (ids as arguments), the
-- coordinator's journal (`Journal`), `%v` of a Go map (`matrix_text`), the store's query of a pipeline
-- (`load_pipeline`). `strings.EqualFold` and `strings.ToLower` are exact on ASCII.
--
-- Not modelled: errors of the database driver, the JSON form of the columns, the events of a job
-- other than that of a blocked job that fails, its logs, HTTP handlers, the execution of jobs on agents, the enqueueing of pipelines, configuration,
-- replacement of the running programs, and the layout and the gestures of the native client.
pub mod Base
pub mod Blocked
pub mod Chains
pub mod Changes
pub mod Dependencies
pub mod Examples
pub mod Jobs
pub mod Logtext
pub mod Metadata
pub mod Operations
pub mod Receipts
pub mod Requirements
pub mod Status
pub mod Store
pub mod Updates
pub mod Viewport
