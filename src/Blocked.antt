-- ===== src/Blocked.antt =====
-- internal/server/server_pipeline_chains_runtime.go: the jobs that wait for a pipeline of their chain
-- or for a job of their run. One pass looks for the first job that can move, moves it, and reads the
-- table again. Under `dependencyMu` the passes of the server do not mix; the other writers of the
-- table are left out here. `now` is the instant of the pass.
use ciwi.Base.{
  ℕ, String, Bool, true, false, not, ◌&&◌, ◌||◌, none, some, List, [], ◌∷◌, ◌++◌, ◌==◌,
  if◌then◌else◌, any, eqb,
}
use ciwi.Base.Dict.{Dict}
use ciwi.Base.Result.{Result, ok, err}
use ciwi.Base.Text.{trim_space}
use Prim.Native.String
use ciwi.Chains.{ChainStatus, pipeline_chain_status}
use ciwi.Dependencies.Artifacts.{
  PersistedPipeline, PipelineJobArtifactSource, resolve_chain_job_dependency_context,
  dependency_artifact_job_ids_for_job,
}
use ciwi.Jobs.{JobExecution, JobExecutionStatusUpdateRequest}
use ciwi.Jobs.Attempts.{latest_job_execution_attempts}
use ciwi.Metadata.{
  value, flag, csv, key_chain_run_id, key_pipeline_run_id, key_project_id, key_pipeline_id,
  key_pipeline_job_id, key_chain_blocked, key_chain_cancelled, key_chain_depends_on_pipelines,
  key_needs_blocked, key_needs_job_ids,
}
use ciwi.Status.{
  queued, succeeded, failed, normalize_job_execution_status, is_terminal_job_execution_status,
}
use ciwi.Store.Table.{
  Table, StoreError, not_found, leased_by_another, not_leased, not_pending, script_required,
  negative_timeout, job_id_required, agent_id_required, duplicate_id, bad_max_age,
  changed_meanwhile, find_job, list_job_executions,
}
use ciwi.Store.Update.{update_job_execution_status}
use ciwi.Store.Merge.{merge_job_execution_metadata, set_job_execution_dependency_artifact_job_ids}
pub mod Reconcile
pub mod Measure
pub mod Progress
pub mod Flags
pub mod Moves
pub mod Listing
pub mod Needs
pub mod Converge
pub mod Rest

pub record JobEvent : Type 0 where
  pub job_id : String
  pub timestamp_utc : ℕ
  pub message : String

-- The two tables that a pass writes.
pub record World : Type 0 where
  pub jobs : Table
  pub events : List JobEvent

-- What a pass can end with, besides an error of the store.
pub data BlockedError : Type 0 where
  store_failed : StoreError → BlockedError
  did_not_converge : ℕ → BlockedError

-- The texts of the store's errors. No operation here inserts a job, so the driver's text for an id
-- that exists is not written out.
unfoldable pub store_error_text : StoreError → String
store_error_text not_found = "job not found"
store_error_text leased_by_another = "job is leased by another agent"
store_error_text not_leased = "job is not leased"
store_error_text not_pending = "job is not pending"
store_error_text script_required = "script is required"
store_error_text negative_timeout = "timeout_seconds must be >= 0"
store_error_text job_id_required = "job id is required"
store_error_text agent_id_required = "agent id is required"
store_error_text duplicate_id = ""
store_error_text bad_max_age = "maxAge must be > 0"
store_error_text changed_meanwhile = "leased job changed while requeueing"

unfoldable pub merge_job_metadata :
    String → Dict String → World → Result StoreError (Unit {0}) × World
merge_job_metadata job_id patch w =
    let merged = merge_job_execution_metadata job_id patch w.jobs in
    (elim merged.0 [ ok values ↦ ok tt | err e ↦ err e ], record w { jobs = merged.1 })

-- The test of `WHERE NOT EXISTS`: the events here are all of one type, with a message as payload.
abbrev pub is_same_event : JobEvent → JobEvent → Bool
is_same_event event stored =
    stored.job_id == event.job_id
    && eqb stored.timestamp_utc event.timestamp_utc
    && stored.message == event.message

-- `AppendJobExecutionEvents`, of one event, up to the search index of the log.
unfoldable pub append_event : JobEvent → World → Result StoreError (Unit {0}) × World
append_event event w =
    if trim_space event.job_id == ""
    then (err job_id_required, w)
    else elim (find_job event.job_id w.jobs) [
      | none ↦ (err not_found, w)
      | some row ↦ (
        ok tt,
        record w {
          events = if any (is_same_event event) w.events then w.events else w.events ++ event ∷ [];
        },
      )
    ]

abbrev pub failed_request : String → String → JobExecutionStatusUpdateRequest
failed_request agent_id reason = record {
  agent_id = agent_id;
  status = failed;
  exit_code = none;
  error = reason;
  current_step = "";
  cache_stats = [];
  runtime_capabilities = [];
}

-- The next step, on the world that the last one left, unless that one failed.
infixl 5 ◌then◌
abbrev pub ◌then◌ {ℓ} :
    {A : Type ℓ}
    → Result StoreError (Unit {0}) × World
    → (World → Result StoreError A × World)
    → Result StoreError A × World
(ok done, w) then next = next w
(err e, w) then next = (err e, w)

unfoldable pub fail_update :
    ℕ → JobExecution → String → String → World → Result StoreError (Unit {0}) × World
fail_update now job agent_id reason w =
    let updated = update_job_execution_status job.id (failed_request agent_id reason) now w.jobs in
    (elim updated.0 [ ok row ↦ ok tt | err e ↦ err e ], record w { jobs = updated.1 })

abbrev pub fail_event : ℕ → JobExecution → String → String → JobEvent
fail_event now job marker reason = record {
  job_id = job.id;
  timestamp_utc = now;
  message = String.◌++◌ "[" (String.◌++◌ marker (String.◌++◌ "] " reason));
}

-- `failBlockedJob`.
unfoldable pub fail_blocked_job :
    ℕ
    → JobExecution
    → String
    → String
    → String
    → Dict String
    → World
    → Result StoreError (Unit {0}) × World
fail_blocked_job now job agent_id marker reason patch w =
    fail_update now job agent_id reason w
    then append_event (fail_event now job marker reason)
    then merge_job_metadata job.id patch

-- What a look at one job found.
pub data Verdict : Type 0 where
  unchanged waiting changed : Verdict

abbrev pub as_verdict :
    Verdict → Result StoreError (Unit {0}) × World → Result StoreError Verdict × World
as_verdict verdict (ok done, w) = (ok verdict, w)
as_verdict verdict (err e, w) = (err e, w)

-- The loop over the dependencies of a chained job: it waits for one, one has failed, or all are done.
pub data Upstream : Type 0 where
  all_done : Upstream
  not_done : Upstream
  broken : String → Upstream

unfoldable pub upstream : List JobExecution → String → List String → Upstream
upstream all_jobs chain_run_id [] = all_done
upstream all_jobs chain_run_id (dep_id ∷ dep_ids) =
    let status = pipeline_chain_status all_jobs chain_run_id dep_id in
    let rest = upstream all_jobs chain_run_id dep_ids in
    if not status.exists || not status.terminated
    then not_done
    else if not status.all_succeeded
    then broken dep_id
    else rest

abbrev pub is_needed : JobExecution → String → JobExecution → Bool
is_needed candidate need possible =
    value possible.metadata key_pipeline_run_id == value candidate.metadata key_pipeline_run_id
    && value possible.metadata key_project_id == value candidate.metadata key_project_id
    && value possible.metadata key_pipeline_id == value candidate.metadata key_pipeline_id
    && value possible.metadata key_pipeline_job_id == need

-- The inner loop over the jobs, with its three results.
unfoldable pub note_needed : JobExecution → String → List JobExecution → ChainStatus → ChainStatus
note_needed candidate need [] seen = seen
note_needed candidate need (possible ∷ jobs) seen =
    let status = normalize_job_execution_status possible.status in
    note_needed candidate need jobs (
      if not (is_needed candidate need possible)
      then seen
      else if not (is_terminal_job_execution_status status)
      then record { terminated = false; all_succeeded = false; exists = true }
      else if not (status == succeeded)
      then record seen { all_succeeded = false; exists = true }
      else record seen { exists = true })

unfoldable pub needed : List JobExecution → JobExecution → List String → Upstream
needed all_jobs candidate [] = all_done
needed all_jobs candidate (need ∷ needs) =
    let status =
      note_needed candidate need all_jobs
        (record { terminated = true; all_succeeded = true; exists = false }) in
    let rest = needed all_jobs candidate needs in
    if not status.exists || not status.terminated
    then not_done
    else if not status.all_succeeded
    then broken need
    else rest
