-- ===== src/Store/Update.antt =====
-- `UpdateJobExecutionStatus`. It reads the job, decides what to write, and writes it with one
-- conditional statement; other writers may change the table between the read and the write.
pub mod Laws
use ciwi.Base.{
  ℕ, String, Bool, true, false, not, ◌&&◌, ◌||◌, Option, none, some, List, [], ◌∷◌, ◌==◌,
  if◌then◌else◌, eqb, is_empty,
}
use ciwi.Base.Dict.{Dict}
use ciwi.Base.Int.{ℤ}
use ciwi.Base.Result.{Result, ok, err}
use ciwi.Base.Text.{trim_space}
use ciwi.Jobs.{JobExecution, JobExecutionStatusUpdateRequest, JobCacheStats}
use ciwi.Status.{
  running, succeeded, failed, normalize_job_execution_status, is_terminal_job_execution_status,
}
use ciwi.Store.Table.{
  Table, StoreError, not_found, leased_by_another, update_by_id, find_job, get_job_execution,
}

-- The values that the statement writes, and whether it spares terminal rows.
pub record StatusWrite : Type 0 where
  pub status : String
  pub started : ℕ
  pub finished : ℕ
  pub exit_code : Option ℤ
  pub error : String
  pub cache_stats : List JobCacheStats
  pub runtime_capabilities : Dict String
  pub current_step : String
  pub spares_terminal : Bool

pub data Plan : Type 0 where
  refuse : StoreError → Plan
  keep : JobExecution → Plan
  write : StatusWrite → Plan

-- `started`, after the branches for running and terminal updates.
unfoldable pub started_after : String → ℕ → JobExecution → ℕ
started_after status now job =
    if (status == running || is_terminal_job_execution_status status) && eqb job.started_utc 0
    then now
    else job.started_utc

-- What a request that passed the guards writes.
unfoldable pub status_write : JobExecutionStatusUpdateRequest → ℕ → JobExecution → StatusWrite
status_write req now job =
    let status = normalize_job_execution_status req.status in
    let terminal = is_terminal_job_execution_status status in
    let requested = trim_space req.current_step in
    let step = (if requested == "" then trim_space job.current_step else requested) in
    record {
      status = status;
      started = started_after status now job;
      finished = if terminal then now else job.finished_utc;
      exit_code = req.exit_code;
      error = if terminal && status == succeeded then "" else req.error;
      cache_stats = if is_empty req.cache_stats then job.cache_stats else req.cache_stats;
      runtime_capabilities =
          if is_empty req.runtime_capabilities
          then job.runtime_capabilities
          else req.runtime_capabilities;
      current_step = if terminal then "" else step;
      spares_terminal = status == running || terminal;
    }

-- A late update of a job that has ended: it is dropped, and the job returned as it was.
unfoldable pub is_late : JobExecutionStatusUpdateRequest → JobExecution → Bool
is_late req job =
    let status = normalize_job_execution_status req.status in
    is_terminal_job_execution_status job.status
    && (status == running
        || (is_terminal_job_execution_status status
            && not (status == normalize_job_execution_status job.status)))

-- The decision, on the job as it was read.
unfoldable pub plan_update : JobExecutionStatusUpdateRequest → ℕ → Option JobExecution → Plan
plan_update req now none = refuse not_found
plan_update req now (some job) =
    if is_late req job
    then keep job
    else if not (job.leased_by_agent_id == "") && not (job.leased_by_agent_id == req.agent_id)
    then refuse leased_by_another
    else write (status_write req now job)

abbrev pub may_write : StatusWrite → JobExecution → Bool
may_write w row = not (w.spares_terminal && (row.status == succeeded || row.status == failed))

abbrev pub write_row : StatusWrite → JobExecution → JobExecution
write_row w row = record row {
  status = w.status;
  started_utc = w.started;
  finished_utc = w.finished;
  exit_code = w.exit_code;
  error = w.error;
  cache_stats = w.cache_stats;
  runtime_capabilities = w.runtime_capabilities;
  current_step = w.current_step;
}

-- The statement, on the table as it is when it runs. Whether it affects a row or not, the job is
-- then read once more.
unfoldable pub run_plan : String → Plan → Table → Result StoreError JobExecution × Table
run_plan job_id (refuse e) table = (err e, table)
run_plan job_id (keep job) table = (ok job, table)
run_plan job_id (write w) table =
    let table' = update_by_id job_id (may_write w) (write_row w) table in
    (get_job_execution job_id table', table')

-- `UpdateJobExecutionStatus`: `read` is the table at the read, `table` the one at the write.
unfoldable pub update_between :
    String
    → JobExecutionStatusUpdateRequest
    → ℕ
    → Table
    → Table
    → Result StoreError JobExecution × Table
update_between job_id req now read table =
    run_plan job_id (plan_update req now (find_job job_id read)) table

-- The same with no other writer in between.
unfoldable pub update_job_execution_status :
    String → JobExecutionStatusUpdateRequest → ℕ → Table → Result StoreError JobExecution × Table
update_job_execution_status job_id req now table = update_between job_id req now table table
