-- ===== src/Store/Maintain.antt =====
-- The two maintenance passes: `RequeueStaleLeasedJobExecutions` and
-- `FailTimedOutRunningJobExecutions`. A duration is a number of nanoseconds.
use ciwi.Base.{
  ℕ, ◌+◌, ◌*◌, ◌%◌, ◌^◌, String, Bool, false, not, ◌&&◌, List, [], ◌∷◌, ◌==◌, if◌then◌else◌, ltb,
  leb, eqb,
}
use ciwi.Base.Int.{ℤ, pos, negsuc}
use ciwi.Base.Result.{Result, ok, err}
use ciwi.Base.Text.{trim_space}
use ciwi.Jobs.{JobExecution}
use ciwi.Status.{queued, leased, running, failed, normalize_job_execution_status}
use ciwi.Store.Table.{
  Table, StoreError, bad_max_age, update_by_id, rows_affected, list_job_executions,
}

-- The guards of the first loop. `now.Sub(leased)` is negative for a lease in the future, which is
-- less than any age.
unfoldable pub is_stale_lease : ℕ → ℕ → JobExecution → Bool
is_stale_lease now max_age job =
    normalize_job_execution_status job.status == leased
    && not (not (eqb job.leased_utc 0) && ltb now (job.leased_utc + max_age))

abbrev pub is_leased_row : JobExecution → Bool
is_leased_row row = row.status == leased

abbrev pub requeue_stale_row : JobExecution → JobExecution
requeue_stale_row row = record row {
  status = queued;
  leased_by_agent_id = "";
  leased_utc = 0;
  current_step = "";
}

-- A loop of conditional updates over the jobs that were listed before it. It returns the number of
-- rows changed.
unfoldable pub update_each :
    (JobExecution → Bool)
    → (JobExecution → Bool)
    → (JobExecution → JobExecution)
    → List JobExecution
    → Table
    → ℕ × Table
update_each chosen test change [] table = (0, table)
update_each chosen test change (job ∷ jobs) table =
    let skipped = update_each chosen test change jobs table in
    let (n, final) = update_each chosen test change jobs (update_by_id job.id test change table) in
    if chosen job then (rows_affected job.id test table + n, final) else skipped

unfoldable pub requeue_stale_leased_job_executions : ℕ → ℕ → Table → Result StoreError ℕ × Table
requeue_stale_leased_job_executions now max_age table =
    let (n, final) =
      update_each (is_stale_lease now max_age) is_leased_row requeue_stale_row
        (list_job_executions table) table in
    if eqb max_age 0 then (err bad_max_age, table) else (ok n, final)

-- `started + timeout + grace <= now`, for a positive timeout. The sum of the durations is an int64
-- and wraps around, so that its upper half is negative.
abbrev past_deadline : ℕ → ℕ → ℕ → ℤ → Bool
past_deadline now grace started (pos seconds) =
    let duration = (seconds * 1_000_000_000 + grace) % 2 ^ 64 in
    not (eqb seconds 0)
    && (if ltb duration (2 ^ 63)
        then leb (started + duration) now
        else leb (started + 2 ^ 64) (now + duration))
past_deadline now grace started (negsuc n) = false

unfoldable pub is_timed_out : ℕ → ℕ → JobExecution → Bool
is_timed_out now grace job =
    normalize_job_execution_status job.status == running
    && past_deadline now grace job.started_utc job.timeout_seconds
    && not (eqb job.started_utc 0)

abbrev pub is_running_row : JobExecution → Bool
is_running_row row = row.status == running

abbrev pub time_out_row : ℕ → String → JobExecution → JobExecution
time_out_row now reason row = record row {
  status = failed;
  finished_utc = now;
  error = reason;
  current_step = "";
}

unfoldable pub timeout_reason : String → String
timeout_reason raw =
    let reason = trim_space raw in
    if reason == "" then "job timed out while running (server maintenance)" else reason

-- The event that the source appends for each failed job goes to another table.
unfoldable pub fail_timed_out_running_job_executions : ℕ → ℕ → String → Table → ℕ × Table
fail_timed_out_running_job_executions now grace reason table =
    update_each (is_timed_out now grace) is_running_row (time_out_row now (timeout_reason reason))
      (list_job_executions table) table

-- `runJobExecutionMaintenancePass`, up to the reconciliation of blocked jobs that follows.
unfoldable pub run_job_execution_maintenance_pass : ℕ → Table → Table
run_job_execution_maintenance_pass now table =
    let requeued = (requeue_stale_leased_job_executions now 45_000_000_000 table).1 in
    (fail_timed_out_running_job_executions now 15_000_000_000
      "job timed out while running (server maintenance)" requeued).1
