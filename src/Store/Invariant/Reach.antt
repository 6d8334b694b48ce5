-- ===== src/Store/Invariant/Reach.antt =====
-- The tables that the program can reach. A step is one call of an operation by the server, at an
-- instant that is not before the end of the step before it.
use ciwi.Base.{ℕ, ◌+◌, ◌≤◌, ◌<◌, String, true, false, Option, List, [], ◌≡◌, ◌==◌, length, arith}
use ciwi.Base.Dict.{Dict}
use ciwi.Jobs.{CreateJobExecutionRequest, JobExecutionStatusUpdateRequest}
use ciwi.Requirements.Semver.{Semver}
use ciwi.Status.{is_valid_job_execution_update_status}
use ciwi.Store.Table.{Table}
use ciwi.Store.Create.{create_job_executions}
use ciwi.Store.Lease.{lease_job_execution}
use ciwi.Store.Update.{update_job_execution_status}
use ciwi.Store.Requeue.{requeue_leased_job_execution}
use ciwi.Store.Maintain.{requeue_stale_leased_job_executions, fail_timed_out_running_job_executions}
use ciwi.Store.Delete.{
  delete_queued_job_execution, clear_queued_job_executions, flush_job_execution_history,
  flush_job_execution_history_by_ids, flush_job_execution_history_by_agent,
}
use ciwi.Store.Delete.Laws.{
  delete_queued-All, clear_queued-All, flush_history-All, flush_by_ids-All, flush_by_agent-All,
}
use ciwi.Store.Merge.{
  merge_job_execution_env, merge_job_execution_metadata,
  set_job_execution_dependency_artifact_job_ids,
}
use ciwi.Store.Merge.Laws.{
  merge_job_execution_env-All, merge_job_execution_metadata-All, set_dependencies-All,
}
use ciwi.Store.Invariant.{IsSoundTable}
use ciwi.Store.Invariant.Steps.{IsSoundTable-later, update_job_execution_status_sound}
use ciwi.Store.Invariant.Moves.{
  requeue_stale_sound, fail_timed_out_sound, requeue_leased_sound, lease_job_execution_sound,
}
use ciwi.Store.Invariant.Rows.{
  with_env-IsSound, with_metadata-IsSound, with_dependencies-IsSound, create_job_executions_sound,
}

module _ (semver : Semver) (parse_time : String → Option ℕ) where
  -- A call at `now` that leaves the second table. The guards are those of the HTTP handlers: an
  -- update's status was validated, and a lease names its agent.
  pub data Call : ℕ → Table → Table → Type 0 where
    create :
        {now : ℕ} {table : Table} (requests : List CreateJobExecutionRequest)
        → Call now table (create_job_executions now requests table).1
    lease :
        {now : ℕ} {table : Table} (agent_id : String) (agent_caps : Dict String)
        → (agent_id == "") ≡ false
        → Call now table (lease_job_execution semver parse_time now agent_id agent_caps table).1
    update :
        {now : ℕ} {table : Table} (job_id : String) (req : JobExecutionStatusUpdateRequest)
        → is_valid_job_execution_update_status req.status ≡ true
        → Call now table (update_job_execution_status job_id req now table).1
    requeue :
        {now : ℕ} {table : Table} (job_id agent_id : String) (patch : Dict String)
        → Call now table (requeue_leased_job_execution job_id agent_id patch table).1
    requeue_stale :
        {now : ℕ} {table : Table} (max_age : ℕ)
        → Call now table (requeue_stale_leased_job_executions now max_age table).1
    fail_timed_out :
        {now : ℕ} {table : Table} (grace : ℕ) (reason : String)
        → Call now table (fail_timed_out_running_job_executions now grace reason table).1
    delete_queued :
        {now : ℕ} {table : Table} (job_id : String)
        → Call now table (delete_queued_job_execution job_id table).1
    clear_queued : {now : ℕ} {table : Table} → Call now table (clear_queued_job_executions table).1
    flush_history : {now : ℕ} {table : Table} → Call now table (flush_job_execution_history table).1
    flush_by_ids :
        {now : ℕ} {table : Table} (job_ids : List String)
        → Call now table (flush_job_execution_history_by_ids job_ids table).1
    flush_by_agent :
        {now : ℕ} {table : Table} (agent_id : String)
        → Call now table (flush_job_execution_history_by_agent agent_id table).1
    merge_env :
        {now : ℕ} {table : Table} (job_id : String) (patch : Dict String)
        → Call now table (merge_job_execution_env job_id patch table).1
    merge_metadata :
        {now : ℕ} {table : Table} (job_id : String) (patch : Dict String)
        → Call now table (merge_job_execution_metadata job_id patch table).1
    set_dependencies :
        {now : ℕ} {table : Table} (job_id : String) (ids : List String)
        → Call now table (set_job_execution_dependency_artifact_job_ids job_id ids table).1

  -- The instant after a call: creating rows uses one for each row.
  abbrev pub ends_at : {now : ℕ} {table table' : Table} → Call now table table' → ℕ
  ends_at {now} (create requests) = now + length requests
  ends_at {now} c = now

  -- The tables at an instant.
  pub data Reach : ℕ → Table → Type 0 where
    start : {now : ℕ} → 0 < now → Reach now []
    wait : {now next : ℕ} {table : Table} → now ≤ next → Reach now table → Reach next table
    call :
        {now : ℕ} {table table' : Table} (c : Call now table table')
        → Reach now table
        → Reach (ends_at c) table'

  Call-IsSoundTable :
      {now : ℕ} {table table' : Table} (c : Call now table table')
      → 0 < now
      → IsSoundTable now table
      → IsSoundTable (ends_at c) table'
  Call-IsSoundTable (create requests) p s =
      create_job_executions_sound _ _ requests _ (omega arith) s
  Call-IsSoundTable (lease agent_id caps named) p s =
      lease_job_execution_sound semver parse_time _ agent_id caps _ named s
  Call-IsSoundTable (update job_id req valid) p s =
      update_job_execution_status_sound job_id req _ _ valid p s
  Call-IsSoundTable (requeue job_id agent_id patch) p s =
      requeue_leased_sound job_id agent_id patch _ _ s
  Call-IsSoundTable (requeue_stale max_age) p s = requeue_stale_sound _ max_age _ s
  Call-IsSoundTable (fail_timed_out grace reason) p s = fail_timed_out_sound _ grace reason _ s
  Call-IsSoundTable (delete_queued job_id) p s = delete_queued-All _ job_id _ s
  Call-IsSoundTable clear_queued p s = clear_queued-All _ _ s
  Call-IsSoundTable flush_history p s = flush_history-All _ _ s
  Call-IsSoundTable (flush_by_ids job_ids) p s = flush_by_ids-All _ job_ids _ s
  Call-IsSoundTable (flush_by_agent agent_id) p s = flush_by_agent-All _ agent_id _ s
  Call-IsSoundTable (merge_env job_id patch) p s =
      merge_job_execution_env-All _ (with_env-IsSound _) job_id patch _ s
  Call-IsSoundTable (merge_metadata job_id patch) p s =
      merge_job_execution_metadata-All _ (with_metadata-IsSound _) job_id patch _ s
  Call-IsSoundTable (set_dependencies job_id ids) p s =
      set_dependencies-All _ (with_dependencies-IsSound _) job_id ids _ s

  ends_at-≤ : {now : ℕ} {table table' : Table} (c : Call now table table') → now ≤ ends_at c
  ends_at-≤ (create requests) = omega arith
  ends_at-≤ (lease agent_id caps named) = omega arith
  ends_at-≤ (update job_id req valid) = omega arith
  ends_at-≤ (requeue job_id agent_id patch) = omega arith
  ends_at-≤ (requeue_stale max_age) = omega arith
  ends_at-≤ (fail_timed_out grace reason) = omega arith
  ends_at-≤ (delete_queued job_id) = omega arith
  ends_at-≤ clear_queued = omega arith
  ends_at-≤ flush_history = omega arith
  ends_at-≤ (flush_by_ids job_ids) = omega arith
  ends_at-≤ (flush_by_agent agent_id) = omega arith
  ends_at-≤ (merge_env job_id patch) = omega arith
  ends_at-≤ (merge_metadata job_id patch) = omega arith
  ends_at-≤ (set_dependencies job_id ids) = omega arith

  Reach-positive : {now : ℕ} {table : Table} → Reach now table → 0 < now
  Reach-positive (start p) = p
  Reach-positive (wait h r) = omega (arith, h, Reach-positive r)
  Reach-positive (call c r) = omega (arith, ends_at-≤ c, Reach-positive r)

  -- Every table that the calls of the server reach is sound at its instant: the status of each
  -- row is one of the five words; a queued job has neither started nor a lease; a leased one has
  -- an agent and has not started; a running one has started and not finished; and of an ended job
  -- the creation, the start and the end are in order and past.
  pub Reach-IsSoundTable : {now : ℕ} {table : Table} → Reach now table → IsSoundTable now table
  Reach-IsSoundTable (start p) = tt
  Reach-IsSoundTable (wait h r) = IsSoundTable-later _ _ _ h (Reach-IsSoundTable r)
  Reach-IsSoundTable (call c r) = Call-IsSoundTable c (Reach-positive r) (Reach-IsSoundTable r)
