-- ===== src/Store/Race.antt =====
-- A status update that another writer overtakes: its statement tests the status of the row only, so
-- a lease that was given after the read does not stop it.
use ciwi.Base.{
  ℕ, String, Bool, true, false, not, ◌&&◌, ◌||◌, some, ◌≡◌, refl, ◌∙◌, ◌==◌, if◌then◌else◌, eq_refl,
}
use ciwi.Jobs.{JobExecution, JobExecutionStatusUpdateRequest}
use ciwi.Status.{
  succeeded, failed, normalize_job_execution_status, is_terminal_job_execution_status,
}
use ciwi.Store.Table.{Table, find_job}
use ciwi.Store.Table.Laws.{find_job-update_by_id}
use ciwi.Store.Update.{
  StatusWrite, status_write, is_late, plan_update, may_write, write_row, run_plan, update_between,
}

late_queued :
    (req : JobExecutionStatusUpdateRequest) (job : JobExecution)
    → is_terminal_job_execution_status job.status ≡ false
    → is_late req job ≡ false
unfolding is_late
late_queued req job h = rw h

-- The update was read when the job had neither ended nor a holder. By the time it is written
-- another agent may have leased the job: unless the job has ended, the row then has the status of
-- the update, and is still held by the other agent since its lease.
pub update_between-overtakes_lease :
    (job_id : String) (req : JobExecutionStatusUpdateRequest) (now : ℕ) (read table : Table)
    (before row : JobExecution)
    → find_job job_id read ≡ some before
    → is_terminal_job_execution_status before.status ≡ false
    → (before.leased_by_agent_id == "") ≡ true
    → find_job job_id table ≡ some row
    → (row.status == succeeded || row.status == failed) ≡ false
    → (after : JobExecution) × (find_job job_id (update_between job_id req now read table).1
        ≡ some after)
      × (after.status ≡ normalize_job_execution_status req.status)
      × (after.leased_by_agent_id ≡ row.leased_by_agent_id)
      × (after.leased_utc ≡ row.leased_utc)
unfolding update_between plan_update run_plan status_write
update_between-overtakes_lease job_id req now read table before row was going free found live = (
  write_row w row,
  rw (was, late_queued req before going, free)
      (find_job-update_by_id job_id (may_write w) (write_row w) (λ r. refl) job_id table
        ∙ rw (eq_refl job_id, found, live) (spared w.spares_terminal)),
  refl,
  refl,
  refl,
)
  where
    w : StatusWrite
    w = status_write req now before

    spared :
        (b : Bool)
        → some (if not (b && false) then write_row w row else row) ≡ some (write_row w row)
    spared true = refl
    spared false = refl
