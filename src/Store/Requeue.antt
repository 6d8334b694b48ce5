-- ===== src/Store/Requeue.antt =====
-- `RequeueLeasedJobExecution`: one transaction, so that no other writer comes in between.
use ciwi.Base.{String, Bool, not, ◌&&◌, none, some, ◌==◌, if◌then◌else◌}
use ciwi.Base.Dict.{Dict}
use ciwi.Base.Result.{Result, err}
use ciwi.Base.Text.{trim_space}
use ciwi.Jobs.{JobExecution}
use ciwi.Status.{queued, leased, normalize_job_execution_status}
use ciwi.Store.Table.{
  Table, StoreError, not_found, not_leased, leased_by_another, job_id_required, agent_id_required,
  changed_meanwhile, update_by_id, find_job, get_job_execution,
}
use ciwi.Store.Merge.{patch_map}

-- The test of the statement: the columns as they are stored, not normalized.
abbrev pub leased_to : String → JobExecution → Bool
leased_to agent_id row = row.status == leased && row.leased_by_agent_id == agent_id

abbrev pub requeue_row : Dict String → JobExecution → JobExecution
requeue_row metadata row = record row {
  status = queued;
  leased_by_agent_id = "";
  leased_utc = 0;
  current_step = "";
  request = record row.request { metadata = metadata };
}

-- A row that nothing leased yet has a NULL holder, on which the read of the code fails with the
-- driver's error; it is not leased, and here refused as that.
unfoldable pub requeue_found :
    String → String → Dict String → Table → JobExecution → Result StoreError JobExecution × Table
requeue_found job_id agent_id patch table job =
    let metadata = patch_map patch job.metadata in
    let table' = update_by_id job_id (leased_to agent_id) (requeue_row metadata) table in
    if not (normalize_job_execution_status job.status == leased)
    then (err not_leased, table)
    else if not (trim_space job.leased_by_agent_id == agent_id)
    then (err leased_by_another, table)
    else if leased_to agent_id job
    then (get_job_execution job_id table', table')
    else (err changed_meanwhile, table)

unfoldable pub requeue_leased_job_execution :
    String → String → Dict String → Table → Result StoreError JobExecution × Table
requeue_leased_job_execution raw_job raw_agent patch table =
    let job_id = trim_space raw_job in
    let agent_id = trim_space raw_agent in
    if job_id == ""
    then (err job_id_required, table)
    else if agent_id == ""
    then (err agent_id_required, table)
    else elim (find_job job_id table) [
      | none ↦ (err not_found, table)
      | some job ↦ requeue_found job_id agent_id patch table job
    ]
