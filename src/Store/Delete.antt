-- ===== src/Store/Delete.antt =====
-- `DeleteQueuedJobExecution`, `ClearQueuedJobExecutions` and the three ways to flush the history.
pub mod Laws
use ciwi.Base.{
  ℕ, String, Bool, true, false, not, ◌&&◌, ◌||◌, Option, none, some, List, [], ◌∷◌, ◌==◌,
  if◌then◌else◌, select, map, delete_where, count_where,
}
use ciwi.Base.Result.{Result, ok, err}
use ciwi.Base.Text.{trim_space}
use ciwi.Base.Unique.{trim_unique}
use ciwi.Jobs.{JobExecution}
use ciwi.Metadata.{value, key_adhoc_agent_id}
use ciwi.Status.{queued, leased, running, normalize_job_execution_status}
use ciwi.Store.Table.{
  Table, StoreError, not_found, not_pending, agent_id_required, find_job, list_job_executions,
  has_id,
}

abbrev pub is_pending_row : JobExecution → Bool
is_pending_row row = row.status == queued || row.status == leased

unfoldable pub delete_queued_job_execution : String → Table → Result StoreError (Unit {0}) × Table
delete_queued_job_execution job_id table = elim (find_job job_id table) [
  | none ↦ (err not_found, table)
  | some row ↦
      if is_pending_row row
      then (ok tt, delete_where (λ r. has_id job_id r && is_pending_row r) table)
      else (err not_pending, table)
]

unfoldable pub clear_queued_job_executions : Table → ℕ × Table
clear_queued_job_executions table =
    (count_where is_pending_row table, delete_where is_pending_row table)

-- `status NOT IN (queued, leased, running)`.
abbrev pub is_history_row : JobExecution → Bool
is_history_row row = not (row.status == queued || row.status == leased || row.status == running)

flush_found : Bool → String → (Table → List String × Table) → Table → List String × Table
flush_found false id rest t = rest t
flush_found true id rest t =
    let (deleted, final) = rest (delete_where (λ r. has_id id r && is_history_row r) t) in
    (id ∷ deleted, final)

-- The loop of `flushJobExecutionHistoryIDs`: the ids that it deleted, and the table.
unfoldable pub flush_ids : List String → Table → List String × Table
unfolding flush_found
flush_ids [] table = ([], table)
flush_ids (id ∷ ids) table = elim (find_job id table) [
  | none ↦ flush_ids ids table
  | some row ↦ flush_found (is_history_row row) id (flush_ids ids) table
]

-- The test of the loops that collect candidates.
unfoldable pub is_inactive : JobExecution → Bool
is_inactive job =
    let status = normalize_job_execution_status job.status in
    not (status == queued || status == leased || status == running)

unfoldable pub flush_job_execution_history : Table → List String × Table
flush_job_execution_history table =
    flush_ids (map (λ job. job.id) (select is_inactive (list_job_executions table))) table

unfoldable pub flush_job_execution_history_by_ids : List String → Table → List String × Table
flush_job_execution_history_by_ids job_ids table = flush_ids (trim_unique job_ids) table

-- The jobs of an agent: those that it leased, and the ad hoc ones that were meant for it.
unfoldable pub is_job_of : String → JobExecution → Bool
is_job_of agent_id job =
    trim_space job.leased_by_agent_id == agent_id
    || value job.metadata key_adhoc_agent_id == agent_id

unfoldable pub flush_job_execution_history_by_agent :
    String → Table → Result StoreError (List String) × Table
flush_job_execution_history_by_agent raw table =
    let agent_id = trim_space raw in
    let jobs =
      select (λ job. is_inactive job && is_job_of agent_id job) (list_job_executions table) in
    let (deleted, final) = flush_ids (map (λ job. job.id) jobs) table in
    if agent_id == "" then (err agent_id_required, table) else (ok deleted, final)
