-- ===== src/Store/Delete/Laws.antt =====
-- What deletions leave: every remaining row was there before.
use ciwi.Base.{
  String, Bool, true, false, ◌&&◌, Option, none, some, List, [], ◌∷◌, ◌==◌, if◌then◌else◌, All,
  All-delete_where, delete_where, if-cases, select, map,
}
use ciwi.Base.Result.{Result, ok, err}
use ciwi.Base.Text.{trim_space}
use ciwi.Base.Unique.{trim_unique}
use ciwi.Jobs.{JobExecution}
use ciwi.Store.Table.{
  Table, StoreError, not_found, not_pending, has_id, find_job, list_job_executions,
}
use ciwi.Store.Table.Laws.{Leaves}
use ciwi.Store.Delete.{
  is_pending_row, is_history_row, is_inactive, flush_found, flush_ids, delete_queued_job_execution,
  clear_queued_job_executions, flush_job_execution_history, flush_job_execution_history_by_ids,
  flush_job_execution_history_by_agent,
}

module _ {κ} (P : JobExecution → Type κ) where
  flush_found-All :
      (b : Bool) (id : String) (rest : Table → List String × Table) (table : Table)
      → All P (rest table).1
      → All P (rest (delete_where (λ r. has_id id r && is_history_row r) table)).1
      → All P (flush_found b id rest table).1
  unfolding flush_found
  flush_found-All true id rest table skipped deleted = deleted
  flush_found-All false id rest table skipped deleted = skipped

  flush_ids-All : (ids : List String) (table : Table) → All P table → All P (flush_ids ids table).1
  unfolding flush_ids
  flush_ids-All [] table h = h
  flush_ids-All (id ∷ ids) table h =
      found (find_job id table) (flush_ids-All ids table h)
        (flush_ids-All ids _ (All-delete_where P (λ r. has_id id r && is_history_row r) table h))
    where
      found :
          (o : Option JobExecution)
          → All P (flush_ids ids table).1
          → All P (flush_ids ids (delete_where (λ r. has_id id r && is_history_row r) table)).1
          → All P
              (elim o as (λ x. List String × Table) [
                | none ↦ flush_ids ids table
                | some row ↦ flush_found (is_history_row row) id (flush_ids ids) table
              ]).1
      found none skipped deleted = skipped
      found (some row) skipped deleted =
          flush_found-All (is_history_row row) id (flush_ids ids) table skipped deleted

  pub delete_queued-All :
      (job_id : String) (table : Table)
      → All P table
      → All P (delete_queued_job_execution job_id table).1
  unfolding delete_queued_job_execution
  delete_queued-All job_id table h = found (find_job job_id table)
    where
      found :
          (o : Option JobExecution)
          → All P
              (elim o as (λ x. Result StoreError (Unit {0}) × Table) [
                | none ↦ (err not_found, table)
                | some row ↦
                    if is_pending_row row
                    then (ok tt, delete_where (λ r. has_id job_id r && is_pending_row r) table)
                    else (err not_pending, table)
              ]).1
      found none = h
      found (some row) =
          if-cases (Leaves {A = Result StoreError (Unit {0})} P) (is_pending_row row) _ _
            (λ e. All-delete_where P (λ r. has_id job_id r && is_pending_row r) table h) (λ e. h)

  pub clear_queued-All : (table : Table) → All P table → All P (clear_queued_job_executions table).1
  unfolding clear_queued_job_executions
  clear_queued-All table h = All-delete_where P is_pending_row table h

  pub flush_history-All :
      (table : Table) → All P table → All P (flush_job_execution_history table).1
  unfolding flush_job_execution_history
  flush_history-All table h =
      flush_ids-All (map (λ job. job.id) (select is_inactive (list_job_executions table))) table h

  pub flush_by_ids-All :
      (job_ids : List String) (table : Table)
      → All P table
      → All P (flush_job_execution_history_by_ids job_ids table).1
  unfolding flush_job_execution_history_by_ids
  flush_by_ids-All job_ids table h = flush_ids-All (trim_unique job_ids) table h

  pub flush_by_agent-All :
      (raw : String) (table : Table)
      → All P table
      → All P (flush_job_execution_history_by_agent raw table).1
  unfolding flush_job_execution_history_by_agent
  flush_by_agent-All raw table h =
      if-cases (Leaves P) (trim_space raw == "") _ _ (λ e. h) (λ e. flush_ids-All _ table h)
