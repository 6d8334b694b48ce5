-- ===== src/Store/Lease.antt =====
-- `LeaseJobExecution`, `AgentHasActiveJobExecution` and `ListActiveJobExecutionAgentIDs`.
-- `parse_time` stands for `time.Parse(time.RFC3339Nano, …)`; `semver` as in Requirements.
pub mod Laws
use ciwi.Base.{
  ℕ, String, Bool, true, false, not, ◌&&◌, ◌||◌, Option, none, some, List, [], ◌∷◌, ◌==◌,
  if◌then◌else◌, ltb, eqb, find_where, select, any, map,
}
use ciwi.Base.Dict.{Dict}
use ciwi.Base.Result.{Result, ok, err}
use ciwi.Base.Text.{trim_space}
use ciwi.Base.Unique.{trim_unique}
use ciwi.Jobs.{JobExecution}
use ciwi.Metadata.{
  Metadata, flag, value, key_chain_blocked, key_needs_blocked, key_scheduling_blocked,
  key_scheduling_retry_utc,
}
use ciwi.Requirements.{match_capabilities}
use ciwi.Requirements.Semver.{Semver}
use ciwi.Status.{queued, leased, running}
use ciwi.Store.Table.{
  Table, StoreError, agent_id_required, update_by_id, rows_affected, find_job,
  list_queued_job_executions,
}

abbrev pub is_queued_row : JobExecution → Bool
is_queued_row row = row.status == queued

abbrev pub lease_row : ℕ → String → JobExecution → JobExecution
lease_row now agent_id row = record row {
  status = leased;
  leased_by_agent_id = agent_id;
  leased_utc = now;
}

module _ (semver : Semver) (parse_time : String → Option ℕ) where
  -- `capabilitiesMatch`.
  unfoldable pub capabilities_match : Dict String → Dict String → Bool
  capabilities_match agent_capabilities required_capabilities =
      (match_capabilities semver required_capabilities agent_capabilities).matches

  -- A temporary blocker holds until its retry time, and for good where that cannot be read.
  unfoldable pub scheduling_holds : ℕ → Metadata → Bool
  scheduling_holds now metadata =
      if flag metadata key_scheduling_blocked
      then (elim (parse_time (value metadata key_scheduling_retry_utc)) [
        | none ↦ true
        | some retry_utc ↦ ltb now retry_utc
      ])
      else false

  -- The guards of the loop, in its order.
  unfoldable pub can_lease : ℕ → Dict String → JobExecution → Bool
  can_lease now agent_caps job =
      not (flag job.metadata key_chain_blocked)
      && not (flag job.metadata key_needs_blocked)
      && not (scheduling_holds now job.metadata)
      && capabilities_match agent_caps job.required_capabilities

  -- The loop over the jobs that were listed. Other writers may have changed the table since, so a
  -- listed job need not be queued any more; then its `UPDATE` affects no row and the loop goes on.
  unfoldable pub lease_from :
      ℕ → String → Dict String → List JobExecution → Table → Option JobExecution × Table
  lease_from now agent_id agent_caps [] table = (none, table)
  lease_from now agent_id agent_caps (job ∷ jobs) table =
      let rest = lease_from now agent_id agent_caps jobs table in
      let table' = update_by_id job.id is_queued_row (lease_row now agent_id) table in
      if not (can_lease now agent_caps job)
      then rest
      else if eqb (rows_affected job.id is_queued_row table) 0
      then rest
      else (find_job job.id table', table')

  -- `LeaseJobExecution`, with no other writer between its statements.
  unfoldable pub lease_job_execution :
      ℕ → String → Dict String → Table → Option JobExecution × Table
  lease_job_execution now agent_id agent_caps table =
      lease_from now agent_id agent_caps (list_queued_job_executions table) table

-- The rows that occupy an agent.
unfoldable pub is_occupied : JobExecution → Bool
is_occupied row = row.status == leased || row.status == running

unfoldable pub agent_has_active_job_execution : String → Table → Result StoreError Bool
agent_has_active_job_execution raw table =
    let agent_id = trim_space raw in
    if agent_id == ""
    then err agent_id_required
    else ok (any (λ row. row.leased_by_agent_id == agent_id && is_occupied row) table)

-- The set of agents, as a list without repetition.
unfoldable pub list_active_job_execution_agent_ids : Table → List String
list_active_job_execution_agent_ids table =
    trim_unique (map (λ row. row.leased_by_agent_id) (select is_occupied table))
