-- ===== src/Store/Invariant/Moves.antt =====
-- The conditional statements of the scheduler keep the rows sound: the lease, the two ways back
-- into the queue, and the timeout.
use ciwi.Base.{
  ℕ, String, Bool, true, false, not, Option, none, some, List, [], ◌∷◌, ◌≡◌, ◌==◌, All, arith,
  eq_iff, if-cases, eqb,
}
use ciwi.Base.Dict.{Dict}
use ciwi.Jobs.{JobExecution}
use ciwi.Requirements.Semver.{Semver}
use ciwi.Status.{queued, leased, running, normalize_job_execution_status}
use mathlib.Core.Path.{subst}
use ciwi.Base.Result.{Result, err}
use ciwi.Base.Text.{trim_space}
use ciwi.Store.Merge.{patch_map}
use ciwi.Store.Table.{
  Table, StoreError, not_found, rows_affected, find_job, update_by_id, list_job_executions,
  list_queued_job_executions,
}
use ciwi.Store.Table.Laws.{Leaves, All-update_by_id}
use ciwi.Store.Invariant.{waiting, held, active, FitsPhase, phase, IsSound, IsSoundTable}
use ciwi.Store.Lease.{is_queued_row, lease_row, lease_from, lease_job_execution, can_lease}
use ciwi.Store.Requeue.{leased_to, requeue_row, requeue_found, requeue_leased_job_execution}
use ciwi.Store.Maintain.{
  is_leased_row, requeue_stale_row, update_each, is_stale_lease, is_timed_out, timeout_reason,
  requeue_stale_leased_job_executions, is_running_row, time_out_row,
  fail_timed_out_running_job_executions,
}

-- The row's phase, where its status was tested.
at_word :
    (now : ℕ) (row : JobExecution) (word : String)
    → (row.status == word) ≡ true
    → IsSound now row
    → FitsPhase (phase word) now row
at_word now row word h s =
    subst (λ status. FitsPhase (phase status) now row) ((eq_iff row.status word).0 h) s

lease_row-IsSound :
    (now : ℕ) (agent_id : String) (row : JobExecution)
    → (agent_id == "") ≡ false
    → is_queued_row row ≡ true
    → IsSound now row
    → IsSound now (lease_row now agent_id row)
lease_row-IsSound now agent_id row named q s = leased_fields (at_word now row queued q s)
  where
    leased_fields : FitsPhase waiting now row → IsSound now (lease_row now agent_id row)
    leased_fields f = ground arith

requeue_stale_row-IsSound :
    (now : ℕ) (row : JobExecution)
    → is_leased_row row ≡ true
    → IsSound now row
    → IsSound now (requeue_stale_row row)
requeue_stale_row-IsSound now row q s = queued_fields (at_word now row leased q s)
  where
    queued_fields : FitsPhase held now row → IsSound now (requeue_stale_row row)
    queued_fields f = ground arith

requeue_row-IsSound :
    (now : ℕ) (agent_id : String) (metadata : Dict String) (row : JobExecution)
    → leased_to agent_id row ≡ true
    → IsSound now row
    → IsSound now (requeue_row metadata row)
requeue_row-IsSound now agent_id metadata row q s =
    queued_fields (at_word now row leased (ground (arith, q)) s)
  where
    queued_fields : FitsPhase held now row → IsSound now (requeue_row metadata row)
    queued_fields f = ground arith

time_out_row-IsSound :
    (now : ℕ) (reason : String) (row : JobExecution)
    → is_running_row row ≡ true
    → IsSound now row
    → IsSound now (time_out_row now reason row)
time_out_row-IsSound now reason row q s = failed_fields (at_word now row running q s)
  where
    failed_fields : FitsPhase active now row → IsSound now (time_out_row now reason row)
    failed_fields f = ground arith

-- A loop of conditional updates whose statement keeps a predicate keeps it too.
update_each-All {κ} :
    (P : JobExecution → Type κ) (chosen test : JobExecution → Bool)
    (change : JobExecution → JobExecution)
    → ((row : JobExecution) → test row ≡ true → P row → P (change row))
    → (jobs : List JobExecution) (table : Table) → All P table
    → All P (update_each chosen test change jobs table).1
unfolding update_each
update_each-All P chosen test change keep [] table h = h
update_each-All P chosen test change keep (job ∷ jobs) table h =
    if-cases (Leaves P) (chosen job) _ _
      (λ e.
        update_each-All P chosen test change keep jobs (update_by_id job.id test change table)
          (All-update_by_id P job.id test change table (λ row found. keep row) h))
      (λ e. update_each-All P chosen test change keep jobs table h)

pub requeue_stale_sound :
    (now max_age : ℕ) (table : Table)
    → IsSoundTable now table
    → IsSoundTable now (requeue_stale_leased_job_executions now max_age table).1
unfolding requeue_stale_leased_job_executions
requeue_stale_sound now max_age table s =
    if-cases (Leaves (IsSound now)) (eqb max_age 0) _ _ (λ e. s)
      (λ e.
        update_each-All (IsSound now) (is_stale_lease now max_age) is_leased_row requeue_stale_row
          (requeue_stale_row-IsSound now) (list_job_executions table) table s)

pub fail_timed_out_sound :
    (now grace : ℕ) (reason : String) (table : Table)
    → IsSoundTable now table
    → IsSoundTable now (fail_timed_out_running_job_executions now grace reason table).1
unfolding fail_timed_out_running_job_executions
fail_timed_out_sound now grace reason table s =
    update_each-All (IsSound now) (is_timed_out now grace) is_running_row
      (time_out_row now (timeout_reason reason)) (time_out_row-IsSound now (timeout_reason reason))
      (list_job_executions table) table s

pub requeue_leased_sound :
    (raw_job raw_agent : String) (patch : Dict String) (now : ℕ) (table : Table)
    → IsSoundTable now table
    → IsSoundTable now (requeue_leased_job_execution raw_job raw_agent patch table).1
unfolding requeue_leased_job_execution requeue_found
requeue_leased_sound raw_job raw_agent patch now table s =
    if-cases (Leaves (IsSound now)) (trim_space raw_job == "") _ _ (λ e. s)
      (λ e.
        if-cases (Leaves (IsSound now)) (trim_space raw_agent == "") _ _ (λ e. s)
          (λ e. found (find_job (trim_space raw_job) table)))
  where
    found :
        (o : Option JobExecution)
        → Leaves {A = Result StoreError JobExecution} (IsSound now) (elim o [
          | none ↦ (err not_found, table)
          | some job ↦ requeue_found (trim_space raw_job) (trim_space raw_agent) patch table job
        ])
    found none = s
    found (some job) =
        if-cases (Leaves (IsSound now)) (not (normalize_job_execution_status job.status == leased))
          _ _ (λ e. s)
          (λ e.
            if-cases (Leaves (IsSound now))
              (not (trim_space job.leased_by_agent_id == trim_space raw_agent)) _ _ (λ e. s)
              (λ e.
                if-cases (Leaves (IsSound now)) (leased_to (trim_space raw_agent) job) _ _
                  (λ e.
                    All-update_by_id (IsSound now) (trim_space raw_job)
                      (leased_to (trim_space raw_agent))
                      (requeue_row (patch_map patch job.metadata)) table
                      (λ row e.
                        requeue_row-IsSound now (trim_space raw_agent)
                          (patch_map patch job.metadata) row)
                      s)
                  (λ e. s)))

module _ (semver : Semver) (parse_time : String → Option ℕ) where
  pub lease_from-All {κ} :
      (P : JobExecution → Type κ) (now : ℕ) (agent_id : String) (agent_caps : Dict String)
      → ((row : JobExecution) → is_queued_row row ≡ true → P row → P (lease_row now agent_id row))
      → (jobs : List JobExecution) (table : Table) → All P table
      → All P (lease_from semver parse_time now agent_id agent_caps jobs table).1
  unfolding lease_from
  lease_from-All P now agent_id agent_caps keep [] table h = h
  lease_from-All P now agent_id agent_caps keep (job ∷ jobs) table h =
      let rest = lease_from-All P now agent_id agent_caps keep jobs table h in
      if-cases (Leaves P) (not (can_lease semver parse_time now agent_caps job)) _ _ (λ e. rest)
        (λ e.
          if-cases (Leaves P) (eqb (rows_affected job.id is_queued_row table) 0) _ _ (λ e. rest)
            (λ e.
              All-update_by_id P job.id is_queued_row (lease_row now agent_id) table
                (λ row found. keep row) h))

  pub lease_job_execution_sound :
      (now : ℕ) (agent_id : String) (agent_caps : Dict String) (table : Table)
      → (agent_id == "") ≡ false
      → IsSoundTable now table
      → IsSoundTable now (lease_job_execution semver parse_time now agent_id agent_caps table).1
  unfolding lease_job_execution
  lease_job_execution_sound now agent_id agent_caps table named s =
      lease_from-All (IsSound now) now agent_id agent_caps
        (λ row q. lease_row-IsSound now agent_id row named q) (list_queued_job_executions table)
        table s
