-- ===== src/Store/Update/Laws.antt =====
-- What a status update can and cannot change.
use ciwi.Base.{
  ℕ, String, ◌≡◌, refl, ◌∙◌, ◌⊎◌, inl, inr, Bool, true, false, not, ◌&&◌, ◌||◌, Option, none, some,
  ◌==◌, if◌then◌else◌, Bool-cases, if-cases, ap,
}
use ciwi.Base.Result.{err}
use ciwi.Jobs.{JobExecution, JobExecutionStatusUpdateRequest}
use ciwi.Status.{
  succeeded, failed, is_terminal_job_execution_status, is_valid_job_execution_update_status,
}
use ciwi.Status.Laws.{valid-cases, terminal_words}
use ciwi.Store.Table.{Table, leased_by_another, find_job}
use ciwi.Store.Table.Laws.{find_job-update_by_id, changed}
use ciwi.Store.Update.{
  Plan, refuse, keep, write, status_write, is_late, plan_update, may_write, write_row, run_plan,
  update_between, update_job_execution_status,
}

-- The job has ended, by the text in its row.
abbrev pub has_ended : JobExecution → Bool
has_ended row = row.status == succeeded || row.status == failed

-- A plan that does not touch ended jobs.
abbrev pub Spares : Plan → Type 0
Spares (refuse e) = Unit
Spares (keep job) = Unit
Spares (write w) = w.spares_terminal ≡ true

status_write-spares :
    (req : JobExecutionStatusUpdateRequest) (now : ℕ) (job : JobExecution)
    → is_valid_job_execution_update_status req.status ≡ true
    → (status_write req now job).spares_terminal ≡ true
unfolding status_write
status_write-spares req now job valid = elim (valid-cases req.status valid) [
  | inl r ↦ rw r
  | inr t ↦ elim t [ inl s ↦ rw (s, terminal_words.1) | inr f ↦ rw (f, terminal_words.2) ]
]

pub plan_update-Spares :
    (req : JobExecutionStatusUpdateRequest) (now : ℕ) (found : Option JobExecution)
    → is_valid_job_execution_update_status req.status ≡ true
    → Spares (plan_update req now found)
unfolding plan_update
plan_update-Spares req now none valid = tt
plan_update-Spares req now (some job) valid = elim (Bool-cases (is_late req job)) [
  | inl late ↦ rw late tt
  | inr early ↦
      rw early (
        branch (not (job.leased_by_agent_id == "") && not (job.leased_by_agent_id == req.agent_id)))
]
  where
    branch :
        (b : Bool)
        → Spares (if b then refuse leased_by_another else write (status_write req now job))
    branch true = tt
    branch false = status_write-spares req now job valid

run_plan-ended :
    (job_id : String) (plan : Plan) (table : Table) (j : String) (row : JobExecution)
    → Spares plan
    → find_job j table ≡ some row
    → has_ended row ≡ true
    → find_job j (run_plan job_id plan table).1 ≡ some row
unfolding run_plan
run_plan-ended job_id (refuse e) table j row s found ended = found
run_plan-ended job_id (keep job) table j row s found ended = found
run_plan-ended job_id (write w) table j row s found ended =
    find_job-update_by_id job_id (may_write w) (write_row w) (λ r. refl) j table
    ∙ rw (found, s, ended) (branch (job_id == j))
  where
    branch : (b : Bool) → (if b then some row else some row) ≡ some row
    branch true = refl
    branch false = refl

-- A job that has ended stays as it is, whatever the update and whatever other writers did between
-- the read and the write of the update, if the update carries a status that agents may send.
pub update_between-ended :
    (job_id : String) (req : JobExecutionStatusUpdateRequest) (now : ℕ) (read table : Table)
    (j : String) (row : JobExecution)
    → is_valid_job_execution_update_status req.status ≡ true
    → find_job j table ≡ some row
    → has_ended row ≡ true
    → find_job j (update_between job_id req now read table).1 ≡ some row
unfolding update_between
update_between-ended job_id req now read table j row valid found ended =
    run_plan-ended job_id (plan_update req now (find_job job_id read)) table j row
      (plan_update-Spares req now (find_job job_id read) valid) found ended

run_plan-other :
    (job_id : String) (plan : Plan) (table : Table) (j : String)
    → (job_id == j) ≡ false
    → find_job j (run_plan job_id plan table).1 ≡ find_job j table
unfolding run_plan
run_plan-other job_id (refuse e) table j other = refl
run_plan-other job_id (keep job) table j other = refl
run_plan-other job_id (write w) table j other =
    find_job-update_by_id job_id (may_write w) (write_row w) (λ r. refl) j table ∙ rw other

-- An update touches no other job.
pub update_between-other :
    (job_id : String) (req : JobExecutionStatusUpdateRequest) (now : ℕ) (read table : Table)
    (j : String)
    → (job_id == j) ≡ false
    → find_job j (update_between job_id req now read table).1 ≡ find_job j table
unfolding update_between
update_between-other job_id req now read table j other =
    run_plan-other job_id (plan_update req now (find_job job_id read)) table j other

-- The agent that holds a job, in the row that was found.
abbrev pub holder : Option JobExecution → Option String
holder none = none
holder (some row) = some row.leased_by_agent_id

run_plan-holder :
    (job_id : String) (plan : Plan) (table : Table) (j : String)
    → holder (find_job j (run_plan job_id plan table).1) ≡ holder (find_job j table)
unfolding run_plan
run_plan-holder job_id (refuse e) table j = refl
run_plan-holder job_id (keep job) table j = refl
run_plan-holder job_id (write w) table j =
    ap holder (find_job-update_by_id job_id (may_write w) (write_row w) (λ r. refl) j table)
    ∙ kept (job_id == j) (find_job j table)
  where
    written :
        (row : JobExecution)
        → holder (changed (may_write w) (write_row w) (some row)) ≡ some row.leased_by_agent_id
    written row =
        if-cases (λ (r : JobExecution). some r.leased_by_agent_id ≡ some row.leased_by_agent_id)
          (may_write w row) (write_row w row) row (λ wrote. refl) (λ spared. refl)

    kept :
        (b : Bool) (found : Option JobExecution)
        → holder (if b then changed (may_write w) (write_row w) found else found) ≡ holder found
    kept true none = refl
    kept true (some row) = written row
    kept false found = refl

-- An update neither gives nor takes the lease of any job, whatever its status, the agent that it
-- names, and the other writers between its read and its write.
pub update_between-holder :
    (job_id : String) (req : JobExecutionStatusUpdateRequest) (now : ℕ) (read table : Table)
    (j : String)
    → holder (find_job j (update_between job_id req now read table).1) ≡ holder (find_job j table)
unfolding update_between
update_between-holder job_id req now read table j =
    run_plan-holder job_id (plan_update req now (find_job job_id read)) table j

-- An update of a job that has not ended is refused for its holder, or goes on to the write.
pub update_job_execution_status-outcome :
    (job_id : String) (req : JobExecutionStatusUpdateRequest) (now : ℕ) (table : Table)
    (row : JobExecution)
    → find_job job_id table ≡ some row
    → is_terminal_job_execution_status row.status ≡ false
    → (update_job_execution_status job_id req now table ≡ (err leased_by_another, table))
      ⊎ (update_job_execution_status job_id req now table
          ≡ run_plan job_id (write (status_write req now row)) table)
unfolding update_job_execution_status update_between plan_update is_late run_plan
update_job_execution_status-outcome job_id req now table row found going =
    elim (Bool-cases
      (not (row.leased_by_agent_id == "") && not (row.leased_by_agent_id == req.agent_id))) [
        | inl held ↦ inl (rw (found, going, held) refl)
        | inr free ↦ inr (rw (found, going, free) refl)
      ]
