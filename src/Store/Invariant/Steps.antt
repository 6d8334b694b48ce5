-- ===== src/Store/Invariant/Steps.antt =====
-- Every operation keeps the rows sound.
use ciwi.Base.{
  ℕ, ◌≤◌, ◌<◌, String, Bool, true, false, not, ◌&&◌, ◌||◌, some, [], ◌∷◌, ◌≡◌, ◌⊎◌, refl, ap, ◌==◌,
  if◌then◌else◌, arith, eq_iff, Bool-cases, Option-cases, inl, inr, eqb,
}
use ciwi.Jobs.{JobExecution, JobExecutionStatusUpdateRequest}
use ciwi.Status.{
  running, succeeded, failed, normalize_job_execution_status, is_terminal_job_execution_status,
  is_valid_job_execution_update_status,
}
use ciwi.Status.Laws.{valid-cases, terminal_words}
use mathlib.Core.Path.{subst, sym, ◌∙◌}
use ciwi.Store.Table.{Table, leased_by_another, find_job}
use ciwi.Store.Table.Laws.{All-find_job, All-update_by_id}
use ciwi.Store.Invariant.{
  Phase, waiting, held, active, ended, unknown, phase, FitsPhase, IsSound, IsSoundTable,
}
use ciwi.Store.Update.{
  StatusWrite, refuse, write, is_late, status_write, started_after, plan_update, may_write,
  write_row, run_plan, update_between, update_job_execution_status,
}

-- Time passes.
later :
    (now next : ℕ) (p : Phase) (row : JobExecution)
    → now ≤ next
    → FitsPhase p now row
    → FitsPhase p next row
later now next waiting row h f = ground arith
later now next held row h f = ground arith
later now next active row h f = ground arith
later now next ended row h f = ground arith
later now next unknown row h f = f

pub IsSoundTable-later :
    (now next : ℕ) (table : Table) → now ≤ next → IsSoundTable now table → IsSoundTable next table
IsSoundTable-later now next [] h s = tt
IsSoundTable-later now next (row ∷ rows) h (r, s) =
    (later now next (phase row.status) row h r, IsSoundTable-later now next rows h s)

-- What the phases have in common.
record IsOrdered (now : ℕ) (row : JobExecution) : Type 0 where
  created : row.created_utc ≤ now
  started : row.started_utc ≤ now
  in_order : 0 < row.started_utc → row.created_utc ≤ row.started_utc

ordered : (p : Phase) (now : ℕ) (row : JobExecution) → FitsPhase p now row → IsOrdered now row
ordered waiting now row f = ground arith
ordered held now row f = ground arith
ordered active now row f = ground arith
ordered ended now row f = ground arith
ordered unknown now row f = absurd f

-- The start that an update writes, on a sound row.
record IsStart (now : ℕ) (row : JobExecution) (started : ℕ) : Type 0 where
  positive : 0 < started
  after_created : row.created_utc ≤ started
  before_now : started ≤ now

started_after-IsStart :
    (status : String) (now : ℕ) (row : JobExecution)
    → 0 < now
    → IsOrdered now row
    → (status == running || is_terminal_job_execution_status status) ≡ true
    → IsStart now row (started_after status now row)
unfolding started_after
started_after-IsStart status now row positive o h = rw h (split (eqb row.started_utc 0) refl)
  where
    split :
        (b : Bool)
        → eqb row.started_utc 0 ≡ b
        → IsStart now row (if b then now else row.started_utc)
    split true e = record {
      positive = positive;
      after_created = o.created;
      before_now = omega arith;
    }
    split false e = ground (arith, o.in_order)

-- A row that a running update was written to.
FitsPhase-running :
    (now : ℕ) (row : JobExecution) (w : StatusWrite)
    → w.status ≡ running
    → IsStart now row w.started
    → w.finished ≡ 0
    → IsSound now (write_row w row)
FitsPhase-running now row w s i f = rw s (ground arith)

FitsPhase-terminal :
    (now : ℕ) (row : JobExecution) (w : StatusWrite)
    → (w.status ≡ succeeded) ⊎ (w.status ≡ failed)
    → IsStart now row w.started
    → w.finished ≡ now
    → IsSound now (write_row w row)
FitsPhase-terminal now row w (inl s) i f = rw s (ground arith)
FitsPhase-terminal now row w (inr s) i f = rw s (ground arith)

phase_ended : (s : String) → phase s ≡ ended → (s ≡ succeeded) ⊎ (s ≡ failed)
phase_ended s e = ground (arith, eq_iff s succeeded, eq_iff s failed)

terminal_ended : (s : String) → is_terminal_job_execution_status s ≡ false → phase s ≡ ended → ⊥
terminal_ended s h e = elim (phase_ended s e) [
  | inl is ↦ cc (h, terminal_words.1, ap is_terminal_job_execution_status is)
  | inr is ↦ cc (h, terminal_words.2, ap is_terminal_job_execution_status is)
]

unfinished :
    (p : Phase) (now : ℕ) (row : JobExecution)
    → (p ≡ ended → ⊥)
    → FitsPhase p now row
    → row.finished_utc ≡ 0
unfinished waiting now row h f = f.1
unfinished held now row h f = f.1
unfinished active now row h f = f.3
unfinished ended now row h f = absurd (h refl)
unfinished unknown now row h f = absurd f

not_late_running :
    (req : JobExecutionStatusUpdateRequest) (row : JobExecution)
    → normalize_job_execution_status req.status ≡ running
    → is_late req row ≡ false
    → is_terminal_job_execution_status row.status ≡ false
unfolding is_late
not_late_running req row r h =
    ground (arith, eq_iff (normalize_job_execution_status req.status) running)

status_write-IsSound :
    (req : JobExecutionStatusUpdateRequest) (now : ℕ) (row : JobExecution)
    → is_valid_job_execution_update_status req.status ≡ true
    → is_late req row ≡ false
    → 0 < now
    → IsSound now row
    → IsSound now (write_row (status_write req now row) row)
status_write-IsSound req now row valid early positive s = elim (valid-cases req.status valid) [
  | inl r ↦
      FitsPhase-running now row (status_write req now row) (unfold status_write in r)
        (unfold status_write in start (rw r))
        (unfold status_write in
          rw (r, terminal_words.0)
            (unfinished (phase row.status) now row
              (terminal_ended row.status (not_late_running req row r early)) s))
  | inr t ↦
      FitsPhase-terminal now row (status_write req now row) (unfold status_write in t)
        (unfold status_write in start (rw (ends t) (ground arith)))
        (unfold status_write in rw (ends t))
]
  where
    start :
        (normalize_job_execution_status req.status == running
            || is_terminal_job_execution_status (normalize_job_execution_status req.status))
          ≡ true
        → IsStart now row (started_after (normalize_job_execution_status req.status) now row)
    start h =
        started_after-IsStart (normalize_job_execution_status req.status) now row positive
          (ordered (phase row.status) now row s) h

    ends :
        (normalize_job_execution_status req.status ≡ succeeded)
          ⊎ (normalize_job_execution_status req.status ≡ failed)
        → is_terminal_job_execution_status (normalize_job_execution_status req.status) ≡ true
    ends (inl e) = rw e terminal_words.1
    ends (inr e) = rw e terminal_words.2

same_row : (x a : JobExecution) → some x ≡ some a → x ≡ a
same_row x a h = cc h

run_plan_found :
    (job_id : String) (req : JobExecutionStatusUpdateRequest) (now : ℕ) (table : Table)
    (row : JobExecution)
    → find_job job_id table ≡ some row
    → is_valid_job_execution_update_status req.status ≡ true
    → 0 < now
    → IsSoundTable now table
    → IsSoundTable now (run_plan job_id (plan_update req now (find_job job_id table)) table).1
unfolding plan_update run_plan
run_plan_found job_id req now table row found valid positive s =
    rw found (elim (Bool-cases (is_late req row)) [
      | inl late ↦ rw late s
      | inr early ↦ rw early (branch early foreign)
    ])
  where
    foreign : Bool
    foreign = not (row.leased_by_agent_id == "") && not (row.leased_by_agent_id == req.agent_id)

    w : StatusWrite
    w = status_write req now row

    branch :
        is_late req row ≡ false
        → (b : Bool)
        → IsSoundTable now
            (run_plan job_id (if b then refuse leased_by_another else write w) table).1
    branch early true = s
    branch early false =
        All-update_by_id (IsSound now) job_id (may_write w) (write_row w) table
          (λ x e t sx.
            subst (λ r. IsSound now (write_row w r)) (same_row row x (sym found ∙ e))
              (status_write-IsSound req now row valid early positive
                (All-find_job (IsSound now) job_id table s found)))
          s

-- A status update by an agent keeps every row sound.
pub update_job_execution_status_sound :
    (job_id : String) (req : JobExecutionStatusUpdateRequest) (now : ℕ) (table : Table)
    → is_valid_job_execution_update_status req.status ≡ true
    → 0 < now
    → IsSoundTable now table
    → IsSoundTable now (update_job_execution_status job_id req now table).1
unfolding update_job_execution_status update_between
update_job_execution_status_sound job_id req now table valid positive s =
    elim (Option-cases (find_job job_id table)) [
      | inl absent ↦ unfold plan_update run_plan in rw absent s
      | inr (row, found) ↦ run_plan_found job_id req now table row found valid positive s
    ]
