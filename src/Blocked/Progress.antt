-- ===== src/Blocked/Progress.antt =====
-- A move of one job that succeeds takes one of its blocks away, or ends the job.
use ciwi.Base.{
  ℕ, ◌<◌, String, ◌≡◌, refl, sym, ap, subst, ◌∙◌, inl, inr, true, false, some, ◌∷◌, arith, ◌==◌,
  eq_iff, Bool-cases, Option-cases, if-cases,
}
use ciwi.Base.Dict.{Dict}
use ciwi.Base.Result.{Result, ok, err}
use ciwi.Base.Text.{trim_space}
use ciwi.Blocked.{
  World, JobEvent, fail_event, merge_job_metadata, append_event, fail_update, failed_request,
  ◌then◌, fail_blocked_job,
}
use ciwi.Blocked.Measure.{blocks, blocks_of, ids_of, Moved, update_by_id-Moved, Moved-then}
use ciwi.Blocked.Reconcile.{is_queued_job}
use ciwi.Jobs.{JobExecution}
use ciwi.Status.{
  queued, failed, succeeded, normalize_job_execution_status, is_terminal_job_execution_status,
}
use ciwi.Store.Table.{Table, StoreError, find_job, get_job_execution}
use ciwi.Store.Update.{run_plan, status_write, may_write, write_row}
use ciwi.Store.Merge.{patch_map, with_metadata, always}
use ciwi.Store.Merge.Laws.{merge_job_execution_metadata-outcome}
use ciwi.Store.Update.Laws.{update_job_execution_status-outcome}
use ciwi.Status.Laws.{normal_words}

-- What holds of the world that a step leaves, where it has no error.
abbrev pub OnSuccess {ℓ} : {A : Type 0} → (World → Type ℓ) → Result StoreError A × World → Type ℓ
OnSuccess Q r = elim r.0 [ ok a ↦ Q r.1 | err e ↦ Unit ]

pub then-OnSuccess :
    (Q R : World → Type 0) (r : Result StoreError (Unit {0}) × World)
    (next : World → Result StoreError (Unit {0}) × World)
    → OnSuccess Q r
    → ((w : World) → Q w → OnSuccess R (next w))
    → OnSuccess R (r then next)
then-OnSuccess Q R (ok done, w) next h k = k w h
then-OnSuccess Q R (err e, w) next h k = tt

pub OnSuccess-map :
    {A : Type 0} (Q R : World → Type 0) (r : Result StoreError A × World)
    → OnSuccess Q r
    → ((w : World) → Q w → R w)
    → OnSuccess R r
OnSuccess-map Q R (ok a, w) h k = k w h
OnSuccess-map Q R (err e, w) h k = tt

pub merge_job_metadata-Moved :
    (job_id key v : String) (patch : Dict String) (w : World) (row : JobExecution)
    → find_job job_id w.jobs ≡ some row
    → OnSuccess
        (λ w'.
          Moved w.jobs row (with_metadata (patch_map ((key, v) ∷ patch) row.metadata) row) w'.jobs)
        (merge_job_metadata job_id ((key, v) ∷ patch) w)
unfolding merge_job_metadata
merge_job_metadata-Moved job_id key v patch w row found =
    let values = patch_map ((key, v) ∷ patch) row.metadata in
    elim (merge_job_execution_metadata-outcome job_id key v patch w.jobs row found) [
      | inl refused ↦ rw (refused, merge_job_metadata) tt
      | inr written ↦
          rw (written, merge_job_metadata)
            (update_by_id-Moved job_id (with_metadata values) always w.jobs row (λ r. refl) found
              refl)
    ]

waiting_not_terminal :
    (job : JobExecution)
    → is_queued_job job ≡ true
    → is_terminal_job_execution_status job.status ≡ false
unfolding is_terminal_job_execution_status
waiting_not_terminal job waits =
    rw ((eq_iff (normalize_job_execution_status job.status) queued).0 waits) refl

waiting_not_word :
    (job : JobExecution) (word : String)
    → normalize_job_execution_status word ≡ word
    → (word == queued) ≡ false
    → is_queued_job job ≡ true
    → (job.status == word) ≡ false
waiting_not_word job word normal other waits =
    let n = normalize_job_execution_status job.status in
    elim (Bool-cases (job.status == word)) [
      | inl same ↦
          let e : n ≡ word =
            ap normalize_job_execution_status ((eq_iff job.status word).0 same) ∙ normal in
          absurd (ground (arith, eq_iff word queued, eq_iff n queued, e))
      | inr apart ↦ apart
    ]

may_fail :
    (now : ℕ) (job : JobExecution) (agent_id reason : String)
    → is_queued_job job ≡ true
    → may_write (status_write (failed_request agent_id reason) now job) job ≡ true
may_fail now job agent_id reason waits = ground (
  arith,
  waiting_not_word job succeeded normal_words.3 refl waits,
  waiting_not_word job failed normal_words.4 refl waits,
)

writes_failed :
    (now : ℕ) (job : JobExecution) (agent_id reason : String)
    → (status_write (failed_request agent_id reason) now job).status ≡ failed
unfolding status_write
writes_failed now job agent_id reason = normal_words.4

fail_update-Moved :
    (now : ℕ) (job : JobExecution) (agent_id reason : String) (w : World)
    → find_job job.id w.jobs ≡ some job
    → is_queued_job job ≡ true
    → OnSuccess
        (λ w'.
          (row : JobExecution) × Moved w.jobs job row w'.jobs
          × (row.status ≡ failed)
          × (row.id ≡ job.id))
        (fail_update now job agent_id reason w)
unfolding fail_update run_plan get_job_execution
fail_update-Moved now job agent_id reason w found waits =
    let req = failed_request agent_id reason in
    let write = status_write req now job in
    let moved =
      update_by_id-Moved job.id (write_row write) (may_write write) w.jobs job (λ r. refl) found
        (may_fail now job agent_id reason waits) in
    elim (update_job_execution_status-outcome job.id req now w.jobs job found
      (waiting_not_terminal job waits)) [
        | inl refused ↦ rw (refused, fail_update) tt
        | inr written ↦
            rw (written, fail_update)
              (rw moved.2 (write_row write job, moved, writes_failed now job agent_id reason, refl))
      ]

append_event-jobs :
    (event : JobEvent) (w : World) → OnSuccess (λ w'. w'.jobs ≡ w.jobs) (append_event event w)
unfolding append_event
append_event-jobs event w =
    if-cases (OnSuccess (λ w'. w'.jobs ≡ w.jobs)) (trim_space event.job_id == "") _ _ (λ blank. tt)
      (λ named. elim (Option-cases (find_job event.job_id w.jobs)) [
        | inl missing ↦ rw missing tt
        | inr found ↦ rw found.1 refl
      ])

blocks-failed : (row : JobExecution) → row.status ≡ failed → blocks row ≡ 0
unfolding blocks
blocks-failed row ended = rw (ended, normal_words.4) refl

-- The table after a move: fewer blocks, and the same ids.
abbrev pub Lowers : Table → Table → Type 0
Lowers before after = (blocks_of after < blocks_of before) × (ids_of after ≡ ids_of before)

-- The job was ended, and nothing else.
abbrev Ended : Table → JobExecution → Table → Type 0
Ended before job after =
    (row : JobExecution) × Moved before job row after × (row.status ≡ failed) × (row.id ≡ job.id)

merge_job_metadata-Ended :
    (before : Table) (job : JobExecution) (key v : String) (patch : Dict String) (w : World)
    → 0 < blocks job
    → Ended before job w.jobs
    → OnSuccess (λ w'. Lowers before w'.jobs) (merge_job_metadata job.id ((key, v) ∷ patch) w)
merge_job_metadata-Ended before job key v patch w blocked (row, moved, ended, same) =
    let row' = with_metadata (patch_map ((key, v) ∷ patch) row.metadata) row in
    OnSuccess-map (λ w'. Moved w.jobs row row' w'.jobs) (λ w'. Lowers before w'.jobs)
      (merge_job_metadata job.id ((key, v) ∷ patch) w)
      (merge_job_metadata-Moved job.id key v patch w row moved.2)
      (λ w' next.
        let both = Moved-then before w.jobs w'.jobs job row row' moved next same in
        (omega (arith, both.0, blocks-failed row' ended), both.1))

pub fail_blocked_job-Lowers :
    (now : ℕ) (job : JobExecution) (agent_id marker reason key v : String) (patch : Dict String)
    (w : World)
    → find_job job.id w.jobs ≡ some job
    → is_queued_job job ≡ true
    → 0 < blocks job
    → OnSuccess
        (λ w'. Lowers w.jobs w'.jobs)
        (fail_blocked_job now job agent_id marker reason ((key, v) ∷ patch) w)
unfolding fail_blocked_job
fail_blocked_job-Lowers now job agent_id marker reason key v patch w found waits blocked =
    then-OnSuccess (λ w'. Ended w.jobs job w'.jobs) (λ w'. Lowers w.jobs w'.jobs) _
      (merge_job_metadata job.id ((key, v) ∷ patch))
      (then-OnSuccess (λ w'. Ended w.jobs job w'.jobs) (λ w'. Ended w.jobs job w'.jobs)
        (fail_update now job agent_id reason w) (append_event (fail_event now job marker reason))
        (fail_update-Moved now job agent_id reason w found waits)
        (λ w' ended.
          OnSuccess-map (λ w''. w''.jobs ≡ w'.jobs) (λ w''. Ended w.jobs job w''.jobs)
            (append_event (fail_event now job marker reason) w')
            (append_event-jobs (fail_event now job marker reason) w')
            (λ w'' same. subst (Ended w.jobs job) (sym same) ended)))
      (λ w' ended. merge_job_metadata-Ended w.jobs job key v patch w' blocked ended)
