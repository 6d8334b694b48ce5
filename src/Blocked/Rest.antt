-- ===== src/Blocked/Rest.antt =====
-- What still waits when a pass moves no job.
use ciwi.Base.{ℕ, String, ◌≡◌, refl, sym, ap, ◌∙◌, subst, Bool, true, false, List, [], ◌∷◌, All}
use ciwi.Base.Dict.{Dict}
use ciwi.Base.Result.{Result, ok, err}
use ciwi.Blocked.{
  World, Verdict, unchanged, waiting, changed, as_verdict, Upstream, all_done, not_done, broken,
  needed, merge_job_metadata,
}
use ciwi.Blocked.Converge.{look_at-Progress}
use ciwi.Blocked.Listing.{Stands, UniqueIds, list-Stands}
use ciwi.Blocked.Moves.{Progress}
use ciwi.Blocked.Needs.{is_not_done, waits_at_open, needed-is_not_done}
use ciwi.Blocked.Reconcile.{
  is_queued_job, release, needs_patch, after_needs, look_at, go_on, look_at_each,
  reconcile_needs_blocked_job, reconcile_one_blocked_job_execution,
}
use ciwi.Dependencies.Artifacts.{PersistedPipeline, PipelineJobArtifactSource}
use ciwi.Jobs.{JobExecution}
use ciwi.Jobs.Attempts.{latest_job_execution_attempts}
use ciwi.Metadata.{flag, csv, key_chain_blocked, key_needs_blocked, key_needs_job_ids}
use ciwi.Store.Table.{StoreError, list_job_executions}

-- The look at the job found nothing to do.
abbrev IsIdle : Result StoreError Verdict → Type 0
IsIdle (err e) = ⊥
IsIdle (ok changed) = ⊥
IsIdle (ok waiting) = Unit
IsIdle (ok unchanged) = Unit

changed_not_idle : (r : Result StoreError (Unit {0}) × World) → IsIdle (as_verdict changed r).0 → ⊥
changed_not_idle (ok done, w) h = h
changed_not_idle (err e, w) h = h

after_needs-IsIdle :
    (now : ℕ) (candidate : JobExecution) (w : World) (u : Upstream)
    → IsIdle (after_needs now candidate w u).0
    → u ≡ not_done
unfolding release
after_needs-IsIdle now candidate w all_done h =
    absurd (changed_not_idle (merge_job_metadata candidate.id needs_patch w) h)
after_needs-IsIdle now candidate w not_done h = refl
after_needs-IsIdle now candidate w (broken need) h = absurd (changed_not_idle _ h)

go_on-IsIdle :
    (w : World) (r : Result StoreError Verdict × World)
    (next : World → Result StoreError Bool × World)
    → Progress w r
    → (go_on r next).0 ≡ ok false
    → IsIdle r.0 × ((next w).0 ≡ ok false)
go_on-IsIdle w (err e, w') next p h = absurd (cc h)
go_on-IsIdle w (ok changed, w') next p h = absurd (cc h)
go_on-IsIdle w (ok waiting, w') next p h = (tt, subst (λ v. (next v).0 ≡ ok false) p h)
go_on-IsIdle w (ok unchanged, w') next p h = (tt, subst (λ v. (next v).0 ≡ ok false) p h)

-- Where the job is queued and blocked by its needs alone, it waits for an open need.
abbrev pub IsWaiting : List JobExecution → JobExecution → Type 0
IsWaiting jobs c =
    is_queued_job c ≡ true
    → flag c.metadata key_chain_blocked ≡ false
    → flag c.metadata key_needs_blocked ≡ true
    → waits_at_open jobs c (csv c.metadata key_needs_job_ids) ≡ true

module _ (load_pipeline : ℕ → String → Result String PersistedPipeline)
    (matrix_text : Dict String → String)
    (unmarshal : String → Result String (List PipelineJobArtifactSource)) where
  look_at_each-IsIdle :
      (now : ℕ) (all_jobs candidates : List JobExecution) (w : World)
      → Stands w.jobs candidates
      → (look_at_each load_pipeline matrix_text unmarshal now all_jobs candidates w).0 ≡ ok false
      → All
          (λ c. IsIdle (look_at load_pipeline matrix_text unmarshal now all_jobs c w).0)
          candidates
  unfolding look_at_each
  look_at_each-IsIdle now all_jobs [] w stands h = tt
  look_at_each-IsIdle now all_jobs (candidate ∷ candidates) w (stands, rest) h =
      let both =
        go_on-IsIdle w (look_at load_pipeline matrix_text unmarshal now all_jobs candidate w)
          (look_at_each load_pipeline matrix_text unmarshal now all_jobs candidates)
          (look_at-Progress load_pipeline matrix_text unmarshal now all_jobs candidate w stands)
          h in
      (both.0, look_at_each-IsIdle now all_jobs candidates w rest both.1)

  look_at-IsIdle :
      (now : ℕ) (all_jobs : List JobExecution) (job : JobExecution) (w : World)
      → is_queued_job job ≡ true
      → flag job.metadata key_chain_blocked ≡ false
      → flag job.metadata key_needs_blocked ≡ true
      → IsIdle (look_at load_pipeline matrix_text unmarshal now all_jobs job w).0
      → needed (latest_job_execution_attempts all_jobs) job (csv job.metadata key_needs_job_ids)
        ≡ not_done
  unfolding look_at reconcile_needs_blocked_job
  look_at-IsIdle now all_jobs job w queued free needy h =
      after_needs-IsIdle now job w _ (rw (queued, free, needy, look_at) at h)

  idle-needs :
      (now : ℕ) (all_jobs candidates : List JobExecution) (w : World)
      → All
          (λ c. IsIdle (look_at load_pipeline matrix_text unmarshal now all_jobs c w).0)
          candidates
      → All
          (λ c.
            is_queued_job c ≡ true
            → flag c.metadata key_chain_blocked ≡ false
            → flag c.metadata key_needs_blocked ≡ true
            → needed (latest_job_execution_attempts all_jobs) c (csv c.metadata key_needs_job_ids)
              ≡ not_done)
          candidates
  idle-needs now all_jobs [] w idle = tt
  idle-needs now all_jobs (c ∷ cs) w idle = (
    (λ queued free needy. look_at-IsIdle now all_jobs c w queued free needy idle.0),
    idle-needs now all_jobs cs w idle.1,
  )

  needs-open :
      (jobs candidates : List JobExecution)
      → All
          (λ c.
            is_queued_job c ≡ true
            → flag c.metadata key_chain_blocked ≡ false
            → flag c.metadata key_needs_blocked ≡ true
            → needed jobs c (csv c.metadata key_needs_job_ids) ≡ not_done)
          candidates
      → All (IsWaiting jobs) candidates
  needs-open jobs [] h = tt
  needs-open jobs (c ∷ cs) h = (
    (λ queued free needy.
        let needs = csv c.metadata key_needs_job_ids in
        sym (needed-is_not_done jobs c needs) ∙ ap is_not_done (h.0 queued free needy)),
    needs-open jobs cs h.1,
  )

  -- Where no two jobs have one id and a pass moves no job, every queued job that is blocked by its
  -- needs alone waits for one of them: the run has no such job, or one that has not ended, and all
  -- jobs of the needs before it have succeeded.
  pub reconcile_one-rest :
      (now : ℕ) (w : World)
      → UniqueIds w.jobs
      → (reconcile_one_blocked_job_execution load_pipeline matrix_text unmarshal now w).0 ≡ ok false
      → All
          (IsWaiting (latest_job_execution_attempts (list_job_executions w.jobs)))
          (list_job_executions w.jobs)
  unfolding reconcile_one_blocked_job_execution
  reconcile_one-rest now w unique h =
      let all_jobs = list_job_executions w.jobs in
      needs-open (latest_job_execution_attempts all_jobs) all_jobs (
        idle-needs now all_jobs all_jobs w
          (look_at_each-IsIdle now all_jobs all_jobs w (list-Stands w.jobs unique) h))
