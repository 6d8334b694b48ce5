-- ===== src/Blocked/Converge.antt =====
-- The loop over the transitions ends: each of them takes a block away, and there are at most two for
-- a job.
use ciwi.Base.{
  ℕ, zero, suc, ◌+◌, ◌*◌, ◌<◌, String, ◌≡◌, refl, sym, ap, subst, ◌≢◌, Bool, true, false, not, some,
  List, [], ◌∷◌, arith, length, is_empty, if-cases,
}
use ciwi.Base.Dict.{Dict}
use ciwi.Base.Result.{Result, ok, err}
use ciwi.Base.Unique.{NoRepeat}
use ciwi.Blocked.{
  World, BlockedError, did_not_converge, Verdict, unchanged, waiting, changed, Upstream, all_done,
  not_done, broken,
}
use ciwi.Blocked.Measure.{blocks_of, blocks_of-bound}
use ciwi.Blocked.Progress.{Lowers}
use ciwi.Blocked.Listing.{Stands, UniqueIds, list-Stands}
use ciwi.Blocked.Moves.{
  Progress, after_needs-Progress, cancel_chained-Progress, write_binding-Bound,
  after_binding-Progress, release-chain-Progress,
}
use ciwi.Blocked.Reconcile.{
  is_queued_job, after_upstream, reconcile_needs_blocked_job, reconcile_chain_blocked_job,
  bind_queued_chain_job_dependency_artifacts, artifact_job_ids, look_at, go_on, look_at_each,
  reconcile_one_blocked_job_execution, repeated, transitions, reconcile_blocked_job_executions,
}
use ciwi.Dependencies.Artifacts.{PersistedPipeline, PipelineJobArtifactSource}
use ciwi.Jobs.{JobExecution}
use ciwi.Metadata.{flag, csv, key_chain_blocked, key_needs_blocked, key_chain_depends_on_pipelines}
use ciwi.Store.Table.{StoreError, find_job, list_job_executions}

-- What a pass makes of the table.
Pass : World → Result StoreError Bool × World → Type 0
Pass w (err e, w') = Unit
Pass w (ok true, w') = Lowers w.jobs w'.jobs
Pass w (ok false, w') = w' ≡ w

go_on-Pass :
    (w : World) (r : Result StoreError Verdict × World)
    (next : World → Result StoreError Bool × World)
    → Progress w r
    → Pass w (next w)
    → Pass w (go_on r next)
unfolding Pass
go_on-Pass w (err e, w') next h k = tt
go_on-Pass w (ok changed, w') next h k = h
go_on-Pass w (ok waiting, w') next h k = subst (λ v. Pass w (next v)) (sym h) k
go_on-Pass w (ok unchanged, w') next h k = subst (λ v. Pass w (next v)) (sym h) k

module _ (load_pipeline : ℕ → String → Result String PersistedPipeline)
    (matrix_text : Dict String → String)
    (unmarshal : String → Result String (List PipelineJobArtifactSource)) where
  after_upstream-Progress :
      (now : ℕ) (candidate : JobExecution) (all_jobs : List JobExecution) (w : World) (u : Upstream)
      → find_job candidate.id w.jobs ≡ some candidate
      → is_queued_job candidate ≡ true
      → flag candidate.metadata key_chain_blocked ≡ true
      → Progress w (after_upstream load_pipeline matrix_text unmarshal now candidate all_jobs w u)
  unfolding bind_queued_chain_job_dependency_artifacts
  after_upstream-Progress now candidate all_jobs w not_done found waits blocked = refl
  after_upstream-Progress now candidate all_jobs w (broken dep_id) found waits blocked =
      cancel_chained-Progress now candidate _ w found waits blocked
  after_upstream-Progress now candidate all_jobs w all_done found waits blocked =
      let ids = artifact_job_ids load_pipeline matrix_text unmarshal candidate all_jobs in
      after_binding-Progress now candidate w _ waits blocked found
        (write_binding-Bound candidate w ids found)

  pub look_at-Progress :
      (now : ℕ) (all_jobs : List JobExecution) (candidate : JobExecution) (w : World)
      → find_job candidate.id w.jobs ≡ some candidate
      → Progress w (look_at load_pipeline matrix_text unmarshal now all_jobs candidate w)
  unfolding look_at reconcile_needs_blocked_job reconcile_chain_blocked_job
  look_at-Progress now all_jobs candidate w found =
      if-cases (Progress w) (not (is_queued_job candidate)) _ _ (λ done. refl)
        (λ queued.
          let waits : is_queued_job candidate ≡ true = ground arith in
          if-cases (Progress w) (flag candidate.metadata key_chain_blocked) _ _
            (λ chained.
              if-cases (Progress w)
                (is_empty (csv candidate.metadata key_chain_depends_on_pipelines)) _ _
                (λ alone. release-chain-Progress w candidate found waits chained)
                (λ some_deps.
                  after_upstream-Progress now candidate all_jobs w _ found waits chained))
            (λ free.
              if-cases (Progress w) (flag candidate.metadata key_needs_blocked) _ _
                (λ needy. after_needs-Progress now candidate w _ found waits needy) (λ idle. refl)))

  look_at_each-Pass :
      (now : ℕ) (all_jobs candidates : List JobExecution) (w : World)
      → Stands w.jobs candidates
      → Pass w (look_at_each load_pipeline matrix_text unmarshal now all_jobs candidates w)
  unfolding look_at_each Pass
  look_at_each-Pass now all_jobs [] w stands = refl
  look_at_each-Pass now all_jobs (candidate ∷ candidates) w (stands, rest) =
      go_on-Pass w _ (look_at_each load_pipeline matrix_text unmarshal now all_jobs candidates)
        (look_at-Progress now all_jobs candidate w stands)
        (look_at_each-Pass now all_jobs candidates w rest)

  reconcile_one-Pass :
      (now : ℕ) (w : World)
      → UniqueIds w.jobs
      → Pass w (reconcile_one_blocked_job_execution load_pipeline matrix_text unmarshal now w)
  unfolding reconcile_one_blocked_job_execution
  reconcile_one-Pass now w unique =
      look_at_each-Pass now (list_job_executions w.jobs) (list_job_executions w.jobs) w
        (list-Stands w.jobs unique)

  -- The loop ended because nothing moves any more, or with an error of the store.
  abbrev Settled : ℕ → Result BlockedError (Unit {0}) × World → Type 0
  Settled now r =
      ((n : ℕ) → r.0 ≢ err (did_not_converge n))
      × (r.0 ≡ ok tt
          → (reconcile_one_blocked_job_execution load_pipeline matrix_text unmarshal now r.1).0
            ≡ ok false)

  transitions-Settled :
      (left limit now : ℕ) (w : World)
      → UniqueIds w.jobs
      → blocks_of w.jobs < left
      → Settled now (transitions load_pipeline matrix_text unmarshal left limit now w)
  unfolding transitions Pass
  transitions-Settled zero limit now w unique enough = absurd (omega arith)
  transitions-Settled (suc left) limit now w unique enough =
      by_pass (reconcile_one_blocked_job_execution load_pipeline matrix_text unmarshal now w) refl
        (reconcile_one-Pass now w unique)
        (λ w' lower.
          transitions-Settled left limit now w' (subst NoRepeat (sym lower.1) unique)
            (omega (arith, lower.0)))
    where
      by_pass :
          (r : Result StoreError Bool × World)
          → reconcile_one_blocked_job_execution load_pipeline matrix_text unmarshal now w ≡ r
          → Pass w r
          → ((w' : World)
              → Lowers w.jobs w'.jobs
              → Settled now (transitions load_pipeline matrix_text unmarshal left limit now w'))
          → Settled now
              (repeated r (transitions load_pipeline matrix_text unmarshal left limit now))
      by_pass (err e, w') same pass later = ((λ n h. cc h), λ h. absurd (cc h))
      by_pass (ok false, w') same pass later = (
        (λ n h. cc h),
        λ h.
            subst
              (λ v.
                (reconcile_one_blocked_job_execution load_pipeline matrix_text unmarshal now v).0
                ≡ ok false)
              (sym pass) (ap (λ (r : Result StoreError Bool × World). r.0) same),
      )
      by_pass (ok true, w') same pass later = later w' pass

  -- Where no two jobs have one id, the loop never runs out of its transitions, and where it ends
  -- without an error of the store, a further pass moves no job.
  pub reconcile_blocked_job_executions-Settled :
      (now : ℕ) (w : World)
      → UniqueIds w.jobs
      → let r = reconcile_blocked_job_executions load_pipeline matrix_text unmarshal now w in
        ((n : ℕ) → r.0 ≢ err (did_not_converge n))
        × (r.0 ≡ ok tt
            → (reconcile_one_blocked_job_execution load_pipeline matrix_text unmarshal now r.1).0
              ≡ ok false)
  unfolding reconcile_blocked_job_executions
  reconcile_blocked_job_executions-Settled now w unique =
      transitions-Settled (length w.jobs * 3 + 1) (length w.jobs * 3 + 1) now w unique
        (omega (arith, blocks_of-bound w.jobs))
