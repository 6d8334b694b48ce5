-- ===== src/Blocked/Reconcile.antt =====
-- `reconcileBlockedJobExecutions` and the moves of a single job. The pipelines' table is the
-- parameter `load_pipeline`, which stands for the query of the store.
use ciwi.Base.{
  ℕ, zero, suc, ◌+◌, ◌*◌, String, Bool, true, false, not, Option, none, some, List, [], ◌∷◌, ◌==◌,
  if◌then◌else◌, length, is_empty,
}
use ciwi.Base.Dict.{Dict}
use ciwi.Base.Result.{Result, ◌>>=◌, ok, err}
use Prim.Native.String
use ciwi.Blocked.{
  World, BlockedError, store_failed, did_not_converge, store_error_text, merge_job_metadata, ◌then◌,
  fail_blocked_job, Verdict, unchanged, waiting, changed, as_verdict, Upstream, all_done, not_done,
  broken, upstream, needed,
}
use ciwi.Dependencies.Artifacts.{
  PersistedPipeline, PipelineJobArtifactSource, resolve_chain_job_dependency_context,
  dependency_artifact_job_ids_for_job,
}
use ciwi.Jobs.{JobExecution}
use ciwi.Jobs.Attempts.{latest_job_execution_attempts}
use ciwi.Metadata.{
  value, flag, csv, key_chain_run_id, key_chain_blocked, key_chain_cancelled,
  key_chain_depends_on_pipelines, key_needs_blocked, key_needs_job_ids,
}
use ciwi.Status.{queued, normalize_job_execution_status}
use ciwi.Store.Table.{StoreError, list_job_executions}
use ciwi.Store.Merge.{set_job_execution_dependency_artifact_job_ids}

abbrev pub is_queued_job : JobExecution → Bool
is_queued_job job = normalize_job_execution_status job.status == queued

abbrev pub chain_patch : Dict String
chain_patch = (key_chain_blocked, "") ∷ []

abbrev pub cancel_patch : Dict String
cancel_patch = (key_chain_cancelled, "1") ∷ (key_chain_blocked, "") ∷ []

abbrev pub needs_patch : Dict String
needs_patch = (key_needs_blocked, "") ∷ []

unfoldable pub cancel_chained :
    ℕ → JobExecution → String → World → Result StoreError Verdict × World
cancel_chained now candidate why w = as_verdict changed (
    fail_blocked_job now candidate "server-chain" "chain" (String.◌++◌ "cancelled: " why)
      cancel_patch w)

unfoldable pub release : String → Dict String → World → Result StoreError Verdict × World
release job_id patch w = as_verdict changed (merge_job_metadata job_id patch w)

-- After the loop over the needs.
abbrev pub after_needs : ℕ → JobExecution → World → Upstream → Result StoreError Verdict × World
after_needs now candidate w all_done = release candidate.id needs_patch w
after_needs now candidate w not_done = (ok unchanged, w)
after_needs now candidate w (broken need) = as_verdict changed (
    fail_blocked_job now candidate "server-needs" "needs"
      (String.◌++◌ "cancelled: required job " (String.◌++◌ need " failed")) needs_patch w)

-- `reconcileNeedsBlockedJob`.
unfoldable pub reconcile_needs_blocked_job :
    ℕ → JobExecution → List JobExecution → World → Result StoreError Verdict × World
reconcile_needs_blocked_job now candidate all_jobs w = after_needs now candidate w (
    needed (latest_job_execution_attempts all_jobs) candidate
      (csv candidate.metadata key_needs_job_ids))

-- The write of the ids, where there are any; the text is its error.
unfoldable pub write_binding :
    JobExecution → World → Result String (List String) → Option String × World
write_binding job w (err e) = (some e, w)
write_binding job w (ok []) = (none, w)
write_binding job w (ok (id ∷ ids)) =
    let written = set_job_execution_dependency_artifact_job_ids job.id (id ∷ ids) w.jobs in
    (
      elim written.0 [
        | err e ↦ some (String.◌++◌ "persist dependency artifact job ids: " (store_error_text e))
        | ok stored ↦ none
      ],
      record w { jobs = written.1 },
    )

abbrev pub after_binding :
    ℕ → JobExecution → Option String × World → Result StoreError Verdict × World
after_binding now candidate (some e, w) = cancel_chained now candidate e w
after_binding now candidate (none, w) = release candidate.id chain_patch w

-- What follows a look at one job, and what follows a pass.
abbrev pub go_on :
    Result StoreError Verdict × World
    → (World → Result StoreError Bool × World)
    → Result StoreError Bool × World
go_on (err e, w) next = (err e, w)
go_on (ok changed, w) next = (ok true, w)
go_on (ok waiting, w) next = next w
go_on (ok unchanged, w) next = next w

abbrev pub repeated :
    Result StoreError Bool × World
    → (World → Result BlockedError (Unit {0}) × World)
    → Result BlockedError (Unit {0}) × World
repeated (err e, w) next = (err (store_failed e), w)
repeated (ok false, w) next = (ok tt, w)
repeated (ok true, w) next = next w

module _ (load_pipeline : ℕ → String → Result String PersistedPipeline)
    (matrix_text : Dict String → String)
    (unmarshal : String → Result String (List PipelineJobArtifactSource)) where
  -- The ids that `bindQueuedChainJobDependencyArtifacts` writes, where there are any.
  unfoldable pub artifact_job_ids : JobExecution → List JobExecution → Result String (List String)
  artifact_job_ids job all_jobs =
      resolve_chain_job_dependency_context load_pipeline job all_jobs >>= (λ resolved.
        if is_empty resolved.0
        then ok []
        else dependency_artifact_job_ids_for_job matrix_text unmarshal job resolved.1)

  -- `bindQueuedChainJobDependencyArtifacts`; the text is its error.
  unfoldable pub bind_queued_chain_job_dependency_artifacts :
      JobExecution → List JobExecution → World → Option String × World
  bind_queued_chain_job_dependency_artifacts job all_jobs w =
      write_binding job w (artifact_job_ids job all_jobs)

  -- After the loop over the dependencies.
  abbrev pub after_upstream :
      ℕ → JobExecution → List JobExecution → World → Upstream → Result StoreError Verdict × World
  after_upstream now candidate all_jobs w not_done = (ok waiting, w)
  after_upstream now candidate all_jobs w (broken dep_id) =
      cancel_chained now candidate (String.◌++◌ "upstream pipeline " (String.◌++◌ dep_id " failed"))
        w
  after_upstream now candidate all_jobs w all_done =
      after_binding now candidate (bind_queued_chain_job_dependency_artifacts candidate all_jobs w)

  -- `reconcileChainBlockedJob`.
  unfoldable pub reconcile_chain_blocked_job :
      ℕ → JobExecution → List JobExecution → World → Result StoreError Verdict × World
  reconcile_chain_blocked_job now candidate all_jobs w =
      let deps = csv candidate.metadata key_chain_depends_on_pipelines in
      let chain_run_id = value candidate.metadata key_chain_run_id in
      if is_empty deps
      then release candidate.id chain_patch w
      else after_upstream now candidate all_jobs w (upstream all_jobs chain_run_id deps)

  -- The body of the loop over the candidates.
  unfoldable pub look_at :
      ℕ → List JobExecution → JobExecution → World → Result StoreError Verdict × World
  look_at now all_jobs candidate w =
      let needs =
        if flag candidate.metadata key_needs_blocked
        then reconcile_needs_blocked_job now candidate all_jobs w
        else (ok unchanged, w) in
      if not (is_queued_job candidate)
      then (ok unchanged, w)
      else if flag candidate.metadata key_chain_blocked
      then reconcile_chain_blocked_job now candidate all_jobs w
      else needs

  unfoldable pub look_at_each :
      ℕ → List JobExecution → List JobExecution → World → Result StoreError Bool × World
  look_at_each now all_jobs [] w = (ok false, w)
  look_at_each now all_jobs (candidate ∷ candidates) w =
      go_on (look_at now all_jobs candidate w) (look_at_each now all_jobs candidates)

  -- `reconcileOneBlockedJobExecution`, on the list that was just read.
  unfoldable pub reconcile_one_blocked_job_execution : ℕ → World → Result StoreError Bool × World
  reconcile_one_blocked_job_execution now w =
      let all_jobs = list_job_executions w.jobs in look_at_each now all_jobs all_jobs w

  -- The loop over the transitions, of which `limit` is the most.
  unfoldable pub transitions : ℕ → ℕ → ℕ → World → Result BlockedError (Unit {0}) × World
  transitions zero limit now w = (err (did_not_converge limit), w)
  transitions (suc left) limit now w =
      repeated (reconcile_one_blocked_job_execution now w) (transitions left limit now)

  -- `reconcileBlockedJobExecutions`.
  unfoldable pub reconcile_blocked_job_executions :
      ℕ → World → Result BlockedError (Unit {0}) × World
  reconcile_blocked_job_executions now w =
      let limit = length w.jobs * 3 + 1 in transitions limit limit now w
