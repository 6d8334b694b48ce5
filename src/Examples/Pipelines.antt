-- ===== src/Examples/Pipelines.antt =====
-- Pipelines whose jobs wait for others, and what they take over from earlier runs.
use ciwi.Base.{
  not, ◌&&◌, ℕ, ◌≤◌, String, ◌≡◌, refl, ◌≢◌, true, false, List, [], ◌∷◌, select, any, all, All,
}
use ciwi.Base.Dict.{Dict, lookup, value_or_empty}
use ciwi.Base.Int.{pos}
use ciwi.Base.Result.{Result, ok, err}
use ciwi.Base.Sort.{sort_by}
use ciwi.Base.Text.{trim_space, to_lower, split_at}
use ciwi.Base.Unique.{contains, NoRepeat}
use ciwi.Blocked.{World, did_not_converge, note_needed, needed}
use ciwi.Blocked.Rest.{IsWaiting, reconcile_one-rest}
use ciwi.Jobs.Attempts.{latest_job_execution_attempts}
use ciwi.Metadata.{flag, value, csv}
use ciwi.Status.{normalize_job_execution_status, is_active_job_execution_status}
use ciwi.Store.Table.{list_job_executions}
use ciwi.Blocked.Listing.{UniqueIds}
use ciwi.Blocked.Converge.{reconcile_blocked_job_executions-Settled}
use ciwi.Blocked.Needs.{is_all_done, is_met, needed-is_all_done}
use ciwi.Blocked.Reconcile.{
  look_at, look_at_each, reconcile_needs_blocked_job, reconcile_one_blocked_job_execution,
  reconcile_blocked_job_executions,
}
use ciwi.Dependencies.{PipelineDependencyContext, no_context}
use ciwi.Dependencies.Artifacts.{
  PersistedPipeline, PipelineJobArtifactSource, resolve_dependency_artifact_job_ids,
}
use ciwi.Dependencies.Check.{
  check_pipeline_dependencies, inspect_pipeline_dependencies_with_reporter,
}
use ciwi.Dependencies.Laws.{
  is_ok, is_served, is_found, HasKeys, newest_of_all, taken, select_run-newest,
  resolve_dependency_artifact_job_ids_lem,
}
use ciwi.Dependencies.Preview.{Agree, inspect-Agree}
use ciwi.Dependencies.Verify.{RunState, run_at, is_candidate, context_of, select_run}
use ciwi.Examples.{waiting_job, done_job}
use ciwi.Jobs.{JobExecution}

-- A job that needs the compilation of its run, and that compilation, which has ended.
abbrev in_pipeline : String → Dict String → JobExecution → JobExecution
in_pipeline name more job = record job {
  request = record job.request {
    metadata = ("pipeline_run_id", "run-1") ∷ ("pipeline_job_id", name) ∷ more;
  };
}

abbrev compiled : JobExecution
compiled = in_pipeline "compile" [] done_job

abbrev packaging : JobExecution
packaging =
    in_pipeline "package" (("needs_blocked", "1") ∷ ("needs_job_ids", "compile") ∷ [])
      (waiting_job "job-2")

abbrev two_job_world : World
two_job_world = record { jobs = packaging ∷ compiled ∷ []; events = [] }

two_job_world-UniqueIds : UniqueIds two_job_world.jobs
unfolding contains
two_job_world-UniqueIds = (refl, (refl, tt))

abbrev no_pipeline : ℕ → String → Result String PersistedPipeline
no_pipeline project_id pipeline_id = err "pipeline not found"

abbrev any_matrix : Dict String → String
any_matrix matrix = "map[]"

abbrev no_sources : String → Result String (List PipelineJobArtifactSource)
no_sources raw = err "invalid"

reconcile_blocked_job_executions-Settled_example :
    let r = reconcile_blocked_job_executions no_pipeline any_matrix no_sources 70 two_job_world in
    ((n : ℕ) → r.0 ≢ err (did_not_converge n))
    × (r.0 ≡ ok tt
        → (reconcile_one_blocked_job_execution no_pipeline any_matrix no_sources 70 r.1).0
          ≡ ok false)
reconcile_blocked_job_executions-Settled_example =
    reconcile_blocked_job_executions-Settled no_pipeline any_matrix no_sources 70 two_job_world
      two_job_world-UniqueIds

abbrev waiting_world : World
waiting_world = record { jobs = packaging ∷ []; events = [] }

waiting_world-rests :
    (reconcile_one_blocked_job_execution no_pipeline any_matrix no_sources 70 waiting_world).0
    ≡ ok false
unfolding reconcile_one_blocked_job_execution list_job_executions sort_by look_at_each look_at
    reconcile_needs_blocked_job needed note_needed csv split_at select flag value value_or_empty
    lookup trim_space to_lower normalize_job_execution_status latest_job_execution_attempts
waiting_world-rests = refl

waiting_world-UniqueIds : UniqueIds waiting_world.jobs
unfolding contains
waiting_world-UniqueIds = (refl, tt)

reconcile_one-rest_example :
    All
      (IsWaiting (latest_job_execution_attempts (list_job_executions waiting_world.jobs)))
      (list_job_executions waiting_world.jobs)
reconcile_one-rest_example =
    reconcile_one-rest no_pipeline any_matrix no_sources 70 waiting_world waiting_world-UniqueIds
      waiting_world-rests

needed-is_all_done_example :
    is_all_done (needed (compiled ∷ []) packaging ("compile" ∷ []))
    ≡ all (is_met (compiled ∷ []) packaging) ("compile" ∷ [])
needed-is_all_done_example = needed-is_all_done (compiled ∷ []) packaging ("compile" ∷ [])

abbrev run_of : ℕ → String → RunState
run_of created status = record {
  last_created = created;
  statuses = status ∷ [];
  metadata = [];
  jobs = [];
}

abbrev two_pipeline_runs : Dict RunState
two_pipeline_runs = ("run-1", run_of 10 "succeeded") ∷ ("run-2", run_of 20 "failed") ∷ []

two_pipeline_runs-HasKeys : HasKeys two_pipeline_runs
two_pipeline_runs-HasKeys = (refl, (refl, tt))

select_run-newest_example :
    let selected = select_run "build" two_pipeline_runs in
    let latest = newest_of_all two_pipeline_runs in
    let r = taken two_pipeline_runs in
    (is_ok selected ≡ (
      not (any is_active_job_execution_status latest.statuses)
      && any (λ entry. is_candidate latest entry.1) two_pipeline_runs))
    × (is_ok selected ≡ true
        → (selected ≡ ok (context_of "build" (run_at r.0 two_pipeline_runs)))
          × (any (is_found (is_candidate latest) r) two_pipeline_runs ≡ true))
    × All
        (λ entry. is_candidate latest entry.1 ≡ true → entry.1.last_created ≤ r.1)
        two_pipeline_runs
select_run-newest_example = select_run-newest "build" two_pipeline_runs two_pipeline_runs-HasKeys

abbrev one_source : List PipelineJobArtifactSource
one_source = record { pipeline = "build"; job = "compile"; matrix = [] } ∷ []

abbrev built_context : PipelineDependencyContext
built_context = record no_context {
  artifact_executions =
      (
        "build",
        record {
          id = "job-1";
          pipeline = "build";
          job = "compile";
          matrix_index = pos 0;
          matrix = [];
        }
            ∷ [],
      )
      ∷ [];
}

resolve_dependency_artifact_job_ids_example :
    let r = resolve_dependency_artifact_job_ids any_matrix one_source built_context in
    (is_ok r ≡ all (is_served built_context.artifact_executions) one_source)
    × ((ids : List String) → r ≡ ok ids → NoRepeat ids)
resolve_dependency_artifact_job_ids_example =
    resolve_dependency_artifact_job_ids_lem any_matrix one_source built_context

abbrev release_pipeline : PersistedPipeline
release_pipeline = record { project_id = 1; pipeline_id = "release"; depends_on = "build" ∷ [] }

inspect-Agree_example :
    Agree
      (check_pipeline_dependencies (compiled ∷ []) release_pipeline)
      (inspect_pipeline_dependencies_with_reporter (compiled ∷ []) release_pipeline).1
inspect-Agree_example = inspect-Agree (compiled ∷ []) release_pipeline
