-- ===== src/Dependencies/Verify.antt =====
-- `verifyDependencyRun`: the run that a dependency is taken from is the newest successful run of the
-- version that the newest run has. The runs are a Go map, whose ranges visit it in the order in
-- which the runs were met.
use ciwi.Base.{
  ℕ, String, Bool, true, not, ◌&&◌, ◌||◌, Option, none, some, List, [], ◌∷◌, ◌++◌, map, ◌==◌,
  if◌then◌else◌, is_empty, select, any, all, ltb, is_some,
}
use ciwi.Base.Decimal.{decimal, atoi}
use ciwi.Base.Dict.{Dict, lookup, insert}
use ciwi.Base.Int.{ℤ, ltb_ℤ, pos}
use ciwi.Base.Result.{Result, ◌>>=◌, ok, err}
use ciwi.Base.Sort.{text_lt, sort_by}
use ciwi.Base.Text.{trim_space, trim_prefix}
use text.Mathlib.Text.{starts_with}
use ciwi.Dependencies.{DependencyArtifactExecution, PipelineDependencyContext}
use ciwi.Jobs.{JobExecution}
use ciwi.Jobs.Attempts.{latest_job_execution_attempts}
use ciwi.Metadata.{
  Metadata, value, key_project_id, key_pipeline_id, key_pipeline_run_id, key_chain_run_id,
  key_pipeline_job_id, key_pipeline_job_index, key_matrix_name, key_matrix_index,
  key_matrix_variable_prefix, key_pipeline_version, key_pipeline_version_raw,
  key_pipeline_source_repo, key_pipeline_source_ref_raw, key_pipeline_source_ref_resolved,
}
use ciwi.Status.{succeeded, normalize_job_execution_status, is_active_job_execution_status}

-- `jobExecutionMatchesProject`.
unfoldable pub job_execution_matches_project : JobExecution → ℕ → Bool
job_execution_matches_project job project_id =
    value job.metadata key_project_id == decimal project_id

pub record RunState : Type 0 where
  pub last_created : ℕ
  pub statuses : List String
  pub metadata : Metadata
  pub jobs : List JobExecution

abbrev pub no_run : RunState
no_run = record { last_created = 0; statuses = []; metadata = []; jobs = [] }

-- The loop over a job's metadata: the first value that is not blank stays.
unfoldable pub fill_metadata : Metadata → Metadata → Metadata
fill_metadata own [] = own
fill_metadata own (entry ∷ rest) =
    fill_metadata
      (if not (is_some (lookup entry.0 own)) && not (trim_space entry.1 == "")
        then insert entry.0 entry.1 own
        else own)
      rest

abbrev pub run_id_of : JobExecution → String
run_id_of job =
    let run_id = value job.metadata key_pipeline_run_id in if run_id == "" then job.id else run_id

unfoldable pub add_to_run : JobExecution → RunState → RunState
add_to_run job run = record {
  last_created = if ltb run.last_created job.created_utc then job.created_utc else run.last_created;
  statuses = run.statuses ++ normalize_job_execution_status job.status ∷ [];
  metadata = fill_metadata run.metadata job.metadata;
  jobs = run.jobs ++ job ∷ [];
}

abbrev pub run_at : String → Dict RunState → RunState
run_at run_id runs = elim (lookup run_id runs) [ none ↦ no_run | some run ↦ run ]

abbrev pub is_run_of : ℕ → String → JobExecution → Bool
is_run_of project_id pipeline_id job =
    job_execution_matches_project job project_id
    && value job.metadata key_pipeline_id == pipeline_id

-- The first loop.
unfoldable pub group_runs : ℕ → String → Dict RunState → List JobExecution → Dict RunState
group_runs project_id pipeline_id runs [] = runs
group_runs project_id pipeline_id runs (job ∷ jobs) =
    let run_id = run_id_of job in
    let added = insert run_id (add_to_run job (run_at run_id runs)) runs in
    group_runs project_id pipeline_id (if is_run_of project_id pipeline_id job then added else runs)
      jobs

-- The two loops that choose the newest run that passes a test; the pair is the run's id and its
-- creation.
unfoldable pub newest_run : (RunState → Bool) → Dict RunState → String × ℕ → String × ℕ
newest_run test [] best = best
newest_run test (entry ∷ rest) best = newest_run test rest (
    if test entry.1 && (best.0 == "" || ltb best.1 entry.1.last_created)
    then (entry.0, entry.1.last_created)
    else best)

unfoldable pub dependency_run_is_successful : List String → Bool
dependency_run_is_successful statuses =
    not (is_empty statuses)
    && all (λ status. normalize_job_execution_status status == succeeded) statuses

unfoldable pub dependency_run_version_matches : Metadata → String → String → Bool
dependency_run_version_matches metadata target_version_raw target_version =
    let run_raw = value metadata key_pipeline_version_raw in
    let run_tagged = value metadata key_pipeline_version in
    if not (trim_space target_version_raw == "")
    then run_raw == trim_space target_version_raw
    else if not (trim_space target_version == "")
    then run_tagged == trim_space target_version
    else run_raw == "" && run_tagged == ""

unfoldable pub dependency_artifact_matrix_index : Metadata → ℤ
dependency_artifact_matrix_index metadata = elim (atoi (value metadata key_matrix_index)) [
  | some index ↦ index
  | none ↦ elim (atoi (value metadata key_pipeline_job_index)) [ some index ↦ index | none ↦ pos 0 ]
]

-- The loop over the metadata that collects the matrix variables.
unfoldable pub matrix_variables : Dict String → Metadata → Dict String
matrix_variables matrix [] = matrix
matrix_variables matrix (entry ∷ rest) =
    let key = trim_space (trim_prefix entry.0 key_matrix_variable_prefix) in
    matrix_variables
      (if starts_with entry.0 key_matrix_variable_prefix && not (key == "")
        then insert key entry.1 matrix
        else matrix)
      rest

unfoldable pub matrix_of : Metadata → Dict String
matrix_of metadata =
    let name = value metadata key_matrix_name in
    matrix_variables (if name == "" then [] else insert "name" name []) metadata

abbrev pub yields_artifacts : JobExecution → Bool
yields_artifacts job =
    not (trim_space job.id == "")
    && not (value job.metadata key_pipeline_job_id == "")
    && not (is_empty job.artifact_globs)

unfoldable pub artifact_execution : String → JobExecution → DependencyArtifactExecution
artifact_execution pipeline_id job = record {
  id = trim_space job.id;
  pipeline = pipeline_id;
  job = value job.metadata key_pipeline_job_id;
  matrix_index = dependency_artifact_matrix_index job.metadata;
  matrix = matrix_of job.metadata;
}

abbrev pub execution_lt : DependencyArtifactExecution → DependencyArtifactExecution → Bool
execution_lt a b =
    if not (a.job == b.job) then text_lt a.job b.job else ltb_ℤ a.matrix_index b.matrix_index

unfoldable pub context_of : String → RunState → PipelineDependencyContext
context_of pipeline_id run = record {
  version_raw = value run.metadata key_pipeline_version_raw;
  version = value run.metadata key_pipeline_version;
  source_repo = value run.metadata key_pipeline_source_repo;
  source_ref_raw = value run.metadata key_pipeline_source_ref_raw;
  source_ref_resolved = value run.metadata key_pipeline_source_ref_resolved;
  artifact_executions =
      (
        pipeline_id,
        sort_by execution_lt
            (map (artifact_execution pipeline_id) (select yields_artifacts run.jobs)),
      )
      ∷ [];
}

-- The successful runs of the version of the newest run.
abbrev pub is_candidate : RunState → RunState → Bool
is_candidate latest run =
    dependency_run_is_successful run.statuses
    && dependency_run_version_matches run.metadata (value latest.metadata key_pipeline_version_raw)
        (value latest.metadata key_pipeline_version)

-- From the runs on.
unfoldable pub select_run : String → Dict RunState → Result String PipelineDependencyContext
select_run pipeline_id runs =
    let latest = run_at (newest_run (λ run. true) runs ("", 0)).0 runs in
    let selected = (newest_run (is_candidate latest) runs ("", 0)).0 in
    if is_empty runs
    then err "no previous run found"
    else if any is_active_job_execution_status latest.statuses
    then err "latest run is still in progress"
    else if selected == ""
    then err "no successful run found for latest dependency version"
    else ok (context_of pipeline_id (run_at selected runs))

unfoldable pub verify_dependency_run :
    List JobExecution → ℕ → String → Result String PipelineDependencyContext
verify_dependency_run jobs project_id pipeline_id =
    select_run pipeline_id
      (group_runs project_id pipeline_id [] (latest_job_execution_attempts jobs))

-- Among the jobs of one run of a chain; none where the chain has none of the pipeline.
unfoldable pub verify_dependency_run_in_chain :
    List JobExecution → String → ℕ → String → Result String (Option PipelineDependencyContext)
verify_dependency_run_in_chain jobs chain_run_id project_id pipeline_id =
    let filtered =
      select
        (λ job.
          is_run_of project_id pipeline_id job
          && value job.metadata key_chain_run_id == trim_space chain_run_id)
        jobs in
    if trim_space chain_run_id == ""
    then err "chain run id is required"
    else if is_empty filtered
    then ok none
    else (verify_dependency_run filtered project_id pipeline_id >>= (λ context. ok (some context)))
