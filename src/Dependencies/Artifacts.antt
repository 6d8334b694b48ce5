-- ===== src/Dependencies/Artifacts.antt =====
-- internal/server/server_pipelines_enqueue_helpers.go and internal/server/
-- server_pipeline_chains_runtime.go: the executions whose artifacts a job takes. encoding/json is
-- the parameter `unmarshal`, and `%v` of a matrix the parameter `matrix_text`.
use ciwi.Base.{
  ℕ, zero, suc, String, Bool, not, ◌&&◌, ◌||◌, none, some, List, [], ◌∷◌, ◌++◌, ◌==◌, if◌then◌else◌,
  is_empty, any, all,
}
use ciwi.Base.Decimal.{atoi}
use ciwi.Base.Dict.{Dict, value_or_empty}
use ciwi.Base.Int.{pos, negsuc}
use ciwi.Base.Result.{Result, ◌>>=◌, ok, err}
use ciwi.Base.Text.{trim_space}
use ciwi.Base.Unique.{contains}
use Prim.Native.String
use ciwi.Dependencies.{
  DependencyArtifactExecution, PipelineDependencyContext, no_context, quoted, executions_of,
  merge_pipeline_dependency_context,
}
use ciwi.Dependencies.Verify.{verify_dependency_run, verify_dependency_run_in_chain}
use ciwi.Jobs.{JobExecution}
use ciwi.Metadata.{
  Metadata, value, key_artifact_sources_json, key_chain_run_id, key_project_id, key_pipeline_id,
}

pub record PipelineJobArtifactSource : Type 0 where
  pub pipeline : String
  pub job : String
  pub matrix : Dict String

unfoldable pub artifact_source_matrix_matches : Dict String → Dict String → Bool
artifact_source_matrix_matches selector matrix =
    all (λ entry. value_or_empty entry.0 matrix == entry.1) selector

abbrev pub is_source_match : PipelineJobArtifactSource → DependencyArtifactExecution → Bool
is_source_match source execution =
    trim_space execution.job == trim_space source.job
    && artifact_source_matrix_matches source.matrix execution.matrix

-- The inner loop: the ids of the matching executions that are not there yet.
unfoldable pub append_ids :
    PipelineJobArtifactSource → List String → List DependencyArtifactExecution → List String
append_ids source out [] = out
append_ids source out (execution ∷ executions) =
    let id = trim_space execution.id in
    let is_new = is_source_match source execution && not (id == "") && not (contains id out) in
    append_ids source (if is_new then out ++ id ∷ [] else out) executions

-- The parts of a project's pipeline that the resolution reads.
pub record PersistedPipeline : Type 0 where
  pub project_id : ℕ
  pub pipeline_id : String
  pub depends_on : List String

module _ (matrix_text : Dict String → String) where
  unmatched_text : PipelineJobArtifactSource → String
  unmatched_text source = String.◌++◌ "artifact source pipeline=" (
      String.◌++◌ (quoted (trim_space source.pipeline)) (
        String.◌++◌ " job=" (
          String.◌++◌ (quoted (trim_space source.job)) (
            String.◌++◌ " matrix=" (
              String.◌++◌ (matrix_text source.matrix)
                " matched no successful artifact-producing execution")))))

  unfoldable pub resolve_sources :
      Dict (List DependencyArtifactExecution)
      → List String
      → List PipelineJobArtifactSource
      → Result String (List String)
  unfolding unmatched_text
  resolve_sources available out [] = ok out
  resolve_sources available out (source ∷ sources) =
      let executions = executions_of (trim_space source.pipeline) available in
      let rest = resolve_sources available (append_ids source out executions) sources in
      if any (is_source_match source) executions then rest else err (unmatched_text source)

  -- `resolveDependencyArtifactJobIDs`.
  unfoldable pub resolve_dependency_artifact_job_ids :
      List PipelineJobArtifactSource → PipelineDependencyContext → Result String (List String)
  resolve_dependency_artifact_job_ids sources context =
      resolve_sources context.artifact_executions [] sources

  module _ (unmarshal : String → Result String (List PipelineJobArtifactSource)) where
    unfoldable pub decode_artifact_sources :
        Metadata → Result String (List PipelineJobArtifactSource)
    decode_artifact_sources metadata =
        let raw = value metadata key_artifact_sources_json in
        if raw == "" then ok [] else elim (unmarshal raw) [
          | ok sources ↦ ok sources
          | err e ↦ err (String.◌++◌ "decode artifact sources: " e)
        ]

    unfoldable pub dependency_artifact_job_ids_for_job :
        JobExecution → PipelineDependencyContext → Result String (List String)
    dependency_artifact_job_ids_for_job job context =
        decode_artifact_sources job.metadata
        >>= (λ sources. resolve_dependency_artifact_job_ids sources context)

-- The text of a failed dependency, `%w` being the error's text.
unfoldable pub not_satisfied : String → String → String → String
not_satisfied dep_id where_text e =
    String.◌++◌ "dependency "
      (String.◌++◌ (quoted dep_id) (String.◌++◌ where_text (String.◌++◌ ": " e)))

-- The context of one dependency: the run in the chain, or else the newest one outside.
unfoldable pub dependency_context :
    List JobExecution → String → ℕ → String → Result String PipelineDependencyContext
dependency_context all_jobs chain_run_id project_id dep_id =
    elim (verify_dependency_run_in_chain all_jobs chain_run_id project_id dep_id) [
      | err e ↦ err (not_satisfied dep_id " not satisfied in chain run" e)
      | ok (some context) ↦ ok context
      | ok none ↦ elim (verify_dependency_run all_jobs project_id dep_id) [
        | err e ↦ err (not_satisfied dep_id " not satisfied" e)
        | ok context ↦ ok context
      ]
    ]

unfoldable pub resolve_dependencies :
    List JobExecution
    → String
    → ℕ
    → PipelineDependencyContext
    → List String
    → Result String PipelineDependencyContext
resolve_dependencies all_jobs chain_run_id project_id merged [] = ok merged
resolve_dependencies all_jobs chain_run_id project_id merged (raw ∷ dep_ids) =
    let dep_id = trim_space raw in
    let skipped = resolve_dependencies all_jobs chain_run_id project_id merged dep_ids in
    if dep_id == ""
    then skipped
    else (dependency_context all_jobs chain_run_id project_id dep_id
        >>= merge_pipeline_dependency_context merged dep_id
        >>= (λ next. resolve_dependencies all_jobs chain_run_id project_id next dep_ids))

-- `jobExecutionProjectID`.
unfoldable pub job_execution_project_id : JobExecution → Result String ℕ
job_execution_project_id job =
    let raw = value job.metadata key_project_id in
    if raw == "" then err "project id is required" else elim (atoi raw) [
      | some (pos (suc n)) ↦ ok (suc n)
      | some (pos zero) ↦ err (String.◌++◌ "invalid project id " (quoted raw))
      | some (negsuc n) ↦ err (String.◌++◌ "invalid project id " (quoted raw))
      | none ↦ err (String.◌++◌ "invalid project id " (quoted raw))
    ]

-- `getPipelineForJobExecution`; `load_pipeline` is the query of the store.
unfoldable pub get_pipeline_for_job_execution :
    (ℕ → String → Result String PersistedPipeline) → JobExecution → Result String PersistedPipeline
get_pipeline_for_job_execution load_pipeline job =
    let pipeline_id = value job.metadata key_pipeline_id in
    if pipeline_id == ""
    then err "pipeline id is required"
    else (job_execution_project_id job >>= (λ project_id. load_pipeline project_id pipeline_id))

module _ (load_pipeline : ℕ → String → Result String PersistedPipeline) where
  -- `resolveChainJobDependencyContext`.
  unfoldable pub resolve_chain_job_dependency_context :
      JobExecution → List JobExecution → Result String (List String × PipelineDependencyContext)
  resolve_chain_job_dependency_context job all_jobs =
      let chain_run_id = value job.metadata key_chain_run_id in
      let pipeline_id = value job.metadata key_pipeline_id in
      if chain_run_id == "" || value job.metadata key_project_id == "" || pipeline_id == ""
      then ok ([], no_context)
      else elim (get_pipeline_for_job_execution load_pipeline job) [
        | err e ↦
            err
              (String.◌++◌ "load pipeline " (String.◌++◌ (quoted pipeline_id) (String.◌++◌ ": " e)))
        | ok p ↦
            if is_empty p.depends_on
            then ok ([], no_context)
            else (resolve_dependencies all_jobs chain_run_id p.project_id no_context p.depends_on
                >>= (λ context. ok (p.depends_on, context)))
      ]
