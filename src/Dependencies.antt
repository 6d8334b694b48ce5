-- ===== src/Dependencies.antt =====
-- internal/server/server_pipelines_dependencies.go: what a pipeline takes over from the runs that it
-- depends on. The errors are their texts. `%q` is the text in quotation marks, which is exact for
-- texts without characters to escape.
use ciwi.Base.{
  String, Bool, not, ◌&&◌, ◌||◌, none, some, List, [], ◌∷◌, ◌++◌, map, ◌==◌, if◌then◌else◌,
}
use ciwi.Base.Dict.{Dict, lookup, insert}
use ciwi.Base.Int.{ℤ}
use ciwi.Base.Result.{Result, ◌>>=◌, ok, err}
use ciwi.Base.Text.{trim_space}
use ciwi.Base.Unique.{contains}
use Prim.Native.String
pub mod Verify
pub mod Artifacts
pub mod Check
pub mod Preview
pub mod Laws

pub record DependencyArtifactExecution : Type 0 where
  pub id : String
  pub pipeline : String
  pub job : String
  pub matrix_index : ℤ
  pub matrix : Dict String

pub record PipelineDependencyContext : Type 0 where
  pub version_raw : String
  pub version : String
  pub source_repo : String
  pub source_ref_raw : String
  pub source_ref_resolved : String
  pub artifact_executions : Dict (List DependencyArtifactExecution)

abbrev pub no_context : PipelineDependencyContext
no_context = record {
  version_raw = "";
  version = "";
  source_repo = "";
  source_ref_raw = "";
  source_ref_resolved = "";
  artifact_executions = [];
}

-- `%q`.
unfoldable pub quoted : String → String
quoted s = String.◌++◌ "\"" (String.◌++◌ s "\"")

unfoldable pub same_source_repo : String → String → Bool
same_source_repo a b =
    not (trim_space a == "") && not (trim_space b == "") && trim_space a == trim_space b

unfoldable pub conflict_text : String → String → String → String
conflict_text what a b = String.◌++◌ what (String.◌++◌ (quoted a) (String.◌++◌ " vs " (quoted b)))

-- The branch on the version.
unfoldable pub merge_version :
    PipelineDependencyContext → PipelineDependencyContext → Result String PipelineDependencyContext
merge_version out ctx =
    if ctx.version == ""
    then ok out
    else if not (out.version == "") && not (out.version == ctx.version)
    then err (conflict_text "dependency versions conflict: " out.version ctx.version)
    else ok (record out { version = ctx.version; version_raw = ctx.version_raw })

-- The branch on the pinned source.
unfoldable pub merge_source :
    PipelineDependencyContext → PipelineDependencyContext → Result String PipelineDependencyContext
merge_source ctx out =
    if trim_space ctx.source_repo == "" || ctx.source_ref_resolved == ""
    then ok out
    else if out.source_ref_resolved == ""
    then ok (record out {
      source_repo = trim_space ctx.source_repo;
      source_ref_resolved = ctx.source_ref_resolved;
    })
    else if same_source_repo out.source_repo ctx.source_repo
    then (if out.source_ref_resolved == ctx.source_ref_resolved
        then ok out
        else err (
            conflict_text "dependency source refs conflict: " out.source_ref_resolved
              ctx.source_ref_resolved))
    else ok (record out { source_repo = ""; source_ref_resolved = "" })

-- The inner loop: the executions that are not there yet, by their trimmed ids.
unfoldable pub append_unseen :
    List String
    → List DependencyArtifactExecution
    → List DependencyArtifactExecution
    → List DependencyArtifactExecution
append_unseen seen existing [] = existing
append_unseen seen existing (execution ∷ executions) =
    let id = trim_space execution.id in
    let skipped = append_unseen seen existing executions in
    let taken =
      append_unseen (id ∷ seen) (existing ++ (record execution { id = id }) ∷ []) executions in
    if id == "" || contains id seen then skipped else taken

abbrev pub executions_of :
    String → Dict (List DependencyArtifactExecution) → List DependencyArtifactExecution
executions_of dep_id executions = elim (lookup dep_id executions) [ none ↦ [] | some found ↦ found ]

unfoldable pub merge_artifact_executions :
    String
    → Dict (List DependencyArtifactExecution)
    → Dict (List DependencyArtifactExecution)
    → Dict (List DependencyArtifactExecution)
merge_artifact_executions dep_id out [] = out
merge_artifact_executions dep_id out (entry ∷ rest) =
    let trimmed = trim_space entry.0 in
    let target = (if trimmed == "" then dep_id else trimmed) in
    let existing = executions_of target out in
    let seen =
      map (λ (execution : DependencyArtifactExecution). trim_space execution.id) existing in
    merge_artifact_executions dep_id (insert target (append_unseen seen existing entry.1) out) rest

-- `mergePipelineDependencyContext`. On an error the caller drops what was merged.
unfoldable pub merge_pipeline_dependency_context :
    PipelineDependencyContext
    → String
    → PipelineDependencyContext
    → Result String PipelineDependencyContext
merge_pipeline_dependency_context out dep_id ctx =
    merge_version out ctx >>= merge_source ctx >>= (λ merged. ok (record merged {
      artifact_executions =
          merge_artifact_executions dep_id merged.artifact_executions ctx.artifact_executions;
    }))
