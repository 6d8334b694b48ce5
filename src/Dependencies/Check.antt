-- ===== src/Dependencies/Check.antt =====
-- The check of a pipeline's dependencies before a run, and its inspection for a preview
-- (internal/server/server_pipelines_dependencies.go). What a reporter is told is the list of reports.
-- `all_jobs` is the history as it was read.
use ciwi.Base.{
  String, Bool, true, false, not, ◌&&◌, List, [], ◌∷◌, ◌++◌, ◌==◌, if◌then◌else◌, length, is_empty,
}
use ciwi.Base.Decimal.{decimal}
use ciwi.Base.Result.{Result, ok, err}
use ciwi.Base.Text.{trim_space}
use Prim.Native.String
use ciwi.Dependencies.{
  PipelineDependencyContext, no_context, quoted, merge_pipeline_dependency_context,
}
use ciwi.Dependencies.Verify.{verify_dependency_run}
use ciwi.Dependencies.Artifacts.{PersistedPipeline}
use ciwi.Jobs.{JobExecution}

-- The status and the message of a step "dependencies".
pub record Report : Type 0 where
  pub status : String
  pub message : String

abbrev pub say : String → String → Report
say status message = record { status = status; message = message }

unfoldable pub starting_report : PersistedPipeline → Report
starting_report p = say "running" (
    String.◌++◌ "checking " (String.◌++◌ (decimal (length p.depends_on)) " dependency pipeline(s)"))

abbrev pub looking_report : String → Report
looking_report dep_id =
    say "running" (String.◌++◌ "checking latest run for dependency " (quoted dep_id))

-- The loop of `checkPipelineDependenciesWithReporter`.
unfoldable pub check_each :
    List JobExecution
    → PersistedPipeline
    → PipelineDependencyContext
    → List String
    → List Report × Result String PipelineDependencyContext
check_each all_jobs p out [] = ([], ok out)
check_each all_jobs p out (raw ∷ dep_ids) =
    let dep_id = trim_space raw in
    let skipped = check_each all_jobs p out dep_ids in
    if dep_id == "" then skipped else elim (verify_dependency_run all_jobs p.project_id dep_id) [
      | err e ↦ (
        looking_report dep_id
            ∷ say "error" (
                String.◌++◌ "dependency "
                  (String.◌++◌ (quoted dep_id) (String.◌++◌ " not satisfied: " e)))
            ∷ [],
        err (
            String.◌++◌ "pipeline " (
              String.◌++◌ (quoted p.pipeline_id) (
                String.◌++◌ " dependency "
                  (String.◌++◌ (quoted dep_id) (String.◌++◌ " not satisfied: " e))))),
      )
      | ok context ↦ elim (merge_pipeline_dependency_context out dep_id context) [
        | err e ↦ (looking_report dep_id ∷ [], err e)
        | ok merged ↦
            let rest = check_each all_jobs p merged dep_ids in
            (looking_report dep_id ∷ rest.0, rest.1)
      ]
    ]

unfoldable pub satisfied_report : PipelineDependencyContext → Report
satisfied_report out =
    if out.version == ""
    then say "ok" "dependencies satisfied"
    else say "ok" (String.◌++◌ "dependencies satisfied; inherited version=" out.version)

unfoldable pub check_pipeline_dependencies_with_reporter :
    List JobExecution → PersistedPipeline → List Report × Result String PipelineDependencyContext
check_pipeline_dependencies_with_reporter all_jobs p =
    let checked = check_each all_jobs p no_context p.depends_on in
    let last : List Report = (elim checked.1 [ ok out ↦ satisfied_report out ∷ [] | err e ↦ [] ]) in
    if is_empty p.depends_on
    then (say "ok" "no dependencies declared" ∷ [], ok no_context)
    else (starting_report p ∷ checked.0 ++ last, checked.1)

-- `checkPipelineDependencies`.
unfoldable pub check_pipeline_dependencies :
    List JobExecution → PersistedPipeline → Result String PipelineDependencyContext
check_pipeline_dependencies all_jobs p = (check_pipeline_dependencies_with_reporter all_jobs p).1

-- What an inspection has found: the context, and the warnings, with which the preview is blocked.
pub record Preview : Type 0 where
  pub context : PipelineDependencyContext
  pub warnings : List String
  pub is_blocked : Bool

unfoldable pub unresolved_text : String → String → String
unresolved_text dep_id e =
    String.◌++◌ "dependency "
      (String.◌++◌ (quoted dep_id) (String.◌++◌ " unresolved for preview: " e))

abbrev pub with_warning : String → Preview → Preview
with_warning message found = record found {
  warnings = found.warnings ++ message ∷ [];
  is_blocked = true;
}

-- The loop of `inspectPipelineDependenciesWithReporter`.
unfoldable pub inspect_each :
    List JobExecution
    → PersistedPipeline
    → Preview
    → List String
    → List Report × Result String Preview
inspect_each all_jobs p found [] = ([], ok found)
inspect_each all_jobs p found (raw ∷ dep_ids) =
    let dep_id = trim_space raw in
    let skipped = inspect_each all_jobs p found dep_ids in
    if dep_id == "" then skipped else elim (verify_dependency_run all_jobs p.project_id dep_id) [
      | err e ↦
          let message = unresolved_text dep_id e in
          let rest = inspect_each all_jobs p (with_warning message found) dep_ids in
          (looking_report dep_id ∷ say "warning" message ∷ rest.0, rest.1)
      | ok context ↦ elim (merge_pipeline_dependency_context found.context dep_id context) [
        | err e ↦ (looking_report dep_id ∷ say "error" e ∷ [], err e)
        | ok merged ↦
            let rest = inspect_each all_jobs p (record found { context = merged }) dep_ids in
            (looking_report dep_id ∷ rest.0, rest.1)
      ]
    ]

unfoldable pub inspected_report : Preview → Report
inspected_report found =
    if found.is_blocked && not (found.context.version == "")
    then say "warning" (
        String.◌++◌ "dependency history incomplete; preview remains blocked, inherited version="
          (String.◌++◌ found.context.version " where available"))
    else if found.is_blocked
    then say "warning" "dependency history incomplete; preview remains blocked"
    else satisfied_report found.context

abbrev pub no_preview : Preview
no_preview = record { context = no_context; warnings = []; is_blocked = false }

unfoldable pub inspect_pipeline_dependencies_with_reporter :
    List JobExecution → PersistedPipeline → List Report × Result String Preview
inspect_pipeline_dependencies_with_reporter all_jobs p =
    let inspected = inspect_each all_jobs p no_preview p.depends_on in
    let last : List Report = (elim inspected.1 [
      | ok found ↦ inspected_report found ∷ []
      | err e ↦ []
    ]) in
    if is_empty p.depends_on
    then (say "ok" "no dependencies declared" ∷ [], ok no_preview)
    else (starting_report p ∷ inspected.0 ++ last, inspected.1)

-- A preview that nothing blocks.
abbrev pub clear_preview : PipelineDependencyContext → Preview
clear_preview context = record { context = context; warnings = []; is_blocked = false }
