-- ===== src/Dependencies/Preview.antt =====
-- The preview against the check.
use ciwi.Base.{
  String, ◌≡◌, refl, inl, inr, true, List, [], ◌∷◌, ◌==◌, is_empty, Bool-cases, if-cases,
}
use ciwi.Base.Result.{Result, Result-cases, ok, err}
use ciwi.Base.Text.{trim_space}
use ciwi.Dependencies.{PipelineDependencyContext, no_context, merge_pipeline_dependency_context}
use ciwi.Dependencies.Artifacts.{PersistedPipeline}
use ciwi.Dependencies.Verify.{verify_dependency_run}
use ciwi.Dependencies.Check.{
  Report, Preview, with_warning, unresolved_text, clear_preview, check_each, inspect_each,
  check_pipeline_dependencies, check_pipeline_dependencies_with_reporter,
  inspect_pipeline_dependencies_with_reporter,
}
use ciwi.Jobs.{JobExecution}

abbrev IsBlocked : Result String Preview → Type 0
IsBlocked (ok found) = found.is_blocked ≡ true
IsBlocked (err e) = Unit

-- What is blocked stays blocked, whatever else is found.
inspect_each-IsBlocked :
    (all_jobs : List JobExecution) (p : PersistedPipeline) (found : Preview) (dep_ids : List String)
    → found.is_blocked ≡ true
    → IsBlocked (inspect_each all_jobs p found dep_ids).1
unfolding inspect_each
inspect_each-IsBlocked all_jobs p found [] h = h
inspect_each-IsBlocked all_jobs p found (raw ∷ dep_ids) h =
    if-cases (λ (r : List Report × Result String Preview). IsBlocked r.1) (trim_space raw == "") _ _
      (λ blank. inspect_each-IsBlocked all_jobs p found dep_ids h)
      (λ named. elim (Result-cases (verify_dependency_run all_jobs p.project_id (trim_space raw))) [
        | inr failed ↦ rw failed.1 (
            inspect_each-IsBlocked all_jobs p
              (with_warning (unresolved_text (trim_space raw) failed.0) found) dep_ids refl)
        | inl run ↦
            elim (Result-cases
              (merge_pipeline_dependency_context found.context (trim_space raw) run.0)) [
                | inr conflict ↦ rw (run.1, conflict.1) tt
                | inl merged ↦
                    rw (run.1, merged.1)
                      (inspect_each-IsBlocked all_jobs p (record found { context = merged.0 })
                        dep_ids h)
              ]
      ])

-- The check and the inspection of one pipeline: they find the same context, or neither is clear.
abbrev pub Agree : Result String PipelineDependencyContext → Result String Preview → Type 0
Agree (ok context) seen = seen ≡ ok (clear_preview context)
Agree (err e) seen = IsBlocked seen

each-Agree :
    (all_jobs : List JobExecution) (p : PersistedPipeline) (context : PipelineDependencyContext)
    (dep_ids : List String)
    → Agree
        (check_each all_jobs p context dep_ids).1
        (inspect_each all_jobs p (clear_preview context) dep_ids).1
unfolding check_each inspect_each
each-Agree all_jobs p context [] = refl
each-Agree all_jobs p context (raw ∷ dep_ids) = elim (Bool-cases (trim_space raw == "")) [
  | inl blank ↦ rw blank (each-Agree all_jobs p context dep_ids)
  | inr named ↦ elim (Result-cases (verify_dependency_run all_jobs p.project_id (trim_space raw))) [
    | inr failed ↦
        rw (named, failed.1)
          (inspect_each-IsBlocked all_jobs p
            (with_warning (unresolved_text (trim_space raw) failed.0) (clear_preview context))
            dep_ids refl)
    | inl run ↦
        elim (Result-cases (merge_pipeline_dependency_context context (trim_space raw) run.0)) [
          | inr conflict ↦ rw (named, run.1, conflict.1) tt
          | inl merged ↦ rw (named, run.1, merged.1) (each-Agree all_jobs p merged.0 dep_ids)
        ]
  ]
]

-- The preview of a pipeline finds the context that the check finds, with no warning and not blocked;
-- where the check fails, the preview fails or is blocked.
pub inspect-Agree :
    (all_jobs : List JobExecution) (p : PersistedPipeline)
    → Agree
        (check_pipeline_dependencies all_jobs p)
        (inspect_pipeline_dependencies_with_reporter all_jobs p).1
unfolding check_pipeline_dependencies check_pipeline_dependencies_with_reporter
    inspect_pipeline_dependencies_with_reporter
inspect-Agree all_jobs p = elim (Bool-cases (is_empty p.depends_on)) [
  | inl nothing ↦
      rw (nothing, check_pipeline_dependencies, check_pipeline_dependencies_with_reporter) refl
  | inr some_deps ↦
      rw (some_deps, check_pipeline_dependencies, check_pipeline_dependencies_with_reporter)
        (each-Agree all_jobs p no_context p.depends_on)
]
