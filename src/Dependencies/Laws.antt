-- ===== src/Dependencies/Laws.antt =====
-- Which run a dependency is taken from, and which artifacts a job takes.
use ciwi.Base.{
  ap, ◌∙◌, is_empty, if◌then◌else◌, ℕ, ◌≤◌, String, ◌≡◌, refl, sym, subst, ◌⊎◌, inl, inr, Bool,
  true, false, not, ◌&&◌, ◌||◌, List, [], ◌∷◌, ◌++◌, arith, ◌==◌, eq_iff, eq_refl, any, all, All,
  ltb, eqb, if-cases,
}
use ciwi.Base.Dict.{Dict}
use ciwi.Base.Result.{Result, ok, err}
use ciwi.Base.Text.{trim_space}
use ciwi.Base.Unique.{contains, NoRepeat}
use ciwi.Dependencies.{DependencyArtifactExecution, PipelineDependencyContext, executions_of}
use ciwi.Status.{is_active_job_execution_status}
use ciwi.Dependencies.Verify.{RunState, run_at, newest_run, is_candidate, context_of, select_run}
use ciwi.Dependencies.Artifacts.{
  PipelineJobArtifactSource, is_source_match, append_ids, resolve_sources,
  resolve_dependency_artifact_job_ids,
}

abbrev pub is_ok {ℓ κ} : {E : Type ℓ} {A : Type κ} → Result E A → Bool
is_ok (ok a) = true
is_ok (err e) = false

-- Every run has an id.
abbrev pub HasKeys : Dict RunState → Type 0
HasKeys runs = All (λ entry. (entry.0 == "") ≡ false) runs

-- The best run so far stays, or is replaced by one that is newer.
newest_run_mono :
    (test : RunState → Bool) (runs : Dict RunState) (best : String × ℕ)
    → HasKeys runs
    → (best.0 == "" ≡ true → best.1 ≡ 0)
    → (best.1 ≤ (newest_run test runs best).1)
      × All
          (λ entry. test entry.1 ≡ true → entry.1.last_created ≤ (newest_run test runs best).1)
          runs
unfolding newest_run
newest_run_mono test [] best keyed start = (omega arith, tt)
newest_run_mono test (entry ∷ rest) best keyed start =
    if-cases
      (λ (next : String × ℕ).
        (best.1 ≤ (newest_run test rest next).1)
        × ((test entry.1 ≡ true → entry.1.last_created ≤ (newest_run test rest next).1)
            × All (λ e. test e.1 ≡ true → e.1.last_created ≤ (newest_run test rest next).1) rest))
      (test entry.1 && (best.0 == "" || ltb best.1 entry.1.last_created))
      (entry.0, entry.1.last_created) best
      (λ newer.
        let own =
          newest_run_mono test rest (entry.0, entry.1.last_created) keyed.1
            (λ h. absurd (ground (arith, keyed.0))) in
        (ground (arith, own.0, start), ((λ h. own.0), own.1)))
      (λ older.
        let own = newest_run_mono test rest best keyed.1 start in
        (own.0, ((λ h. ground (arith, own.0)), own.1)))

-- The entry is the run that was found.
abbrev pub is_found : (RunState → Bool) → String × ℕ → String × RunState → Bool
is_found test best entry = entry.0 == best.0 && test entry.1 && eqb entry.1.last_created best.1

newest_run-found :
    (test : RunState → Bool) (runs : Dict RunState) (best : String × ℕ)
    → HasKeys runs
    → (newest_run test runs best ≡ best)
      ⊎ (any (is_found test (newest_run test runs best)) runs ≡ true)
unfolding newest_run any
newest_run-found test [] best keyed = inl refl
newest_run-found test (entry ∷ rest) best keyed =
    if-cases
      (λ (next : String × ℕ).
        (newest_run test rest next ≡ best)
        ⊎ ((is_found test (newest_run test rest next) entry
              || any (is_found test (newest_run test rest next)) rest)
            ≡ true))
      (test entry.1 && (best.0 == "" || ltb best.1 entry.1.last_created))
      (entry.0, entry.1.last_created) best
      (λ newer. elim (newest_run-found test rest (entry.0, entry.1.last_created) keyed.1) [
        | inl kept ↦ inr (rw kept (ground (arith, eq_refl entry.0)))
        | inr later ↦ inr (ground arith)
      ])
      (λ older. elim (newest_run-found test rest best keyed.1) [
        | inl kept ↦ inl kept
        | inr later ↦ inr (ground arith)
      ])

-- The search gives no id exactly where no run passes.
newest_run-none :
    (test : RunState → Bool) (runs : Dict RunState) (best : String × ℕ)
    → HasKeys runs
    → ((newest_run test runs best).0 == "")
      ≡ (best.0 == "" && not (any (λ entry. test entry.1) runs))
unfolding newest_run any
newest_run-none test [] best keyed = ground arith
newest_run-none test (entry ∷ rest) best keyed = ground (
  arith,
  keyed.0,
  newest_run-none test rest best keyed.1,
  newest_run-none test rest (entry.0, entry.1.last_created) keyed.1,
)

-- The newest run of all, and the run that is taken.
abbrev pub newest_of_all : Dict RunState → RunState
newest_of_all runs = run_at (newest_run (λ run. true) runs ("", 0)).0 runs

abbrev pub taken : Dict RunState → String × ℕ
taken runs = newest_run (is_candidate (newest_of_all runs)) runs ("", 0)

any_empty :
    (p : String × RunState → Bool) (runs : Dict RunState)
    → is_empty runs ≡ true
    → any p runs ≡ false
unfolding any
any_empty p [] h = refl
any_empty p (entry ∷ rest) h = absurd (ground (arith, h))

-- Three refusals before a context is given.
guarded :
    (a b c : Bool) (x y z : String) (context : PipelineDependencyContext)
    → let r : Result String PipelineDependencyContext =
        (if a then err x else if b then err y else if c then err z else ok context) in
      (is_ok r ≡ (not a && not b && not c)) × (is_ok r ≡ true → r ≡ ok context)
guarded true b c x y z context = (refl, λ h. absurd (ground arith))
guarded false true c x y z context = (refl, λ h. absurd (ground arith))
guarded false false true x y z context = (refl, λ h. absurd (ground arith))
guarded false false false x y z context = (refl, λ h. refl)

-- Where every run has an id, a dependency is served exactly where the newest run has no active job
-- and some run is successful and of the newest run's version. It is then served from such a run,
-- and no such run is newer.
pub select_run-newest :
    (pipeline_id : String) (runs : Dict RunState)
    → HasKeys runs
    → let selected = select_run pipeline_id runs in
      let latest = newest_of_all runs in
      let r = taken runs in
      (is_ok selected ≡ (
        not (any is_active_job_execution_status latest.statuses)
        && any (λ entry. is_candidate latest entry.1) runs))
      × (is_ok selected ≡ true
          → (selected ≡ ok (context_of pipeline_id (run_at r.0 runs)))
            × (any (is_found (is_candidate latest) r) runs ≡ true))
      × All (λ entry. is_candidate latest entry.1 ≡ true → entry.1.last_created ≤ r.1) runs
unfolding select_run
select_run-newest pipeline_id runs keyed =
    let latest = newest_of_all runs in
    let test = is_candidate latest in
    let r = taken runs in
    let nothing = newest_run-none test runs ("", 0) keyed in
    let found = newest_run-found test runs ("", 0) keyed in
    let gate =
      guarded (is_empty runs) (any is_active_job_execution_status latest.statuses) (r.0 == "")
        "no previous run found" "latest run is still in progress"
        "no successful run found for latest dependency version"
        (context_of pipeline_id (run_at r.0 runs)) in
    (
      gate.0 ∙ ground (arith, nothing, any_empty (λ entry. test entry.1) runs),
      λ h. (
        gate.1 h,
        elim found [
          | inl kept ↦
              absurd (ground (arith, gate.0, h, ap (λ (best : String × ℕ). best.0 == "") kept))
          | inr some_run ↦ some_run
        ],
      ),
      (newest_run_mono test runs ("", 0) keyed (λ h. refl)).1,
    )

-- The sources that match an execution.
abbrev pub is_served : Dict (List DependencyArtifactExecution) → PipelineJobArtifactSource → Bool
is_served available source =
    any (is_source_match source) (executions_of (trim_space source.pipeline) available)

pub contains-append :
    (y : String) (xs ys : List String) → contains y (xs ++ ys) ≡ (contains y xs || contains y ys)
unfolding contains
contains-append y [] ys = refl
contains-append y (x ∷ xs) ys = ground (arith, contains-append y xs ys)

NoRepeat-snoc :
    (xs : List String) (y : String) → contains y xs ≡ false → NoRepeat xs → NoRepeat (xs ++ y ∷ [])
unfolding contains
NoRepeat-snoc [] y h unique = (refl, tt)
NoRepeat-snoc (x ∷ xs) y h unique = (
  ground (arith, contains-append x xs (y ∷ []), eq_iff x y, eq_iff y x),
  NoRepeat-snoc xs y (ground arith) unique.1,
)

append_ids-NoRepeat :
    (source : PipelineJobArtifactSource) (out : List String)
    (executions : List DependencyArtifactExecution)
    → NoRepeat out
    → NoRepeat (append_ids source out executions)
unfolding append_ids
append_ids-NoRepeat source out [] unique = unique
append_ids-NoRepeat source out (execution ∷ executions) unique =
    if-cases (λ next. NoRepeat (append_ids source next executions))
      (is_source_match source execution
        && not (trim_space execution.id == "")
        && not (contains (trim_space execution.id) out))
      (out ++ trim_space execution.id ∷ []) out
      (λ new.
        append_ids-NoRepeat source (out ++ trim_space execution.id ∷ []) executions
          (NoRepeat-snoc out (trim_space execution.id) (ground arith) unique))
      (λ old. append_ids-NoRepeat source out executions unique)

-- The ids, where there is no error, are without repetition; an error means an unserved source.
Resolved :
    Dict (List DependencyArtifactExecution)
    → List PipelineJobArtifactSource
    → Result String (List String)
    → Type 0
Resolved available sources (ok ids) = NoRepeat ids × (all (is_served available) sources ≡ true)
Resolved available sources (err e) = all (is_served available) sources ≡ false

resolve_sources-Resolved :
    (matrix_text : Dict String → String) (available : Dict (List DependencyArtifactExecution))
    (out : List String) (sources : List PipelineJobArtifactSource)
    → NoRepeat out
    → Resolved available sources (resolve_sources matrix_text available out sources)
unfolding resolve_sources Resolved all
resolve_sources-Resolved matrix_text available out [] unique = (unique, refl)
resolve_sources-Resolved matrix_text available out (source ∷ sources) unique =
    let executions = executions_of (trim_space source.pipeline) available in
    if-cases (Resolved available (source ∷ sources)) (is_served available source) _ _
      (λ served.
        add (resolve_sources matrix_text available (append_ids source out executions) sources)
          served
          (resolve_sources-Resolved matrix_text available (append_ids source out executions) sources
            (append_ids-NoRepeat source out executions unique)))
      (λ unserved. ground arith)
  where
    add :
        (r : Result String (List String))
        → is_served available source ≡ true
        → Resolved available sources r
        → Resolved available (source ∷ sources) r
    add (ok ids) served h = (h.0, ground arith)
    add (err e) served h = ground arith

same_ok : (r : Result String (List String)) (xs ys : List String) → r ≡ ok xs → r ≡ ok ys → xs ≡ ys
same_ok r xs ys e h = cc (e, h)

-- The ids of the executions whose artifacts a job takes: they are found exactly when every source
-- matches an execution of its pipeline, and then none of them stands there twice.
pub resolve_dependency_artifact_job_ids_lem :
    (matrix_text : Dict String → String) (sources : List PipelineJobArtifactSource)
    (context : PipelineDependencyContext)
    → let r = resolve_dependency_artifact_job_ids matrix_text sources context in
      (is_ok r ≡ all (is_served context.artifact_executions) sources)
      × ((ids : List String) → r ≡ ok ids → NoRepeat ids)
unfolding resolve_dependency_artifact_job_ids Resolved
resolve_dependency_artifact_job_ids_lem matrix_text sources context =
    by_result (resolve_sources matrix_text context.artifact_executions [] sources)
      (resolve_sources-Resolved matrix_text context.artifact_executions [] sources tt)
  where
    by_result :
        (r : Result String (List String))
        → Resolved context.artifact_executions sources r
        → (is_ok r ≡ all (is_served context.artifact_executions) sources)
          × ((ids : List String) → r ≡ ok ids → NoRepeat ids)
    by_result (ok found) h =
        (sym h.1, λ ids e. subst NoRepeat (same_ok (ok found) found ids refl e) h.0)
    by_result (err e) h = (sym h, λ ids e'. absurd (cc e'))
