-- ===== src/Store/Invariant/Rows.antt =====
-- Creating rows, and writing columns that the timeline does not concern, keep every row sound.
use ciwi.Base.{ℕ, ◌+◌, ◌≤◌, String, Option, none, some, List, [], ◌∷◌, refl, length, arith}
use ciwi.Base.Dict.{Dict}
use ciwi.Base.Result.{Result, ok, err}
use ciwi.Jobs.{JobExecution, CreateJobExecutionRequest}
use ciwi.Store.Table.{Table, StoreError, find_job, duplicate_id}
use ciwi.Store.Create.{
  new_job_execution, returned_job, insert_job_execution, insert_batch, validate_batch,
  create_job_executions,
}
use ciwi.Store.Merge.{with_env, with_metadata, with_dependencies}
use ciwi.Store.Invariant.{
  Phase, waiting, held, active, ended, unknown, phase, FitsPhase, IsSound, IsSoundTable,
}
use ciwi.Store.Invariant.Steps.{IsSoundTable-later}

-- A change of the request's columns keeps a sound row sound.
FitsPhase-with_env :
    (now : ℕ) (values : Dict String) (row : JobExecution) (p : Phase)
    → FitsPhase p now row
    → FitsPhase p now (with_env values row)
FitsPhase-with_env now values row waiting f = f
FitsPhase-with_env now values row held f = f
FitsPhase-with_env now values row active f = f
FitsPhase-with_env now values row ended f = f
FitsPhase-with_env now values row unknown f = f

FitsPhase-with_metadata :
    (now : ℕ) (values : Dict String) (row : JobExecution) (p : Phase)
    → FitsPhase p now row
    → FitsPhase p now (with_metadata values row)
FitsPhase-with_metadata now values row waiting f = f
FitsPhase-with_metadata now values row held f = f
FitsPhase-with_metadata now values row active f = f
FitsPhase-with_metadata now values row ended f = f
FitsPhase-with_metadata now values row unknown f = f

FitsPhase-with_dependencies :
    (now : ℕ) (ids : List String) (row : JobExecution) (p : Phase)
    → FitsPhase p now row
    → FitsPhase p now (with_dependencies ids row)
FitsPhase-with_dependencies now ids row waiting f = f
FitsPhase-with_dependencies now ids row held f = f
FitsPhase-with_dependencies now ids row active f = f
FitsPhase-with_dependencies now ids row ended f = f
FitsPhase-with_dependencies now ids row unknown f = f

pub with_env-IsSound :
    (now : ℕ) (values : Dict String) (row : JobExecution)
    → IsSound now row
    → IsSound now (with_env values row)
with_env-IsSound now values row s = FitsPhase-with_env now values row (phase row.status) s

pub with_metadata-IsSound :
    (now : ℕ) (values : Dict String) (row : JobExecution)
    → IsSound now row
    → IsSound now (with_metadata values row)
with_metadata-IsSound now values row s = FitsPhase-with_metadata now values row (phase row.status) s

pub with_dependencies-IsSound :
    (now : ℕ) (ids : List String) (row : JobExecution)
    → IsSound now row
    → IsSound now (with_dependencies ids row)
with_dependencies-IsSound now ids row s =
    FitsPhase-with_dependencies now ids row (phase row.status) s

new_job_execution-IsSound :
    (req : CreateJobExecutionRequest) (created next : ℕ)
    → created ≤ next
    → IsSound next (new_job_execution req created)
unfolding new_job_execution
new_job_execution-IsSound req created next h = (refl, refl, h, refl, refl)

-- What a batch leaves: the rows of the final table, or nothing to say of a batch that failed.
Inserted : ℕ → Result StoreError (Table × List JobExecution) → Type 0
Inserted next (err e) = Unit
Inserted next (ok (final, jobs)) = IsSoundTable next final

insert_batch_sound :
    (requests : List CreateJobExecutionRequest) (created next : ℕ) (table : Table)
    → created + length requests ≤ next
    → IsSoundTable next table
    → Inserted next (insert_batch table created requests)
unfolding Inserted insert_batch insert_job_execution
insert_batch_sound [] created next table h s = s
insert_batch_sound (req ∷ reqs) created next table h s =
    taken (find_job (new_job_execution req created).id table) (
      insert_batch_sound reqs (created + 1) next (new_job_execution req created ∷ table)
        (omega (arith, h)) (new_job_execution-IsSound req created next (omega (arith, h)), s))
  where
    returned :
        (r : Result StoreError (Table × List JobExecution))
        → Inserted next r
        → Inserted next (elim r as (λ x. Result StoreError (Table × List JobExecution)) [
          | err e ↦ err e
          | ok (final, jobs) ↦ ok (final, returned_job req (new_job_execution req created) ∷ jobs)
        ])
    returned (err e) i = tt
    returned (ok (final, jobs)) i = i

    taken :
        (o : Option JobExecution)
        → Inserted next (insert_batch (new_job_execution req created ∷ table) (created + 1) reqs)
        → Inserted next
            (elim (elim o as (λ x. Result StoreError Table) [
              | none ↦ ok (new_job_execution req created ∷ table)
              | some job ↦ err duplicate_id
            ])
              as (λ x. Result StoreError (Table × List JobExecution)) [
                | err e ↦ err e
                | ok table' ↦ elim (insert_batch table' (created + 1) reqs) [
                  | err e ↦ err e
                  | ok (final, jobs) ↦
                      ok (final, returned_job req (new_job_execution req created) ∷ jobs)
                ]
              ])
    taken none i =
        returned (insert_batch (new_job_execution req created ∷ table) (created + 1) reqs) i
    taken (some job) i = tt

pub create_job_executions_sound :
    (now next : ℕ) (requests : List CreateJobExecutionRequest) (table : Table)
    → now + length requests ≤ next
    → IsSoundTable now table
    → IsSoundTable next (create_job_executions now requests table).1
unfolding create_job_executions Inserted
create_job_executions_sound now next requests table h s = validated (validate_batch requests) _ (
    inserted (insert_batch table now requests)
      (insert_batch_sound requests now next table h before))
  where
    before : IsSoundTable next table
    before = IsSoundTable-later now next table (omega (arith, h)) s

    inserted :
        (r : Result StoreError (Table × List JobExecution))
        → Inserted next r
        → IsSoundTable next
            (elim r as (λ x. Result StoreError (List JobExecution) × Table) [
              | err e ↦ (err e, table)
              | ok (final, jobs) ↦ (ok jobs, final)
            ]).1
    inserted (err e) i = before
    inserted (ok (final, jobs)) i = i

    validated :
        (o : Option StoreError) (x : Result StoreError (List JobExecution) × Table)
        → IsSoundTable next x.1
        → IsSoundTable next
            (elim o as (λ y. Result StoreError (List JobExecution) × Table) [
              | some e ↦ (err e, table)
              | none ↦ x
            ]).1
    validated none x i = i
    validated (some e) x i = before
