-- ===== src/Store/Merge/Laws.antt =====
-- What merging into a column keeps of every row.
use ciwi.Base.{
  String, ◌≡◌, refl, ◌⊎◌, inl, inr, Option, none, some, List, [], ◌∷◌, ◌==◌, All, Bool-cases,
  if-cases,
}
use ciwi.Base.Dict.{Dict}
use ciwi.Base.Result.{Result, ok, err}
use ciwi.Base.Text.{trim_space}
use ciwi.Jobs.{JobExecution}
use ciwi.Store.Table.{Table, StoreError, not_found, job_id_required, find_job, update_by_id}
use ciwi.Store.Table.Laws.{Leaves, All-update_by_id}
use ciwi.Store.Create.{normalize_dependency_artifact_job_ids}
use ciwi.Store.Merge.{
  always, patch_map, merge_non_empty, merge_job_execution_string_map, with_env, with_metadata,
  with_dependencies, merge_job_execution_env, merge_job_execution_metadata,
  set_job_execution_dependency_artifact_job_ids,
}

module _ {κ} (P : JobExecution → Type κ) where
  module _ (read : JobExecution → Dict String) (store : Dict String → JobExecution → JobExecution)
      (keep : (values : Dict String) (row : JobExecution) → P row → P (store values row)) where
    merge_non_empty-All :
        (job_id : String) (patch : Dict String) (table : Table) (o : Option JobExecution)
        → All P table
        → All P (merge_non_empty read store job_id patch table o).1
    unfolding merge_non_empty
    merge_non_empty-All job_id patch table none h = h
    merge_non_empty-All job_id patch table (some job) h =
        All-update_by_id P job_id always (store (patch_map patch (read job))) table
          (λ row found e p. keep (patch_map patch (read job)) row p) h

    merge_job_execution_string_map-All :
        (job_id : String) (patch : Dict String) (table : Table)
        → All P table
        → All P (merge_job_execution_string_map read store job_id patch table).1
    unfolding merge_job_execution_string_map
    merge_job_execution_string_map-All job_id [] table h =
        if-cases (Leaves P) (trim_space job_id == "") _ _ (λ e. h) (λ e. h)
    merge_job_execution_string_map-All job_id (entry ∷ patch) table h =
        if-cases (Leaves P) (trim_space job_id == "") _ _ (λ e. h)
          (λ e. merge_non_empty-All job_id (entry ∷ patch) table (find_job job_id table) h)

  pub merge_job_execution_env-All :
      ((values : Dict String) (row : JobExecution) → P row → P (with_env values row))
      → (job_id : String) (patch : Dict String) (table : Table) → All P table
      → All P (merge_job_execution_env job_id patch table).1
  unfolding merge_job_execution_env
  merge_job_execution_env-All keep =
      merge_job_execution_string_map-All (λ job. job.env) with_env keep

  pub merge_job_execution_metadata-All :
      ((values : Dict String) (row : JobExecution) → P row → P (with_metadata values row))
      → (job_id : String) (patch : Dict String) (table : Table) → All P table
      → All P (merge_job_execution_metadata job_id patch table).1
  unfolding merge_job_execution_metadata
  merge_job_execution_metadata-All keep =
      merge_job_execution_string_map-All (λ job. job.metadata) with_metadata keep

  pub set_dependencies-All :
      ((ids : List String) (row : JobExecution) → P row → P (with_dependencies ids row))
      → (job_id : String) (ids : List String) (table : Table) → All P table
      → All P (set_job_execution_dependency_artifact_job_ids job_id ids table).1
  unfolding set_job_execution_dependency_artifact_job_ids
  set_dependencies-All keep job_id ids table h =
      if-cases (Leaves P) (trim_space job_id == "") _ _ (λ e. h)
        (λ e. found (find_job job_id table))
    where
      normalized : List String
      normalized = normalize_dependency_artifact_job_ids ids

      found :
          (o : Option JobExecution)
          → All P
              (elim o as (λ x. Result StoreError (List String) × Table) [
                | none ↦ (err not_found, table)
                | some row ↦
                    (ok normalized, update_by_id job_id always (with_dependencies normalized) table)
              ]).1
      found none = h
      found (some row) =
          All-update_by_id P job_id always (with_dependencies normalized) table
            (λ r e t p. keep normalized r p) h

-- A merge into a job that exists refuses a blank id, or writes the patched map.
pub merge_job_execution_metadata-outcome :
    (job_id key v : String) (patch : Dict String) (table : Table) (row : JobExecution)
    → find_job job_id table ≡ some row
    → let values = patch_map ((key, v) ∷ patch) row.metadata in
      (merge_job_execution_metadata job_id ((key, v) ∷ patch) table ≡ (err job_id_required, table))
      ⊎ (merge_job_execution_metadata job_id ((key, v) ∷ patch) table
          ≡ (ok values, update_by_id job_id always (with_metadata values) table))
unfolding merge_job_execution_metadata merge_job_execution_string_map merge_non_empty
merge_job_execution_metadata-outcome job_id key v patch table row found =
    elim (Bool-cases (trim_space job_id == "")) [
      | inl blank ↦ inl (rw blank refl)
      | inr named ↦ inr (rw (named, found) refl)
    ]

-- The same of the ids of the jobs whose artifacts a job takes.
pub set_dependencies-outcome :
    (job_id : String) (ids : List String) (table : Table) (row : JobExecution)
    → find_job job_id table ≡ some row
    → let normalized = normalize_dependency_artifact_job_ids ids in
      (set_job_execution_dependency_artifact_job_ids job_id ids table
        ≡ (err job_id_required, table))
      ⊎ (set_job_execution_dependency_artifact_job_ids job_id ids table
          ≡ (ok normalized, update_by_id job_id always (with_dependencies normalized) table))
unfolding set_job_execution_dependency_artifact_job_ids
set_dependencies-outcome job_id ids table row found = elim (Bool-cases (trim_space job_id == "")) [
  | inl blank ↦ inl (rw blank refl)
  | inr named ↦ inr (rw (named, found) refl)
]
