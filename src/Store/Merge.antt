-- ===== src/Store/Merge.antt =====
-- `mergeJobExecutionStringMap` and its two callers, and `SetJobExecutionDependencyArtifactJobIDs`.
-- A range over the patch visits its entries in the list's order.
pub mod Laws
use ciwi.Base.{String, Bool, true, false, Option, none, some, List, [], ◌∷◌, ◌==◌, if◌then◌else◌}
use ciwi.Base.Dict.{Dict, insert, delete}
use ciwi.Base.Result.{Result, ok, err}
use ciwi.Base.Text.{trim_space}
use ciwi.Jobs.{JobExecution}
use ciwi.Store.Table.{Table, StoreError, not_found, job_id_required, update_by_id, find_job}
use ciwi.Store.Create.{normalize_dependency_artifact_job_ids}

-- One round of the loop: a blank key is passed over, a blank value removes the key.
unfoldable pub patch_entry : String → String → Dict String → Dict String
patch_entry raw v values =
    let key = trim_space raw in
    if key == ""
    then values
    else if trim_space v == ""
    then delete key values
    else insert key v values

unfoldable pub patch_map : Dict String → Dict String → Dict String
patch_map [] values = values
patch_map ((k, v) ∷ patch) values = patch_map patch (patch_entry k v values)

abbrev pub always : JobExecution → Bool
always row = true

module _ (read : JobExecution → Dict String)
    (store : Dict String → JobExecution → JobExecution) where
  merge_non_empty :
      String → Dict String → Table → Option JobExecution → Result StoreError (Dict String) × Table
  merge_non_empty job_id patch table none = (err not_found, table)
  merge_non_empty job_id patch table (some job) =
      let values = patch_map patch (read job) in
      (ok values, update_by_id job_id always (store values) table)

  merge_empty : Option JobExecution → Result StoreError (Dict String)
  merge_empty none = err not_found
  merge_empty (some job) = ok (read job)

  unfoldable pub merge_job_execution_string_map :
      String → Dict String → Table → Result StoreError (Dict String) × Table
  unfolding merge_non_empty merge_empty
  merge_job_execution_string_map job_id [] table =
      if trim_space job_id == ""
      then (err job_id_required, table)
      else (merge_empty (find_job job_id table), table)
  merge_job_execution_string_map job_id (entry ∷ patch) table =
      if trim_space job_id == ""
      then (err job_id_required, table)
      else merge_non_empty job_id (entry ∷ patch) table (find_job job_id table)

abbrev pub with_env : Dict String → JobExecution → JobExecution
with_env values row = record row { request = record row.request { env = values } }

abbrev pub with_metadata : Dict String → JobExecution → JobExecution
with_metadata values row = record row { request = record row.request { metadata = values } }

unfoldable pub merge_job_execution_env :
    String → Dict String → Table → Result StoreError (Dict String) × Table
merge_job_execution_env = merge_job_execution_string_map (λ job. job.env) with_env

unfoldable pub merge_job_execution_metadata :
    String → Dict String → Table → Result StoreError (Dict String) × Table
merge_job_execution_metadata = merge_job_execution_string_map (λ job. job.metadata) with_metadata

abbrev pub with_dependencies : List String → JobExecution → JobExecution
with_dependencies ids row = record row {
  request = record row.request { dependency_artifact_job_ids = ids };
}

unfoldable pub set_job_execution_dependency_artifact_job_ids :
    String → List String → Table → Result StoreError (List String) × Table
set_job_execution_dependency_artifact_job_ids job_id ids table =
    let normalized = normalize_dependency_artifact_job_ids ids in
    if trim_space job_id == "" then (err job_id_required, table) else elim (find_job job_id table) [
      | none ↦ (err not_found, table)
      | some row ↦ (ok normalized, update_by_id job_id always (with_dependencies normalized) table)
    ]
