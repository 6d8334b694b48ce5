-- ===== src/Metadata.antt =====
-- internal/domain/execution_metadata.go: the metadata map of a job execution.
pub mod Laws
use ciwi.Base.{String, Bool, not, Option, none, some, List, [], ◌==◌, if◌then◌else◌, select, map}
use ciwi.Base.Dict.{Dict, insert, value_or_empty}
use ciwi.Base.Text.{trim_space, split_at}

abbrev pub Metadata : Type 0
Metadata = Dict String

abbrev pub key_project_id : String
key_project_id = "project_id"

abbrev pub key_pipeline_id : String
key_pipeline_id = "pipeline_id"

abbrev pub key_pipeline_job_id : String
key_pipeline_job_id = "pipeline_job_id"

abbrev pub key_pipeline_run_id : String
key_pipeline_run_id = "pipeline_run_id"

abbrev pub key_chain_run_id : String
key_chain_run_id = "chain_run_id"

abbrev pub key_chain_blocked : String
key_chain_blocked = "chain_blocked"

abbrev pub key_chain_cancelled : String
key_chain_cancelled = "chain_cancelled"

abbrev pub key_chain_depends_on_pipelines : String
key_chain_depends_on_pipelines = "chain_depends_on_pipelines"

abbrev pub key_needs_blocked : String
key_needs_blocked = "needs_blocked"

abbrev pub key_needs_job_ids : String
key_needs_job_ids = "needs_job_ids"

abbrev pub key_adhoc_agent_id : String
key_adhoc_agent_id = "adhoc_agent_id"

abbrev pub key_attempt_root_job_id : String
key_attempt_root_job_id = "attempt_root_job_id"

abbrev pub key_rerun_of_job_id : String
key_rerun_of_job_id = "rerun_of_job_id"

abbrev pub key_scheduling_blocked : String
key_scheduling_blocked = "scheduling_blocked"

abbrev pub key_scheduling_blocked_reason : String
key_scheduling_blocked_reason = "scheduling_blocked_reason"

abbrev pub key_scheduling_retry_utc : String
key_scheduling_retry_utc = "scheduling_retry_utc"

abbrev pub key_pipeline_job_index : String
key_pipeline_job_index = "pipeline_job_index"

abbrev pub key_matrix_name : String
key_matrix_name = "matrix_name"

abbrev pub key_matrix_index : String
key_matrix_index = "matrix_index"

abbrev pub key_matrix_variable_prefix : String
key_matrix_variable_prefix = "matrix_var."

abbrev pub key_pipeline_version : String
key_pipeline_version = "pipeline_version"

abbrev pub key_pipeline_version_raw : String
key_pipeline_version_raw = "pipeline_version_raw"

abbrev pub key_pipeline_source_repo : String
key_pipeline_source_repo = "pipeline_source_repo"

abbrev pub key_pipeline_source_ref_raw : String
key_pipeline_source_ref_raw = "pipeline_source_ref_raw"

abbrev pub key_pipeline_source_ref_resolved : String
key_pipeline_source_ref_resolved = "pipeline_source_ref_resolved"

abbrev pub key_artifact_sources_json : String
key_artifact_sources_json = "artifact_sources_json"

-- `Value`.
unfoldable pub value : Metadata → String → String
value m key = trim_space (value_or_empty key m)

-- `Flag`.
unfoldable pub flag : Metadata → String → Bool
flag m key = value m key == "1"

-- `CSV`.
unfoldable pub csv : Metadata → String → List String
csv m key =
    let raw = value m key in
    if raw == "" then [] else select (λ v. not (v == "")) (map trim_space (split_at b',' raw))

-- `Set`: a nil map, which is none here, stays nil.
unfoldable pub set : Option Metadata → String → String → Option Metadata
set none key v = none
set (some m) key v = some (insert key v m)

-- `SetFlag`.
unfoldable pub set_flag : Option Metadata → String → Bool → Option Metadata
set_flag m key enabled = if enabled then set m key "1" else set m key ""
