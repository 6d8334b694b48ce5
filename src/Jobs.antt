-- ===== src/Jobs.antt =====
-- internal/protocol/job.go: the records of job executions. An instant is the number of nanoseconds
-- after Go's zero time, so that `IsZero` is `t = 0`; a null column reads as the zero value.
pub mod Attempts
use ciwi.Base.{ℕ, String, Option, List}
use ciwi.Base.Dict.{Dict}
use ciwi.Base.Int.{ℤ}
use ciwi.Metadata.{Metadata}

pub record JobCacheSpec : Type 0 where
  pub id : String
  pub env : String

pub record SourceSpec : Type 0 where
  pub repo : String
  pub ref : String

pub record ProjectSecretSpec : Type 0 where
  pub name : String
  pub mount : String
  pub path : String
  pub key : String
  pub kv_version : ℤ

pub record JobStepPlanItem : Type 0 where
  pub index : ℕ
  pub total : ℕ
  pub name : String
  pub yaml_literal : String
  pub script : String
  pub kind : String
  pub env : Dict String
  pub vault_connection : String
  pub vault_secrets : List ProjectSecretSpec
  pub test_name : String
  pub test_format : String
  pub test_report : String
  pub coverage_format : String
  pub coverage_report : String

pub record JobCacheStats : Type 0 where
  pub id : String
  pub env : String
  pub type : String
  pub path : String
  pub source : String
  pub size_bytes : ℤ
  pub files : ℤ
  pub directories : ℤ
  pub tool_metrics : Dict String
  pub error : String

pub record CreateJobExecutionRequest : Type 0 where
  pub script : String
  pub env : Dict String
  pub required_capabilities : Dict String
  pub timeout_seconds : ℤ
  pub artifact_globs : List String
  pub dependency_artifact_job_ids : List String
  pub caches : List JobCacheSpec
  pub source : Option SourceSpec
  pub metadata : Metadata
  pub step_plan : List JobStepPlanItem

-- The fields that the database keeps; those that views add later (test summary, diagnosis,
-- expected durations, secrets) are not part of a stored job.
pub record JobExecution : Type 0 where
  pub id : String
  pub request : CreateJobExecutionRequest
  pub open request use *
  pub current_step : String
  pub cache_stats : List JobCacheStats
  pub runtime_capabilities : Dict String
  pub status : String
  pub created_utc : ℕ
  pub started_utc : ℕ
  pub finished_utc : ℕ
  pub leased_by_agent_id : String
  pub leased_utc : ℕ
  pub exit_code : Option ℤ
  pub error : String

pub record JobExecutionStatusUpdateRequest : Type 0 where
  pub agent_id : String
  pub status : String
  pub exit_code : Option ℤ
  pub error : String
  pub current_step : String
  pub cache_stats : List JobCacheStats
  pub runtime_capabilities : Dict String
