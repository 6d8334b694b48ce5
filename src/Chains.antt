-- ===== src/Chains.antt =====
-- internal/server/server_pipeline_chains_runtime.go: the status of a pipeline in a run of a chain.
use ciwi.Base.{String, Bool, true, false, not, ◌&&◌, List, [], ◌∷◌, ◌==◌, if◌then◌else◌, any, all}
use ciwi.Base.Text.{trim_space, split_at}
use ciwi.Base.Unique.{trim_unique}
pub mod Laws
use ciwi.Jobs.{JobExecution}
use ciwi.Jobs.Attempts.{latest_job_execution_attempts}
use ciwi.Metadata.{value, key_chain_run_id, key_pipeline_id}
use ciwi.Status.{succeeded, normalize_job_execution_status, is_terminal_job_execution_status}

-- `parseChainDependsOnPipelines`; nil is the empty list.
unfoldable pub parse_chain_depends_on_pipelines : String → List String
parse_chain_depends_on_pipelines raw =
    let text = trim_space raw in if text == "" then [] else trim_unique (split_at b',' text)

-- The three results of `pipelineChainStatus`.
pub record ChainStatus : Type 0 where
  pub terminated : Bool
  pub all_succeeded : Bool
  pub exists : Bool

-- The two tests that a job of the pipeline passes.
unfoldable pub is_in_chain : String → String → JobExecution → Bool
is_in_chain chain_run_id pipeline_id job =
    value job.metadata key_chain_run_id == chain_run_id
    && value job.metadata key_pipeline_id == pipeline_id

-- One round of the loop.
unfoldable pub note_status : String → String → JobExecution → ChainStatus → ChainStatus
note_status chain_run_id pipeline_id job seen =
    let status = normalize_job_execution_status job.status in
    if not (is_in_chain chain_run_id pipeline_id job)
    then seen
    else if not (is_terminal_job_execution_status status)
    then record { terminated = false; all_succeeded = false; exists = true }
    else if not (status == succeeded)
    then record seen { all_succeeded = false; exists = true }
    else record seen { exists = true }

unfoldable pub note_statuses : String → String → List JobExecution → ChainStatus → ChainStatus
note_statuses chain_run_id pipeline_id [] seen = seen
note_statuses chain_run_id pipeline_id (job ∷ jobs) seen =
    note_statuses chain_run_id pipeline_id jobs (note_status chain_run_id pipeline_id job seen)

abbrev pub no_status : ChainStatus
no_status = record { terminated = false; all_succeeded = false; exists = false }

-- `pipelineChainStatus`.
unfoldable pub pipeline_chain_status : List JobExecution → String → String → ChainStatus
pipeline_chain_status all chain_run_id raw =
    let pipeline_id = trim_space raw in
    let seen =
      note_statuses chain_run_id pipeline_id (latest_job_execution_attempts all)
        (record { terminated = true; all_succeeded = true; exists = false }) in
    if pipeline_id == "" then no_status else if not seen.exists then no_status else seen

-- `parseNeedsJobIDs`.
unfoldable pub parse_needs_job_ids : String → List String
parse_needs_job_ids raw =
    let text = trim_space raw in if text == "" then [] else trim_unique (split_at b',' text)

unfoldable pub needs_contains : List String → String → Bool
needs_contains needs target =
    not (trim_space target == "") && any (λ need. trim_space need == trim_space target) needs
