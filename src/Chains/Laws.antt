-- ===== src/Chains/Laws.antt =====
-- The loop against what it means.
use ciwi.Base.{
  String, Bool, true, not, ◌&&◌, ◌||◌, List, [], ◌∷◌, ◌≡◌, ◌∙◌, ◌==◌, if◌then◌else◌, any, all,
  arith,
}
use ciwi.Base.Text.{trim_space}
use ciwi.Jobs.{JobExecution}
use ciwi.Jobs.Attempts.{latest_job_execution_attempts}
use ciwi.Status.{succeeded, normalize_job_execution_status, is_terminal_job_execution_status}
use ciwi.Chains.{
  ChainStatus, is_in_chain, note_status, note_statuses, no_status, pipeline_chain_status,
}

-- The job is of the pipeline; then it has ended, or ended well.
abbrev pub is_done : JobExecution → Bool
is_done job = is_terminal_job_execution_status (normalize_job_execution_status job.status)

abbrev pub is_good : JobExecution → Bool
is_good job = is_done job && normalize_job_execution_status job.status == succeeded

abbrev pub summary : String → String → List JobExecution → ChainStatus → ChainStatus
summary chain_run_id pipeline_id jobs seen = record {
  terminated =
      seen.terminated && all (λ j. not (is_in_chain chain_run_id pipeline_id j) || is_done j) jobs;
  all_succeeded =
      seen.all_succeeded
      && all (λ j. not (is_in_chain chain_run_id pipeline_id j) || is_good j) jobs;
  exists = seen.exists || any (is_in_chain chain_run_id pipeline_id) jobs;
}

note_statuses-summary :
    (chain_run_id pipeline_id : String) (jobs : List JobExecution) (seen : ChainStatus)
    → note_statuses chain_run_id pipeline_id jobs seen ≡ summary chain_run_id pipeline_id jobs seen
unfolding note_statuses note_status any all
note_statuses-summary chain_run_id pipeline_id [] seen = ground arith
note_statuses-summary chain_run_id pipeline_id (job ∷ jobs) seen =
    note_statuses-summary chain_run_id pipeline_id jobs
      (note_status chain_run_id pipeline_id job seen)
    ∙ ground arith

-- The status of a pipeline in a chain, over the latest attempts: it exists if a job is of that run
-- and pipeline; it has then terminated if every such job has ended, and succeeded if every such job
-- has succeeded. A blank pipeline has no status.
pub pipeline_chain_status_lem :
    (jobs : List JobExecution) (chain_run_id raw : String)
    → pipeline_chain_status jobs chain_run_id raw ≡ (
        if not (trim_space raw == "")
          && any (is_in_chain chain_run_id (trim_space raw)) (latest_job_execution_attempts jobs)
        then record {
          terminated =
              all
                (λ j. not (is_in_chain chain_run_id (trim_space raw) j) || is_done j)
                (latest_job_execution_attempts jobs);
          all_succeeded =
              all
                (λ j. not (is_in_chain chain_run_id (trim_space raw) j) || is_good j)
                (latest_job_execution_attempts jobs);
          exists = true;
        }
        else no_status)
unfolding pipeline_chain_status
pipeline_chain_status_lem jobs chain_run_id raw = rw (note_statuses-summary) (ground arith)
