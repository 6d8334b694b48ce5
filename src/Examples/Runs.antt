-- ===== src/Examples/Runs.antt =====
-- Runs of pipelines.
use ciwi.Base.{◌≡◌, true, not, ◌&&◌, ◌||◌, List, [], ◌∷◌, ◌==◌, if◌then◌else◌, any, all}
use ciwi.Base.Text.{trim_space}
use ciwi.Chains.{is_in_chain, no_status, pipeline_chain_status}
use ciwi.Chains.Laws.{is_done, is_good, pipeline_chain_status_lem}
use ciwi.Examples.{waiting_job, done_job}
use ciwi.Jobs.{JobExecution}
use ciwi.Jobs.Attempts.{latest_job_execution_attempts}

abbrev in_run : JobExecution → JobExecution
in_run job = record job {
  request = record job.request {
    metadata = ("chain_run_id", "run-1") ∷ ("pipeline_id", "build") ∷ [];
  };
}

abbrev two_runs : List JobExecution
two_runs = in_run (waiting_job "job-2") ∷ in_run done_job ∷ []

pipeline_chain_status_example : pipeline_chain_status two_runs "run-1" "build" ≡ (
    if not (trim_space "build" == "")
      && any (is_in_chain "run-1" (trim_space "build")) (latest_job_execution_attempts two_runs)
    then record {
      terminated =
          all
            (λ j. not (is_in_chain "run-1" (trim_space "build") j) || is_done j)
            (latest_job_execution_attempts two_runs);
      all_succeeded =
          all
            (λ j. not (is_in_chain "run-1" (trim_space "build") j) || is_good j)
            (latest_job_execution_attempts two_runs);
      exists = true;
    }
    else no_status)
pipeline_chain_status_example = pipeline_chain_status_lem two_runs "run-1" "build"

-- A job and its rerun.
abbrev attempts : List JobExecution
attempts =
    done_job
    ∷ record (waiting_job "job-2") {
      created_utc = 2;
      request = record (waiting_job "job-2").request {
        metadata = ("attempt_root_job_id", "job-1") ∷ [];
      };
    }
    ∷ []
