-- ===== src/Examples.antt =====
-- Runs of the theorems at concrete jobs, receipts and operations.
mod Actions
mod Agents
mod Commands
mod Logs
mod Pipelines
mod Releases
mod Runs
mod Viewports
mod Watching
use Prim.Native.Nat.{Ordering}
use Prim.Native.String
use text.Mathlib.Text.{starts_with}
use ciwi.Base.{
  ℕ, zero, suc, ◌+◌, ◌*◌, String, Bool, true, false, not, ◌&&◌, ◌||◌, Option, none, some, List, [],
  ◌∷◌, ◌≡◌, ◌≢◌, refl, ◌==◌, if◌then◌else◌, map, all, any, is_some, is_empty, ap, find_where,
  select, arith, All, eqb, count_where,
}
use ciwi.Base.Dict.{Dict, lookup, insert, value_or_empty}
use ciwi.Base.Int.{pos}
use ciwi.Base.Result.{Result, ok, err}
use ciwi.Base.Sort.{sort_by, insert_by, text_lt}
use ciwi.Base.Text.{trim_space, to_lower, split_at}
use ciwi.Base.Unique.{contains, mentions, NoRepeat, IsTrimmed}
use ciwi.Jobs.{JobExecution, CreateJobExecutionRequest, JobExecutionStatusUpdateRequest}
use ciwi.Metadata.{flag, value}
use ciwi.Requirements.Semver.{Semver}
use ciwi.Requirements.{match_capabilities, check_keys}
use ciwi.Status.{
  queued, leased, running, succeeded, failed, normalize_job_execution_status,
  is_valid_job_execution_update_status, is_terminal_job_execution_status,
}
use ciwi.Store.Table.{
  Table, find_job, list_queued_job_executions, update_by_id, rows_affected, listed_before,
  created_text_lt, fraction_text,
}
use ciwi.Store.Create.{
  new_job_execution, job_id_at, stored_source, normalize_dependency_artifact_job_ids,
}
use ciwi.Store.Lease.{
  can_lease, scheduling_holds, capabilities_match, is_queued_row, lease_row, lease_from,
  lease_job_execution,
}
use ciwi.Store.Lease.Laws.{
  lease_from-exclusive, lease_from-Outcome, lease_from-is_some, Outcome, is_queued_still,
}
use ciwi.Base.Decimal.{decimal}
use ciwi.Base.Unique.{trim_unique, unique_from}
use ciwi.Store.Table.{get_job_execution}
use ciwi.Store.Create.{
  create_job_executions, validate_batch, validate_create_job_execution_request, insert_batch,
  insert_job_execution,
}
use ciwi.Store.Create.Laws.{normalize_dependency_artifact_job_ids_lem}
use ciwi.Store.Update.{
  update_between, update_job_execution_status, write_row, status_write, plan_update, is_late,
  started_after, run_plan,
}
use ciwi.Store.Update.Laws.{
  update_between-ended, update_between-other, update_between-holder, holder,
}
use ciwi.Store.Race.{update_between-overtakes_lease}
use ciwi.Store.Invariant.{IsSoundTable}
use ciwi.Store.Invariant.Reach.{Reach, Reach-IsSoundTable, start, call, create, lease, update}

abbrev semver : Semver
semver = record { is_valid = λ v. starts_with v "v"; compare_versions = String.compare }

abbrev no_time : String → Option ℕ
no_time text = none

abbrev build_request : CreateJobExecutionRequest
build_request = record {
  script = "make";
  env = [];
  required_capabilities = [];
  timeout_seconds = pos 60;
  artifact_globs = [];
  dependency_artifact_job_ids = [];
  caches = [];
  source = none;
  metadata = [];
  step_plan = [];
}

abbrev waiting_job : String → JobExecution
waiting_job id = record {
  id = id;
  request = build_request;
  current_step = "";
  cache_stats = [];
  runtime_capabilities = [];
  status = queued;
  created_utc = 1;
  started_utc = 0;
  finished_utc = 0;
  leased_by_agent_id = "";
  leased_utc = 0;
  exit_code = none;
  error = "";
}

abbrev two_jobs : Table
two_jobs = waiting_job "job-1" ∷ waiting_job "job-2" ∷ []

abbrev held_by : String → JobExecution → JobExecution
held_by agent job = record job { status = leased; leased_by_agent_id = agent; leased_utc = 5 }

first_lease : lease_from semver no_time 5 "agent-a" [] two_jobs two_jobs ≡ (
  some (held_by "agent-a" (waiting_job "job-1")),
  held_by "agent-a" (waiting_job "job-1") ∷ waiting_job "job-2" ∷ [],
)
unfolding lease_from can_lease scheduling_holds capabilities_match match_capabilities check_keys
    select sort_by insert_by flag value value_or_empty lookup trim_space rows_affected find_job
    find_where update_by_id
first_lease = refl

second_lease :
    (lease_from semver no_time 6 "agent-b" [] two_jobs
      (lease_from semver no_time 5 "agent-a" [] two_jobs two_jobs).1).0
    ≡ some (record (held_by "agent-b" (waiting_job "job-2")) { leased_utc = 6 })
unfolding lease_from can_lease scheduling_holds capabilities_match match_capabilities check_keys
    select sort_by insert_by flag value value_or_empty lookup trim_space rows_affected find_job
    find_where update_by_id
second_lease = refl

first_job :
    (lease_from semver no_time 5 "agent-a" [] two_jobs two_jobs).0
    ≡ some (held_by "agent-a" (waiting_job "job-1"))
first_job = ap (λ r. r.0) first_lease

lease_from-exclusive_example : (waiting_job "job-1").id ≢ (waiting_job "job-2").id
lease_from-exclusive_example =
    lease_from-exclusive semver no_time 5 6 "agent-a" "agent-b" [] [] two_jobs two_jobs two_jobs
      (held_by "agent-a" (waiting_job "job-1"))
      (record (held_by "agent-b" (waiting_job "job-2")) { leased_utc = 6 }) first_job second_lease

lease_from-Outcome_example :
    Outcome semver no_time 5 "agent-a" [] two_jobs two_jobs
      (lease_from semver no_time 5 "agent-a" [] two_jobs two_jobs)
lease_from-Outcome_example = lease_from-Outcome semver no_time 5 "agent-a" [] two_jobs two_jobs

lease_from-is_some_example :
    is_some (lease_from semver no_time 5 "agent-a" [] two_jobs two_jobs).0
    ≡ any (λ job. can_lease semver no_time 5 [] job && is_queued_still two_jobs job) two_jobs
lease_from-is_some_example = lease_from-is_some semver no_time 5 "agent-a" [] two_jobs two_jobs

abbrev done_job : JobExecution
done_job = record (waiting_job "job-1") {
  status = succeeded;
  started_utc = 2;
  finished_utc = 3;
  leased_by_agent_id = "agent-a";
}

abbrev report : String → JobExecutionStatusUpdateRequest
report status = record {
  agent_id = "agent-b";
  status = status;
  exit_code = none;
  error = "";
  cache_stats = [];
  runtime_capabilities = [];
  current_step = "";
}

abbrev two_held : Table
two_held = held_by "agent-a" (waiting_job "job-1") ∷ waiting_job "job-2" ∷ []

valid_report : is_valid_job_execution_update_status (report running).status ≡ true
unfolding is_valid_job_execution_update_status normalize_job_execution_status trim_space to_lower
valid_report = refl

found_done : find_job "job-1" (done_job ∷ []) ≡ some done_job
unfolding find_job find_where
found_done = refl

update_between-ended_example :
    find_job "job-1" (update_between "job-1" (report running) 9 two_jobs (done_job ∷ [])).1
    ≡ some done_job
update_between-ended_example =
    update_between-ended "job-1" (report running) 9 two_jobs (done_job ∷ []) "job-1" done_job
      valid_report found_done refl

update_between-other_example :
    find_job "job-2" (update_between "job-1" (report running) 9 two_jobs two_jobs).1
    ≡ find_job "job-2" two_jobs
update_between-other_example =
    update_between-other "job-1" (report running) 9 two_jobs two_jobs "job-2" refl

update_between-holder_example :
    holder (find_job "job-1" (update_between "job-1" (report running) 9 two_jobs two_held).1)
    ≡ holder (find_job "job-1" two_held)
update_between-holder_example =
    update_between-holder "job-1" (report running) 9 two_jobs two_held "job-1"

found_waiting : find_job "job-1" two_jobs ≡ some (waiting_job "job-1")
unfolding find_job find_where
found_waiting = refl

found_held :
    find_job "job-1" (held_by "agent-a" (waiting_job "job-1") ∷ [])
    ≡ some (held_by "agent-a" (waiting_job "job-1"))
unfolding find_job find_where
found_held = refl

queued_going : is_terminal_job_execution_status (waiting_job "job-1").status ≡ false
unfolding is_terminal_job_execution_status normalize_job_execution_status trim_space to_lower
queued_going = refl

update_between-overtakes_lease_example :
    (after : JobExecution) × (find_job "job-1"
        (update_between "job-1"
          (report running)
          9
          two_jobs
          (held_by "agent-a" (waiting_job "job-1") ∷ [])).1
      ≡ some after)
    × (after.status ≡ normalize_job_execution_status running)
    × (after.leased_by_agent_id ≡ "agent-a")
    × (after.leased_utc ≡ 5)
update_between-overtakes_lease_example =
    update_between-overtakes_lease "job-1" (report running) 9 two_jobs
      (held_by "agent-a" (waiting_job "job-1") ∷ []) (waiting_job "job-1")
      (held_by "agent-a" (waiting_job "job-1")) found_waiting queued_going refl found_held refl

-- One job is created, leased and reported as running.
abbrev created_table : Table
created_table = (create_job_executions 4 (build_request ∷ []) []).1

abbrev leased_table : Table
leased_table = (lease_job_execution semver no_time 5 "agent-b" [] created_table).1

abbrev running_table : Table
running_table = (update_job_execution_status "job-4" (report running) 5 leased_table).1

running_reached : Reach semver no_time 5 running_table
running_reached =
    call (update "job-4" (report running) valid_report)
      (call (lease "agent-b" [] refl) (call (create (build_request ∷ [])) (start (omega arith))))

Reach-IsSoundTable_example : IsSoundTable 5 running_table
Reach-IsSoundTable_example = Reach-IsSoundTable semver no_time running_reached

-- The run leaves one job, which is running since the report.
running_one : map (λ job. job.status) running_table ≡ running ∷ []
unfolding create_job_executions validate_batch validate_create_job_execution_request insert_batch
    insert_job_execution new_job_execution job_id_at decimal normalize_dependency_artifact_job_ids
    trim_unique unique_from stored_source lease_job_execution list_queued_job_executions
    listed_before created_text_lt fraction_text lease_from can_lease scheduling_holds
    capabilities_match match_capabilities check_keys select sort_by insert_by flag value
    value_or_empty lookup trim_space rows_affected find_job find_where update_by_id
    update_job_execution_status update_between plan_update is_late status_write started_after
    run_plan is_terminal_job_execution_status normalize_job_execution_status to_lower
    get_job_execution
running_one = refl

abbrev raw_ids : List String
raw_ids = " a " ∷ "" ∷ "a" ∷ []

normalize_dependency_artifact_job_ids_example :
    NoRepeat (normalize_dependency_artifact_job_ids raw_ids)
    × All IsTrimmed (normalize_dependency_artifact_job_ids raw_ids)
    × ((id : String)
        → contains id (normalize_dependency_artifact_job_ids raw_ids)
          ≡ (mentions id raw_ids && not (id == "")))
    × (normalize_dependency_artifact_job_ids (normalize_dependency_artifact_job_ids raw_ids)
        ≡ normalize_dependency_artifact_job_ids raw_ids)
normalize_dependency_artifact_job_ids_example = normalize_dependency_artifact_job_ids_lem raw_ids
