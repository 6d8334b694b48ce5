-- ===== src/Store/Create.antt =====
-- `CreateJobExecutions`: a batch is validated, then inserted in one transaction. Job `i` of a batch
-- is created `i` nanoseconds after the first and takes its id from that instant. An insert fails
-- where the id is taken, and then the transaction leaves the table as it was.
pub mod Laws
use Prim.Native.String.{◌++◌}
use ciwi.Base.{ℕ, ◌+◌, String, Option, none, some, List, [], ◌∷◌, ◌==◌, if◌then◌else◌, find_where}
use ciwi.Base.Decimal.{decimal}
use ciwi.Base.Int.{is_negative}
use ciwi.Base.Result.{Result, ok, err}
use ciwi.Base.Text.{trim_space}
use ciwi.Base.Unique.{trim_unique}
use ciwi.Jobs.{CreateJobExecutionRequest, JobExecution, SourceSpec}
use ciwi.Status.{queued}
use ciwi.Store.Table.{Table, StoreError, script_required, negative_timeout, duplicate_id, find_job}

unfoldable pub validate_create_job_execution_request : CreateJobExecutionRequest → Option StoreError
validate_create_job_execution_request req =
    if trim_space req.script == ""
    then some script_required
    else if is_negative req.timeout_seconds
    then some negative_timeout
    else none

-- The first invalid request of the batch.
unfoldable pub validate_batch : List CreateJobExecutionRequest → Option StoreError
validate_batch [] = none
validate_batch (req ∷ reqs) = elim (validate_create_job_execution_request req) [
  | none ↦ validate_batch reqs
  | some e ↦ some e
]

unfoldable pub normalize_dependency_artifact_job_ids : List String → List String
normalize_dependency_artifact_job_ids ids = trim_unique ids

-- A source without a repository is not read back.
unfoldable pub stored_source : Option SourceSpec → Option SourceSpec
stored_source none = none
stored_source (some source) = if source.repo == "" then none else some source

unfoldable pub job_id_at : ℕ → String
job_id_at created = "job-" ++ decimal created

-- The row of `insertJobExecution`.
unfoldable pub new_job_execution : CreateJobExecutionRequest → ℕ → JobExecution
new_job_execution req created = record {
  id = job_id_at created;
  request = record req {
    dependency_artifact_job_ids =
        normalize_dependency_artifact_job_ids req.dependency_artifact_job_ids;
    source = stored_source req.source;
  };
  current_step = "";
  cache_stats = [];
  runtime_capabilities = [];
  status = queued;
  created_utc = created;
  started_utc = 0;
  finished_utc = 0;
  leased_by_agent_id = "";
  leased_utc = 0;
  exit_code = none;
  error = "";
}

-- The job that `insertJobExecution` returns has the source of the request, also where it names no
-- repository.
abbrev pub returned_job : CreateJobExecutionRequest → JobExecution → JobExecution
returned_job req row = record row { request = record row.request { source = req.source } }

-- `INSERT`: refused where the primary key is taken.
unfoldable pub insert_job_execution : Table → JobExecution → Result StoreError Table
insert_job_execution table row = elim (find_job row.id table) [
  | none ↦ ok (row ∷ table)
  | some taken ↦ err duplicate_id
]

-- The loop of the transaction: the table with the rows so far, and the jobs to return.
unfoldable pub insert_batch :
    Table → ℕ → List CreateJobExecutionRequest → Result StoreError (Table × List JobExecution)
insert_batch table created [] = ok (table, [])
insert_batch table created (req ∷ reqs) =
    let row = new_job_execution req created in
    elim (insert_job_execution table row) [
      | err e ↦ err e
      | ok table' ↦ elim (insert_batch table' (created + 1) reqs) [
        | err e ↦ err e
        | ok (final, jobs) ↦ ok (final, returned_job req row ∷ jobs)
      ]
    ]

-- `CreateJobExecutions`, with the table that it leaves.
unfoldable pub create_job_executions :
    ℕ → List CreateJobExecutionRequest → Table → Result StoreError (List JobExecution) × Table
create_job_executions now requests table = elim (validate_batch requests) [
  | some e ↦ (err e, table)
  | none ↦ elim (insert_batch table now requests) [
    | err e ↦ (err e, table)
    | ok (final, jobs) ↦ (ok jobs, final)
  ]
]
