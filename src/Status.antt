-- ===== src/Status.antt =====
-- internal/protocol/job_execution_status.go: the statuses of a job execution, as the texts that
-- travel on the wire and stand in the database.
pub mod Laws
use ciwi.Base.{String, Bool, ◌==◌, ◌||◌, not, if◌then◌else◌}
use ciwi.Base.Text.{trim_space, to_lower}
use ciwi.Metadata.{Metadata, flag, value, key_scheduling_blocked, key_scheduling_blocked_reason}

abbrev pub queued : String
queued = "queued"

abbrev pub leased : String
leased = "leased"

abbrev pub running : String
running = "running"

abbrev pub succeeded : String
succeeded = "succeeded"

abbrev pub failed : String
failed = "failed"

unfoldable pub normalize_job_execution_status : String → String
normalize_job_execution_status status = to_lower (trim_space status)

unfoldable pub is_queued_job_execution_status : String → Bool
is_queued_job_execution_status status = normalize_job_execution_status status == queued

unfoldable pub is_pending_job_execution_status : String → Bool
is_pending_job_execution_status status =
    let s = normalize_job_execution_status status in s == queued || s == leased

unfoldable pub is_active_job_execution_status : String → Bool
is_active_job_execution_status status =
    let s = normalize_job_execution_status status in s == queued || s == leased || s == running

unfoldable pub is_terminal_job_execution_status : String → Bool
is_terminal_job_execution_status status =
    let s = normalize_job_execution_status status in s == succeeded || s == failed

unfoldable pub is_valid_job_execution_update_status : String → Bool
is_valid_job_execution_update_status status =
    let s = normalize_job_execution_status status in s == running || s == succeeded || s == failed

-- `JobSchedulingBlockedReason`, of the job's metadata.
unfoldable pub job_scheduling_blocked_reason : Metadata → String
job_scheduling_blocked_reason metadata =
    if not (flag metadata key_scheduling_blocked)
    then ""
    else value metadata key_scheduling_blocked_reason
