-- ===== src/Jobs/Attempts.antt =====
-- internal/protocol/job_attempts.go: the latest attempt of each logical job.
pub mod Laws
pub mod Newest
use ciwi.Base.{String, Bool, ◌&&◌, ◌||◌, none, some, List, [], ◌∷◌, ◌==◌, if◌then◌else◌, ltb, eqb}
use ciwi.Base.Dict.{Dict, lookup, insert}
use ciwi.Base.Sort.{text_lt}
use ciwi.Base.Text.{trim_space}
use ciwi.Jobs.{JobExecution}
use ciwi.Metadata.{value, key_attempt_root_job_id}

unfoldable pub job_execution_attempt_root_id : JobExecution → String
job_execution_attempt_root_id job =
    let root = value job.metadata key_attempt_root_job_id in
    if root == "" then trim_space job.id else root

-- The test by which a job replaces the latest one seen so far.
unfoldable pub supersedes : JobExecution → JobExecution → Bool
supersedes job current =
    ltb current.created_utc job.created_utc
    || (eqb job.created_utc current.created_utc
        && text_lt (trim_space current.id) (trim_space job.id))

unfoldable pub note_attempt : Dict JobExecution → JobExecution → Dict JobExecution
note_attempt latest job =
    let root = job_execution_attempt_root_id job in
    elim (lookup root latest) [
      | none ↦ insert root job latest
      | some current ↦ if supersedes job current then insert root job latest else latest
    ]

unfoldable pub latest_by_root : Dict JobExecution → List JobExecution → Dict JobExecution
latest_by_root latest [] = latest
latest_by_root latest (job ∷ jobs) = latest_by_root (note_attempt latest job) jobs

unfoldable pub is_selected : Dict JobExecution → JobExecution → Bool
is_selected latest job = elim (lookup (job_execution_attempt_root_id job) latest) [
  | none ↦ Bool.false
  | some selected ↦ selected.id == job.id
]

unfoldable pub keep_selected : Dict JobExecution → List JobExecution → List JobExecution
keep_selected latest [] = []
keep_selected latest (job ∷ jobs) =
    let rest = keep_selected latest jobs in if is_selected latest job then job ∷ rest else rest

-- `LatestJobExecutionAttempts`.
unfoldable pub latest_job_execution_attempts : List JobExecution → List JobExecution
latest_job_execution_attempts [] = []
latest_job_execution_attempts (job ∷ []) = job ∷ []
latest_job_execution_attempts (job ∷ other ∷ jobs) =
    keep_selected (latest_by_root [] (job ∷ other ∷ jobs)) (job ∷ other ∷ jobs)
