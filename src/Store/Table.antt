-- ===== src/Store/Table.antt =====
-- The table of job executions, its lookups by the primary key, and the orders of the two lists.
pub mod Laws
use Prim.Native.String.{char_at}
use Prim.Native.String
use text.Mathlib.Text.{is_lt}
use ciwi.Base.{
  ℕ, zero, suc, ◌+◌, ◌*◌, ◌/◌, ◌%◌, String, Bool, ◌&&◌, ◌||◌, Option, none, some, List, [], ◌∷◌,
  ◌==◌, if◌then◌else◌, ltb, eqb, select, find_where,
}
use ciwi.Base.Result.{Result, ok, err}
use ciwi.Base.Sort.{sort_by, text_lt}
use ciwi.Jobs.{JobExecution}
use ciwi.Status.{queued}

abbrev pub Table : Type 0
Table = List JobExecution

pub data StoreError : Type 0 where
  not_found leased_by_another not_leased not_pending script_required negative_timeout : StoreError
  job_id_required agent_id_required duplicate_id bad_max_age changed_meanwhile : StoreError

abbrev pub has_id : String → JobExecution → Bool
has_id id row = row.id == id

-- `SELECT … WHERE id = ?`.
unfoldable pub find_job : String → Table → Option JobExecution
find_job id table = find_where (has_id id) table

-- `GetJobExecution`.
unfoldable pub get_job_execution : String → Table → Result StoreError JobExecution
get_job_execution id table = elim (find_job id table) [ none ↦ err not_found | some row ↦ ok row ]

-- `UPDATE … WHERE id = ? AND test`: at most one row has the primary key.
unfoldable pub update_by_id :
    String → (JobExecution → Bool) → (JobExecution → JobExecution) → Table → Table
update_by_id id test change [] = []
update_by_id id test change (row ∷ rows) =
    let rest = update_by_id id test change rows in
    if row.id == id then (if test row then change row else row) ∷ rows else row ∷ rest

-- The number of rows that this statement changes.
unfoldable pub rows_affected : String → (JobExecution → Bool) → Table → ℕ
rows_affected id test table = elim (find_job id table) [
  | none ↦ 0
  | some row ↦ if test row then 1 else 0
]

-- The fraction of a second as `time.RFC3339Nano` writes it: nine digits without the trailing
-- zeros, behind a point, and nothing at all for a whole second; then the zone `Z`.
fraction_digits : ℕ → ℕ → String
fraction_digits zero n = ""
fraction_digits (suc places) n =
    let rest = fraction_digits places ((n * 10) % 1_000_000_000) in
    if eqb n 0 then "" else String.◌∷◌ (char_at "0123456789" (n / 100_000_000)) rest

unfoldable pub fraction_text : ℕ → String
unfolding fraction_digits
fraction_text nanos =
    if eqb nanos 0 then "Z" else String.◌++◌ "." (String.◌++◌ (fraction_digits 9 nanos) "Z")

-- `ORDER BY created_utc` compares the texts of the two instants. Up to the second they have one
-- width, so this is the order of the seconds, and then that of the fractions' texts.
unfoldable pub created_text_lt : ℕ → ℕ → Bool
created_text_lt a b =
    ltb (a / 1_000_000_000) (b / 1_000_000_000)
    || (eqb (a / 1_000_000_000) (b / 1_000_000_000)
        && text_lt (fraction_text (a % 1_000_000_000)) (fraction_text (b % 1_000_000_000)))

-- `ORDER BY created_utc ASC, id ASC`.
unfoldable pub listed_before : JobExecution → JobExecution → Bool
listed_before a b =
    created_text_lt a.created_utc b.created_utc
    || (eqb a.created_utc b.created_utc && text_lt a.id b.id)

-- `ListJobExecutions`: the newest first.
unfoldable pub list_job_executions : Table → List JobExecution
list_job_executions table = sort_by (λ a b. listed_before b a) table

-- `ListQueuedJobExecutions`: the oldest first.
unfoldable pub list_queued_job_executions : Table → List JobExecution
list_queued_job_executions table =
    sort_by listed_before (select (λ row. row.status == queued) table)
