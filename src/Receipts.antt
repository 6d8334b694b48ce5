-- ===== src/Receipts.antt =====
-- internal/store/sqlite_command_receipts.go: the table of command receipts. `command_key` is its
-- primary key. The texts of the errors of SQLite are not modelled: a statement succeeds.
pub mod Errors
pub mod Execute
pub mod Laws
use ciwi.Base.{
  ℕ, String, Bool, true, false, ◌&&◌, Option, none, some, List, [], ◌∷◌, ◌==◌, if◌then◌else◌, eqb,
  map, find_where, delete_where, count_where,
}
use ciwi.Base.Result.{Result, ok, err}

pub record CommandReceipt : Type 0 where
  pub key : String
  pub operation : String
  pub fingerprint : String
  pub status : String
  pub result : String

abbrev pub pending : String
pending = "pending"

abbrev pub completed : String
completed = "completed"

abbrev pub failed : String
failed = "failed"

abbrev pub outcome_unknown : String
outcome_unknown = "outcome_unknown"

abbrev pub Receipts : Type 0
Receipts = List CommandReceipt

pub data ReceiptError : Type 0 where
  not_found no_pending : ReceiptError

abbrev pub has_key : String → CommandReceipt → Bool
has_key key receipt = receipt.key == key

-- `FindCommandReceipt`.
unfoldable pub find_receipt : String → Receipts → Option CommandReceipt
find_receipt key receipts = find_where (has_key key) receipts

-- `GetCommandReceipt`.
unfoldable pub get_receipt : String → Receipts → Result ReceiptError CommandReceipt
get_receipt key receipts = elim (find_receipt key receipts) [
  | none ↦ err not_found
  | some receipt ↦ ok receipt
]

abbrev pub pending_receipt : String → String → String → CommandReceipt
pending_receipt key operation fingerprint = record {
  key = key;
  operation = operation;
  fingerprint = fingerprint;
  status = pending;
  result = "";
}

-- `INSERT OR IGNORE`, with the number of rows affected.
unfoldable pub insert_or_ignore : CommandReceipt → Receipts → ℕ × Receipts
insert_or_ignore receipt receipts = elim (find_receipt receipt.key receipts) [
  | none ↦ (1, receipt ∷ receipts)
  | some taken ↦ (0, receipts)
]

claimed : Result ReceiptError CommandReceipt → ℕ → Result ReceiptError (CommandReceipt × Bool)
claimed (err e) rows = err e
claimed (ok receipt) rows = ok (receipt, eqb rows 1)

-- `ClaimCommandReceipt`: the receipt, and whether this call inserted it.
unfoldable pub claim_receipt :
    String → String → String → Receipts → Result ReceiptError (CommandReceipt × Bool) × Receipts
unfolding claimed
claim_receipt key operation fingerprint receipts =
    let (rows, receipts') = insert_or_ignore (pending_receipt key operation fingerprint) receipts in
    (claimed (get_receipt key receipts') rows, receipts')

abbrev pub is_pending : String → CommandReceipt → Bool
is_pending key receipt = receipt.key == key && receipt.status == pending

abbrev pub finish_row : String → String → String → CommandReceipt → CommandReceipt
finish_row key status result receipt =
    if is_pending key receipt then record receipt { status = status; result = result } else receipt

-- `finishCommandReceipt`. The update is not undone where the count of rows is wrong.
unfoldable pub finish_receipt :
    String → String → String → Receipts → Result ReceiptError (Unit {0}) × Receipts
finish_receipt key status result receipts = (
  if eqb (count_where (is_pending key) receipts) 1 then ok tt else err no_pending,
  map (finish_row key status result) receipts,
)

abbrev pub complete_receipt : String → String → Receipts → Result ReceiptError (Unit {0}) × Receipts
complete_receipt key result = finish_receipt key completed result

abbrev pub fail_receipt : String → String → Receipts → Result ReceiptError (Unit {0}) × Receipts
fail_receipt key result = finish_receipt key failed result

-- `AbandonCommandReceipt`.
unfoldable pub abandon_receipt : String → Receipts → Receipts
abandon_receipt key receipts = delete_where (is_pending key) receipts

abbrev pub restart_message : String
restart_message = "the server restarted before the command outcome was recorded"

abbrev pub unknown_result : String
unknown_result =
    "{\"kind\":\"failed_precondition\",\"message\":\"the server restarted before the command outcome was recorded\"}"

abbrev pub forget_row : CommandReceipt → CommandReceipt
forget_row receipt =
    if receipt.status == pending
    then record receipt { status = outcome_unknown; result = unknown_result }
    else receipt

-- `MarkPendingCommandReceiptsUnknown`, when the server starts.
unfoldable pub mark_pending_unknown : Receipts → Receipts
mark_pending_unknown receipts = map forget_row receipts
