-- ===== src/Receipts/Execute.antt =====
-- `executeIdempotentCommand` of internal/application/command_receipts.go. The command itself is
-- any function of the rest of the server's state. `Codec` stands for `encoding/json`.
pub mod Laws
use Prim.Native.String.{len, ◌++◌}
use ciwi.Base.{String, Bool, true, false, not, ◌||◌, Option, none, some, ◌==◌, if◌then◌else◌, ltb}
use ciwi.Base.Result.{Result, ok, err}
use ciwi.Base.Text.{trim_space}
use ciwi.Receipts.{
  CommandReceipt, Receipts, ReceiptError, not_found, no_pending, claim_receipt, complete_receipt,
  fail_receipt, completed, failed, outcome_unknown, restart_message,
}
use ciwi.Receipts.Errors.{
  AppError, new_error, wrap_internal, conflict, failed_precondition, unavailable, invalid_argument,
}

-- `json.Marshal` and `json.Unmarshal`, of results and of failures; an error is its text.
pub record Codec {ℓ} (T : Type ℓ) : Type ℓ where
  pub encode : T → Result String String
  pub decode : String → Result String T
  pub encode_failure : AppError → Result String String
  pub decode_failure : String → Result String AppError

unfoldable pub receipt_error_text : ReceiptError → String
receipt_error_text not_found = "command receipt not found"
receipt_error_text no_pending = "pending command receipt not found"

-- `validateCommandKey`: `len` counts bytes.
unfoldable pub validate_command_key : String → Result AppError String
validate_command_key raw =
    let key = trim_space raw in
    if ltb 200 (len key)
    then err (new_error invalid_argument "idempotency key exceeds 200 characters")
    else ok key

module _ {ℓ} {T : Type ℓ} (codec : Codec T) where
  replay_failure : Result String AppError → Result AppError T
  replay_failure (err text) = err (wrap_internal "decode failed command receipt" text)
  replay_failure (ok failure) = err (new_error failure.kind failure.text)

  replay_result : Result String T → Result AppError T
  replay_result (err text) = err (wrap_internal "decode command receipt" text)
  replay_result (ok result) = ok result

  -- What a call with a key that was used before answers.
  unfoldable pub replay : String → String → CommandReceipt → Result AppError T
  unfolding replay_failure replay_result
  replay operation fingerprint receipt =
      if not (receipt.operation == operation) || not (receipt.fingerprint == fingerprint)
      then err (new_error conflict "idempotency key was already used for a different command")
      else if receipt.status == completed
      then replay_result (codec.decode receipt.result)
      else if receipt.status == failed
      then replay_failure (codec.decode_failure receipt.result)
      else if receipt.status == outcome_unknown
      then err (new_error failed_precondition restart_message)
      else err
          (new_error unavailable "the original command is still pending or its outcome is unknown")

  persisted :
      String
      → Result AppError T
      → Result ReceiptError (Unit {0}) × Receipts
      → Result AppError T × Receipts
  persisted what answer (ok u, receipts) = (answer, receipts)
  persisted what answer (err e, receipts) =
      (err (wrap_internal what (receipt_error_text e)), receipts)

  record_failure :
      String → AppError → Result String String → Receipts → Result AppError T × Receipts
  record_failure key e (err text) receipts =
      (err (wrap_internal "encode failed command receipt" text), receipts)
  record_failure key e (ok failure) receipts =
      persisted "persist failed command receipt" (err e) (fail_receipt key failure receipts)

  record_result : String → T → Result String String → Receipts → Result AppError T × Receipts
  record_result key result (err text) receipts =
      (err (wrap_internal "encode command receipt" text), receipts)
  record_result key result (ok encoded) receipts =
      persisted "complete command receipt" (ok result) (complete_receipt key encoded receipts)

  -- After the command has run: its outcome is recorded.
  unfoldable pub record_outcome :
      String → Result AppError T → Receipts → Result AppError T × Receipts
  unfolding persisted record_failure record_result
  record_outcome key (err e) receipts = record_failure key e (codec.encode_failure e) receipts
  record_outcome key (ok result) receipts = record_result key result (codec.encode result) receipts

module _ {ℓ κ} {T : Type ℓ} {W : Type κ} (codec : Codec T) where
  run_claimed :
      String → (W → Result AppError T × W) → Receipts × W → Result AppError T × (Receipts × W)
  run_claimed key execute (receipts, w) =
      let (outcome, w') = execute w in
      let (answer, receipts') = record_outcome codec key outcome receipts in
      (answer, (receipts', w'))

  after_claim :
      String
      → String
      → String
      → (W → Result AppError T × W)
      → W
      → Result ReceiptError (CommandReceipt × Bool) × Receipts
      → Result AppError T × (Receipts × W)
  after_claim key operation fingerprint execute w (err e, receipts) =
      (err (wrap_internal "claim command receipt" (receipt_error_text e)), (receipts, w))
  after_claim key operation fingerprint execute w (ok (receipt, true), receipts) =
      run_claimed key execute (receipts, w)
  after_claim key operation fingerprint execute w (ok (receipt, false), receipts) =
      (replay codec operation fingerprint receipt, (receipts, w))

  -- `executeIdempotentCommand` with a repository.
  unfoldable pub execute_idempotent_command :
      String
      → String
      → String
      → (W → Result AppError T × W)
      → Receipts × W
      → Result AppError T × (Receipts × W)
  unfolding run_claimed after_claim
  execute_idempotent_command key operation fingerprint execute (receipts, w) =
      let (answer, w') = execute w in
      if key == ""
      then (answer, (receipts, w'))
      else after_claim key operation fingerprint execute w
          (claim_receipt key operation fingerprint receipts)
