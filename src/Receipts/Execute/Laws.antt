-- ===== src/Receipts/Execute/Laws.antt =====
-- A command with a key runs once, and a repeated call answers from the receipt.
use ciwi.Base.{
  String, false, none, some, ◌∷◌, ◌≡◌, refl, ap, ◌∙◌, ◌==◌, map, count_where, find_where, eq_refl,
}
use ciwi.Base.Result.{Result, ok, err}
use ciwi.Receipts.{
  CommandReceipt, Receipts, pending, completed, failed, find_receipt, pending_receipt, is_pending,
  finish_row, finish_receipt,
}
use ciwi.Receipts.Laws.{claim_receipt_lem, count_where-free}
use ciwi.Receipts.Errors.{AppError, new_error}
use ciwi.Receipts.Execute.{
  Codec, replay_failure, replay_result, replay, persisted, record_failure, record_result,
  record_outcome, run_claimed, after_claim, execute_idempotent_command,
}

-- The outcome's receipt: its status and its text.
pub record Recorded {ℓ} {T : Type ℓ} (codec : Codec T) (outcome : Result AppError T) : Type ℓ where
  pub status : String
  pub text : String
  pub is_final : (status == pending) ≡ false
  -- Recording the outcome of a claimed key returns the outcome.
  pub records :
      (key : String) (receipts : Receipts)
      → count_where (is_pending key) receipts ≡ 1
      → record_outcome codec key outcome receipts
        ≡ (outcome, map (finish_row key status text) receipts)
  -- The same command gets the outcome back.
  pub replays :
      (receipt : CommandReceipt)
      → receipt.status ≡ status
      → receipt.result ≡ text
      → replay codec receipt.operation receipt.fingerprint receipt ≡ outcome

-- The codec gives the outcome back, as `encoding/json` does for the results that commands have.
abbrev pub RoundTrips : {T : Type 0} → Codec T → Result AppError T → Type 0
RoundTrips codec (ok result) =
    (text : String) × (codec.encode result ≡ ok text) × (codec.decode text ≡ ok result)
RoundTrips codec (err e) =
    (text : String) × (codec.encode_failure e ≡ ok text)
    × (codec.decode_failure text ≡ ok e)
    × (new_error e.kind e.text ≡ e)

module _ {T : Type 0} (codec : Codec T) where
  Recorded-ok :
      (result : T) (text : String)
      → codec.encode result ≡ ok text
      → codec.decode text ≡ ok result
      → Recorded codec (ok result)
  unfolding record_outcome record_result persisted finish_receipt replay replay_result
  Recorded-ok result text e d = record {
    status = completed;
    text = text;
    is_final = refl;
    records = λ key receipts one. rw (e, one) refl;
    replays =
        λ receipt s t. rw (eq_refl receipt.operation, eq_refl receipt.fingerprint, s, t, d) refl;
  }

  Recorded-err :
      (e : AppError) (text : String)
      → codec.encode_failure e ≡ ok text
      → codec.decode_failure text ≡ ok e
      → new_error e.kind e.text ≡ e
      → Recorded codec (err e)
  unfolding record_outcome record_failure persisted finish_receipt replay replay_failure
  Recorded-err e text en d same = record {
    status = failed;
    text = text;
    is_final = refl;
    records = λ key receipts one. rw (en, one) refl;
    replays = λ receipt s t.
        rw (eq_refl receipt.operation, eq_refl receipt.fingerprint, s, t, d) (ap err same);
  }

  RoundTrips-Recorded :
      (outcome : Result AppError T) → RoundTrips codec outcome → Recorded codec outcome
  RoundTrips-Recorded (ok result) (text, e, d) = Recorded-ok result text e d
  RoundTrips-Recorded (err e) (text, en, d, same) = Recorded-err e text en d same

-- The receipt that the first run leaves.
abbrev pub final_receipt : String → String → String → String → String → CommandReceipt
final_receipt key operation fingerprint status result = record {
  key = key;
  operation = operation;
  fingerprint = fingerprint;
  status = status;
  result = result;
}

finish_claimed :
    (key operation fingerprint status result : String)
    → finish_row key status result (pending_receipt key operation fingerprint)
      ≡ final_receipt key operation fingerprint status result
finish_claimed key operation fingerprint status result = rw (eq_refl key) refl

one_pending :
    (key operation fingerprint : String) (receipts : Receipts)
    → find_receipt key receipts ≡ none
    → count_where (is_pending key) (pending_receipt key operation fingerprint ∷ receipts) ≡ 1
unfolding count_where
one_pending key operation fingerprint receipts free =
    rw (eq_refl key, count_where-free key receipts free) refl

found_first :
    (key operation fingerprint status text : String) (receipts : Receipts)
    → find_receipt key
        (map (finish_row key status text) (pending_receipt key operation fingerprint ∷ receipts))
      ≡ some (final_receipt key operation fingerprint status text)
unfolding find_receipt find_where
found_first key operation fingerprint status text receipts = rw (eq_refl key, eq_refl key) refl

module _ {κ} {T : Type 0} {W : Type κ} (codec : Codec T) where
  -- A call with a key that is not empty and has a receipt answers from that receipt: it does not
  -- run the command and changes nothing.
  pub execute-replays :
      (key operation fingerprint : String) (execute : W → Result AppError T × W)
      (receipts : Receipts) (w : W) (receipt : CommandReceipt)
      → (key == "") ≡ false
      → find_receipt key receipts ≡ some receipt
      → execute_idempotent_command codec key operation fingerprint execute (receipts, w)
        ≡ (replay codec operation fingerprint receipt, (receipts, w))
  unfolding execute_idempotent_command after_claim
  execute-replays key operation fingerprint execute receipts w receipt named found =
      rw (named, claim_receipt_lem key operation fingerprint receipts, found) refl

  -- The first call with a key: the command runs once, on the state as it is, and its outcome is
  -- both answered and recorded.
  execute-first :
      (key operation fingerprint : String) (execute : W → Result AppError T × W)
      (receipts : Receipts) (w : W)
      → (key == "") ≡ false
      → find_receipt key receipts ≡ none
      → (r : Recorded codec (execute w).0)
      → execute_idempotent_command codec key operation fingerprint execute (receipts, w) ≡ (
        (execute w).0,
        (
          map
              (finish_row key r.status r.text)
              (pending_receipt key operation fingerprint ∷ receipts),
          (execute w).1,
        ),
      )
  unfolding execute_idempotent_command after_claim run_claimed
  execute-first key operation fingerprint execute receipts w named free r =
      rw
        (
          named,
          claim_receipt_lem key operation fingerprint receipts,
          free,
          r.records key (pending_receipt key operation fingerprint ∷ receipts)
              (one_pending key operation fingerprint receipts free),
        )
        refl

  -- At most once: after a first call with a fresh key that is not empty, whose outcome the codec
  -- gives back, a repeated call with the same key, operation and fingerprint gets the same
  -- answer, success or failure, and leaves the state as the first call left it.
  pub execute-once :
      (key operation fingerprint : String) (execute again : W → Result AppError T × W)
      (receipts : Receipts) (w : W)
      → (key == "") ≡ false
      → find_receipt key receipts ≡ none
      → RoundTrips codec (execute w).0
      → execute_idempotent_command codec key operation fingerprint again
          (execute_idempotent_command codec key operation fingerprint execute (receipts, w)).1
        ≡ (
          (execute w).0,
          (execute_idempotent_command codec key operation fingerprint execute (receipts, w)).1,
        )
  execute-once key operation fingerprint execute again receipts w named free round =
      rw (execute-first key operation fingerprint execute receipts w named free r) (
        execute-replays key operation fingerprint again _ (execute w).1
          (final_receipt key operation fingerprint r.status r.text) named
          (found_first key operation fingerprint r.status r.text receipts)
        ∙ ap (λ answer. (answer, after))
            (r.replays (final_receipt key operation fingerprint r.status r.text) refl refl))
    where
      r : Recorded codec (execute w).0
      r = RoundTrips-Recorded codec (execute w).0 round

      after : Receipts × W
      after = (
        map (finish_row key r.status r.text) (pending_receipt key operation fingerprint ∷ receipts),
        (execute w).1,
      )
