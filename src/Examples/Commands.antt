-- ===== src/Examples/Commands.antt =====
-- Commands with receipts.
use ciwi.Base.{ℕ, ◌+◌, String, none, some, [], ◌∷◌, ◌≡◌, refl, find_where}
use ciwi.Base.Result.{Result, ok}
use ciwi.Receipts.{
  CommandReceipt, Receipts, completed, find_receipt, claim_receipt, mark_pending_unknown,
}
use ciwi.Receipts.Laws.{Statements, done, next, claim, restart, Statements-keeps}
use ciwi.Receipts.Errors.{AppError}
use ciwi.Receipts.Execute.{Codec, replay, execute_idempotent_command}
use ciwi.Receipts.Execute.Laws.{execute-replays, execute-once}

-- Results that are texts are stored as they are; a failure keeps its text.
abbrev text_codec : Codec String
text_codec = record {
  encode = λ result. ok result;
  decode = λ text. ok text;
  encode_failure = λ e. ok e.text;
  decode_failure = λ text. ok (record { kind = "not_found"; text = text });
}

-- A command that counts its runs.
abbrev count_run : ℕ → Result AppError String × ℕ
count_run n = (ok "done", n + 1)

abbrev finished : CommandReceipt
finished = record {
  key = "k";
  operation = "run";
  fingerprint = "f";
  status = completed;
  result = "done";
}

found_finished : find_receipt "k" (finished ∷ []) ≡ some finished
unfolding find_receipt find_where
found_finished = refl

nothing_found : find_receipt "k" [] ≡ none
unfolding find_receipt find_where
nothing_found = refl

execute-replays_example :
    execute_idempotent_command text_codec "k" "run" "f" count_run (finished ∷ [], 7)
    ≡ (replay text_codec "run" "f" finished, (finished ∷ [], 7))
execute-replays_example =
    execute-replays text_codec "k" "run" "f" count_run (finished ∷ []) 7 finished refl
      found_finished

execute-once_example :
    execute_idempotent_command text_codec "k" "run" "f" count_run
      (execute_idempotent_command text_codec "k" "run" "f" count_run ([], 7)).1
    ≡ (ok "done", (execute_idempotent_command text_codec "k" "run" "f" count_run ([], 7)).1)
execute-once_example =
    execute-once text_codec "k" "run" "f" count_run count_run [] 7 refl nothing_found
      ("done", refl, refl)

abbrev later : Receipts
later = mark_pending_unknown (claim_receipt "k" "run" "f" (finished ∷ [])).1

restarted : Statements (finished ∷ []) later
restarted = next (next done (claim "k" "run" "f")) restart

Statements-keeps_example : find_receipt "k" later ≡ some finished
Statements-keeps_example = Statements-keeps restarted "k" finished refl found_finished
