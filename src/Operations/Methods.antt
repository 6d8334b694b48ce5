-- ===== src/Operations/Methods.antt =====
-- The methods of the coordinator. The goroutine that `Submit` starts is `set_state` with `running`,
-- then the executor, then `finish`; or `finish` alone, where it was cancelled before it got a worker.
use ciwi.Base.{
  ℕ, String, Bool, true, false, not, ◌&&◌, ◌||◌, Option, none, some, [], ◌∷◌, ◌==◌, if◌then◌else◌,
  eqb,
}
use ciwi.Base.Dict.{Dict, lookup, insert, delete, value_or_empty}
use ciwi.Base.Result.{Result, ok, err}
use ciwi.Base.Text.{trim_space}
use ciwi.Operations.{
  State, queued, succeeded, failed, cancelled, outcome_unknown, unset, is_terminal, is_query,
  is_mutation, Definition, Request, Operation, Outcome, Submission, accepted, duplicate, conflict,
  OperationError, command_required, bad_class, identities_required, incomplete, fingerprint_failed,
  journal_failed, Journal, Coordinator,
}

active_only : Option Operation → Option Operation
active_only none = none
active_only (some op) = if is_terminal op.state then none else some op

-- The operation that an index names for a key, if it is active. An id that is empty names none.
unfoldable pub active_in : Dict String → String → Dict Operation → Option Operation
unfolding active_only
active_in index key operations =
    let id = value_or_empty key index in
    if id == "" then none else active_only (lookup id operations)

-- `cancels[id]` is called, if it is registered.
unfoldable pub call_cancel : String → Dict Bool → Dict Bool
call_cancel id cancels = elim (lookup id cancels) [
  | none ↦ cancels
  | some called ↦ insert id true cancels
]

unfoldable pub new_operation : ℕ → String → String → String → Request → Operation
new_operation now id key fingerprint request = record {
  id = id;
  idempotency_key = key;
  command = request.definition.command;
  arguments = request.arguments;
  fingerprint = fingerprint;
  scope =
      if request.definition.scope == ""
      then request.definition.command
      else request.definition.scope;
  class = request.definition.class;
  persistence = request.definition.persistence;
  pending_label = request.definition.pending;
  state = queued;
  message = "";
  created_at = now;
  updated_at = now;
}

-- `Restore`'s changes of the journaled operation.
unfoldable pub requeued : ℕ → Operation → Operation
requeued now op = record op {
  state = queued;
  message = "";
  updated_at = now;
  created_at = if eqb op.created_at 0 then now else op.created_at;
}

module _ {J : Type 0} (journal : Journal J) where
  -- The operation is entered in all maps.
  unfoldable pub register : Operation → Coordinator J → Coordinator J
  register op c = record c {
    operations = insert op.id op c.operations;
    by_fingerprint = insert op.fingerprint op.id c.by_fingerprint;
    by_scope = insert op.scope op.id c.by_scope;
    cancels = insert op.id false c.cancels;
  }

  unfoldable pub journaled :
      Operation
      → Coordinator J
      → Result String (Unit {0}) × J
      → Result OperationError Submission × Coordinator J
  journaled op c (err text, j) = (err (journal_failed text), record c { journal = j })
  journaled op c (ok u, j) = (ok (accepted op), register op (record c { journal = j }))

  -- The end of `Submit` and `Restore`: a mutation is journaled before it is registered.
  unfoldable pub accept :
      Operation → Coordinator J → Result OperationError Submission × Coordinator J
  accept op c =
      if is_mutation op.class
      then journaled op c (journal.put op c.journal)
      else (ok (accepted op), register op c)

  -- The check of the scope: a query cancels the query that it replaces; otherwise the active
  -- operation is in the way.
  unfoldable pub scope_checked :
      Operation
      → Definition
      → Coordinator J
      → Option Operation
      → Result OperationError Submission × Coordinator J
  scope_checked op definition c none = accept op c
  scope_checked op definition c (some existing) =
      if is_query definition.class && is_query existing.class
      then accept op (record c {
        cancels = call_cancel (value_or_empty definition.scope c.by_scope) c.cancels;
      })
      else (ok (conflict existing), c)

  unfoldable pub fingerprint_checked :
      Operation
      → Definition
      → Coordinator J
      → Option Operation
      → Result OperationError Submission × Coordinator J
  fingerprint_checked op definition c (some existing) = (ok (duplicate existing), c)
  fingerprint_checked op definition c none =
      scope_checked op definition c (active_in c.by_scope definition.scope c.operations)

  unfoldable pub fingerprinted :
      ℕ
      → String
      → String
      → Request
      → Coordinator J
      → Result String String
      → Result OperationError Submission × Coordinator J
  fingerprinted now id key request c (err text) = (err (fingerprint_failed text), c)
  fingerprinted now id key request c (ok fingerprint) =
      fingerprint_checked (new_operation now id key fingerprint request) request.definition c
        (active_in c.by_fingerprint fingerprint c.operations)

  -- `Submit`, up to the goroutine that it starts for an accepted operation.
  unfoldable pub submit :
      (String → Dict String → Result String String)
      → ℕ
      → String
      → String
      → Request
      → Coordinator J
      → Result OperationError Submission × Coordinator J
  submit fingerprint now id key request c =
      if trim_space request.definition.command == ""
      then (err command_required, c)
      else if not (is_query request.definition.class) && not (is_mutation request.definition.class)
      then (err bad_class, c)
      else fingerprinted now id key request c
          (fingerprint request.definition.command request.arguments)

  unfoldable pub restore_scope_checked :
      Operation
      → Coordinator J
      → Option Operation
      → Result OperationError Submission × Coordinator J
  restore_scope_checked op c (some existing) = (ok (conflict existing), c)
  restore_scope_checked op c none = accept op c

  unfoldable pub restore_fingerprint_checked :
      Operation
      → Coordinator J
      → Option Operation
      → Result OperationError Submission × Coordinator J
  restore_fingerprint_checked op c (some existing) = (ok (duplicate existing), c)
  restore_fingerprint_checked op c none =
      restore_scope_checked op c (active_in c.by_scope op.scope c.operations)

  unfoldable pub restore_id_checked :
      Operation
      → Coordinator J
      → Option Operation
      → Result OperationError Submission × Coordinator J
  restore_id_checked op c (some existing) = (ok (duplicate existing), c)
  restore_id_checked op c none =
      restore_fingerprint_checked op c (active_in c.by_fingerprint op.fingerprint c.operations)

  -- `Restore`.
  unfoldable pub restore :
      ℕ → Operation → Coordinator J → Result OperationError Submission × Coordinator J
  restore now op c =
      if not (is_mutation op.class) || trim_space op.id == "" || trim_space op.idempotency_key == ""
      then (err identities_required, c)
      else if trim_space op.command == "" || trim_space op.fingerprint == ""
      then (err incomplete, c)
      else restore_id_checked (requeued now op) c (lookup op.id c.operations)

  put_if_mutation : Operation → J → J
  put_if_mutation op j = if is_mutation op.class then (journal.put op j).1 else j

  -- `setState`.
  unfoldable pub set_state : ℕ → String → State → String → Coordinator J → Coordinator J
  unfolding put_if_mutation
  set_state now id state message c = elim (lookup id c.operations) [
    | none ↦ c
    | some op ↦
        let op' = record op { state = state; message = message; updated_at = now } in
        if is_terminal op.state then c else record c {
          operations = insert id op' c.operations;
          journal = put_if_mutation op' c.journal;
        }
  ]

  -- The `switch` of `finish`.
  close_journal : String → Operation → State → J → J
  close_journal id op succeeded j = journal.remove id j
  close_journal id op failed j = journal.remove id j
  close_journal id op cancelled j = journal.remove id j
  close_journal id op outcome_unknown j = (journal.put op j).1
  close_journal id op s j = j

  outcome_message : Outcome → String
  outcome_message outcome = elim outcome.err [
    | none ↦ outcome.message
    | some text ↦ if outcome.message == "" then text else outcome.message
  ]

  -- `finish`.
  unfoldable pub finish : ℕ → String → Outcome → Coordinator J → Coordinator J
  unfolding close_journal outcome_message
  finish now id outcome c = elim (lookup id c.operations) [
    | none ↦ c
    | some op ↦
        let op' = record op {
          state = outcome.state;
          message = outcome_message outcome;
          updated_at = now;
        } in
        if is_terminal op.state then c else record c {
          operations = insert id op' c.operations;
          by_fingerprint = delete op.fingerprint c.by_fingerprint;
          by_scope =
              if value_or_empty op.scope c.by_scope == id
              then delete op.scope c.by_scope
              else c.by_scope;
          cancels = delete id c.cancels;
          journal =
              if is_mutation op.class
              then close_journal id op' outcome.state c.journal
              else c.journal;
        }
  ]

  -- `Forget`.
  unfoldable pub forget : String → Coordinator J → Bool × Coordinator J
  forget id c = elim (lookup id c.operations) [
    | none ↦ (false, c)
    | some op ↦
        if is_terminal op.state
        then (true, record c { operations = delete id c.operations })
        else (false, c)
  ]

  cancel_if_active : String × Operation → Dict Bool → Dict Bool
  cancel_if_active (id, op) cancels =
      if is_terminal op.state then cancels else call_cancel id cancels

  cancel_all : Dict Operation → Dict Bool → Dict Bool
  cancel_all [] cancels = cancels
  cancel_all (entry ∷ entries) cancels = cancel_all entries (cancel_if_active entry cancels)

  -- `CancelActive`.
  unfoldable pub cancel_active : Coordinator J → Coordinator J
  unfolding cancel_all cancel_if_active
  cancel_active c = record c { cancels = cancel_all c.operations c.cancels }

  -- `ActiveFor`.
  unfoldable pub active_for :
      (String → Dict String → Result String String)
      → String
      → Dict String
      → Coordinator J
      → Option Operation
  unfolding active_only
  active_for fingerprint command arguments c = elim (fingerprint command arguments) [
    | err text ↦ none
    | ok digest ↦ active_only (lookup (value_or_empty digest c.by_fingerprint) c.operations)
  ]

-- `execute`, of what an executor answered: a missing state is decided by the error.
unfoldable pub settle : Outcome → Outcome
settle outcome = elim outcome.state [
  | unset ↦ elim outcome.err [
    | none ↦ record outcome { state = succeeded }
    | some text ↦ record outcome { state = failed }
  ]
  | state ↦ outcome
]
