-- ===== src/Operations.antt =====
-- internal/presentation/operations/coordinator.go: the operations that a user started. A map of Go
-- is a Dict; the mutex makes every method one step. `Journal` stands for the interface of that
-- name, with what it keeps; a coordinator without a journal has one that does nothing. The uuid
-- package gives the ids, which are arguments, and `fingerprint` stands for the digest of
-- `encoding/json` and `crypto/sha256`. An operation's `Value` is not modelled: the coordinator
-- never reads it.
pub mod Invariant
pub mod Methods
use ciwi.Base.{ℕ, String, Bool, true, false, Option}
use ciwi.Base.Dict.{Dict}
use ciwi.Base.Result.{Result}

-- `Class`; every other text is `unclassified`.
pub data Class : Type 0 where
  query mutation unclassified : Class

-- `State`; the empty text is `unset`.
pub data State : Type 0 where
  queued waiting_for_connection running verifying succeeded failed cancelled : State
  outcome_unknown unset : State

-- `Terminal`.
abbrev pub is_terminal : State → Bool
is_terminal succeeded = true
is_terminal failed = true
is_terminal cancelled = true
is_terminal outcome_unknown = true
is_terminal s = false

abbrev pub is_query : Class → Bool
is_query query = true
is_query c = false

abbrev pub is_mutation : Class → Bool
is_mutation mutation = true
is_mutation c = false

pub record Definition : Type 0 where
  pub command : String
  pub class : Class
  pub scope : String
  pub pending : String
  pub persistence : String

pub record Request : Type 0 where
  pub definition : Definition
  pub arguments : Dict String

pub record Operation : Type 0 where
  pub id : String
  pub idempotency_key : String
  pub command : String
  pub arguments : Dict String
  pub fingerprint : String
  pub scope : String
  pub class : Class
  pub persistence : String
  pub pending_label : String
  pub state : State
  pub message : String
  pub created_at : ℕ
  pub updated_at : ℕ

-- `Result`: the executor's answer. `err` is its error's text, where there is one.
pub record Outcome : Type 0 where
  pub state : State
  pub message : String
  pub err : Option String

pub data Submission : Type 0 where
  accepted : Operation → Submission
  duplicate : Operation → Submission
  conflict : Operation → Submission

pub data OperationError : Type 0 where
  command_required bad_class identities_required incomplete : OperationError
  fingerprint_failed journal_failed : String → OperationError

pub record Journal (J : Type 0) : Type 0 where
  pub put : Operation → J → Result String (Unit {0}) × J
  pub remove : String → J → J

-- The fields behind the mutex. `cancels` has an entry for each registered cancel function: whether
-- it was called.
pub record Coordinator (J : Type 0) : Type 0 where
  pub operations : Dict Operation
  pub by_fingerprint : Dict String
  pub by_scope : Dict String
  pub cancels : Dict Bool
  pub journal : J
