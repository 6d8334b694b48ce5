-- ===== src/Examples/Actions.antt =====
-- Operations of the coordinator.
use ciwi.Base.{String, true, false, some, List, [], ◌∷◌, ◌≡◌, refl, ◌==◌, map, ◌&&◌, not}
use ciwi.Base.Dict.{Dict, lookup, insert, value_or_empty}
use ciwi.Base.Result.{Result, ok}
use ciwi.Base.Text.{trim_space}
use ciwi.Operations.{mutation, is_terminal, is_mutation, Request, Operation, Journal, Coordinator}
use ciwi.Operations.Methods.{
  submit, active_in, new_operation, fingerprinted, fingerprint_checked, scope_checked, accept,
  journaled, register,
}
use ciwi.Operations.Invariant.Reach.{Reach, start, submitted, Reach-exclusive}
use ciwi.Operations.Invariant.Submitting.{Submitted, submit-Submitted}

abbrev journal : Journal (List Operation)
journal = record { put = λ op j. (ok tt, op ∷ j); remove = λ id j. j }

abbrev digest : String → Dict String → Result String String
digest command arguments = ok (value_or_empty "id" arguments)

abbrev request : String → String → Request
request scope id = record {
  definition = record {
    command = "delete";
    class = mutation;
    scope = scope;
    pending = "";
    persistence = "";
  };
  arguments = ("id", id) ∷ [];
}

abbrev idle : Coordinator (List Operation)
idle = record { operations = []; by_fingerprint = []; by_scope = []; cancels = []; journal = [] }

abbrev busy : Coordinator (List Operation)
busy = (submit journal digest 1 "op-1" "key-1" (request "project" "a") idle).1

abbrev submitted_operation : Operation
submitted_operation = new_operation 1 "op-1" "key-1" "a" (request "project" "a")

abbrev first_id : String
first_id = "op-1"

busy_reached : Reach journal digest busy
busy_reached = submitted 1 "op-1" "key-1" (request "project" "a") refl refl (start [])

found_submitted : lookup first_id busy.operations ≡ some submitted_operation
unfolding submit fingerprinted fingerprint_checked scope_checked accept journaled register active_in
    value_or_empty lookup insert trim_space new_operation
found_submitted = refl

still_active : is_terminal submitted_operation.state ≡ false
unfolding new_operation
still_active = refl

Reach-exclusive_example :
    (submitted_operation.fingerprint ≡ submitted_operation.fingerprint → first_id ≡ first_id)
    × (is_mutation submitted_operation.class ≡ true
        → is_mutation submitted_operation.class ≡ true
        → submitted_operation.scope ≡ submitted_operation.scope
        → first_id ≡ first_id)
Reach-exclusive_example =
    Reach-exclusive journal digest busy_reached first_id first_id submitted_operation
      submitted_operation found_submitted found_submitted still_active still_active

-- A mutation without a scope is active, and another is accepted beside it.
abbrev unscoped : Coordinator (List Operation)
unscoped = (submit journal digest 1 "op-1" "key-1" (request "" "a") idle).1

submit-Submitted_example :
    Submitted journal unscoped "op-2"
      (submit journal digest 2 "op-2" "key-2" (request "" "b") unscoped)
submit-Submitted_example =
    submit-Submitted journal digest 2 "op-2" "key-2" (request "" "b") unscoped

-- Both then have the command as their scope, and neither has ended.
both_in_scope :
    map
      (λ e. e.1.scope == "delete" && not (is_terminal e.1.state))
      (submit journal digest 2 "op-2" "key-2" (request "" "b") unscoped).1.operations
    ≡ true ∷ true ∷ []
unfolding submit fingerprinted fingerprint_checked scope_checked accept journaled register active_in
    value_or_empty lookup insert trim_space new_operation
both_in_scope = refl
