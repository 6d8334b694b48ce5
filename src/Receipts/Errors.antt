-- ===== src/Receipts/Errors.antt =====
-- internal/application/errors.go. An error is seen through `ErrorKindOf` and `Error`: its kind and
-- its text.
use Prim.Native.String.{◌++◌}
use ciwi.Base.{String, ◌==◌, if◌then◌else◌}

pub record AppError : Type 0 where
  pub kind : String
  pub text : String

abbrev pub invalid_argument : String
invalid_argument = "invalid_argument"

abbrev pub conflict : String
conflict = "conflict"

abbrev pub failed_precondition : String
failed_precondition = "failed_precondition"

abbrev pub unavailable : String
unavailable = "unavailable"

abbrev pub internal : String
internal = "internal"

-- `NewError` without a cause: a missing kind is internal, and a missing message is the kind.
unfoldable pub new_error : String → String → AppError
new_error kind message =
    let k = (if kind == "" then internal else kind) in
    record { kind = k; text = if message == "" then k else message }

-- `WrapInternal`, of an error that is not nil. The message is not empty, since it has the operation.
unfoldable pub wrap_internal : String → String → AppError
wrap_internal operation text = record { kind = internal; text = operation ++ (": " ++ text) }
