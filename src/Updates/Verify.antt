-- ===== src/Updates/Verify.antt =====
-- What the verification of a download accepts.
use ciwi.Base.{String, Bool, false, not, ◌&&◌, ◌||◌, Option, none, some, ◌==◌}
use ciwi.Base.Result.{Result}
use ciwi.Base.Text.{trim_space}
use text.Mathlib.Text.{starts_with}
use ciwi.Updates.{fields_from, entry_digest}

is_digest : String → Option String → Bool
is_digest digest none = false
is_digest digest (some listed) = listed == digest

-- The line is no comment, names the asset last, and gives the digest first.
unfoldable pub gives : String → String → String → Bool
unfolding is_digest
gives asset_name digest raw =
    let line = trim_space raw in
    not (line == "" || starts_with line "#")
    && is_digest digest (entry_digest asset_name (fields_from "" line))
