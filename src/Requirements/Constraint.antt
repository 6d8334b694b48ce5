-- ===== src/Requirements/Constraint.antt =====
-- `ToolConstraintMatch`, `normalizeSemver` and `ShellCapabilityMatch`.
use Prim.Native.Nat.{Ordering}
use text.Mathlib.Text.{starts_with}
use ciwi.Base.{
  String, Bool, true, false, ◌||◌, Option, none, some, List, [], ◌∷◌, ◌==◌, if◌then◌else◌,
}
use ciwi.Base.Dict.{Dict, value_or_empty}
use ciwi.Base.Text.{trim_space, trim_prefix, to_lower, split_at}
use ciwi.Requirements.Semver.{Semver}
use Prim.Native.String.{◌++◌}

-- The operators in the order in which `ToolConstraintMatch` tries them; `bare` is no operator.
pub data Operator : Type 0 where
  ge le gt lt eq_eq eq bare : Operator

unfoldable pub parse_operator : String → Operator
parse_operator c =
    if starts_with c ">="
    then ge
    else if starts_with c "<="
    then le
    else if starts_with c ">"
    then gt
    else if starts_with c "<"
    then lt
    else if starts_with c "=="
    then eq_eq
    else if starts_with c "="
    then eq
    else bare

abbrev pub operator_text : Operator → String
operator_text ge = ">="
operator_text le = "<="
operator_text gt = ">"
operator_text lt = "<"
operator_text eq_eq = "=="
operator_text eq = "="
operator_text bare = ""

-- What is compared with the agent's value: the rest behind an operator, trimmed.
unfoldable pub constraint_value : Operator → String → String
constraint_value bare c = c
constraint_value op c = trim_space (trim_prefix c (operator_text op))

-- The last `switch`: the sign of `semver.Compare` against the operator.
unfoldable pub accepts : Operator → Ordering → Bool
accepts ge Ordering.lt = false
accepts ge o = true
accepts le Ordering.gt = false
accepts le o = true
accepts gt Ordering.gt = true
accepts gt o = false
accepts lt Ordering.lt = true
accepts lt o = false
accepts eq_eq Ordering.eq = true
accepts eq_eq o = false
accepts eq Ordering.eq = true
accepts eq o = false
accepts bare o = false

-- Where one side is no version only equality can hold.
unfoldable pub accepts_text : Operator → Bool → Bool
accepts_text eq same = same
accepts_text eq_eq same = same
accepts_text op same = false

module _ (semver : Semver) where
  unfoldable pub normalize_semver : String → Option String
  normalize_semver v =
      let t = trim_space v in
      let w = (if starts_with t "v" then t else "v" ++ t) in
      if t == "" then none else if semver.is_valid w then some w else none

  compare_semver : Operator → String → String → Option String → Option String → Bool
  compare_semver op agent value (some a) (some c) = accepts op (semver.compare_versions a c)
  compare_semver op agent value _ _ = accepts_text op (agent == value)

  apply_operator : Operator → String → String → Bool
  apply_operator bare agent value = agent == value
  apply_operator op agent value =
      compare_semver op agent value (normalize_semver agent) (normalize_semver value)

  unfoldable pub tool_constraint_match : String → String → Bool
  unfolding apply_operator compare_semver
  tool_constraint_match agent_value raw =
      let agent = trim_space agent_value in
      let constraint = trim_space raw in
      let op = parse_operator constraint in
      let v = constraint_value op constraint in
      if agent == ""
      then false
      else if constraint == "" || constraint == "*"
      then true
      else if v == ""
      then true
      else apply_operator op agent v

-- `strings.EqualFold`, as an equality of lower cases.
any_shell : String → List String → Bool
any_shell required [] = false
any_shell required (shell ∷ rest) =
    to_lower (trim_space shell) == to_lower required || any_shell required rest

unfoldable pub shell_capability_match : Dict String → String → Bool
unfolding any_shell
shell_capability_match capabilities required_value =
    let required = to_lower (trim_space required_value) in
    if required == ""
    then true
    else any_shell required (split_at b',' (value_or_empty "shells" capabilities))
