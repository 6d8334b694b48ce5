-- ===== src/Requirements/Laws.antt =====
-- What the capability matcher and the version constraints decide.
use Prim.Native.Nat.{Ordering}
use text.Mathlib.Text.{starts_with}
use ciwi.Base.{
  String, Bool, true, false, ◌||◌, not, some, List, [], ◌∷◌, ◌≡◌, refl, sym, ap, ◌∙◌, inl, inr,
  ◌==◌, is_empty, map, all, all-map, all-select, arith, Bool-cases, eq_iff,
}
use ciwi.Base.Dict.{Dict, value_or_empty}
use ciwi.Base.Sort.{text_lt, all-sort_by}
use ciwi.Base.Text.{trim_space}
use ciwi.Requirements.Semver.{Semver}
use ciwi.Requirements.Constraint.{
  Operator, ge, le, gt, lt, accepts, parse_operator, constraint_value, normalize_semver,
  tool_constraint_match,
}
use ciwi.Requirements.Matching.{
  container_tool_prefix, requirement_kind, requirement_matched, check_key, check_keys,
  match_capabilities,
}

-- The requirement under one key is met.
abbrev pub key_met : Semver → Dict String → Dict String → String → Bool
key_met semver required observed key =
    requirement_matched semver (requirement_kind key) observed key
      (trim_space (value_or_empty key required))

check_keys-is_empty :
    (semver : Semver) (required observed : Dict String) (keys : List String)
    → is_empty (check_keys semver required observed keys)
      ≡ all (key_met semver required observed) keys
unfolding check_keys check_key all
check_keys-is_empty semver required observed [] = refl
check_keys-is_empty semver required observed (key ∷ keys) =
    ground (arith, check_keys-is_empty semver required observed keys)

-- The capabilities match exactly when every required key that is no container tool is met; the
-- order in which the keys are checked does not matter.
pub match_capabilities-matches :
    (semver : Semver) (required observed : Dict String)
    → (match_capabilities semver required observed).matches
      ≡ all
          (λ e.
            not (not (starts_with e.0 container_tool_prefix))
            || key_met semver required observed e.0)
          required
unfolding match_capabilities
match_capabilities-matches semver required observed =
    check_keys-is_empty semver required observed _
    ∙ all-sort_by text_lt (key_met semver required observed) _
    ∙ all-select (key_met semver required observed)
        (λ key. not (starts_with key container_tool_prefix)) (map (λ e. e.0) required)
    ∙ all-map _ (λ e. e.0) required

abbrev pub is_ordering : Operator → Bool
is_ordering ge = true
is_ordering le = true
is_ordering gt = true
is_ordering lt = true
is_ordering _ = false

abbrev pub opposite : Operator → Operator
opposite ge = lt
opposite lt = ge
opposite gt = le
opposite le = gt
opposite op = op

-- A constraint with one of the four orderings, over an agent's value and a version that both are
-- versions: `agent` and `constraint` are trimmed, `version` is what stands behind the operator.
pub record Reads (semver : Semver) (op : Operator) (constraint agent version a v : String)
    : Type 0 where
  pub ordering : is_ordering op ≡ true
  pub parsed : parse_operator constraint ≡ op
  pub split : constraint_value op constraint ≡ version
  pub named : (version == "") ≡ false
  pub reported : (agent == "") ≡ false
  pub agent_version : normalize_semver semver agent ≡ some a
  pub constraint_version : normalize_semver semver version ≡ some v

star_is_bare :
    (op : Operator) (c : String)
    → (c == "" || c == "*") ≡ true
    → parse_operator c ≡ op
    → is_ordering op ≡ true
    → ⊥
unfolding parse_operator
star_is_bare op c any parsed ordering = elim (Bool-cases (c == "")) [
  | inl empty ↦ cc (parsed, ordering, ap parse_operator ((eq_iff c "").0 empty))
  | inr text ↦ cc (parsed, ordering, ap parse_operator ((eq_iff c "*").0 (ground arith)))
]

-- A constraint with an operator is neither empty nor the star.
not_any :
    (op : Operator) (c : String)
    → parse_operator c ≡ op
    → is_ordering op ≡ true
    → (c == "" || c == "*") ≡ false
not_any op c parsed ordering = elim (Bool-cases (c == "" || c == "*")) [
  | inr other ↦ other
  | inl any ↦ absurd (star_is_bare op c any parsed ordering)
]

tool_constraint_match-ordered :
    (semver : Semver) (op : Operator) (agent constraint version a v : String)
    → Reads semver op (trim_space constraint) (trim_space agent) version a v
    → tool_constraint_match semver agent constraint ≡ accepts op (semver.compare_versions a v)
unfolding tool_constraint_match
tool_constraint_match-ordered semver ge agent constraint version a v r = rw (
  r.reported,
  not_any ge (trim_space constraint) r.parsed refl,
  r.parsed,
  r.split,
  r.named,
  r.agent_version,
  r.constraint_version,
)
tool_constraint_match-ordered semver le agent constraint version a v r = rw (
  r.reported,
  not_any le (trim_space constraint) r.parsed refl,
  r.parsed,
  r.split,
  r.named,
  r.agent_version,
  r.constraint_version,
)
tool_constraint_match-ordered semver gt agent constraint version a v r = rw (
  r.reported,
  not_any gt (trim_space constraint) r.parsed refl,
  r.parsed,
  r.split,
  r.named,
  r.agent_version,
  r.constraint_version,
)
tool_constraint_match-ordered semver lt agent constraint version a v r = rw (
  r.reported,
  not_any lt (trim_space constraint) r.parsed refl,
  r.parsed,
  r.split,
  r.named,
  r.agent_version,
  r.constraint_version,
)
tool_constraint_match-ordered semver op agent constraint version a v r = cc r.ordering

accepts-opposite :
    (op : Operator) (o : Ordering)
    → is_ordering op ≡ true
    → accepts op o ≡ not (accepts (opposite op) o)
unfolding accepts
accepts-opposite op o h = ground arith

-- Of two constraints that name one version with opposite operators (`>=` and `<`, `>` and `<=`),
-- an agent whose tool version can be read satisfies exactly one.
pub tool_constraint_match-opposite :
    (semver : Semver) (op : Operator) (agent c d version a v : String)
    → Reads semver op (trim_space c) (trim_space agent) version a v
    → Reads semver (opposite op) (trim_space d) (trim_space agent) version a v
    → tool_constraint_match semver agent c ≡ not (tool_constraint_match semver agent d)
tool_constraint_match-opposite semver op agent c d version a v r t =
    tool_constraint_match-ordered semver op agent c version a v r
    ∙ accepts-opposite op (semver.compare_versions a v) r.ordering
    ∙ ap not (sym (tool_constraint_match-ordered semver (opposite op) agent d version a v t))
