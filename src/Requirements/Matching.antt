-- ===== src/Requirements/Matching.antt =====
-- `MatchCapabilities` and `MatchAgent`.
use text.Mathlib.Text.{starts_with}
use ciwi.Base.{String, Bool, not, List, [], ◌∷◌, ◌==◌, if◌then◌else◌, select, map, is_empty}
use ciwi.Base.Dict.{Dict, value_or_empty, insert}
use ciwi.Base.Sort.{sort_by, text_lt}
use ciwi.Base.Text.{trim_space, trim_prefix}
use ciwi.Requirements.Semver.{Semver}
use ciwi.Requirements.Constraint.{tool_constraint_match, shell_capability_match}
use Prim.Native.String.{◌++◌}

pub record AgentSnapshot : Type 0 where
  pub id : String
  pub os : String
  pub arch : String
  pub capabilities : Dict String
  pub freshness : String
  pub authorized : Bool
  pub deactivated : Bool
  pub updating : Bool
  pub busy : Bool

pub record MatchIssue : Type 0 where
  pub code : String
  pub key : String
  pub expected : String
  pub actual : String
  pub message : String

pub record MatchResult : Type 0 where
  pub matches : Bool
  pub issues : List MatchIssue

abbrev pub container_tool_prefix : String
container_tool_prefix = "requires.container.tool."

abbrev pub tool_prefix : String
tool_prefix = "requires.tool."

unfoldable pub mismatch_message : String → String → String → String
mismatch_message key expected actual =
    let label = (if actual == "" then "missing" else actual) in
    if starts_with key tool_prefix
    then "tool "
      ++ (trim_prefix key tool_prefix ++ (" expected " ++ (expected ++ (", got " ++ label))))
    else key ++ (" expected " ++ (expected ++ (", got " ++ label)))

-- The three cases of the `switch` in `MatchCapabilities`.
pub data Requirement : Type 0 where
  tool shell plain : Requirement

unfoldable pub requirement_kind : String → Requirement
requirement_kind key =
    if starts_with key tool_prefix then tool else if key == "shell" then shell else plain

unfoldable pub actual_key : Requirement → String → String
actual_key tool key = "tool." ++ trim_prefix key tool_prefix
actual_key _ key = key

abbrev pub issue_code : Requirement → String
issue_code tool = "tool_mismatch"
issue_code shell = "shell_mismatch"
issue_code plain = "capability_mismatch"

module _ (semver : Semver) where
  unfoldable pub requirement_matched : Requirement → Dict String → String → String → Bool
  requirement_matched tool observed key expected =
      tool_constraint_match semver (trim_space (value_or_empty (actual_key tool key) observed))
        expected
  requirement_matched shell observed key expected = shell_capability_match observed expected
  requirement_matched plain observed key expected =
      trim_space (value_or_empty key observed) == expected

  -- One round of the loop over the sorted keys.
  unfoldable pub check_key : Dict String → Dict String → String → List MatchIssue → List MatchIssue
  check_key required observed key rest =
      let expected = trim_space (value_or_empty key required) in
      let kind = requirement_kind key in
      let actual = trim_space (value_or_empty (actual_key kind key) observed) in
      if requirement_matched kind observed key expected
      then rest
      else record {
        code = issue_code kind;
        key = key;
        expected = expected;
        actual = actual;
        message = mismatch_message key expected actual;
      }
        ∷ rest

  unfoldable pub check_keys : Dict String → Dict String → List String → List MatchIssue
  check_keys required observed [] = []
  check_keys required observed (key ∷ keys) =
      check_key required observed key (check_keys required observed keys)

  unfoldable pub match_capabilities : Dict String → Dict String → MatchResult
  match_capabilities required observed =
      let keys =
        sort_by text_lt
          (select (λ key. not (starts_with key container_tool_prefix)) (map (λ e. e.0) required)) in
      let issues = check_keys required observed keys in
      record { matches = is_empty issues; issues = issues }

unfoldable pub merge_capabilities : AgentSnapshot → Dict String
merge_capabilities agent =
    insert "arch" (trim_space agent.arch) (
      insert "os" (trim_space agent.os)
        (insert "agent_id" (trim_space agent.id) agent.capabilities))

unfoldable pub match_agent : Semver → Dict String → AgentSnapshot → MatchResult
match_agent semver required agent = match_capabilities semver required (merge_capabilities agent)
