-- ===== src/Examples/Agents.antt =====
-- Agents and their requirements.
use text.Mathlib.Text.{starts_with}
use ciwi.Base.{
  some, String, true, false, not, ◌||◌, [], ◌∷◌, ◌≡◌, refl, if◌then◌else◌, all, is_empty,
}
use ciwi.Base.Dict.{Dict}
use ciwi.Base.Text.{trim_space, trim_prefix}
use ciwi.Examples.{semver}
use ciwi.Metadata.{flag, set_flag}
use ciwi.Requirements.{
  AgentSnapshot, match_capabilities, agent_availability_issues, container_tool_prefix,
}
use ciwi.Requirements.Constraint.{
  ge, lt, normalize_semver, parse_operator, constraint_value, tool_constraint_match,
}
use ciwi.Requirements.Diagnosis.{diagnose_scheduling, ready, waiting, incompatible}
use ciwi.Requirements.Diagnosis.Laws.{
  agent_availability_issues-is_empty, diagnose_scheduling-state, some_ready, some_match,
  is_available,
}
use ciwi.Requirements.Laws.{
  match_capabilities-matches, tool_constraint_match-opposite, Reads, key_met,
}
use ciwi.Metadata.Laws.{contents, flag-set_flag}

abbrev builder : AgentSnapshot
builder = record {
  id = "builder";
  os = "linux";
  arch = "amd64";
  capabilities = ("shells", "posix") ∷ [];
  freshness = "online";
  authorized = true;
  deactivated = false;
  updating = false;
  busy = true;
}

abbrev wanted : Dict String
wanted = ("os", "linux") ∷ []

match_capabilities-matches_example :
    (match_capabilities semver wanted builder.capabilities).matches
    ≡ all
        (λ e.
          not (not (starts_with e.0 container_tool_prefix))
          || key_met semver wanted builder.capabilities e.0)
        wanted
match_capabilities-matches_example = match_capabilities-matches semver wanted builder.capabilities

agent_availability_issues-is_empty_example :
    is_empty (agent_availability_issues builder) ≡ is_available builder
agent_availability_issues-is_empty_example = agent_availability_issues-is_empty builder

diagnose_scheduling-state_example : (diagnose_scheduling semver wanted (builder ∷ [])).state ≡ (
    if some_ready semver wanted (builder ∷ [])
    then ready
    else if some_match semver wanted (builder ∷ [])
    then waiting
    else incompatible)
diagnose_scheduling-state_example = diagnose_scheduling-state semver wanted (builder ∷ [])

at_least : Reads semver ge (trim_space ">=1.2") (trim_space "1.3") "1.2" "v1.3" "v1.2"
unfolding parse_operator constraint_value normalize_semver trim_space trim_prefix
at_least = record {
  ordering = refl;
  parsed = refl;
  split = refl;
  named = refl;
  reported = refl;
  agent_version = refl;
  constraint_version = refl;
}

smaller : Reads semver lt (trim_space "<1.2") (trim_space "1.3") "1.2" "v1.3" "v1.2"
unfolding parse_operator constraint_value normalize_semver trim_space trim_prefix
smaller = record {
  ordering = refl;
  parsed = refl;
  split = refl;
  named = refl;
  reported = refl;
  agent_version = refl;
  constraint_version = refl;
}

tool_constraint_match-opposite_example :
    tool_constraint_match semver "1.3" ">=1.2" ≡ not (tool_constraint_match semver "1.3" "<1.2")
tool_constraint_match-opposite_example =
    tool_constraint_match-opposite semver ge "1.3" ">=1.2" "<1.2" "1.2" "v1.3" "v1.2" at_least
      smaller

flag-set_flag_example :
    flag (contents (set_flag (some (("mode", "fast") ∷ [])) "dry_run" true)) "dry_run" ≡ true
flag-set_flag_example = flag-set_flag (some (("mode", "fast") ∷ [])) "dry_run" "dry_run" true
