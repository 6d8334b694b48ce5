-- ===== src/Requirements/Labels.antt =====
-- `RequirementLabels` and `agentAvailabilityIssues`.
use text.Mathlib.Text.{starts_with}
use ciwi.Base.{String, not, ◌||◌, List, [], ◌∷◌, ◌++◌, ◌==◌, if◌then◌else◌}
use ciwi.Base.Dict.{Dict}
use ciwi.Base.Sort.{sort_by, text_lt}
use ciwi.Base.Text.{trim_space, trim_prefix, to_lower}
use ciwi.Requirements.Matching.{AgentSnapshot, container_tool_prefix, tool_prefix}
use Prim.Native.String

-- The label of one requirement that is not of a container.
unfoldable pub requirement_label : String → String → String
requirement_label key value =
    if starts_with key tool_prefix
    then (if value == "" || value == "*"
        then trim_prefix key tool_prefix
        else String.◌++◌ (trim_prefix key tool_prefix) (String.◌++◌ " " value))
    else if key == "shell"
    then String.◌++◌ value " shell"
    else if key == "agent_id"
    then String.◌++◌ "agent " value
    else if key == "os" || key == "arch"
    then value
    else String.◌++◌ key (String.◌++◌ "=" value)

unfoldable pub labels_of : Dict String → List String
labels_of [] = []
labels_of ((key, raw) ∷ rest) =
    let labels = labels_of rest in
    if starts_with key container_tool_prefix
    then labels
    else requirement_label key (trim_space raw) ∷ labels

unfoldable pub requirement_labels : Dict String → List String
requirement_labels required = sort_by text_lt (labels_of required)

unfoldable pub freshness_issues : String → List String
freshness_issues freshness =
    let f = to_lower (trim_space freshness) in
    if f == "online" then [] else if f == "stale" then "stale" ∷ [] else "offline" ∷ []

unfoldable pub agent_availability_issues : AgentSnapshot → List String
agent_availability_issues agent =
    freshness_issues agent.freshness
    ++ ((if not agent.authorized then "unauthorized" ∷ [] else [])
        ++ ((if agent.deactivated then "deactivated" ∷ [] else [])
            ++ ((if agent.updating then "updating" ∷ [] else [])
                ++ (if agent.busy then "busy" ∷ [] else []))))
