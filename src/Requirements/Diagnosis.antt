-- ===== src/Requirements/Diagnosis.antt =====
-- `DiagnoseScheduling`.
pub mod Laws
use Prim.Native.String
use Prim.Native.String.{compare}
use text.Mathlib.Text.{is_lt}
use ciwi.Base.{
  ℕ, zero, suc, String, Bool, true, false, ◌&&◌, not, List, [], ◌∷◌, ◌==◌, if◌then◌else◌, ltb, eqb,
  is_empty, length, map, count_where,
}
use ciwi.Base.Decimal.{decimal}
use ciwi.Base.Dict.{Dict}
use ciwi.Base.Sort.{sort_by, text_lt}
use ciwi.Base.Text.{trim_space, join}
use ciwi.Requirements.Semver.{Semver}
use ciwi.Requirements.Matching.{AgentSnapshot, MatchIssue, match_agent}
use ciwi.Requirements.Labels.{requirement_labels, agent_availability_issues}

pub record AgentAssessment : Type 0 where
  pub agent_id : String
  pub capability_match : Bool
  pub available : Bool
  pub capability_issues : List MatchIssue
  pub availability_issues : List String

pub record SchedulingDiagnosis : Type 0 where
  pub state : String
  pub summary : String
  pub requirements : List String
  pub agents : List AgentAssessment

abbrev pub ready : String
ready = "ready"

abbrev pub waiting : String
waiting = "waiting"

abbrev pub incompatible : String
incompatible = "incompatible"

unfoldable pub assess : Semver → Dict String → AgentSnapshot → AgentAssessment
assess semver required agent =
    let result = match_agent semver required agent in
    let issues = agent_availability_issues agent in
    record {
      agent_id = trim_space agent.id;
      capability_match = result.matches;
      available = result.matches && is_empty issues;
      capability_issues = result.issues;
      availability_issues = issues;
    }

-- The order of the assessments: matching agents first, then fewer issues, then the id.
unfoldable pub assessment_lt : AgentAssessment → AgentAssessment → Bool
assessment_lt l r =
    if l.capability_match
    then (if r.capability_match then by_issues l r else true)
    else if r.capability_match
    then false
    else by_issues l r
  where
    by_issues : AgentAssessment → AgentAssessment → Bool
    by_issues a b =
        if eqb (length a.capability_issues) (length b.capability_issues)
        then text_lt a.agent_id b.agent_id
        else ltb (length a.capability_issues) (length b.capability_issues)

-- The summary where one agent matches: the first that does, in the order of the assessments.
unfoldable pub waiting_summary : List AgentAssessment → String
waiting_summary [] = ""
waiting_summary (a ∷ rest) =
    if a.capability_match
    then String.◌++◌ "Matching agent "
        (String.◌++◌ a.agent_id (String.◌++◌ " is " (join ", " a.availability_issues)))
    else waiting_summary rest

unfoldable pub incompatible_summary : List String → String
incompatible_summary requirements =
    if is_empty requirements
    then "No agent matches all requirements"
    else String.◌++◌ "No agent matches all requirements" (String.◌++◌ ": " (join ", " requirements))

-- The `switch` on the two counters.
unfoldable pub conclude : ℕ → ℕ → List String → List AgentAssessment → SchedulingDiagnosis
conclude (suc available) matching requirements agents = record {
  state = ready;
  summary = "Eligible agent available; awaiting lease";
  requirements = requirements;
  agents = agents;
}
conclude zero zero requirements agents = record {
  state = incompatible;
  summary = incompatible_summary requirements;
  requirements = requirements;
  agents = agents;
}
conclude zero (suc zero) requirements agents = record {
  state = waiting;
  summary = waiting_summary agents;
  requirements = requirements;
  agents = agents;
}
conclude zero (suc (suc more)) requirements agents = record {
  state = waiting;
  summary = String.◌++◌ (decimal (suc (suc more))) " matching agents are currently unavailable";
  requirements = requirements;
  agents = agents;
}

unfoldable pub diagnose_some : Semver → Dict String → List AgentSnapshot → SchedulingDiagnosis
diagnose_some semver required agents =
    let sorted = sort_by (λ a b. text_lt a.id b.id) agents in
    let assessments = map (assess semver required) sorted in
    conclude (count_where (λ a. a.available) assessments)
      (count_where (λ a. a.capability_match) assessments) (requirement_labels required)
      (sort_by assessment_lt assessments)

unfoldable pub diagnose_scheduling : Semver → Dict String → List AgentSnapshot → SchedulingDiagnosis
diagnose_scheduling semver required [] = record {
  state = incompatible;
  summary = "No agents are registered";
  requirements = requirement_labels required;
  agents = [];
}
diagnose_scheduling semver required (agent ∷ agents) =
    diagnose_some semver required (agent ∷ agents)
