-- ===== src/Requirements/Diagnosis/Laws.antt =====
-- What the diagnosis says of the agents that it was given.
use ciwi.Base.{
  any-congr, any-map, ltb-count_where, zero, suc, ltb, ℕ, String, Bool, ◌&&◌, not, List, [], ◌∷◌,
  ◌≡◌, refl, ap, ◌∙◌, if◌then◌else◌, is_empty, map, any, count_where, arith, ◌==◌,
}
use mathlib.Core.Path.{ap₂}
use ciwi.Base.Dict.{Dict}
use ciwi.Base.Text.{trim_space, to_lower}
use ciwi.Base.Sort.{sort_by, text_lt, any-sort_by}
use ciwi.Requirements.Semver.{Semver}
use ciwi.Requirements.Matching.{AgentSnapshot, match_agent}
use ciwi.Requirements.Labels.{agent_availability_issues, freshness_issues}
use ciwi.Requirements.Diagnosis.{
  AgentAssessment, ready, waiting, incompatible, assess, conclude, diagnose_some,
  diagnose_scheduling,
}

-- An agent that can take work now.
abbrev pub is_available : AgentSnapshot → Bool
is_available agent =
    (to_lower (trim_space agent.freshness) == "online")
    && agent.authorized
    && not agent.deactivated
    && not agent.updating
    && not agent.busy

-- An agent has no availability issue exactly when it is online, authorized, activated, not
-- updating and not busy.
pub agent_availability_issues-is_empty :
    (agent : AgentSnapshot) → is_empty (agent_availability_issues agent) ≡ is_available agent
unfolding agent_availability_issues freshness_issues
agent_availability_issues-is_empty agent = ground arith

-- Some agent of the list meets every requirement alone.
abbrev pub some_match : Semver → Dict String → List AgentSnapshot → Bool
some_match semver required = any (λ agent. (match_agent semver required agent).matches)

-- Some agent of the list meets every requirement alone, and is available.
abbrev pub some_ready : Semver → Dict String → List AgentSnapshot → Bool
some_ready semver required =
    any (λ agent. (match_agent semver required agent).matches && is_available agent)

conclude-state :
    (available matching : ℕ) (requirements : List String) (agents : List AgentAssessment)
    → (conclude available matching requirements agents).state
      ≡ (if ltb 0 available then ready else if ltb 0 matching then waiting else incompatible)
unfolding conclude
conclude-state (suc available) matching requirements agents = ground arith
conclude-state zero zero requirements agents = refl
conclude-state zero (suc zero) requirements agents = refl
conclude-state zero (suc (suc more)) requirements agents = ground arith

-- A count over the assessments of the sorted agents asks for an agent of the list.
counted :
    (semver : Semver) (required : Dict String) (agents : List AgentSnapshot)
    (p : AgentAssessment → Bool) (q : AgentSnapshot → Bool)
    → ((agent : AgentSnapshot) → p (assess semver required agent) ≡ q agent)
    → ltb 0
        (count_where p (map (assess semver required) (sort_by (λ a b. text_lt a.id b.id) agents)))
      ≡ any q agents
counted semver required agents p q h =
    ltb-count_where p _
    ∙ any-map p (assess semver required) (sort_by (λ a b. text_lt a.id b.id) agents)
    ∙ any-congr (λ a. p (assess semver required a)) q h _
    ∙ any-sort_by (λ a b. text_lt a.id b.id) q agents

abbrev state_of : Bool → Bool → String
state_of some_ready some_match =
    if some_ready then ready else if some_match then waiting else incompatible

diagnose_some-state :
    (semver : Semver) (required : Dict String) (agents : List AgentSnapshot)
    → (diagnose_some semver required agents).state
      ≡ state_of (some_ready semver required agents) (some_match semver required agents)
unfolding diagnose_some
diagnose_some-state semver required agents =
    conclude-state _ _ _ _
    ∙ ap₂ state_of
        (counted semver required agents (λ a. a.available)
          (λ agent. (match_agent semver required agent).matches && is_available agent)
          (λ agent.
            unfold assess in
            ap (λ b. (match_agent semver required agent).matches && b)
              (agent_availability_issues-is_empty agent)))
        (counted semver required agents (λ a. a.capability_match)
          (λ agent. (match_agent semver required agent).matches) (λ agent. unfold assess in refl))

none_registered :
    (semver : Semver) (required : Dict String)
    → incompatible ≡ state_of (some_ready semver required []) (some_match semver required [])
unfolding any
none_registered semver required = refl

-- The diagnosis is `ready` if some registered agent meets every requirement alone and is
-- available, `waiting` if some agent meets them but none of those is available, and `incompatible`
-- if no agent meets them, which includes that there is none.
pub diagnose_scheduling-state :
    (semver : Semver) (required : Dict String) (agents : List AgentSnapshot)
    → (diagnose_scheduling semver required agents).state ≡ (
        if some_ready semver required agents
        then ready
        else if some_match semver required agents
        then waiting
        else incompatible)
unfolding diagnose_scheduling
diagnose_scheduling-state semver required [] = none_registered semver required
diagnose_scheduling-state semver required (agent ∷ agents) =
    diagnose_some-state semver required (agent ∷ agents)
