-- ===== src/Policy.antt =====
-- internal/engine/policy/policy.go and policy_gate.go: the verdict on a tool call.
pub mod Glob
pub mod Authorization
pub mod Override
pub mod Patterns
mod Tests
use ia_harness.Base.{
  ℤ, pos, String, Bool, true, false, not, ◌&&◌, ◌||◌, Option, none, some, List, [], ◌∷◌, ltb_ℤ,
  if◌then◌else◌, is_empty, any, Assoc, lookup, put, str_eq,
}
use ia_harness.Core.Message.{Duration}
use ia_harness.Core.Config.{
  PolicyMode, unset, allow, read_only, ToolPolicy, AgentPolicy, PolicyConfig, Tool, AgentSpec,
}
use Glob.{path_match}

-- The reasons of the source's messages, with what they quote.
pub data Reason : Type 0 where
  none_given : Reason
  denied_by_list outside_allow_list not_read_only denied_by_policy : String → String → Reason
  needs_confirmation : String → Reason

pub record PolicyDecision : Type 0 where
  pub allowed : Bool
  pub requires_confirmation : Bool
  pub reason : Reason

infixr 65 ◌^^◌
abbrev pub ◌^^◌ : String → String → String
String.[] ^^ t = t
(String.◌∷◌ c s) ^^ t = String.◌∷◌ c (s ^^ t)

pub tool_key : Tool → String
tool_key t = if not (str_eq t.namespace "") then t.namespace ^^ "." ^^ t.name else t.name

abbrev pub match_one : String → String → Bool
match_one pattern candidate = str_eq pattern candidate || path_match pattern candidate

unfoldable pub match_tool : String → String → String → Bool
match_tool pattern key name =
    if str_eq pattern "" then false else match_one pattern key || match_one pattern name

unfoldable pub matches_any : List String → String → String → Bool
matches_any patterns key name = any (λ pattern. match_tool pattern key name) patterns

unfoldable pub tool_override : AgentPolicy → String → String → Option ToolPolicy
tool_override agent key name = elim (lookup key agent.overrides) [
  | some override ↦ some override
  | none ↦ if not (str_eq key name) then lookup name agent.overrides else none
]

unfoldable pub allow_list_matches : AgentPolicy → String → String → Bool
allow_list_matches agent key name =
    if is_empty agent.allow_tools then true else matches_any agent.allow_tools key name

unfoldable pub read_only_tool : AgentPolicy → Bool → String → String → Bool
read_only_tool agent declared key name =
    if not declared
    then false
    else elim (tool_override agent key name) [ none ↦ false | some override ↦ override.read_only ]

abbrev pub confirms : Option ToolPolicy → Bool
confirms none = false
confirms (some override) = override.confirm

unfoldable pub confirmation_required : AgentPolicy → String → String → Bool
confirmation_required agent key name =
    if confirms (tool_override agent key name)
    then true
    else matches_any agent.confirm_tools key name

-- The zero value that a read of a missing key of `policy.Agents` gives.
abbrev pub no_agent : AgentPolicy
no_agent = record {
  mode = unset;
  allow_tools = [];
  deny_tools = [];
  confirm_tools = [];
  overrides = [];
  system_prompt = "";
}

abbrev pub denied : Reason → PolicyDecision
denied r = record { allowed = false; requires_confirmation = false; reason = r }

abbrev pub permitted : AgentPolicy → String → String → PolicyDecision
permitted agent key name =
    if confirmation_required agent key name
    then record { allowed = true; requires_confirmation = true; reason = needs_confirmation key }
    else record { allowed = true; requires_confirmation = false; reason = none_given }

abbrev pub is_unset : PolicyMode → Bool
is_unset unset = true
is_unset _ = false

-- The `switch` on the mode; its last clause is `default`.
unfoldable pub by_mode : PolicyMode → AgentPolicy → Bool → String → String → String → PolicyDecision
by_mode allow agent declared id key name =
    if not (allow_list_matches agent key name)
    then denied (outside_allow_list key id)
    else permitted agent key name
by_mode read_only agent declared id key name =
    if not (read_only_tool agent declared key name)
    then denied (not_read_only key id)
    else if not (allow_list_matches agent key name)
    then denied (outside_allow_list key id)
    else permitted agent key name
by_mode _ agent declared id key name = denied (denied_by_policy key id)

-- `evaluatePolicy` after the read of the agent.
unfoldable pub evaluate_agent :
    PolicyMode → Option AgentPolicy → String → String → String → PolicyDecision
evaluate_agent default none id key name = by_mode default no_agent false id key name
evaluate_agent default (some agent) id key name =
    if matches_any agent.deny_tools key name
    then denied (denied_by_list key id)
    else by_mode (if is_unset agent.mode then default else agent.mode) agent true id key name

unfoldable pub evaluate : PolicyConfig → String → Tool → PolicyDecision
evaluate policy id tool =
    evaluate_agent policy.default (lookup id policy.agents) id (tool_key tool) tool.name

abbrev pub override_of : PolicyConfig → String → Tool → Option ToolPolicy
override_of policy id tool = elim (lookup id policy.agents) [
  | none ↦ none
  | some agent ↦ tool_override agent (tool_key tool) tool.name
]

unfoldable pub tool_idempotent : PolicyConfig → String → Tool → Bool
tool_idempotent policy id tool = elim (override_of policy id tool) [
  | none ↦ tool.idempotent
  | some override ↦ if override.idempotent then true else tool.idempotent
]

unfoldable pub timeout : PolicyConfig → String → Tool → Duration
timeout policy id tool = elim (override_of policy id tool) [
  | none ↦ pos 0
  | some override ↦ if ltb_ℤ (pos 0) override.timeout then override.timeout else pos 0
]

-- `effectiveToolTimeout` of loop.go
unfoldable pub effective_tool_timeout : PolicyConfig → String → Tool → Duration
effective_tool_timeout policy id tool =
    if ltb_ℤ (pos 0) (timeout policy id tool) then timeout policy id tool else tool.timeout

-- `effectivePolicy` of engine.go: the policy of the agent's own specification replaces its entry.
unfoldable pub effective_policy : Assoc AgentSpec → PolicyConfig → String → PolicyConfig
effective_policy specs policy id = elim (lookup id specs) [
  | none ↦ policy
  | some spec ↦ elim spec.policy [
    | none ↦ policy
    | some own ↦ record policy { agents = put id own policy.agents }
  ]
]

unfoldable pub authorize : Assoc AgentSpec → PolicyConfig → String → Tool → PolicyDecision
authorize specs policy id tool = evaluate (effective_policy specs policy id) id tool
