-- ===== src/Policy/Authorization.antt =====
-- Which tools a policy permits, and which of them wait for a human (policy.go).
use ia_harness.Base.{
  String, ◌≡◌, refl, ◌↔◌, ◌⊎◌, inl, inr, Bool, true, false, Option, none, some, List, [], ◌∷◌,
  arith, lookup, Bool-cases, Option-cases, lookup-put, eq_iff, ◌≢◌, Assoc,
}
use ia_harness.Core.Config.{
  PolicyMode, allow, read_only, AgentPolicy, ToolPolicy, PolicyConfig, Tool, AgentSpec,
}
use ia_harness.Policy.{
  tool_key, match_tool, matches_any, tool_override, allow_list_matches, read_only_tool,
  confirmation_required, by_mode, evaluate_agent, evaluate, no_agent, is_unset, effective_policy,
  authorize,
}

-- Some pattern of the list fits the tool.
pub data Fits (key name : String) : List String → Type 0 where
  here : {p : String} {ps : List String} → match_tool p key name ≡ true → Fits key name (p ∷ ps)
  there : {p : String} {ps : List String} → Fits key name ps → Fits key name (p ∷ ps)

matches_any-Fits :
    (ps : List String) (key name : String) → matches_any ps key name ≡ true → Fits key name ps
unfolding matches_any
matches_any-Fits [] key name h = cc
matches_any-Fits (p ∷ ps) key name h = elim (Bool-cases (match_tool p key name)) [
  | inl fits ↦ here fits
  | inr fails ↦ there (matches_any-Fits ps key name (ground arith))
]

Fits-matches_any :
    (key name : String) {ps : List String} → Fits key name ps → matches_any ps key name ≡ true
unfolding matches_any
Fits-matches_any key name (here h) = ground arith
Fits-matches_any key name (there f) = ground (arith, Fits-matches_any key name f)

not_Fits :
    (ps : List String) (key name : String) → ¬ Fits key name ps → matches_any ps key name ≡ false
not_Fits ps key name no_fit = elim (Bool-cases (matches_any ps key name)) [
  | inl fits ↦ absurd (no_fit (matches_any-Fits ps key name fits))
  | inr fails ↦ fails
]

-- The mode that counts for a declared agent.
abbrev pub mode_of : PolicyConfig → AgentPolicy → PolicyMode
mode_of policy agent = elim (is_unset agent.mode) [ true ↦ policy.default | false ↦ agent.mode ]

abbrev pub IsAllowListed : AgentPolicy → Tool → Type 0
IsAllowListed agent tool =
    (agent.allow_tools ≡ []) ⊎ Fits (tool_key tool) tool.name agent.allow_tools

abbrev pub IsOverridden : AgentPolicy → Tool → (ToolPolicy → Bool) → Type 0
IsOverridden agent tool flag =
    (o : ToolPolicy) × (tool_override agent (tool_key tool) tool.name ≡ some o) × (flag o ≡ true)

-- The permissions of the specification, one constructor for each way to be permitted.
pub data Permits (policy : PolicyConfig) (id : String) (tool : Tool) : Type 0 where
  by_default : lookup id policy.agents ≡ none → policy.default ≡ allow → Permits policy id tool
  by_allow :
      (agent : AgentPolicy)
      → lookup id policy.agents ≡ some agent
      → mode_of policy agent ≡ allow
      → ¬ Fits (tool_key tool) tool.name agent.deny_tools
      → IsAllowListed agent tool
      → Permits policy id tool
  by_read_only :
      (agent : AgentPolicy)
      → lookup id policy.agents ≡ some agent
      → mode_of policy agent ≡ read_only
      → ¬ Fits (tool_key tool) tool.name agent.deny_tools
      → IsAllowListed agent tool
      → IsOverridden agent tool (λ o. o.read_only)
      → Permits policy id tool

allow_list-IsAllowListed :
    (agent : AgentPolicy) (tool : Tool)
    → allow_list_matches agent (tool_key tool) tool.name ≡ true
    → IsAllowListed agent tool
unfolding allow_list_matches
allow_list-IsAllowListed agent tool h = go agent.allow_tools refl h
  where
    go :
        (ps : List String)
        → agent.allow_tools ≡ ps
        → allow_list_matches (record agent { allow_tools = ps }) (tool_key tool) tool.name ≡ true
        → IsAllowListed agent tool
    go [] e g = inl e
    go (p ∷ ps) e g = inr (rw e (matches_any-Fits (p ∷ ps) (tool_key tool) tool.name g))

IsAllowListed-allow_list :
    (agent : AgentPolicy) (tool : Tool)
    → IsAllowListed agent tool
    → allow_list_matches agent (tool_key tool) tool.name ≡ true
unfolding allow_list_matches
IsAllowListed-allow_list agent tool (inl e) = rw e
IsAllowListed-allow_list agent tool (inr f) =
    ground (arith, Fits-matches_any (tool_key tool) tool.name f)

read_only-IsOverridden :
    (agent : AgentPolicy) (tool : Tool)
    → read_only_tool agent true (tool_key tool) tool.name ≡ true
    → IsOverridden agent tool (λ o. o.read_only)
unfolding read_only_tool
read_only-IsOverridden agent tool h =
    elim (Option-cases (tool_override agent (tool_key tool) tool.name)) [
      | inl e ↦ cc
      | inr (o, e) ↦ (o, e, ground arith)
    ]

read_only-marked :
    (agent : AgentPolicy) (tool : Tool) (o : ToolPolicy)
    → tool_override agent (tool_key tool) tool.name ≡ some o
    → o.read_only ≡ true
    → read_only_tool agent true (tool_key tool) tool.name ≡ true
unfolding read_only_tool
read_only-marked agent tool o found marked = ground arith

-- Where an allowed call of a declared agent waits for a human.
abbrev pub NeedsHuman : AgentPolicy → Tool → Type 0
NeedsHuman agent tool =
    IsOverridden agent tool (λ o. o.confirm) ⊎ Fits (tool_key tool) tool.name agent.confirm_tools

confirmation-NeedsHuman :
    (agent : AgentPolicy) (tool : Tool)
    → confirmation_required agent (tool_key tool) tool.name ≡ true
    → NeedsHuman agent tool
unfolding confirmation_required
confirmation-NeedsHuman agent tool h =
    elim (Option-cases (tool_override agent (tool_key tool) tool.name)) [
      | inl e ↦ inr (matches_any-Fits agent.confirm_tools _ _ (ground arith))
      | inr (o, e) ↦ elim (Bool-cases o.confirm) [
        | inl c ↦ inl (o, e, c)
        | inr n ↦ inr (matches_any-Fits agent.confirm_tools _ _ (ground arith))
      ]
    ]

NeedsHuman-confirmation :
    (agent : AgentPolicy) (tool : Tool)
    → NeedsHuman agent tool
    → confirmation_required agent (tool_key tool) tool.name ≡ true
unfolding confirmation_required
NeedsHuman-confirmation agent tool (inl (o, e, c)) = ground arith
NeedsHuman-confirmation agent tool (inr f) =
    ground (arith, Fits-matches_any (tool_key tool) tool.name f)

module _ (policy : PolicyConfig) (id : String) (tool : Tool) where
  default-Permits :
      (m : PolicyMode)
      → policy.default ≡ m
      → lookup id policy.agents ≡ none
      → (by_mode m no_agent false id (tool_key tool) tool.name).allowed ≡ true
      → Permits policy id tool
  unfolding by_mode read_only_tool
  default-Permits allow d u h = by_default u d
  default-Permits read_only d u h = cc
  default-Permits _ d u h = cc

  module _ (agent : AgentPolicy) (declared : lookup id policy.agents ≡ some agent)
      (fits : ¬ Fits (tool_key tool) tool.name agent.deny_tools) where
    mode-Permits :
        (m : PolicyMode)
        → mode_of policy agent ≡ m
        → (by_mode m agent true id (tool_key tool) tool.name).allowed ≡ true
        → Permits policy id tool
    unfolding by_mode
    mode-Permits allow e h =
        by_allow agent declared e fits (allow_list-IsAllowListed agent tool (ground arith))
    mode-Permits read_only e h =
        by_read_only agent declared e fits (allow_list-IsAllowListed agent tool (ground arith))
          (read_only-IsOverridden agent tool (ground arith))
    mode-Permits _ e h = cc

  allowed-Permits :
      (found : Option AgentPolicy)
      → lookup id policy.agents ≡ found
      → (evaluate_agent policy.default found id (tool_key tool) tool.name).allowed ≡ true
      → Permits policy id tool
  unfolding evaluate_agent
  allowed-Permits none u h = default-Permits policy.default refl u h
  allowed-Permits (some agent) d h =
      elim (Bool-cases (matches_any agent.deny_tools (tool_key tool) tool.name)) [
        | inl hit ↦ ground arith
        | inr miss ↦
            mode-Permits agent d (λ f. cc (miss, Fits-matches_any (tool_key tool) tool.name f))
              (mode_of policy agent) refl (ground arith)
      ]

  Permits-allowed : Permits policy id tool → (evaluate policy id tool).allowed ≡ true
  unfolding evaluate evaluate_agent by_mode allow_list_matches
  Permits-allowed (by_default u d) = ground arith
  Permits-allowed (by_allow agent d e fits listed) =
      ground (arith, not_Fits _ _ _ fits, IsAllowListed-allow_list agent tool listed)
  Permits-allowed (by_read_only agent d e fits listed (o, found, marked)) = ground (
    arith,
    not_Fits _ _ _ fits,
    IsAllowListed-allow_list agent tool listed,
    read_only-marked agent tool o found marked,
  )

  -- A call is allowed exactly where the specification of permissions lets it.
  pub allowed_iff : ((evaluate policy id tool).allowed ≡ true) ↔ Permits policy id tool
  unfolding evaluate
  allowed_iff = (allowed-Permits (lookup id policy.agents) refl, Permits-allowed)

  -- A tool on its agent's deny list is refused, whatever the mode, the allow list and overrides say.
  pub deny_list_wins :
      (agent : AgentPolicy)
      → lookup id policy.agents ≡ some agent
      → Fits (tool_key tool) tool.name agent.deny_tools
      → ((evaluate policy id tool).allowed ≡ false)
        × ((evaluate policy id tool).requires_confirmation ≡ false)
  unfolding evaluate evaluate_agent
  deny_list_wins agent d f = ground (arith, Fits-matches_any (tool_key tool) tool.name f)

  requires-confirmation :
      (agent : AgentPolicy)
      → lookup id policy.agents ≡ some agent
      → (evaluate policy id tool).requires_confirmation ≡ true
      → ((evaluate policy id tool).allowed ≡ true)
        × (confirmation_required agent (tool_key tool) tool.name ≡ true)
  unfolding evaluate evaluate_agent by_mode
  requires-confirmation agent d h = ground arith

  confirmation-requires :
      (agent : AgentPolicy)
      → lookup id policy.agents ≡ some agent
      → (evaluate policy id tool).allowed ≡ true
      → confirmation_required agent (tool_key tool) tool.name ≡ true
      → (evaluate policy id tool).requires_confirmation ≡ true
  unfolding evaluate evaluate_agent by_mode
  confirmation-requires agent d h c = ground arith

  -- Of a declared agent, a call waits for a human exactly where it is permitted and either the
  -- override of the tool asks for it or a pattern of the confirmation list fits the tool.
  pub confirmation_iff :
      (agent : AgentPolicy)
      → lookup id policy.agents ≡ some agent
      → ((evaluate policy id tool).requires_confirmation ≡ true)
        ↔ (Permits policy id tool × NeedsHuman agent tool)
  confirmation_iff agent d = (
    λ h. (
      allowed_iff.0 (requires-confirmation agent d h).0,
      confirmation-NeedsHuman agent tool (requires-confirmation agent d h).1,
    ),
    λ h. confirmation-requires agent d (allowed_iff.1 h.0) (NeedsHuman-confirmation agent tool h.1),
  )

  -- The policy in an agent's own specification decides that agent's calls by itself, and changes
  -- no verdict on the calls of another agent.
  pub own_policy :
      (specs : Assoc AgentSpec) (spec : AgentSpec) (own : AgentPolicy) (other : String)
      → lookup id specs ≡ some spec
      → spec.policy ≡ some own
      → other ≢ id
      → (authorize specs policy id tool
          ≡ evaluate_agent policy.default (some own) id (tool_key tool) tool.name)
        × (evaluate (effective_policy specs policy id) other tool ≡ evaluate policy other tool)
  unfolding authorize effective_policy evaluate
  own_policy specs spec own other s p ne = (
    ground (arith, lookup-put id id own policy.agents, eq_iff id id),
    ground (arith, lookup-put id other own policy.agents, eq_iff id other),
  )
