-- ===== src/Agents/Filter.antt =====
-- The filter of the tools of an agent (agents.go, FilterTools) against the patterns of the policy.
use ia_harness.Base.{String, ◌≡◌, refl, List, [], ◌∷◌, arith}
use ia_harness.Core.Config.{Tool}
use ia_harness.Policy
use ia_harness.Policy.{tool_key}
use ia_harness.Agents.{key_of, matches_pattern, matches_any}

same_pattern :
    (tool : Tool) (pattern : String)
    → matches_pattern tool pattern ≡ Policy.match_tool pattern (key_of tool) tool.name
unfolding Policy.match_tool
same_pattern tool pattern = ground arith

-- The filter of an agent's tools reads its patterns as the lists of a policy do.
pub matches_any-policy :
    (patterns : List String) (tool : Tool)
    → matches_any patterns tool ≡ Policy.matches_any patterns (key_of tool) tool.name
unfolding matches_any Policy.matches_any
matches_any-policy [] tool = refl
matches_any-policy (p ∷ ps) tool = ground (arith, same_pattern tool p, matches_any-policy ps tool)
