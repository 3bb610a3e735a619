-- ===== src/Agents/Tests.antt =====
-- A delegation and its depth.
use ia_harness.Base.{◌+ℤ◌, ◌≤◌, pos, ◌≡◌, refl, none, [], ◌∷◌, Assoc, ok, lookup}
use ia_harness.Core.Config.{AgentSpec}
use ia_harness.Agents.{CallContext, DelegateArgs, turn_context, new_source, delegation, hand_over}
use ia_harness.Agents.Depth.{Nested, itself, below, depth-new_source}

abbrev team : Assoc AgentSpec
team =
    (
      "helper",
      record {
        description = "";
        model = "";
        system_prompt = "";
        tools = [];
        max_iterations = pos 0;
        policy = none;
      },
    )
    ∷ []

abbrev top : CallContext
top = record { depth = pos 0; user_id = "ana"; parent_session_id = "s" }

abbrev child : CallContext
child = record { depth = pos 1; user_id = "ana"; parent_session_id = "t" }

abbrev args : DelegateArgs
args = record { agent = "helper"; task = "sum" }

once : Nested (new_source team (pos 2)) top 1 child
unfolding turn_context new_source delegation hand_over lookup ◌+ℤ◌
once = below "delegate" (ok args) _ "t" itself refl

depth-new_source_example : (1 ≤ 2) × (child.depth ≡ pos 1) × (child.user_id ≡ "ana")
depth-new_source_example = depth-new_source team (pos 2) top 1 child refl once
