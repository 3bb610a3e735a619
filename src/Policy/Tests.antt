-- ===== src/Policy/Tests.antt =====
-- A policy with an agent, and runs of the verdict on it.
use ia_harness.Base.{
  String, pos, ◌≡◌, refl, ◌↔◌, ◌≢◌, true, false, some, [], ◌∷◌, arith, eq_iff, lookup,
}
use ia_harness.Core.Config.{
  unset, allow, read_only, ToolPolicy, AgentPolicy, PolicyConfig, Tool, AgentSpec,
}
use ia_harness.Policy.{
  tool_key, match_tool, matches_any, tool_override, timeout, evaluate, evaluate_agent, by_mode,
  allow_list_matches, confirmation_required, effective_tool_timeout,
}
use ia_harness.Policy.Glob.{path_match}
use ia_harness.Policy.Authorization.{Fits, here, Permits, NeedsHuman, allowed_iff, confirmation_iff}

abbrev slow : ToolPolicy
slow = record { confirm = true; read_only = false; idempotent = true; timeout = pos 30 }

abbrev chat : AgentPolicy
chat = record {
  mode = unset;
  allow_tools = "bank.*" ∷ [];
  deny_tools = "*drop*" ∷ [];
  confirm_tools = [];
  overrides = ("pay", slow) ∷ [];
  system_prompt = "";
}

abbrev policy : PolicyConfig
policy = record { default = allow; agents = ("chat", chat) ∷ [] }

abbrev bank_tool : String → Tool
bank_tool name = record {
  name = name;
  namespace = "bank";
  description = "";
  input_schema = [];
  destructive = false;
  idempotent = false;
  timeout = pos 5;
}

abbrev pay : Tool
pay = bank_tool "pay"

abbrev drop_all : Tool
drop_all = bank_tool "drop_all"

pays_after_confirmation : (evaluate policy "chat" pay).requires_confirmation ≡ true
unfolding evaluate evaluate_agent tool_key path_match match_tool matches_any tool_override lookup
    by_mode allow_list_matches confirmation_required
pays_after_confirmation = refl

globs :
    (path_match "bank.[a-p]?y" "bank.pay" ≡ true)
    × (path_match "bank/*" "bank/a/b" ≡ false)
    × (path_match "[" "[" ≡ false)
unfolding path_match
globs = (refl, refl, refl)

allowed_iff_example : ((evaluate policy "chat" pay).allowed ≡ true) ↔ Permits policy "chat" pay
allowed_iff_example = allowed_iff policy "chat" pay

drop_all-Fits : Fits (tool_key drop_all) "drop_all" chat.deny_tools
unfolding match_tool tool_key path_match
drop_all-Fits = here refl

confirmation_iff_example :
    ((evaluate policy "chat" pay).requires_confirmation ≡ true)
    ↔ (Permits policy "chat" pay × NeedsHuman chat pay)
unfolding lookup
confirmation_iff_example = confirmation_iff policy "chat" pay chat refl

abbrev reader : AgentSpec
reader = record {
  description = "";
  model = "";
  system_prompt = "";
  tools = [];
  max_iterations = pos 0;
  policy = some (record chat { mode = read_only });
}

other_agent : ◌≢◌ {A = String} "other" "chat"
other_agent = ground (arith, eq_iff "other" "chat")

thirty_seconds : effective_tool_timeout policy "chat" pay ≡ pos 30
unfolding effective_tool_timeout timeout tool_override tool_key lookup
thirty_seconds = refl
