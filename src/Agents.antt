-- ===== src/Agents.antt =====
-- internal/engine/agents/agents.go and source.go: the tool that delegates a task to a named agent.
pub mod Depth
pub mod Filter
mod Tests
use ia_harness.Base.{
  ℤ, pos, ◌+ℤ◌, String, str_eq, Bool, true, false, not, ◌||◌, Option, none, some, List, [], ◌∷◌,
  ◌++◌, Assoc, lookup, map, leb_ℤ, ltb_ℤ, filter, any, is_empty, if◌then◌else◌, Result, ok, failed,
}
use ia_harness.Core.Message.{
  Bytes, Part, ToolResult, ResultContent, ResultContentKind, is_text, text_part,
}
use ia_harness.Core.Config.{AgentSpec, Budget, Tool}
use ia_harness.Core.Text.{utf8}
use ia_harness.Policy.{◌^^◌}
use ia_harness.Policy.Glob.{path_match}
use ia_harness.Route.{sort_strings}
use ia_harness.Media.Mime.{is_blank}
use ia_harness.Turn.Results.{text_content}

abbrev pub namespace : String
namespace = "agents"

abbrev pub delegate_name : String
delegate_name = "delegate"

-- The depth of the delegation, the user and the session of the parent. The handler only passes on.
pub record CallContext : Type 0 where
  pub depth : ℤ
  pub user_id : String
  pub parent_session_id : String

unfoldable pub key_of : Tool → String
key_of tool =
    if not (str_eq tool.namespace "") then tool.namespace ^^ "." ^^ tool.name else tool.name

abbrev pub matches_pattern : Tool → String → Bool
matches_pattern tool pattern =
    if str_eq pattern ""
    then false
    else if str_eq pattern (key_of tool) || str_eq pattern tool.name
    then true
    else if path_match pattern (key_of tool)
    then true
    else path_match pattern tool.name

unfoldable pub matches_any : List String → Tool → Bool
matches_any patterns tool = any (matches_pattern tool) patterns

unfoldable pub filter_tools : List Tool → List String → List Tool
filter_tools tools patterns =
    if is_empty patterns then tools else filter (matches_any patterns) tools

-- The names in order, with their descriptions.
describe_rest : Assoc AgentSpec → String → Bool → String
describe_rest agents name first =
    (if first then "" else "; ") ^^ name ^^ (elim (lookup name agents) [
      | none ↦ ""
      | some spec ↦ if is_blank spec.description then "" else " (" ^^ spec.description ^^ ")"
    ])

describe : Assoc AgentSpec → Bool → List String → String
unfolding describe_rest
describe agents first [] = ""
describe agents first (name ∷ names) =
    describe_rest agents name first ^^ describe agents false names

unfoldable pub agent_names : Assoc AgentSpec → List String
agent_names agents = sort_strings (map (λ (a : String × AgentSpec). a.0) agents)

module _ (schema : Bytes) where
  unfoldable pub delegate_tool : Assoc AgentSpec → Tool
  unfolding describe agent_names
  delegate_tool agents = record {
    name = delegate_name;
    namespace = namespace;
    description =
        "Delega a tarefa a um agente especializado. Agentes disponíveis: "
        ^^ describe agents true (agent_names agents);
    input_schema = schema;
    destructive = false;
    idempotent = false;
    timeout = pos 0;
  }

-- The arguments of a delegation.
pub record DelegateArgs : Type 0 where
  pub agent : String
  pub task : String

pub record SubAgentRequest : Type 0 where
  pub parent_session_id : String
  pub user_id : String
  pub agent_id : String
  pub input : List Part
  pub budget : Budget

abbrev pub no_budget : Budget
no_budget = record { max_tokens = pos 0; max_wall = pos 0 }

-- `NewSource`
pub record Source : Type 0 where
  pub agents : Assoc AgentSpec
  pub max_depth : ℤ

unfoldable pub new_source : Assoc AgentSpec → ℤ → Source
new_source agents max_depth = record {
  agents = agents;
  max_depth = if leb_ℤ max_depth (pos 0) then pos 1 else max_depth;
}

abbrev pub is_delegate : String → Bool
is_delegate name = str_eq name delegate_name || str_eq name (namespace ^^ "." ^^ delegate_name)

-- Where the call goes: back with a message, or to the runner.
pub data Delegation : Type 0 where
  refused : String → Delegation
  handed_over : CallContext → SubAgentRequest → Delegation

abbrev pub is_known : Assoc AgentSpec → String → Bool
is_known agents name = elim (lookup name agents) [ none ↦ false | some spec ↦ true ]

abbrev pub deeper : CallContext → CallContext
deeper call = record call { depth = call.depth +ℤ pos 1 }

-- What the tools of a turn see (runTurn of loop.go): the depth of the caller, and the user and the id of the session.
unfoldable pub turn_context : CallContext → String → String → CallContext
turn_context caller user_id session_id = record {
  depth = caller.depth;
  user_id = user_id;
  parent_session_id = session_id;
}

-- The text of the last refusal is without the number of levels.
unfoldable pub hand_over : Source → CallContext → DelegateArgs → Delegation
hand_over s call parsed =
    if not (is_known s.agents parsed.agent)
    then refused ("agente \"" ^^ parsed.agent ^^ "\" não configurado")
    else if str_eq parsed.task ""
    then refused "campo task é obrigatório"
    else if ltb_ℤ s.max_depth (call.depth +ℤ pos 1)
    then refused "profundidade máxima de delegação atingida"
    else handed_over (deeper call) (record {
      parent_session_id = call.parent_session_id;
      user_id = call.user_id;
      agent_id = parsed.agent;
      input = text_part (utf8 parsed.task) ∷ [];
      budget = no_budget;
    })

-- The checks of `Call` before the sub-turn; `parsed` is what the JSON reader made of the arguments.
unfoldable pub delegation : Source → CallContext → String → Result String DelegateArgs → Delegation
unfolding hand_over
delegation s call name (failed e) =
    if is_empty s.agents
    then refused "delegação indisponível: nenhum agente configurado"
    else if not (is_delegate name)
    then refused ("tool desconhecida: " ^^ name)
    else refused ("argumentos inválidos: " ^^ e)
delegation s call name (ok parsed) =
    if is_empty s.agents
    then refused "delegação indisponível: nenhum agente configurado"
    else if not (is_delegate name)
    then refused ("tool desconhecida: " ^^ name)
    else hand_over s call parsed

unfoldable pub output_text : List Part → Bytes
output_text [] = []
output_text (p ∷ ps) = let rest = output_text ps in if is_text p.kind then p.text ++ rest else rest

abbrev pub usage_error : String → ToolResult
usage_error message = record {
  call_id = "";
  content = text_content message;
  is_error = true;
  denied = false;
  truncated = false;
}

abbrev pub text_result : Bytes → ToolResult
text_result text = record {
  call_id = "";
  content = record { kind = ResultContentKind.text; text = text; json = none } ∷ [];
  is_error = false;
  denied = false;
  truncated = false;
}

-- The answer of the sub-turn as a result; an error is a result too.
unfoldable pub sub_result : String → Result String (List Part) → ToolResult
unfolding output_text utf8
sub_result agent (failed e) = usage_error ("falha no sub-agente: " ^^ e)
sub_result agent (ok parts) =
    if is_empty parts
    then text_result (utf8 ("agente \"" ^^ agent ^^ "\" concluiu sem texto"))
    else text_result (output_text parts)

-- `Call`
unfoldable pub call_source :
    (CallContext → SubAgentRequest → Result String (List Part))
    → Source
    → CallContext
    → String
    → Result String DelegateArgs
    → ToolResult
unfolding delegation sub_result
call_source run s call name parsed = elim (delegation s call name parsed) [
  | refused message ↦ usage_error message
  | handed_over child req ↦ sub_result req.agent_id (run child req)
]
