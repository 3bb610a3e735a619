-- ===== src/Turn/Engine.antt =====
-- The host's configuration as a turn reads it (internal/core/config.go, Config), and what the turn
-- keeps between its rounds (the local variables of runTurn in loop.go).
use ia_harness.Base.{
  ℕ, String, Bool, false, Option, none, some, List, [], lookup, map, Result, if◌then◌else◌, str_eq,
  not,
}
use ia_harness.Core.Message.{Bytes, Message, Part, Session, SessionState}
use ia_harness.Core.Config.{
  AgentPolicy, AgentSpec, CacheEntry, CacheQuery, ChatRequest, ChatResponse, CompactionInfo,
  CacheInfo, Fact, RetrievedItem, SemanticCacheConfig, StopReason, Tool, ToolExecution, TurnResult,
  Vector,
}
use ia_harness.Budget.{TurnBudget}
use ia_harness.Route.{Registry, Attempt}
use ia_harness.Window.{Settings, Summarizer}
use ia_harness.Media.Mime.{is_blank}
use ia_harness.Turn.Machine.{Host, InstalledTool, Action}

-- The ports answer by all that happened before. `invocation_order` is the order in which the
-- goroutines of parallel calls reach their tools, by the places of the calls.
pub record Engine : Type 0 where
  pub host : Host
  pub registry : Registry
  pub settings : Settings
  pub summarize : Bool
  pub summarizer : List Action → Summarizer
  pub system_prompt : String
  pub parallel_tools : Bool
  pub invocation_order : List Action → ℕ → List ℕ
  pub cancelled : List Action → Bool
  pub limit : List Action → List Attempt → String → Option String
  pub ask : List Action → ChatRequest → List Attempt → Attempt → Result String ChatResponse
  -- The bytes of a request as JSON.
  pub request_bytes : ChatRequest → ℕ
  -- A compiled schema tells what is wrong with a text.
  pub compile : Bytes → Result String (Bytes → Option String)
  pub memory : Option (List Action → String → Result String (List Fact))
  pub retriever : Option (List Action → String → Bytes → Result String (List RetrievedItem))
  pub redact_text : Bytes → Bytes
  pub cache : SemanticCacheConfig
  pub sha : Bytes → String
  pub embedder : Option (List Action → Bytes → Result String (List Vector))
  pub cache_store : Option (List Action → CacheQuery → Result String (Option CacheEntry))
  -- The sources of tools.
  pub sources : List (List Action → Result String (List Tool))

-- The catalog of a turn, the schema that its output has to keep to, and the check of the output.
pub record Task : Type 0 where
  pub catalog : List InstalledTool
  pub schema : Bytes
  pub check_output : Option (Bytes → Option String)

abbrev pub tools : Task → List Tool
tools t = map (λ (it : InstalledTool). it.tool) t.catalog

-- The local variables of a turn: the context that goes to the model, what was executed, the
-- budget, whether a summary may still be made, and the parts of the result that change.
pub record Locals : Type 0 where
  pub messages : List Message
  pub executions : List ToolExecution
  pub budget : TurnBudget
  pub summarize_allowed : Bool
  pub model : String
  pub compaction : Option CompactionInfo
  pub cache : Option CacheInfo

-- A round goes on, or the turn ends.
pub data Flow : Type 0 where
  again : Locals → Flow
  ended : TurnResult → Flow

-- `finish`
abbrev pub finished : Session → Locals → List Part → StopReason → TurnResult
finished s l output stop = record {
  session_id = s.id;
  state = s.state;
  output = output;
  pending = none;
  usage = s.usage;
  tool_calls = l.executions;
  stop_reason = stop;
  model = l.model;
  compaction = l.compaction;
  cache = l.cache;
  resumed = false;
}

-- The result of a turn that waits for a human.
abbrev pub waiting : Session → Locals → TurnResult
waiting s l = record (finished s l [] StopReason.completed) {
  state = SessionState.awaiting_confirmation;
  pending = s.pending;
}

abbrev pub policy_prompt : Option AgentPolicy → String → String
policy_prompt none global = global
policy_prompt (some agent) global =
    if not (is_blank agent.system_prompt) then agent.system_prompt else global

abbrev pub spec_prompt : Option AgentSpec → String → String
spec_prompt none other = other
spec_prompt (some spec) other =
    if not (is_blank spec.system_prompt) then spec.system_prompt else other

unfoldable pub effective_system_prompt : Engine → String → String
effective_system_prompt e agent_id =
    spec_prompt (lookup agent_id e.host.agents)
      (policy_prompt (lookup agent_id e.host.policy.agents) e.system_prompt)

abbrev pub spec_model : Option AgentSpec → String → String
spec_model none own = own
spec_model (some spec) own = if not (str_eq spec.model "") then spec.model else own

unfoldable pub agent_model : Engine → Session → String
agent_model e s = spec_model (lookup s.agent_id e.host.agents) s.model
