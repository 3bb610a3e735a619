-- ===== src/Turn/Sample.antt =====
-- A host with one tool, an engine with one model that asks for it once, and a session.
use ia_harness.Base.{ℕ, zero, suc, pos, true, false, none, some, List, [], ◌∷◌, ok}
use ia_harness.Core.Message.{
  Role, PartKind, CheckpointStatus, ResultContentKind, SessionState, ToolCall, ToolResult, Message,
  no_usage, text_part,
}
use ia_harness.Core.Config.{
  ChatResponse, Decision, ModelProfile, RunRequest, StopReason, allow, unset,
}
use ia_harness.Turn.Machine.{Host, InstalledTool, World, Action, called}
use ia_harness.Turn.Engine.{Engine, Task, Locals}
use ia_harness.Turn.Parallel.{PlannedCall}

abbrev pub long_result : ToolResult
long_result = record {
  call_id = "c";
  content =
      record { kind = ResultContentKind.text; text = b'o' ∷ b'k' ∷ []; json = none }
      ∷ record { kind = ResultContentKind.json; text = []; json = some (b'1' ∷ b'2' ∷ b'3' ∷ []) }
      ∷ [];
  is_error = false;
  denied = false;
  truncated = false;
}

abbrev pub pay : InstalledTool
pay = record {
  key = "bank.pay";
  tool = record {
    name = "pay";
    namespace = "bank";
    description = "";
    input_schema = [];
    destructive = true;
    idempotent = true;
    timeout = pos 5;
  };
  validator = none;
}

abbrev pub host : Host
host = record {
  durable = true;
  tool_result_max_bytes = pos 100;
  policy = record {
    default = allow;
    agents =
        (
          "chat",
          record {
            mode = unset;
            allow_tools = [];
            deny_tools = [];
            confirm_tools = "bank.pay" ∷ [];
            overrides = [];
            system_prompt = "";
          },
        )
        ∷ [];
  };
  agents = [];
  clock = pos;
  new_id = λ n. "id";
  save = λ before s. none;
  invoke = λ before it call timeout. ok long_result;
  confirm = λ before call. ok (record { approve = true; reason = "" });
  audit_fails = λ before. false;
  redact = λ args. "";
  words = λ reason. "";
}

abbrev pub call : ToolCall
call = record { id = "c"; name = "pay"; namespace = "bank"; args = none }

abbrev pub call_message : Message
call_message = record {
  id = "m";
  role = Role.assistant;
  parts =
      record { kind = PartKind.tool_call; text = []; call = some call; result = none; media = none }
      ∷ [];
  created_at = pos 0;
}

abbrev pub world : World
world = record {
  session = record {
    id = "s";
    user_id = "u";
    agent_id = "chat";
    model = "gpt";
    state = SessionState.active;
    messages = call_message ∷ [];
    pending = none;
    usage = no_usage;
    created_at = pos 0;
    updated_at = pos 0;
    checkpoint = some (record {
      turn_id = "t";
      status = CheckpointStatus.running;
      step = pos 1;
      updated_at = pos 0;
      pending_call =
          some (record { call_id = "c"; tool = "bank.pay"; args_redacted = ""; idempotent = true });
    });
    parent_session_id = "";
  };
  trace = [];
  ticks = 0;
  ids = 0;
}

abbrev pub profile : ModelProfile
profile = record {
  provider = "openai";
  model = "gpt";
  capabilities = record {
    tool_calling = true;
    streaming = true;
    max_context_tokens = pos 0;
    max_output_tokens = pos 0;
    vision = false;
    documents = false;
    max_media_bytes = pos 0;
    prompt_caching = false;
  };
  params = [];
  fallbacks = [];
}

-- The model asks for the tool until it was called.
abbrev pub reply : List ToolCall → ChatResponse
reply calls = record {
  message = record { id = ""; role = Role.assistant; parts = []; created_at = pos 0 };
  tool_calls = calls;
  usage = no_usage;
  stop_reason = StopReason.completed;
  model = "gpt";
}

abbrev pub answer_by : List Action → ChatResponse
answer_by [] = reply (call ∷ [])
answer_by (called it c ∷ before) = reply []
answer_by (_ ∷ before) = answer_by before

-- The goroutine of the last call is the first to reach its tool.
abbrev pub downward : ℕ → List ℕ
downward zero = []
downward (suc n) = n ∷ downward n

abbrev pub engine : Engine
engine = record {
  host = host;
  registry = record {
    models = ("gpt", profile) ∷ [];
    providers = "openai" ∷ [];
    default_model = "gpt";
  };
  settings = record {
    max_tokens = pos 0;
    safety_margin = pos 0;
    compact_at_ratio = record { num = pos 1; den = 2 };
    pricing = record {
      currency = "";
      input_price = pos 0;
      output_price = pos 0;
      bytes_per_token = record { num = pos 4; den = 1 };
      cached_input_price = pos 0;
      cache_write_price = pos 0;
    };
    tokenizer = none;
  };
  summarize = false;
  summarizer = λ before messages max prompt. none;
  system_prompt = "";
  parallel_tools = false;
  invocation_order = λ before. downward;
  cancelled = λ before. false;
  limit = λ before asked key. none;
  ask = λ before req asked a. ok (answer_by before);
  request_bytes = λ req. 4;
  compile = λ schema. ok (λ text. none);
  memory = none;
  retriever = none;
  redact_text = λ text. text;
  cache = record { enabled = false; min_score = pos 0; ttl = pos 0; max_entries = pos 0 };
  sha = λ text. "";
  embedder = none;
  cache_store = none;
  sources = (λ before. ok (pay.tool ∷ [])) ∷ [];
}

abbrev pub task : Task
task = record { catalog = pay ∷ []; schema = []; check_output = none }

abbrev pub locals : Locals
locals = record {
  messages = world.session.messages;
  executions = [];
  budget = record {
    max_iterations = pos 8;
    iterations = pos 0;
    max_tokens = pos 0;
    tokens = pos 0;
    deadline = pos 0;
    has_deadline = false;
  };
  summarize_allowed = false;
  model = "gpt";
  compaction = none;
  cache = none;
}

abbrev pub request : RunRequest
request = record {
  session_id = "s";
  user_id = "u";
  agent_id = "chat";
  model = "";
  input = text_part (b'h' ∷ []) ∷ [];
  max_iterations = pos 2;
  budget = record { max_tokens = pos 0; max_wall = pos 0 };
  parent_session_id = "";
  output_schema = [];
}

abbrev pub plan : PlannedCall
plan = record { call = call; it = pay }

abbrev pub approval : Decision
approval = record { approve = true; reason = "" }
