-- ===== src/Core/Config.antt =====
-- The configuration and the ports' data (internal/core/config.go, ports.go). A map of the source
-- is an association list; the ports themselves are parameters of the definitions that call them.
use ia_harness.Base.{ℕ, ℤ, String, Bool, Option, List, Assoc}
use ia_harness.Core.Message.{
  Bytes, Time, Duration, Message, SessionState, PendingConfirmation, ToolCall, Usage, Part,
}

pub record Capabilities : Type 0 where
  pub tool_calling : Bool
  pub streaming : Bool
  pub max_context_tokens : ℤ
  pub max_output_tokens : ℤ
  pub vision : Bool
  pub documents : Bool
  pub max_media_bytes : ℤ
  pub prompt_caching : Bool

-- `params` keeps the keys that the caller set.
pub record ModelProfile : Type 0 where
  pub provider : String
  pub model : String
  pub capabilities : Capabilities
  pub params : List String
  pub fallbacks : List String

-- `unset` is the empty mode; any other text of the source falls in the same branch as `unknown`.
pub data PolicyMode : Type 0 where
  unset deny allow read_only : PolicyMode
  unknown : String → PolicyMode

pub record ToolPolicy : Type 0 where
  pub confirm : Bool
  pub read_only : Bool
  pub idempotent : Bool
  pub timeout : Duration

pub record AgentPolicy : Type 0 where
  pub mode : PolicyMode
  pub allow_tools : List String
  pub deny_tools : List String
  pub confirm_tools : List String
  pub overrides : Assoc ToolPolicy
  pub system_prompt : String

pub record PolicyConfig : Type 0 where
  pub default : PolicyMode
  pub agents : Assoc AgentPolicy

pub record Tool : Type 0 where
  pub name : String
  pub namespace : String
  pub description : String
  pub input_schema : Bytes
  pub destructive : Bool
  pub idempotent : Bool
  pub timeout : Duration

pub record AgentSpec : Type 0 where
  pub description : String
  pub model : String
  pub system_prompt : String
  pub tools : List String
  pub max_iterations : ℤ
  pub policy : Option AgentPolicy

pub record Budget : Type 0 where
  pub max_tokens : ℤ
  pub max_wall : Duration

pub data StopReason : Type 0 where
  none completed max_iterations budget cancelled error : StopReason

pub data ToolStatus : Type 0 where
  ok error denied awaiting_confirmation : ToolStatus

pub record ToolExecution : Type 0 where
  pub call_id : String
  pub tool : String
  pub status : ToolStatus
  pub latency_ms : ℤ

pub record ChatRequest : Type 0 where
  pub model : String
  pub session_id : String
  pub system : String
  pub messages : List Message
  pub tools : List Tool
  pub params : List String
  pub max_output_tokens : ℤ
  pub prompt_caching : Bool
  pub output_schema : Bytes

pub record ChatResponse : Type 0 where
  pub message : Message
  pub tool_calls : List ToolCall
  pub usage : Usage
  pub stop_reason : StopReason
  pub model : String

pub record RateLimit : Type 0 where
  pub requests_per_minute : ℤ
  pub burst : ℤ
  pub max_wait : Duration

-- A float64 that is no NaN, by its bits: their order is the order of the floats. A negative one is
-- the negated number of its bits without the sign, and both zeros are 0.
abbrev pub Score : Type 0
Score = ℤ

-- Float32 bit patterns.
abbrev pub Vector : Type 0
Vector = List ℕ

pub record CacheInfo : Type 0 where
  pub key : String
  pub score : Score
  pub hit : Bool

pub record SemanticCacheConfig : Type 0 where
  pub enabled : Bool
  pub min_score : Score
  pub ttl : Duration
  pub max_entries : ℤ

pub record CacheQuery : Type 0 where
  pub user_id : String
  pub model : String
  pub key : String
  pub vector : Vector

pub record CacheEntry : Type 0 where
  pub response : ChatResponse
  pub created_at : Time
  pub score : Score

pub record CompactionInfo : Type 0 where
  pub tokens_before : ℤ
  pub tokens_after : ℤ
  pub messages_removed : ℕ
  pub summarized : Bool

pub record Decision : Type 0 where
  pub approve : Bool
  pub reason : String

-- What a turn ends with.
pub record TurnResult : Type 0 where
  pub session_id : String
  pub state : SessionState
  pub output : List Part
  pub pending : Option PendingConfirmation
  pub usage : Usage
  pub tool_calls : List ToolExecution
  pub stop_reason : StopReason
  pub model : String
  pub compaction : Option CompactionInfo
  pub cache : Option CacheInfo
  pub resumed : Bool

-- Memory of a user.
pub data FactKind : Type 0 where
  fact preference : FactKind
  other : String → FactKind

pub record Fact : Type 0 where
  pub id : String
  pub user_id : String
  pub kind : FactKind
  pub text : Bytes
  pub source : Bytes
  pub created_at : Time
  pub updated_at : Time

pub record RetrievedItem : Type 0 where
  pub id : Bytes
  pub text : Bytes
  pub source : Bytes
  pub score : Score

-- The named errors, by their code.
pub data Error : Type 0 where
  config policy tool provider output : String → Error
  -- An error that a port returned.
  port : String → Error

pub record RunRequest : Type 0 where
  pub session_id : String
  pub user_id : String
  pub agent_id : String
  pub model : String
  pub input : List Part
  pub max_iterations : ℤ
  pub budget : Budget
  pub parent_session_id : String
  pub output_schema : Bytes
