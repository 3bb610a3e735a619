-- ===== src/Turn/Machine.antt =====
-- The state that a turn changes, what the host answers, and commands that may fail.
use ia_harness.Base.{
  ℕ, zero, suc, ℤ, pos, negsuc, ◌+◌, ◌/◌, String, Bool, Option, List, ◌∷◌, Assoc, Result, ok,
  failed,
}
use ia_harness.Core.Message.{
  Bytes, Time, Duration, ToolCall, ToolResult, TurnCheckpoint, Session, Usage,
}
use ia_harness.Core.Config.{
  AgentSpec, PolicyConfig, Tool, ToolStatus, Decision, Error, ChatRequest, CacheQuery, CacheEntry,
  CompactionInfo,
}
use ia_harness.Policy.{Reason}

-- `installedTool`: the source that owns a tool is named by the tool; a validator is absent or tells
-- what is wrong with arguments.
pub record InstalledTool : Type 0 where
  pub key : String
  pub tool : Tool
  pub validator : Option (Option Bytes → Option String)

-- What the turn does that the host can see, in its order.
pub data Action : Type 0 where
  -- SessionStore.Save took the session.
  saved : Session → Action
  save_failed : Action
  -- ToolSource.Call.
  called : InstalledTool → ToolCall → Action
  -- Handler.Confirmation and its answer.
  asked : ToolCall → Result String Decision → Action
  told_checkpoint : TurnCheckpoint → Action
  told_call told_error : String → Action
  told_result : String → ToolStatus → Action
  -- An event of the audit, with the call and its status.
  recorded : String → ToolStatus → Action
  -- A request went to a model, and the usage of its answer to the audit and the handler.
  asked_model : ChatRequest → Action
  recorded_model told_usage : Usage → Action
  told_compaction : CompactionInfo → Action
  -- The cache was asked; `true` for a hit.
  told_cache : Bool → Action
  -- The cache took an answer.
  cached : CacheQuery → CacheEntry → Action

-- The host. It may answer by all that happened before; the newest action comes first.
pub record Host : Type 0 where
  pub durable : Bool
  pub tool_result_max_bytes : ℤ
  pub policy : PolicyConfig
  pub agents : Assoc AgentSpec
  pub clock : ℕ → Time
  pub new_id : ℕ → String
  -- An error of the store, if it fails.
  pub save : List Action → Session → Option String
  pub invoke : List Action → InstalledTool → ToolCall → Duration → Result String ToolResult
  pub confirm : List Action → ToolCall → Result String Decision
  pub audit_fails : List Action → Bool
  -- The redacted text of arguments, and the words of a reason.
  pub redact : Option Bytes → String
  pub words : Reason → String

pub record World : Type 0 where
  pub session : Session
  pub trace : List Action
  -- How often the clock was read and an id was made.
  pub ticks : ℕ
  pub ids : ℕ

abbrev pub M : Type 0 → Type 0
M A = World → Result Error A × World

abbrev pub pure : {A : Type 0} → A → M A
pure a w = (ok a, w)

abbrev pub fail : {A : Type 0} → Error → M A
fail e w = (failed e, w)

module _ {A B : Type 0} where
  abbrev pub go_on : Result Error A × World → (A → M B) → Result Error B × World
  go_on (ok a, w) k = k a w
  go_on (failed e, w) k = (failed e, w)

  infixl 5 ◌>>=◌
  abbrev pub ◌>>=◌ : M A → (A → M B) → M B
  ◌>>=◌ m k w = go_on (m w) k

infixl 5 ◌>>◌
abbrev pub ◌>>◌ : {A B : Type 0} → M A → M B → M B
m >> k = m >>= λ a. k

abbrev pub get_session : M Session
get_session w = (ok w.session, w)

abbrev pub set_session : Session → M (Unit {0})
set_session s w = (ok tt, record w { session = s })

abbrev pub act : Action → M (Unit {0})
act a w = (ok tt, record w { trace = a ∷ w.trace })

abbrev pub history : M (List Action)
history w = (ok w.trace, w)

module _ (host : Host) where
  abbrev pub now : M Time
  now w = (ok (host.clock w.ticks), record w { ticks = suc w.ticks })

  abbrev pub fresh_id : M String
  fresh_id w = (ok (host.new_id w.ids), record w { ids = suc w.ids })

abbrev negated : ℕ → ℤ
negated zero = pos 0
negated (suc n) = negsuc n

-- `Milliseconds` of a duration, cut toward zero.
abbrev pub milliseconds : Duration → ℤ
milliseconds (pos n) = pos (n / 1_000_000)
milliseconds (negsuc n) = negated ((n + 1) / 1_000_000)
