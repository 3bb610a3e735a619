-- ===== src/Turn/Frame.antt =====
-- What the commands of a turn keep: a fact on the session and the trace that outlives new actions
-- and checkpoints is kept by the commands that append no message, and by a call where the call
-- itself keeps it.
use ia_harness.Base.{
  suc, String, ◌≡◌, refl, Bool, true, false, Option, none, some, List, ◌∷◌, if◌then◌else◌, Result,
  ok, failed,
}
use ia_harness.Core.Message.{Duration, ToolCall, ToolResult, TurnCheckpoint, Session}
use ia_harness.Core.Config.{ToolStatus, Error}
use ia_harness.Turn.Machine.{
  Host, InstalledTool, World, Action, called, told_error, recorded, M, pure, go_on, act,
}
use ia_harness.Turn.Checkpoint.{
  store_session, save_session, with_checkpoint, save_checkpoint, checkpoint_step,
  checkpoint_tool_start, stepped,
}
use ia_harness.Turn.Calls.{call_lookup_name, record_tool_call, outcome, call_tool}

abbrev pub with_new : World → TurnCheckpoint → World
with_new w c = record w { session = record w.session { checkpoint = some c } }

abbrev pub ticked : World → World
ticked w = record w { ticks = suc w.ticks }

abbrev pub is_call : Action → Bool
is_call (called it call) = true
is_call _ = false

-- What holds of a world.
abbrev pub Fact : Type 1
Fact = Session → List Action → Type 0

abbrev pub Holds : Fact → World → Type 0
Holds P w = P w.session w.trace

abbrev pub Keeps : Fact → {A : Type 0} → M A → Type 0
Keeps P m = (w : World) → Holds P w → Holds P (m w).1

-- Actions that are no call, and a checkpoint that keeps its status, leave the fact.
pub record IsSteady (P : Fact) : Type 0 where
  pub act : {s : Session} {l : List Action} (a : Action) → is_call a ≡ false → P s l → P s (a ∷ l)
  pub checkpoint :
      {s : Session} {l : List Action} (c c' : TurnCheckpoint)
      → s.checkpoint ≡ some c
      → c'.status ≡ c.status
      → P s l
      → P (record s { checkpoint = some c' }) l

-- The fact survives this call.
abbrev pub Survives : Fact → InstalledTool → ToolCall → Type 0
Survives P it call = (s : Session) (l : List Action) → P s l → P s (called it call ∷ l)

pub Keeps-go_on :
    {A B : Type 0} (P : Fact) (r : Result Error A × World) (k : A → M B)
    → Holds P r.1
    → ((a : A) → Keeps P (k a))
    → Holds P (go_on r k).1
Keeps-go_on P (ok a, w) k i h = h a w i
Keeps-go_on P (failed e, w) k i h = i

module _ (host : Host) (P : Fact) (steady : IsSteady P) where
  Keeps-store : (answer : Option String) (s : Session) → Keeps P (store_session host answer s)
  Keeps-store none s w h = steady.act _ refl h
  Keeps-store (some e) s w h = steady.act _ refl h

  pub Keeps-save_session : Keeps P (save_session host)
  unfolding save_session
  Keeps-save_session w i = Keeps-store (host.save w.trace w.session) w.session w i

  pub Keeps-with_checkpoint :
      (k : TurnCheckpoint → M (Unit {0}))
      → ((c : TurnCheckpoint) (w : World)
          → w.session.checkpoint ≡ some c
          → Holds P w
          → Holds P (k c w).1)
      → Keeps P (with_checkpoint host k)
  Keeps-with_checkpoint k h w i = go host.durable w.session.checkpoint refl
    where
      go :
          (durable : Bool) (c : Option TurnCheckpoint)
          → w.session.checkpoint ≡ c
          → Holds P ((if durable then elim c [ none ↦ pure tt | some x ↦ k x ] else pure tt) w).1
      go true none same = i
      go true (some x) same = h x w same i
      go false c same = i

  pub Keeps-save_checkpoint : Keeps P (save_checkpoint host)
  unfolding save_checkpoint
  Keeps-save_checkpoint = Keeps-with_checkpoint _ λ c w same i.
      Keeps-go_on P (save_session host _) _
        (Keeps-save_session _ (steady.checkpoint c _ same refl i)) (λ u w' i'. steady.act _ refl i')

  pub Keeps-checkpoint_step : Keeps P (checkpoint_step host)
  unfolding checkpoint_step
  Keeps-checkpoint_step = Keeps-with_checkpoint _ λ c w same i.
      Keeps-save_checkpoint (with_new w (stepped host c)) (steady.checkpoint c _ same refl i)

  pub Keeps-checkpoint_tool_start :
      (it : InstalledTool) (call : ToolCall) → Keeps P (checkpoint_tool_start host it call)
  unfolding checkpoint_tool_start
  Keeps-checkpoint_tool_start it call = Keeps-with_checkpoint _ λ c w same i.
      Keeps-save_checkpoint
        (with_new w (record c {
          pending_call = some (record {
            call_id = call.id;
            tool = it.key;
            args_redacted = host.redact call.args;
            idempotent = it.tool.idempotent;
          });
        }))
        (steady.checkpoint c _ same refl i)

  pub Keeps-record_tool_call :
      (call : ToolCall) (status : ToolStatus) → Keeps P (record_tool_call host call status)
  unfolding record_tool_call
  Keeps-record_tool_call call status w h = go (host.audit_fails w.trace)
    where
      -- The world in which the audit has answered.
      recorded_in : World
      recorded_in = record w {
        trace = recorded call.id status ∷ w.trace;
        ticks = suc w.ticks;
        ids = suc w.ids;
      }

      go :
          (failing : Bool)
          → Holds P
              ((if failing then act (told_error (call_lookup_name call)) else pure tt)
                recorded_in).1
      go true = steady.act _ refl (steady.act _ refl h)
      go false = steady.act _ refl h

  pub Keeps-outcome :
      (it : InstalledTool) (call : ToolCall) (r : Result String ToolResult)
      → Keeps P (outcome host it call r)
  unfolding outcome
  Keeps-outcome it call (ok res) w i = i
  Keeps-outcome it call (failed e) w h = steady.act _ refl h

  pub Keeps-call_tool :
      (it : InstalledTool) (call : ToolCall) (timeout : Duration)
      → Survives P it call
      → Keeps P (call_tool host it call timeout)
  unfolding call_tool
  Keeps-call_tool it call timeout survives w h = survives _ _ h
