-- ===== src/Facade/Tests.antt =====
-- A desk with one session that waits for a human, and one run.
use ia_harness.Base.{
  pos, ◌≡◌, refl, ◌↔◌, ◌&&◌, true, false, none, some, [], ◌∷◌, if◌then◌else◌, ok, failed, str_eq,
  arith,
}
use ia_harness.Core.Message.{Role, PartKind, SessionState, ToolCall, Session, no_usage, text_part}
use ia_harness.Core.Config.{RunRequest}
use ia_harness.Turn.Checkpoint.{is_running, find_tool_call, newest, first_part}
use ia_harness.Facade.{
  Desk, adopt, load_or_create_session, awaits, Start, admit_run, reopen, admit_resolution,
}
use ia_harness.Agents.{SubAgentRequest}
use ia_harness.Turn.Engine.{Engine}
use ia_harness.Turn.Sample.{
  engine, host, world, profile, request as sample_request, call as sample_call, approval,
}
use ia_harness.Facade.Entry.{opening, run_started, resolve_started, run_sub_agent}
use ia_harness.Facade.Outcome.{IsClosed, run_started-IsClosed}
use ia_harness.Facade.History.{IsGrown, runs-IsGrown}
use ia_harness.Facade.Child.{IsDelegated, run_sub_agent-IsDelegated}
use ia_harness.Facade.Admission.{
  IsSessionOf, IsResolvable, resumed_session, admit_run-owner, admit_resolution-ok_iff,
}

abbrev call : ToolCall
call = record { id = "c"; name = "pay"; namespace = "bank"; args = none }

abbrev session : SessionState → Session
session state = record {
  id = "s";
  user_id = "ana";
  agent_id = "chat";
  model = "gpt";
  state = state;
  messages =
      record {
        id = "m";
        role = Role.assistant;
        parts =
            record {
              kind = PartKind.tool_call;
              text = [];
              call = some call;
              result = none;
              media = none;
            }
            ∷ [];
        created_at = pos 0;
      }
      ∷ [];
  pending = some (record {
    call_id = "c";
    tool_name = "bank.pay";
    args_redacted = "";
    reason = "";
    requested_at = pos 0;
  });
  usage = no_usage;
  created_at = pos 0;
  updated_at = pos 0;
  checkpoint = none;
  parent_session_id = "";
}

abbrev desk : SessionState → Desk
desk state = record {
  models = [];
  default_model = "";
  load = λ id. if str_eq id "s" then ok (session state) else failed "missing";
  now = pos 9;
  fresh_id = "new";
}

abbrev request : RunRequest
request = record {
  session_id = "s";
  user_id = "ana";
  agent_id = "";
  model = "";
  input = text_part (b'h' ∷ []) ∷ [];
  max_iterations = pos 0;
  budget = record { max_tokens = pos 0; max_wall = pos 0 };
  parent_session_id = "";
  output_schema = [];
}

abbrev start : Start
start = record {
  session = session SessionState.active;
  input = text_part (b'h' ∷ []) ∷ [];
  resumed = false;
}

admit_run-owner_example :
    (start.session.user_id ≡ "ana")
    × IsSessionOf (desk SessionState.active) request start.session
    × (awaits start.session.state ≡ false)
    × (start.resumed ≡ (true && is_running start.session.checkpoint))
    × (start.input ≡ (if start.resumed then [] else request.input))
unfolding admit_run load_or_create_session adopt
admit_run-owner_example = admit_run-owner true (desk SessionState.active) request start refl

admit_resolution-ok_iff_example :
    (admit_resolution true (desk SessionState.awaiting_confirmation) "s" "c"
      ≡ ok (reopen true (session SessionState.awaiting_confirmation), call))
    ↔ ((old : Session) × IsResolvable (desk SessionState.awaiting_confirmation) "s" "c" old call
        × (reopen true (session SessionState.awaiting_confirmation) ≡ resumed_session true old))
admit_resolution-ok_iff_example =
    admit_resolution-ok_iff true (desk SessionState.awaiting_confirmation) "s" "c"
      (reopen true (session SessionState.awaiting_confirmation)) call

resolves :
    admit_resolution true (desk SessionState.awaiting_confirmation) "s" "c"
    ≡ ok (reopen true (session SessionState.awaiting_confirmation), call)
unfolding admit_resolution find_tool_call newest first_part
resolves = refl

abbrev started : Start
started = record { session = world.session; input = []; resumed = true }

run_started-IsClosed_example :
    IsClosed engine true (run_started engine sample_request started world)
run_started-IsClosed_example =
    run_started-IsClosed engine sample_request started world refl (ground arith)

runs-IsGrown_example :
    IsGrown world.session
      (run_started engine sample_request started (opening world.session)).1.session
    × IsGrown world.session
        (resolve_started engine "s" world.session sample_call approval
          (opening world.session)).1.session
runs-IsGrown_example =
    runs-IsGrown engine sample_request started "s" world.session sample_call approval

abbrev team : Desk
team = record (desk SessionState.active) { models = ("gpt", profile) ∷ []; default_model = "gpt" }

abbrev helped : Engine
helped = record engine {
  host = record host {
    agents =
        (
          "helper",
          record {
            description = "";
            system_prompt = "";
            model = "";
            tools = [];
            policy = none;
            max_iterations = pos 1;
          },
        )
        ∷ [];
  };
}

abbrev delegation : SubAgentRequest
delegation = record {
  parent_session_id = "s";
  user_id = "ana";
  agent_id = "helper";
  input = [];
  budget = record { max_tokens = pos 0; max_wall = pos 0 };
}

run_sub_agent-IsDelegated_example :
    IsDelegated team delegation (run_sub_agent helped team delegation (pos 1)).child
run_sub_agent-IsDelegated_example = run_sub_agent-IsDelegated helped team delegation (pos 1)
