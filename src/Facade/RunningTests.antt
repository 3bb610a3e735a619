-- ===== src/Facade/RunningTests.antt =====
-- A confirmation resolved on a durable session, and the run that follows it.
use ia_harness.Base.{◌≡◌, refl, true, [], ok, pos, lookup, String, ◌≢◌, eq_iff, arith}
use ia_harness.Core.Message.{Session}
use ia_harness.Agents.{key_of}
use ia_harness.Turn.Sample.{engine, world, request, call, approval}
use ia_harness.Facade.{Desk, Start}
use ia_harness.Facade.Entry.{opening, resolve_started}
use ia_harness.Facade.Running.{resolve_started-IsResumed}
use ia_harness.Budget.{new, can_iterate, exceeded}
use ia_harness.Facade.{admit_run}
use ia_harness.Facade.Entry.{resolve_confirmation}
use ia_harness.Media.{from_messages, validate}
use ia_harness.Route.{resolve_model, chat}
use ia_harness.Turn.Begin.{run_turn}
use ia_harness.Turn.Caching.{prepare_cache, save_cache}
use ia_harness.Turn.Calls.{call_lookup_name, find_tool, settle_calls}
use ia_harness.Turn.Checkpoint.{
  begin_checkpoint, checkpoint_step, checkpoint_tool_start, has_tool_result, find_tool_call,
}
use ia_harness.Turn.Memory.{memory_messages}
use ia_harness.Turn.Recovery.{repeatable, reconcile_checkpoint, resume_call}
use ia_harness.Turn.Results.{tool_message}
use ia_harness.Turn.Rounds.{turn_loop}
use ia_harness.Window.{context_budget}

abbrev after : Session
after = (resolve_started engine "s" world.session call approval (opening world.session)).1.session

abbrev found : Desk
found = record {
  models = [];
  default_model = "";
  load = λ id. ok after;
  now = pos 9;
  fresh_id = "new";
}

abbrev again : Start
again = record { session = after; input = []; resumed = true }

lets : admit_run true found request ≡ ok again
unfolding new can_iterate exceeded admit_run resolve_confirmation from_messages validate
    resolve_model chat run_turn prepare_cache save_cache call_lookup_name find_tool settle_calls
    begin_checkpoint checkpoint_step checkpoint_tool_start has_tool_result find_tool_call
    memory_messages repeatable reconcile_checkpoint resume_call tool_message turn_loop
    context_budget lookup key_of
lets = refl

named : ◌≢◌ {A = String} request.session_id ""
named = ground (arith, eq_iff "s" "")

resolve_started-IsResumed_example : (again.resumed ≡ true) × (again.input ≡ [])
resolve_started-IsResumed_example =
    resolve_started-IsResumed engine "s" world.session call approval found request again refl named
      refl lets
