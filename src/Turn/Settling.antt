-- ===== src/Turn/Settling.antt =====
-- What the loop over the calls of a response keeps: a fact that survives messages, a pending
-- confirmation and the run of every call that has its warrant.
use ia_harness.Base.{
  suc, pos, String, str_eq, ◌≡◌, refl, sym, ap, inl, inr, Bool, true, Option, none, some, List, [],
  ◌∷◌, Result, ok, failed, Bool-cases,
}
use ia_harness.Core.Message.{Message, ToolCall, Session, SessionState, PendingConfirmation, Time}
use ia_harness.Core.Config.{ToolStatus, ToolExecution, Decision, Error}
use ia_harness.Policy.{PolicyDecision, authorize}
use ia_harness.Turn.Machine.{
  Host, InstalledTool, World, Action, asked, told_call, M, pure, go_on, ◌>>◌,
}
use ia_harness.Turn.Checkpoint.{save_session}
use ia_harness.Turn.Calls.{
  Settled, answered, paused, Reply, decided, pending, invalid_args, call_lookup_name, find_tool,
  record_tool_call, run_call, mark_pending, take_answer, request_confirmation, pause_call,
  touch_session, after_reply, confirm_call, decide_call, validated_call, check_call, settle_found,
  settle_call, settle_rest, settle_calls,
}
use ia_harness.Turn.Runs.{IsStable, Keeps-answer}
use ia_harness.Turn.Frame.{
  Fact, Holds, Keeps, Keeps-go_on, Keeps-save_session, Keeps-record_tool_call,
}
use ia_harness.Turn.Warrant.{here, verdict, IsLicensed}

only_pending :
    {A : Type 0} (x : Result Error A × World) (r : Reply)
    → (go_on x (λ u. pure pending)).0 ≡ ok r
    → r ≡ pending
only_pending (ok a, w) r e = cc
only_pending (failed x, w) r e = cc

module _ (host : Host) where
  pub pending_answer :
      (it : InstalledTool) (call : ToolCall) (e : String) (w : World) (r : Reply)
      → (take_answer host it call (failed e) w).0 ≡ ok r
      → r ≡ pending
  unfolding take_answer mark_pending
  pending_answer it call e w r = only_pending _ r

pub record IsOpen (host : Host) (agent : String) (P : Fact) : Type 0 where
  pub stable : IsStable P
  pub of_agent : {s : Session} {l : List Action} → P s l → s.agent_id ≡ agent
  pub waits :
      {s : Session} {l : List Action} (state : SessionState) (pending : Option PendingConfirmation)
      → P s l
      → P (record s { state = state; pending = pending }) l
  pub touched :
      {s : Session} {l : List Action} (t : Time) → P s l → P (record s { updated_at = t }) l
  pub runs :
      (it : InstalledTool) (call : ToolCall) (w : World)
      → Holds P w
      → IsLicensed host agent it call w.trace
      → Holds P (run_call host it call w).1

module _ (host : Host) (agent : String) (P : Fact) (open_to : IsOpen host agent P) where
  Keeps-mark_pending : (it : InstalledTool) (call : ToolCall) → Keeps P (mark_pending host it call)
  unfolding mark_pending
  Keeps-mark_pending it call w i = open_to.waits _ _ i

  Keeps-take_answer :
      (it : InstalledTool) (call : ToolCall) (d : Result String Decision)
      → Keeps P (take_answer host it call d)
  unfolding take_answer
  Keeps-take_answer it call (ok d) w i = i
  Keeps-take_answer it call (failed e) w i =
      Keeps-go_on P (mark_pending host it call w) (λ u. save_session host >> pure pending)
        (Keeps-mark_pending it call w i)
        λ u w' i'.
          Keeps-go_on P (save_session host w') (λ u. pure pending)
            (Keeps-save_session host P open_to.stable.steady w' i') λ u v j. j

  Keeps-pause_call : (call : ToolCall) → Keeps P (pause_call host call)
  unfolding pause_call
  Keeps-pause_call call w i =
      Keeps-go_on P (record_tool_call host call ToolStatus.awaiting_confirmation w)
        (λ u. touch_session host >> pure paused)
        (Keeps-record_tool_call host P open_to.stable.steady call ToolStatus.awaiting_confirmation w
          i)
        λ u w' i'. open_to.touched (host.clock w'.ticks) i'

  Keeps-after_decided :
      (it : InstalledTool) (call : ToolCall) (d : Decision) (w : World)
      → Holds P w
      → (d.approve ≡ true → IsLicensed host agent it call w.trace)
      → Holds P (after_reply host it call (decided d) w).1
  unfolding after_reply
  Keeps-after_decided it call d w i licence = elim (Bool-cases d.approve) [
    | inl approved ↦ rw approved (open_to.runs it call w i (licence approved))
    | inr refused ↦
        rw refused (Keeps-answer host P open_to.stable call it.key _ ToolStatus.denied (pos 0) w i)
  ]

  after_pending :
      (it : InstalledTool) (call : ToolCall) (x : Result Error Reply × World)
      → Holds P x.1
      → ((r : Reply) → x.0 ≡ ok r → r ≡ pending)
      → Holds P (go_on x (after_reply host it call)).1
  unfolding after_reply
  after_pending it call (ok r, w) i only = rw (only r refl) (Keeps-pause_call call w i)
  after_pending it call (failed e, w) i only = i

  -- The licence of a call that needs a human is the answer of the human.
  Keeps-asked :
      (it : InstalledTool) (call : ToolCall) (d : Result String Decision) (w : World)
      → Holds P w
      → (verdict host agent it).allowed ≡ true
      → invalid_args it call.args ≡ none
      → Holds P
          (go_on
            (take_answer host it call d (record w { trace = asked call d ∷ w.trace }))
            (after_reply host it call)).1
  unfolding take_answer
  Keeps-asked it call (ok d) w i allowed valid =
      Keeps-after_decided it call d (record w { trace = asked call (ok d) ∷ w.trace })
        (open_to.stable.steady.act (asked call (ok d)) refl i)
        (λ approve. (allowed, inr (here approve), valid))
  Keeps-asked it call (failed e) w i allowed valid =
      let w' = record w { trace = asked call (failed e) ∷ w.trace } in
      after_pending it call (take_answer host it call (failed e) w')
        (Keeps-take_answer it call (failed e) w'
          (open_to.stable.steady.act (asked call (failed e)) refl i))
        (pending_answer host it call e w')

  Keeps-confirm_call :
      (it : InstalledTool) (call : ToolCall) (w : World)
      → Holds P w
      → (verdict host agent it).allowed ≡ true
      → invalid_args it call.args ≡ none
      → Holds P (confirm_call host it call w).1
  unfolding confirm_call request_confirmation
  Keeps-confirm_call it call w i allowed valid =
      Keeps-asked it call (host.confirm w.trace call) w i allowed valid

  Keeps-decide_call :
      (d : PolicyDecision) (it : InstalledTool) (call : ToolCall) (w : World)
      → verdict host agent it ≡ d
      → Holds P w
      → invalid_args it call.args ≡ none
      → Holds P (decide_call host d it call w).1
  unfolding decide_call
  Keeps-decide_call d it call w e i valid = elim (Bool-cases d.allowed) [
    | inr refused ↦
        rw refused (Keeps-answer host P open_to.stable call it.key _ ToolStatus.denied (pos 0) w i)
    | inl allowed ↦ elim (Bool-cases d.requires_confirmation) [
      | inl human ↦ rw (allowed, human) (Keeps-confirm_call it call w i (cc (e, allowed)) valid)
      | inr alone ↦
          rw (allowed, alone)
            (open_to.runs it call w i (cc (e, allowed), inl (cc (e, alone)), valid))
    ]
  ]

  Keeps-validated_call :
      (it : InstalledTool) (call : ToolCall) (wrong : Option String) (w : World)
      → invalid_args it call.args ≡ wrong
      → Holds P w
      → Holds P (validated_call host wrong it call w).1
  unfolding validated_call
  Keeps-validated_call it call (some wrong) w e i =
      Keeps-answer host P open_to.stable call it.key _ ToolStatus.error (pos 0) w i
  Keeps-validated_call it call none w e i =
      let same = ap (λ a. authorize host.agents host.policy a it.tool) (sym (open_to.of_agent i)) in
      Keeps-decide_call _ it call w same i e

  Keeps-settle_found :
      (found : Option InstalledTool) (call : ToolCall) → Keeps P (settle_found host found call)
  unfolding settle_found check_call
  Keeps-settle_found none call w i =
      Keeps-answer host P open_to.stable call (call_lookup_name call) _ ToolStatus.error (pos 0) w i
  Keeps-settle_found (some it) call w i =
      Keeps-validated_call it call (invalid_args it call.args)
        (record w { trace = told_call call.id ∷ w.trace }) refl
        (open_to.stable.steady.act (told_call call.id) refl i)

  Keeps-settle_call :
      (catalog : List InstalledTool) (call : ToolCall) → Keeps P (settle_call host catalog call)
  unfolding settle_call
  Keeps-settle_call catalog call w i = elim (Bool-cases (str_eq call.id "")) [
    | inl unnamed ↦
        let id = host.new_id w.ids in
        let named = record call { id = id } in
        rw unnamed (
          Keeps-settle_found (find_tool catalog (call_lookup_name named)) named
            (record w { ids = suc w.ids }) i)
    | inr named ↦ rw named (Keeps-settle_found (find_tool catalog (call_lookup_name call)) call w i)
  ]

  Keeps-settle_rest :
      (rest : M (List Message × List ToolExecution × Bool)) (settled : Settled)
      → Keeps P rest
      → Keeps P (settle_rest rest settled)
  Keeps-settle_rest rest paused h w i = i
  Keeps-settle_rest rest (answered m e) h w i =
      Keeps-go_on P (rest w) (λ r. pure (m ∷ r.0, e ∷ r.1, r.2)) (h w i) λ r v j. j

  pub Keeps-settle_calls :
      (catalog : List InstalledTool) (calls : List ToolCall)
      → Keeps P (settle_calls host catalog calls)
  unfolding settle_calls
  Keeps-settle_calls catalog [] w i = i
  Keeps-settle_calls catalog (call ∷ calls) w i =
      Keeps-go_on P (settle_call host catalog call w)
        (settle_rest (settle_calls host catalog calls)) (Keeps-settle_call catalog call w i)
        λ settled.
          Keeps-settle_rest (settle_calls host catalog calls) settled
            (Keeps-settle_calls catalog calls)
