-- ===== src/Turn/Answers.antt =====
-- Every call of a response gets its own answer, or the turn pauses for it.
use ia_harness.Base.{
  suc, ℤ, pos, ◌||◌, leb_ℤ, String, ◌≡◌, refl, ap, ◌∙◌, inl, inr, Option, none, some, List, [], ◌∷◌,
  ◌++◌, Result, ok, failed, Bool-cases,
}
use ia_harness.Core.Message.{
  Time, SessionState, PartKind, Message, ToolCall, ToolResult, PendingConfirmation, Session,
}
use ia_harness.Core.Config.{ToolStatus, Decision, Error}
use ia_harness.Policy.{PolicyDecision, ◌^^◌, authorize, effective_tool_timeout}
use ia_harness.Turn.Results.{error_result, denied_result, tool_message, truncate_tool_result}
use ia_harness.Turn.Machine.{
  Host, InstalledTool, World, called, asked, told_call, told_result, M, pure, go_on, ◌>>◌,
}
use ia_harness.Turn.Checkpoint.{save_session, checkpoint_step, checkpoint_tool_start}
use ia_harness.Turn.Calls.{
  Settled, answered, paused, Reply, decided, pending, invalid_args, call_lookup_name, with_call_id,
  record_tool_call, append_message, answer, outcome, call_tool, answer_run, end_run, call_run,
  run_call, mark_pending, take_answer, reason_words, request_confirmation, pause_call, after_reply,
  confirm_call, decide_call, validated_call, check_call, settle_found,
}
use ia_harness.Turn.Settling.{pending_answer}
use ia_harness.Turn.Frame.{
  Fact, Holds, Keeps, IsSteady, Keeps-go_on, Keeps-save_session, Keeps-checkpoint_step,
  Keeps-checkpoint_tool_start, Keeps-record_tool_call, ticked,
}

-- A message that holds one result, of this call.
abbrev pub IsResultOf : String → Message → Type 0
IsResultOf id m =
    (r : ToolResult) × (m.parts
      ≡ record {
        kind = PartKind.tool_result;
        text = [];
        call = none;
        result = some r;
        media = none;
      }
        ∷ [])
    × (r.call_id ≡ id)

truncate_tool_result-call_id :
    (res : ToolResult) (max : ℤ) → (truncate_tool_result res max).call_id ≡ res.call_id
unfolding truncate_tool_result
truncate_tool_result-call_id res max = elim (Bool-cases (leb_ℤ max (pos 0) || res.truncated)) [
  | inl kept ↦ rw kept refl
  | inr cut ↦ rw cut refl
]

tool_message-IsResultOf :
    (id : String) (now : Time) (max : ℤ) (res : ToolResult)
    → IsResultOf res.call_id (tool_message id now max res)
unfolding tool_message
tool_message-IsResultOf id now max res =
    (truncate_tool_result res max, refl, truncate_tool_result-call_id res max)

-- What a session holds after a call: its answer behind the old messages, or the pause for it.
abbrev pub IsSettled : String → List Message → Settled → Session → Type 0
IsSettled id base (answered m e) s =
    (s.messages ≡ base ++ m ∷ []) × IsResultOf id m × (e.call_id ≡ id)
IsSettled id base paused s =
    (s.messages ≡ base)
    × (s.state ≡ SessionState.awaiting_confirmation)
    × ((p : PendingConfirmation) × (s.pending ≡ some p) × (p.call_id ≡ id))

abbrev pub Outcome : String → List Message → Result Error Settled × World → Type 0
Outcome id base (ok settled, w) = IsSettled id base settled w.session
Outcome id base (failed e, w) = Unit

abbrev pub Settles : String → List Message → M Settled → Type 0
Settles id base m = (w : World) → w.session.messages ≡ base → Outcome id base (m w)

abbrev Same : List Message → Fact
Same base s l = s.messages ≡ base

Same-IsSteady : (base : List Message) → IsSteady (Same base)
Same-IsSteady base = record { act = λ a e h. h; checkpoint = λ c c' same status h. h }

abbrev Settled_fact : String → List Message → Settled → Fact
Settled_fact id base settled s l = IsSettled id base settled s

Settled_fact-IsSteady :
    (id : String) (base : List Message) (settled : Settled)
    → IsSteady (Settled_fact id base settled)
Settled_fact-IsSteady id base (answered m e) = record {
  act = λ a f h. h;
  checkpoint = λ c c' same status h. h;
}
Settled_fact-IsSteady id base paused = record {
  act = λ a f h. h;
  checkpoint = λ c c' same status h. h;
}

module _ (host : Host) (id : String) (base : List Message) where
  after_any :
      {A : Type 0} (x : Result Error A × World) (k : A → M Settled)
      → x.1.session.messages ≡ base
      → ((a : A) → Settles id base (k a))
      → Outcome id base (go_on x k)
  after_any (ok a, w) k h each = each a w h
  after_any (failed e, w) k h each = tt

  then_keeps :
      (x : Result Error Settled × World)
      → Outcome id base x
      → ((settled : Settled) → Keeps (Settled_fact id base settled) (checkpoint_step host))
      → Outcome id base (go_on x (λ settled. checkpoint_step host >> pure settled))
  then_keeps (failed e, w) h keeps = tt
  then_keeps (ok settled, w) h keeps = last (checkpoint_step host w) (keeps settled w h)
    where
      last :
          (y : Result Error (Unit {0}) × World)
          → IsSettled id base settled y.1.session
          → Outcome id base (go_on y (λ u. pure settled))
      last (ok u, v) i = i
      last (failed e, v) i = tt

  pub Settles-answer :
      (call : ToolCall) (tool : String) (res : ToolResult) (status : ToolStatus) (latency : ℤ)
      → call.id ≡ id
      → res.call_id ≡ id
      → Settles id base (answer host call tool res status latency)
  unfolding answer append_message
  Settles-answer call tool res status latency named same w h =
      let w' = record w { trace = told_result call.id _ ∷ w.trace } in
      after_any (record_tool_call host call status w') _
        (Keeps-record_tool_call host (Same base) (Same-IsSteady base) call status w' h)
        λ u v i.
          let m =
            tool_message (host.new_id v.ids) (host.clock v.ticks) host.tool_result_max_bytes res in
          let (r, parts, own) =
            tool_message-IsResultOf (host.new_id v.ids) (host.clock v.ticks)
              host.tool_result_max_bytes res in
          (ap (λ (l : List Message). l ++ m ∷ []) i, (r, parts, own ∙ same), named)

  Keeps-step : (settled : Settled) → Keeps (Settled_fact id base settled) (checkpoint_step host)
  Keeps-step settled =
      Keeps-checkpoint_step host (Settled_fact id base settled)
        (Settled_fact-IsSteady id base settled)

  Settles-answer_run :
      (it : InstalledTool) (call : ToolCall) (latency : ℤ) (res : ToolResult) (status : ToolStatus)
      → call.id ≡ id
      → res.call_id ≡ id
      → Settles id base (answer_run host it call latency (res, status))
  unfolding answer_run
  Settles-answer_run it call latency res status named same w h =
      then_keeps (answer host call it.key res status latency w)
        (Settles-answer call it.key res status latency named same w h) Keeps-step

  Settles-end_run :
      (it : InstalledTool) (call : ToolCall) (start : Time) (r : Result String ToolResult)
      → call.id ≡ id
      → Settles id base (end_run host it call start (with_call_id call.id r))
  unfolding end_run outcome error_result
  Settles-end_run it call start (ok res) named w h =
      Settles-answer_run it call _ (record res { call_id = call.id }) _ named named _ h
  Settles-end_run it call start (failed e) named w h =
      Settles-answer_run it call _ (error_result call.id _) ToolStatus.error named named _ h

  Settles-run_call :
      (it : InstalledTool) (call : ToolCall)
      → call.id ≡ id
      → Settles id base (run_call host it call)
  unfolding run_call call_run call_tool
  Settles-run_call it call named w h =
      let timeout = effective_tool_timeout host.policy w.session.agent_id it.tool in
      after_any (checkpoint_tool_start host it call (ticked w))
        (λ u. call_run host it call (host.clock w.ticks) timeout)
        (Keeps-checkpoint_tool_start host (Same base) (Same-IsSteady base) it call (ticked w) h)
        λ u v i.
          Settles-end_run it call (host.clock w.ticks) (host.invoke v.trace it call timeout) named
            (record v { trace = called it call ∷ v.trace }) i

  -- The session waits for the decision on the call.
  abbrev Waits : Fact
  Waits = Settled_fact id base paused

  Waits-mark_pending :
      (it : InstalledTool) (call : ToolCall) (w : World)
      → call.id ≡ id
      → w.session.messages ≡ base
      → Holds Waits (mark_pending host it call w).1
  unfolding mark_pending
  Waits-mark_pending it call w named h = (h, refl, (_, refl, named))

  Waits-take_answer :
      (it : InstalledTool) (call : ToolCall) (e : String) (w : World)
      → call.id ≡ id
      → w.session.messages ≡ base
      → Holds Waits (take_answer host it call (failed e) w).1
  unfolding take_answer
  Waits-take_answer it call e w named h =
      Keeps-go_on Waits (mark_pending host it call w) (λ u. save_session host >> pure pending)
        (Waits-mark_pending it call w named h)
        λ u v i.
          Keeps-go_on Waits (save_session host v) (λ u. pure pending)
            (Keeps-save_session host Waits (Settled_fact-IsSteady id base paused) v i) λ u x j. j

  Settles-pause_call :
      (call : ToolCall) (w : World) → Holds Waits w → Outcome id base (pause_call host call w)
  unfolding pause_call
  Settles-pause_call call w h =
      finish (record_tool_call host call ToolStatus.awaiting_confirmation w) (
        Keeps-record_tool_call host Waits (Settled_fact-IsSteady id base paused) call
          ToolStatus.awaiting_confirmation w h)
    where
      finish :
          (x : Result Error (Unit {0}) × World)
          → Holds Waits x.1
          → Outcome id base (
              go_on x (λ u v. (
                ok paused,
                record v {
                  session = record v.session { updated_at = host.clock v.ticks };
                  ticks = suc v.ticks;
                },
              )))
      finish (ok u, v) i = i
      finish (failed e, v) i = tt

  Settles-decided :
      (it : InstalledTool) (call : ToolCall) (d : Decision)
      → call.id ≡ id
      → Settles id base (after_reply host it call (decided d))
  unfolding after_reply denied_result
  Settles-decided it call d named w h = elim (Bool-cases d.approve) [
    | inl approved ↦ rw approved (Settles-run_call it call named w h)
    | inr refused ↦ rw refused (
        Settles-answer call it.key (denied_result call.id ("operação negada: " ^^ d.reason))
          ToolStatus.denied (pos 0) named named w h)
  ]

  Settles-waiting :
      (it : InstalledTool) (call : ToolCall) (x : Result Error Reply × World)
      → Holds Waits x.1
      → ((r : Reply) → x.0 ≡ ok r → r ≡ pending)
      → Outcome id base (go_on x (after_reply host it call))
  unfolding after_reply
  Settles-waiting it call (ok r, w) i only = rw (only r refl) (Settles-pause_call call w i)
  Settles-waiting it call (failed e, w) i only = tt

  Settles-asked :
      (it : InstalledTool) (call : ToolCall) (d : Result String Decision) (w : World)
      → call.id ≡ id
      → w.session.messages ≡ base
      → Outcome id base (go_on (take_answer host it call d w) (after_reply host it call))
  unfolding take_answer
  Settles-asked it call (ok d) w named h = Settles-decided it call d named w h
  Settles-asked it call (failed e) w named h =
      Settles-waiting it call (take_answer host it call (failed e) w)
        (Waits-take_answer it call e w named h) (pending_answer host it call e w)

  Settles-decide_call :
      (d : PolicyDecision) (it : InstalledTool) (call : ToolCall)
      → call.id ≡ id
      → Settles id base (decide_call host d it call)
  unfolding decide_call denied_result confirm_call request_confirmation
  Settles-decide_call d it call named w h = elim (Bool-cases d.allowed) [
    | inr refused ↦ rw refused (
        Settles-answer call it.key (denied_result call.id (reason_words host d.reason))
          ToolStatus.denied (pos 0) named named w h)
    | inl allowed ↦ elim (Bool-cases d.requires_confirmation) [
      | inr alone ↦ rw (allowed, alone) (Settles-run_call it call named w h)
      | inl human ↦
          let d = host.confirm w.trace call in
          rw (allowed, human)
            (Settles-asked it call d (record w { trace = asked call d ∷ w.trace }) named h)
    ]
  ]

  Settles-validated_call :
      (wrong : Option String) (it : InstalledTool) (call : ToolCall)
      → call.id ≡ id
      → Settles id base (validated_call host wrong it call)
  unfolding validated_call error_result
  Settles-validated_call (some wrong) it call named w h =
      Settles-answer call it.key (error_result call.id ("argumentos inválidos: " ^^ wrong))
        ToolStatus.error (pos 0) named named w h
  Settles-validated_call none it call named w h =
      Settles-decide_call (authorize host.agents host.policy w.session.agent_id it.tool) it call
        named w h

  pub Settles-settle_found :
      (found : Option InstalledTool) (call : ToolCall)
      → call.id ≡ id
      → Settles id base (settle_found host found call)
  unfolding settle_found check_call error_result
  Settles-settle_found none call named w h =
      Settles-answer call (call_lookup_name call)
        (error_result call.id ("tool desconhecida: " ^^ call.name)) ToolStatus.error (pos 0) named
        named w h
  Settles-settle_found (some it) call named w h =
      Settles-validated_call (invalid_args it call.args) it call named
        (record w { trace = told_call call.id ∷ w.trace }) h
