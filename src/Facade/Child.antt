-- ===== src/Facade/Child.antt =====
-- The run of a delegated task (internal/engine/engine.go, RunSubAgent).
use ia_harness.Base.{
  ℤ, ◌≡◌, ◌∙◌, inl, inr, str_eq, false, arith, Bool-cases, Option-cases, Result-cases, lookup,
  String, Option, none, some, ok,
}
use ia_harness.Core.Message.{Session}
use ia_harness.Core.Config.{AgentSpec, RunRequest, TurnResult}
use ia_harness.Agents.{SubAgentRequest}
use ia_harness.Turn.Engine.{Engine}
use ia_harness.Facade.{Desk, Start, create, load_or_create_session, admit_run, or_default, awaits}
use ia_harness.Facade.Entry.{Entry, turned_away, entered, run, child_request, run_sub_agent}
use ia_harness.Facade.History.{runs-IsGrown}

-- The session of a run belongs to the task: it has the id that was drawn for it and was made then, and has the
-- user, the agent and the parent of the task.
abbrev pub IsChild : Desk → SubAgentRequest → Session → Type 0
IsChild desk req s =
    (s.id ≡ desk.fresh_id)
    × (s.created_at ≡ desk.now)
    × (s.user_id ≡ req.user_id)
    × (s.agent_id ≡ req.agent_id)
    × (s.parent_session_id ≡ req.parent_session_id)

abbrev pub IsRunOf : Desk → SubAgentRequest → Entry (Option TurnResult) → Type 0
IsRunOf desk req (turned_away x) = Unit
IsRunOf desk req (entered r w) = IsChild desk req w.session

abbrev pub IsDelegated : Desk → SubAgentRequest → Option (Entry (Option TurnResult)) → Type 0
IsDelegated desk req none = Unit
IsDelegated desk req (some child) = IsRunOf desk req child

module _ (e : Engine) (desk : Desk) where
  created :
      (req : RunRequest) (model : String) (s : Session)
      → create desk req model ≡ ok s
      → (s.id ≡ desk.fresh_id)
        × (s.created_at ≡ desk.now)
        × (s.user_id ≡ req.user_id)
        × (s.agent_id ≡ req.agent_id)
        × (s.parent_session_id ≡ req.parent_session_id)
  unfolding create
  created req model s h = elim (Bool-cases (str_eq model "")) [
    | inl missing ↦ ground arith
    | inr named ↦ elim (Option-cases (lookup model desk.models)) [
      | inl unknown ↦ ground arith
      | inr (profile, known) ↦
          (ground arith, ground arith, ground arith, ground arith, ground arith)
    ]
  ]

  admitted :
      (req : RunRequest) (start : Start)
      → admit_run e.host.durable desk req ≡ ok start
      → load_or_create_session desk req ≡ ok start.session
  unfolding admit_run
  admitted req start h = elim (Bool-cases (str_eq req.user_id "")) [
    | inl nobody ↦ ground arith
    | inr user ↦ elim (Result-cases (load_or_create_session desk req)) [
      | inr (x, broken) ↦ ground arith
      | inl (s, there) ↦ elim (Bool-cases (awaits s.state)) [
        | inl waits ↦ ground arith
        | inr ready ↦ ground arith
      ]
    ]
  ]

  fresh-IsChild :
      (spec : AgentSpec) (req : SubAgentRequest) (start : Start)
      → admit_run e.host.durable desk (child_request e desk spec req) ≡ ok start
      → IsChild desk req start.session
  unfolding load_or_create_session
  fresh-IsChild spec req start h =
      created (child_request e desk spec req)
        (or_default (or_default spec.model desk.default_model) desk.default_model) start.session
        (admitted (child_request e desk spec req) start h)

  run-IsRunOf :
      (spec : AgentSpec) (req : SubAgentRequest)
      → IsRunOf desk req (run e desk (child_request e desk spec req))
  unfolding run
  run-IsRunOf spec req =
      elim (Result-cases (admit_run e.host.durable desk (child_request e desk spec req))) [
        | inr (x, no_entry) ↦ rw no_entry tt
        | inl (start, there) ↦
            let (own, made, user, agent, parent) = fresh-IsChild spec req start there in
            let ((id, user', agent', parent', birth, rest), _) =
              runs-IsGrown e (child_request e desk spec req) start "" start.session
                (record { id = ""; name = ""; namespace = ""; args = none })
                (record { approve = false; reason = "" }) in
            rw there (id ∙ own, birth ∙ made, user' ∙ user, agent' ∙ agent, parent' ∙ parent)
      ]

-- A delegated task runs, if it gets so far, in a session of its own: one with the id that was drawn for it and
-- that was made at that instant, with the user, the agent and the parent that the delegation names, all until the
-- run ends.
pub run_sub_agent-IsDelegated :
    (e : Engine) (desk : Desk) (req : SubAgentRequest) (depth : ℤ)
    → IsDelegated desk req (run_sub_agent e desk req depth).child
unfolding run_sub_agent
run_sub_agent-IsDelegated e desk req depth =
    elim (Option-cases (lookup req.agent_id e.host.agents)) [
      | inl unknown ↦ rw (IsDelegated, unknown) tt
      | inr (spec, known) ↦ rw (IsDelegated, known) (run-IsRunOf e desk spec req)
    ]
