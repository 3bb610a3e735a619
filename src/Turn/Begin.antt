-- ===== src/Turn/Begin.antt =====
-- internal/engine/loop.go: how a turn begins (catalog, filterCatalog, and runTurn up to its loop).
use ia_harness.Base.{
  ℕ, zero, suc, pos_part, ℤ, pos, String, str_eq, Option, none, some, List, [], ◌∷◌, ◌++◌, lookup,
  map, filter, any, is_empty, Result, ok, failed, if◌then◌else◌, leb_ℤ,
}
use ia_harness.Core.Message.{Bytes, Role, Part, Message, ToolCall}
use ia_harness.Core.Config.{AgentSpec, Decision, Error, RunRequest, Tool, TurnResult}
use ia_harness.Agents.{key_of, filter_tools}
use ia_harness.Budget.{TurnBudget}
use ia_harness.Budget
use ia_harness.Turn.Machine.{
  InstalledTool, Action, told_error, M, pure, fail, ◌>>=◌, ◌>>◌, get_session, act, history, now,
  fresh_id,
}
use ia_harness.Turn.Checkpoint.{begin_checkpoint}
use ia_harness.Turn.Calls.{Settled, answered, paused}
use ia_harness.Turn.Recovery.{reconcile_checkpoint, resume_call}
use ia_harness.Turn.Memory.{memory_messages}
use ia_harness.Turn.Engine.{Engine, Locals}
use ia_harness.Turn.Spending.{append}
use ia_harness.Turn.Rounds.{turn_loop}

abbrev given : Option Bytes → Bytes
given none = []
given (some b) = b

abbrev install_with : Tool → Option (Option Bytes → Option String) → InstalledTool
install_with tool validator = record { key = key_of tool; tool = tool; validator = validator }

abbrev one_more :
    Result String InstalledTool
    → Result String (List InstalledTool)
    → Result String (List InstalledTool)
one_more (failed x) rest = failed x
one_more (ok it) (failed x) = failed x
one_more (ok it) (ok its) = ok (it ∷ its)

abbrev joined :
    Result String (List InstalledTool)
    → Result String (List InstalledTool)
    → Result String (List InstalledTool)
joined (failed x) rest = failed x
joined (ok its) (failed x) = failed x
joined (ok its) (ok more) = ok (its ++ more)

-- The agent of the turn sees only the tools that its patterns name.
unfoldable pub filter_catalog : List InstalledTool → List String → List InstalledTool
filter_catalog catalog patterns =
    filter
      (λ (it : InstalledTool).
        any (λ (tool : Tool). str_eq (key_of tool) it.key)
          (filter_tools (map (λ (x : InstalledTool). x.tool) catalog) patterns))
      catalog

abbrev own_tools : Option AgentSpec → List InstalledTool → List InstalledTool
own_tools none catalog = catalog
own_tools (some spec) catalog =
    if is_empty spec.tools then catalog else filter_catalog catalog spec.tools

abbrev pub spec_iterations : Option AgentSpec → ℤ → ℤ
spec_iterations none asked = asked
spec_iterations (some spec) asked = elim asked [ pos zero ↦ spec.max_iterations | other ↦ other ]

-- The rounds that a limit on iterations allows; the last turn of the loop finds that there are no more.
abbrev pub allowed_rounds : ℤ → ℕ
allowed_rounds limit = if leb_ℤ limit (pos 0) then 8 else pos_part limit

module _ (e : Engine) where
  abbrev pub install : Tool → Result String InstalledTool
  install tool =
      if is_empty tool.input_schema
      then ok (install_with tool none)
      else elim (e.compile tool.input_schema) [
        | failed x ↦ failed x
        | ok check ↦ ok (install_with tool (some (λ args. check (given args))))
      ]

  install_all : List Tool → Result String (List InstalledTool)
  install_all [] = ok []
  install_all (tool ∷ tools) = one_more (install tool) (install_all tools)

  abbrev listed_tools : Result String (List Tool) → Result String (List InstalledTool)
  listed_tools (failed x) = failed x
  listed_tools (ok tools) = install_all tools

  unfoldable pub list_sources :
      List Action
      → List (List Action → Result String (List Tool))
      → Result String (List InstalledTool)
  unfolding install_all
  list_sources before [] = ok []
  list_sources before (source ∷ sources) =
      joined (listed_tools (source before)) (list_sources before sources)

  -- Where a source or a schema fails, the turn goes on without tools.
  abbrev pub usable : Result String (List InstalledTool) → M (List InstalledTool)
  usable (failed x) = do act (told_error "catalog"); pure []
  usable (ok catalog) = pure catalog

  unfoldable pub turn_catalog : M (List InstalledTool)
  unfolding list_sources filter_catalog
  turn_catalog = do
    before ← history
    catalog ← usable (list_sources before e.sources)
    s ← get_session
    pure (own_tools (lookup s.agent_id e.host.agents) catalog)

  unfoldable pub add_input : List Part → M (Unit {0})
  unfolding append
  add_input input = if is_empty input then pure tt else (do
    id ← fresh_id e.host
    time ← now e.host
    append e.host (record { id = id; role = Role.user; parts = input; created_at = time }))

  abbrev pub output_check : Bytes → Result String (Option (Bytes → Option String))
  output_check schema =
      if is_empty schema
      then ok none
      else elim (e.compile schema) [ failed x ↦ failed x | ok check ↦ ok (some check) ]

  abbrev pub first_locals : TurnBudget → List Message → String → Locals
  first_locals budget messages model = record {
    messages = messages;
    executions = [];
    budget = budget;
    summarize_allowed = e.summarize;
    model = model;
    compaction = none;
    cache = none;
  }

  abbrev pub after_resume : Locals → Settled → Locals
  after_resume l paused = l
  after_resume l (answered m x) = record l {
    messages = l.messages ++ m ∷ [];
    executions = l.executions ++ x ∷ [];
  }

  -- A decision of the human comes before the next call of the model.
  unfoldable pub resume_turn : List InstalledTool → Option (ToolCall × Decision) → Locals → M Locals
  resume_turn catalog none l = pure l
  resume_turn catalog (some (call, d)) l = do
    settled ← resume_call e.host catalog call d
    pure (after_resume l settled)

  unfoldable pub with_output :
      ℕ
      → List InstalledTool
      → Bytes
      → Option (ToolCall × Decision)
      → Locals
      → Result String (Option (Bytes → Option String))
      → M (Option TurnResult)
  unfolding resume_turn
  with_output turns catalog schema resume l (failed x) =
      fail (Error.config "run/output-schema-invalido")
  with_output turns catalog schema resume l (ok check) = do
    l' ← resume_turn catalog resume l
    turn_loop e (record { catalog = catalog; schema = schema; check_output = check }) turns l'

  unfoldable pub with_catalog :
      ℕ
      → TurnBudget
      → RunRequest
      → Option (ToolCall × Decision)
      → List InstalledTool
      → M (Option TurnResult)
  unfolding with_output add_input
  with_catalog turns budget req resume catalog = do
    reconcile_checkpoint e.host catalog
    add_input req.input
    begin_checkpoint e.host
    memory ← memory_messages e req.input
    s ← get_session
    with_output turns catalog req.output_schema resume
        (first_locals budget (memory ++ s.messages) s.model) (output_check req.output_schema)

  -- `runTurn`
  unfoldable pub run_turn : RunRequest → Option (ToolCall × Decision) → M (Option TurnResult)
  unfolding turn_catalog with_catalog
  run_turn req resume = do
    s ← get_session
    time ← now e.host
    catalog ← turn_catalog
    let limit = spec_iterations (lookup s.agent_id e.host.agents) req.max_iterations
    with_catalog (suc (allowed_rounds limit)) (Budget.new req.budget limit time) req resume catalog
