-- ===== src/Turn/Opening.antt =====
-- What the first steps of a turn keep: the catalog of its tools and the messages of the memory
-- (loop.go, runTurn; memory.go), which call no tool and leave the session alone.
use ia_harness.Base.{
  ◌≡◌, false, ◌&&◌, inl, inr, Option, none, some, String, List, [], ◌∷◌, Result, ok, failed,
  Bool-cases, refl,
}
use ia_harness.Core.Message.{Bytes, Time, Part, Session}
use ia_harness.Core.Config.{Fact as Memo, RetrievedItem}
use ia_harness.Turn.Machine.{InstalledTool, Action}
use ia_harness.Turn.Memory.{
  memory_messages, remembered, retrieved, facts_message, items_message, system_message, is_absent,
  last_input_text,
}
use ia_harness.Turn.Engine.{Engine}
use ia_harness.Turn.Begin.{turn_catalog, list_sources, usable}
use ia_harness.Turn.Frame.{Fact, Keeps, is_call, Keeps-go_on, ticked}

module _ (e : Engine) (P : Fact)
    (tells : (s : Session) (l : List Action) (a : Action)
      → is_call a ≡ false
      → P s l
      → P s (a ∷ l)) where
  Keeps-usable : (r : Result String (List InstalledTool)) → Keeps P (usable e r)
  Keeps-usable (failed x) w i = tells _ _ _ refl i
  Keeps-usable (ok catalog) w i = i

  pub Keeps-turn_catalog : Keeps P (turn_catalog e)
  unfolding turn_catalog
  Keeps-turn_catalog w i =
      Keeps-go_on P (usable e (list_sources e w.trace e.sources) w) _ (Keeps-usable _ w i)
        λ catalog v j. j

module _ (e : Engine) (P : Fact) where
  Keeps-system_message : (time : Time) (text : Bytes) → Keeps P (system_message e time text)
  Keeps-system_message time [] w i = i
  Keeps-system_message time (b ∷ bs) w i = i

  Keeps-facts : (time : Time) (r : Result String (List Memo)) → Keeps P (facts_message e time r)
  Keeps-facts time (failed x) w i = i
  Keeps-facts time (ok facts) w i = Keeps-system_message time _ w i

  Keeps-items :
      (time : Time) (r : Result String (List RetrievedItem)) → Keeps P (items_message e time r)
  Keeps-items time (failed x) w i = i
  Keeps-items time (ok items) w i = Keeps-system_message time _ w i

  Keeps-remembered :
      (list : Option (List Action → String → Result String (List Memo))) (time : Time)
      → Keeps P (remembered e list time)
  unfolding remembered
  Keeps-remembered none time w i = i
  Keeps-remembered (some list) time w i = Keeps-facts time (list w.trace w.session.user_id) w i

  Keeps-retrieved :
      (retrieve : Option (List Action → String → Bytes → Result String (List RetrievedItem)))
      (query : Bytes) (time : Time)
      → Keeps P (retrieved e retrieve query time)
  unfolding retrieved
  Keeps-retrieved none query time w i = i
  Keeps-retrieved (some retrieve) [] time w i = i
  Keeps-retrieved (some retrieve) (b ∷ bs) time w i =
      Keeps-items time (retrieve w.trace w.session.user_id (b ∷ bs)) w i

  pub Keeps-memory_messages : (input : List Part) → Keeps P (memory_messages e input)
  unfolding memory_messages
  Keeps-memory_messages input w i =
      elim (Bool-cases (is_absent e.memory && is_absent e.retriever)) [
        | inl absent ↦ rw absent i
        | inr present ↦ rw present (
            Keeps-go_on P (remembered e e.memory (e.host.clock w.ticks) (ticked w)) _
              (Keeps-remembered e.memory (e.host.clock w.ticks) (ticked w) i)
              λ facts v j.
                Keeps-go_on P
                  (retrieved e e.retriever (last_input_text input) (e.host.clock w.ticks) v) _
                  (Keeps-retrieved e.retriever (last_input_text input) (e.host.clock w.ticks) v j)
                  λ items x k. k)
      ]
