-- ===== src/Turn/Memory.antt =====
-- internal/engine/memory_context.go: what the turn remembers of the user, as messages of the system.
use ia_harness.Base.{
  String, Bool, true, false, ◌&&◌, Option, none, some, List, [], ◌∷◌, ◌++◌, Result, ok, failed,
  if◌then◌else◌, is_empty,
}
use ia_harness.Core.Message.{Bytes, Time, Role, Part, Message, is_text, text_part}
use ia_harness.Core.Config.{Fact, FactKind, RetrievedItem}
use ia_harness.Core.Text.{utf8, trim_bytes}
use ia_harness.Turn.Machine.{Action, M, pure, ◌>>=◌, get_session, history, now, fresh_id}
use ia_harness.Turn.Engine.{Engine}

abbrev kind_text : FactKind → String
kind_text FactKind.fact = "fact"
kind_text FactKind.preference = "preference"
kind_text (FactKind.other k) = k

fact_lines : (Bytes → Bytes) → List Fact → Bytes
unfolding utf8
fact_lines redact [] = []
fact_lines redact (f ∷ fs) =
    (utf8 "\n- ("
      ++ utf8 (kind_text f.kind)
      ++ utf8 ") "
      ++ redact f.text
      ++ utf8 " (fonte: "
      ++ redact f.source
      ++ utf8 ")")
    ++ fact_lines redact fs

unfoldable pub facts_context : (Bytes → Bytes) → List Fact → Bytes
unfolding fact_lines utf8
facts_context redact facts =
    if is_empty facts
    then []
    else utf8 "Memória do usuário (fatos duráveis):" ++ fact_lines redact facts

item_lines : (Bytes → Bytes) → List RetrievedItem → Bytes
unfolding utf8
item_lines redact [] = []
item_lines redact (r ∷ rs) =
    (utf8 "\n- [" ++ redact r.id ++ utf8 "] " ++ redact r.source ++ utf8 ": " ++ redact r.text)
    ++ item_lines redact rs

unfoldable pub retrieved_context : (Bytes → Bytes) → List RetrievedItem → Bytes
unfolding item_lines utf8
retrieved_context redact items =
    if is_empty items
    then []
    else utf8 "Trechos recuperados (cite a fonte):" ++ item_lines redact items

-- The last text of the input that is not blank.
unfoldable pub last_input_text : List Part → Bytes
unfolding trim_bytes
last_input_text [] = []
last_input_text (p ∷ ps) =
    let later = last_input_text ps in
    if is_empty later && is_text p.kind then trim_bytes p.text else later

abbrev pub is_absent {ℓ} : {A : Type ℓ} → Option A → Bool
is_absent none = true
is_absent (some a) = false

module _ (e : Engine) where
  abbrev pub system_message : Time → Bytes → M (List Message)
  system_message time text = if is_empty text then pure [] else (do
    id ← fresh_id e.host
    pure (
        record { id = id; role = Role.system; parts = text_part text ∷ []; created_at = time }
        ∷ []))

  abbrev pub facts_message : Time → Result String (List Fact) → M (List Message)
  facts_message time (failed x) = pure []
  facts_message time (ok facts) = system_message time (facts_context e.redact_text facts)

  abbrev pub items_message : Time → Result String (List RetrievedItem) → M (List Message)
  items_message time (failed x) = pure []
  items_message time (ok items) = system_message time (retrieved_context e.redact_text items)

  unfoldable pub remembered :
      Option (List Action → String → Result String (List Fact)) → Time → M (List Message)
  unfolding facts_context
  remembered none time = pure []
  remembered (some list) time = do
    s ← get_session
    before ← history
    facts_message time (list before s.user_id)

  unfoldable pub retrieved :
      Option (List Action → String → Bytes → Result String (List RetrievedItem))
      → Bytes
      → Time
      → M (List Message)
  unfolding retrieved_context
  retrieved none query time = pure []
  retrieved (some retrieve) query time = if is_empty query then pure [] else (do
    s ← get_session
    before ← history
    items_message time (retrieve before s.user_id query))

  -- The number of items asked for is fixed at 5 and belongs to the port.
  unfoldable pub memory_messages : List Part → M (List Message)
  unfolding remembered retrieved last_input_text
  memory_messages input = if is_absent e.memory && is_absent e.retriever then pure [] else (do
    time ← now e.host
    facts ← remembered e.memory time
    items ← retrieved e.retriever (last_input_text input) time
    pure (facts ++ items))
