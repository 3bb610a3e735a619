-- ===== src/Turn/Spending.antt =====
-- internal/engine/loop.go and audit_emit.go: what an answer of a model adds to the session.
use ia_harness.Base.{
  ℕ, zero, ltb_ℤ, ℤ, pos, add64, String, str_eq, Bool, true, false, ◌&&◌, ◌||◌, List, [], ◌∷◌, ◌++◌,
  length, sum_of, if◌then◌else◌,
}
use ia_harness.Core.Message.{Time, Role, Part, Message, Usage, is_text, no_usage}
use ia_harness.Core.Config.{ChatResponse, StopReason}
use ia_harness.Cost.{Pricing, usage_reported_cached, usage_estimated}
use ia_harness.Turn.Machine.{
  Host, recorded_model, told_usage, told_error, M, pure, ◌>>=◌, ◌>>◌, get_session, set_session, act,
  history, now, fresh_id,
}
use ia_harness.Turn.Engine.{Locals, Flow, ended, finished}

abbrev is_nameless : Role → Bool
is_nameless (Role.other r) = str_eq r ""
is_nameless _ = false

abbrev pub is_zero_time : Time → Bool
is_zero_time t = elim t [ pos zero ↦ true | _ ↦ false ]

-- What the answer of a model leaves open is filled in.
unfoldable pub completed : String → Time → Message → Message
completed id time m = record m {
  id = if str_eq m.id "" then id else m.id;
  role = if is_nameless m.role then Role.assistant else m.role;
  created_at = if is_zero_time m.created_at then time else m.created_at;
}

-- The totals of the session; each sum wraps.
unfoldable pub accumulate : Usage → Usage → Usage
accumulate total u = record {
  input_tokens = add64 total.input_tokens u.input_tokens;
  output_tokens = add64 total.output_tokens u.output_tokens;
  estimated = total.estimated || u.estimated;
  cost_micros = add64 total.cost_micros u.cost_micros;
  currency = if str_eq u.currency "" then total.currency else u.currency;
  cached_input_tokens = add64 total.cached_input_tokens u.cached_input_tokens;
  cache_write_tokens = add64 total.cache_write_tokens u.cache_write_tokens;
}

-- `messageTextBytes` and `usageFor` of audit_emit.go.
abbrev text_length : Part → ℕ
text_length p = if is_text p.kind then length p.text else 0

unfoldable pub message_text_bytes : Message → ℕ
message_text_bytes m = sum_of text_length m.parts

abbrev is_zero : ℤ → Bool
is_zero n = elim n [ pos zero ↦ true | _ ↦ false ]

abbrev is_no_pricing : Pricing → Bool
is_no_pricing p =
    str_eq p.currency ""
    && is_zero p.input_price
    && is_zero p.output_price
    && is_zero p.bytes_per_token.num
    && is_zero p.cached_input_price
    && is_zero p.cache_write_price

unfoldable pub usage_for : Pricing → ℕ → ChatResponse → Usage
unfolding message_text_bytes
usage_for p request_bytes resp =
    if ltb_ℤ (pos 0) resp.usage.input_tokens || ltb_ℤ (pos 0) resp.usage.output_tokens
    then usage_reported_cached p resp.usage.input_tokens resp.usage.output_tokens
        resp.usage.cached_input_tokens resp.usage.cache_write_tokens
    else if is_no_pricing p
    then record no_usage { estimated = true }
    else usage_estimated p request_bytes (message_text_bytes resp.message)

module _ (host : Host) where
  unfoldable pub end_turn : Locals → List Part → StopReason → M Flow
  end_turn l output stop = do s ← get_session; pure (ended (finished s l output stop))

  unfoldable pub touch : M (Unit {0})
  touch = do time ← now host; s ← get_session; set_session (record s { updated_at = time })

  unfoldable pub append : Message → M (Unit {0})
  append m = do s ← get_session; set_session (record s { messages = s.messages ++ m ∷ [] })

  unfoldable pub record_model_call : Usage → M (Unit {0})
  record_model_call usage = do
    fresh_id host
    now host
    before ← history
    act (recorded_model usage)
    (if host.audit_fails before then act (told_error "audit") else pure tt)

  unfoldable pub spend : Usage → M (Unit {0})
  unfolding accumulate record_model_call touch
  spend usage = do
    s ← get_session
    set_session (record s { usage = accumulate s.usage usage })
    record_model_call usage
    act (told_usage usage)
    touch
