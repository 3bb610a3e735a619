-- ===== src/Turn/Tests.antt =====
-- A host with one tool, and turns that call it.
use ia_harness.Base.{pos, ◌≡◌, refl, ◌↔◌, true, false, none, some, [], ◌∷◌, arith, ◌≤◌, ◌<◌}
use ia_harness.Core.Message.{ResultContentKind}
use ia_harness.Turn.Results.{content_bytes, cut_content, keep_from, truncate_tool_result}
use ia_harness.Turn.Truncation.{IsStart, truncate_tool_result_lem}
use ia_harness.Turn.Calls.{settle_calls}
use ia_harness.Turn.Recovery.{reconcile_checkpoint}
use ia_harness.Turn.Sample.{long_result, pay, host, call, world}
use ia_harness.Turn.Replies.{Finish, settle_calls-Finish}
use ia_harness.Turn.Progress.{IsOk, settle_calls-Succeeds}
use ia_harness.Turn.Replay.{IsResumed, reconcile_checkpoint-IsResumed}

cut_to_three : truncate_tool_result long_result (pos 3) ≡ record long_result {
  content =
      record { kind = ResultContentKind.text; text = b'o' ∷ b'k' ∷ []; json = none }
      ∷ record { kind = ResultContentKind.json; text = []; json = some (b'1' ∷ []) }
      ∷ [];
  truncated = true;
}
unfolding truncate_tool_result keep_from cut_content
cut_to_three = refl

truncate_tool_result_lem_example :
    let out = truncate_tool_result long_result (pos 3) in
    (content_bytes out.content ≤ 3)
    × ((out.truncated ≡ true) ↔ (3 < content_bytes long_result.content))
    × (content_bytes long_result.content ≤ 3 → out ≡ long_result)
    × IsStart out.content long_result.content
    × (out.call_id ≡ "c")
    × (out.is_error ≡ false)
    × (out.denied ≡ false)
truncate_tool_result_lem_example = truncate_tool_result_lem long_result (pos 3) (omega arith) refl

reconcile_checkpoint-IsResumed_example :
    IsResumed host (pay ∷ []) world (reconcile_checkpoint host (pay ∷ []) world).1
reconcile_checkpoint-IsResumed_example = reconcile_checkpoint-IsResumed host (pay ∷ []) world

settle_calls-Finish_example :
    Finish world.session.messages
      (call ∷ call ∷ [])
      (settle_calls host (pay ∷ []) (call ∷ call ∷ []) world)
settle_calls-Finish_example = settle_calls-Finish host (pay ∷ []) (call ∷ call ∷ []) world

settle_calls-Succeeds_example : IsOk (settle_calls host (pay ∷ []) (call ∷ call ∷ []) world)
settle_calls-Succeeds_example =
    settle_calls-Succeeds host (λ before s. refl) (pay ∷ []) (call ∷ call ∷ []) world
