-- ===== src/Window/Tests.antt =====
-- A history with a call of tools, in a window that is too small for it.
use ia_harness.Base.{
  pos, ◌≡◌, refl, true, false, Bool, none, some, List, [], ◌∷◌, arith, All, length,
}
use ia_harness.Core.Message.{Bytes, Role, PartKind, Part, Message, text_part}
use ia_harness.Window.{
  Settings, Summarizer, Block, flatten_blocks, context_blocks, blocks_from, is_kept, take_oldest,
  message_has_tool_call, message_has_tool_result, remove_from, remove_oldest_blocks, whole,
  apply_window,
}
use ia_harness.Window.Removal.{IsRemoval, remove_oldest_blocks-IsRemoval}
use ia_harness.Window.Order.{Shuffle, last_block, remove_oldest_blocks-whole}
use ia_harness.Window.Apply.{IsTruncation, ratio_has_no_effect, apply_window-IsTruncation}

abbrev message : Role → Part → Message
message role part = record { id = ""; role = role; parts = part ∷ []; created_at = pos 0 }

abbrev call_part : Part
call_part = record {
  kind = PartKind.tool_call;
  text = [];
  call = some (record { id = "c"; name = "pay"; namespace = ""; args = none });
  result = none;
  media = none;
}

abbrev result_part : Part
result_part = record {
  kind = PartKind.tool_result;
  text = [];
  call = none;
  result =
      some (record {
        call_id = "c";
        content = [];
        is_error = false;
        denied = false;
        truncated = false;
      });
  media = none;
}

abbrev hello : Message
hello = message Role.user (text_part (b'h' ∷ []))

abbrev rules : Message
rules = message Role.system (text_part (b'r' ∷ []))

abbrev history : List Message
history =
    rules ∷ hello ∷ message Role.assistant call_part ∷ message Role.tool result_part ∷ hello ∷ []

abbrev at_most_two : List Message → Bool
at_most_two [] = true
at_most_two (a ∷ []) = true
at_most_two (a ∷ b ∷ []) = true
at_most_two (a ∷ b ∷ c ∷ l) = false

call_goes_whole : remove_oldest_blocks at_most_two history ≡ (
  rules ∷ hello ∷ [],
  hello ∷ message Role.assistant call_part ∷ message Role.tool result_part ∷ [],
)
unfolding remove_oldest_blocks remove_from take_oldest context_blocks blocks_from
    message_has_tool_call message_has_tool_result
call_goes_whole = refl

remove_oldest_blocks-IsRemoval_example :
    IsRemoval at_most_two (context_blocks history) [] (remove_oldest_blocks at_most_two history)
remove_oldest_blocks-IsRemoval_example = remove_oldest_blocks-IsRemoval at_most_two history

remove_oldest_blocks-whole_example :
    (stay go : List Block) × (remove_oldest_blocks at_most_two history
      ≡ (flatten_blocks stay, flatten_blocks go))
    × Shuffle stay go (context_blocks history)
    × All (λ b. is_kept b ≡ false) go
    × ((d : Block) → last_block (context_blocks history) ≡ some d → last_block stay ≡ some d)
remove_oldest_blocks-whole_example = remove_oldest_blocks-whole at_most_two history

abbrev settings : Settings
settings = record {
  max_tokens = pos 0;
  safety_margin = pos 0;
  compact_at_ratio = record { num = pos 1; den = 2 };
  pricing = record {
    currency = "";
    input_price = pos 0;
    output_price = pos 0;
    bytes_per_token = record { num = pos 4; den = 1 };
    cached_input_price = pos 0;
    cache_write_price = pos 0;
  };
  tokenizer = some (record { count = length; count_text = λ t. 1 });
}

abbrev silent : Summarizer
silent removed budget model = none

ratio_has_no_effect_example :
    apply_window settings silent "m"
      (pos 7)
      history
      0
      (pos 4)
      (record { num = pos 1; den = 2 })
      true
      "gpt"
    ≡ apply_window settings silent "m" (pos 7) history 0 (pos 4) whole true "gpt"
ratio_has_no_effect_example =
    ratio_has_no_effect settings silent "m" (pos 7) history 0 (pos 4)
      (record { num = pos 1; den = 2 }) true "gpt" (omega arith) (omega arith) (omega arith)

apply_window-IsTruncation_example :
    IsTruncation settings silent "m"
      (pos 7)
      history
      0
      (pos 2)
      (apply_window settings silent "m" (pos 7) history 0 (pos 2) whole false "gpt")
apply_window-IsTruncation_example =
    apply_window-IsTruncation settings silent "m" (pos 7) history 0 (pos 2) whole "gpt"
      (omega arith) (omega arith) (omega arith)

abbrev summary : Bytes
summary = b's' ∷ []
