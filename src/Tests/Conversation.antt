-- ===== src/Tests/Conversation.antt =====
-- A conversation with a call that nobody answered, a turn that failed, and images.
use kern_proxy.Base.{
  ℕ, ◌≡◌, refl, true, false, none, some, List, [], ◌∷◌, ◌++◌, String, All, length,
}
use kern_proxy.Base.Int.{ℤ, pos}
use kern_proxy.Messages.{StopReason, AssistantPart, UserPart, Usage, Message, Modality, Model}
use kern_proxy.Transform.Normalize.{normalize_nil_content}
use kern_proxy.Transform.Images.{
  placeholder_block, replace_images_with_placeholder, downgrade_unsupported_images,
}
use kern_proxy.Transform.Images.Laws.{IsText, is_placeholder, other_texts, replace-placeholder}
use kern_proxy.Transform.Blocks.{transform_all, is_same_model}
use kern_proxy.Transform.Blocks.Handed.{IsHandedOff}
use kern_proxy.Transform.Blocks.Renamed.{by_id, IsForeign}
use kern_proxy.Transform.Orphans.{tool_calls, insert_orphan_tool_results}
use kern_proxy.Transform.Orphans.Settled.{IsSettled, insert-IsSettled}
use kern_proxy.Transform.Orphans.Kept.{Completes, insert-Completes}
use kern_proxy.Transform.Pipeline.{transform_messages}
use kern_proxy.Transform.Pipeline.Ready.{IsReady, transform-IsReady}
use kern_proxy.Transform.Pipeline.HandOff.{transform-hand_off}
use kern_proxy.Estimate.{estimate_messages_tokens}
use kern_proxy.Estimate.Anchor.{Explains, estimate-Explains}

abbrev clock : ℕ → ℤ
clock n = pos n

abbrev no_usage : Usage
no_usage = record {
  input = pos 0;
  output = pos 0;
  cache_read = pos 0;
  cache_write = pos 0;
  total_tokens = pos 0;
}

abbrev text_block : String → UserPart
text_block s = UserPart.text (record { text = s; text_signature = "" })

abbrev picture : UserPart
picture = UserPart.image (record { bytes = "iVBO"; mime_type = "image/png" })

abbrev ask : String → Message
ask s =
    Message.user (record { content = record { plain = some s; blocks = none }; timestamp = pos 0 })

abbrev show_pictures : Message
show_pictures = Message.user (record {
  content = record { plain = none; blocks = some (text_block "look" ∷ picture ∷ picture ∷ []) };
  timestamp = pos 0;
})

abbrev call : String → AssistantPart
call id =
    AssistantPart.tool_call
      (record { id = id; name = "read"; arguments = some "{}"; thought_signature = "sig" })

abbrev turn : StopReason → List AssistantPart → Message
turn reason parts = Message.assistant (record {
  content = some parts;
  api = "anthropic-messages";
  provider = "anthropic";
  model = "opus";
  usage = no_usage;
  stop_reason = reason;
  error_message = "";
  timestamp = pos 0;
})

abbrev answer : String → Message
answer id = Message.tool_result (record {
  tool_call_id = id;
  tool_name = "read";
  content = some (text_block "ok" ∷ []);
  details = none;
  is_error = false;
  timestamp = pos 0;
})

abbrev thought : AssistantPart
thought =
    AssistantPart.thinking (record { thinking = "hm"; thinking_signature = ""; redacted = false })

-- The call `b` has no result, and one turn failed.
abbrev pub conversation : List Message
conversation =
    ask "hello"
    ∷ turn StopReason.tool_use (thought ∷ call "a" ∷ call "b" ∷ [])
    ∷ answer "a"
    ∷ turn StopReason.error (call "c" ∷ [])
    ∷ show_pictures
    ∷ []

abbrev settled : List Message
settled = ask "hello" ∷ turn StopReason.tool_use (call "a" ∷ []) ∷ answer "a" ∷ []

abbrev text_only : Model
text_only = record {
  id = "gpt";
  api = "openai-responses";
  provider = "openai";
  input = Modality.text ∷ [];
  context_window = pos 128000;
  max_tokens = pos 4096;
}

abbrev with_prefix : String → String
with_prefix id = "call_"

settled-IsSettled : IsSettled settled
unfolding tool_calls
settled-IsSettled = (refl, (λ id h. h), tt)

insert-IsSettled_example : IsSettled (insert_orphan_tool_results clock conversation)
insert-IsSettled_example = insert-IsSettled clock conversation

insert-Completes_example : Completes conversation (insert_orphan_tool_results clock conversation)
insert-Completes_example = insert-Completes clock conversation

transform-IsReady_example :
    All (IsReady text_only) (transform_messages clock conversation text_only (by_id with_prefix))
transform-IsReady_example = transform-IsReady clock conversation text_only (by_id with_prefix)

settled-IsForeign : IsForeign text_only settled
unfolding is_same_model
settled-IsForeign = (refl, tt)

transform-hand_off_example :
    IsHandedOff with_prefix [] settled
      (transform_messages clock settled text_only (by_id with_prefix))
transform-hand_off_example =
    transform-hand_off clock with_prefix settled text_only settled-IsForeign settled-IsSettled

abbrev shown : List UserPart
shown = text_block "look" ∷ picture ∷ picture ∷ text_block "and" ∷ picture ∷ []

replace-placeholder_example :
    (before : List UserPart) × (b : UserPart) × (after : List UserPart)
    × (replace_images_with_placeholder (some shown) "(image)" ≡ some (before ++ b ∷ after))
    × (is_placeholder "(image)" b ≡ true)
    × (other_texts "(image)" before ≡ other_texts "(image)" (text_block "look" ∷ picture ∷ []))
    × (other_texts "(image)" after ≡ other_texts "(image)" (text_block "and" ∷ picture ∷ []))
    × All IsText (before ++ b ∷ after)
replace-placeholder_example =
    replace-placeholder (text_block "look" ∷ picture ∷ [])
      (record { bytes = "iVBO"; mime_type = "image/png" }) (text_block "and" ∷ picture ∷ [])
      "(image)"

-- A run of images becomes one placeholder.
replace_run :
    replace_images_with_placeholder (some shown) "(image)"
    ≡ some (
        text_block "look"
        ∷ placeholder_block "(image)"
        ∷ text_block "and"
        ∷ placeholder_block "(image)"
        ∷ [])
unfolding replace_images_with_placeholder
replace_run = refl

estimate-Explains_example : Explains conversation (estimate_messages_tokens conversation)
estimate-Explains_example = estimate-Explains conversation

-- A turn of another model, whose call `a` is renamed, and then a turn of the model itself with the same id.
abbrev repeated_id : List Message
repeated_id =
    turn StopReason.tool_use (call "a" ∷ [])
    ∷ answer "a"
    ∷ Message.assistant (record {
      content = some (call "a" ∷ []);
      api = "openai-responses";
      provider = "openai";
      model = "gpt";
      usage = no_usage;
      stop_reason = StopReason.tool_use;
      error_message = "";
      timestamp = pos 0;
    })
    ∷ answer "a"
    ∷ []

-- The result of the second turn is renamed too, so its call gets a result that says
-- `No result provided`.
repeated_id_grows : length (transform_messages clock repeated_id text_only (by_id with_prefix)) ≡ 5
unfolding transform_messages transform_all downgrade_unsupported_images normalize_nil_content
    insert_orphan_tool_results
repeated_id_grows = refl
