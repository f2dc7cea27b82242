-- ===== src/Estimate.antt =====
-- ai/estimate.go: how many tokens a conversation will take. `marshal` is `json.Marshal` on the tool
-- definitions of a chat, as a text.
pub mod Anchor
use Prim.Native.Char.{code}
use kern_proxy.Base.{
  ℕ, suc, ◌+◌, ◌-◌, ◌/◌, Bool, true, false, not, ◌&&◌, ◌||◌, Option, none, some, List, [], ◌∷◌,
  String, ◌=ₛ◌, ltb, if◌then◌else◌, items,
}
use kern_proxy.Base.Int.{ℤ, pos, negsuc, ◌+ℤ◌, ltb_ℤ, int64}
use kern_proxy.Messages.{
  TextContent, ThinkingContent, ToolCall, AssistantPart, UserPart, Usage, UserContent,
  AssistantMessage, Message, StopReason,
}
use kern_proxy.Transform.Orphans.{is_failed}

-- `LastUsageIndex` is `none` for -1.
pub record ContextUsageEstimate : Type 0 where
  pub tokens : ℤ
  pub usage_tokens : ℤ
  pub trailing_tokens : ℤ
  pub last_usage_index : Option ℕ

abbrev pub chars_per_token : ℕ
chars_per_token = 4

abbrev pub estimated_image_chars : ℕ
estimated_image_chars = 4800

abbrev is_zero : ℤ → Bool
is_zero (pos n) = not (ltb 0 n)
is_zero (negsuc n) = false

-- `CalculateContextTokens`
unfoldable pub calculate_context_tokens : Usage → ℤ
calculate_context_tokens u =
    if is_zero u.total_tokens
    then int64 (int64 (int64 (u.input +ℤ u.output) +ℤ u.cache_read) +ℤ u.cache_write)
    else u.total_tokens

-- `safeJSONStringifyForEstimate`, at what `json.Marshal` gave.
abbrev pub or_unserializable : Option String → String
or_unserializable none = "[unserializable]"
or_unserializable (some s) = s

unfoldable pub string_length_utf16 : String → ℕ
string_length_utf16 String.[] = 0
string_length_utf16 (String.◌∷◌ c s) =
    (if ltb 0xffff (code c) then 2 else 1) + string_length_utf16 s

-- `estimateBlockListChars`, and the loop of `estimateUserContentChars`.
unfoldable pub block_list_chars : List UserPart → ℕ
unfolding string_length_utf16
block_list_chars [] = 0
block_list_chars (UserPart.text t ∷ rest) = string_length_utf16 t.text + block_list_chars rest
block_list_chars (UserPart.image i ∷ rest) = estimated_image_chars + block_list_chars rest

unfoldable pub user_content_chars : UserContent → ℕ
unfolding block_list_chars
user_content_chars c = elim c.plain [
  | some s ↦ string_length_utf16 s
  | none ↦ block_list_chars (items c.blocks)
]

unfoldable pub assistant_chars : List AssistantPart → ℕ
unfolding string_length_utf16
assistant_chars [] = 0
assistant_chars (AssistantPart.text t ∷ rest) = string_length_utf16 t.text + assistant_chars rest
assistant_chars (AssistantPart.thinking t ∷ rest) =
    string_length_utf16 t.thinking + assistant_chars rest
assistant_chars (AssistantPart.tool_call c ∷ rest) =
    string_length_utf16 c.name
    + string_length_utf16 (or_unserializable c.arguments)
    + assistant_chars rest

unfoldable pub ceil_div : ℕ → ℕ → ℕ
ceil_div chars per = (chars + per - 1) / per

-- `EstimateTextTokens`
unfoldable pub estimate_text_tokens : String → ℕ
unfolding string_length_utf16 ceil_div
estimate_text_tokens s = ceil_div (string_length_utf16 s) chars_per_token

-- `EstimateMessageTokens`
unfoldable pub estimate_message_tokens : Message → ℕ
unfolding user_content_chars block_list_chars assistant_chars ceil_div
estimate_message_tokens (Message.user m) = ceil_div (user_content_chars m.content) chars_per_token
estimate_message_tokens (Message.tool_result m) =
    ceil_div (block_list_chars (items m.content)) chars_per_token
estimate_message_tokens (Message.assistant m) =
    ceil_div (assistant_chars (items m.content)) chars_per_token

-- The sum over the messages.
unfoldable pub sum_tokens : List Message → ℕ
unfolding estimate_message_tokens
sum_tokens [] = 0
sum_tokens (m ∷ ms) = estimate_message_tokens m + sum_tokens ms

-- The tests of the loop of `lastAssistantUsage` on one message.
unfoldable pub anchor_usage : Message → Option Usage
unfolding calculate_context_tokens
anchor_usage (Message.user m) = none
anchor_usage (Message.tool_result m) = none
anchor_usage (Message.assistant m) =
    if is_failed m.stop_reason
    then none
    else if ltb_ℤ (pos 0) (calculate_context_tokens m.usage)
    then some m.usage
    else none

-- `lastAssistantUsage`, on the messages from place `i` on: the search starts at the end.
unfoldable pub last_assistant_usage : ℕ → List Message → Option (Usage × ℕ × List Message)
unfolding anchor_usage
last_assistant_usage i [] = none
last_assistant_usage i (m ∷ ms) = elim (last_assistant_usage (suc i) ms) [
  | some found ↦ some found
  | none ↦ elim (anchor_usage m) [ some u ↦ some (u, i, ms) | none ↦ none ]
]

abbrev pub estimate_from : Option (Usage × ℕ × List Message) → List Message → ContextUsageEstimate
estimate_from (some (u, i, after)) ms =
    let used = calculate_context_tokens u in
    let trailing = pos (sum_tokens after) in
    record {
      tokens = int64 (used +ℤ trailing);
      usage_tokens = used;
      trailing_tokens = trailing;
      last_usage_index = some i;
    }
estimate_from none ms = record {
  tokens = pos (sum_tokens ms);
  usage_tokens = pos 0;
  trailing_tokens = pos (sum_tokens ms);
  last_usage_index = none;
}

-- `EstimateMessagesTokens`
unfoldable pub estimate_messages_tokens : List Message → ContextUsageEstimate
unfolding last_assistant_usage sum_tokens calculate_context_tokens
estimate_messages_tokens ms = estimate_from (last_assistant_usage 0 ms) ms

-- `prefixTokens`; the tools are `none` if there are none.
unfoldable pub prefix_tokens : String → Option (Option String) → ℕ
unfolding estimate_text_tokens
prefix_tokens system tools =
    (if system =ₛ "" then 0 else estimate_text_tokens system)
    + (elim tools [ none ↦ 0 | some json ↦ estimate_text_tokens (or_unserializable json) ])

abbrev with_prefix : ContextUsageEstimate → ℕ → ContextUsageEstimate
with_prefix e n = elim e.last_usage_index [
  | some i ↦ e
  | none ↦ record e {
    tokens = int64 (e.tokens +ℤ pos n);
    trailing_tokens = int64 (e.trailing_tokens +ℤ pos n);
  }
]

-- `EstimateContextTokens`, on the three parts of the chat.
unfoldable pub estimate_context_tokens :
    String → List Message → Option (Option String) → ContextUsageEstimate
unfolding estimate_messages_tokens prefix_tokens
estimate_context_tokens system ms tools =
    with_prefix (estimate_messages_tokens ms) (prefix_tokens system tools)
