-- ===== src/OpenAi/Convert.antt =====
-- `convertMessages` of ai/apis/openaicompletions/openaicompletions.go: a conversation becomes the messages of a
-- request.
pub mod Answers
use kern_proxy.Base.{
  ℕ, zero, suc, ◌-◌, ◌+◌, Bool, true, false, not, ◌&&◌, ◌||◌, Option, none, some, List, [], ◌∷◌,
  ◌++◌, String, ◌=ₛ◌, ◌+ₛ◌, ◌==◌, ltb, leb, if◌then◌else◌, items,
}
use kern_proxy.Base.Int.{ℤ}
use kern_proxy.Messages.{
  UserPart, AssistantPart, UserMessage, ThinkingContent, ToolCall, AssistantMessage,
  ToolResultMessage, Message, Model,
}
use kern_proxy.Transform.Blocks.{is_blank, Normalizer}
use kern_proxy.Transform.Pipeline.{transform_messages}
use kern_proxy.OpenAi.Message.{
  Role, PartKind, ContentPart, Content, WireCall, Reasoning, WireMessage, Options, no_reasoning,
  message, normalize_tool_call_id, bare,
}
use kern_proxy.Anthropic.Convert.{has_images, texts, join_lines}

unfoldable pub user_parts : List UserPart → List ContentPart
user_parts [] = []
user_parts (UserPart.text t ∷ bs) = bare (PartKind.text t.text) ∷ user_parts bs
user_parts (UserPart.image i ∷ bs) =
    bare (PartKind.image_url ("data:" +ₛ i.mime_type +ₛ ";base64," +ₛ i.bytes)) ∷ user_parts bs

abbrev pub user_content : Option String → UserMessage → Content
user_content (some t) m = Content.plain t
user_content none m = Content.parts (user_parts (items m.content.blocks))

-- `convertUserMessage`
abbrev pub convert_user_message : UserMessage → WireMessage
convert_user_message m = message Role.user (user_content m.content.plain m)

-- `textRaw`
unfoldable pub shown_texts : List AssistantPart → List String
shown_texts [] = []
shown_texts (AssistantPart.text t ∷ bs) =
    let rest = shown_texts bs in if is_blank t.text then rest else t.text ∷ rest
shown_texts (_ ∷ bs) = shown_texts bs

-- `thinkingBlocks`
unfoldable pub thinking_blocks : List AssistantPart → List ThinkingContent
thinking_blocks [] = []
thinking_blocks (AssistantPart.thinking t ∷ bs) =
    let rest = thinking_blocks bs in if is_blank t.thinking then rest else t ∷ rest
thinking_blocks (_ ∷ bs) = thinking_blocks bs

-- `strings.Join`
unfoldable pub join : String → List String → String
join separator [] = ""
join separator (t ∷ []) = t
join separator (t ∷ u ∷ rest) = let later = join separator (u ∷ rest) in t +ₛ separator +ₛ later

abbrev pub thoughts : List ThinkingContent → List String
thoughts [] = []
thoughts (t ∷ ts) = t.thinking ∷ thoughts ts

abbrev pub text_parts : List String → List ContentPart
text_parts [] = []
text_parts (t ∷ ts) = bare (PartKind.text t) ∷ text_parts ts

abbrev pub text_or_absent : String → Content
text_or_absent t = if t =ₛ "" then Content.absent else Content.plain t

abbrev pub signature_of : Options → String → String
signature_of o signature =
    if (o.provider =ₛ "opencode-go") && (signature =ₛ "reasoning")
    then "reasoning_content"
    else signature

abbrev pub reasoning_under : String → String → Reasoning
reasoning_under signature thought =
    if signature =ₛ "reasoning_content"
    then record no_reasoning { reasoning_content = some thought }
    else if signature =ₛ "reasoning"
    then record no_reasoning { reasoning = some thought }
    else if signature =ₛ "reasoning_text"
    then record no_reasoning { reasoning_text = some thought }
    else no_reasoning

-- The `switch` on the thinking blocks: the content, and the thinking beside it.
unfoldable pub content_and_reasoning :
    Options → List String → List ThinkingContent → Content × Reasoning
content_and_reasoning o shown [] = (text_or_absent (join "" shown), no_reasoning)
content_and_reasoning o shown (t ∷ ts) =
    if o.requires_thinking_as_text
    then (
      Content.parts (bare (PartKind.text (join "\n\n" (thoughts (t ∷ ts)))) ∷ text_parts shown),
      no_reasoning,
    )
    else (
      text_or_absent (join "" shown),
      reasoning_under (signature_of o t.thinking_signature) (join "\n" (thoughts (t ∷ ts))),
    )

-- `json.Marshal` on the arguments: a nil map has the JSON text `null`, and an error leaves no text.
abbrev pub arguments_text : Option String → String
arguments_text none = ""
arguments_text (some a) = if a =ₛ "null" then "{}" else a

abbrev pub wire_call : ToolCall → WireCall
wire_call c = record { id = c.id; name = c.name; arguments = arguments_text c.arguments }

unfoldable pub wire_calls : List AssistantPart → List WireCall
wire_calls [] = []
wire_calls (AssistantPart.tool_call c ∷ bs) = wire_call c ∷ wire_calls bs
wire_calls (_ ∷ bs) = wire_calls bs

unfoldable pub details : Options → List AssistantPart → List String
details o [] = []
details o (AssistantPart.tool_call c ∷ bs) =
    let rest = details o bs in
    if not (c.thought_signature =ₛ "") && o.valid c.thought_signature
    then c.thought_signature ∷ rest
    else rest
details o (_ ∷ bs) = details o bs

abbrev pub forced : Options → Reasoning → Option String → Reasoning
forced o r none =
    if o.requires_reasoning_content && o.reasoning
    then record r { reasoning_content = some "" }
    else r
forced o r (some t) = r

abbrev pub has_content : Content → Bool
has_content Content.absent = false
has_content (Content.plain t) = not (t =ₛ "")
has_content (Content.parts ps) = true

abbrev pub is_empty : List WireCall → Bool
is_empty [] = true
is_empty (c ∷ cs) = false

abbrev pub assistant_wire : Options → List AssistantPart → Content × Reasoning → Option WireMessage
assistant_wire o ps (content, r) =
    if not (has_content content) && is_empty (wire_calls ps)
    then none
    else some (record (message Role.assistant content) {
      tool_calls = wire_calls ps;
      reasoning = forced o r r.reasoning_content;
      reasoning_details = details o ps;
    })

-- `convertAssistantMessage`; `none` is a message that is left out.
unfoldable pub convert_assistant_message : Options → AssistantMessage → Option WireMessage
convert_assistant_message o m =
    let ps = items m.content in
    assistant_wire o ps (content_and_reasoning o (shown_texts ps) (thinking_blocks ps))

abbrev pub result_text : List UserPart → String → String
result_text content t =
    if t =ₛ "" then if has_images content then "(see attached image)" else "(no tool output)" else t

-- `convertToolResultMessage`
unfoldable pub convert_tool_result_message : Options → ToolResultMessage → WireMessage
convert_tool_result_message o m =
    let content = items m.content in
    record (message Role.tool (Content.plain (result_text content (join_lines (texts content))))) {
      tool_call_id = m.tool_call_id;
      name = if o.requires_tool_result_name then m.tool_name else "";
    }

abbrev pub bridge_message : WireMessage
bridge_message = message Role.assistant (Content.plain "I have processed the tool results.")

-- `lastRole == "toolResult"`, which is all that is asked of it.
abbrev pub bridge : Options → Bool → List WireMessage
bridge o behind_result =
    if o.requires_assistant_after_tool_result && behind_result then bridge_message ∷ [] else []

abbrev pub or_left_out : Option WireMessage → List WireMessage
or_left_out none = []
or_left_out (some w) = w ∷ []

-- The loop of `convertMessages`. Its inner loop goes through results in a row one by one, as this does.
unfoldable pub convert_all : Options → Bool → List Message → List WireMessage
convert_all o behind_result [] = []
convert_all o behind_result (Message.user m ∷ ms) =
    bridge o behind_result ++ convert_user_message m ∷ convert_all o false ms
convert_all o behind_result (Message.assistant m ∷ ms) =
    or_left_out (convert_assistant_message o m) ++ convert_all o false ms
convert_all o behind_result (Message.tool_result m ∷ ms) =
    convert_tool_result_message o m ∷ convert_all o true ms

abbrev pub system_role : Options → Role
system_role o = if o.reasoning && o.supports_developer_role then Role.developer else Role.system

abbrev pub system_message : Options → String → List WireMessage
system_message o prompt =
    if prompt =ₛ "" then [] else message (system_role o) (Content.plain prompt) ∷ []

abbrev pub id_normalizer : Option Normalizer
id_normalizer = some (λ id model source. normalize_tool_call_id model id)

-- `convertMessages`; `now` is the clock that `TransformMessages` reads.
unfoldable pub convert_messages :
    (ℕ → ℤ) → Options → String → List Message → Model → List WireMessage
convert_messages now o prompt ms model =
    system_message o prompt ++ convert_all o false (transform_messages now ms model id_normalizer)
