-- ===== src/Transform/Blocks.antt =====
-- `transformOne` and `transformAssistantBlock` of ai/apis/transform.go, and the loop of
-- `TransformMessages` that threads the map of tool-call ids through the messages.
pub mod Laws
pub mod Renamed
pub mod Handed
use Prim.Native.Char.{code}
use kern_proxy.Base.{
  ℕ, ◌≡◌, refl, Bool, true, false, not, ◌&&◌, ◌||◌, Option, none, some, List, [], ◌∷◌, ◌++◌, String,
  ◌=ₛ◌, ◌==◌, leb, arith, if◌then◌else◌, items,
}
use kern_proxy.Messages.{
  Slice, TextContent, ThinkingContent, ToolCall, AssistantPart, AssistantMessage, UserMessage,
  ToolResultMessage, Message, Model,
}

-- `unicode.IsSpace`: the code points that `strings.TrimSpace` removes.
is_space : ℕ → Bool
is_space c =
    (leb 9 c && leb c 13)
    || c == 32
    || c == 0x85
    || c == 0xa0
    || c == 0x1680
    || (leb 0x2000 c && leb c 0x200a)
    || c == 0x2028
    || c == 0x2029
    || c == 0x202f
    || c == 0x205f
    || c == 0x3000

-- `strings.TrimSpace(s) == ""`
unfoldable pub is_blank : String → Bool
unfolding is_space
is_blank String.[] = true
is_blank (String.◌∷◌ c s) = is_space (code c) && is_blank s

-- `map[string]string`: a write stands in front of the older ones.
abbrev pub IdMap : Type 0
IdMap = List (String × String)

unfoldable pub lookup_id : String → IdMap → Option String
lookup_id k [] = none
lookup_id k ((j, v) ∷ m) = if j =ₛ k then some v else lookup_id k m

abbrev pub Normalizer : Type 0
Normalizer = String → Model → AssistantMessage → String

-- The `ThinkingContent` branch of `transformAssistantBlock`.
pub transform_thinking : ThinkingContent → Bool → List AssistantPart
transform_thinking b same =
    if b.redacted
    then if same then AssistantPart.thinking b ∷ [] else []
    else if same && not (b.thinking_signature =ₛ "")
    then AssistantPart.thinking b ∷ []
    else if is_blank b.thinking
    then []
    else if same
    then AssistantPart.thinking b ∷ []
    else AssistantPart.text (record { text = b.thinking; text_signature = "" }) ∷ []

-- The last two lines of the `ToolCall` branch, at the id that the normaliser gave.
rename_call : ToolCall → String → IdMap → AssistantPart × IdMap
rename_call call new ids =
    if new =ₛ call.id
    then (AssistantPart.tool_call call, ids)
    else (AssistantPart.tool_call (record call { id = new }), (call.id, new) ∷ ids)

-- The `ToolCall` branch.
transform_call :
    ToolCall → Model → AssistantMessage → Bool → IdMap → Option Normalizer → AssistantPart × IdMap
unfolding rename_call
transform_call b model source true ids f = (AssistantPart.tool_call b, ids)
transform_call b model source false ids none =
    (AssistantPart.tool_call (record b { thought_signature = "" }), ids)
transform_call b model source false ids (some f) =
    rename_call (record b { thought_signature = "" }) (f b.id model source) ids

unfoldable pub transform_assistant_block :
    AssistantPart
    → Model
    → AssistantMessage
    → Bool
    → IdMap
    → Option Normalizer
    → List AssistantPart × IdMap
unfolding transform_thinking transform_call is_blank
transform_assistant_block (AssistantPart.thinking b) model source same ids f =
    (transform_thinking b same, ids)
transform_assistant_block (AssistantPart.text b) model source same ids f =
    (AssistantPart.text (if same then b else record b { text_signature = "" }) ∷ [], ids)
transform_assistant_block (AssistantPart.tool_call b) model source same ids f =
    let (call, ids') = transform_call b model source same ids f in (call ∷ [], ids')

-- The loop over the content of an assistant message.
unfoldable pub transform_blocks :
    List AssistantPart
    → Model
    → AssistantMessage
    → Bool
    → IdMap
    → Option Normalizer
    → List AssistantPart × IdMap
unfolding transform_assistant_block
transform_blocks [] model source same ids f = ([], ids)
transform_blocks (b ∷ bs) model source same ids f =
    let (head, ids') = transform_assistant_block b model source same ids f in
    let (rest, ids'') = transform_blocks bs model source same ids' f in (head ++ rest, ids'')

-- `isSameModel`
unfoldable pub is_same_model : AssistantMessage → Model → Bool
is_same_model m model = m.provider =ₛ model.provider && m.api =ₛ model.api && m.model =ₛ model.id

-- The tool-result branch of `transformOne`, at the id that the map has.
pub remap_result : ToolResultMessage → Option String → ToolResultMessage
remap_result m none = m
remap_result m (some new) = if new =ₛ m.tool_call_id then m else record m { tool_call_id = new }

unfoldable pub transform_one : Message → Model → IdMap → Option Normalizer → Message × IdMap
unfolding transform_blocks is_same_model remap_result lookup_id
transform_one (Message.user m) model ids f = (Message.user m, ids)
transform_one (Message.tool_result m) model ids f =
    (Message.tool_result (remap_result m (lookup_id m.tool_call_id ids)), ids)
transform_one (Message.assistant m) model ids f =
    let (content, ids') =
      transform_blocks (items m.content) model m (is_same_model m model) ids f in
    (Message.assistant (record m { content = some content }), ids')

-- The loop of `TransformMessages`.
unfoldable pub transform_all : List Message → Model → IdMap → Option Normalizer → List Message
unfolding transform_one
transform_all [] model ids f = []
transform_all (m ∷ ms) model ids f =
    let (m', ids') = transform_one m model ids f in m' ∷ transform_all ms model ids' f
