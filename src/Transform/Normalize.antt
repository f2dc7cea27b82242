-- ===== src/Transform/Normalize.antt =====
-- `normalizeNilContent` of ai/apis/transform.go.
pub mod Laws
pub mod Turns
use kern_proxy.Base.{
  ◌≡◌, refl, Bool, true, false, ◌&&◌, Option, none, some, List, [], ◌∷◌, arith, if◌then◌else◌, All,
}
use kern_proxy.Messages.{
  Slice, UserPart, UserContent, UserMessage, AssistantMessage, ToolResultMessage, Message,
}

abbrev pub is_nil : {A : Type 0} → Option A → Bool
is_nil none = true
is_nil (some _) = false

-- A nil slice becomes an empty one.
abbrev or_empty : {A : Type 0} → Slice A → Slice A
or_empty none = some []
or_empty (some xs) = some xs

normalize_user : UserContent → UserContent
normalize_user c = if is_nil c.plain && is_nil c.blocks then record c { blocks = some [] } else c

normalize_message : Message → Message
unfolding normalize_user
normalize_message (Message.user m) = Message.user (record m { content = normalize_user m.content })
normalize_message (Message.assistant m) =
    Message.assistant (record m { content = or_empty m.content })
normalize_message (Message.tool_result m) =
    Message.tool_result (record m { content = or_empty m.content })

unfoldable pub normalize_nil_content : List Message → List Message
unfolding normalize_message
normalize_nil_content [] = []
normalize_nil_content (m ∷ ms) = normalize_message m ∷ normalize_nil_content ms
