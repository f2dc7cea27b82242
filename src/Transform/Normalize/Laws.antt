-- ===== src/Transform/Normalize/Laws.antt =====
-- No content is nil after `normalizeNilContent`.
use kern_proxy.Base.{◌≡◌, ◌≢◌, none, some, List, [], ◌∷◌, arith, All}
use kern_proxy.Messages.{Slice, UserContent, Message}
use kern_proxy.Transform.Normalize.{
  or_empty, normalize_user, normalize_message, normalize_nil_content,
}

-- A plain text, or a slice that is not nil.
abbrev pub HasContent : Message → Type 0
HasContent (Message.user m) = m.content.plain ≡ none → m.content.blocks ≢ none
HasContent (Message.assistant m) = m.content ≢ none
HasContent (Message.tool_result m) = m.content ≢ none

or_empty-ne-none : {A : Type 0} (s : Slice A) → or_empty s ≢ none
or_empty-ne-none none = λ e. cc
or_empty-ne-none (some xs) = λ e. cc

user-HasContent :
    (c : UserContent) → (normalize_user c).plain ≡ none → (normalize_user c).blocks ≢ none
unfolding normalize_user
user-HasContent c = λ h e. ground arith

message-HasContent : (m : Message) → HasContent (normalize_message m)
unfolding normalize_message
message-HasContent (Message.user m) = user-HasContent m.content
message-HasContent (Message.assistant m) = or_empty-ne-none m.content
message-HasContent (Message.tool_result m) = or_empty-ne-none m.content

pub normalize-HasContent : (ms : List Message) → All HasContent (normalize_nil_content ms)
unfolding normalize_nil_content
normalize-HasContent [] = tt
normalize-HasContent (m ∷ ms) = (message-HasContent m, normalize-HasContent ms)
