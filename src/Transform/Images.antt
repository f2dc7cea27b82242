-- ===== src/Transform/Images.antt =====
-- `replaceImagesWithPlaceholder` and `downgradeUnsupportedImages` of ai/apis/transform.go.
pub mod Laws
pub mod Turns
pub mod Shown
use kern_proxy.Base.{
  ◌≡◌, refl, Bool, true, false, not, ◌&&◌, Option, none, some, List, [], ◌∷◌, ◌++◌, String, ◌=ₛ◌,
  arith, if◌then◌else◌, items, All,
}
use kern_proxy.Messages.{
  Slice, TextContent, UserPart, UserContent, UserMessage, ToolResultMessage, Message, Model,
  supports_image_input,
}

abbrev pub user_image_placeholder : String
user_image_placeholder = "(image omitted: model does not support images)"

abbrev pub tool_image_placeholder : String
tool_image_placeholder = "(tool image omitted: model does not support images)"

abbrev pub placeholder_block : String → UserPart
placeholder_block p = UserPart.text (record { text = p; text_signature = "" })

-- The loop of `replaceImagesWithPlaceholder`; the flag is `previousWasPlaceholder`.
unfoldable pub replace_images_from : String → Bool → List UserPart → List UserPart
replace_images_from p previous [] = []
replace_images_from p previous (UserPart.image i ∷ rest) =
    let others = replace_images_from p true rest in
    if not previous then placeholder_block p ∷ others else others
replace_images_from p previous (UserPart.text t ∷ rest) =
    UserPart.text t ∷ replace_images_from p (t.text =ₛ p) rest

unfoldable pub replace_images_with_placeholder : Slice UserPart → String → Slice UserPart
unfolding replace_images_from
replace_images_with_placeholder content p = some (replace_images_from p false (items content))

downgrade_user : UserContent → UserContent
unfolding replace_images_with_placeholder
downgrade_user c = elim c.plain [
  | none ↦ record c { blocks = replace_images_with_placeholder c.blocks user_image_placeholder }
  | some _ ↦ c
]

downgrade_message : Message → Message
unfolding replace_images_with_placeholder downgrade_user
downgrade_message (Message.user m) = Message.user (record m { content = downgrade_user m.content })
downgrade_message (Message.tool_result m) =
    Message.tool_result
      (record m { content = replace_images_with_placeholder m.content tool_image_placeholder })
downgrade_message (Message.assistant m) = Message.assistant m

downgrade_all : List Message → List Message
unfolding downgrade_message
downgrade_all [] = []
downgrade_all (m ∷ ms) = downgrade_message m ∷ downgrade_all ms

unfoldable pub downgrade_unsupported_images : List Message → Model → List Message
unfolding downgrade_all supports_image_input
downgrade_unsupported_images ms model = if supports_image_input model then ms else downgrade_all ms
