-- ===== src/Transform/Images/Shown.antt =====
-- What the first two passes of `TransformMessages` see to.
use kern_proxy.Base.{
  ◌≡◌, ◌≢◌, Bool, true, false, Option, none, some, List, [], ◌∷◌, String, items, All, Bool-cases,
  inl, inr,
}
use kern_proxy.Messages.{Slice, UserPart, Message, Model, supports_image_input}
use kern_proxy.Transform.Normalize.Laws.{HasContent}
use kern_proxy.Transform.Images.{
  user_image_placeholder, tool_image_placeholder, replace_images_with_placeholder, downgrade_user,
  downgrade_message, downgrade_all, downgrade_unsupported_images,
}
use kern_proxy.Transform.Images.Laws.{IsText, replace_from-IsText}

-- Content that is not nil, and no image for a model that
-- takes none (the flag).
abbrev pub IsShown : Bool → Message → Type 0
IsShown vision (Message.user m) =
    (m.content.plain ≡ none → m.content.blocks ≢ none)
    × (vision ≡ false → m.content.plain ≡ none → All IsText (items m.content.blocks))
IsShown vision (Message.tool_result m) =
    (m.content ≢ none) × (vision ≡ false → All IsText (items m.content))
IsShown vision (Message.assistant m) = Unit

replace-ne-none :
    (content : Slice UserPart) (p : String) → replace_images_with_placeholder content p ≢ none
unfolding replace_images_with_placeholder
replace-ne-none content p = λ e. cc

replace-IsText :
    (content : Slice UserPart) (p : String)
    → All IsText (items (replace_images_with_placeholder content p))
unfolding replace_images_with_placeholder
replace-IsText content p = replace_from-IsText p false (items content)

-- Content that no pass has to touch.
keep-IsShown : (m : Message) → HasContent m → IsShown true m
keep-IsShown (Message.user m) h = (h, λ e. cc)
keep-IsShown (Message.tool_result m) h = (h, λ e. cc)
keep-IsShown (Message.assistant m) h = tt

downgrade_user-shown :
    (plain : Option String) (blocks : Slice UserPart)
    → let c = downgrade_user (record { plain = plain; blocks = blocks }) in
      (c.plain ≡ none → c.blocks ≢ none) × (c.plain ≡ none → All IsText (items c.blocks))
unfolding downgrade_user
downgrade_user-shown none blocks = (
  λ e. replace-ne-none blocks user_image_placeholder,
  λ e. replace-IsText blocks user_image_placeholder,
)
downgrade_user-shown (some s) blocks = (λ e. cc, λ e. cc)

downgrade_message-IsShown : (m : Message) → IsShown false (downgrade_message m)
unfolding downgrade_message
downgrade_message-IsShown (Message.user m) =
    let (present, texts) = downgrade_user-shown m.content.plain m.content.blocks in
    (present, λ e. texts)
downgrade_message-IsShown (Message.tool_result m) = (
  replace-ne-none m.content tool_image_placeholder,
  λ e. replace-IsText m.content tool_image_placeholder,
)
downgrade_message-IsShown (Message.assistant m) = tt

keep-All-IsShown : (ms : List Message) → All HasContent ms → All (IsShown true) ms
keep-All-IsShown [] h = tt
keep-All-IsShown (m ∷ ms) h = (keep-IsShown m h.0, keep-All-IsShown ms h.1)

downgrade_all-IsShown : (ms : List Message) → All (IsShown false) (downgrade_all ms)
unfolding downgrade_all
downgrade_all-IsShown [] = tt
downgrade_all-IsShown (m ∷ ms) = (downgrade_message-IsShown m, downgrade_all-IsShown ms)

pub downgrade-IsShown :
    (ms : List Message) (model : Model)
    → All HasContent ms
    → All (IsShown (supports_image_input model)) (downgrade_unsupported_images ms model)
unfolding downgrade_unsupported_images
downgrade-IsShown ms model h = elim (Bool-cases (supports_image_input model)) [
  | inl vision ↦ rw vision (keep-All-IsShown ms h)
  | inr blind ↦ rw blind (downgrade_all-IsShown ms)
]
