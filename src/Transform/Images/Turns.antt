-- ===== src/Transform/Images/Turns.antt =====
-- `downgradeUnsupportedImages` changes no turn's model, calls or ids.
use kern_proxy.Base.{
  ◌≡◌, ◌∙◌, Option-cases, refl, ap, ◌||◌, List, [], ◌∷◌, String, ◌=ₛ◌, Bool-cases, inl, inr,
}
use kern_proxy.Messages.{UserContent, Message, Model, supports_image_input}
use kern_proxy.Transform.Images.{
  downgrade_user, downgrade_message, downgrade_all, downgrade_unsupported_images,
}
use kern_proxy.Transform.Blocks.Renamed.{IsForeign}
use kern_proxy.Transform.Blocks.Handed.{IsHandedOff}
use kern_proxy.Transform.Orphans.Settled.{answered, IsSettled}

downgrade_all-IsForeign :
    (ms : List Message) (model : Model) → IsForeign model ms → IsForeign model (downgrade_all ms)
unfolding downgrade_all downgrade_message
downgrade_all-IsForeign [] model f = tt
downgrade_all-IsForeign (Message.user m ∷ ms) model f = downgrade_all-IsForeign ms model f
downgrade_all-IsForeign (Message.tool_result m ∷ ms) model f = downgrade_all-IsForeign ms model f
downgrade_all-IsForeign (Message.assistant m ∷ ms) model f =
    (f.0, downgrade_all-IsForeign ms model f.1)

answered-downgrade_all :
    (id : String) (ms : List Message) → answered id (downgrade_all ms) ≡ answered id ms
unfolding downgrade_all downgrade_message
answered-downgrade_all id [] = refl
answered-downgrade_all id (Message.user m ∷ ms) = refl
answered-downgrade_all id (Message.tool_result m ∷ ms) =
    ap (λ b. m.tool_call_id =ₛ id || b) (answered-downgrade_all id ms)
answered-downgrade_all id (Message.assistant m ∷ ms) = refl

downgrade_all-IsSettled : (ms : List Message) → IsSettled ms → IsSettled (downgrade_all ms)
unfolding downgrade_all downgrade_message
downgrade_all-IsSettled [] w = tt
downgrade_all-IsSettled (Message.user m ∷ ms) w = downgrade_all-IsSettled ms w
downgrade_all-IsSettled (Message.tool_result m ∷ ms) w = downgrade_all-IsSettled ms w
downgrade_all-IsSettled (Message.assistant m ∷ ms) w =
    (w.0, λ id h. rw answered-downgrade_all (w.1 id h), downgrade_all-IsSettled ms w.2)

pub downgrade-IsForeign :
    (ms : List Message) (model : Model)
    → IsForeign model ms
    → IsForeign model (downgrade_unsupported_images ms model)
unfolding downgrade_unsupported_images
downgrade-IsForeign ms model f = elim (Bool-cases (supports_image_input model)) [
  | inl vision ↦ rw vision f
  | inr blind ↦ rw blind (downgrade_all-IsForeign ms model f)
]

pub downgrade-IsSettled :
    (ms : List Message) (model : Model)
    → IsSettled ms
    → IsSettled (downgrade_unsupported_images ms model)
unfolding downgrade_unsupported_images
downgrade-IsSettled ms model w = elim (Bool-cases (supports_image_input model)) [
  | inl vision ↦ rw vision w
  | inr blind ↦ rw blind (downgrade_all-IsSettled ms w)
]

downgrade_user-plain : (c : UserContent) → (downgrade_user c).plain ≡ c.plain
unfolding downgrade_user
downgrade_user-plain c = elim (Option-cases c.plain) [ inl e ↦ rw e refl | inr (v, e) ↦ rw e refl ]

downgrade_all-IsHandedOff :
    (h : String → String) (ms ns : List Message) (ids : List String)
    → IsHandedOff h ids (downgrade_all ms) ns
    → IsHandedOff h ids ms ns
unfolding downgrade_all downgrade_message
downgrade_all-IsHandedOff h [] ns ids r = r
downgrade_all-IsHandedOff h (Message.user m ∷ ms) (Message.user n ∷ ns) ids r =
    (r.0 ∙ downgrade_user-plain m.content, r.1, downgrade_all-IsHandedOff h ms ns ids r.2)
downgrade_all-IsHandedOff h (Message.tool_result m ∷ ms) (Message.tool_result n ∷ ns) ids r =
    (r.0, r.1, r.2, r.3, downgrade_all-IsHandedOff h ms ns ids r.4)
downgrade_all-IsHandedOff h (Message.assistant m ∷ ms) (Message.assistant n ∷ ns) ids r =
    (r.0, r.1, r.2, downgrade_all-IsHandedOff h ms ns _ r.3)
downgrade_all-IsHandedOff h (Message.user m ∷ ms) [] ids r = r
downgrade_all-IsHandedOff h (Message.user m ∷ ms) (Message.tool_result n ∷ ns) ids r = r
downgrade_all-IsHandedOff h (Message.user m ∷ ms) (Message.assistant n ∷ ns) ids r = r
downgrade_all-IsHandedOff h (Message.tool_result m ∷ ms) [] ids r = r
downgrade_all-IsHandedOff h (Message.tool_result m ∷ ms) (Message.user n ∷ ns) ids r = r
downgrade_all-IsHandedOff h (Message.tool_result m ∷ ms) (Message.assistant n ∷ ns) ids r = r
downgrade_all-IsHandedOff h (Message.assistant m ∷ ms) [] ids r = r
downgrade_all-IsHandedOff h (Message.assistant m ∷ ms) (Message.user n ∷ ns) ids r = r
downgrade_all-IsHandedOff h (Message.assistant m ∷ ms) (Message.tool_result n ∷ ns) ids r = r

pub downgrade-IsHandedOff :
    (h : String → String) (ids : List String) (ms ns : List Message) (model : Model)
    → IsHandedOff h ids (downgrade_unsupported_images ms model) ns
    → IsHandedOff h ids ms ns
unfolding downgrade_unsupported_images
downgrade-IsHandedOff h ids ms ns model r = elim (Bool-cases (supports_image_input model)) [
  | inl vision ↦ rw vision at r
  | inr blind ↦ downgrade_all-IsHandedOff h ms ns ids (rw blind at r)
]
