-- ===== src/Transform/Normalize/Turns.antt =====
-- `normalizeNilContent` changes no turn's model, calls or ids.
use kern_proxy.Base.{
  ◌≡◌, ◌∙◌, ◌&&◌, Bool-cases, inl, inr, refl, ap, ◌||◌, none, some, List, [], ◌∷◌, String, ◌=ₛ◌,
  items,
}
use kern_proxy.Messages.{Slice, UserContent, Message, Model}
use kern_proxy.Transform.Normalize.{
  is_nil, or_empty, normalize_user, normalize_message, normalize_nil_content,
}
use kern_proxy.Transform.Blocks.Renamed.{IsForeign}
use kern_proxy.Transform.Blocks.Handed.{IsHandedOff}
use kern_proxy.Transform.Blocks.{is_same_model}
use kern_proxy.Transform.Orphans.Settled.{answered, IsSettled}

items-or_empty : {A : Type 0} (s : Slice A) → items (or_empty s) ≡ items s
items-or_empty none = refl
items-or_empty (some xs) = refl

pub normalize-IsForeign :
    (ms : List Message) (model : Model)
    → IsForeign model ms
    → IsForeign model (normalize_nil_content ms)
unfolding normalize_nil_content normalize_message is_same_model
normalize-IsForeign [] model f = tt
normalize-IsForeign (Message.user m ∷ ms) model f = normalize-IsForeign ms model f
normalize-IsForeign (Message.tool_result m ∷ ms) model f = normalize-IsForeign ms model f
normalize-IsForeign (Message.assistant m ∷ ms) model f = (f.0, normalize-IsForeign ms model f.1)

answered-normalize :
    (id : String) (ms : List Message) → answered id (normalize_nil_content ms) ≡ answered id ms
unfolding normalize_nil_content normalize_message
answered-normalize id [] = refl
answered-normalize id (Message.user m ∷ ms) = refl
answered-normalize id (Message.tool_result m ∷ ms) =
    ap (λ b. m.tool_call_id =ₛ id || b) (answered-normalize id ms)
answered-normalize id (Message.assistant m ∷ ms) = refl

pub normalize-IsSettled : (ms : List Message) → IsSettled ms → IsSettled (normalize_nil_content ms)
unfolding normalize_nil_content normalize_message
normalize-IsSettled [] w = tt
normalize-IsSettled (Message.user m ∷ ms) w = normalize-IsSettled ms w
normalize-IsSettled (Message.tool_result m ∷ ms) w = normalize-IsSettled ms w
normalize-IsSettled (Message.assistant m ∷ ms) w = (
  w.0,
  rw (items-or_empty m.content) (λ id h. rw answered-normalize (w.1 id h)),
  normalize-IsSettled ms w.2,
)

normalize_user-plain : (c : UserContent) → (normalize_user c).plain ≡ c.plain
unfolding normalize_user
normalize_user-plain c = elim (Bool-cases (is_nil c.plain && is_nil c.blocks)) [
  | inl e ↦ rw e refl
  | inr e ↦ rw e refl
]

-- What is handed off from the result is handed off from the conversation.
pub normalize-IsHandedOff :
    (h : String → String) (ms ns : List Message) (ids : List String)
    → IsHandedOff h ids (normalize_nil_content ms) ns
    → IsHandedOff h ids ms ns
unfolding normalize_nil_content normalize_message
normalize-IsHandedOff h [] ns ids r = r
normalize-IsHandedOff h (Message.user m ∷ ms) (Message.user n ∷ ns) ids r =
    (r.0 ∙ normalize_user-plain m.content, r.1, normalize-IsHandedOff h ms ns ids r.2)
normalize-IsHandedOff h (Message.tool_result m ∷ ms) (Message.tool_result n ∷ ns) ids r =
    (r.0, r.1, r.2, r.3, normalize-IsHandedOff h ms ns ids r.4)
normalize-IsHandedOff h (Message.assistant m ∷ ms) (Message.assistant n ∷ ns) ids r =
    let same = items-or_empty m.content in
    (rw (← same) r.0, r.1, r.2, rw (← same) (normalize-IsHandedOff h ms ns _ r.3))
normalize-IsHandedOff h (Message.user m ∷ ms) [] ids r = r
normalize-IsHandedOff h (Message.user m ∷ ms) (Message.tool_result n ∷ ns) ids r = r
normalize-IsHandedOff h (Message.user m ∷ ms) (Message.assistant n ∷ ns) ids r = r
normalize-IsHandedOff h (Message.tool_result m ∷ ms) [] ids r = r
normalize-IsHandedOff h (Message.tool_result m ∷ ms) (Message.user n ∷ ns) ids r = r
normalize-IsHandedOff h (Message.tool_result m ∷ ms) (Message.assistant n ∷ ns) ids r = r
normalize-IsHandedOff h (Message.assistant m ∷ ms) [] ids r = r
normalize-IsHandedOff h (Message.assistant m ∷ ms) (Message.user n ∷ ns) ids r = r
normalize-IsHandedOff h (Message.assistant m ∷ ms) (Message.tool_result n ∷ ns) ids r = r
