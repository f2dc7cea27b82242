-- ===== src/Transform/Blocks/Laws.antt =====
-- What `transformOne` leaves of a message when it is replayed against `model`.
use kern_proxy.Base.{
  ◌≡◌, refl, Bool, true, false, not, ◌||◌, Option, none, some, List, [], ◌∷◌, String, ◌=ₛ◌, arith,
  items, All, All-append, Bool-cases, inl, inr,
}
use kern_proxy.Messages.{
  ThinkingContent, ToolCall, ToolResultMessage, AssistantPart, AssistantMessage, Message, Model,
}
use kern_proxy.Transform.Images.Shown.{IsShown}
use kern_proxy.Transform.Blocks.{
  IdMap, Normalizer, is_blank, transform_thinking, rename_call, transform_call,
  transform_assistant_block, transform_blocks, is_same_model, remap_result, lookup_id,
  transform_one, transform_all,
}

-- A thinking block that may go back to the model that wrote it.
abbrev pub IsReplayable : ThinkingContent → Type 0
IsReplayable b =
    ((b.redacted || not (b.thinking_signature =ₛ "")) || not (is_blank b.thinking)) ≡ true

-- What may stand in a turn, by whether the model to be asked is the one that wrote it: no
-- thinking and no signature of another model.
abbrev pub IsPortable : Bool → AssistantPart → Type 0
IsPortable same (AssistantPart.text t) = (same ≡ false → t.text_signature ≡ "")
IsPortable same (AssistantPart.thinking b) = (same ≡ true) × IsReplayable b
IsPortable same (AssistantPart.tool_call c) = (same ≡ false → c.thought_signature ≡ "")

thinking-IsPortable :
    (b : ThinkingContent) (same : Bool) → All (IsPortable same) (transform_thinking b same)
unfolding transform_thinking
thinking-IsPortable b same = ground arith

call-IsPortable :
    (b : ToolCall) (model : Model) (source : AssistantMessage) (same : Bool) (ids : IdMap)
    (f : Option Normalizer)
    → IsPortable same (transform_call b model source same ids f).0
unfolding transform_call rename_call
call-IsPortable b model source true ids f = λ e. cc
call-IsPortable b model source false ids none = λ e. refl
call-IsPortable b model source false ids (some f) =
    elim (Bool-cases (f b.id model source =ₛ b.id)) [
      | inl same ↦ rw same (λ e. refl)
      | inr renamed ↦ rw renamed (λ e. refl)
    ]

block-IsPortable :
    (b : AssistantPart) (model : Model) (source : AssistantMessage) (same : Bool) (ids : IdMap)
    (f : Option Normalizer)
    → All (IsPortable same) (transform_assistant_block b model source same ids f).0
unfolding transform_assistant_block
block-IsPortable (AssistantPart.text t) model source true ids f = (λ e. cc, tt)
block-IsPortable (AssistantPart.text t) model source false ids f = (λ e. refl, tt)
block-IsPortable (AssistantPart.thinking b) model source same ids f = thinking-IsPortable b same
block-IsPortable (AssistantPart.tool_call c) model source same ids f =
    (call-IsPortable c model source same ids f, tt)

pub blocks-IsPortable :
    (bs : List AssistantPart) (model : Model) (source : AssistantMessage) (same : Bool)
    (ids : IdMap) (f : Option Normalizer)
    → All (IsPortable same) (transform_blocks bs model source same ids f).0
unfolding transform_blocks
blocks-IsPortable [] model source same ids f = tt
blocks-IsPortable (b ∷ bs) model source same ids f =
    All-append (IsPortable same) _ _ (block-IsPortable b model source same ids f)
      (blocks-IsPortable bs model source same _ f)

-- The same model is recognised after the transformation, and the content is not nil.
abbrev pub IsCarried : Model → Message → Type 0
IsCarried model (Message.user m) = Unit
IsCarried model (Message.tool_result m) = Unit
IsCarried model (Message.assistant m) =
    (bs : List AssistantPart) × (m.content ≡ some bs) × All (IsPortable (is_same_model m model)) bs

pub one-IsCarried :
    (m : Message) (model : Model) (ids : IdMap) (f : Option Normalizer)
    → IsCarried model (transform_one m model ids f).0
unfolding transform_one
one-IsCarried (Message.user m) model ids f = tt
one-IsCarried (Message.tool_result m) model ids f = tt
one-IsCarried (Message.assistant m) model ids f =
    (_, refl, blocks-IsPortable (items m.content) model m (is_same_model m model) ids f)

pub transform_all-IsCarried :
    (ms : List Message) (model : Model) (ids : IdMap) (f : Option Normalizer)
    → All (IsCarried model) (transform_all ms model ids f)
unfolding transform_all
transform_all-IsCarried [] model ids f = tt
transform_all-IsCarried (m ∷ ms) model ids f =
    (one-IsCarried m model ids f, transform_all-IsCarried ms model _ f)

remap_result-content :
    (m : ToolResultMessage) (found : Option String) → (remap_result m found).content ≡ m.content
unfolding remap_result
remap_result-content m none = refl
remap_result-content m (some new) = ground arith

IsShown-transform_one :
    (m : Message) (model : Model) (ids : IdMap) (f : Option Normalizer) (vision : Bool)
    → IsShown vision m
    → IsShown vision (transform_one m model ids f).0
unfolding transform_one
IsShown-transform_one (Message.user m) model ids f vision h = h
IsShown-transform_one (Message.tool_result m) model ids f vision h =
    rw (remap_result-content m (lookup_id m.tool_call_id ids)) h
IsShown-transform_one (Message.assistant m) model ids f vision h = tt

-- The third pass leaves the content of user messages and of tool results alone.
pub IsShown-transform_all :
    (ms : List Message) (model : Model) (ids : IdMap) (f : Option Normalizer) (vision : Bool)
    → All (IsShown vision) ms
    → All (IsShown vision) (transform_all ms model ids f)
unfolding transform_all
IsShown-transform_all [] model ids f vision h = tt
IsShown-transform_all (m ∷ ms) model ids f vision h = (
  IsShown-transform_one m model ids f vision h.0,
  IsShown-transform_all ms model (transform_one m model ids f).1 f vision h.1,
)
