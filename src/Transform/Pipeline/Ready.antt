-- ===== src/Transform/Pipeline/Ready.antt =====
-- Every message of the result of `TransformMessages` is one that the target model accepts.
use kern_proxy.Base.{ℕ, Option, List, [], ◌∷◌, All}
use kern_proxy.Base.Int.{ℤ}
use kern_proxy.Messages.{Message, Model, supports_image_input}
use kern_proxy.Transform.Normalize.{normalize_nil_content}
use kern_proxy.Transform.Normalize.Laws.{normalize-HasContent}
use kern_proxy.Transform.Images.{downgrade_unsupported_images}
use kern_proxy.Transform.Images.Shown.{IsShown, downgrade-IsShown}
use kern_proxy.Transform.Blocks.{Normalizer, transform_all}
use kern_proxy.Transform.Blocks.Laws.{IsCarried, transform_all-IsCarried, IsShown-transform_all}
use kern_proxy.Transform.Orphans.Kept.{Completes, insert-Completes}
use kern_proxy.Transform.Pipeline.{transform_messages}

-- A message that `model` accepts.
abbrev pub IsReady : Model → Message → Type 0
IsReady model m = IsShown (supports_image_input model) m × IsCarried model m

All-and :
    (P Q : Message → Type 0) (ms : List Message) → All P ms → All Q ms → All (λ m. P m × Q m) ms
All-and P Q [] h k = tt
All-and P Q (m ∷ ms) h k = ((h.0, k.0), All-and P Q ms h.1 k.1)

-- The results that are put in say one text.
Completes-IsReady :
    (model : Model) {ms out : List Message}
    → Completes ms out
    → All (IsReady model) ms
    → All (IsReady model) out
Completes-IsReady model Completes.done h = tt
Completes-IsReady model (Completes.keep m c) h = (h.0, Completes-IsReady model c h.1)
Completes-IsReady model (Completes.drop m failed c) h = Completes-IsReady model c h.1
Completes-IsReady model (Completes.add call t c) h =
    (((λ e. cc, λ e. (tt, tt)), tt), Completes-IsReady model c h)

-- For every conversation, every model, every normaliser of ids (or none) and every clock, each
-- message of the result of `TransformMessages` has content that is not nil; it holds no image
-- if the model takes none; a turn of another model holds no thinking block, no text signature
-- and no thought signature; and a thinking block of the same model is redacted, or has a
-- signature, or a text that is not blank.
pub transform-IsReady :
    (now : ℕ → ℤ) (ms : List Message) (model : Model) (f : Option Normalizer)
    → All (IsReady model) (transform_messages now ms model f)
unfolding transform_messages
transform-IsReady now ms model f =
    let shown = downgrade-IsShown (normalize_nil_content ms) model (normalize-HasContent ms) in
    let before = downgrade_unsupported_images (normalize_nil_content ms) model in
    Completes-IsReady model (insert-Completes now (transform_all before model [] f)) (
      All-and _ _ _ (IsShown-transform_all before model [] f _ shown)
        (transform_all-IsCarried before model [] f))
