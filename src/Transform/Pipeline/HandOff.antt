-- ===== src/Transform/Pipeline/HandOff.antt =====
-- `TransformMessages` on a conversation that is handed off to another model.
use kern_proxy.Base.{ℕ, refl, String, List, []}
use kern_proxy.Base.Int.{ℤ}
use kern_proxy.Messages.{Message, Model}
use kern_proxy.Transform.Normalize.{normalize_nil_content}
use kern_proxy.Transform.Normalize.Turns.{
  normalize-IsForeign, normalize-IsSettled, normalize-IsHandedOff,
}
use kern_proxy.Transform.Images.{downgrade_unsupported_images}
use kern_proxy.Transform.Images.Turns.{
  downgrade-IsForeign, downgrade-IsSettled, downgrade-IsHandedOff,
}
use kern_proxy.Transform.Blocks.{lookup_id}
use kern_proxy.Transform.Blocks.Renamed.{IsForeign, by_id, insert-transform_all}
use kern_proxy.Transform.Blocks.Handed.{IsHandedOff, transform_all-IsHandedOff}
use kern_proxy.Transform.Orphans.Settled.{IsSettled}
use kern_proxy.Transform.Pipeline.{transform_messages}

-- A settled conversation (no failed turn, every call answered before the next turn) is handed off to a
-- model that wrote none of its turns, with a normaliser that looks at the id alone. Then
-- `TransformMessages` adds no message and drops none, at any clock: each stands at its place and is of its
-- kind. A turn has its calls with their names and arguments, each under the id that the normaliser gives;
-- a result behind a call with its id gets the same new id, and any other result keeps its own.
pub transform-hand_off :
    (now : ℕ → ℤ) (h : String → String) (ms : List Message) (model : Model)
    → IsForeign model ms
    → IsSettled ms
    → IsHandedOff h [] ms (transform_messages now ms model (by_id h))
unfolding transform_messages
transform-hand_off now h ms model f w =
    let plain = normalize_nil_content ms in
    let shown = downgrade_unsupported_images plain model in
    let foreign = downgrade-IsForeign plain model (normalize-IsForeign ms model f) in
    rw
      (insert-transform_all now h shown model foreign
        (downgrade-IsSettled plain model (normalize-IsSettled ms w)))
      (normalize-IsHandedOff h ms _ [] (
        downgrade-IsHandedOff h [] plain _ model
          (transform_all-IsHandedOff h shown model [] [] (λ k. unfold lookup_id in refl) foreign)))
