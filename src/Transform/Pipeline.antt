-- ===== src/Transform/Pipeline.antt =====
-- `TransformMessages` of ai/apis/transform.go: the passes, one after the other.
pub mod Ready
pub mod HandOff
use kern_proxy.Base.{ℕ, Option, List, []}
use kern_proxy.Base.Int.{ℤ}
use kern_proxy.Messages.{Message, Model}
use kern_proxy.Transform.Normalize.{normalize_nil_content}
use kern_proxy.Transform.Images.{downgrade_unsupported_images}
use kern_proxy.Transform.Blocks.{Normalizer, transform_all}
use kern_proxy.Transform.Orphans.{insert_orphan_tool_results}

unfoldable pub transform_messages :
    (ℕ → ℤ) → List Message → Model → Option Normalizer → List Message
transform_messages now ms model f =
    insert_orphan_tool_results now
      (transform_all (downgrade_unsupported_images (normalize_nil_content ms) model) model [] f)
