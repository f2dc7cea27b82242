-- ===== src/Transform.antt =====
-- ai/apis/transform.go: the conversation is normalised before it is replayed against a model.
pub mod Normalize
pub mod Images
pub mod Blocks
pub mod Orphans
pub mod Pipeline
