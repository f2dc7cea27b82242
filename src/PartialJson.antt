-- ===== src/PartialJson.antt =====
-- ai/internal/partialjson: tool-call arguments that are still being streamed.
pub mod Repair
pub mod Text
pub mod Parse
