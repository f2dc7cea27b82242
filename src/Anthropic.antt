-- ===== src/Anthropic.antt =====
-- ai/apis/anthropic/anthropic.go: the adapter of the Anthropic messages protocol.
pub mod Names
pub mod Wire
pub mod Blocks
pub mod Decode
pub mod Replay
pub mod Run
pub mod Convert
pub mod Params
pub mod Request
pub mod Sent
