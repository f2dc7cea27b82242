-- ===== src/OpenAi.antt =====
-- ai/apis/openaicompletions/openaicompletions.go: the adapter of the OpenAI chat completions protocol.
pub mod Wire
pub mod Blocks
pub mod Decode
pub mod Replay
pub mod Run
pub mod Levels
pub mod Thinking
pub mod Message
pub mod Convert
pub mod Caching
pub mod Request
pub mod Compat
pub mod Sent
