-- ===== src/Tests.antt =====
-- The theorems at concrete inputs, and runs of the code.
mod Conversation
mod Wire
mod Adapter
mod Completions
mod Requests
mod Queue
mod Limits
mod Http
mod Login
mod Collection
mod Store
mod Auth
