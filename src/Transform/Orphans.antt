-- ===== src/Transform/Orphans.antt =====
-- `insertOrphanToolResults` of ai/apis/transform.go. The loop's result slice is what it has
-- appended so far; `now n` is the clock read while the message at place `n` of it is made.
pub mod Fill
pub mod Settled
pub mod Kept
use kern_proxy.Base.{
  ℕ, ◌+◌, ◌≡◌, refl, Bool, true, false, not, ◌&&◌, ◌||◌, Option, none, some, List, [], ◌∷◌, ◌++◌,
  String, ◌=ₛ◌, arith, if◌then◌else◌, items, length,
}
use kern_proxy.Base.Int.{ℤ}
use kern_proxy.Messages.{
  TextContent, ToolCall, AssistantPart, UserPart, AssistantMessage, UserMessage, ToolResultMessage,
  Message, StopReason,
}

unfoldable pub contains : List String → String → Bool
contains [] id = false
contains (x ∷ xs) id = x =ₛ id || contains xs id

abbrev pub no_result : ToolCall → ℤ → ToolResultMessage
no_result call now = record {
  tool_call_id = call.id;
  tool_name = call.name;
  content = some (UserPart.text (record { text = "No result provided"; text_signature = "" }) ∷ []);
  details = none;
  is_error = true;
  timestamp = now;
}

-- The loop of `flush`.
unfoldable pub flush : (ℕ → ℤ) → List String → List ToolCall → List Message → List Message
unfolding contains
flush now existing [] result = result
flush now existing (call ∷ calls) result = flush now existing calls (
    if contains existing call.id
    then result
    else result ++ Message.tool_result (no_result call (now (length result))) ∷ [])

unfoldable pub tool_calls : List AssistantPart → List ToolCall
tool_calls [] = []
tool_calls (AssistantPart.tool_call call ∷ bs) = call ∷ tool_calls bs
tool_calls (AssistantPart.text _ ∷ bs) = tool_calls bs
tool_calls (AssistantPart.thinking _ ∷ bs) = tool_calls bs

abbrev pub is_failed : StopReason → Bool
is_failed StopReason.error = true
is_failed StopReason.aborted = true
is_failed _ = false

-- The loop's variables.
pub record State : Type 0 where
  pub result : List Message
  pub pending : List ToolCall
  pub existing : List String

-- `flush()` as the loop calls it.
unfoldable pub flushed : (ℕ → ℤ) → State → State
unfolding flush
flushed now s = record {
  result = flush now s.existing s.pending s.result;
  pending = [];
  existing = [];
}

abbrev pub append : State → Message → State
append s m = record s { result = s.result ++ m ∷ [] }

-- `pendingToolCalls = toolCalls` and the reset, if there are calls.
abbrev pub expect : State → List ToolCall → State
expect s [] = s
expect s (c ∷ cs) = record s { pending = c ∷ cs; existing = [] }

unfoldable pub visit : (ℕ → ℤ) → State → Message → State
unfolding flushed tool_calls
visit now s (Message.assistant m) =
    if is_failed m.stop_reason
    then flushed now s
    else append (expect (flushed now s) (tool_calls (items m.content))) (Message.assistant m)
visit now s (Message.tool_result m) =
    append (record s { existing = m.tool_call_id ∷ s.existing }) (Message.tool_result m)
visit now s (Message.user m) = append (flushed now s) (Message.user m)

unfoldable pub visit_all : (ℕ → ℤ) → State → List Message → State
unfolding visit
visit_all now s [] = flushed now s
visit_all now s (m ∷ ms) = visit_all now (visit now s m) ms

unfoldable pub insert_orphan_tool_results : (ℕ → ℤ) → List Message → List Message
unfolding visit_all
insert_orphan_tool_results now ms =
    (visit_all now (record { result = []; pending = []; existing = [] }) ms).result
