-- ===== src/Stream.antt =====
-- ai/events.go and ai/stream.go: the events of an assistant turn, and the queue that carries them
-- from a producer to one consumer. Each method holds the mutex while it runs, so it is one step on
-- the state. A pointer to a message may be nil.
pub mod Pump
use kern_proxy.Base.{
  ℕ, Bool, true, false, Option, none, some, List, [], ◌∷◌, ◌++◌, String, if◌then◌else◌,
}
use kern_proxy.Messages.{AssistantMessage, StopReason, ToolCall}

abbrev pub Pointer : Type 0
Pointer = Option AssistantMessage

-- The numbers are content indices, the last field of the first ten is `Partial`.
pub data Event : Type 0 where
  start : Pointer → Event
  text_start : ℕ → Pointer → Event
  text_delta : ℕ → String → Pointer → Event
  text_end : ℕ → String → Pointer → Event
  thinking_start : ℕ → Pointer → Event
  thinking_delta : ℕ → String → Pointer → Event
  thinking_end : ℕ → String → Pointer → Event
  tool_call_start : ℕ → Pointer → Event
  tool_call_delta : ℕ → String → Pointer → Event
  tool_call_end : ℕ → ToolCall → Pointer → Event
  done : StopReason → Pointer → Event
  error : StopReason → Pointer → Event

-- `IsTerminalEvent`
unfoldable pub is_terminal_event : Event → Bool
is_terminal_event (Event.done _ _) = true
is_terminal_event (Event.error _ _) = true
is_terminal_event _ = false

-- `EventResult`
unfoldable pub event_result : Event → Pointer
event_result (Event.done _ m) = m
event_result (Event.error _ m) = m
event_result _ = none

-- `resultCh` is closed exactly when `done` is set.
pub record Stream : Type 0 where
  pub queue : List Event
  pub done : Bool
  pub result : Pointer

-- `NewStream`
abbrev pub new_stream : Stream
new_stream = record { queue = []; done = false; result = none }

-- `Push`
unfoldable pub push : Stream → Event → Stream
unfolding is_terminal_event event_result
push s ev =
    if s.done
    then s
    else if is_terminal_event ev
    then record { queue = s.queue ++ ev ∷ []; done = true; result = event_result ev }
    else record s { queue = s.queue ++ ev ∷ [] }

-- `End`
unfoldable pub end_stream : Stream → Pointer → Stream
end_stream s result = if s.done then s else record s { done = true; result = result }

-- A round of the loop of `next`: it pops an event, gives up, or waits on the condition variable.
pub data Popped : Type 0 where
  event : Event → Stream → Popped
  no_more : Popped
  waits : Popped

abbrev pop : List Event → Stream → Popped
pop (ev ∷ rest) s = Popped.event ev (record s { queue = rest })
pop [] s = if s.done then Popped.no_more else Popped.waits

unfoldable pub next : Bool → Stream → Popped
next cancelled s = if cancelled then Popped.no_more else pop s.queue s

-- What `Result` returns. Where the channel and the context are both ready, `select` takes either
-- case (`first`).
pub data Answer : Type 0 where
  waits : Answer
  context_error : Answer
  ended_without_result : Answer
  message : AssistantMessage → Answer

abbrev pub answer_of : Pointer → Answer
answer_of none = Answer.ended_without_result
answer_of (some m) = Answer.message m

unfoldable pub result : Bool → Bool → Stream → Answer
result first cancelled s =
    if s.done
    then if cancelled
      then if first then answer_of s.result else Answer.context_error
      else answer_of s.result
    else if cancelled
    then Answer.context_error
    else Answer.waits
