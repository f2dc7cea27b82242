-- ===== src/Anthropic/Blocks.antt =====
-- The blocks that `decodeEvents` of ai/apis/anthropic/anthropic.go assembles: its variables, and what it
-- does where a block starts, changes and stops. `out` is the stream, and a copy that `output.Clone()`
-- makes is the message at that time.
use kern_proxy.Base.{
  ℕ, suc, ◌-◌, Bool, true, false, not, Option, none, some, List, [], ◌∷◌, ◌++◌, String, ◌=ₛ◌, ◌+ₛ◌,
  if◌then◌else◌, items, length, get_elem?, set,
}
use kern_proxy.Base.Bytes.{Bytes}
use kern_proxy.Base.Int.{ℤ, eq_ℤ}
use kern_proxy.Messages.{ToolCall, AssistantPart, AssistantMessage}
use kern_proxy.Stream.{Event, Stream, push}
use kern_proxy.Anthropic.Names.{from_claude_code_name}
use kern_proxy.Anthropic.Wire.{RawStart, RawDelta, Json}

pub data Kind : Type 0 where
  text thinking tool_call : Kind

-- `blockState`
pub record BlockState : Type 0 where
  pub kind : Kind
  pub event_index : ℤ
  pub partial_json : String

-- The variables of `decodeEvents`, with `output` and `out`, which it changes.
pub record Decoding : Type 0 where
  pub out : Stream
  pub output : AssistantMessage
  pub blocks : List BlockState
  pub saw_start : Bool
  pub saw_stop : Bool

pub data Failure : Type 0 where
  read_error : String → Failure  -- of `body`
  error_event : Bytes → Failure
  unparsable : Bytes → Bytes → Failure  -- the event's name and its payload
  unhandled_stop_reason : String → Failure
  ended_early : Failure  -- `Anthropic stream ended before message_stop`

-- `panics`: an index out of range, or a type assertion that fails.
pub data Outcome : Type 0 where
  goes_on : Decoding → Outcome
  fails : Decoding → Failure → Outcome
  panics : Outcome

-- `findBlock`
unfoldable pub find_block : ℤ → List BlockState → Option (ℕ × BlockState)
find_block index [] = none
find_block index (b ∷ bs) =
    let rest = find_block index bs in
    if eq_ℤ b.event_index index
    then some (0, b)
    else elim rest [ none ↦ none | some (i, c) ↦ some (suc i, c) ]

abbrev pub content_of : Decoding → List AssistantPart
content_of s = items s.output.content

abbrev pub with_content : Decoding → List AssistantPart → Decoding
with_content s parts = record s { output = record s.output { content = some parts } }

-- `out.Push`
abbrev pub emit : Decoding → (Option AssistantMessage → Event) → Decoding
emit s ev = record s { out = push s.out (ev (some s.output)) }

-- A new block: `append` to the content and to `blocks`, then its start event.
abbrev pub open_block :
    Decoding → AssistantPart → Kind → ℤ → (ℕ → Option AssistantMessage → Event) → Decoding
open_block s part kind index ev =
    let s' = with_content s (content_of s ++ part ∷ []) in
    emit
      (record s' {
        blocks = s.blocks ++ record { kind = kind; event_index = index; partial_json = "" } ∷ [];
      })
      (ev (length (content_of s') - 1))

abbrev pub input_or_empty : Option String → String
input_or_empty none = "{}"
input_or_empty (some o) = o

abbrev pub started_call : Json → RawStart → ToolCall
started_call j raw = record {
  id = raw.id;
  name = if j.is_oauth then from_claude_code_name j.to_lower raw.name j.tools else raw.name;
  arguments = some (input_or_empty raw.input);
  thought_signature = "";
}

-- The `switch blk.ContentBlock.Type`.
unfoldable pub start_block : Json → Decoding → RawStart → Decoding
start_block j s raw =
    if raw.type =ₛ "text"
    then open_block s (AssistantPart.text (record { text = ""; text_signature = "" })) Kind.text
        raw.index Event.text_start
    else if raw.type =ₛ "thinking"
    then open_block s
        (AssistantPart.thinking
          (record { thinking = ""; thinking_signature = ""; redacted = false }))
        Kind.thinking raw.index Event.thinking_start
    else if raw.type =ₛ "redacted_thinking"
    then open_block s
        (AssistantPart.thinking (record {
          thinking = "[Reasoning redacted]";
          thinking_signature = raw.payload;
          redacted = true;
        }))
        Kind.thinking raw.index Event.thinking_start
    else if raw.type =ₛ "tool_use"
    then open_block s (AssistantPart.tool_call (started_call j raw)) Kind.tool_call raw.index
        Event.tool_call_start
    else s

-- The type assertions: `none` if the block is of another type.
abbrev pub add_text : String → AssistantPart → Option AssistantPart
add_text d (AssistantPart.text t) = some (AssistantPart.text (record t { text = t.text +ₛ d }))
add_text d _ = none

abbrev pub add_thinking : String → AssistantPart → Option AssistantPart
add_thinking d (AssistantPart.thinking t) =
    some (AssistantPart.thinking (record t { thinking = t.thinking +ₛ d }))
add_thinking d _ = none

abbrev pub add_signature : String → AssistantPart → Option AssistantPart
add_signature d (AssistantPart.thinking t) =
    some (AssistantPart.thinking (record t { thinking_signature = t.thinking_signature +ₛ d }))
add_signature d _ = none

abbrev pub set_arguments : String → AssistantPart → Option AssistantPart
set_arguments args (AssistantPart.tool_call c) =
    some (AssistantPart.tool_call (record c { arguments = some args }))
set_arguments args _ = none

-- `cur := output.Content[pos].(…)`, its change, and `output.Content[pos] = cur`.
abbrev pub edited : Decoding → ℕ → Option AssistantPart → Option Decoding
edited s i none = none
edited s i (some part) = some (with_content s (set (content_of s) i part))

abbrev pub edit : Decoding → ℕ → (AssistantPart → Option AssistantPart) → Option Decoding
edit s i change = edited s i (elim (get_elem? (content_of s) i) [ none ↦ none | some p ↦ change p ])

abbrev pub or_panic : Option Decoding → (Decoding → Decoding) → Outcome
or_panic none f = Outcome.panics
or_panic (some s) f = Outcome.goes_on (f s)

abbrev pub is_kind : Kind → Kind → Bool
is_kind Kind.text Kind.text = true
is_kind Kind.thinking Kind.thinking = true
is_kind Kind.tool_call Kind.tool_call = true
is_kind _ _ = false

-- `b.partialJSON.WriteString(d)`
abbrev pub write_json : Decoding → ℕ → BlockState → String → Decoding
write_json s i b d = record s {
  blocks = set s.blocks i (record b { partial_json = b.partial_json +ₛ d });
}

-- The `switch delta.Delta.Type`, at the block found.
unfoldable pub delta_at : Json → Decoding → RawDelta → ℕ → BlockState → Outcome
delta_at j s raw i b =
    if raw.type =ₛ "text_delta"
    then if not (is_kind b.kind Kind.text)
      then Outcome.goes_on s
      else or_panic (edit s i (add_text raw.text)) (λ t. emit t (Event.text_delta i raw.text))
    else if raw.type =ₛ "input_json_delta"
    then if not (is_kind b.kind Kind.tool_call)
      then Outcome.goes_on s
      else or_panic
          (edit (write_json s i b raw.partial_json) i
            (set_arguments (j.object (b.partial_json +ₛ raw.partial_json))))
          (λ t. emit t (Event.tool_call_delta i raw.partial_json))
    else if raw.type =ₛ "thinking_delta"
    then if not (is_kind b.kind Kind.thinking)
      then Outcome.goes_on s
      else or_panic (edit s i (add_thinking raw.thinking))
          (λ t. emit t (Event.thinking_delta i raw.thinking))
    else if raw.type =ₛ "signature_delta"
    then if not (is_kind b.kind Kind.thinking)
      then Outcome.goes_on s
      else or_panic (edit s i (add_signature raw.signature)) (λ t. t)
    else Outcome.goes_on s

abbrev pub text_of : Option AssistantPart → Option String
text_of (some (AssistantPart.text t)) = some t.text
text_of _ = none

abbrev pub thinking_of : Option AssistantPart → Option String
thinking_of (some (AssistantPart.thinking t)) = some t.thinking
thinking_of _ = none

abbrev pub call_of : Option AssistantPart → Option ToolCall
call_of (some (AssistantPart.tool_call c)) = some c
call_of _ = none

abbrev pub end_with :
    {A : Type 0} → Decoding → Option A → (A → Option AssistantMessage → Event) → Outcome
end_with s none ev = Outcome.panics
end_with s (some a) ev = Outcome.goes_on (emit s (ev a))

abbrev pub end_call : ℕ → Option Decoding → Outcome
end_call i none = Outcome.panics
end_call i (some s) = end_with s (call_of (get_elem? (content_of s) i)) (Event.tool_call_end i)

-- The `switch b.kind` of `content_block_stop`.
unfoldable pub stop_kind : Json → Decoding → ℕ → BlockState → Kind → Outcome
stop_kind j s i b Kind.text = end_with s (text_of (get_elem? (content_of s) i)) (Event.text_end i)
stop_kind j s i b Kind.thinking =
    end_with s (thinking_of (get_elem? (content_of s) i)) (Event.thinking_end i)
stop_kind j s i b Kind.tool_call = end_call i (edit s i (set_arguments (j.object b.partial_json)))

abbrev pub stop_at : Json → Decoding → ℕ → BlockState → Outcome
stop_at j s i b = stop_kind j s i b b.kind
