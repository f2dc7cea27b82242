-- ===== src/OpenAi/Decode.antt =====
-- `decodeEvents` of ai/apis/openaicompletions/openaicompletions.go: the chunks of the server, one after the other, and
-- what is pushed behind the last. `none` as a result is a panic. Costs are left out.
use kern_proxy.Base.{
  ℕ, Bool, true, false, not, ◌&&◌, Option, none, some, List, [], ◌∷◌, String, ◌=ₛ◌, ◌+ₛ◌,
  if◌then◌else◌, get_elem?, set,
}
use kern_proxy.Base.Bytes.{codes, eq_bytes}
use kern_proxy.Messages.{StopReason, ToolCall}
use kern_proxy.Stream.{Event}
use kern_proxy.Sse
use kern_proxy.Anthropic.Blocks.{add_text, add_thinking, text_of, thinking_of}
use kern_proxy.OpenAi.Wire.{
  RawUsage, RawFunction, RawToolCall, RawDelta, RawDetail, RawChoice, RawChunk, Json, is_encrypted,
  reasoning_field, parse_chunk_usage, map_stop_reason,
}
use kern_proxy.OpenAi.Blocks.{
  ToolCallBlock, Decoding, content_of, emit, and_then, find_id, ensure_text_block,
  ensure_thinking_block, edit, on_call, tool_content, signed, ensure_tool_call_block,
}

abbrev pub add_content : Decoding × ℕ → String → Option Decoding
add_content (s, i) d = and_then (edit s i (add_text d)) (λ t. some (emit t (Event.text_delta i d)))

-- `delta.Content`
unfoldable pub content_delta : Decoding → Option String → Option Decoding
content_delta s none = some s
content_delta s (some d) = if d =ₛ "" then some s else add_content (ensure_text_block s) d

abbrev pub add_reasoning : Decoding × ℕ → String → Option Decoding
add_reasoning (s, i) d =
    and_then (edit s i (add_thinking d)) (λ t. some (emit t (Event.thinking_delta i d)))

abbrev pub is_other_field : Decoding → String → Option ℕ → Bool
is_other_field s field none = false
is_other_field s field (some i) = not (s.thinking_field =ₛ field)

-- The reasoning of a delta, of which only the first field is used.
unfoldable pub reasoning_delta : Decoding → String × String → Option Decoding
reasoning_delta s (field, text) =
    if field =ₛ ""
    then some s
    else if is_other_field s field s.thinking_block
    then some s
    else add_reasoning (ensure_thinking_block s field) text

abbrev pub arguments_of : Option RawFunction → String
arguments_of none = ""
arguments_of (some f) = f.arguments

abbrev pub called : Option RawFunction → ToolCall → ToolCall
called none c = c
called (some f) c = record c {
  name = if (c.name =ₛ "") && not (f.name =ₛ "") then f.name else c.name;
}

abbrev pub identified : RawToolCall → ToolCall → ToolCall
identified raw c = record c { id = if (c.id =ₛ "") && not (raw.id =ₛ "") then raw.id else c.id }

-- `block.partialArgs.WriteString`
abbrev pub write_args : Decoding → ℕ → ToolCallBlock → String → Decoding
write_args s k b d = record s {
  tool_order = set s.tool_order k (record b { partial_args = b.partial_args +ₛ d });
}

abbrev pub change_call :
    Json → Decoding → RawToolCall → ℕ → ToolCallBlock → String → Option Decoding
change_call j s raw k b d =
    if d =ₛ ""
    then edit s b.content_index (on_call (λ c. called raw.function (identified raw c)))
    else edit (write_args s k b d) b.content_index (
        on_call (λ c. record (called raw.function (identified raw c)) {
          arguments = some (j.object (b.partial_args +ₛ d));
        }))

abbrev pub tool_delta_at : Json → RawToolCall → Decoding → ℕ → ToolCallBlock → Option Decoding
tool_delta_at j raw s k b =
    let d = arguments_of raw.function in
    and_then (change_call j s raw k b d)
      (λ t. some (emit t (Event.tool_call_delta b.content_index d)))

abbrev pub tool_delta_in : Json → RawToolCall → Decoding × ℕ → Option Decoding
tool_delta_in j raw (s, k) = and_then (get_elem? s.tool_order k) (tool_delta_at j raw s k)

-- A round of the loop over `delta.ToolCalls`.
unfoldable pub tool_delta : Json → Decoding → RawToolCall → Option Decoding
tool_delta j s raw = and_then (ensure_tool_call_block s raw) (tool_delta_in j raw)

unfoldable pub tool_deltas : Json → List RawToolCall → Decoding → Option Decoding
tool_deltas j [] s = some s
tool_deltas j (raw ∷ raws) s = and_then (tool_delta j s raw) (λ t. tool_deltas j raws t)

abbrev pub sign_at : Decoding → ℕ → String → Option Decoding
sign_at s k signature =
    and_then (get_elem? s.tool_order k) (λ b. edit s b.content_index (on_call (signed signature)))

abbrev pub sign_or_keep : Decoding → String → String → Option ℕ → Option Decoding
sign_or_keep s id signature (some k) = sign_at s k signature
sign_or_keep s id signature none = some (record s { pending = (id, signature) ∷ s.pending })

abbrev pub marshalled_detail : Decoding → String → Option String → Option Decoding
marshalled_detail s id none = some s
marshalled_detail s id (some signature) = sign_or_keep s id signature (find_id id s.tool_by_id)

-- A round of the loop over `delta.ReasoningDetails`, on what `json.Unmarshal` gave.
unfoldable pub reasoning_detail : Json → Decoding → Option RawDetail → Option Decoding
reasoning_detail j s none = some s
reasoning_detail j s (some d) =
    if is_encrypted d then marshalled_detail s d.id (j.marshal_detail d) else some s

unfoldable pub reasoning_details : Json → List String → Decoding → Option Decoding
reasoning_details j [] s = some s
reasoning_details j (raw ∷ raws) s =
    and_then (reasoning_detail j s (j.unmarshal_detail raw)) (λ t. reasoning_details j raws t)

-- `choice.Delta`
unfoldable pub delta : Json → Option RawDelta → Decoding → Option Decoding
delta j none s = some s
delta j (some d) s = and_then (content_delta s d.content) (λ t.
    and_then (reasoning_delta t (reasoning_field d)) (λ u.
      and_then (tool_deltas j d.tool_calls u) (λ v. reasoning_details j d.reasoning_details v)))

abbrev pub with_usage : Option RawUsage → Decoding → Decoding
with_usage none s = s
with_usage (some raw) s = record s { output = record s.output { usage = parse_chunk_usage raw } }

abbrev pub reason_or : StopReason × String → Decoding → Decoding
reason_or (reason, message) s = record s {
  output = record s.output {
    stop_reason = reason;
    error_message = if message =ₛ "" then s.output.error_message else message;
  };
  has_finish_reason = true;
}

abbrev pub with_finish_reason : Option String → Decoding → Decoding
with_finish_reason none s = s
with_finish_reason (some reason) s = reason_or (map_stop_reason reason) s

-- The usage of the choice counts where the chunk has none.
abbrev pub choice_usage : Option RawUsage → Option RawUsage → Option RawUsage
choice_usage none own = own
choice_usage (some _) own = none

unfoldable pub chunk : Json → Decoding → RawChunk → List RawChoice → Option Decoding
chunk j s raw [] = some (with_usage raw.usage s)
chunk j s raw (c ∷ cs) = delta j c.delta (
    with_finish_reason c.finish_reason
      (with_usage (choice_usage raw.usage c.usage) (with_usage raw.usage s)))

abbrev pub chunk_or_skip : Json → Decoding → Option RawChunk → Option Decoding
chunk_or_skip j s none = some s
chunk_or_skip j s (some raw) = chunk j s raw raw.choices

-- A round of the loop, on the event that `reader.Next()` returned.
unfoldable pub decode_event : Json → Decoding → Sse.Event → Option Decoding
decode_event j s ev =
    if eq_bytes ev.payload (codes "[DONE]")
    then some s
    else chunk_or_skip j s (j.unmarshal_chunk ev.payload)

unfoldable pub end_text : Option ℕ → Decoding → Option Decoding
end_text none s = some s
end_text (some i) s =
    and_then (text_of (get_elem? (content_of s) i)) (λ t. some (emit s (Event.text_end i t)))

unfoldable pub end_thinking : Option ℕ → Decoding → Option Decoding
end_thinking none s = some s
end_thinking (some i) s =
    and_then (thinking_of (get_elem? (content_of s) i))
      (λ t. some (emit s (Event.thinking_end i t)))

abbrev pub finished : Json → ToolCallBlock → ToolCall → ToolCall
finished j b c = record c { arguments = some (j.object b.partial_args) }

-- The loop over `toolOrder`.
unfoldable pub end_tools : Json → List ToolCallBlock → Decoding → Option Decoding
end_tools j [] s = some s
end_tools j (b ∷ bs) s = and_then (tool_content s b) (λ c.
    and_then (edit s b.content_index (on_call (finished j b)))
      (λ t. end_tools j bs (emit t (Event.tool_call_end b.content_index (finished j b c)))))

-- The variables where `decodeEvents` returns, and its error.
pub record Returned : Type 0 where
  pub state : Decoding
  pub error : Option String

-- Behind the loop.
unfoldable pub finish : Json → Decoding → Option Returned
finish j s = and_then (end_text s.text_block s) (λ t.
    and_then (end_thinking t.thinking_block t) (λ u. and_then (end_tools j u.tool_order u) (λ v.
      some (record {
        state = v;
        error = if v.has_finish_reason then none else some "Stream ended without finish_reason";
      }))))

abbrev pub ended : Json → Option String → Decoding → Option Returned
ended j none s = finish j s
ended j (some e) s = some (record { state = s; error = some e })

-- `decodeEvents`, on the events that the reader returns until `io.EOF`, or until an error.
unfoldable pub decode_events : Json → Option String → List Sse.Event → Decoding → Option Returned
decode_events j ending [] s = ended j ending s
decode_events j ending (ev ∷ rest) s =
    and_then (decode_event j s ev) (λ t. decode_events j ending rest t)
