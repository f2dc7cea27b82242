-- ===== src/Anthropic/Decode.antt =====
-- `decodeEvents` of ai/apis/anthropic/anthropic.go: the events of the server, one after the other. Costs
-- are left out.
use kern_proxy.Base.{
  ℕ, Bool, true, not, ◌&&◌, ◌||◌, Option, none, some, List, [], ◌∷◌, String, ◌=ₛ◌, ◌+ₛ◌,
  if◌then◌else◌,
}
use kern_proxy.Base.Bytes.{Bytes, codes, eq_bytes}
use kern_proxy.Messages.{StopReason, Usage}
use kern_proxy.Sse
use kern_proxy.Anthropic.Wire.{
  RawMessageDelta, Json, decode_with_repair, with_total, apply_usage, apply_usage_delta,
  map_stop_reason,
}
use kern_proxy.Anthropic.Blocks.{
  BlockState, Decoding, Failure, Outcome, delta_at, find_block, start_block, stop_at,
}

abbrev pub with_usage : Decoding → Usage → Decoding
with_usage s u = record s { output = record s.output { usage = with_total u } }

-- `message_delta`, behind the stop reason.
abbrev pub with_reason : Decoding → StopReason × String → Decoding
with_reason s (reason, message) = record s {
  output = record s.output {
    stop_reason = reason;
    error_message = if message =ₛ "" then s.output.error_message else message;
  };
}

unfoldable pub mapped_reason :
    Decoding → RawMessageDelta → String → Option (StopReason × String) → Outcome
mapped_reason s raw reason none = Outcome.fails s (Failure.unhandled_stop_reason reason)
mapped_reason s raw reason (some r) =
    Outcome.goes_on (with_usage (with_reason s r) (apply_usage_delta s.output.usage raw.usage))

unfoldable pub given_reason : Decoding → RawMessageDelta → Option String → Outcome
given_reason s raw none =
    Outcome.goes_on (with_usage s (apply_usage_delta s.output.usage raw.usage))
given_reason s raw (some reason) =
    mapped_reason s raw reason (map_stop_reason reason raw.explanation)

abbrev pub change_message : Decoding → RawMessageDelta → Outcome
change_message s raw = given_reason s raw raw.stop_reason

-- What follows a struct that was decoded, or the error.
unfoldable pub parsed : {A : Type 0} → Sse.Event → Decoding → Option A → (A → Outcome) → Outcome
parsed ev s none f = Outcome.fails s (Failure.unparsable ev.event ev.payload)
parsed ev s (some a) f = f a

unfoldable pub at_block : Decoding → Option (ℕ × BlockState) → (ℕ → BlockState → Outcome) → Outcome
at_block s none f = Outcome.goes_on s
at_block s (some (i, b)) f = f i b

-- The `switch probe.Type`.
unfoldable pub handle : Json → Decoding → Sse.Event → String → Outcome
handle j s ev type =
    if type =ₛ "message_start"
    then parsed ev (record s { saw_start = true })
        (decode_with_repair j.unmarshal_message_start ev.payload)
        (λ raw.
          Outcome.goes_on
            (with_usage (record s { saw_start = true }) (apply_usage s.output.usage raw)))
    else if type =ₛ "content_block_start"
    then parsed ev s (decode_with_repair j.unmarshal_block_start ev.payload)
        (λ raw. Outcome.goes_on (start_block j s raw))
    else if type =ₛ "content_block_delta"
    then parsed ev s (decode_with_repair j.unmarshal_block_delta ev.payload)
        (λ raw. at_block s (find_block raw.index s.blocks) (delta_at j s raw))
    else if type =ₛ "content_block_stop"
    then parsed ev s (decode_with_repair j.unmarshal_block_stop ev.payload)
        (λ index. at_block s (find_block index s.blocks) (stop_at j s))
    else if type =ₛ "message_delta"
    then parsed ev s (decode_with_repair j.unmarshal_message_delta ev.payload) (change_message s)
    else if type =ₛ "message_stop"
    then Outcome.goes_on (record s { saw_stop = true })
    else Outcome.goes_on s

-- `messageEvents`
unfoldable pub is_message_event : Bytes → Bool
is_message_event name =
    eq_bytes name (codes "message_start")
    || eq_bytes name (codes "message_delta")
    || eq_bytes name (codes "message_stop")
    || eq_bytes name (codes "content_block_start")
    || eq_bytes name (codes "content_block_delta")
    || eq_bytes name (codes "content_block_stop")

-- A round of the loop, on the event that `reader.Next()` returned.
unfoldable pub decode_event : Json → Decoding → Sse.Event → Outcome
decode_event j s ev =
    if eq_bytes ev.event (codes "error")
    then Outcome.fails s (Failure.error_event ev.payload)
    else if not (is_message_event ev.event)
    then Outcome.goes_on s
    else parsed ev s (decode_with_repair j.unmarshal_type ev.payload) (handle j s ev)

-- `err.Error()`
unfoldable pub error_text : Json → Failure → String
error_text j (Failure.read_error e) = e
error_text j (Failure.error_event payload) = j.string payload
error_text j (Failure.unparsable name payload) =
    "could not parse Anthropic SSE event "
    +ₛ j.string name
    +ₛ ": "
    +ₛ j.parse_error payload
    +ₛ "; data="
    +ₛ j.string payload
error_text j (Failure.unhandled_stop_reason reason) = "Unhandled stop reason: " +ₛ reason
error_text j Failure.ended_early = "Anthropic stream ended before message_stop"

-- Where the reader gives no more events: the check behind the loop, or the error of the reader.
abbrev pub finish : Option String → Decoding → Outcome
finish none s =
    if s.saw_start && not s.saw_stop then Outcome.fails s Failure.ended_early else Outcome.goes_on s
finish (some e) s = Outcome.fails s (Failure.read_error e)

-- A round, and the rounds behind it.
abbrev pub and_then : Outcome → (Decoding → Outcome) → Outcome
and_then (Outcome.goes_on t) f = f t
and_then (Outcome.fails t e) f = Outcome.fails t e
and_then Outcome.panics f = Outcome.panics

-- `decodeEvents`, on the events that the reader returns until `io.EOF`, or until an error.
unfoldable pub decode_events : Json → Option String → List Sse.Event → Decoding → Outcome
decode_events j ending [] s = finish ending s
decode_events j ending (ev ∷ rest) s =
    and_then (decode_event j s ev) (λ t. decode_events j ending rest t)
