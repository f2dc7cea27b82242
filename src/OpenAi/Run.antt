-- ===== src/OpenAi/Run.antt =====
-- `run` of ai/apis/openaicompletions/openaicompletions.go: the goroutine behind `Stream`. Its closure `fail`, the message
-- that it starts with and `hasHeader` are written as in the Anthropic adapter, and what the caller, the
-- network and the context do is the same `Request`.
pub mod Turn
use kern_proxy.Base.{
  Bool, true, false, not, ◌||◌, Option, none, some, List, [], String, ◌=ₛ◌, ◌+ₛ◌, if◌then◌else◌,
}
use kern_proxy.Messages.{StopReason, AssistantMessage, Model}
use kern_proxy.Stream.{Event, Stream, new_stream, push}
use kern_proxy.Sse.{new_reader, read_all}
use kern_proxy.Anthropic.Run.{Request, Answer, has_header, or_else, new_output, fail}
use kern_proxy.OpenAi.Wire.{Json}
use kern_proxy.OpenAi.Blocks.{Decoding}
use kern_proxy.OpenAi.Decode.{Returned, decode_events}

-- `assertRequestAuth`: the text of its error.
unfoldable pub assert_request_auth : Request → String → Option String
assert_request_auth r provider =
    if not (r.api_key =ₛ "")
    then none
    else if has_header r r.headers "authorization" || has_header r r.headers "cf-aig-authorization"
    then none
    else some ("No API key for provider: " +ₛ provider)

-- The error of a step before the request is sent.
unfoldable pub refusal : Request → String → Option String
refusal r provider =
    or_else (assert_request_auth r provider) (or_else r.payload_error r.marshal_error)

abbrev pub or_unknown : String → String
or_unknown message = if message =ₛ "" then "Provider returned an error stop reason" else message

-- The checks of the stop reason, and the last event.
unfoldable pub close : Request → Decoding → StopReason → Stream
close r s StopReason.aborted = fail r.cancelled_late "Request was aborted" s.out s.output
close r s StopReason.error =
    fail r.cancelled_late (or_unknown s.output.error_message) s.out s.output
close r s reason = push s.out (Event.done reason (some s.output))

-- Behind `decodeEvents` without an error.
unfoldable pub complete : Request → Decoding → Stream
complete r s =
    if r.cancelled
    then fail true "Request was aborted" s.out s.output
    else close r s s.output.stop_reason

abbrev pub concluded : Request → Decoding → Option String → Stream
concluded r s none = complete r s
concluded r s (some e) = fail r.cancelled_late e s.out s.output

-- Behind `decodeEvents`; `none` is a panic.
unfoldable pub conclude : Request → Option Returned → Option Stream
conclude r none = none
conclude r (some returned) = some (concluded r returned.state returned.error)

-- The variables of `decodeEvents` where it starts.
abbrev pub variables : Stream → AssistantMessage → Decoding
variables out output = record {
  out = out;
  output = output;
  text_block = none;
  thinking_block = none;
  thinking_field = "";
  tool_by_index = [];
  tool_by_id = [];
  tool_order = [];
  has_finish_reason = false;
  pending = [];
}

abbrev pub started : AssistantMessage → Decoding
started output = variables (push new_stream (Event.start (some output))) output

unfoldable pub answered : Request → Json → AssistantMessage → Answer → Option Stream
answered r j output (Answer.failed e) = some (fail r.cancelled_late e new_stream output)
answered r j output (Answer.responded bytes ending) =
    conclude r (decode_events j ending (read_all new_reader bytes) (started output))

unfoldable pub refused : Request → Json → AssistantMessage → Option String → Option Stream
refused r j output none = answered r j output r.answer
refused r j output (some e) = some (fail r.cancelled_late e new_stream output)

-- `run`
unfoldable pub run : Request → Json → Model → Option Stream
run r j m = refused r j (new_output r m) (refusal r m.provider)
