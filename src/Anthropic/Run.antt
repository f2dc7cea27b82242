-- ===== src/Anthropic/Run.antt =====
-- `run` of ai/apis/anthropic/anthropic.go: the goroutine behind `Stream`. What the caller, the network
-- and the context do is a `Request`; the stream is the one that `NewStream` made.
pub mod Turn
pub mod Flags
pub mod Truncated
use kern_proxy.Base.{
  Bool, true, false, not, ◌||◌, ◌&&◌, Option, none, some, List, [], ◌∷◌, String, ◌=ₛ◌, ◌+ₛ◌,
  if◌then◌else◌,
}
use kern_proxy.Base.Bytes.{Bytes}
use kern_proxy.Base.Int.{ℤ, pos}
use kern_proxy.Messages.{StopReason, AssistantMessage, Model}
use kern_proxy.Stream.{Event, Stream, new_stream, push}
use kern_proxy.Transform.Orphans.{is_failed}
use kern_proxy.Sse.{new_reader, read_all}
use kern_proxy.Anthropic.Wire.{Json}
use kern_proxy.Anthropic.Blocks.{Decoding, Outcome}
use kern_proxy.Anthropic.Decode.{decode_events, error_text}

-- `ai.ProviderHeaders`: a map, or nil. A value may be nil.
abbrev pub ProviderHeaders : Type 0
ProviderHeaders = Option (List (String × Option String))

-- What `httpretry.Do` gives: an error, or a body, with the error that its reader ends in.
pub data Answer : Type 0 where
  failed : String → Answer
  responded : Bytes → Option String → Answer

-- `to_lower` and `trim_space` are those of the package strings. `cancelled` is `ctx.Err() != nil` behind
-- `decodeEvents`, and `cancelled_late` where `fail` looks; a context stays cancelled.
pub record Request : Type 0 where
  pub api_key : String
  pub headers : ProviderHeaders
  pub to_lower : String → String
  pub trim_space : String → String
  pub payload_error : Option String  -- of `opts.OnPayload`
  pub marshal_error : Option String  -- of `json.Marshal`
  pub answer : Answer
  pub cancelled : Bool
  pub cancelled_late : Bool
  pub now : ℤ

abbrev pub has_text : Request → Option String → Bool
has_text r none = false
has_text r (some v) = not (r.trim_space v =ₛ "")

unfoldable pub find_header : Request → String → List (String × Option String) → Bool
find_header r lower [] = false
find_header r lower ((k, v) ∷ rest) =
    let later = find_header r lower rest in (r.to_lower k =ₛ lower && has_text r v) || later

-- `hasHeader`
unfoldable pub has_header : Request → ProviderHeaders → String → Bool
has_header r none name = false
has_header r (some headers) name = find_header r (r.to_lower name) headers

-- `assertRequestAuth`: the text of its error.
unfoldable pub assert_request_auth : Request → String → Option String
assert_request_auth r provider =
    if not (r.api_key =ₛ "")
    then none
    else if has_header r r.headers "authorization"
        || has_header r r.headers "x-api-key"
        || has_header r r.headers "cf-aig-authorization"
    then none
    else some ("No API key for provider: " +ₛ provider)

abbrev pub or_else : Option String → Option String → Option String
or_else none later = later
or_else (some e) later = some e

-- The error of a step before the request is sent.
unfoldable pub refusal : Request → String → Option String
refusal r provider =
    or_else (assert_request_auth r provider) (or_else r.payload_error r.marshal_error)

-- `output`, as `run` makes it.
unfoldable pub new_output : Request → Model → AssistantMessage
new_output r m = record {
  content = some [];
  api = m.api;
  provider = m.provider;
  model = m.id;
  usage = record {
    input = pos 0;
    output = pos 0;
    cache_read = pos 0;
    cache_write = pos 0;
    total_tokens = pos 0;
  };
  stop_reason = StopReason.stop;
  error_message = "";
  timestamp = r.now;
}

abbrev pub fail_reason : Bool → StopReason
fail_reason cancelled = if cancelled then StopReason.aborted else StopReason.error

-- `fail`
unfoldable pub fail : Bool → String → Stream → AssistantMessage → Stream
fail cancelled message out output =
    let reason = fail_reason cancelled in
    push out
      (Event.error reason (some (record output { stop_reason = reason; error_message = message })))

abbrev pub or_unknown : String → String
or_unknown message = if message =ₛ "" then "An unknown error occurred" else message

-- Behind `decodeEvents` without an error.
unfoldable pub complete : Request → Decoding → Stream
complete r s =
    if r.cancelled
    then fail true "Request was aborted" s.out s.output
    else if is_failed s.output.stop_reason
    then fail r.cancelled_late (or_unknown s.output.error_message) s.out s.output
    else push s.out (Event.done s.output.stop_reason (some s.output))

-- Behind `decodeEvents`; `none` is a panic.
unfoldable pub conclude : Request → Json → Outcome → Option Stream
conclude r j (Outcome.goes_on s) = some (complete r s)
conclude r j (Outcome.fails s e) = some (fail r.cancelled_late (error_text j e) s.out s.output)
conclude r j Outcome.panics = none

-- The variables of `decodeEvents` where it starts.
abbrev pub started : AssistantMessage → Decoding
started output = record {
  out = push new_stream (Event.start (some output));
  output = output;
  blocks = [];
  saw_start = false;
  saw_stop = false;
}

unfoldable pub answered : Request → Json → AssistantMessage → Answer → Option Stream
answered r j output (Answer.failed e) = some (fail r.cancelled_late e new_stream output)
answered r j output (Answer.responded bytes ending) =
    conclude r j (decode_events j ending (read_all new_reader bytes) (started output))

unfoldable pub refused : Request → Json → AssistantMessage → Option String → Option Stream
refused r j output none = answered r j output r.answer
refused r j output (some e) = some (fail r.cancelled_late e new_stream output)

-- `run`
unfoldable pub run : Request → Json → Model → Option Stream
run r j m = refused r j (new_output r m) (refusal r m.provider)
