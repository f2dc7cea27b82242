-- ===== src/Tests/Adapter.antt =====
-- A response of Anthropic, read, cut off, and sent back as a part of a request. The payloads of the
-- events are single letters, which the `unmarshal` of `letters` know.
use kern_proxy.Base.{
  ◌≡◌, refl, true, false, not, ◌||◌, Option, none, some, [], ◌∷◌, String, if◌then◌else◌,
}
use kern_proxy.Base.Bytes.{Bytes, codes, eq_bytes}
use kern_proxy.Base.Int.{pos}
use kern_proxy.Messages.{Modality, Model}
use kern_proxy.Stream.{Stream}
use kern_proxy.Sse
use kern_proxy.Sse.{new_reader, read_all}
use kern_proxy.Retry.{is_retryable_assistant_error}
use kern_proxy.Anthropic.Names.{
  from_tools, to_claude_code_name, from_claude_code_name, from-to_claude_code_name,
}
use kern_proxy.Anthropic.Wire.{Json, RawStart, RawDelta, RawUsage, decode_with_repair}
use kern_proxy.Anthropic.Blocks.{Decoding, Outcome, Failure}
use kern_proxy.Anthropic.Decode.{is_message_event, decode_events}
use kern_proxy.Anthropic.Replay.{Agrees}
use kern_proxy.Anthropic.Replay.Steps.{Holds}
use kern_proxy.Anthropic.Replay.Whole.{decode_events-Agrees}
use kern_proxy.Anthropic.Run.{
  Request, Answer, new_output, started, assert_request_auth, refusal, run,
}
use kern_proxy.Anthropic.Run.Turn.{GivesTurn, started-Agrees, run-GivesTurn}
use kern_proxy.Anthropic.Run.Flags.{some_type, type_of}
use kern_proxy.Anthropic.Run.Truncated.{is_early, failed_message, run-truncated}
use kern_proxy.Anthropic.Convert.{Options, convert_messages}
use kern_proxy.Anthropic.Convert.Answers.{AllAnswered}
use kern_proxy.Anthropic.Convert.Cached.{convert_messages-AllAnswered}
use kern_proxy.Tests.Conversation.{conversation}

abbrev no_usage : RawUsage
no_usage = record {
  input_tokens = some (pos 7);
  output_tokens = none;
  cache_read_input_tokens = none;
  cache_creation_input_tokens = none;
}

abbrev text_start : RawStart
text_start = record { index = pos 0; type = "text"; id = ""; name = ""; input = none; payload = "" }

abbrev text_delta : RawDelta
text_delta = record {
  index = pos 0;
  type = "text_delta";
  text = "hi";
  partial_json = "";
  thinking = "";
  signature = "";
}

abbrev type_of_letter : Bytes → Option String
type_of_letter p =
    if eq_bytes p (codes "S")
    then some "message_start"
    else if eq_bytes p (codes "B")
    then some "content_block_start"
    else if eq_bytes p (codes "D")
    then some "content_block_delta"
    else none

abbrev letters : Json
letters = record {
  unmarshal_type = type_of_letter;
  unmarshal_message_start = λ p. some no_usage;
  unmarshal_block_start = λ p. some text_start;
  unmarshal_block_delta = λ p. some text_delta;
  unmarshal_block_stop = λ p. some (pos 0);
  unmarshal_message_delta = λ p. none;
  object = λ s. "{}";
  is_oauth = false;
  tools = [];
  to_lower = λ s. s;
  string = λ p. "";
  parse_error = λ p. "";
}

abbrev sent : Bytes
sent =
    codes
      "event: message_start\ndata: S\n\nevent: content_block_start\ndata: B\n\nevent: content_block_delta\ndata: D\n\n"

abbrev request : Request
request = record {
  api_key = "key";
  headers = none;
  to_lower = λ s. s;
  trim_space = λ s. s;
  payload_error = none;
  marshal_error = none;
  answer = Answer.responded sent none;
  cancelled = false;
  cancelled_late = false;
  now = pos 5;
}

abbrev pub claude : Model
claude = record {
  id = "claude";
  api = "anthropic-messages";
  provider = "anthropic";
  input = Modality.text ∷ [];
  context_window = pos 200000;
  max_tokens = pos 8192;
}

run-GivesTurn_example : GivesTurn letters (run request letters claude)
run-GivesTurn_example = run-GivesTurn request letters claude

decode_events-Agrees_example :
    Holds
      (Agrees letters)
      (decode_events letters none (read_all new_reader sent) (started (new_output request claude)))
decode_events-Agrees_example =
    decode_events-Agrees letters none (read_all new_reader sent)
      (started (new_output request claude)) (started-Agrees request letters claude)

accepted : refusal request claude.provider ≡ none
unfolding refusal assert_request_auth
accepted = refl

has_start : some_type letters "message_start" (read_all new_reader sent) ≡ true
unfolding some_type read_all Sse.read_byte type_of is_message_event decode_with_repair
has_start = refl

has_no_stop : some_type letters "message_stop" (read_all new_reader sent) ≡ false
unfolding some_type read_all Sse.read_byte type_of is_message_event decode_with_repair
has_no_stop = refl

run-truncated_example :
    (s : Decoding) × (e : Failure) × (out : Stream) × (decode_events letters none
        (read_all new_reader sent)
        (started (new_output request claude))
      ≡ Outcome.fails s e)
    × (run request letters claude ≡ some out)
    × (out.result ≡ some (failed_message request letters s e))
    × ((not (is_early e)
          || false
          || is_retryable_assistant_error (failed_message request letters s e))
        ≡ true)
run-truncated_example =
    run-truncated request letters claude sent none accepted refl has_start has_no_stop

abbrev options : Options
options = record { allow_empty_signature = false; is_oauth = true; to_lower = λ s. s }

convert_messages-AllAnswered_example :
    AllAnswered
      (convert_messages (λ n. pos n) options conversation claude (some (record { long = false })))
convert_messages-AllAnswered_example =
    convert_messages-AllAnswered (λ n. pos n) options conversation claude
      (some (record { long = false }))

from-to_claude_code_name_example :
    from_claude_code_name (λ s. s) (to_claude_code_name (λ s. s) "Read") ("fetch" ∷ "Read" ∷ [])
    ≡ "Read"
unfolding from_tools
from-to_claude_code_name_example =
    from-to_claude_code_name (λ s. s) ("fetch" ∷ "Read" ∷ []) "Read" (refl, (refl, tt)) refl
