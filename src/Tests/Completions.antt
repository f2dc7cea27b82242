-- ===== src/Tests/Completions.antt =====
-- A response of OpenAI completions: a word of text, and a call in two parts, the second by its index
-- alone. And an Anthropic request with tools. The payloads are single letters, which `letters` knows.
use kern_proxy.Base.{
  ◌≡◌, ◌≤◌, refl, true, false, Option, none, some, [], ◌∷◌, String, if◌then◌else◌, ◌=ₛ◌,
}
use kern_proxy.Base.Bytes.{Bytes, codes, eq_bytes}
use kern_proxy.Base.Int.{pos}
use kern_proxy.Messages.{StopReason, AssistantPart, AssistantMessage}
use kern_proxy.Stream.{Stream, push, is_terminal_event, event_result}
use kern_proxy.Sse
use kern_proxy.Sse.{new_reader, read_all}
use kern_proxy.Anthropic.Run.{Request, Answer, new_output}
use kern_proxy.Anthropic.Request.{Input, Tool, build_params}
use kern_proxy.Anthropic.Request.Breakpoints.{breakpoints, build_params-breakpoints}
use kern_proxy.OpenAi.Wire.{reasoning_field, map_stop_reason, Json, RawChunk, RawDelta, RawToolCall}
use kern_proxy.OpenAi.Decode.{
  decode_events, decode_event, chunk, delta, content_delta, reasoning_delta, tool_delta,
  tool_deltas, end_text, end_thinking, end_tools, finish, reasoning_details,
}
use kern_proxy.OpenAi.Blocks.{
  ensure_text_block, ensure_tool_call_block, find_tool, find_index, find_id, apply_pending,
}
use kern_proxy.OpenAi.Replay.Whole.{Returns, decode_events-Returns}
use kern_proxy.OpenAi.Run.{
  run, started, refused, refusal, assert_request_auth, answered, conclude, close, complete,
}
use kern_proxy.OpenAi.Run.Turn.{GivesCompletion, started-Agrees, run-GivesCompletion}
use kern_proxy.Tests.Adapter.{claude}
use kern_proxy.Tests.Conversation.{conversation}
use kern_proxy.Tests.Limits.{thinker, medium_options}

abbrev no_delta : RawDelta
no_delta = record {
  content = none;
  reasoning_content = "";
  reasoning = "";
  reasoning_text = "";
  tool_calls = [];
  reasoning_details = [];
}

abbrev first_part : RawToolCall
first_part = record {
  index = some (pos 0);
  id = "call_1";
  function = some (record { name = "read"; arguments = "{\"a\":" });
}

abbrev second_part : RawToolCall
second_part = record {
  index = some (pos 0);
  id = "";
  function = some (record { name = ""; arguments = "1}" });
}

abbrev chunk_of : Option RawDelta → Option String → RawChunk
chunk_of d reason = record {
  choices = record { delta = d; finish_reason = reason; usage = none } ∷ [];
  usage = none;
}

abbrev chunk_of_letter : Bytes → Option RawChunk
chunk_of_letter p =
    if eq_bytes p (codes "T")
    then some (chunk_of (some (record no_delta { content = some "hi" })) none)
    else if eq_bytes p (codes "A")
    then some (chunk_of (some (record no_delta { tool_calls = first_part ∷ [] })) none)
    else if eq_bytes p (codes "B")
    then some (chunk_of (some (record no_delta { tool_calls = second_part ∷ [] })) none)
    else if eq_bytes p (codes "F")
    then some (chunk_of none (some "tool_calls"))
    else none

abbrev letters : Json
letters = record {
  unmarshal_chunk = chunk_of_letter;
  unmarshal_detail = λ raw. none;
  marshal_detail = λ d. none;
  object = λ s. if s =ₛ "" then "{}" else s;
}

abbrev sent : Bytes
sent = codes "data: T\n\ndata: A\n\ndata: B\n\ndata: F\n\ndata: [DONE]\n\n"

abbrev request : Request
request = record {
  api_key = "key";
  headers = none;
  to_lower = λ s. s;
  trim_space = λ s. s;
  payload_error = none;
  marshal_error = none;
  answer = Answer.responded sent none;
  cancelled = false;
  cancelled_late = false;
  now = pos 5;
}

run-GivesCompletion_example : GivesCompletion letters.object (run request letters claude)
run-GivesCompletion_example = run-GivesCompletion request letters claude

decode_events-Returns_example :
    Returns letters.object
      (decode_events letters none (read_all new_reader sent) (started (new_output request claude)))
decode_events-Returns_example =
    decode_events-Returns letters none (read_all new_reader sent)
      (started (new_output request claude)) (started-Agrees letters.object request claude)

abbrev content_of_result : Option Stream → Option AssistantMessage
content_of_result none = none
content_of_result (some out) = out.result

read_back :
    content_of_result (run request letters claude)
    ≡ some (record (new_output request claude) {
      content = some (
          AssistantPart.text (record { text = "hi"; text_signature = "" })
          ∷ AssistantPart.tool_call (record {
            id = "call_1";
            name = "read";
            arguments = some "{\"a\":1}";
            thought_signature = "";
          })
          ∷ []);
      stop_reason = StopReason.tool_use;
    })
unfolding run refused refusal assert_request_auth answered conclude close complete decode_events
    new_output decode_event chunk delta content_delta reasoning_delta tool_delta tool_deltas
    end_text end_thinking end_tools finish reasoning_details ensure_text_block
    ensure_tool_call_block find_tool find_index find_id apply_pending reasoning_field
    map_stop_reason read_all Sse.read_byte eq_bytes push is_terminal_event event_result
read_back = refl

abbrev pub read_tool : Tool
read_tool = record { name = "read"; description = "Reads a file."; parameters = "" }

abbrev input : Input
input = record {
  compat = record {
    long_cache_retention = none;
    cache_control_on_tools = none;
    eager_tool_input_streaming = none;
    temperature = none;
  };
  capabilities = thinker;
  conversion = record { allow_empty_signature = false; is_oauth = true; to_lower = λ s. s };
  system_prompt = "Be brief.";
  tools = read_tool ∷ read_tool ∷ [];
  retention = "";
  env = λ name. none;
  temperature = none;
  options = medium_options.base;
  schema = λ text. record { properties = none; required = [] };
  getenv = λ name. "";
}

build_params-breakpoints_example :
    breakpoints (build_params (λ n. pos n) input conversation claude)
    ≤ (if input.retention =ₛ "none" then 0 else 4)
build_params-breakpoints_example = build_params-breakpoints (λ n. pos n) input conversation claude
