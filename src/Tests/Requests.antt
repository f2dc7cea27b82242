-- ===== src/Tests/Requests.antt =====
-- An OpenAI request with a conversation, tools and Anthropic's cache control, from a model that thinks.
use kern_proxy.Base.{
  ◌≡◌, List, eq_iff, ◌⊎◌, ◌≤◌, refl, true, false, not, ◌||◌, none, some, [], ◌∷◌, String, ◌=ₛ◌,
  if◌then◌else◌, All, arith,
}
use kern_proxy.Base.Int.{pos}
use kern_proxy.Thinking.{Level, supported_levels, contains, clamp_thinking_level}
use kern_proxy.Thinking.Nearest.{IsNearest}
use kern_proxy.OpenAi.Message.{Options}
use kern_proxy.OpenAi.Convert.Answers.{EachAnswered}
use kern_proxy.OpenAi.Request.{Input, provider_env_value, resolve_cache_retention, build_params}
use kern_proxy.OpenAi.Request.Unmarked.{breakpoints}
use kern_proxy.OpenAi.Request.Accepted.{build_params-IsAccepted}
use kern_proxy.OpenAi.Levels.{
  KwargValue, Kwarg, resolve_kwarg, build_chat_template_kwargs, mapped_thinking_or_raw,
  mapped_thinking_level,
}
use kern_proxy.OpenAi.Thinking.{
  Format, Reasoning, apply_thinking_format, fields_at, simple_effort, no_fields,
}
use kern_proxy.OpenAi.Thinking.Names.{IsName, names}
use kern_proxy.OpenAi.Thinking.Named.{simple_effort-IsName}
use kern_proxy.Anthropic.Run.{Request, Answer, has_header, find_header}
use kern_proxy.Anthropic.Names.{contains_text, has_prefix}
use kern_proxy.Headers.{set_all, Has, lookup, overlay, merge_provider_headers}
use kern_proxy.OpenAi.Run.{assert_request_auth}
use kern_proxy.OpenAi.Compat.{
  Endpoint, Compat, get_compat, detect_compat, is_at, one_of, contains_one, is_non_standard,
  use_max_tokens,
}
use kern_proxy.OpenAi.Compat
use kern_proxy.OpenAi.Sent.{build_headers}
use kern_proxy.OpenAi.Sent.Authorized.{Sends, expected, build_headers-IsAuthorized}
use kern_proxy.Tests.Adapter.{claude}
use kern_proxy.Tests.Completions.{read_tool}
use kern_proxy.Tests.Conversation.{conversation}
use kern_proxy.Tests.Limits.{no_minimal, has_high}

abbrev conversion : Options
conversion = record {
  provider = "openrouter";
  reasoning = true;
  supports_developer_role = true;
  requires_tool_result_name = false;
  requires_assistant_after_tool_result = true;
  requires_thinking_as_text = false;
  requires_reasoning_content = false;
  valid = λ s. true;
}

abbrev format_of : String → Format
format_of name = record {
  model_reasoning = true;
  levels = no_minimal;
  thinking_format = name;
  supports_reasoning_effort = true;
  kwargs = ("effort", KwargValue.placeholder true false) ∷ ("mode", KwargValue.scalar "1") ∷ [];
}

abbrev input : Input
input = record {
  conversion = conversion;
  usage_in_streaming = true;
  store = true;
  max_tokens_field = "max_tokens";
  zai_tool_stream = false;
  strict_mode = true;
  cache_control_format = "anthropic";
  long_cache_retention = true;
  base_url = "https://openrouter.ai/api/v1";
  system_prompt = "Be brief.";
  tools = read_tool ∷ read_tool ∷ [];
  max_tokens = none;
  format = format_of "openrouter";
  effort = some Level.high;
  temperature = none;
  session_id = "session";
  retention = "";
  env = λ name. none;
  getenv = λ name. "";
  object = λ schema. none;
}

build_params-IsAccepted_example :
    EachAnswered (build_params (λ n. pos n) input conversation claude).messages
    × (breakpoints (build_params (λ n. pos n) input conversation claude) ≤ (
        if not (input.cache_control_format =ₛ "anthropic")
          || (resolve_cache_retention input =ₛ "none")
        then 0
        else 3))
build_params-IsAccepted_example = build_params-IsAccepted (λ n. pos n) input conversation claude

simple_effort-IsName_example :
    let f = format_of "openrouter" in
    let c = clamp_thinking_level true no_minimal Level.xhigh in
    (contains (supported_levels true no_minimal) c ≡ true)
    × IsNearest Level.xhigh c Level.high
    × All
        (IsName no_minimal c)
        (names (apply_thinking_format f (simple_effort f none (some Level.xhigh))))
simple_effort-IsName_example =
    simple_effort-IsName (format_of "openrouter") Level.xhigh Level.high (omega arith) (omega arith)
      has_high

effort_in_template :
    apply_thinking_format (format_of "chat-template") (some Level.low) ≡ record no_fields {
      chat_template_kwargs = ("effort", Kwarg.text "low") ∷ ("mode", Kwarg.json "1") ∷ [];
    }
unfolding apply_thinking_format fields_at build_chat_template_kwargs resolve_kwarg
effort_in_template = refl

effort_in_object :
    apply_thinking_format (format_of "openrouter") (some Level.high)
    ≡ record no_fields { reasoning = some (Reasoning.effort "high") }
unfolding apply_thinking_format fields_at mapped_thinking_or_raw mapped_thinking_level
effort_in_object = refl

abbrev endpoint : Endpoint
endpoint = record {
  provider = "openrouter";
  base_url = "https://openrouter.ai/api/v1";
  model_id = "anthropic/claude";
  compat = none;
}

-- A caller who brings a token in place of a key.
abbrev signed_request : Request
signed_request = record {
  api_key = "";
  headers = some (("Authorization", some "token") ∷ ("accept", none) ∷ []);
  to_lower = λ s. if s =ₛ "Authorization" then "authorization" else s;
  trim_space = λ s. s;
  payload_error = none;
  marshal_error = none;
  answer = Answer.failed "offline";
  cancelled = false;
  cancelled_late = false;
  now = pos 0;
}

signed_request-accepted : assert_request_auth signed_request "openrouter" ≡ none
unfolding assert_request_auth has_header find_header
signed_request-accepted = refl

no_repeat : lookup "Authorization" (("accept", none) ∷ []) ≡ none
unfolding lookup
no_repeat = refl

nothing_behind : lookup "accept" [] ≡ none
unfolding lookup
nothing_behind = refl

-- `http.CanonicalHeaderKey`, on the keys of this request.
abbrev canonical : String → String
canonical k =
    if k =ₛ "authorization"
    then "Authorization"
    else if k =ₛ "content-type"
    then "Content-Type"
    else k

abbrev in_order : List (String × String)
in_order = ("content-type", "application/json") ∷ ("Authorization", "token") ∷ []

in_order-Has :
    (k v : String)
    → build_headers signed_request input (get_compat endpoint) [] k ≡ some v
    → Has k v in_order
unfolding build_headers merge_provider_headers overlay get_compat detect_compat
    resolve_cache_retention provider_env_value
in_order-Has k v h = ground (arith, eq_iff k "content-type", eq_iff k "Authorization")

build_headers-IsAuthorized_example :
    let sent = set_all canonical in_order (λ k. none) in
    Sends signed_request canonical "authorization" sent
    ⊎ Sends signed_request canonical "cf-aig-authorization" sent
    ⊎ (((signed_request.api_key =ₛ "") ≡ false)
        × ((expected signed_request [] ≡ none)
            ⊎ (sent (canonical "authorization") ≡ expected signed_request [])))
build_headers-IsAuthorized_example =
    build_headers-IsAuthorized signed_request input (get_compat endpoint) [] "openrouter" canonical
      in_order (no_repeat, (nothing_behind, tt)) signed_request-accepted in_order-Has
      ((refl, tt), (tt, tt))

-- The default that the caller takes back is not sent.
accept_taken_back : build_headers signed_request input (get_compat endpoint) [] "accept" ≡ none
unfolding build_headers merge_provider_headers overlay get_compat detect_compat
    resolve_cache_retention provider_env_value
accept_taken_back = refl

detected_format : (get_compat endpoint).thinking_format ≡ "openrouter"
unfolding get_compat detect_compat Compat.format_of is_at one_of contains_one contains_text
    has_prefix
detected_format = refl

-- A caller who brings a key and a header of their own: both are in the map, under two keys.
abbrev twice_signed : Request
twice_signed = record signed_request { api_key = "key" }

two_authorizations :
    (build_headers twice_signed input (get_compat endpoint) [] "authorization" ≡ some "Bearer key")
    × (build_headers twice_signed input (get_compat endpoint) [] "Authorization" ≡ some "token")
unfolding build_headers merge_provider_headers overlay get_compat detect_compat
    resolve_cache_retention provider_env_value
two_authorizations = (refl, refl)
