-- ===== src/OpenAi/Request.antt =====
-- `buildParams` of ai/apis/openaicompletions/openaicompletions.go: the messages, the tools, the limits, the thinking, and the
-- caching, with ai/apis/openaicompletions/promptcache.go.
pub mod Unmarked
pub mod Breakpoints
pub mod Accepted
use kern_proxy.Base.{
  ℕ, Bool, true, false, not, ◌&&◌, ◌||◌, Option, none, some, List, [], ◌∷◌, String, ◌=ₛ◌,
  if◌then◌else◌, items,
}
use kern_proxy.Base.Bytes.{codes}
use kern_proxy.Base.Int.{ℤ, pos, ltb_ℤ}
use kern_proxy.Messages.{AssistantPart, Message, Model}
use kern_proxy.Anthropic.Names.{contains_text, cut_at}
use kern_proxy.Anthropic.Convert.{CacheControl}
use kern_proxy.Anthropic.Params.{given}
use kern_proxy.Anthropic.Request.{Tool}
use kern_proxy.OpenAi.Caching.{add_to_system_prompt, add_to_last_message}
use kern_proxy.OpenAi.Message.{WireMessage, Options}
use kern_proxy.OpenAi.Thinking.{Fields, Format, apply_thinking_format}
use kern_proxy.Thinking.{Level}
use kern_proxy.OpenAi.Convert.{convert_messages, wire_calls, is_empty}

-- `wireTool` with its `wireFunction`; the parameters are a JSON text.
pub record WireTool : Type 0 where
  pub name : String
  pub description : String
  pub parameters : String
  pub strict : Option Bool
  pub cache : Option CacheControl

-- What a request is made from besides the messages: fields of `resolvedCompat`, the model's URL and limit,
-- the options (a temperature is its text), `os.Getenv`, and `object`, the map that `json.Unmarshal` leaves of a schema.
pub record Input : Type 0 where
  pub conversion : Options
  pub usage_in_streaming : Bool
  pub store : Bool
  pub max_tokens_field : String
  pub zai_tool_stream : Bool
  pub strict_mode : Bool
  pub cache_control_format : String
  pub long_cache_retention : Bool
  pub base_url : String
  pub system_prompt : String
  pub tools : List Tool
  pub max_tokens : Option ℤ
  pub format : Format
  pub effort : Option Level
  pub temperature : Option String
  pub session_id : String
  pub retention : String
  pub env : String → Option String
  pub getenv : String → String
  pub object : String → Option String

-- `wireRequest`, with the fields of the thinking formats under one.
pub record WireRequest : Type 0 where
  pub model : String
  pub messages : List WireMessage
  pub stream : Bool
  pub include_usage : Option Bool
  pub store : Option Bool
  pub max_tokens : Option ℤ
  pub max_completion_tokens : Option ℤ
  pub temperature : Option String
  pub tools : Option (List WireTool)
  pub tool_stream : Option Bool
  pub thinking : Fields
  pub prompt_cache_key : String
  pub prompt_cache_retention : String

abbrev set_or : Option String → String → String
set_or none other = other
set_or (some v) other = if v =ₛ "" then other else v

-- `providerEnvValue`
unfoldable pub provider_env_value : Input → String → String
provider_env_value i name = set_or (i.env name) (i.getenv name)

-- `resolveCacheRetention`
unfoldable pub resolve_cache_retention : Input → String
resolve_cache_retention i =
    if i.retention =ₛ ""
    then if provider_env_value i "PI_CACHE_RETENTION" =ₛ "long" then "long" else "short"
    else i.retention

-- `getCompatCacheControl`
unfoldable pub get_compat_cache_control : Input → String → Option CacheControl
get_compat_cache_control i retention =
    if not (i.cache_control_format =ₛ "anthropic") || (retention =ₛ "none")
    then none
    else some (record { long = (retention =ₛ "long") && i.long_cache_retention })

-- The loop of `addCacheControlToLastTool`.
unfoldable pub cache_last_tool : CacheControl → List WireTool → List WireTool
cache_last_tool cc [] = []
cache_last_tool cc (t ∷ []) = record t { cache = some cc } ∷ []
cache_last_tool cc (t ∷ u ∷ ts) = let rest = cache_last_tool cc (u ∷ ts) in t ∷ rest

-- `addCacheControlToLastTool`
abbrev pub add_to_last_tool : CacheControl → Option (List WireTool) → Option (List WireTool)
add_to_last_tool cc none = none
add_to_last_tool cc (some ts) = some (cache_last_tool cc ts)

-- `applyAnthropicCacheControl`, where there is a cache control.
unfoldable pub apply_cache_control : Option CacheControl → WireRequest → WireRequest
apply_cache_control none r = r
apply_cache_control (some cc) r = record r {
  messages = add_to_last_message cc (add_to_system_prompt cc r.messages);
  tools = add_to_last_tool cc r.tools;
}

-- `applyCaching`; `clampOpenAIPromptCacheKey` keeps 64 code points.
unfoldable pub apply_caching : Input → WireRequest → WireRequest
apply_caching i r =
    let retention = resolve_cache_retention i in
    let long = (retention =ₛ "long") && i.long_cache_retention in
    apply_cache_control (get_compat_cache_control i retention) (record r {
      prompt_cache_key =
          if (contains_text (codes "api.openai.com") (codes i.base_url)
              && not (retention =ₛ "none"))
            || long
          then cut_at 64 i.session_id
          else "";
      prompt_cache_retention = if long then "24h" else "";
    })

abbrev pub convert_tool : Input → Tool → WireTool
convert_tool i t = record {
  name = t.name;
  description = t.description;
  parameters = if t.parameters =ₛ "" then "{}" else given (i.object t.parameters) "{}";
  strict = if i.strict_mode then some false else none;
  cache = none;
}

-- `convertTools`
unfoldable pub convert_tools : Input → List Tool → List WireTool
convert_tools i [] = []
convert_tools i (t ∷ ts) = convert_tool i t ∷ convert_tools i ts

-- `hasToolHistory`
unfoldable pub has_tool_history : List Message → Bool
has_tool_history [] = false
has_tool_history (Message.user m ∷ ms) = has_tool_history ms
has_tool_history (Message.assistant m ∷ ms) =
    not (is_empty (wire_calls (items m.content))) || has_tool_history ms
has_tool_history (Message.tool_result m ∷ ms) = true

abbrev pub request_tools : Input → List Message → List Tool → Option (List WireTool)
request_tools i ms [] = if has_tool_history ms then some [] else none
request_tools i ms (t ∷ ts) = some (convert_tools i (t ∷ ts))

abbrev pub tool_stream_of : Input → List Tool → Option Bool
tool_stream_of i [] = none
tool_stream_of i (t ∷ ts) = if i.zai_tool_stream then some true else none

-- `maxTokens`, in the field that the provider takes.
abbrev pub limit_in : Bool → ℤ → Option ℤ
limit_in takes n = if ltb_ℤ (pos 0) n && takes then some n else none

-- `buildParams`
unfoldable pub build_params : (ℕ → ℤ) → Input → List Message → Model → WireRequest
build_params now i ms model =
    let limit = given i.max_tokens model.max_tokens in
    apply_caching i (record {
      model = model.id;
      messages = convert_messages now i.conversion i.system_prompt ms model;
      stream = true;
      include_usage = if i.usage_in_streaming then some true else none;
      store = if i.store then some false else none;
      max_tokens = limit_in (i.max_tokens_field =ₛ "max_tokens") limit;
      max_completion_tokens = limit_in (not (i.max_tokens_field =ₛ "max_tokens")) limit;
      temperature = i.temperature;
      tools = request_tools i ms i.tools;
      tool_stream = tool_stream_of i i.tools;
      thinking = apply_thinking_format i.format i.effort;
      prompt_cache_key = "";
      prompt_cache_retention = "";
    })
