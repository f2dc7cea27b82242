-- ===== src/OpenAi/Compat.antt =====
-- ai/apis/openaicompletions/compat.go: what a provider understands, told from its name and its URL, with what the model says.
use kern_proxy.Base.{
  Bool, true, false, not, ◌&&◌, ◌||◌, Option, none, some, List, [], ◌∷◌, String, ◌=ₛ◌,
  if◌then◌else◌,
}
use kern_proxy.Base.Bytes.{codes}
use kern_proxy.Anthropic.Names.{contains_text, has_prefix}
use kern_proxy.Anthropic.Params.{given}
use kern_proxy.OpenAi.Levels.{KwargValue}

-- `resolvedCompat`
pub record Compat : Type 0 where
  pub supports_store : Bool
  pub supports_developer_role : Bool
  pub supports_reasoning_effort : Bool
  pub supports_usage_in_streaming : Bool
  pub max_tokens_field : String
  pub requires_tool_result_name : Bool
  pub requires_assistant_after_tool_result : Bool
  pub requires_thinking_as_text : Bool
  pub requires_reasoning_content : Bool
  pub thinking_format : String
  pub chat_template_kwargs : List (String × KwargValue)
  pub zai_tool_stream : Bool
  pub supports_strict_mode : Bool
  pub cache_control_format : String
  pub send_session_affinity_headers : Bool
  pub supports_long_cache_retention : Bool

-- The fields of `Compat` in ai/model.go that are read; an empty text is one that is not set.
pub record Explicit : Type 0 where
  pub supports_store : Option Bool
  pub supports_developer_role : Option Bool
  pub supports_reasoning_effort : Option Bool
  pub supports_usage_in_streaming : Option Bool
  pub max_tokens_field : String
  pub requires_tool_result_name : Option Bool
  pub requires_assistant_after_tool_result : Option Bool
  pub requires_thinking_as_text : Option Bool
  pub requires_reasoning_content : Option Bool
  pub thinking_format : String
  pub chat_template_kwargs : Option (List (String × KwargValue))
  pub zai_tool_stream : Option Bool
  pub supports_strict_mode : Option Bool
  pub cache_control_format : String
  pub send_session_affinity_headers : Option Bool
  pub supports_long_cache_retention : Option Bool

-- The fields of the model that are read.
pub record Endpoint : Type 0 where
  pub provider : String
  pub base_url : String
  pub model_id : String
  pub compat : Option Explicit

unfoldable pub one_of : List String → String → Bool
one_of [] s = false
one_of (t ∷ ts) s = s =ₛ t || one_of ts s

unfoldable pub contains_one : List String → String → Bool
contains_one [] s = false
contains_one (t ∷ ts) s = contains_text (codes t) (codes s) || contains_one ts s

-- A provider is told by its name, or by a part of the URL.
unfoldable pub is_at : Endpoint → List String → List String → Bool
is_at e names hosts = one_of names e.provider || contains_one hosts e.base_url

abbrev is_zai : Endpoint → Bool
is_zai e = is_at e ("zai" ∷ "zai-coding-cn" ∷ []) ("api.z.ai" ∷ "open.bigmodel.cn" ∷ [])

abbrev is_together : Endpoint → Bool
is_together e = is_at e ("together" ∷ []) ("api.together.ai" ∷ "api.together.xyz" ∷ [])

abbrev is_moonshot : Endpoint → Bool
is_moonshot e = is_at e ("moonshotai" ∷ "moonshotai-cn" ∷ []) ("api.moonshot." ∷ [])

abbrev is_open_router : Endpoint → Bool
is_open_router e = is_at e ("openrouter" ∷ []) ("openrouter.ai" ∷ [])

abbrev is_workers_ai : Endpoint → Bool
is_workers_ai e = is_at e ("cloudflare-workers-ai" ∷ []) ("api.cloudflare.com" ∷ [])

abbrev is_ai_gateway : Endpoint → Bool
is_ai_gateway e = is_at e ("cloudflare-ai-gateway" ∷ []) ("gateway.ai.cloudflare.com" ∷ [])

abbrev is_nvidia : Endpoint → Bool
is_nvidia e = is_at e ("nvidia" ∷ []) ("integrate.api.nvidia.com" ∷ [])

abbrev is_ant_ling : Endpoint → Bool
is_ant_ling e = is_at e ("ant-ling" ∷ []) ("api.ant-ling.com" ∷ [])

abbrev is_grok : Endpoint → Bool
is_grok e = is_at e ("xai" ∷ []) ("api.x.ai" ∷ [])

abbrev is_deep_seek : Endpoint → Bool
is_deep_seek e = is_at e ("deepseek" ∷ []) ("deepseek.com" ∷ [])

-- `isNonStandard`
unfoldable pub is_non_standard : Endpoint → Bool
is_non_standard e =
    is_nvidia e
    || is_at e ("cerebras" ∷ "xai" ∷ "opencode" ∷ [])
        ("cerebras.ai" ∷ "api.x.ai" ∷ "chutes.ai" ∷ "deepseek.com" ∷ "opencode.ai" ∷ [])
    || is_together e
    || is_zai e
    || is_moonshot e
    || is_workers_ai e
    || is_ai_gateway e
    || is_ant_ling e

-- `useMaxTokens`
unfoldable pub use_max_tokens : Endpoint → Bool
use_max_tokens e =
    contains_one ("chutes.ai" ∷ []) e.base_url
    || is_moonshot e
    || is_ai_gateway e
    || is_together e
    || is_nvidia e
    || is_ant_ling e

unfoldable pub format_of : Endpoint → String
format_of e =
    if is_deep_seek e
    then "deepseek"
    else if is_zai e
    then "zai"
    else if is_together e
    then "together"
    else if is_ant_ling e
    then "ant-ling"
    else if is_open_router e
    then "openrouter"
    else "openai"

-- `detectCompat`
unfoldable pub detect_compat : Endpoint → Compat
detect_compat e =
    let by_anthropic = has_prefix (codes "anthropic/") (codes e.model_id) in
    let has_developer =
      is_open_router e && (by_anthropic || has_prefix (codes "openai/") (codes e.model_id)) in
    let hosted = is_together e || is_ai_gateway e || is_nvidia e in
    record {
      supports_store = not (is_non_standard e);
      supports_developer_role =
          has_developer || (not (is_non_standard e) && not (is_open_router e));
      supports_reasoning_effort =
          not (is_grok e || is_zai e || is_moonshot e || hosted || is_ant_ling e);
      supports_usage_in_streaming = true;
      max_tokens_field = if use_max_tokens e then "max_tokens" else "max_completion_tokens";
      requires_tool_result_name = false;
      requires_assistant_after_tool_result = false;
      requires_thinking_as_text = false;
      requires_reasoning_content = is_deep_seek e;
      thinking_format = format_of e;
      chat_template_kwargs = [];
      zai_tool_stream = false;
      supports_strict_mode = not (is_moonshot e || hosted);
      cache_control_format =
          if (e.provider =ₛ "openrouter") && by_anthropic then "anthropic" else "";
      send_session_affinity_headers = false;
      supports_long_cache_retention = not (hosted || is_workers_ai e || is_ant_ling e);
    }

abbrev unless_set : String → String → String
unless_set v other = if v =ₛ "" then other else v

abbrev pub overridden : Option Explicit → Compat → Compat
overridden none d = d
overridden (some c) d = record {
  supports_store = given c.supports_store d.supports_store;
  supports_developer_role = given c.supports_developer_role d.supports_developer_role;
  supports_reasoning_effort = given c.supports_reasoning_effort d.supports_reasoning_effort;
  supports_usage_in_streaming = given c.supports_usage_in_streaming d.supports_usage_in_streaming;
  max_tokens_field = unless_set c.max_tokens_field d.max_tokens_field;
  requires_tool_result_name = given c.requires_tool_result_name d.requires_tool_result_name;
  requires_assistant_after_tool_result =
      given c.requires_assistant_after_tool_result d.requires_assistant_after_tool_result;
  requires_thinking_as_text = given c.requires_thinking_as_text d.requires_thinking_as_text;
  requires_reasoning_content = given c.requires_reasoning_content d.requires_reasoning_content;
  thinking_format = unless_set c.thinking_format d.thinking_format;
  chat_template_kwargs = given c.chat_template_kwargs d.chat_template_kwargs;
  zai_tool_stream = given c.zai_tool_stream d.zai_tool_stream;
  supports_strict_mode = given c.supports_strict_mode d.supports_strict_mode;
  cache_control_format = unless_set c.cache_control_format d.cache_control_format;
  send_session_affinity_headers =
      given c.send_session_affinity_headers d.send_session_affinity_headers;
  supports_long_cache_retention =
      given c.supports_long_cache_retention d.supports_long_cache_retention;
}

-- `getCompat`
unfoldable pub get_compat : Endpoint → Compat
get_compat e = overridden e.compat (detect_compat e)
