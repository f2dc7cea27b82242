-- ===== src/Anthropic/Request.antt =====
-- The request that `run` of ai/apis/anthropic/anthropic.go sends: `buildParams`, with the cache control
-- and the tools in it.
pub mod Breakpoints
use kern_proxy.Base.{
  ℕ, Bool, true, false, not, ◌&&◌, Option, none, some, List, [], ◌∷◌, ◌++◌, String, ◌=ₛ◌, ◌+ₛ◌,
  if◌then◌else◌,
}
use kern_proxy.Base.Int.{ℤ}
use kern_proxy.Messages.{Message, Model}
use kern_proxy.Anthropic.Names.{is_oauth_token, to_claude_code_name}
use kern_proxy.Anthropic.Convert.{CacheControl, Options, WireMessage, convert_messages}
use kern_proxy.Anthropic.Params.{Capabilities, StreamOptions, Limits, given, build_limits}

-- The flags of `Compat` that are read here; those of a nil `Compat` are all `none`.
pub record Compat : Type 0 where
  pub long_cache_retention : Option Bool
  pub cache_control_on_tools : Option Bool
  pub eager_tool_input_streaming : Option Bool
  pub temperature : Option Bool

-- `ai.Tool`; the schema is its JSON text.
pub record Tool : Type 0 where
  pub name : String
  pub description : String
  pub parameters : String

-- `wireInputSchema`; without `properties` its map is nil.
pub record InputSchema : Type 0 where
  pub properties : Option String
  pub required : List String

pub record WireTool : Type 0 where
  pub name : String
  pub description : String
  pub eager_input_streaming : Bool
  pub input_schema : InputSchema
  pub cache : Option CacheControl

pub record TextBlock : Type 0 where
  pub text : String
  pub cache : Option CacheControl

-- What a request is made from besides the messages: `schema` is what `json.Unmarshal` leaves in the
-- struct of `convertTools`, also where it fails; `getenv` is `os.Getenv`; a temperature is its text.
pub record Input : Type 0 where
  pub compat : Compat
  pub capabilities : Capabilities
  pub conversion : Options
  pub system_prompt : String
  pub tools : List Tool
  pub retention : String
  pub env : String → Option String
  pub temperature : Option String
  pub options : StreamOptions
  pub schema : String → InputSchema
  pub getenv : String → String

-- `wireRequest`
pub record WireRequest : Type 0 where
  pub model : String
  pub messages : List WireMessage
  pub limits : Limits
  pub stream : Bool
  pub system : List TextBlock
  pub temperature : Option String
  pub tools : List WireTool

abbrev set_or : Option String → String → String
set_or none other = other
set_or (some v) other = if v =ₛ "" then other else v

-- `providerEnvValue`
unfoldable pub provider_env_value : Input → String → String
provider_env_value i name = set_or (i.env name) (i.getenv name)

-- `resolveCacheRetention`
unfoldable pub resolve_cache_retention : Input → String
resolve_cache_retention i =
    if i.retention =ₛ ""
    then if provider_env_value i "PI_CACHE_RETENTION" =ₛ "long" then "long" else "short"
    else i.retention

-- `getCacheControl`
unfoldable pub get_cache_control : Input → Option CacheControl
get_cache_control i =
    if resolve_cache_retention i =ₛ "none"
    then none
    else some (record {
      long = (resolve_cache_retention i =ₛ "long") && given i.compat.long_cache_retention true;
    })

abbrev pub filled : InputSchema → InputSchema
filled s = record s { properties = some (given s.properties "{}") }

abbrev no_schema : InputSchema
no_schema = record { properties = none; required = [] }

abbrev pub convert_tool : Input → Option CacheControl → Tool → WireTool
convert_tool i cache t = record {
  name = if i.conversion.is_oauth then to_claude_code_name i.conversion.to_lower t.name else t.name;
  description = t.description;
  eager_input_streaming = given i.compat.eager_tool_input_streaming true;
  input_schema = filled (if t.parameters =ₛ "" then no_schema else i.schema t.parameters);
  cache = cache;
}

-- The loop of `convertTools`; `cache` is that of the last tool.
unfoldable pub convert_tools : Input → Option CacheControl → List Tool → List WireTool
convert_tools i cache [] = []
convert_tools i cache (t ∷ []) = convert_tool i cache t ∷ []
convert_tools i cache (t ∷ u ∷ ts) =
    let rest = convert_tools i cache (u ∷ ts) in convert_tool i none t ∷ rest

-- `applyCacheControl`
abbrev pub tools_cache : Input → Option CacheControl → Option CacheControl
tools_cache i cache = if given i.compat.cache_control_on_tools true then cache else none

abbrev identity_block : String
identity_block = "You are Claude Code, Anthropic's official CLI for Claude."

abbrev pub prompt_blocks : String → Option CacheControl → List TextBlock
prompt_blocks prompt cache =
    if prompt =ₛ "" then [] else record { text = prompt; cache = cache } ∷ []

unfoldable pub system_blocks : Input → Option CacheControl → List TextBlock
system_blocks i cache =
    if i.conversion.is_oauth
    then record { text = identity_block; cache = cache } ∷ prompt_blocks i.system_prompt cache
    else prompt_blocks i.system_prompt cache

-- `buildParams`, on options that are not nil.
unfoldable pub build_params : (ℕ → ℤ) → Input → List Message → Model → WireRequest
build_params now i ms model =
    let cache = get_cache_control i in
    record {
      model = model.id;
      messages = convert_messages now i.conversion ms model cache;
      limits = build_limits i.capabilities i.options;
      stream = true;
      system = system_blocks i cache;
      temperature =
          if not (given i.options.thinking_enabled false) && given i.compat.temperature true
          then i.temperature
          else none;
      tools = convert_tools i (tools_cache i cache) i.tools;
    }
