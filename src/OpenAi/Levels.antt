-- ===== src/OpenAi/Levels.antt =====
-- The names of levels in ai/apis/openaicompletions/openaicompletions.go, and the arguments of a chat template.
use kern_proxy.Base.{
  Bool, true, false, not, ◌&&◌, Option, none, some, List, [], ◌∷◌, String, if◌then◌else◌,
}
use kern_proxy.Thinking.{Level, LevelMap}

-- A value of `compat.chatTemplateKwargs`: of an object are told `omitWhenOff`, and that its `$var` is
-- `thinking.enabled`; any other value is its JSON text.
pub data KwargValue : Type 0 where
  scalar : String → KwargValue
  placeholder : Bool → Bool → KwargValue

pub data Kwarg : Type 0 where
  json : String → Kwarg
  flag : Bool → Kwarg
  text : String → Kwarg

-- `string(level)`
abbrev pub level_name : Level → String
level_name Level.off = "off"
level_name Level.minimal = "minimal"
level_name Level.low = "low"
level_name Level.medium = "medium"
level_name Level.high = "high"
level_name Level.xhigh = "xhigh"
level_name (Level.other s) = s

abbrev pub flattened : Option (Option String) → Option String
flattened none = none
flattened (some v) = v

-- `mappedThinkingLevel`
unfoldable pub mapped_thinking_level : LevelMap → Level → Option String
mapped_thinking_level m l = flattened (m l)

abbrev pub is_null : Option (Option String) → Bool
is_null (some none) = true
is_null _ = false

-- `thinkingLevelExplicitlyNull`
unfoldable pub thinking_level_explicitly_null : LevelMap → Level → Bool
thinking_level_explicitly_null m l = is_null (m l)

abbrev pub or_else : Option String → String → String
or_else none other = other
or_else (some v) other = v

-- `mappedThinkingOrDefault`
unfoldable pub mapped_thinking_or_default : LevelMap → Level → String → String
mapped_thinking_or_default m l other = or_else (mapped_thinking_level m l) other

-- `mappedThinkingOrRaw`
unfoldable pub mapped_thinking_or_raw : LevelMap → Level → String
mapped_thinking_or_raw m l = or_else (mapped_thinking_level m l) (level_name l)

abbrev pub mapped_kwarg : Option Level → Option (Option String) → Option Kwarg
mapped_kwarg (some l) none = some (Kwarg.text (level_name l))
mapped_kwarg none none = none
mapped_kwarg l (some none) = none
mapped_kwarg l (some (some v)) = some (Kwarg.text v)

abbrev pub is_some : {A : Type 0} → Option A → Bool
is_some none = false
is_some (some a) = true

abbrev pub or_off : Option Level → Level
or_off none = Level.off
or_off (some l) = l

-- `resolveChatTemplateKwargValue`; without a level `level` is `none`.
unfoldable pub resolve_kwarg : LevelMap → Option Level → KwargValue → Option Kwarg
resolve_kwarg m level (KwargValue.scalar v) = some (Kwarg.json v)
resolve_kwarg m level (KwargValue.placeholder omit is_enabled) =
    if not (is_some level) && omit
    then none
    else if is_enabled
    then some (Kwarg.flag (is_some level))
    else mapped_kwarg level (m (or_off level))

abbrev pub keep_kwarg : String → Option Kwarg → List (String × Kwarg) → List (String × Kwarg)
keep_kwarg k none rest = rest
keep_kwarg k (some v) rest = (k, v) ∷ rest

-- `buildChatTemplateKwargs`, with `[]` for a nil map.
unfoldable pub build_chat_template_kwargs :
    LevelMap → Option Level → List (String × KwargValue) → List (String × Kwarg)
build_chat_template_kwargs m level [] = []
build_chat_template_kwargs m level ((k, v) ∷ rest) =
    keep_kwarg k (resolve_kwarg m level v) (build_chat_template_kwargs m level rest)
