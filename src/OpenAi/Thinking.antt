-- ===== src/OpenAi/Thinking.antt =====
-- `applyThinkingFormat` of ai/apis/openaicompletions/openaicompletions.go: how a request asks for thinking, in each of the
-- formats of ai/model.go; and the level that `StreamSimple` asks for.
pub mod Names
pub mod Named
use kern_proxy.Base.{
  Bool, true, false, not, ◌&&◌, Option, none, some, List, [], ◌∷◌, String, ◌=ₛ◌, if◌then◌else◌,
}
use kern_proxy.OpenAi.Levels.{
  KwargValue, Kwarg, mapped_thinking_level, thinking_level_explicitly_null, or_else,
  mapped_thinking_or_default, mapped_thinking_or_raw, mapped_kwarg, or_off, is_some, resolve_kwarg,
  keep_kwarg, build_chat_template_kwargs,
}
use kern_proxy.Thinking.{Level, LevelMap, eq_level, clamp_thinking_level}

-- `wireThinkingObj`, or a text.
pub data Thinking : Type 0 where
  object : String → Option Bool → Thinking  -- `type` and `clear_thinking`
  text : String → Thinking

-- `wireReasoningEffort` or `wireReasoningEnabled`
pub data Reasoning : Type 0 where
  effort : String → Reasoning
  enabled : Bool → Reasoning

-- The fields of `wireRequest`.
pub record Fields : Type 0 where
  pub reasoning_effort : String
  pub thinking : Option Thinking
  pub enable_thinking : Option Bool
  pub chat_template_kwargs : List (String × Kwarg)
  pub reasoning : Option Reasoning

-- What is read of the model and of `resolvedCompat`.
pub record Format : Type 0 where
  pub model_reasoning : Bool
  pub levels : LevelMap
  pub thinking_format : String
  pub supports_reasoning_effort : Bool
  pub kwargs : List (String × KwargValue)

abbrev pub no_fields : Fields
no_fields = record {
  reasoning_effort = "";
  thinking = none;
  enable_thinking = none;
  chat_template_kwargs = [];
  reasoning = none;
}

-- `ReasoningEffort`, at a level, where the provider takes one.
abbrev pub effort_if : Bool → LevelMap → Level → String
effort_if takes m l = if takes then mapped_thinking_or_raw m l else ""

abbrev pub off_text : Format → Option String
off_text f =
    if thinking_level_explicitly_null f.levels Level.off
    then none
    else some (mapped_thinking_or_default f.levels Level.off "none")

abbrev pub map_text : {A : Type 0} → (String → A) → Option String → Option A
map_text make none = none
map_text make (some t) = some (make t)

-- The `switch` where there is a level.
unfoldable pub fields_at : Format → Level → String → Fields
fields_at f l format =
    let takes = f.supports_reasoning_effort in
    if format =ₛ "zai"
    then record no_fields {
      thinking = some (Thinking.object "enabled" (some false));
      reasoning_effort =
          effort_if (takes && not (thinking_level_explicitly_null f.levels l)) f.levels l;
    }
    else if format =ₛ "qwen"
    then record no_fields { enable_thinking = some true }
    else if format =ₛ "qwen-chat-template"
    then record no_fields {
      chat_template_kwargs =
          ("enable_thinking", Kwarg.flag true) ∷ ("preserve_thinking", Kwarg.flag true) ∷ [];
    }
    else if format =ₛ "chat-template"
    then record no_fields {
      chat_template_kwargs = build_chat_template_kwargs f.levels (some l) f.kwargs;
    }
    else if format =ₛ "deepseek"
    then record no_fields {
      thinking = some (Thinking.object "enabled" none);
      reasoning_effort = effort_if takes f.levels l;
    }
    else if format =ₛ "openrouter"
    then record no_fields {
      reasoning = some (Reasoning.effort (mapped_thinking_or_raw f.levels l));
    }
    else if format =ₛ "ant-ling"
    then record no_fields {
      reasoning = map_text Reasoning.effort (mapped_thinking_level f.levels l);
    }
    else if format =ₛ "together"
    then record no_fields {
      reasoning = some (Reasoning.enabled true);
      reasoning_effort = effort_if takes f.levels l;
    }
    else if format =ₛ "string-thinking"
    then record no_fields { thinking = some (Thinking.text (mapped_thinking_or_raw f.levels l)) }
    else record no_fields { reasoning_effort = effort_if takes f.levels l }

-- The `switch` where there is none.
unfoldable pub fields_off : Format → String → Fields
fields_off f format =
    if format =ₛ "zai"
    then record no_fields { thinking = some (Thinking.object "disabled" none) }
    else if format =ₛ "qwen"
    then record no_fields { enable_thinking = some false }
    else if format =ₛ "qwen-chat-template"
    then record no_fields {
      chat_template_kwargs =
          ("enable_thinking", Kwarg.flag false) ∷ ("preserve_thinking", Kwarg.flag true) ∷ [];
    }
    else if format =ₛ "chat-template"
    then record no_fields {
      chat_template_kwargs = build_chat_template_kwargs f.levels none f.kwargs;
    }
    else if format =ₛ "deepseek"
    then record no_fields {
      thinking =
          if thinking_level_explicitly_null f.levels Level.off
          then none
          else some (Thinking.object "disabled" none);
    }
    else if format =ₛ "openrouter"
    then record no_fields { reasoning = map_text Reasoning.effort (off_text f) }
    else if format =ₛ "ant-ling"
    then no_fields
    else if format =ₛ "together"
    then record no_fields { reasoning = some (Reasoning.enabled false) }
    else if format =ₛ "string-thinking"
    then record no_fields { thinking = map_text Thinking.text (off_text f) }
    else record no_fields {
      reasoning_effort =
          if f.supports_reasoning_effort
          then or_else (mapped_thinking_level f.levels Level.off) ""
          else "";
    }

abbrev pub fields_of : Format → Option Level → Fields
fields_of f none = fields_off f f.thinking_format
fields_of f (some l) = fields_at f l f.thinking_format

-- `applyThinkingFormat`
unfoldable pub apply_thinking_format : Format → Option Level → Fields
apply_thinking_format f level = if f.model_reasoning then fields_of f level else no_fields

abbrev pub asked_level : Option Level → Level → Option Level
asked_level own clamped = if eq_level clamped Level.off then own else some clamped

-- `ReasoningEffort` in `StreamSimple`, from the one that the options have and their `Reasoning`.
unfoldable pub simple_effort : Format → Option Level → Option Level → Option Level
simple_effort f own none = own
simple_effort f own (some l) = asked_level own (clamp_thinking_level f.model_reasoning f.levels l)
