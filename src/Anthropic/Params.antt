-- ===== src/Anthropic/Params.antt =====
-- What an Anthropic request says of its output and its thinking: `StreamSimple`, and those fields of
-- `buildParams`, of ai/apis/anthropic/anthropic.go; and `BuildBaseOptions` of ai/apis/simpleopts.go.
pub mod Room
use kern_proxy.Base.{Bool, true, false, not, ◌&&◌, Option, none, some, String, ◌=ₛ◌, if◌then◌else◌}
use kern_proxy.Base.Int.{ℤ, pos, ◌-ℤ◌, int64}
use kern_proxy.Thinking.{Level, LevelMap}
use kern_proxy.Budget.{
  min_int, max_int, clamp_max_tokens_to_context, Budgets, adjust_max_tokens_for_thinking,
}

-- What is read of the model; `force_adaptive` is a flag of its `Compat`.
pub record Capabilities : Type 0 where
  pub max_tokens : ℤ
  pub context_window : ℤ
  pub reasoning : Bool
  pub levels : LevelMap
  pub force_adaptive : Option Bool

-- The fields of `StreamOptions` that matter here.
pub record StreamOptions : Type 0 where
  pub api_key : String
  pub max_tokens : Option ℤ
  pub thinking_enabled : Option Bool
  pub thinking_budget : Option ℤ
  pub display : String
  pub effort : String

-- `SimpleStreamOptions`; without a level `Reasoning` is empty.
pub record SimpleOptions : Type 0 where
  pub base : StreamOptions
  pub reasoning : Option Level
  pub budgets : Budgets

-- `wireThinking`
pub data WireThinking : Type 0 where
  adaptive : String → WireThinking
  enabled : ℤ → String → WireThinking
  disabled : WireThinking

-- The fields of `wireRequest`; `effort` is its `output_config`.
pub record Limits : Type 0 where
  pub max_tokens : ℤ
  pub thinking : Option WireThinking
  pub effort : Option String

abbrev pub given : {A : Type 0} → Option A → A → A
given none d = d
given (some a) d = a

-- `BuildBaseOptions`, on options that are not nil; `estimate` is `ai.EstimateContextTokens(chat).Tokens`.
unfoldable pub build_base_options : Capabilities → ℤ → StreamOptions → String → StreamOptions
build_base_options m estimate base api_key = record base {
  max_tokens =
      some (
        clamp_max_tokens_to_context m.context_window estimate (given base.max_tokens m.max_tokens));
  api_key = if api_key =ₛ "" then base.api_key else api_key;
}

-- `forceAdaptiveThinking`
abbrev pub force_adaptive_thinking : Capabilities → Bool
force_adaptive_thinking m = given m.force_adaptive false

abbrev pub effort_of : Level → String
effort_of Level.minimal = "low"
effort_of Level.low = "low"
effort_of Level.medium = "medium"
effort_of _ = "high"

abbrev pub mapped_effort : Level → Option (Option String) → String
mapped_effort l (some (some e)) = e
mapped_effort l _ = effort_of l

-- `mapThinkingLevelToEffort`
unfoldable pub map_thinking_level_to_effort : Capabilities → Level → String
map_thinking_level_to_effort m l = mapped_effort l (m.levels l)

-- `sendDisabledThinking`: a nil map is one without entries.
abbrev pub send_disabled : Option (Option String) → Bool
send_disabled (some none) = false
send_disabled _ = true

-- The part of `StreamSimple` for a model that takes a budget.
unfoldable pub with_budget : Capabilities → ℤ → StreamOptions → Level → Budgets → StreamOptions
with_budget m estimate base level budgets =
    let (max_tokens, budget) =
      adjust_max_tokens_for_thinking base.max_tokens m.max_tokens level budgets in
    let clamped = clamp_max_tokens_to_context m.context_window estimate max_tokens in
    record base {
      max_tokens = some clamped;
      thinking_enabled = some true;
      thinking_budget = some (min_int budget (max_int (pos 0) (int64 (clamped -ℤ pos 1024))));
    }

abbrev pub with_level : Capabilities → ℤ → StreamOptions → Option Level → Budgets → StreamOptions
with_level m estimate base none budgets = record base { thinking_enabled = some false }
with_level m estimate base (some level) budgets =
    if force_adaptive_thinking m
    then record base { thinking_enabled = some true; effort = map_thinking_level_to_effort m level }
    else with_budget m estimate base level budgets

-- `StreamSimple` up to the call of `Stream`, on options that are not nil.
unfoldable pub simple_options : Capabilities → ℤ → SimpleOptions → StreamOptions
simple_options m estimate o =
    with_level m estimate (build_base_options m estimate o.base o.base.api_key) o.reasoning
      o.budgets

abbrev pub display_of : String → String
display_of display = if display =ₛ "" then "summarized" else display

abbrev pub effort_config : String → Option String
effort_config effort = if effort =ₛ "" then none else some effort

-- The `switch` on the thinking mode, where the options ask for thinking.
abbrev pub enabled_limits : Capabilities → StreamOptions → ℤ → Limits
enabled_limits m o max_tokens =
    if force_adaptive_thinking m
    then record {
      max_tokens = max_tokens;
      thinking = some (WireThinking.adaptive (display_of o.display));
      effort = effort_config o.effort;
    }
    else record {
      max_tokens = max_tokens;
      thinking =
          some (WireThinking.enabled (given o.thinking_budget (pos 1024)) (display_of o.display));
      effort = none;
    }

abbrev pub plain_limits : Option WireThinking → ℤ → Limits
plain_limits t max_tokens = record { max_tokens = max_tokens; thinking = t; effort = none }

abbrev pub thinking_limits : Capabilities → StreamOptions → ℤ → Option Bool → Limits
thinking_limits m o max_tokens none = plain_limits none max_tokens
thinking_limits m o max_tokens (some true) = enabled_limits m o max_tokens
thinking_limits m o max_tokens (some false) =
    plain_limits (if send_disabled (m.levels Level.off) then some WireThinking.disabled else none)
      max_tokens

-- `buildParams`, on options that are not nil.
unfoldable pub build_limits : Capabilities → StreamOptions → Limits
build_limits m o =
    let max_tokens = given o.max_tokens m.max_tokens in
    if m.reasoning
    then thinking_limits m o max_tokens o.thinking_enabled
    else plain_limits none max_tokens
