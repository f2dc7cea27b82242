-- ===== src/Tests/Limits.antt =====
-- Levels, limits and error texts.
use kern_proxy.Base.{◌≡◌, ◌⊎◌, refl, true, none, some, arith}
use kern_proxy.Base.Int.{ℤ, int64, ◌-ℤ◌, pos, ◌+ℤ◌, ◌≤ℤ◌}
use kern_proxy.Thinking.{Level, LevelMap, supported_levels, contains, clamp_thinking_level}
use kern_proxy.Budget.{
  min_int, min_output_tokens, clamp_max_tokens_to_context, clamp_reasoning, Budgets, budget_of,
  adjust_max_tokens_for_thinking,
}
use kern_proxy.Budget.Room.{◌<ℤ◌, IsCount, IsLimit, adjust_room}
use kern_proxy.Anthropic.Params.{
  with_budget, build_base_options, Capabilities, SimpleOptions, WireThinking, simple_options,
  build_limits,
}
use kern_proxy.Anthropic.Params.Room.{HasRoom, simple-HasRoom}

-- A reasoning model that forbids `minimal` and does not name `xhigh`.
abbrev pub no_minimal : LevelMap
no_minimal Level.minimal = some none
no_minimal _ = none

pub has_high : contains (supported_levels true no_minimal) Level.high ≡ true
unfolding contains supported_levels
has_high = refl

clamp_xhigh : clamp_thinking_level true no_minimal Level.xhigh ≡ Level.high
unfolding clamp_thinking_level contains supported_levels
clamp_xhigh = refl

abbrev no_budgets : Budgets
no_budgets = record { minimal = none; low = none; medium = none; high = none }

medium-IsCount : IsCount (budget_of no_budgets (clamp_reasoning Level.medium))
unfolding budget_of clamp_reasoning
medium-IsCount = omega arith

adjust_room_example :
    let asked = budget_of no_budgets (clamp_reasoning Level.medium) in
    let (max_tokens, budget) =
      adjust_max_tokens_for_thinking (some (pos 4096)) (pos 8192) Level.medium no_budgets in
    IsLimit (some (pos 4096)) (pos 8192) asked max_tokens
    × (pos 0 ≤ℤ budget)
    × (budget ≤ℤ asked)
    × ((max_tokens ≡ pos 0) ⊎ (budget <ℤ max_tokens))
    × ((budget ≡ asked) ⊎ (budget ≡ pos 0) ⊎ (budget +ℤ min_output_tokens ≡ max_tokens))
adjust_room_example =
    adjust_room (some (pos 4096)) (pos 8192) Level.medium no_budgets (omega arith) (omega arith)
      medium-IsCount

abbrev pub thinker : Capabilities
thinker = record {
  max_tokens = pos 64000;
  context_window = pos 200000;
  reasoning = true;
  levels = no_minimal;
  force_adaptive = none;
}

abbrev pub medium_options : SimpleOptions
medium_options = record {
  base = record {
    api_key = "key";
    max_tokens = some (pos 4000);
    thinking_enabled = none;
    thinking_budget = none;
    display = "";
    effort = "";
  };
  reasoning = some Level.medium;
  budgets = no_budgets;
}

simple-HasRoom_example :
    (n : ℤ) × (b : ℤ) × (build_limits thinker (simple_options thinker (pos 150000) medium_options)
      ≡ record {
        max_tokens = n;
        thinking = some (WireThinking.enabled b "summarized");
        effort = none;
      })
    × HasRoom (pos 200000) (pos 150000) (budget_of no_budgets (clamp_reasoning Level.medium)) n b
simple-HasRoom_example =
    simple-HasRoom thinker (pos 150000) medium_options Level.medium refl refl refl (omega arith)
      (omega arith) (omega arith) (omega arith) medium-IsCount (omega arith)

medium_limits : build_limits thinker (simple_options thinker (pos 150000) medium_options) ≡ record {
  max_tokens = pos 12192;
  thinking = some (WireThinking.enabled (pos 8192) "summarized");
  effort = none;
}
unfolding build_limits simple_options with_budget clamp_max_tokens_to_context min_int
    build_base_options adjust_max_tokens_for_thinking int64 ◌+ℤ◌ ◌-ℤ◌
medium_limits = refl
