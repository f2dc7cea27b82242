-- ===== src/Budget.antt =====
-- ai/apis/simpleopts.go: the limits on output and on thinking that a request asks for.
pub mod Room
use kern_proxy.Base.{Bool, true, false, Option, none, some, List, if◌then◌else◌}
use kern_proxy.Base.Int.{ℤ, pos, negsuc, ◌+ℤ◌, ◌-ℤ◌, ltb_ℤ, int64}
use kern_proxy.Thinking.{Level}

abbrev pub context_safety_tokens : ℤ
context_safety_tokens = pos 4096

abbrev pub min_max_tokens : ℤ
min_max_tokens = pos 1

abbrev pub min_output_tokens : ℤ
min_output_tokens = pos 1024

unfoldable pub min_int : ℤ → ℤ → ℤ
min_int a b = if ltb_ℤ a b then a else b

unfoldable pub max_int : ℤ → ℤ → ℤ
max_int a b = if ltb_ℤ b a then a else b

-- `ClampMaxTokensToContext`; `estimate` is `ai.EstimateContextTokens(chat).Tokens`.
unfoldable pub clamp_max_tokens_to_context : ℤ → ℤ → ℤ → ℤ
unfolding min_int max_int
clamp_max_tokens_to_context context_window estimate max_tokens =
    if ltb_ℤ (pos 0) context_window
    then min_int max_tokens (
        max_int min_max_tokens
          (int64 (int64 (context_window -ℤ estimate) -ℤ context_safety_tokens)))
    else max_int min_max_tokens max_tokens

-- `ClampReasoning`
unfoldable pub clamp_reasoning : Level → Level
clamp_reasoning Level.xhigh = Level.high
clamp_reasoning l = l

-- `ThinkingBudgets`, the caller's budgets.
pub record Budgets : Type 0 where
  pub minimal : Option ℤ
  pub low : Option ℤ
  pub medium : Option ℤ
  pub high : Option ℤ

abbrev or_default : Option ℤ → ℤ → ℤ
or_default none d = d
or_default (some b) d = b

-- `budgets[level]`: the defaults, overwritten by the caller's, and 0 for a level with no entry.
unfoldable pub budget_of : Budgets → Level → ℤ
budget_of b Level.minimal = or_default b.minimal (pos 1024)
budget_of b Level.low = or_default b.low (pos 2048)
budget_of b Level.medium = or_default b.medium (pos 8192)
budget_of b Level.high = or_default b.high (pos 16384)
budget_of b _ = pos 0

-- The cap on the whole output.
unfoldable pub capped : Option ℤ → ℤ → ℤ → ℤ
unfolding min_int
capped none model_max budget = model_max
capped (some base) model_max budget = min_int (int64 (base +ℤ budget)) model_max

-- The last test: the budget shrinks where it would leave no room.
unfoldable pub shrunk : ℤ → ℤ → ℤ
unfolding max_int
shrunk max_tokens budget =
    if ltb_ℤ budget max_tokens
    then budget
    else max_int (pos 0) (int64 (max_tokens -ℤ min_output_tokens))

-- `AdjustMaxTokensForThinking`: the output limit and the thinking budget. A nil `customBudgets` is
-- a record of four `none`.
unfoldable pub adjust_max_tokens_for_thinking : Option ℤ → ℤ → Level → Budgets → ℤ × ℤ
unfolding clamp_reasoning budget_of capped shrunk
adjust_max_tokens_for_thinking base model_max level custom =
    let budget = budget_of custom (clamp_reasoning level) in
    let max_tokens = capped base model_max budget in (max_tokens, shrunk max_tokens budget)
