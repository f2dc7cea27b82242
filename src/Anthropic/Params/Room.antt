-- ===== src/Anthropic/Params/Room.antt =====
-- The limits of a request that `StreamSimple` makes.
use kern_proxy.Base.{◌≡◌, refl, true, false, Option, none, some, ◌⊎◌, arith}
use kern_proxy.Base.Int.{ℤ, pos, ◌+ℤ◌, ◌-ℤ◌, ◌≤ℤ◌, int64, IsInt64, int64-of_IsInt64}
use kern_proxy.Thinking.{Level}
use kern_proxy.Budget.{
  min_int, max_int, clamp_max_tokens_to_context, clamp_reasoning, budget_of, context_safety_tokens,
  Budgets, adjust_max_tokens_for_thinking,
}
use kern_proxy.Budget.Room.{IsCount, IsCap, ◌<ℤ◌, clamp_fits, adjust_room}
use kern_proxy.Anthropic.Params.{
  Capabilities, SimpleOptions, WireThinking, given, build_base_options, with_budget, simple_options,
  build_limits, display_of,
}

clamp_IsCount : (w e n : ℤ) → IsCount n → IsCount (clamp_max_tokens_to_context w e n)
unfolding clamp_max_tokens_to_context
clamp_IsCount w e n h = ground arith

min_max :
    (b d c : ℤ)
    → pos 0 ≤ℤ b
    → d ≡ c -ℤ pos 1024
    → let r = min_int b (max_int (pos 0) d) in
      (pos 0 ≤ℤ r) × (r ≤ℤ b) × ((r ≡ pos 0) ⊎ (r +ℤ pos 1024 ≤ℤ c))
unfolding min_int max_int ◌+ℤ◌ ◌-ℤ◌
min_max b d c h e = ground arith

less-IsInt64 : (c : ℤ) → IsCount c → IsInt64 (c -ℤ pos 1024)
unfolding ◌-ℤ◌
less-IsInt64 c k = ground arith

-- The budget that is left of `b`.
left_room :
    (b c : ℤ)
    → pos 0 ≤ℤ b
    → IsCount c
    → let r = min_int b (max_int (pos 0) (int64 (c -ℤ pos 1024))) in
      (pos 0 ≤ℤ r) × (r ≤ℤ b) × ((r ≡ pos 0) ⊎ (r +ℤ pos 1024 ≤ℤ c))
left_room b c h k =
    min_max b (int64 (c -ℤ pos 1024)) c h (int64-of_IsInt64 (c -ℤ pos 1024) (less-IsInt64 c k))

-- What the request says: the budget is no more than was asked for, and leaves 1024 tokens at least for
-- the answer if it is not 0; and prompt, margin and output fit into the window.
abbrev pub HasRoom : ℤ → ℤ → ℤ → ℤ → ℤ → Type 0
HasRoom window estimate asked max_tokens budget =
    (pos 0 ≤ℤ budget)
    × (budget ≤ℤ asked)
    × ((budget ≡ pos 0) ⊎ (budget +ℤ pos 1024 ≤ℤ max_tokens))
    × ((max_tokens ≤ℤ pos 1) ⊎ (max_tokens +ℤ estimate +ℤ context_safety_tokens ≤ℤ window))

limit_IsCount :
    (b asked model_max limit : ℤ)
    → IsCount b
    → IsCount asked
    → IsCount model_max
    → limit ≤ℤ model_max
    → (limit ≡ b +ℤ asked) ⊎ (limit ≡ model_max)
    → IsCount limit
unfolding ◌+ℤ◌
limit_IsCount b asked model_max limit hb ha hm l e = ground arith

base_IsCount : (c : Option ℤ) (m : ℤ) → IsCap c → IsCount m → IsCount (given c m)
base_IsCount none m h k = k
base_IsCount (some n) m h k = h

budget-HasRoom :
    (window estimate model_max b : ℤ) (level : Level) (custom : Budgets)
    → IsCount window
    → IsCount estimate
    → IsCount model_max
    → IsCount b
    → IsCount (budget_of custom (clamp_reasoning level))
    → pos 0 <ℤ window
    → let (max_tokens, budget) = adjust_max_tokens_for_thinking (some b) model_max level custom in
      let clamped = clamp_max_tokens_to_context window estimate max_tokens in
      HasRoom window estimate
        (budget_of custom (clamp_reasoning level))
        clamped
        (min_int budget (max_int (pos 0) (int64 (clamped -ℤ pos 1024))))
budget-HasRoom window estimate model_max b level custom hw he hm hb ha w =
    let asked = budget_of custom (clamp_reasoning level) in
    let limit = (adjust_max_tokens_for_thinking (some b) model_max level custom).0 in
    let (cap, low, high, below, shape) = adjust_room (some b) model_max level custom hb hm ha in
    let count = limit_IsCount b asked model_max limit hb ha hm cap.1 cap.2 in
    let (positive, lower, room) =
      left_room _ (clamp_max_tokens_to_context window estimate limit) low
        (clamp_IsCount window estimate limit count) in
    (positive, omega arith, room, (clamp_fits window estimate limit hw he count w).1)

-- For a model that takes a thinking budget and counts that a request can hold, `StreamSimple` at a level
-- makes a request that asks for thinking, with a budget that is no more than the level's. If the budget
-- is not 0 it leaves at least 1024 tokens of the output for the answer; and the prompt, a margin of 4096
-- and the output fit into the context window, unless the output is down to 1.
pub simple-HasRoom :
    (m : Capabilities) (estimate : ℤ) (o : SimpleOptions) (level : Level)
    → m.reasoning ≡ true
    → given m.force_adaptive false ≡ false
    → o.reasoning ≡ some level
    → IsCount m.context_window
    → IsCount estimate
    → IsCount m.max_tokens
    → IsCap o.base.max_tokens
    → IsCount (budget_of o.budgets (clamp_reasoning level))
    → pos 0 <ℤ m.context_window
    → (n : ℤ) × (b : ℤ) × (build_limits m (simple_options m estimate o) ≡ record {
      max_tokens = n;
      thinking = some (WireThinking.enabled b (display_of o.base.display));
      effort = none;
    })
      × HasRoom m.context_window estimate (budget_of o.budgets (clamp_reasoning level)) n b
unfolding build_limits simple_options build_base_options with_budget
simple-HasRoom m estimate o level r a l hw he hm hb hk w = (
  _,
  _,
  simp (r, a, l) refl,
  budget-HasRoom m.context_window estimate m.max_tokens _ level o.budgets hw he hm
      (clamp_IsCount m.context_window estimate _
        (base_IsCount o.base.max_tokens m.max_tokens hb hm))
      hk w,
)
