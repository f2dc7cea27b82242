-- ===== src/Budget/Room.antt =====
-- The limits leave room for an answer.
use kern_proxy.Base.{◌≡◌, ◌⊎◌, refl, Option, none, some, arith, ◌<◌, ◌+◌}
use kern_proxy.Base.Int.{ℤ, pos, pos_part, neg_part, ◌+ℤ◌, ◌-ℤ◌, ◌≤ℤ◌, int64}
use kern_proxy.Thinking.{Level}
use kern_proxy.Budget.{
  context_safety_tokens, min_output_tokens, clamp_max_tokens_to_context, clamp_reasoning, Budgets,
  budget_of, capped, shrunk, adjust_max_tokens_for_thinking,
}

infix 50 ◌<ℤ◌
abbrev pub ◌<ℤ◌ : ℤ → ℤ → Type 0
a <ℤ b = pos_part a + neg_part b < pos_part b + neg_part a

-- A token count that a request can hold.
abbrev pub IsCount : ℤ → Type 0
IsCount a = (neg_part a ≡ 0) × (pos_part a < 1000000000000)

-- Within the context window the limit that is asked for is lowered, never raised, and the prompt, a
-- margin of 4096 and the output fit into the window, unless the limit is down to 1.
pub clamp_fits :
    (context_window estimate max_tokens : ℤ)
    → IsCount context_window
    → IsCount estimate
    → IsCount max_tokens
    → pos 0 <ℤ context_window
    → let r = clamp_max_tokens_to_context context_window estimate max_tokens in
      (r ≤ℤ max_tokens)
      × ((r ≤ℤ pos 1) ⊎ (r +ℤ estimate +ℤ context_safety_tokens ≤ℤ context_window))
unfolding clamp_max_tokens_to_context ◌+ℤ◌ ◌-ℤ◌ int64
clamp_fits (pos w) (pos e) (pos m) hw he hm h = ground arith
clamp_fits _ _ _ hw he hm h = absurd (omega arith)

-- A caller's cap, if there is one, that a request can hold.
abbrev pub IsCap : Option ℤ → Type 0
IsCap none = Unit
IsCap (some b) = IsCount b

-- What the cap on the output comes to: without a caller's cap the model's, and with one the lower of
-- the model's and the sum.
abbrev pub IsLimit : Option ℤ → ℤ → ℤ → ℤ → Type 0
IsLimit none model_max budget limit = limit ≡ model_max
IsLimit (some b) model_max budget limit =
    (limit ≤ℤ b +ℤ budget) × (limit ≤ℤ model_max) × ((limit ≡ b +ℤ budget) ⊎ (limit ≡ model_max))

capped-IsLimit :
    (base : Option ℤ) (model_max budget : ℤ)
    → IsCap base
    → IsCount model_max
    → IsCount budget
    → IsCount (capped base model_max budget)
      × IsLimit base model_max budget (capped base model_max budget)
unfolding capped ◌+ℤ◌ int64
capped-IsLimit none model_max budget hb hm hk = (hm, refl)
capped-IsLimit (some (pos b)) (pos m) (pos k) hb hm hk = ground arith
capped-IsLimit (some _) _ _ hb hm hk = absurd (omega arith)

shrunk-room :
    (max_tokens budget : ℤ)
    → IsCount max_tokens
    → IsCount budget
    → let k = shrunk max_tokens budget in
      (pos 0 ≤ℤ k)
      × (k ≤ℤ budget)
      × ((max_tokens ≡ pos 0) ⊎ (k <ℤ max_tokens))
      × ((k ≡ budget) ⊎ (k ≡ pos 0) ⊎ (k +ℤ min_output_tokens ≡ max_tokens))
unfolding shrunk ◌+ℤ◌ ◌-ℤ◌ int64
shrunk-room (pos m) (pos k) hm hk = ground arith
shrunk-room _ _ hm hk = absurd (omega arith)

-- For counts that a request can hold: the output limit is the model's, or where the caller has a cap
-- the lower of the model's and that cap plus the level's budget. The thinking budget is between 0 and
-- the level's budget; it is below the output limit if that is not 0, so there is room for an answer;
-- and it is the level's budget, or 0, or leaves exactly 1024 tokens.
pub adjust_room :
    (base : Option ℤ) (model_max : ℤ) (level : Level) (custom : Budgets)
    → IsCap base
    → IsCount model_max
    → IsCount (budget_of custom (clamp_reasoning level))
    → let asked = budget_of custom (clamp_reasoning level) in
      let (max_tokens, budget) = adjust_max_tokens_for_thinking base model_max level custom in
      IsLimit base model_max asked max_tokens
      × (pos 0 ≤ℤ budget)
      × (budget ≤ℤ asked)
      × ((max_tokens ≡ pos 0) ⊎ (budget <ℤ max_tokens))
      × ((budget ≡ asked) ⊎ (budget ≡ pos 0) ⊎ (budget +ℤ min_output_tokens ≡ max_tokens))
unfolding adjust_max_tokens_for_thinking
adjust_room base model_max level custom hb hm hk =
    let cap = capped-IsLimit base model_max _ hb hm hk in
    let room = shrunk-room _ _ cap.0 hk in (cap.1, room.0, room.1, room.2, room.3)
