-- ===== src/Estimate/Anchor.antt =====
-- Where an estimate comes from.
use kern_proxy.Base.{
  ℕ, suc, ◌+◌, ◌*◌, ◌≤◌, ◌<◌, ◌≡◌, ◌≢◌, ◌⊎◌, true, false, Bool-cases, refl, ap, Option, none, some,
  List, [], ◌∷◌, ◌++◌, String, arith, length, All, Option-cases, inl, inr,
}
use kern_proxy.Transform.Orphans.{is_failed}
use kern_proxy.Base.Int.{pos, ◌≤ℤ◌, ◌+ℤ◌, int64}
use kern_proxy.Messages.{StopReason, Usage, Message}
use kern_proxy.Estimate.{
  ContextUsageEstimate, calculate_context_tokens, string_length_utf16, estimate_text_tokens,
  sum_tokens, anchor_usage, last_assistant_usage, estimate_from, estimate_messages_tokens,
}

-- An assistant turn that did not fail, with a usage of some tokens.
abbrev pub Reports : Message → Usage → Type 0
Reports (Message.assistant a) u =
    (a.stop_reason ≢ StopReason.error)
    × (a.stop_reason ≢ StopReason.aborted)
    × (a.usage ≡ u)
    × (pos 1 ≤ℤ calculate_context_tokens u)
Reports (Message.user a) u = ⊥
Reports (Message.tool_result a) u = ⊥

abbrev pub NoAnchor : List Message → Type 0
NoAnchor = All (λ m. (u : Usage) → ¬ Reports m u)

not_failed :
    (r : StopReason) → is_failed r ≡ false → (r ≢ StopReason.error) × (r ≢ StopReason.aborted)
not_failed r h = (λ e. absurd (ground arith), λ e. absurd (ground arith))

failed-cases :
    (r : StopReason) → is_failed r ≡ true → (r ≡ StopReason.error) ⊎ (r ≡ StopReason.aborted)
failed-cases r h = ground arith

anchor-Reports : (m : Message) (u : Usage) → anchor_usage m ≡ some u → Reports m u
unfolding anchor_usage
anchor-Reports (Message.user a) u h = absurd (ground arith)
anchor-Reports (Message.tool_result a) u h = absurd (ground arith)
anchor-Reports (Message.assistant a) u h = elim (Bool-cases (is_failed a.stop_reason)) [
  | inl e ↦ absurd (ground arith)
  | inr e ↦ let (b, c) = not_failed a.stop_reason e in (b, c, ground arith, ground arith)
]

anchor-none : (m : Message) → anchor_usage m ≡ none → (u : Usage) → ¬ Reports m u
unfolding anchor_usage
anchor-none (Message.user a) h u r = r
anchor-none (Message.tool_result a) h u r = r
anchor-none (Message.assistant a) h u (e, b, is, p) = elim (Bool-cases (is_failed a.stop_reason)) [
  | inl f ↦ elim (failed-cases a.stop_reason f) [ inl g ↦ e g | inr g ↦ b g ]
  | inr f ↦ ground arith
]

-- A conversation cut at its last message that reports usage.
pub data Found (i : ℕ) (ms : List Message) : Option (Usage × ℕ × List Message) → Type 0 where
  found :
      (before : List Message) (m : Message) (u : Usage) (after : List Message)
      → ms ≡ before ++ m ∷ after
      → Reports m u
      → NoAnchor after
      → {o : Option (Usage × ℕ × List Message)} → o ≡ some (u, i + length before, after)
      → Found i ms o
  not_found : {o : Option (Usage × ℕ × List Message)} → NoAnchor ms → o ≡ none → Found i ms o

Found-cons :
    (i : ℕ) (m : Message) (ms : List Message) (o : Option (Usage × ℕ × List Message))
    → Found (suc i) ms o
    → Found i (m ∷ ms) (elim o [
      | some f ↦ some f
      | none ↦ elim (anchor_usage m) [ some u ↦ some (u, i, ms) | none ↦ none ]
    ])
Found-cons i m ms o (Found.found before x u after split is later e) =
    let shift : suc i + length before ≡ i + suc (length before) = omega arith in
    Found.found (m ∷ before) x u after (ap (◌∷◌ m) split) is later
      (rw e (ap (λ k. some (u, k, after)) shift))
Found-cons i m ms o (Found.not_found clear e) = elim (Option-cases (anchor_usage m)) [
  | inl n ↦ Found.not_found (anchor-none m n, clear) (rw (e, n))
  | inr (u, is) ↦
      let place : i ≡ i + 0 = omega arith in
      Found.found [] m u ms refl (anchor-Reports m u is) clear
        (rw (e, is) (ap (λ k. some (u, k, ms)) place))
]

last_usage-Found : (ms : List Message) (i : ℕ) → Found i ms (last_assistant_usage i ms)
unfolding last_assistant_usage
last_usage-Found [] i = Found.not_found tt refl
last_usage-Found (m ∷ ms) i = Found-cons i m ms _ (last_usage-Found ms (suc i))

-- What an estimate of `ms` is made of.
pub data Explains (ms : List Message) (e : ContextUsageEstimate) : Type 0 where
  anchored :
      (before : List Message) (m : Message) (u : Usage) (after : List Message)
      → ms ≡ before ++ m ∷ after
      → Reports m u
      → NoAnchor after
      → e ≡ record {
        tokens = int64 (calculate_context_tokens u +ℤ pos (sum_tokens after));
        usage_tokens = calculate_context_tokens u;
        trailing_tokens = pos (sum_tokens after);
        last_usage_index = some (length before);
      }
      → Explains ms e
  summed :
      NoAnchor ms
      → e ≡ record {
        tokens = pos (sum_tokens ms);
        usage_tokens = pos 0;
        trailing_tokens = pos (sum_tokens ms);
        last_usage_index = none;
      }
      → Explains ms e

Found-Explains :
    (ms : List Message) (o : Option (Usage × ℕ × List Message))
    → Found 0 ms o
    → Explains ms (estimate_from o ms)
Found-Explains ms o (Found.found before m u after split is later e) =
    Explains.anchored before m u after split is later
      (rw e (let place : 0 + length before ≡ length before = omega arith in rw place))
Found-Explains ms o (Found.not_found clear e) = Explains.summed clear (rw e)

-- Every estimate is explained: it takes the usage that the last assistant turn which has not failed
-- and reports some tells, with its index, and adds the estimates of the messages after it alone;
-- where no turn reports usage, it is the sum over all messages.
pub estimate-Explains : (ms : List Message) → Explains ms (estimate_messages_tokens ms)
unfolding estimate_messages_tokens
estimate-Explains ms = Found-Explains ms _ (last_usage-Found ms 0)

-- Four UTF-16 units to a token, rounded up.
text_tokens_bounds :
    (s : String)
    → (string_length_utf16 s ≤ 4 * estimate_text_tokens s)
      × (4 * estimate_text_tokens s < string_length_utf16 s + 4)
unfolding estimate_text_tokens
text_tokens_bounds s = omega arith
