-- ===== src/Anthropic/Replay/Steps.antt =====
-- Each event of the server keeps the consumer and the decoder in agreement.
use kern_proxy.Base.{
  ℕ, ◌≡◌, refl, sym, ap, ◌∙◌, true, false, ◌+ₛ◌, some, List, [], ◌∷◌, ◌++◌, String, arith,
  get_elem?, set, set-same, set-get, eq_refl,
}
use mathlib.Core.Path.{subst}
use kern_proxy.Messages.{AssistantPart, TextContent, ThinkingContent, ToolCall}
use kern_proxy.Stream.{Event, push, is_terminal_event}
use kern_proxy.Anthropic.Wire.{Json}
use kern_proxy.Anthropic.Blocks.{
  Kind, BlockState, Decoding, Outcome, content_of, is_kind, edit, or_panic, emit, add_text,
  add_thinking, add_signature, set_arguments, write_json, end_with, end_call, text_of, thinking_of,
}
use kern_proxy.Replay.{follow}
use kern_proxy.Replay.Told.{told}
use kern_proxy.Anthropic.Replay.{piece, pieces, fits, aligned, Agrees}
use kern_proxy.Anthropic.Replay.Laws.{
  aligned-set, aligned-snoc, pieces-get, pieces-set, pieces-snoc,
}

-- A block and its part change, and the consumer is told.
pub change-Agrees :
    (j : Json) (s : Decoding) (i : ℕ) (b : BlockState) (p : AssistantPart) (ev : Event)
    (ob : List BlockState)
    → Agrees j s
    → fits b p ≡ true
    → ob ≡ set s.blocks i b
    → is_terminal_event ev ≡ false
    → follow j.object (pieces s.blocks (content_of s)) ev
      ≡ some (set (pieces s.blocks (content_of s)) i (piece b p))
    → Agrees j (record s {
      out = push s.out ev;
      output = record s.output { content = some (set (content_of s) i p) };
      blocks = ob;
    })
change-Agrees j s i b p ev ob h f e t k =
    let (d, q) = told j.object s.out ev (pieces s.blocks (content_of s)) _ h.0 t h.2 k in
    rw e (d, aligned-set s.blocks (content_of s) i b p h.1 f, q ∙ rw pieces-set refl)

pub open-Agrees :
    (j : Json) (s : Decoding) (b : BlockState) (p : AssistantPart) (ev : Event)
    → Agrees j s
    → fits b p ≡ true
    → is_terminal_event ev ≡ false
    → follow j.object (pieces s.blocks (content_of s)) ev
      ≡ some (pieces s.blocks (content_of s) ++ piece b p ∷ [])
    → Agrees j (record s {
      out = push s.out ev;
      output = record s.output { content = some (content_of s ++ p ∷ []) };
      blocks = s.blocks ++ b ∷ [];
    })
open-Agrees j s b p ev h f t k =
    let (d, q) = told j.object s.out ev (pieces s.blocks (content_of s)) _ h.0 t h.2 k in
    (
      d,
      aligned-snoc s.blocks (content_of s) b p h.1 f,
      q ∙ ap some (sym (pieces-snoc s.blocks (content_of s) b p h.1)),
    )

pub tell-Agrees :
    (j : Json) (s : Decoding) (ev : Event)
    → Agrees j s
    → is_terminal_event ev ≡ false
    → follow j.object (pieces s.blocks (content_of s)) ev ≡ some (pieces s.blocks (content_of s))
    → Agrees j (record s { out = push s.out ev })
tell-Agrees j s ev h t k =
    let (d, q) = told j.object s.out ev (pieces s.blocks (content_of s)) _ h.0 t h.2 k in
    (d, h.1, q)

-- What a handler leads to.
abbrev pub Holds : (Decoding → Type 0) → Outcome → Type 0
Holds P (Outcome.goes_on s) = P s
Holds P (Outcome.fails s e) = P s
Holds P Outcome.panics = ⊥

pub text-part :
    (b : BlockState) (p : AssistantPart)
    → fits b p ≡ true
    → is_kind b.kind Kind.text ≡ true
    → (t : TextContent) × (p ≡ AssistantPart.text t)
text-part b (AssistantPart.text t) f k = (t, refl)
text-part b (AssistantPart.thinking t) f k = ground arith
text-part b (AssistantPart.tool_call t) f k = ground arith

pub thinking-part :
    (b : BlockState) (p : AssistantPart)
    → fits b p ≡ true
    → is_kind b.kind Kind.thinking ≡ true
    → (t : ThinkingContent) × (p ≡ AssistantPart.thinking t)
thinking-part b (AssistantPart.thinking t) f k = (t, refl)
thinking-part b (AssistantPart.text t) f k = ground arith
thinking-part b (AssistantPart.tool_call t) f k = ground arith

pub call-part :
    (b : BlockState) (p : AssistantPart)
    → fits b p ≡ true
    → is_kind b.kind Kind.tool_call ≡ true
    → (c : ToolCall) × (p ≡ AssistantPart.tool_call c)
call-part b (AssistantPart.tool_call t) f k = (t, refl)
call-part b (AssistantPart.thinking t) f k = ground arith
call-part b (AssistantPart.text t) f k = ground arith

-- What is known at the block that `findBlock` found, and its part.
module _ (j : Json) (s : Decoding) (i : ℕ) (b : BlockState) (h : Agrees j s)
    (g : get_elem? s.blocks i ≡ some b) where
  pub text_delta-Agrees :
      (t : TextContent) (d : String)
      → get_elem? (content_of s) i ≡ some (AssistantPart.text t)
      → fits b (AssistantPart.text t) ≡ true
      → Holds (Agrees j) (or_panic (edit s i (add_text d)) (λ u. emit u (Event.text_delta i d)))
  unfolding follow is_terminal_event
  text_delta-Agrees t d q f =
      let r = pieces-get s.blocks (content_of s) i b (AssistantPart.text t) g q in
      rw q (
        change-Agrees j s i b (AssistantPart.text (record t { text = t.text +ₛ d })) _ s.blocks h f
          (sym (set-same s.blocks i b g)) refl (rw r refl))

  pub thinking_delta-Agrees :
      (t : ThinkingContent) (d : String)
      → get_elem? (content_of s) i ≡ some (AssistantPart.thinking t)
      → fits b (AssistantPart.thinking t) ≡ true
      → Holds
          (Agrees j)
          (or_panic (edit s i (add_thinking d)) (λ u. emit u (Event.thinking_delta i d)))
  unfolding follow is_terminal_event
  thinking_delta-Agrees t d q f =
      let r = pieces-get s.blocks (content_of s) i b (AssistantPart.thinking t) g q in
      rw q (
        change-Agrees j s i b (AssistantPart.thinking (record t { thinking = t.thinking +ₛ d })) _
          s.blocks h f (sym (set-same s.blocks i b g)) refl (rw r refl))

  -- The consumer is told nothing, and its piece is the same.
  pub signature_delta-Agrees :
      (t : ThinkingContent) (d : String)
      → get_elem? (content_of s) i ≡ some (AssistantPart.thinking t)
      → fits b (AssistantPart.thinking t) ≡ true
      → Holds (Agrees j) (or_panic (edit s i (add_signature d)) (λ u. u))
  signature_delta-Agrees t d q f =
      let part =
        AssistantPart.thinking (record t { thinking_signature = t.thinking_signature +ₛ d }) in
      let r = pieces-get s.blocks (content_of s) i b (AssistantPart.thinking t) g q in
      let w = set-same s.blocks i b g in
      rw q (
        h.0,
        subst (λ o. aligned o (set (content_of s) i part) ≡ true) w
            (aligned-set s.blocks (content_of s) i b part h.1 f),
        h.2
            ∙ ap some (
                sym (set-same (pieces s.blocks (content_of s)) i _ r)
                ∙ sym (pieces-set s.blocks (content_of s) i b part)
                ∙ ap (λ o. pieces o (set (content_of s) i part)) w),
      )

  pub json_delta-Agrees :
      (c : ToolCall) (d : String)
      → get_elem? (content_of s) i ≡ some (AssistantPart.tool_call c)
      → fits b (AssistantPart.tool_call c) ≡ true
      → Holds (Agrees j) (
          or_panic
            (edit (write_json s i b d) i (set_arguments (j.object (b.partial_json +ₛ d))))
            (λ u. emit u (Event.tool_call_delta i d)))
  unfolding follow is_terminal_event
  json_delta-Agrees c d q f =
      let r = pieces-get s.blocks (content_of s) i b (AssistantPart.tool_call c) g q in
      rw q (
        change-Agrees j s i (record b { partial_json = b.partial_json +ₛ d })
          (AssistantPart.tool_call (record c { arguments = some (j.object (b.partial_json +ₛ d)) }))
          _ (set s.blocks i (record b { partial_json = b.partial_json +ₛ d })) h f refl refl
          (rw r refl))

  pub text_end-Agrees :
      (t : TextContent)
      → get_elem? (content_of s) i ≡ some (AssistantPart.text t)
      → Holds (Agrees j) (end_with s (text_of (get_elem? (content_of s) i)) (Event.text_end i))
  unfolding follow is_terminal_event
  text_end-Agrees t q =
      let r = pieces-get s.blocks (content_of s) i b (AssistantPart.text t) g q in
      rw q (tell-Agrees j s _ h refl (rw (r, eq_refl t.text) refl))

  pub thinking_end-Agrees :
      (t : ThinkingContent)
      → get_elem? (content_of s) i ≡ some (AssistantPart.thinking t)
      → Holds
          (Agrees j)
          (end_with s (thinking_of (get_elem? (content_of s) i)) (Event.thinking_end i))
  unfolding follow is_terminal_event
  thinking_end-Agrees t q =
      let r = pieces-get s.blocks (content_of s) i b (AssistantPart.thinking t) g q in
      rw q (tell-Agrees j s _ h refl (rw (r, eq_refl t.thinking) refl))

  pub call_end-Agrees :
      (c : ToolCall)
      → get_elem? (content_of s) i ≡ some (AssistantPart.tool_call c)
      → fits b (AssistantPart.tool_call c) ≡ true
      → Holds (Agrees j) (end_call i (edit s i (set_arguments (j.object b.partial_json))))
  unfolding follow is_terminal_event
  call_end-Agrees c q f =
      let c' : ToolCall = record c { arguments = some (j.object b.partial_json) } in
      let r = pieces-get s.blocks (content_of s) i b (AssistantPart.tool_call c) g q in
      rw (q, set-get (content_of s) i _ (AssistantPart.tool_call c') q)
        (change-Agrees j s i b (AssistantPart.tool_call c') (Event.tool_call_end i c' _) s.blocks h
          f (sym (set-same s.blocks i b g)) refl
          (rw (r, eq_refl (j.object b.partial_json))
            (ap some (sym (set-same (pieces s.blocks (content_of s)) i _ r)))))
