-- ===== src/OpenAi/Replay/Deltas.antt =====
-- A delta of the server keeps the consumer and the decoder in agreement.
use text.Mathlib.TextLemmas.{append-nil as text_append-nil}
use kern_proxy.Base.{
  ℕ, ◌≡◌, ◌+ₛ◌, ◌=ₛ◌, refl, ap, ◌∙◌, Option, none, some, List, [], ◌∷◌, String, get_elem?, set,
  length, All-get, get_of_lt, set-same, eq_iff, arith, Bool-cases, inl, inr,
}
use kern_proxy.Messages.{AssistantPart, TextContent, ThinkingContent}
use kern_proxy.Stream.{is_terminal_event}
use kern_proxy.Anthropic.Blocks.{Kind}
use kern_proxy.Replay.{Piece, follow}
use kern_proxy.Replay.Told.{Tells, TellAll-get}
use kern_proxy.OpenAi.Wire.{RawToolCall, RawDelta, RawDetail, Json, is_encrypted, reasoning_field}
use kern_proxy.OpenAi.Blocks.{
  ToolCallBlock, Decoding, content_of, and_then, find_id, signed, ensure_text_block,
  ensure_thinking_block, ensure_tool_call_block,
}
use kern_proxy.OpenAi.Decode.{
  add_content, content_delta, add_reasoning, is_other_field, reasoning_delta, arguments_of, called,
  identified, tool_delta_at, tool_delta_in, tool_delta, tool_deltas, sign_or_keep,
  marshalled_detail, reasoning_detail, reasoning_details, delta,
}
use kern_proxy.OpenAi.Replay.{kind_of, ToolAt, Agrees, Holds}
use kern_proxy.OpenAi.Replay.Steps.{
  push-Heard, Ready, ensure_text_block-Ready, ensure_thinking_block-Ready, set_part-Fits,
  set_call-Fits,
}
use kern_proxy.OpenAi.Replay.Calls.{
  IsKnown, find_id-IsKnown, ToolReady, HoldsReady, recall-Agrees, ensure_tool_call_block-Ready,
}

pub then-Holds :
    (object : String → String) (o : Option Decoding) (f : Decoding → Option Decoding)
    → Holds object o
    → ((t : Decoding) → Agrees object t → Holds object (f t))
    → Holds object (and_then o f)
then-Holds object none f h k = h
then-Holds object (some t) f h k = k t h

pub text_part :
    (q : AssistantPart) → kind_of q ≡ Kind.text → (u : TextContent) × (q ≡ AssistantPart.text u)
text_part (AssistantPart.text u) k = (u, refl)
text_part (AssistantPart.thinking u) k = absurd (ground arith)
text_part (AssistantPart.tool_call u) k = absurd (ground arith)

pub thinking_part :
    (q : AssistantPart)
    → kind_of q ≡ Kind.thinking
    → (u : ThinkingContent) × (q ≡ AssistantPart.thinking u)
thinking_part (AssistantPart.text u) k = absurd (ground arith)
thinking_part (AssistantPart.thinking u) k = (u, refl)
thinking_part (AssistantPart.tool_call u) k = absurd (ground arith)

pub text_piece :
    (p : Piece) (u : TextContent) → Tells p (AssistantPart.text u) → p ≡ Piece.text u.text
text_piece (Piece.text t) u h = ap Piece.text h
text_piece (Piece.thinking t) u h = elim h [ ]
text_piece (Piece.call t) u h = elim h [ ]

pub thinking_piece :
    (p : Piece) (u : ThinkingContent)
    → Tells p (AssistantPart.thinking u)
    → p ≡ Piece.thinking u.thinking
thinking_piece (Piece.text t) u h = elim h [ ]
thinking_piece (Piece.thinking t) u h = ap Piece.thinking h
thinking_piece (Piece.call t) u h = elim h [ ]

add_content-Holds :
    (object : String → String) (r : Decoding × ℕ) (d : String)
    → Ready object Kind.text r
    → Holds object (add_content r d)
unfolding follow is_terminal_event
add_content-Holds object (s, i) d ((ps, heard, fits), (q, e, k)) =
    let (u, w) = text_part q k in
    let there : get_elem? (content_of s) i ≡ some (AssistantPart.text u) = e ∙ ap some w in
    let (p, g, l) = TellAll-get ps (content_of s) i (AssistantPart.text u) fits.told there in
    let heard_there : get_elem? ps i ≡ some (Piece.text u.text) = g ∙ ap some (text_piece p u l) in
    rw there (
      set ps i (Piece.text (u.text +ₛ d)),
      push-Heard object s.out ps _ _ heard refl (rw heard_there refl),
      set_part-Fits s ps i _ (AssistantPart.text u) _ fits there (λ x. absurd (ground arith)) refl
          refl,
    )

content_delta-Holds :
    (object : String → String) (s : Decoding) (o : Option String)
    → Agrees object s
    → Holds object (content_delta s o)
unfolding content_delta
content_delta-Holds object s none h = h
content_delta-Holds object s (some d) h = elim (Bool-cases (d =ₛ "")) [
  | inl e ↦ rw e h
  | inr e ↦
      rw e (add_content-Holds object (ensure_text_block s) d (ensure_text_block-Ready object s h))
]

add_reasoning-Holds :
    (object : String → String) (r : Decoding × ℕ) (d : String)
    → Ready object Kind.thinking r
    → Holds object (add_reasoning r d)
unfolding follow is_terminal_event
add_reasoning-Holds object (s, i) d ((ps, heard, fits), (q, e, k)) =
    let (u, w) = thinking_part q k in
    let there : get_elem? (content_of s) i ≡ some (AssistantPart.thinking u) = e ∙ ap some w in
    let (p, g, l) = TellAll-get ps (content_of s) i (AssistantPart.thinking u) fits.told there in
    let heard_there : get_elem? ps i ≡ some (Piece.thinking u.thinking) =
      g ∙ ap some (thinking_piece p u l) in
    rw there (
      set ps i (Piece.thinking (u.thinking +ₛ d)),
      push-Heard object s.out ps _ _ heard refl (rw heard_there refl),
      set_part-Fits s ps i _ (AssistantPart.thinking u) _ fits there (λ x. absurd (ground arith))
          refl refl,
    )

reasoning_delta-Holds :
    (object : String → String) (s : Decoding) (r : String × String)
    → Agrees object s
    → Holds object (reasoning_delta s r)
unfolding reasoning_delta
reasoning_delta-Holds object s (field, text) h = elim (Bool-cases (field =ₛ "")) [
  | inl e ↦ rw e h
  | inr e ↦ rw e (elim (Bool-cases (is_other_field s field s.thinking_block)) [
    | inl f ↦ rw f h
    | inr f ↦ rw f (
        add_reasoning-Holds object (ensure_thinking_block s field) text
          (ensure_thinking_block-Ready object s field h))
  ])
]

tool_delta_at-Holds :
    (j : Json) (raw : RawToolCall) (s : Decoding) (k : ℕ) (b : ToolCallBlock)
    → Agrees j.object s
    → get_elem? s.tool_order k ≡ some b
    → Holds j.object (tool_delta_at j raw s k b)
unfolding follow is_terminal_event
tool_delta_at-Holds j raw s k b (ps, heard, fits) g =
    let d = arguments_of raw.function in
    let i = b.content_index in
    let (c, e, f) = All-get (ToolAt ps (content_of s)) s.tool_order k b fits.tools_at g in
    elim (Bool-cases (d =ₛ "")) [
      | inl n ↦
          rw (n, e)
            (
              ps,
              push-Heard j.object s.out ps ps _ heard refl (
                  rw
                    (
                      f,
                      (eq_iff d "").0 n,
                      text_append-nil b.partial_args,
                      set-same ps i (Piece.call b.partial_args) f,
                    )
                    refl),
              recall-Agrees j.object s ps k b c (called raw.function (identified raw c)) heard fits
                  g e f,
            )
      | inr n ↦
          rw (n, e)
            (
              set ps i (Piece.call (b.partial_args +ₛ d)),
              push-Heard j.object s.out ps _ _ heard refl (rw f refl),
              set_call-Fits s ps k b c _ (b.partial_args +ₛ d) fits g e,
            )
    ]

tool_delta_in-Holds :
    (j : Json) (raw : RawToolCall) (r : Decoding × ℕ)
    → ToolReady j.object r
    → Holds j.object (tool_delta_in j raw r)
tool_delta_in-Holds j raw (s, k) (h, i) =
    let (b, g) = get_of_lt s.tool_order k i in rw g (tool_delta_at-Holds j raw s k b h g)

ready-Holds :
    (object : String → String) (o : Option (Decoding × ℕ)) (f : Decoding × ℕ → Option Decoding)
    → HoldsReady object o
    → ((r : Decoding × ℕ) → ToolReady object r → Holds object (f r))
    → Holds object (and_then o f)
ready-Holds object none f h k = h
ready-Holds object (some r) f h k = k r h

tool_deltas-Holds :
    (j : Json) (raws : List RawToolCall) (s : Decoding)
    → Agrees j.object s
    → Holds j.object (tool_deltas j raws s)
unfolding tool_deltas tool_delta
tool_deltas-Holds j [] s h = h
tool_deltas-Holds j (raw ∷ raws) s h =
    then-Holds j.object (tool_delta j s raw) (λ t. tool_deltas j raws t)
      (ready-Holds j.object (ensure_tool_call_block s raw) (tool_delta_in j raw)
        (ensure_tool_call_block-Ready j.object s raw h) (tool_delta_in-Holds j raw))
      (tool_deltas-Holds j raws)

sign_or_keep-Holds :
    (object : String → String) (s : Decoding) (id signature : String) (o : Option ℕ)
    → IsKnown (length s.tool_order) o
    → Agrees object s
    → Holds object (sign_or_keep s id signature o)
sign_or_keep-Holds object s id signature none i h = h
sign_or_keep-Holds object s id signature (some k) i (ps, heard, fits) =
    let (b, g) = get_of_lt s.tool_order k i in
    let (c, e, f) = All-get (ToolAt ps (content_of s)) s.tool_order k b fits.tools_at g in
    rw (g, e) (ps, heard, recall-Agrees object s ps k b c (signed signature c) heard fits g e f)

marshalled_detail-Holds :
    (object : String → String) (s : Decoding) (id : String) (o : Option String)
    → Agrees object s
    → Holds object (marshalled_detail s id o)
marshalled_detail-Holds object s id none h = h
marshalled_detail-Holds object s id (some signature) h =
    sign_or_keep-Holds object s id signature (find_id id s.tool_by_id)
      (find_id-IsKnown (length s.tool_order) id s.tool_by_id h.2.id_known) h

reasoning_detail-Holds :
    (j : Json) (s : Decoding) (o : Option RawDetail)
    → Agrees j.object s
    → Holds j.object (reasoning_detail j s o)
unfolding reasoning_detail
reasoning_detail-Holds j s none h = h
reasoning_detail-Holds j s (some d) h = elim (Bool-cases (is_encrypted d)) [
  | inl e ↦ rw e (marshalled_detail-Holds j.object s d.id (j.marshal_detail d) h)
  | inr e ↦ rw e h
]

reasoning_details-Holds :
    (j : Json) (raws : List String) (s : Decoding)
    → Agrees j.object s
    → Holds j.object (reasoning_details j raws s)
unfolding reasoning_details
reasoning_details-Holds j [] s h = h
reasoning_details-Holds j (raw ∷ raws) s h =
    then-Holds j.object (reasoning_detail j s (j.unmarshal_detail raw))
      (λ t. reasoning_details j raws t) (reasoning_detail-Holds j s (j.unmarshal_detail raw) h)
      (reasoning_details-Holds j raws)

pub delta-Holds :
    (j : Json) (o : Option RawDelta) (s : Decoding)
    → Agrees j.object s
    → Holds j.object (delta j o s)
unfolding delta
delta-Holds j none s h = h
delta-Holds j (some d) s h =
    then-Holds j.object (content_delta s d.content) _ (content_delta-Holds j.object s d.content h)
      (λ t ht.
        then-Holds j.object (reasoning_delta t (reasoning_field d)) _
          (reasoning_delta-Holds j.object t (reasoning_field d) ht)
          (λ u hu.
            then-Holds j.object (tool_deltas j d.tool_calls u) _
              (tool_deltas-Holds j d.tool_calls u hu)
              (reasoning_details-Holds j d.reasoning_details)))
