-- ===== src/OpenAi/Replay/Whole.antt =====
-- The whole of `decodeEvents`, and the events behind the last chunk.
use kern_proxy.Base.{
  ℕ, suc, ◌≡◌, refl, ap, ◌∙◌, Option, none, some, List, [], ◌∷◌, String, get_elem?, All, All-mono,
  All-get, eq_refl, Bool-cases, inl, inr,
}
use kern_proxy.Base.Bytes.{codes, eq_bytes}
use kern_proxy.Messages.{AssistantPart}
use kern_proxy.Stream.{is_terminal_event}
use kern_proxy.Sse
use kern_proxy.Anthropic.Blocks.{Kind}
use kern_proxy.Replay.{Piece, follow}
use kern_proxy.Replay.Told.{TellAll-get}
use kern_proxy.OpenAi.Wire.{RawUsage, RawChoice, RawChunk, Json}
use kern_proxy.OpenAi.Blocks.{ToolCallBlock, Decoding, content_of, and_then}
use kern_proxy.OpenAi.Decode.{
  with_usage, with_finish_reason, choice_usage, chunk, chunk_or_skip, decode_event, end_text,
  end_thinking, end_tools, finished, Returned, finish, ended, decode_events,
}
use kern_proxy.OpenAi.Replay.{PartAt, ToolAt, Agrees, Holds}
use kern_proxy.OpenAi.Replay.Steps.{push-Heard}
use kern_proxy.OpenAi.Replay.Calls.{recall-Agrees}
use kern_proxy.OpenAi.Replay.Deltas.{
  text_part, thinking_part, text_piece, thinking_piece, delta-Holds,
}

usage-Agrees :
    (object : String → String) (o : Option RawUsage) (s : Decoding)
    → Agrees object s
    → Agrees object (with_usage o s)
usage-Agrees object none s h = h
usage-Agrees object (some raw) s h = h

finish_reason-Agrees :
    (object : String → String) (o : Option String) (s : Decoding)
    → Agrees object s
    → Agrees object (with_finish_reason o s)
finish_reason-Agrees object none s h = h
finish_reason-Agrees object (some reason) s h = h

chunk-Holds :
    (j : Json) (s : Decoding) (raw : RawChunk) (cs : List RawChoice)
    → Agrees j.object s
    → Holds j.object (chunk j s raw cs)
unfolding chunk
chunk-Holds j s raw [] h = usage-Agrees j.object raw.usage s h
chunk-Holds j s raw (c ∷ cs) h = delta-Holds j c.delta _ (
    finish_reason-Agrees j.object c.finish_reason _ (
      usage-Agrees j.object (choice_usage raw.usage c.usage) _
        (usage-Agrees j.object raw.usage s h)))

chunk_or_skip-Holds :
    (j : Json) (s : Decoding) (o : Option RawChunk)
    → Agrees j.object s
    → Holds j.object (chunk_or_skip j s o)
chunk_or_skip-Holds j s none h = h
chunk_or_skip-Holds j s (some raw) h = chunk-Holds j s raw raw.choices h

decode_event-Holds :
    (j : Json) (s : Decoding) (ev : Sse.Event)
    → Agrees j.object s
    → Holds j.object (decode_event j s ev)
unfolding decode_event
decode_event-Holds j s ev h = elim (Bool-cases (eq_bytes ev.payload (codes "[DONE]"))) [
  | inl e ↦ rw e h
  | inr e ↦ rw e (chunk_or_skip-Holds j s (j.unmarshal_chunk ev.payload) h)
]

end_text-Holds :
    (object : String → String) (s : Decoding) (o : Option ℕ)
    → PartAt Kind.text o (content_of s)
    → Agrees object s
    → Holds object (end_text o s)
unfolding end_text follow is_terminal_event
end_text-Holds object s none p h = h
end_text-Holds object s (some i) (q, e, k) (ps, heard, fits) =
    let (u, w) = text_part q k in
    let there : get_elem? (content_of s) i ≡ some (AssistantPart.text u) = e ∙ ap some w in
    let (p, g, l) = TellAll-get ps (content_of s) i (AssistantPart.text u) fits.told there in
    let heard_there : get_elem? ps i ≡ some (Piece.text u.text) = g ∙ ap some (text_piece p u l) in
    rw there
      (ps, push-Heard object s.out ps ps _ heard refl (rw (heard_there, eq_refl u.text) refl), fits)

end_thinking-Holds :
    (object : String → String) (s : Decoding) (o : Option ℕ)
    → PartAt Kind.thinking o (content_of s)
    → Agrees object s
    → Holds object (end_thinking o s)
unfolding end_thinking follow is_terminal_event
end_thinking-Holds object s none p h = h
end_thinking-Holds object s (some i) (q, e, k) (ps, heard, fits) =
    let (u, w) = thinking_part q k in
    let there : get_elem? (content_of s) i ≡ some (AssistantPart.thinking u) = e ∙ ap some w in
    let (p, g, l) = TellAll-get ps (content_of s) i (AssistantPart.thinking u) fits.told there in
    let heard_there : get_elem? ps i ≡ some (Piece.thinking u.thinking) =
      g ∙ ap some (thinking_piece p u l) in
    rw there (
      ps,
      push-Heard object s.out ps ps _ heard refl (rw (heard_there, eq_refl u.thinking) refl),
      fits,
    )

-- The blocks of a list are all in another.
abbrev AllIn : List ToolCallBlock → List ToolCallBlock → Type 0
AllIn tools = All (λ b. (k : ℕ) × (get_elem? tools k ≡ some b))

AllIn-refl : (tools : List ToolCallBlock) → AllIn tools tools
AllIn-refl [] = tt
AllIn-refl (b ∷ bs) = (
  (0, refl),
  All-mono (λ (d : ToolCallBlock). (k : ℕ) × (get_elem? bs k ≡ some d))
      (λ d. (k : ℕ) × (get_elem? (b ∷ bs) k ≡ some d)) bs (λ d (k, e). (suc k, e)) (AllIn-refl bs),
)

end_tools-Holds :
    (j : Json) (bs : List ToolCallBlock) (s : Decoding)
    → AllIn s.tool_order bs
    → Agrees j.object s
    → Holds j.object (end_tools j bs s)
unfolding end_tools follow is_terminal_event
end_tools-Holds j [] s i h = h
end_tools-Holds j (b ∷ bs) s ((k, g), i) (ps, heard, fits) =
    let (c, e, f) = All-get (ToolAt ps (content_of s)) s.tool_order k b fits.tools_at g in
    rw e (
      end_tools-Holds j bs _ i (
        ps,
        push-Heard j.object s.out ps ps _ heard refl
            (rw (f, eq_refl (j.object b.partial_args)) refl),
        recall-Agrees j.object s ps k b c (finished j b c) heard fits g e f,
      ))

-- `decodeEvents` returns, and what it leaves agrees.
abbrev pub Returns : (String → String) → Option Returned → Type 0
Returns object none = ⊥
Returns object (some r) = Agrees object r.state

then-Returns :
    (object : String → String) (o : Option Decoding) (f : Decoding → Option Returned)
    → Holds object o
    → ((t : Decoding) → Agrees object t → Returns object (f t))
    → Returns object (and_then o f)
then-Returns object none f h k = h
then-Returns object (some t) f h k = k t h

finish-Returns : (j : Json) (s : Decoding) → Agrees j.object s → Returns j.object (finish j s)
unfolding finish
finish-Returns j s h =
    then-Returns j.object (end_text s.text_block s) _
      (end_text-Holds j.object s s.text_block h.2.text_at h)
      (λ t ht.
        then-Returns j.object (end_thinking t.thinking_block t) _
          (end_thinking-Holds j.object t t.thinking_block ht.2.thinking_at ht)
          (λ u hu.
            then-Returns j.object (end_tools j u.tool_order u) _
              (end_tools-Holds j u.tool_order u (AllIn-refl u.tool_order) hu) (λ v hv. hv)))

ended-Returns :
    (j : Json) (ending : Option String) (s : Decoding)
    → Agrees j.object s
    → Returns j.object (ended j ending s)
ended-Returns j none s h = finish-Returns j s h
ended-Returns j (some e) s h = h

-- Whatever the server sends, no type assertion of the decoder of OpenAI completions fails and no index
-- is out of range. And if the consumer of the events before has what the decoder has, it finds no
-- contradiction among the events that are pushed, whether that ends in an error or not, and has at the
-- end the same texts, the same thinking and the JSON text of the same calls.
pub decode_events-Returns :
    (j : Json) (ending : Option String) (evs : List Sse.Event) (s : Decoding)
    → Agrees j.object s
    → Returns j.object (decode_events j ending evs s)
unfolding decode_events
decode_events-Returns j ending [] s h = ended-Returns j ending s h
decode_events-Returns j ending (ev ∷ evs) s h =
    then-Returns j.object (decode_event j s ev) (λ t. decode_events j ending evs t)
      (decode_event-Holds j s ev h) (decode_events-Returns j ending evs)
