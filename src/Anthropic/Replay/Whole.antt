-- ===== src/Anthropic/Replay/Whole.antt =====
-- The whole of `decodeEvents`, and the stream that its consumer sees.
use kern_proxy.Base.{
  ℕ, ◌≡◌, refl, ap, ◌∙◌, ◌-◌, length-append, ◌==◌, Bool, true, false, not, Option, none, some, List,
  [], ◌∷◌, ◌++◌, String, ◌=ₛ◌, ◌&&◌, arith, length, get_elem?, get_elem?-append, Option-cases, inl,
  inr, if◌then◌else◌,
}
use kern_proxy.Base.Bytes.{codes, eq_bytes}
use kern_proxy.Base.Int.{ℤ}
use kern_proxy.Messages.{AssistantPart, AssistantMessage, StopReason}
use kern_proxy.Stream.{Event, is_terminal_event}
use kern_proxy.Sse
use kern_proxy.Anthropic.Wire.{Json, RawStart, RawDelta, RawMessageDelta}
use kern_proxy.Anthropic.Blocks.{
  Kind, BlockState, Decoding, Outcome, is_kind, content_of, find_block, start_block, open_block,
  delta_at, started_call, stop_at, stop_kind,
}
use kern_proxy.Anthropic.Decode.{
  at_block, parsed, handle, mapped_reason, given_reason, decode_event, decode_events, and_then,
  is_message_event,
}
use kern_proxy.Replay.{follow, opens, Piece, part_at, open_piece}
use kern_proxy.Anthropic.Replay.{pieces, fits, Agrees, piece}
use kern_proxy.Anthropic.Replay.Laws.{find_block-get, aligned-get, pieces-length}
use kern_proxy.Anthropic.Replay.Steps.{
  Holds, text-part, thinking-part, call-part, open-Agrees, text_delta-Agrees, thinking_delta-Agrees,
  signature_delta-Agrees, json_delta-Agrees, text_end-Agrees, thinking_end-Agrees, call_end-Agrees,
}

-- A test, and what is done with its result.
if-Holds :
    (P : Decoding → Type 0) (t : Bool) (x y : Outcome)
    → (t ≡ true → Holds P x)
    → (t ≡ false → Holds P y)
    → Holds P (if t then x else y)
if-Holds P true x y h k = h refl
if-Holds P false x y h k = k refl

guarded-Holds :
    (P : Decoding → Type 0) (k : Bool) (s : Decoding) (x : Outcome)
    → P s
    → (k ≡ true → Holds P x)
    → Holds P (if not k then Outcome.goes_on s else x)
guarded-Holds P true s x h k = k refl
guarded-Holds P false s x h k = h

pub delta_at-Agrees :
    (j : Json) (s : Decoding) (raw : RawDelta) (i : ℕ) (b : BlockState)
    → Agrees j s
    → get_elem? s.blocks i ≡ some b
    → Holds (Agrees j) (delta_at j s raw i b)
unfolding delta_at
delta_at-Agrees j s raw i b h g =
    let (p, q, f) = aligned-get s.blocks (content_of s) i b h.1 g in
    if-Holds (Agrees j) (raw.type =ₛ "text_delta") _ _
      (λ _. guarded-Holds (Agrees j) (is_kind b.kind Kind.text) _ _ h (λ k.
        let (t, e) = text-part b p f k in
        text_delta-Agrees j s i b h g t raw.text (q ∙ ap some e) (rw (← e) f)))
      (λ _.
        if-Holds (Agrees j) (raw.type =ₛ "input_json_delta") _ _
          (λ _. guarded-Holds (Agrees j) (is_kind b.kind Kind.tool_call) _ _ h (λ k.
            let (c, e) = call-part b p f k in
            json_delta-Agrees j s i b h g c raw.partial_json (q ∙ ap some e) (rw (← e) f)))
          (λ _.
            if-Holds (Agrees j) (raw.type =ₛ "thinking_delta") _ _
              (λ _. guarded-Holds (Agrees j) (is_kind b.kind Kind.thinking) _ _ h (λ k.
                let (t, e) = thinking-part b p f k in
                thinking_delta-Agrees j s i b h g t raw.thinking (q ∙ ap some e) (rw (← e) f)))
              (λ _.
                if-Holds (Agrees j) (raw.type =ₛ "signature_delta") _ _
                  (λ _. guarded-Holds (Agrees j) (is_kind b.kind Kind.thinking) _ _ h (λ k.
                    let (t, e) = thinking-part b p f k in
                    signature_delta-Agrees j s i b h g t raw.signature (q ∙ ap some e)
                      (rw (← e) f)))
                  (λ _. h))))

stop-part :
    (j : Json) (s : Decoding) (i : ℕ) (b : BlockState)
    → Agrees j s
    → get_elem? s.blocks i ≡ some b
    → (p : AssistantPart) → get_elem? (content_of s) i ≡ some p
    → fits b p ≡ true
    → Holds (Agrees j) (stop_kind j s i b b.kind)
unfolding stop_kind
stop-part j s i b h g (AssistantPart.text t) q f =
    let e : b.kind ≡ Kind.text = ground arith in rw e (text_end-Agrees j s i b h g t q)
stop-part j s i b h g (AssistantPart.thinking t) q f =
    let e : b.kind ≡ Kind.thinking = ground arith in rw e (thinking_end-Agrees j s i b h g t q)
stop-part j s i b h g (AssistantPart.tool_call c) q f =
    let e : b.kind ≡ Kind.tool_call = ground arith in rw e (call_end-Agrees j s i b h g c q f)

pub stop_at-Agrees :
    (j : Json) (s : Decoding) (i : ℕ) (b : BlockState)
    → Agrees j s
    → get_elem? s.blocks i ≡ some b
    → Holds (Agrees j) (stop_at j s i b)
stop_at-Agrees j s i b h g =
    let (p, q, f) = aligned-get s.blocks (content_of s) i b h.1 g in stop-part j s i b h g p q f

opens-piece :
    (kind : Kind) (index : ℤ) (p : AssistantPart)
    → opens (some p)
      ≡ some (piece (record { kind = kind; event_index = index; partial_json = "" }) p)
opens-piece kind index (AssistantPart.text t) = refl
opens-piece kind index (AssistantPart.thinking t) = refl
opens-piece kind index (AssistantPart.tool_call t) = refl

pub open_block-Agrees :
    (j : Json) (s : Decoding) (kind : Kind) (index : ℤ) (p : AssistantPart)
    (ev : ℕ → Option AssistantMessage → Event)
    → Agrees j s
    → fits (record { kind = kind; event_index = index; partial_json = "" }) p ≡ true
    → ((i : ℕ) (m : Option AssistantMessage) → is_terminal_event (ev i m) ≡ false)
    → ((i : ℕ) (m : Option AssistantMessage) (ps : List Piece)
        → follow j.object ps (ev i m) ≡ open_piece ps i (opens (part_at m i)))
    → Agrees j (open_block s p kind index ev)
open_block-Agrees j s kind index p ev h f t k =
    let c : Option AssistantMessage =
      some (record s.output { content = some (content_of s ++ p ∷ []) }) in
    let e : length (content_of s ++ p ∷ []) - 1 ≡ length (content_of s) =
      omega (arith, length-append (content_of s) (p ∷ [])) in
    let l = pieces-length s.blocks (content_of s) h.1 in
    let o : (length (content_of s) == length (pieces s.blocks (content_of s))) ≡ true =
      ground arith in
    rw e (
      open-Agrees j s (record { kind = kind; event_index = index; partial_json = "" }) p
        (ev (length (content_of s)) c) h f (t _ c)
        (k _ c _ ∙ rw (get_elem?-append (content_of s) [] p, opens-piece kind index p, o) refl))

choice : (P : Decoding → Type 0) (t : Bool) (x y : Decoding) → P x → P y → P (if t then x else y)
choice P true x y h k = h
choice P false x y h k = k

start_block-Agrees :
    (j : Json) (s : Decoding) (raw : RawStart) → Agrees j s → Agrees j (start_block j s raw)
unfolding start_block follow is_terminal_event
start_block-Agrees j s raw h =
    choice (Agrees j) (raw.type =ₛ "text") _ _
      (open_block-Agrees j s Kind.text raw.index
        (AssistantPart.text (record { text = ""; text_signature = "" })) Event.text_start h refl
        (λ i m. refl) (λ i m ps. refl))
      (choice (Agrees j) (raw.type =ₛ "thinking") _ _
        (open_block-Agrees j s Kind.thinking raw.index
          (AssistantPart.thinking
            (record { thinking = ""; thinking_signature = ""; redacted = false }))
          Event.thinking_start h refl (λ i m. refl) (λ i m ps. refl))
        (choice (Agrees j) (raw.type =ₛ "redacted_thinking") _ _
          (open_block-Agrees j s Kind.thinking raw.index
            (AssistantPart.thinking (record {
              thinking = "[Reasoning redacted]";
              thinking_signature = raw.payload;
              redacted = true;
            }))
            Event.thinking_start h refl (λ i m. refl) (λ i m ps. refl))
          (choice (Agrees j) (raw.type =ₛ "tool_use") _ _
            (open_block-Agrees j s Kind.tool_call raw.index
              (AssistantPart.tool_call (started_call j raw)) Event.tool_call_start h refl
              (λ i m. refl) (λ i m ps. refl))
            h)))

at_block-Holds :
    (P : Decoding → Type 0) (s : Decoding) (index : ℤ) (f : ℕ → BlockState → Outcome)
    → P s
    → ((i : ℕ) (b : BlockState) → get_elem? s.blocks i ≡ some b → Holds P (f i b))
    → Holds P (at_block s (find_block index s.blocks) f)
unfolding at_block
at_block-Holds P s index f h k = elim (Option-cases (find_block index s.blocks)) [
  | inl n ↦ rw n h
  | inr (r, e) ↦ rw e (k r.0 r.1 (find_block-get index s.blocks r.0 r.1 e))
]

parsed-Holds :
    {A : Type 0} (P : Decoding → Type 0) (ev : Sse.Event) (s : Decoding) (o : Option A)
    (f : A → Outcome)
    → P s
    → ((a : A) → Holds P (f a))
    → Holds P (parsed ev s o f)
unfolding parsed
parsed-Holds P ev s none f h k = h
parsed-Holds P ev s (some a) f h k = k a

mapped_reason-Agrees :
    (j : Json) (s : Decoding) (raw : RawMessageDelta) (reason : String)
    (o : Option (StopReason × String))
    → Agrees j s
    → Holds (Agrees j) (mapped_reason s raw reason o)
unfolding mapped_reason
mapped_reason-Agrees j s raw reason none h = h
mapped_reason-Agrees j s raw reason (some r) h = h

change_message-Agrees :
    (j : Json) (s : Decoding) (raw : RawMessageDelta) (o : Option String)
    → Agrees j s
    → Holds (Agrees j) (given_reason s raw o)
unfolding given_reason
change_message-Agrees j s raw none h = h
change_message-Agrees j s raw (some reason) h = mapped_reason-Agrees j s raw reason _ h

handle-Agrees :
    (j : Json) (s : Decoding) (ev : Sse.Event) (name : String)
    → Agrees j s
    → Holds (Agrees j) (handle j s ev name)
unfolding handle
handle-Agrees j s ev name h =
    if-Holds (Agrees j) (name =ₛ "message_start") _ _
      (λ _. parsed-Holds (Agrees j) ev _ _ _ h (λ _. h))
      (λ _.
        if-Holds (Agrees j) (name =ₛ "content_block_start") _ _
          (λ _. parsed-Holds (Agrees j) ev s _ _ h (λ raw. start_block-Agrees j s raw h))
          (λ _.
            if-Holds (Agrees j) (name =ₛ "content_block_delta") _ _
              (λ _. parsed-Holds (Agrees j) ev s _ _ h (λ raw.
                at_block-Holds (Agrees j) s raw.index _ h (λ i b. delta_at-Agrees j s raw i b h)))
              (λ _.
                if-Holds (Agrees j) (name =ₛ "content_block_stop") _ _
                  (λ _. parsed-Holds (Agrees j) ev s _ _ h (λ index.
                    at_block-Holds (Agrees j) s index _ h (λ i b. stop_at-Agrees j s i b h)))
                  (λ _.
                    if-Holds (Agrees j) (name =ₛ "message_delta") _ _
                      (λ _.
                        parsed-Holds (Agrees j) ev s _ _ h
                          (λ raw. change_message-Agrees j s raw raw.stop_reason h))
                      (λ _. if-Holds (Agrees j) (name =ₛ "message_stop") _ _ (λ _. h) (λ _. h))))))

decode_event-Agrees :
    (j : Json) (s : Decoding) (ev : Sse.Event) → Agrees j s → Holds (Agrees j) (decode_event j s ev)
unfolding decode_event
decode_event-Agrees j s ev h =
    if-Holds (Agrees j) (eq_bytes ev.event (codes "error")) _ _ (λ _. h)
      (λ _.
        guarded-Holds (Agrees j) (is_message_event ev.event) s _ h
          (λ _. parsed-Holds (Agrees j) ev s _ _ h (λ name. handle-Agrees j s ev name h)))

then-Holds :
    (P : Decoding → Type 0) (o : Outcome) (f : Decoding → Outcome)
    → Holds P o
    → ((t : Decoding) → P t → Holds P (f t))
    → Holds P (and_then o f)
then-Holds P (Outcome.goes_on t) f h k = k t h
then-Holds P (Outcome.fails t e) f h k = h
then-Holds P Outcome.panics f h k = elim h [ ]

-- Whatever the server sends, no type assertion of `decodeEvents` fails and no index is out of range. And
-- if the consumer of the events before has what the decoder has, it finds no contradiction among the
-- events that `decodeEvents` pushes, whether that ends in an error or not, and has at the end the same
-- blocks as the decoder: the same texts, the same thinking, the JSON text of the same calls.
pub decode_events-Agrees :
    (j : Json) (ending : Option String) (evs : List Sse.Event) (s : Decoding)
    → Agrees j s
    → Holds (Agrees j) (decode_events j ending evs s)
unfolding decode_events
decode_events-Agrees j none [] s h =
    if-Holds (Agrees j) (s.saw_start && not s.saw_stop) _ _ (λ _. h) (λ _. h)
decode_events-Agrees j (some e) [] s h = h
decode_events-Agrees j ending (ev ∷ evs) s h =
    then-Holds (Agrees j) (decode_event j s ev) (λ t. decode_events j ending evs t)
      (decode_event-Agrees j s ev h) (decode_events-Agrees j ending evs)
