-- ===== src/OpenAi/Replay/Calls.antt =====
-- `ensureToolCallBlock` keeps the consumer and the decoder in agreement, and gives a block of `toolOrder`.
use kern_proxy.Base.{
  ℕ, ◌≡◌, ◌<◌, ◌=ₛ◌, refl, Bool, true, false, Option, none, some, List, [], ◌∷◌, ◌++◌, String,
  get_elem?, set, length, All, arith, All-mono, All-get, All-append, length-append,
  get_elem?-append, get_of_lt, set-same, Bool-cases, inl, inr, if◌then◌else◌,
}
use kern_proxy.Base.Int.{ℤ, eq_ℤ}
use kern_proxy.Messages.{AssistantPart, ToolCall}
use kern_proxy.Stream.{is_terminal_event}
use kern_proxy.Replay.{Piece, follow}
use kern_proxy.Replay.Told.{TellAll-append, TellAll-length}
use kern_proxy.OpenAi.Wire.{RawToolCall}
use kern_proxy.OpenAi.Blocks.{
  ToolCallBlock, Decoding, content_of, and_then, find_index, find_id, find_tool, at_index, or_at_id,
  new_call, tool_or_new, register, at_key, signed, apply_pending, apply_detail, applied_at,
  registered_at, ensure_tool_call_block,
}
use kern_proxy.OpenAi.Replay.{ToolAt, Heard, Fits, FitsAt, Agrees}
use kern_proxy.OpenAi.Replay.Tools.{PartAt-append, tools-append, Rising-append}
use kern_proxy.OpenAi.Replay.Steps.{open-Heard, new_index_lem, set_call-Fits}
use kern_proxy.Anthropic.Blocks.{Kind}

-- A pointer to a tool block.
abbrev pub IsKnown : ℕ → Option ℕ → Type 0
IsKnown n none = Unit
IsKnown n (some k) = k < n

abbrev pub AllKnown : {A : Type 0} → ℕ → List (A × ℕ) → Type 0
AllKnown n = All (λ e. e.1 < n)

find_index-IsKnown :
    (n : ℕ) (key : ℤ) (m : List (ℤ × ℕ)) → AllKnown n m → IsKnown n (find_index key m)
unfolding find_index
find_index-IsKnown n key [] h = tt
find_index-IsKnown n key ((other, k) ∷ m) h = elim (Bool-cases (eq_ℤ other key)) [
  | inl e ↦ rw e h.0
  | inr e ↦ rw e (find_index-IsKnown n key m h.1)
]

pub find_id-IsKnown :
    (n : ℕ) (key : String) (m : List (String × ℕ)) → AllKnown n m → IsKnown n (find_id key m)
unfolding find_id
find_id-IsKnown n key [] h = tt
find_id-IsKnown n key ((other, k) ∷ m) h = elim (Bool-cases (other =ₛ key)) [
  | inl e ↦ rw e h.0
  | inr e ↦ rw e (find_id-IsKnown n key m h.1)
]

at_index-IsKnown :
    (s : Decoding) (o : Option ℤ)
    → AllKnown (length s.tool_order) s.tool_by_index
    → IsKnown (length s.tool_order) (at_index s o)
at_index-IsKnown s none h = tt
at_index-IsKnown s (some n) h = find_index-IsKnown (length s.tool_order) n s.tool_by_index h

or_at_id-IsKnown :
    (s : Decoding) (id : String) (o : Option ℕ)
    → AllKnown (length s.tool_order) s.tool_by_id
    → IsKnown (length s.tool_order) o
    → IsKnown (length s.tool_order) (or_at_id s id o)
or_at_id-IsKnown s id (some k) h i = i
or_at_id-IsKnown s id none h i = elim (Bool-cases (id =ₛ "")) [
  | inl e ↦ rw e tt
  | inr e ↦ rw e (find_id-IsKnown (length s.tool_order) id s.tool_by_id h)
]

find_tool-IsKnown :
    (s : Decoding) (ps : List Piece) (raw : RawToolCall)
    → FitsAt s ps
    → IsKnown (length s.tool_order) (find_tool s raw)
unfolding find_tool
find_tool-IsKnown s ps raw fits =
    or_at_id-IsKnown s raw.id (at_index s raw.index) fits.id_known
      (at_index-IsKnown s raw.index fits.index_known)

abbrev pub ToolReady : (String → String) → Decoding × ℕ → Type 0
ToolReady object (s, k) = Agrees object s × (k < length s.tool_order)

grown-AllKnown :
    {A : Type 0} (bs : List ToolCallBlock) (b : ToolCallBlock) (m : List (A × ℕ))
    → AllKnown (length bs) m
    → AllKnown (length (bs ++ b ∷ [])) m
grown-AllKnown {A} bs b m h =
    All-mono (λ (e : A × ℕ). e.1 < length bs) (λ e. e.1 < length (bs ++ b ∷ [])) m
      (λ e k. omega (arith, length-append bs (b ∷ []))) h

tool_or_new-Ready :
    (object : String → String) (s : Decoding) (raw : RawToolCall) (o : Option ℕ)
    → IsKnown (length s.tool_order) o
    → Agrees object s
    → ToolReady object (tool_or_new s raw o)
unfolding follow is_terminal_event
tool_or_new-Ready object s raw (some k) i h = (h, i)
tool_or_new-Ready object s raw none i (ps, heard, fits) =
    let content = content_of s in
    let part = new_call raw in
    let b : ToolCallBlock = record { content_index = length content; partial_args = "" } in
    let last = get_elem?-append content [] part in
    rw (new_index_lem s part) (
      (
        ps ++ Piece.call "" ∷ [],
        open-Heard object s.out ps content (Piece.call "") part _ heard fits.told refl refl refl,
        record {
          told = TellAll-append ps content (Piece.call "") part fits.told tt;
          text_at = PartAt-append Kind.text s.text_block content part fits.text_at;
          thinking_at = PartAt-append Kind.thinking s.thinking_block content part fits.thinking_at;
          tools_at =
              All-append (ToolAt (ps ++ Piece.call "" ∷ []) (content ++ part ∷ [])) s.tool_order
                (b ∷ []) (tools-append ps content (Piece.call "") part s.tool_order fits.tools_at)
                (
                  (
                    _,
                    last,
                    rw (← TellAll-length ps content fits.told)
                        (get_elem?-append ps [] (Piece.call "")),
                  ),
                  tt,
                );
          rising = Rising-append ps content s.tool_order b fits.tools_at refl fits.rising;
          index_known = grown-AllKnown s.tool_order b s.tool_by_index fits.index_known;
          id_known = grown-AllKnown s.tool_order b s.tool_by_id fits.id_known;
        },
      ),
      omega (arith, length-append s.tool_order (b ∷ [])),
    )

at_key-AllKnown :
    {A : Type 0} (n k : ℕ) (o : Option A) (m : List (A × ℕ))
    → k < n
    → AllKnown n m
    → AllKnown n (at_key o k m)
at_key-AllKnown n k none m h i = i
at_key-AllKnown n k (some a) m h i = (h, i)

unless-AllKnown :
    {A : Type 0} (n k : ℕ) (t : Bool) (a : A) (m : List (A × ℕ))
    → k < n
    → AllKnown n m
    → AllKnown n (if t then m else (a, k) ∷ m)
unless-AllKnown n k true a m h i = i
unless-AllKnown n k false a m h i = (h, i)

register-Agrees :
    (object : String → String) (s : Decoding) (raw : RawToolCall) (k : ℕ)
    → k < length s.tool_order
    → Agrees object s
    → Agrees object (register raw s k)
register-Agrees object s raw k i (ps, heard, fits) = (
  ps,
  heard,
  record {
    told = fits.told;
    text_at = fits.text_at;
    thinking_at = fits.thinking_at;
    tools_at = fits.tools_at;
    rising = fits.rising;
    index_known =
        at_key-AllKnown (length s.tool_order) k raw.index s.tool_by_index i fits.index_known;
    id_known =
        unless-AllKnown (length s.tool_order) k (raw.id =ₛ "") raw.id s.tool_by_id i fits.id_known;
  },
)

-- A call changes, but not its arguments as a text.
pub recall-Agrees :
    (object : String → String) (s : Decoding) (ps : List Piece) (k : ℕ) (b : ToolCallBlock)
    (c c' : ToolCall)
    → Heard object s.out ps
    → FitsAt s ps
    → get_elem? s.tool_order k ≡ some b
    → get_elem? (content_of s) b.content_index ≡ some (AssistantPart.tool_call c)
    → get_elem? ps b.content_index ≡ some (Piece.call b.partial_args)
    → Fits
        (set (content_of s) b.content_index (AssistantPart.tool_call c'))
        s.text_block
        s.thinking_block
        s.tool_order
        s.tool_by_index
        s.tool_by_id
        ps
recall-Agrees object s ps k b c c' heard fits g e f =
    rw (set-same s.tool_order k b g, set-same ps b.content_index (Piece.call b.partial_args) f) at
      (set_call-Fits s ps k b c c' b.partial_args fits g e)

-- There is no panic, and the blocks are kept.
abbrev Keeps : (String → String) → List ToolCallBlock → Option Decoding → Type 0
Keeps object tools none = ⊥
Keeps object tools (some t) = Agrees object t × (t.tool_order ≡ tools)

detail-Keeps :
    (object : String → String) (s : Decoding) (k : ℕ) (b : ToolCallBlock) (id : String)
    (o : Option String)
    → Agrees object s
    → get_elem? s.tool_order k ≡ some b
    → Keeps object s.tool_order (apply_detail s b id o)
detail-Keeps object s k b id none h g = (h, refl)
detail-Keeps object s k b id (some signature) (ps, heard, fits) g =
    let (c, e, f) = All-get (ToolAt ps (content_of s)) s.tool_order k b fits.tools_at g in
    rw e ((ps, heard, recall-Agrees object s ps k b c (signed signature c) heard fits g e f), refl)

pending-Keeps :
    (object : String → String) (s : Decoding) (k : ℕ) (b : ToolCallBlock)
    → Agrees object s
    → get_elem? s.tool_order k ≡ some b
    → Keeps object s.tool_order (apply_pending s b)
unfolding apply_pending
pending-Keeps object s k b h g =
    let (c, e, f) = All-get (ToolAt h.0 (content_of s)) s.tool_order k b h.2.tools_at g in
    rw e (elim (Bool-cases (c.id =ₛ "")) [
      | inl n ↦ rw n (h, refl)
      | inr n ↦ rw n (detail-Keeps object s k b c.id (find_id c.id s.pending) h g)
    ])

abbrev pub HoldsReady : (String → String) → Option (Decoding × ℕ) → Type 0
HoldsReady object none = ⊥
HoldsReady object (some r) = ToolReady object r

kept-Ready :
    (object : String → String) (k : ℕ) (tools : List ToolCallBlock) (o : Option Decoding)
    → k < length tools
    → Keeps object tools o
    → HoldsReady object (and_then o (λ t. some (t, k)))
kept-Ready object k tools none i h = h
kept-Ready object k tools (some t) i (h, e) = (h, rw e i)

applied-Ready :
    (object : String → String) (s : Decoding) (k : ℕ)
    → Agrees object s
    → k < length s.tool_order
    → HoldsReady object (applied_at s k)
applied-Ready object s k h i =
    let (b, g) = get_of_lt s.tool_order k i in
    rw g (kept-Ready object k s.tool_order (apply_pending s b) i (pending-Keeps object s k b h g))

registered-Ready :
    (object : String → String) (raw : RawToolCall) (r : Decoding × ℕ)
    → ToolReady object r
    → HoldsReady object (registered_at raw r)
registered-Ready object raw (s, k) (h, i) =
    applied-Ready object (register raw s k) k (register-Agrees object s raw k i h) i

pub ensure_tool_call_block-Ready :
    (object : String → String) (s : Decoding) (raw : RawToolCall)
    → Agrees object s
    → HoldsReady object (ensure_tool_call_block s raw)
unfolding ensure_tool_call_block
ensure_tool_call_block-Ready object s raw h =
    registered-Ready object raw (tool_or_new s raw (find_tool s raw))
      (tool_or_new-Ready object s raw (find_tool s raw) (find_tool-IsKnown s h.0 raw h.2) h)
