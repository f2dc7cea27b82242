-- ===== src/OpenAi/Replay/Tools.antt =====
-- The lists of a decoder that agrees, where a part is added or changed.
use kern_proxy.Base.{
  ℕ, zero, suc, ◌≡◌, ◌≢◌, ◌<◌, ◌++◌, sym, ap, ◌∙◌, Option, none, some, List, [], ◌∷◌, String,
  get_elem?, set, length, All, arith, get-append, get-lt, get-set_ne, set-get, All-mono, All-get,
  All-append,
}
use mathlib.Core.Option.{some-injective}
use native.Mathlib.Decide.{ℕ_discrete}
use kern_proxy.Messages.{AssistantPart, ToolCall}
use kern_proxy.Anthropic.Blocks.{Kind}
use kern_proxy.Replay.{Piece}
use kern_proxy.OpenAi.Blocks.{ToolCallBlock}
use kern_proxy.OpenAi.Replay.{kind_of, PartAt, ToolAt, Rising}

pub PartAt-append :
    (k : Kind) (o : Option ℕ) (content : List AssistantPart) (q : AssistantPart)
    → PartAt k o content
    → PartAt k o (content ++ q ∷ [])
PartAt-append k none content q h = tt
PartAt-append k (some i) content q (r, e, f) = (r, get-append content (q ∷ []) i r e, f)

pub PartAt-set :
    (k : Kind) (o : Option ℕ) (content : List AssistantPart) (i : ℕ) (q r : AssistantPart)
    → get_elem? content i ≡ some q
    → kind_of r ≡ kind_of q
    → PartAt k o content
    → PartAt k o (set content i r)
PartAt-set k none content i q r e f h = tt
PartAt-set k (some j) content i q r e f (p, g, l) = elim (ℕ_discrete i j) [
  | yes same ↦ (
    r,
    rw (← same) (set-get content i q r e),
    f ∙ ap kind_of (some-injective q p (sym e ∙ rw same g)) ∙ l,
  )
  | no other ↦ (p, get-set_ne content i j r other ∙ g, l)
]

pub ToolAt-append :
    (ps : List Piece) (content : List AssistantPart) (p : Piece) (q : AssistantPart)
    (b : ToolCallBlock)
    → ToolAt ps content b
    → ToolAt (ps ++ p ∷ []) (content ++ q ∷ []) b
ToolAt-append ps content p q b (c, e, f) =
    (c, get-append content (q ∷ []) _ _ e, get-append ps (p ∷ []) _ _ f)

pub ToolAt-set_ne :
    (ps : List Piece) (content : List AssistantPart) (i : ℕ) (p : Piece) (q : AssistantPart)
    (b : ToolCallBlock)
    → i ≢ b.content_index
    → ToolAt ps content b
    → ToolAt (set ps i p) (set content i q) b
ToolAt-set_ne ps content i p q b n (c, e, f) =
    (c, get-set_ne content i _ q n ∙ e, get-set_ne ps i _ p n ∙ f)

call-ne :
    (content : List AssistantPart) (i : ℕ) (q : AssistantPart) (ps : List Piece) (b : ToolCallBlock)
    → get_elem? content i ≡ some q
    → kind_of q ≢ Kind.tool_call
    → ToolAt ps content b
    → i ≢ b.content_index
call-ne content i q ps b e n (c, f, g) same =
    n (ap kind_of (some-injective q (AssistantPart.tool_call c) (sym e ∙ rw same f)))

-- A part that is no call changes.
pub tools-set_part :
    (ps : List Piece) (content : List AssistantPart) (i : ℕ) (p : Piece) (q r : AssistantPart)
    (tools : List ToolCallBlock)
    → get_elem? content i ≡ some q
    → kind_of q ≢ Kind.tool_call
    → All (ToolAt ps content) tools
    → All (ToolAt (set ps i p) (set content i r)) tools
tools-set_part ps content i p q r tools e n h =
    All-mono (ToolAt ps content) (ToolAt (set ps i p) (set content i r)) tools
      (λ b t. ToolAt-set_ne ps content i p r b (call-ne content i q ps b e n t) t) h

pub tools-append :
    (ps : List Piece) (content : List AssistantPart) (p : Piece) (q : AssistantPart)
    (tools : List ToolCallBlock)
    → All (ToolAt ps content) tools
    → All (ToolAt (ps ++ p ∷ []) (content ++ q ∷ [])) tools
tools-append ps content p q tools h =
    All-mono (ToolAt ps content) (ToolAt (ps ++ p ∷ []) (content ++ q ∷ [])) tools
      (λ b t. ToolAt-append ps content p q b t) h

later-tools :
    (ps : List Piece) (content : List AssistantPart) (i : ℕ) (p : Piece) (q : AssistantPart)
    (tools : List ToolCallBlock)
    → All (ToolAt ps content) tools
    → All (λ (d : ToolCallBlock). i < d.content_index) tools
    → All (ToolAt (set ps i p) (set content i q)) tools
later-tools ps content i p q [] h k = tt
later-tools ps content i p q (b ∷ bs) h k = (
  ToolAt-set_ne ps content i p q b (λ e. absurd (omega arith)) h.0,
  later-tools ps content i p q bs h.1 k.1,
)

-- A call changes, and its block.
pub tools-set_call :
    (ps : List Piece) (content : List AssistantPart) (tools : List ToolCallBlock) (k : ℕ)
    (b : ToolCallBlock) (c : ToolCall) (args : String)
    → All (ToolAt ps content) tools
    → Rising tools
    → get_elem? tools k ≡ some b
    → All
        (ToolAt
          (set ps b.content_index (Piece.call args))
          (set content b.content_index (AssistantPart.tool_call c)))
        (set tools k (record b { partial_args = args }))
tools-set_call ps content [] k b c args h r e = tt
tools-set_call ps content (d ∷ ds) zero b c args (t, h) r e =
    let same : d ≡ b = some-injective d b e in
    let (c', f, g) = t in
    (
      (
        c,
        set-get content b.content_index (AssistantPart.tool_call c') (AssistantPart.tool_call c)
            (rw (← same) f),
        set-get ps b.content_index (Piece.call d.partial_args) (Piece.call args) (rw (← same) g),
      ),
      later-tools ps content b.content_index _ _ ds h (rw (← same) r.0),
    )
tools-set_call ps content (d ∷ ds) (suc k) b c args h r e =
    let before : d.content_index < b.content_index =
      All-get (λ (x : ToolCallBlock). d.content_index < x.content_index) ds k b r.0 e in
    (
      ToolAt-set_ne ps content b.content_index _ _ d (λ same. absurd (omega arith)) h.0,
      tools-set_call ps content ds k b c args h.1 r.1 e,
    )

above-set :
    (i : ℕ) (tools : List ToolCallBlock) (k : ℕ) (b : ToolCallBlock) (args : String)
    → get_elem? tools k ≡ some b
    → All (λ (d : ToolCallBlock). i < d.content_index) tools
    → All
        (λ (d : ToolCallBlock). i < d.content_index)
        (set tools k (record b { partial_args = args }))
above-set i [] k b args e h = tt
above-set i (d ∷ ds) zero b args e h =
    (All-get (λ (x : ToolCallBlock). i < x.content_index) (d ∷ ds) zero b h e, h.1)
above-set i (d ∷ ds) (suc k) b args e h = (h.0, above-set i ds k b args e h.1)

pub Rising-set :
    (tools : List ToolCallBlock) (k : ℕ) (b : ToolCallBlock) (args : String)
    → get_elem? tools k ≡ some b
    → Rising tools
    → Rising (set tools k (record b { partial_args = args }))
Rising-set [] k b args e h = tt
Rising-set (d ∷ ds) zero b args e h =
    let same : d ≡ b = some-injective d b e in (rw (← same) h.0, h.1)
Rising-set (d ∷ ds) (suc k) b args e h =
    (above-set d.content_index ds k b args e h.0, Rising-set ds k b args e h.1)

-- The block of a new call.
pub Rising-append :
    (ps : List Piece) (content : List AssistantPart) (tools : List ToolCallBlock)
    (b : ToolCallBlock)
    → All (ToolAt ps content) tools
    → b.content_index ≡ length content
    → Rising tools
    → Rising (tools ++ b ∷ [])
Rising-append ps content [] b h e r = (tt, tt)
Rising-append ps content (d ∷ ds) b ((c, f, g), h) e r = (
  All-append (λ (x : ToolCallBlock). d.content_index < x.content_index) ds (b ∷ []) r.0
      (omega (arith, get-lt content d.content_index _ f), tt),
  Rising-append ps content ds b h e r.1,
)
