-- ===== src/OpenAi/Replay/Steps.antt =====
-- Each closure and each change of a block keeps the consumer and the decoder in agreement.
use mathlib.Core.Path.{subst}
use kern_proxy.Base.{
  ℕ, ◌≡◌, ◌≢◌, ◌==◌, refl, ◌∙◌, true, false, Option, none, some, List, [], ◌∷◌, ◌++◌, String,
  get_elem?, set, length, arith, length-append, length-set, get_elem?-append,
}
use kern_proxy.Messages.{AssistantPart, ToolCall}
use kern_proxy.Stream.{Event, Stream, push, is_terminal_event}
use kern_proxy.Anthropic.Blocks.{Kind}
use kern_proxy.Replay.{Piece, follow, opens, open_piece}
use kern_proxy.Replay.Told.{told, Tells, TellAll, TellAll-set, TellAll-append, TellAll-length}
use kern_proxy.OpenAi.Blocks.{
  ToolCallBlock, Decoding, content_of, new_index, empty_text, text_block_or_new, ensure_text_block,
  empty_thinking, thinking_block_or_new, ensure_thinking_block,
}
use kern_proxy.OpenAi.Replay.{kind_of, PartAt, Heard, Fits, FitsAt, Agrees}
use kern_proxy.OpenAi.Replay.Tools.{
  PartAt-append, PartAt-set, tools-append, tools-set_part, tools-set_call, Rising-set,
}

pub push-Heard :
    (object : String → String) (out : Stream) (ps qs : List Piece) (ev : Event)
    → Heard object out ps
    → is_terminal_event ev ≡ false
    → follow object ps ev ≡ some qs
    → Heard object (push out ev) qs
push-Heard object out ps qs ev h t k =
    let (d, q) = told object out ev ps qs h.going t h.replayed k in
    record { going = d; replayed = q }

-- A part is added at the end, with its start event.
pub open-Heard :
    (object : String → String) (out : Stream) (ps : List Piece) (content : List AssistantPart)
    (p : Piece) (q : AssistantPart) (ev : Event)
    → Heard object out ps
    → TellAll ps content
    → opens (some q) ≡ some p
    → is_terminal_event ev ≡ false
    → follow object ps ev
      ≡ open_piece ps (length content) (opens (get_elem? (content ++ q ∷ []) (length content)))
    → Heard object (push out ev) (ps ++ p ∷ [])
open-Heard object out ps content p q ev h l o t k =
    let same : (length content == length ps) ≡ true = ground (arith, TellAll-length ps content l) in
    push-Heard object out ps (ps ++ p ∷ []) ev h t
      (k ∙ rw (get_elem?-append content [] q, o, same) refl)

pub new_index_lem : (s : Decoding) (q : AssistantPart) → new_index s q ≡ length (content_of s)
new_index_lem s q = omega (arith, length-append (content_of s) (q ∷ []))

-- A closure gives the variables, and a pointer to a part of the kind.
abbrev pub Ready : (String → String) → Kind → Decoding × ℕ → Type 0
Ready object kind (s, i) = Agrees object s × PartAt kind (some i) (content_of s)

text_or_new-Ready :
    (object : String → String) (s : Decoding) (o : Option ℕ)
    → s.text_block ≡ o
    → Agrees object s
    → Ready object Kind.text (text_block_or_new s o)
unfolding follow is_terminal_event
text_or_new-Ready object s (some i) e h =
    (h, subst (λ o. PartAt Kind.text o (content_of s)) e h.2.text_at)
text_or_new-Ready object s none e (ps, heard, fits) =
    let content = content_of s in
    let last = get_elem?-append content [] empty_text in
    rw (new_index_lem s empty_text) (
      (
        ps ++ Piece.text "" ∷ [],
        open-Heard object s.out ps content (Piece.text "") empty_text _ heard fits.told refl refl
            refl,
        record {
          told = TellAll-append ps content (Piece.text "") empty_text fits.told refl;
          text_at = (empty_text, last, refl);
          thinking_at =
              PartAt-append Kind.thinking s.thinking_block content empty_text fits.thinking_at;
          tools_at = tools-append ps content (Piece.text "") empty_text s.tool_order fits.tools_at;
          rising = fits.rising;
          index_known = fits.index_known;
          id_known = fits.id_known;
        },
      ),
      (empty_text, last, refl),
    )

pub ensure_text_block-Ready :
    (object : String → String) (s : Decoding)
    → Agrees object s
    → Ready object Kind.text (ensure_text_block s)
unfolding ensure_text_block
ensure_text_block-Ready object s h = text_or_new-Ready object s s.text_block refl h

thinking_or_new-Ready :
    (object : String → String) (s : Decoding) (field : String) (o : Option ℕ)
    → s.thinking_block ≡ o
    → Agrees object s
    → Ready object Kind.thinking (thinking_block_or_new s field o)
unfolding follow is_terminal_event
thinking_or_new-Ready object s field (some i) e h =
    (h, subst (λ o. PartAt Kind.thinking o (content_of s)) e h.2.thinking_at)
thinking_or_new-Ready object s field none e (ps, heard, fits) =
    let content = content_of s in
    let part = empty_thinking field in
    let last = get_elem?-append content [] part in
    rw (new_index_lem s part) (
      (
        ps ++ Piece.thinking "" ∷ [],
        open-Heard object s.out ps content (Piece.thinking "") part _ heard fits.told refl refl
            refl,
        record {
          told = TellAll-append ps content (Piece.thinking "") part fits.told refl;
          text_at = PartAt-append Kind.text s.text_block content part fits.text_at;
          thinking_at = (part, last, refl);
          tools_at = tools-append ps content (Piece.thinking "") part s.tool_order fits.tools_at;
          rising = fits.rising;
          index_known = fits.index_known;
          id_known = fits.id_known;
        },
      ),
      (part, last, refl),
    )

pub ensure_thinking_block-Ready :
    (object : String → String) (s : Decoding) (field : String)
    → Agrees object s
    → Ready object Kind.thinking (ensure_thinking_block s field)
unfolding ensure_thinking_block
ensure_thinking_block-Ready object s field h =
    thinking_or_new-Ready object s field s.thinking_block refl h

-- A part that is no call changes.
pub set_part-Fits :
    (s : Decoding) (ps : List Piece) (i : ℕ) (p : Piece) (q r : AssistantPart)
    → FitsAt s ps
    → get_elem? (content_of s) i ≡ some q
    → kind_of q ≢ Kind.tool_call
    → kind_of r ≡ kind_of q
    → Tells p r
    → Fits
        (set (content_of s) i r)
        s.text_block
        s.thinking_block
        s.tool_order
        s.tool_by_index
        s.tool_by_id
        (set ps i p)
set_part-Fits s ps i p q r fits e n k t =
    let content = content_of s in
    record {
      told = TellAll-set ps content i p r fits.told t;
      text_at = PartAt-set Kind.text s.text_block content i q r e k fits.text_at;
      thinking_at = PartAt-set Kind.thinking s.thinking_block content i q r e k fits.thinking_at;
      tools_at = tools-set_part ps content i p q r s.tool_order e n fits.tools_at;
      rising = fits.rising;
      index_known = fits.index_known;
      id_known = fits.id_known;
    }

-- A call changes, and what its block has of its arguments.
pub set_call-Fits :
    (s : Decoding) (ps : List Piece) (k : ℕ) (b : ToolCallBlock) (c c' : ToolCall) (args : String)
    → FitsAt s ps
    → get_elem? s.tool_order k ≡ some b
    → get_elem? (content_of s) b.content_index ≡ some (AssistantPart.tool_call c)
    → Fits
        (set (content_of s) b.content_index (AssistantPart.tool_call c'))
        s.text_block
        s.thinking_block
        (set s.tool_order k (record b { partial_args = args }))
        s.tool_by_index
        s.tool_by_id
        (set ps b.content_index (Piece.call args))
set_call-Fits s ps k b c c' args fits g e =
    let content = content_of s in
    let i = b.content_index in
    let q = AssistantPart.tool_call c in
    let r = AssistantPart.tool_call c' in
    record {
      told = TellAll-set ps content i (Piece.call args) r fits.told tt;
      text_at = PartAt-set Kind.text s.text_block content i q r e refl fits.text_at;
      thinking_at = PartAt-set Kind.thinking s.thinking_block content i q r e refl fits.thinking_at;
      tools_at = tools-set_call ps content s.tool_order k b c' args fits.tools_at fits.rising g;
      rising = Rising-set s.tool_order k b args g fits.rising;
      index_known =
          rw (length-set s.tool_order k (record b { partial_args = args })) fits.index_known;
      id_known = rw (length-set s.tool_order k (record b { partial_args = args })) fits.id_known;
    }
