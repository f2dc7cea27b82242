-- ===== src/OpenAi/Replay.antt =====
-- What a consumer of the events of an OpenAI completions turn has, against what the decoder has.
pub mod Tools
pub mod Steps
pub mod Calls
pub mod Deltas
pub mod Whole
use kern_proxy.Base.{
  ℕ, ◌≡◌, ◌<◌, Bool, true, false, Option, none, some, List, [], ◌∷◌, String, get_elem?, length, All,
}
use kern_proxy.Base.Int.{ℤ}
use kern_proxy.Messages.{AssistantPart, ToolCall}
use kern_proxy.Stream.{Stream}
use kern_proxy.Anthropic.Blocks.{Kind}
use kern_proxy.Replay.{Piece, replay}
use kern_proxy.Replay.Told.{TellAll}
use kern_proxy.OpenAi.Blocks.{ToolCallBlock, Decoding, content_of}

abbrev pub kind_of : AssistantPart → Kind
kind_of (AssistantPart.text _) = Kind.text
kind_of (AssistantPart.thinking _) = Kind.thinking
kind_of (AssistantPart.tool_call _) = Kind.tool_call

-- The block that a variable points to, if there is one, is of the kind.
abbrev pub PartAt : Kind → Option ℕ → List AssistantPart → Type 0
PartAt kind none content = Unit
PartAt kind (some i) content =
    (q : AssistantPart) × (get_elem? content i ≡ some q) × (kind_of q ≡ kind)

-- A tool block points to a call, and the consumer has its JSON text.
abbrev pub ToolAt : List Piece → List AssistantPart → ToolCallBlock → Type 0
ToolAt ps content b =
    (c : ToolCall) × (get_elem? content b.content_index ≡ some (AssistantPart.tool_call c))
    × (get_elem? ps b.content_index ≡ some (Piece.call b.partial_args))

-- No two tool blocks point to one call.
abbrev pub Rising : List ToolCallBlock → Type 0
Rising [] = Unit
Rising (b ∷ bs) = All (λ d. b.content_index < d.content_index) bs × Rising bs

-- The consumer has the pieces, and the stream is open.
pub record Heard (object : String → String) (out : Stream) (ps : List Piece) : Type 0 where
  pub going : out.done ≡ false
  pub replayed : replay object [] out.queue ≡ some ps

-- The pointers lead to what they are taken for, and the pieces are the content.
pub record Fits (content : List AssistantPart) (text_block thinking_block : Option ℕ)
    (tools : List ToolCallBlock) (by_index : List (ℤ × ℕ)) (by_id : List (String × ℕ))
    (ps : List Piece) : Type 0 where
  pub told : TellAll ps content
  pub text_at : PartAt Kind.text text_block content
  pub thinking_at : PartAt Kind.thinking thinking_block content
  pub tools_at : All (ToolAt ps content) tools
  pub rising : Rising tools
  pub index_known : All (λ e. e.1 < length tools) by_index
  pub id_known : All (λ e. e.1 < length tools) by_id

abbrev pub FitsAt : Decoding → List Piece → Type 0
FitsAt s ps =
    Fits (content_of s) s.text_block s.thinking_block s.tool_order s.tool_by_index s.tool_by_id ps

abbrev pub Agrees : (String → String) → Decoding → Type 0
Agrees object s = (ps : List Piece) × Heard object s.out ps × FitsAt s ps

-- There is no panic, and what is left agrees.
abbrev pub Holds : (String → String) → Option Decoding → Type 0
Holds object none = ⊥
Holds object (some s) = Agrees object s
