-- ===== src/Anthropic/Replay.antt =====
-- What a consumer of the events of an Anthropic turn has, against what the decoder has.
pub mod Laws
pub mod Steps
pub mod Whole
use kern_proxy.Base.{◌≡◌, Bool, true, false, some, List, [], ◌∷◌, ◌&&◌}
use kern_proxy.Messages.{AssistantPart}
use kern_proxy.Anthropic.Wire.{Json}
use kern_proxy.Anthropic.Blocks.{Kind, BlockState, Decoding, content_of}
use kern_proxy.Replay.{Piece, replay}

-- What the decoder has itself.
abbrev pub piece : BlockState → AssistantPart → Piece
piece b (AssistantPart.text t) = Piece.text t.text
piece b (AssistantPart.thinking t) = Piece.thinking t.thinking
piece b (AssistantPart.tool_call _) = Piece.call b.partial_json

unfoldable pub pieces : List BlockState → List AssistantPart → List Piece
pieces (b ∷ bs) (p ∷ ps) = piece b p ∷ pieces bs ps
pieces _ _ = []

abbrev pub fits : BlockState → AssistantPart → Bool
fits b (AssistantPart.text _) = elim b.kind [ Kind.text ↦ true | _ ↦ false ]
fits b (AssistantPart.thinking _) = elim b.kind [ Kind.thinking ↦ true | _ ↦ false ]
fits b (AssistantPart.tool_call _) = elim b.kind [ Kind.tool_call ↦ true | _ ↦ false ]

-- A block is kept for each part of the content, and is of its type.
unfoldable pub aligned : List BlockState → List AssistantPart → Bool
aligned [] [] = true
aligned (b ∷ bs) (p ∷ ps) = fits b p && aligned bs ps
aligned _ _ = false

-- The stream is open, and the consumer's blocks are the decoder's.
abbrev pub Agrees : Json → Decoding → Type 0
Agrees j s =
    (s.out.done ≡ false)
    × (aligned s.blocks (content_of s) ≡ true)
    × (replay j.object [] s.out.queue ≡ some (pieces s.blocks (content_of s)))
