-- ===== src/Replay.antt =====
-- What a consumer of the events of a turn makes of them, whatever adapter they come from: it opens a block
-- where one starts, adds up the deltas, and compares what it has with what an end event says.
pub mod Told
use kern_proxy.Base.{
  ℕ, Bool, true, false, Option, none, some, List, [], ◌∷◌, ◌++◌, String, ◌=ₛ◌, ◌+ₛ◌, ◌==◌,
  if◌then◌else◌, items, length, get_elem?, set,
}
use kern_proxy.Messages.{AssistantPart, ToolCall}
use kern_proxy.Stream.{Pointer, Event}

-- A block, as far as the deltas tell: a call has the JSON text of its arguments.
pub data Piece : Type 0 where
  text thinking call : String → Piece

abbrev pub part_at : Pointer → ℕ → Option AssistantPart
part_at none i = none
part_at (some m) i = get_elem? (items m.content) i

abbrev pub opens : Option AssistantPart → Option Piece
opens (some (AssistantPart.text t)) = some (Piece.text t.text)
opens (some (AssistantPart.thinking t)) = some (Piece.thinking t.thinking)
opens (some (AssistantPart.tool_call _)) = some (Piece.call "")
opens none = none

-- The piece that starts at the end of those there are.
abbrev pub open_piece : List Piece → ℕ → Option Piece → Option (List Piece)
open_piece ps i none = none
open_piece ps i (some p) = if i == length ps then some (ps ++ p ∷ []) else none

abbrev pub change_piece : List Piece → ℕ → Option Piece → Option (List Piece)
change_piece ps i none = none
change_piece ps i (some p) = some (set ps i p)

abbrev pub add_to_text : String → Option Piece → Option Piece
add_to_text d (some (Piece.text t)) = some (Piece.text (t +ₛ d))
add_to_text d _ = none

abbrev pub add_to_thinking : String → Option Piece → Option Piece
add_to_thinking d (some (Piece.thinking t)) = some (Piece.thinking (t +ₛ d))
add_to_thinking d _ = none

abbrev pub add_to_call : String → Option Piece → Option Piece
add_to_call d (some (Piece.call t)) = some (Piece.call (t +ₛ d))
add_to_call d _ = none

abbrev pub same_text : String → Option Piece → Bool
same_text t (some (Piece.text u)) = t =ₛ u
same_text t _ = false

abbrev pub same_thinking : String → Option Piece → Bool
same_thinking t (some (Piece.thinking u)) = t =ₛ u
same_thinking t _ = false

abbrev pub same_arguments : Option String → String → Bool
same_arguments none u = false
same_arguments (some t) u = t =ₛ u

-- The arguments are what the JSON text reads as; `object` reads it.
abbrev pub same_call : (String → String) → ToolCall → Option Piece → Bool
same_call object c (some (Piece.call u)) = same_arguments c.arguments (object u)
same_call object c _ = false

-- `none` is an event that contradicts the ones before it. A turn goes on while there is no terminal event.
unfoldable pub follow : (String → String) → List Piece → Event → Option (List Piece)
follow object ps (Event.start _) = some []
follow object ps (Event.text_start i m) = open_piece ps i (opens (part_at m i))
follow object ps (Event.text_delta i d _) = change_piece ps i (add_to_text d (get_elem? ps i))
follow object ps (Event.text_end i t _) = if same_text t (get_elem? ps i) then some ps else none
follow object ps (Event.thinking_start i m) = open_piece ps i (opens (part_at m i))
follow object ps (Event.thinking_delta i d _) =
    change_piece ps i (add_to_thinking d (get_elem? ps i))
follow object ps (Event.thinking_end i t _) =
    if same_thinking t (get_elem? ps i) then some ps else none
follow object ps (Event.tool_call_start i m) = open_piece ps i (opens (part_at m i))
follow object ps (Event.tool_call_delta i d _) = change_piece ps i (add_to_call d (get_elem? ps i))
follow object ps (Event.tool_call_end i c _) =
    if same_call object c (get_elem? ps i) then some ps else none
follow object ps (Event.done _ _) = none
follow object ps (Event.error _ _) = none

unfoldable pub replay : (String → String) → List Piece → List Event → Option (List Piece)
replay object ps [] = some ps
replay object ps (ev ∷ evs) = elim (follow object ps ev) [
  | none ↦ none
  | some qs ↦ replay object qs evs
]
