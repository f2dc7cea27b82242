-- ===== src/OpenAi/Blocks.antt =====
-- The blocks that `decodeEvents` of ai/apis/openaicompletions/openaicompletions.go assembles: its variables, and the
-- three closures that open a block where there is none. `none` as a result is a panic: an index out
-- of range, or a type assertion that fails.
use kern_proxy.Base.{
  ℕ, ◌-◌, Bool, false, Option, none, some, List, [], ◌∷◌, ◌++◌, String, ◌=ₛ◌, if◌then◌else◌, items,
  length, get_elem?, set,
}
use kern_proxy.Base.Int.{ℤ, eq_ℤ}
use kern_proxy.Messages.{ToolCall, AssistantPart, AssistantMessage}
use kern_proxy.Stream.{Event, Stream, push}
use kern_proxy.OpenAi.Wire.{RawFunction, RawToolCall}

-- `toolCallBlock`
pub record ToolCallBlock : Type 0 where
  pub content_index : ℕ
  pub partial_args : String

-- The variables of `decodeEvents`, with `output` and `out`, which it changes. A `*toolCallBlock` is its
-- place in `toolOrder`. The maps are lists, in which the first entry of a key is its value.
pub record Decoding : Type 0 where
  pub out : Stream
  pub output : AssistantMessage
  pub text_block : Option ℕ
  pub thinking_block : Option ℕ
  pub thinking_field : String
  pub tool_by_index : List (ℤ × ℕ)
  pub tool_by_id : List (String × ℕ)
  pub tool_order : List ToolCallBlock
  pub has_finish_reason : Bool
  pub pending : List (String × String)  -- `pendingReasoningDetails`

abbrev pub content_of : Decoding → List AssistantPart
content_of s = items s.output.content

abbrev pub with_content : Decoding → List AssistantPart → Decoding
with_content s parts = record s { output = record s.output { content = some parts } }

-- `out.Push`
abbrev pub emit : Decoding → (Option AssistantMessage → Event) → Decoding
emit s ev = record s { out = push s.out (ev (some s.output)) }

abbrev pub and_then : {A B : Type 0} → Option A → (A → Option B) → Option B
and_then none f = none
and_then (some a) f = f a

unfoldable pub find_index : ℤ → List (ℤ × ℕ) → Option ℕ
find_index n [] = none
find_index n ((m, k) ∷ rest) = let later = find_index n rest in if eq_ℤ m n then some k else later

unfoldable pub find_id : {A : Type 0} → String → List (String × A) → Option A
find_id id [] = none
find_id id ((other, a) ∷ rest) =
    let later = find_id id rest in if other =ₛ id then some a else later

-- `delete`
unfoldable pub remove_id : String → List (String × String) → List (String × String)
remove_id id [] = []
remove_id id ((other, a) ∷ rest) =
    let later = remove_id id rest in if other =ₛ id then later else (other, a) ∷ later

-- `append` to the content, and the start event of the block.
abbrev pub open_block : Decoding → AssistantPart → (ℕ → Option AssistantMessage → Event) → Decoding
open_block s part ev =
    let s' = with_content s (content_of s ++ part ∷ []) in emit s' (ev (length (content_of s') - 1))

abbrev pub new_index : Decoding → AssistantPart → ℕ
new_index s part = length (content_of s ++ part ∷ []) - 1

abbrev pub empty_text : AssistantPart
empty_text = AssistantPart.text (record { text = ""; text_signature = "" })

abbrev pub text_block_or_new : Decoding → Option ℕ → Decoding × ℕ
text_block_or_new s (some i) = (s, i)
text_block_or_new s none = (
  open_block (record s { text_block = some (new_index s empty_text) }) empty_text Event.text_start,
  new_index s empty_text,
)

-- `ensureTextBlock`
unfoldable pub ensure_text_block : Decoding → Decoding × ℕ
ensure_text_block s = text_block_or_new s s.text_block

abbrev pub empty_thinking : String → AssistantPart
empty_thinking field =
    AssistantPart.thinking (record { thinking = ""; thinking_signature = field; redacted = false })

abbrev pub thinking_block_or_new : Decoding → String → Option ℕ → Decoding × ℕ
thinking_block_or_new s field (some i) = (s, i)
thinking_block_or_new s field none = (
  open_block
      (record s {
        thinking_block = some (new_index s (empty_thinking field));
        thinking_field = field;
      })
      (empty_thinking field) Event.thinking_start,
  new_index s (empty_thinking field),
)

-- `ensureThinkingBlock`
unfoldable pub ensure_thinking_block : Decoding → String → Decoding × ℕ
ensure_thinking_block s field = thinking_block_or_new s field s.thinking_block

abbrev pub at_index : Decoding → Option ℤ → Option ℕ
at_index s none = none
at_index s (some n) = find_index n s.tool_by_index

abbrev pub or_at_id : Decoding → String → Option ℕ → Option ℕ
or_at_id s id (some k) = some k
or_at_id s id none = if id =ₛ "" then none else find_id id s.tool_by_id

-- The block that a delta belongs to, if there is one.
unfoldable pub find_tool : Decoding → RawToolCall → Option ℕ
find_tool s raw = or_at_id s raw.id (at_index s raw.index)

abbrev pub name_of : Option RawFunction → String
name_of none = ""
name_of (some f) = f.name

abbrev pub new_call : RawToolCall → AssistantPart
new_call raw = AssistantPart.tool_call (record {
  id = raw.id;
  name = name_of raw.function;
  arguments = some "{}";
  thought_signature = "";
})

abbrev pub tool_or_new : Decoding → RawToolCall → Option ℕ → Decoding × ℕ
tool_or_new s raw (some k) = (s, k)
tool_or_new s raw none = (
  open_block
      (record s {
        tool_order =
            s.tool_order
            ++ record { content_index = new_index s (new_call raw); partial_args = "" } ∷ [];
      })
      (new_call raw) Event.tool_call_start,
  length s.tool_order,
)

abbrev pub at_key : {A : Type 0} → Option A → ℕ → List (A × ℕ) → List (A × ℕ)
at_key none k m = m
at_key (some a) k m = (a, k) ∷ m

-- The entries of `toolByIndex` and `toolByID`.
abbrev pub register : RawToolCall → Decoding → ℕ → Decoding
register raw s k = record s {
  tool_by_index = at_key raw.index k s.tool_by_index;
  tool_by_id = if raw.id =ₛ "" then s.tool_by_id else (raw.id, k) ∷ s.tool_by_id;
}

-- A part of the content changes; `none` is a type assertion that fails.
abbrev pub edited : Decoding → ℕ → Option AssistantPart → Option Decoding
edited s i none = none
edited s i (some part) = some (with_content s (set (content_of s) i part))

abbrev pub edit : Decoding → ℕ → (AssistantPart → Option AssistantPart) → Option Decoding
edit s i change = edited s i (and_then (get_elem? (content_of s) i) change)

abbrev pub on_call : (ToolCall → ToolCall) → AssistantPart → Option AssistantPart
on_call f (AssistantPart.tool_call c) = some (AssistantPart.tool_call (f c))
on_call f _ = none

abbrev pub call_of : AssistantPart → Option ToolCall
call_of (AssistantPart.tool_call c) = some c
call_of _ = none

abbrev pub tool_content : Decoding → ToolCallBlock → Option ToolCall
tool_content s b = and_then (get_elem? (content_of s) b.content_index) call_of

abbrev pub signed : String → ToolCall → ToolCall
signed signature c = record c { thought_signature = signature }

abbrev pub apply_detail : Decoding → ToolCallBlock → String → Option String → Option Decoding
apply_detail s b id none = some s
apply_detail s b id (some signature) =
    edit (record s { pending = remove_id id s.pending }) b.content_index
      (on_call (signed signature))

-- The reasoning details that came before the call.
unfoldable pub apply_pending : Decoding → ToolCallBlock → Option Decoding
apply_pending s b =
    and_then (tool_content s b)
      (λ c. if c.id =ₛ "" then some s else apply_detail s b c.id (find_id c.id s.pending))

abbrev pub applied_at : Decoding → ℕ → Option (Decoding × ℕ)
applied_at s k =
    and_then (get_elem? s.tool_order k) (λ b. and_then (apply_pending s b) (λ t. some (t, k)))

abbrev pub registered_at : RawToolCall → Decoding × ℕ → Option (Decoding × ℕ)
registered_at raw (s, k) = applied_at (register raw s k) k

-- `ensureToolCallBlock`
unfoldable pub ensure_tool_call_block : Decoding → RawToolCall → Option (Decoding × ℕ)
ensure_tool_call_block s raw = registered_at raw (tool_or_new s raw (find_tool s raw))
