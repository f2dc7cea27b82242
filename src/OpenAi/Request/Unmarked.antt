-- ===== src/OpenAi/Request/Unmarked.antt =====
-- What is marked as a cache breakpoint in a request, and that the conversion marks nothing.
use kern_proxy.Base.{
  ℕ, ◌≡◌, ◌+◌, refl, ◌=ₛ◌, Bool, true, false, not, ◌&&◌, Option, none, some, List, [], ◌∷◌, ◌++◌,
  String, arith, items, Bool-cases, inl, inr,
}
use kern_proxy.Base.Int.{ℤ}
use kern_proxy.Messages.{UserPart, AssistantPart, UserMessage, Message, Model, ThinkingContent}
use kern_proxy.Anthropic.Convert.{CacheControl}
use kern_proxy.Anthropic.Request.{Tool}
use kern_proxy.OpenAi.Message.{Content, ContentPart, Reasoning, WireMessage, Options}
use kern_proxy.OpenAi.Convert.{
  user_parts, user_content, text_parts, content_and_reasoning, is_empty, has_content, wire_calls,
  assistant_wire, or_left_out, convert_assistant_message, convert_tool_result_message,
  convert_user_message, bridge, shown_texts, thinking_blocks, convert_all, convert_messages,
}
use kern_proxy.OpenAi.Request.{Input, WireTool, WireRequest, convert_tools, request_tools}

abbrev pub mark : Option CacheControl → ℕ
mark none = 0
mark (some c) = 1

abbrev pub part_marks : List ContentPart → ℕ
part_marks [] = 0
part_marks (p ∷ ps) = mark p.cache + part_marks ps

abbrev pub content_marks : Content → ℕ
content_marks Content.absent = 0
content_marks (Content.plain t) = 0
content_marks (Content.parts ps) = part_marks ps

abbrev pub message_marks : List WireMessage → ℕ
message_marks [] = 0
message_marks (w ∷ ws) = content_marks w.content + message_marks ws

abbrev pub tool_marks : List WireTool → ℕ
tool_marks [] = 0
tool_marks (t ∷ ts) = mark t.cache + tool_marks ts

abbrev pub breakpoints : WireRequest → ℕ
breakpoints r = message_marks r.messages + tool_marks (items r.tools)

pub message_marks-append :
    (xs ys : List WireMessage) → message_marks (xs ++ ys) ≡ message_marks xs + message_marks ys
message_marks-append [] ys = omega arith
message_marks-append (x ∷ xs) ys = omega (arith, message_marks-append xs ys)

user_parts-unmarked : (bs : List UserPart) → part_marks (user_parts bs) ≡ 0
unfolding user_parts
user_parts-unmarked [] = refl
user_parts-unmarked (UserPart.text t ∷ bs) = omega (arith, user_parts-unmarked bs)
user_parts-unmarked (UserPart.image i ∷ bs) = omega (arith, user_parts-unmarked bs)

user_content-unmarked : (o : Option String) (m : UserMessage) → content_marks (user_content o m) ≡ 0
user_content-unmarked none m = user_parts-unmarked (items m.content.blocks)
user_content-unmarked (some t) m = refl

text_parts-unmarked : (ts : List String) → part_marks (text_parts ts) ≡ 0
text_parts-unmarked [] = refl
text_parts-unmarked (t ∷ ts) = omega (arith, text_parts-unmarked ts)

shape-unmarked :
    (o : Options) (ts : List String) (ks : List ThinkingContent)
    → content_marks (content_and_reasoning o ts ks).0 ≡ 0
unfolding content_and_reasoning
shape-unmarked o ts [] = ground arith
shape-unmarked o ts (k ∷ ks) = ground (arith, text_parts-unmarked ts)

assistant-unmarked :
    (o : Options) (ps : List AssistantPart) (r : Content × Reasoning)
    → content_marks r.0 ≡ 0
    → message_marks (or_left_out (assistant_wire o ps r)) ≡ 0
assistant-unmarked o ps (content, r) h =
    elim (Bool-cases (not (has_content content) && is_empty (wire_calls ps))) [
      | inl e ↦ rw e refl
      | inr e ↦ rw e (omega arith)
    ]

bridge-unmarked : (o : Options) (behind : Bool) → message_marks (bridge o behind) ≡ 0
bridge-unmarked o behind = ground arith

all-unmarked :
    (o : Options) (behind : Bool) (ms : List Message) → message_marks (convert_all o behind ms) ≡ 0
unfolding convert_all convert_assistant_message convert_tool_result_message
all-unmarked o behind [] = refl
all-unmarked o behind (Message.user m ∷ ms) = omega (
  arith,
  bridge-unmarked o behind,
  all-unmarked o false ms,
  user_content-unmarked m.content.plain m,
  message_marks-append (bridge o behind) (convert_user_message m ∷ convert_all o false ms),
)
all-unmarked o behind (Message.assistant m ∷ ms) =
    let ps = items m.content in
    let r = content_and_reasoning o (shown_texts ps) (thinking_blocks ps) in
    omega (
      arith,
      all-unmarked o false ms,
      assistant-unmarked o ps r (shape-unmarked o (shown_texts ps) (thinking_blocks ps)),
      message_marks-append (or_left_out (assistant_wire o ps r)) (convert_all o false ms),
    )
all-unmarked o behind (Message.tool_result m ∷ ms) = omega (arith, all-unmarked o true ms)

pub messages-unmarked :
    (now : ℕ → ℤ) (o : Options) (prompt : String) (ms : List Message) (model : Model)
    → message_marks (convert_messages now o prompt ms model) ≡ 0
unfolding convert_messages
messages-unmarked now o prompt ms model = elim (Bool-cases (prompt =ₛ "")) [
  | inl e ↦ rw e (all-unmarked o false _)
  | inr e ↦ rw e (omega (arith, all-unmarked o false _))
]

tools-unmarked : (i : Input) (ts : List Tool) → tool_marks (convert_tools i ts) ≡ 0
unfolding convert_tools
tools-unmarked i [] = refl
tools-unmarked i (t ∷ ts) = omega (arith, tools-unmarked i ts)

pub request_tools-unmarked :
    (i : Input) (ms : List Message) (ts : List Tool)
    → tool_marks (items (request_tools i ms ts)) ≡ 0
request_tools-unmarked i ms [] = ground arith
request_tools-unmarked i ms (t ∷ ts) = tools-unmarked i (t ∷ ts)
