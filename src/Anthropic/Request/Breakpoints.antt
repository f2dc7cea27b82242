-- ===== src/Anthropic/Request/Breakpoints.antt =====
-- How many cache breakpoints a request has.
use kern_proxy.Base.{
  ◌*◌, ℕ, ◌+◌, ◌≤◌, ◌≡◌, refl, Option, none, some, List, [], ◌∷◌, ◌++◌, String, ◌=ₛ◌, arith,
  Bool-cases, inl, inr, eq_iff, items, if◌then◌else◌,
}
use kern_proxy.Base.Int.{ℤ}
use kern_proxy.Messages.{UserPart, AssistantPart, UserMessage, Message, Model, ThinkingContent}
use kern_proxy.Anthropic.Convert.{
  CacheControl, WireBlock, Content, Role, WireMessage, Options, convert_user_blocks,
  convert_thinking, convert_assistant_blocks, blocks_message, convert_user, convert_all,
  convert_results, cache_last_block, cache_content, cache_message, apply_cache_control,
  convert_messages, takes_cache, tool_result_block,
}
use kern_proxy.Anthropic.Request.{
  Input, Tool, WireTool, TextBlock, WireRequest, convert_tools, system_blocks, tools_cache,
  get_cache_control, resolve_cache_retention, build_params,
}

abbrev pub mark : Option CacheControl → ℕ
mark none = 0
mark (some c) = 1

abbrev pub block_marks : List WireBlock → ℕ
block_marks [] = 0
block_marks (b ∷ bs) = mark b.cache + block_marks bs

abbrev pub content_marks : Content → ℕ
content_marks (Content.plain t) = 0
content_marks (Content.blocks bs) = block_marks bs

abbrev pub message_marks : List WireMessage → ℕ
message_marks [] = 0
message_marks (w ∷ ws) = content_marks w.content + message_marks ws

abbrev pub tool_marks : List WireTool → ℕ
tool_marks [] = 0
tool_marks (t ∷ ts) = mark t.cache + tool_marks ts

abbrev pub text_marks : List TextBlock → ℕ
text_marks [] = 0
text_marks (t ∷ ts) = mark t.cache + text_marks ts

abbrev pub breakpoints : WireRequest → ℕ
breakpoints r = text_marks r.system + tool_marks r.tools + message_marks r.messages

block_marks-append :
    (xs ys : List WireBlock) → block_marks (xs ++ ys) ≡ block_marks xs + block_marks ys
block_marks-append [] ys = omega arith
block_marks-append (x ∷ xs) ys = omega (arith, block_marks-append xs ys)

message_marks-append :
    (xs ys : List WireMessage) → message_marks (xs ++ ys) ≡ message_marks xs + message_marks ys
message_marks-append [] ys = omega arith
message_marks-append (x ∷ xs) ys = omega (arith, message_marks-append xs ys)

user_blocks-unmarked : (bs : List UserPart) → block_marks (convert_user_blocks bs) ≡ 0
unfolding convert_user_blocks
user_blocks-unmarked [] = refl
user_blocks-unmarked (UserPart.text t ∷ bs) = ground (arith, user_blocks-unmarked bs)
user_blocks-unmarked (UserPart.image i ∷ bs) = omega (arith, user_blocks-unmarked bs)

thinking-unmarked : (o : Options) (t : ThinkingContent) → block_marks (convert_thinking o t) ≡ 0
unfolding convert_thinking
thinking-unmarked o t = ground arith

assistant_blocks-unmarked :
    (o : Options) (ps : List AssistantPart) → block_marks (convert_assistant_blocks o ps) ≡ 0
unfolding convert_assistant_blocks
assistant_blocks-unmarked o [] = refl
assistant_blocks-unmarked o (AssistantPart.text t ∷ ps) =
    ground (arith, assistant_blocks-unmarked o ps)
assistant_blocks-unmarked o (AssistantPart.thinking t ∷ ps) = omega (
  arith,
  assistant_blocks-unmarked o ps,
  thinking-unmarked o t,
  block_marks-append (convert_thinking o t) (convert_assistant_blocks o ps),
)
assistant_blocks-unmarked o (AssistantPart.tool_call c ∷ ps) =
    omega (arith, assistant_blocks-unmarked o ps)

message-unmarked :
    (r : Role) (bs : List WireBlock) → message_marks (blocks_message r bs) ≡ block_marks bs
message-unmarked r [] = refl
message-unmarked r (b ∷ bs) = omega arith

user-unmarked : (p : Option String) (m : UserMessage) → message_marks (convert_user p m) ≡ 0
user-unmarked none m = omega (
  arith,
  user_blocks-unmarked (items m.content.blocks),
  message-unmarked Role.user (convert_user_blocks (items m.content.blocks)),
)
user-unmarked (some t) m = ground arith

assistant-unmarked :
    (o : Options) (ps : List AssistantPart)
    → message_marks (blocks_message Role.assistant (convert_assistant_blocks o ps)) ≡ 0
assistant-unmarked o ps = omega (
  arith,
  assistant_blocks-unmarked o ps,
  message-unmarked Role.assistant (convert_assistant_blocks o ps),
)

mutual
  unfolding convert_all

  all-unmarked : (o : Options) (ms : List Message) → message_marks (convert_all o ms) ≡ 0
  all-unmarked o [] = refl
  all-unmarked o (Message.user m ∷ ms) = omega (
    arith,
    message_marks-append (convert_user m.content.plain m) (convert_all o ms),
    user-unmarked m.content.plain m,
    all-unmarked o ms,
  )
  all-unmarked o (Message.assistant m ∷ ms) = omega (
    arith,
    message_marks-append
        (blocks_message Role.assistant (convert_assistant_blocks o (items m.content)))
        (convert_all o ms),
    assistant-unmarked o (items m.content),
    all-unmarked o ms,
  )
  all-unmarked o (Message.tool_result m ∷ ms) =
      results-unmarked o (tool_result_block m ∷ []) ms refl

  results-unmarked :
      (o : Options) (rs : List WireBlock) (ms : List Message)
      → block_marks rs ≡ 0
      → message_marks (convert_results o rs ms) ≡ 0
  results-unmarked o rs [] h = omega arith
  results-unmarked o rs (Message.tool_result m ∷ ms) h =
      results-unmarked o (rs ++ tool_result_block m ∷ []) ms
        (omega (arith, block_marks-append rs (tool_result_block m ∷ [])))
  results-unmarked o rs (Message.user m ∷ ms) h = omega (
    arith,
    message_marks-append (convert_user m.content.plain m) (convert_all o ms),
    user-unmarked m.content.plain m,
    all-unmarked o ms,
  )
  results-unmarked o rs (Message.assistant m ∷ ms) h = omega (
    arith,
    message_marks-append
        (blocks_message Role.assistant (convert_assistant_blocks o (items m.content)))
        (convert_all o ms),
    assistant-unmarked o (items m.content),
    all-unmarked o ms,
  )

last_block_marks :
    (c : CacheControl) (bs : List WireBlock)
    → block_marks bs ≡ 0
    → block_marks (cache_last_block c bs) ≤ 1
unfolding cache_last_block
last_block_marks c [] h = omega arith
last_block_marks c (b ∷ []) h = elim (Bool-cases (takes_cache b.block)) [
  | inl e ↦ simp e (omega arith)
  | inr e ↦ simp e (omega arith)
]
last_block_marks c (b ∷ d ∷ bs) h = omega (arith, last_block_marks c (d ∷ bs) (omega arith))

cached_content_marks :
    (c : CacheControl) (w : Content) → content_marks w ≡ 0 → content_marks (cache_content c w) ≤ 1
cached_content_marks c (Content.plain t) h = omega arith
cached_content_marks c (Content.blocks bs) h = last_block_marks c bs h

cached_message_marks :
    (c : CacheControl) (r : Role) (w : WireMessage)
    → content_marks w.content ≡ 0
    → content_marks (cache_message c r w).content ≤ 1
cached_message_marks c Role.user w h = cached_content_marks c w.content h
cached_message_marks c Role.assistant w h = omega arith

applied_marks :
    (c : Option CacheControl) (ws : List WireMessage)
    → message_marks ws ≡ 0
    → message_marks (apply_cache_control c ws) ≤ mark c
unfolding apply_cache_control
applied_marks none ws h = omega arith
applied_marks (some c) [] h = omega arith
applied_marks (some c) (w ∷ []) h = omega (arith, cached_message_marks c w.role w (omega arith))
applied_marks (some c) (w ∷ v ∷ ws) h = omega (arith, applied_marks (some c) (v ∷ ws) (omega arith))

tools-marks :
    (i : Input) (c : Option CacheControl) (ts : List Tool)
    → tool_marks (convert_tools i c ts) ≤ mark c
unfolding convert_tools
tools-marks i c [] = omega arith
tools-marks i c (t ∷ []) = omega arith
tools-marks i c (t ∷ u ∷ ts) = omega (arith, tools-marks i c (u ∷ ts))

tools_cache-mark : (i : Input) (c : Option CacheControl) → mark (tools_cache i c) ≤ mark c
tools_cache-mark i none = ground arith
tools_cache-mark i (some c) = ground arith

system-marks :
    (i : Input) (c : Option CacheControl) → text_marks (system_blocks i c) ≤ mark c + mark c
unfolding system_blocks
system-marks i c = ground arith

marks_bound :
    (now : ℕ → ℤ) (i : Input) (ms : List Message) (model : Model)
    → breakpoints (build_params now i ms model) ≤ 4 * mark (get_cache_control i)
unfolding build_params convert_messages
marks_bound now i ms model =
    let c = get_cache_control i in
    omega (
      arith,
      system-marks i c,
      tools-marks i (tools_cache i c) i.tools,
      tools_cache-mark i c,
      applied_marks c _ (all-unmarked i.conversion _),
    )

-- The default for options that name no retention is never `none`.
cache_control-mark :
    (i : Input) → mark (get_cache_control i) ≤ (if i.retention =ₛ "none" then 0 else 1)
unfolding get_cache_control resolve_cache_retention
cache_control-mark i = elim (Bool-cases (i.retention =ₛ "")) [
  | inl e ↦ rw ((eq_iff i.retention "").0 e) (ground arith)
  | inr e ↦ rw e (ground arith)
]

-- Whatever is asked: an Anthropic request has four cache breakpoints at most, which is as many as the
-- API takes; and it has none where the options ask for the retention `none`, whatever the environment
-- says.
pub build_params-breakpoints :
    (now : ℕ → ℤ) (i : Input) (ms : List Message) (model : Model)
    → breakpoints (build_params now i ms model) ≤ (if i.retention =ₛ "none" then 0 else 4)
build_params-breakpoints now i ms model =
    ground (arith, marks_bound now i ms model, cache_control-mark i)
