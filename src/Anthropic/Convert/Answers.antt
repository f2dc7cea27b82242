-- ===== src/Anthropic/Convert/Answers.antt =====
-- What Anthropic requires of a request: the calls of a turn are answered in the message behind it.
use kern_proxy.Base.{
  ◌≡◌, refl, sym, ap, ◌∙◌, Bool, true, false, ◌||◌, Option, none, some, List, [], ◌∷◌, ◌++◌, String,
  ◌=ₛ◌, arith, items, Bool-cases, inl, inr,
}
use kern_proxy.Messages.{
  AssistantPart, AssistantMessage, ThinkingContent, UserMessage, Message, UserPart,
}
use kern_proxy.Transform.Orphans.{tool_calls}
use kern_proxy.Transform.Orphans.Settled.{IsSettled, answered, has_call}
use kern_proxy.Transform.Blocks.{is_blank}
use kern_proxy.Anthropic.Convert.{
  Block, WireBlock, Content, Role, WireMessage, Options, convert_user_blocks, convert_thinking,
  convert_assistant_blocks, blocks_message, convert_user, convert_all, convert_results,
  results_message, tool_result_block,
}

abbrev pub use_id : String → Block → Bool
use_id id (Block.tool_use i _ _) = i =ₛ id
use_id id _ = false

abbrev pub result_id : String → Block → Bool
result_id id (Block.tool_result i _ _) = i =ₛ id
result_id id _ = false

-- A block calls a tool with the id.
abbrev pub calls : String → List WireBlock → Bool
calls id [] = false
calls id (b ∷ bs) = use_id id b.block || calls id bs

-- A block is a result for the id.
abbrev pub has_result : String → List WireBlock → Bool
has_result id [] = false
has_result id (b ∷ bs) = result_id id b.block || has_result id bs

abbrev pub content_calls : String → Content → Bool
content_calls id (Content.plain _) = false
content_calls id (Content.blocks bs) = calls id bs

abbrev pub content_has_result : String → Content → Bool
content_has_result id (Content.plain _) = false
content_has_result id (Content.blocks bs) = has_result id bs

-- The first message is one of the user, with a result for the id.
abbrev pub answers : String → List WireMessage → Bool
answers id [] = false
answers id (w ∷ ws) = elim w.role [
  | Role.user ↦ content_has_result id w.content
  | Role.assistant ↦ false
]

-- Every call is answered in the message behind it.
abbrev pub AllAnswered : List WireMessage → Type 0
AllAnswered [] = Unit
AllAnswered (w ∷ ws) =
    ((id : String) → content_calls id w.content ≡ true → answers id ws ≡ true) × AllAnswered ws

calls-append :
    (id : String) (bs cs : List WireBlock) → calls id (bs ++ cs) ≡ (calls id bs || calls id cs)
calls-append id [] cs = refl
calls-append id (b ∷ bs) cs = ground (arith, calls-append id bs cs)

has_result-append :
    (id : String) (bs cs : List WireBlock)
    → has_result id (bs ++ cs) ≡ (has_result id bs || has_result id cs)
has_result-append id [] cs = refl
has_result-append id (b ∷ bs) cs = ground (arith, has_result-append id bs cs)

calls-thinking :
    (id : String) (o : Options) (t : ThinkingContent) → calls id (convert_thinking o t) ≡ false
unfolding convert_thinking
calls-thinking id o t = ground arith

-- No call is added.
calls-has_call :
    (id : String) (o : Options) (bs : List AssistantPart)
    → calls id (convert_assistant_blocks o bs) ≡ has_call id (tool_calls bs)
unfolding convert_assistant_blocks tool_calls
calls-has_call id o [] = refl
calls-has_call id o (AssistantPart.text t ∷ bs) = elim (Bool-cases (is_blank t.text)) [
  | inl e ↦ rw e (calls-has_call id o bs)
  | inr e ↦ rw e (calls-has_call id o bs)
]
calls-has_call id o (AssistantPart.thinking t ∷ bs) =
    calls-append id (convert_thinking o t) _ ∙ rw calls-thinking (calls-has_call id o bs)
calls-has_call id o (AssistantPart.tool_call c ∷ bs) =
    ap (λ r. c.id =ₛ id || r) (calls-has_call id o bs)

calls-user : (id : String) (bs : List UserPart) → calls id (convert_user_blocks bs) ≡ false
unfolding convert_user_blocks
calls-user id [] = refl
calls-user id (UserPart.text t ∷ bs) = ground (arith, calls-user id bs)
calls-user id (UserPart.image i ∷ bs) = calls-user id bs

-- A message that calls nothing stands in front.
quiet-AllAnswered :
    (w : WireMessage) (ws : List WireMessage)
    → ((id : String) → content_calls id w.content ≡ false)
    → AllAnswered ws
    → AllAnswered (w ∷ ws)
quiet-AllAnswered w ws h k = (λ id c. absurd (ground (arith, h id)), k)

blocks_message-AllAnswered :
    (role : Role) (bs : List WireBlock) (ws : List WireMessage)
    → ((id : String) → calls id bs ≡ true → answers id ws ≡ true)
    → AllAnswered ws
    → AllAnswered (blocks_message role bs ++ ws)
blocks_message-AllAnswered role [] ws h k = k
blocks_message-AllAnswered role (b ∷ bs) ws h k = (h, k)

user-AllAnswered :
    (o : Option String) (m : UserMessage) (ws : List WireMessage)
    → AllAnswered ws
    → AllAnswered (convert_user o m ++ ws)
user-AllAnswered none m ws k =
    blocks_message-AllAnswered Role.user (convert_user_blocks (items m.content.blocks)) ws
      (λ id c. absurd (ground (arith, calls-user id (items m.content.blocks)))) k
user-AllAnswered (some t) m ws k = elim (Bool-cases (is_blank t)) [
  | inl e ↦ rw e k
  | inr e ↦
      rw e (
        quiet-AllAnswered (record { role = Role.user; content = Content.plain t }) ws (λ id. refl)
          k)
]

mutual
  unfolding convert_all convert_results

  convert_all-answers :
      (id : String) (o : Options) (ms : List Message)
      → answered id ms ≡ true
      → answers id (convert_all o ms) ≡ true
  convert_all-answers id o [] h = ground arith
  convert_all-answers id o (Message.user m ∷ ms) h = ground arith
  convert_all-answers id o (Message.assistant m ∷ ms) h = ground arith
  convert_all-answers id o (Message.tool_result m ∷ ms) h =
      convert_results-answers id o (tool_result_block m ∷ []) ms (ground arith)

  convert_results-answers :
      (id : String) (o : Options) (results : List WireBlock) (ms : List Message)
      → (has_result id results || answered id ms) ≡ true
      → answers id (convert_results o results ms) ≡ true
  convert_results-answers id o results [] h = ground arith
  convert_results-answers id o results (Message.user m ∷ ms) h = ground arith
  convert_results-answers id o results (Message.assistant m ∷ ms) h = ground arith
  convert_results-answers id o results (Message.tool_result m ∷ ms) h =
      convert_results-answers id o (results ++ tool_result_block m ∷ []) ms
        (ground (arith, has_result-append id results (tool_result_block m ∷ [])))

assistant-AllAnswered :
    (o : Options) (m : AssistantMessage) (ms : List Message)
    → ((id : String) → has_call id (tool_calls (items m.content)) ≡ true → answered id ms ≡ true)
    → AllAnswered (convert_all o ms)
    → AllAnswered (
        blocks_message Role.assistant (convert_assistant_blocks o (items m.content))
        ++ convert_all o ms)
assistant-AllAnswered o m ms h k =
    blocks_message-AllAnswered Role.assistant (convert_assistant_blocks o (items m.content))
      (convert_all o ms)
      (λ id c. convert_all-answers id o ms (h id (sym (calls-has_call id o (items m.content)) ∙ c)))
      k

mutual
  unfolding convert_all convert_results

  pub convert_all-AllAnswered :
      (o : Options) (ms : List Message) → IsSettled ms → AllAnswered (convert_all o ms)
  convert_all-AllAnswered o [] h = tt
  convert_all-AllAnswered o (Message.user m ∷ ms) h =
      user-AllAnswered m.content.plain m _ (convert_all-AllAnswered o ms h)
  convert_all-AllAnswered o (Message.assistant m ∷ ms) h =
      assistant-AllAnswered o m ms h.1 (convert_all-AllAnswered o ms h.2)
  convert_all-AllAnswered o (Message.tool_result m ∷ ms) h =
      convert_results-AllAnswered o (tool_result_block m ∷ []) ms (λ id. refl) h

  convert_results-AllAnswered :
      (o : Options) (results : List WireBlock) (ms : List Message)
      → ((id : String) → calls id results ≡ false)
      → IsSettled ms
      → AllAnswered (convert_results o results ms)
  convert_results-AllAnswered o results [] q h = quiet-AllAnswered (results_message results) [] q tt
  convert_results-AllAnswered o results (Message.user m ∷ ms) q h =
      quiet-AllAnswered (results_message results) _ q
        (user-AllAnswered m.content.plain m _ (convert_all-AllAnswered o ms h))
  convert_results-AllAnswered o results (Message.assistant m ∷ ms) q h =
      quiet-AllAnswered (results_message results) _ q
        (assistant-AllAnswered o m ms h.1 (convert_all-AllAnswered o ms h.2))
  convert_results-AllAnswered o results (Message.tool_result m ∷ ms) q h =
      convert_results-AllAnswered o (results ++ tool_result_block m ∷ []) ms
        (λ id. calls-append id results _ ∙ rw q refl) h
