-- ===== src/OpenAi/Convert/Answers.antt =====
-- What OpenAI requires of a request: the calls of a turn are answered right behind it.
use kern_proxy.Base.{
  ℕ, ◌≡◌, refl, sym, ap, ◌∙◌, Bool, true, false, not, ◌&&◌, ◌||◌, List, [], ◌∷◌, ◌++◌, String, ◌=ₛ◌,
  arith, items, Bool-cases, inl, inr,
}
use kern_proxy.Base.Int.{ℤ}
use kern_proxy.Messages.{AssistantPart, Message, Model}
use kern_proxy.Transform.Orphans.{tool_calls}
use kern_proxy.Transform.Orphans.Settled.{IsSettled, answered, has_call, insert-IsSettled}
use kern_proxy.Transform.Pipeline.{transform_messages}
use kern_proxy.OpenAi.Message.{Role, Content, Reasoning, WireCall, WireMessage, Options, message}
use kern_proxy.OpenAi.Convert.{
  wire_calls, is_empty, has_content, assistant_wire, convert_assistant_message,
  content_and_reasoning, shown_texts, thinking_blocks, convert_tool_result_message,
  convert_user_message, bridge_message, bridge, or_left_out, convert_all, system_role,
  convert_messages,
}

-- A call has the id.
abbrev pub calls : String → List WireCall → Bool
calls id [] = false
calls id (c ∷ cs) = c.id =ₛ id || calls id cs

-- A tool message with the id stands before the next message of another role.
abbrev pub answers : String → List WireMessage → Bool
answers id [] = false
answers id (w ∷ ws) = elim w.role [ Role.tool ↦ w.tool_call_id =ₛ id || answers id ws | _ ↦ false ]

-- Every call of a message is answered behind it.
abbrev pub EachAnswered : List WireMessage → Type 0
EachAnswered [] = Unit
EachAnswered (w ∷ ws) =
    ((id : String) → calls id w.tool_calls ≡ true → answers id ws ≡ true) × EachAnswered ws

wire_calls-has_call :
    (id : String) (ps : List AssistantPart) → calls id (wire_calls ps) ≡ has_call id (tool_calls ps)
unfolding wire_calls tool_calls
wire_calls-has_call id [] = refl
wire_calls-has_call id (AssistantPart.text t ∷ ps) = wire_calls-has_call id ps
wire_calls-has_call id (AssistantPart.thinking t ∷ ps) = wire_calls-has_call id ps
wire_calls-has_call id (AssistantPart.tool_call c ∷ ps) =
    ap (λ r. c.id =ₛ id || r) (wire_calls-has_call id ps)

convert_all-answers :
    (id : String) (o : Options) (behind : Bool) (ms : List Message)
    → answered id ms ≡ true
    → answers id (convert_all o behind ms) ≡ true
unfolding convert_all convert_tool_result_message
convert_all-answers id o behind [] h = absurd (ground arith)
convert_all-answers id o behind (Message.user m ∷ ms) h = absurd (ground arith)
convert_all-answers id o behind (Message.assistant m ∷ ms) h = absurd (ground arith)
convert_all-answers id o behind (Message.tool_result m ∷ ms) h =
    ground (arith, convert_all-answers id o true ms)

-- A message without calls stands in front.
quiet-EachAnswered :
    (w : WireMessage) (ws : List WireMessage)
    → w.tool_calls ≡ []
    → EachAnswered ws
    → EachAnswered (w ∷ ws)
quiet-EachAnswered w ws e k = (λ id c. absurd (ground arith), k)

assistant-EachAnswered :
    (o : Options) (ps : List AssistantPart) (r : Content × Reasoning) (ws : List WireMessage)
    → ((id : String) → calls id (wire_calls ps) ≡ true → answers id ws ≡ true)
    → EachAnswered ws
    → EachAnswered (or_left_out (assistant_wire o ps r) ++ ws)
assistant-EachAnswered o ps (content, r) ws h k =
    elim (Bool-cases (not (has_content content) && is_empty (wire_calls ps))) [
      | inl e ↦ rw e k
      | inr e ↦ rw e (h, k)
    ]

user-EachAnswered :
    (o : Options) (behind : Bool) (w : WireMessage) (ws : List WireMessage)
    → w.tool_calls ≡ []
    → EachAnswered ws
    → EachAnswered (bridge o behind ++ w ∷ ws)
user-EachAnswered o behind w ws e k =
    elim (Bool-cases (o.requires_assistant_after_tool_result && behind)) [
      | inl b ↦
          simp b (quiet-EachAnswered bridge_message (w ∷ ws) refl (quiet-EachAnswered w ws e k))
      | inr b ↦ simp b (quiet-EachAnswered w ws e k)
    ]

convert_all-EachAnswered :
    (o : Options) (behind : Bool) (ms : List Message)
    → IsSettled ms
    → EachAnswered (convert_all o behind ms)
unfolding convert_all convert_assistant_message convert_tool_result_message
convert_all-EachAnswered o behind [] h = tt
convert_all-EachAnswered o behind (Message.user m ∷ ms) h =
    user-EachAnswered o behind (convert_user_message m) (convert_all o false ms) refl
      (convert_all-EachAnswered o false ms h)
convert_all-EachAnswered o behind (Message.assistant m ∷ ms) h =
    let ps = items m.content in
    assistant-EachAnswered o ps (content_and_reasoning o (shown_texts ps) (thinking_blocks ps))
      (convert_all o false ms)
      (λ id c. convert_all-answers id o false ms (h.1 id (sym (wire_calls-has_call id ps) ∙ c)))
      (convert_all-EachAnswered o false ms h.2)
convert_all-EachAnswered o behind (Message.tool_result m ∷ ms) h =
    quiet-EachAnswered (convert_tool_result_message o m) (convert_all o true ms) refl
      (convert_all-EachAnswered o true ms h)

-- For every conversation, whatever the system prompt, the model, the flags of the provider and the clock:
-- in the messages of an OpenAI completions request each tool call is answered by a tool message with its
-- id among those right behind it, before any message of another role.
pub convert_messages-EachAnswered :
    (now : ℕ → ℤ) (o : Options) (prompt : String) (ms : List Message) (model : Model)
    → EachAnswered (convert_messages now o prompt ms model)
unfolding convert_messages transform_messages
convert_messages-EachAnswered now o prompt ms model =
    let rest = convert_all-EachAnswered o false _ (insert-IsSettled now _) in
    elim (Bool-cases (prompt =ₛ "")) [
      | inl e ↦ rw e rest
      | inr e ↦
          rw e (quiet-EachAnswered (message (system_role o) (Content.plain prompt)) _ refl rest)
    ]
