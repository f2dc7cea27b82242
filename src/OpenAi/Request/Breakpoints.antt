-- ===== src/OpenAi/Request/Breakpoints.antt =====
-- How many cache breakpoints a request has.
use kern_proxy.Base.{
  ℕ, suc, ◌≡◌, ◌≤◌, ◌+◌, ◌*◌, refl, ◌=ₛ◌, Option, none, some, List, [], ◌∷◌, arith, items,
  Bool-cases, inl, inr,
}
use kern_proxy.Base.Int.{ℤ}
use kern_proxy.Messages.{Message, Model}
use kern_proxy.Anthropic.Convert.{CacheControl}
use kern_proxy.Anthropic.Params.{given}
use kern_proxy.OpenAi.Message.{Content, ContentPart, WireMessage}
use kern_proxy.OpenAi.Caching.{
  is_text, as_parts, is_instruction, is_conversation, mark_last_text, marked_part,
  add_to_text_content, with_content, or_same, add_to_system_prompt, marked_message,
  mark_last_message, add_to_last_message, in_front,
}
use kern_proxy.OpenAi.Request.{
  Input, WireTool, WireRequest, cache_last_tool, add_to_last_tool, apply_cache_control,
  apply_caching, get_compat_cache_control, resolve_cache_retention, build_params,
}
use kern_proxy.OpenAi.Request.Unmarked.{
  mark, part_marks, content_marks, message_marks, tool_marks, breakpoints, messages-unmarked,
  request_tools-unmarked,
}

-- What a change gives, if it gives anything, has one mark more at most.
abbrev Adds : {A : Type 0} → (A → ℕ) → ℕ → Option A → Type 0
Adds marks n none = Unit
Adds marks n (some a) = marks a ≤ suc n

in_front-Adds :
    {A : Type 0} (marks : List A → ℕ) (one : A → ℕ) (a : A) (as' : List A)
    (o other : Option (List A))
    → ((b : A) (bs : List A) → marks (b ∷ bs) ≡ one b + marks bs)
    → Adds marks (marks as') o
    → Adds marks (marks (a ∷ as')) other
    → Adds marks (marks (a ∷ as')) (in_front a o other)
in_front-Adds marks one a as' none other e h k = k
in_front-Adds marks one a as' (some rest) other e h k = omega (arith, e a rest, e a as')

marked_part-Adds :
    (cc : CacheControl) (p : ContentPart) (ps : List ContentPart)
    → Adds part_marks (mark p.cache + part_marks ps) (marked_part cc p ps)
marked_part-Adds cc p ps = elim (Bool-cases (is_text p.kind)) [
  | inl e ↦ simp e (omega arith)
  | inr e ↦ simp e tt
]

last_text-Adds :
    (cc : CacheControl) (ps : List ContentPart)
    → Adds part_marks (part_marks ps) (mark_last_text cc ps)
unfolding mark_last_text
last_text-Adds cc [] = tt
last_text-Adds cc (p ∷ ps) =
    in_front-Adds part_marks (λ q. mark q.cache) p ps (mark_last_text cc ps) (marked_part cc p ps)
      (λ b bs. refl) (last_text-Adds cc ps) (marked_part-Adds cc p ps)

as_parts-Adds :
    (n : ℕ) (o : Option (List ContentPart))
    → Adds part_marks n o
    → Adds content_marks n (as_parts o)
as_parts-Adds n none h = tt
as_parts-Adds n (some ps) h = h

content-Adds :
    (cc : CacheControl) (c : Content)
    → Adds content_marks (content_marks c) (add_to_text_content cc c)
unfolding add_to_text_content
content-Adds cc Content.absent = tt
content-Adds cc (Content.plain t) = elim (Bool-cases (t =ₛ "")) [
  | inl e ↦ rw e tt
  | inr e ↦ rw e (omega arith)
]
content-Adds cc (Content.parts ps) =
    as_parts-Adds (part_marks ps) (mark_last_text cc ps) (last_text-Adds cc ps)

or_same_marks :
    (w : WireMessage) (o : Option Content)
    → Adds content_marks (content_marks w.content) o
    → content_marks (or_same w (with_content w o)).content ≤ suc (content_marks w.content)
or_same_marks w none h = omega arith
or_same_marks w (some c) h = h

system_marks :
    (cc : CacheControl) (ws : List WireMessage)
    → message_marks (add_to_system_prompt cc ws) ≤ suc (message_marks ws)
unfolding add_to_system_prompt
system_marks cc [] = omega arith
system_marks cc (w ∷ ws) = elim (Bool-cases (is_instruction w.role)) [
  | inl e ↦ simp e (
      omega (arith, or_same_marks w (add_to_text_content cc w.content) (content-Adds cc w.content)))
  | inr e ↦ simp e (omega (arith, system_marks cc ws))
]

with_content-Adds :
    (w : WireMessage) (ws : List WireMessage) (o : Option Content)
    → Adds content_marks (content_marks w.content) o
    → Adds message_marks
        (content_marks w.content + message_marks ws)
        (elim (with_content w o) [ none ↦ none | some v ↦ some (v ∷ ws) ])
with_content-Adds w ws none h = tt
with_content-Adds w ws (some c) h = omega arith

marked_message-Adds :
    (cc : CacheControl) (w : WireMessage) (ws : List WireMessage)
    → Adds message_marks (content_marks w.content + message_marks ws) (marked_message cc w ws)
marked_message-Adds cc w ws = elim (Bool-cases (is_conversation w.role)) [
  | inl e ↦
      simp e (with_content-Adds w ws (add_to_text_content cc w.content) (content-Adds cc w.content))
  | inr e ↦ simp e tt
]

last_message-Adds :
    (cc : CacheControl) (ws : List WireMessage)
    → Adds message_marks (message_marks ws) (mark_last_message cc ws)
unfolding mark_last_message
last_message-Adds cc [] = tt
last_message-Adds cc (w ∷ ws) =
    in_front-Adds message_marks (λ v. content_marks v.content) w ws (mark_last_message cc ws)
      (marked_message cc w ws) (λ b bs. refl) (last_message-Adds cc ws)
      (marked_message-Adds cc w ws)

given_marks :
    (ws : List WireMessage) (o : Option (List WireMessage))
    → Adds message_marks (message_marks ws) o
    → message_marks (given o ws) ≤ suc (message_marks ws)
given_marks ws none h = omega arith
given_marks ws (some vs) h = h

last_marks :
    (cc : CacheControl) (ws : List WireMessage)
    → message_marks (add_to_last_message cc ws) ≤ suc (message_marks ws)
unfolding add_to_last_message
last_marks cc ws = given_marks ws (mark_last_message cc ws) (last_message-Adds cc ws)

last_tool_marks :
    (cc : CacheControl) (ts : List WireTool)
    → tool_marks ts ≡ 0
    → tool_marks (cache_last_tool cc ts) ≤ 1
unfolding cache_last_tool
last_tool_marks cc [] h = omega arith
last_tool_marks cc (t ∷ []) h = omega arith
last_tool_marks cc (t ∷ u ∷ ts) h = omega (arith, last_tool_marks cc (u ∷ ts) (omega arith))

last_tools_marks :
    (cc : CacheControl) (o : Option (List WireTool))
    → tool_marks (items o) ≡ 0
    → tool_marks (items (add_to_last_tool cc o)) ≤ 1
last_tools_marks cc none h = omega arith
last_tools_marks cc (some ts) h = last_tool_marks cc ts h

applied_marks :
    (o : Option CacheControl) (r : WireRequest)
    → message_marks r.messages ≡ 0
    → tool_marks (items r.tools) ≡ 0
    → breakpoints (apply_cache_control o r) ≤ 3 * mark o
unfolding apply_cache_control
applied_marks none r h k = omega arith
applied_marks (some cc) r h k = omega (
  arith,
  system_marks cc r.messages,
  last_marks cc (add_to_system_prompt cc r.messages),
  last_tools_marks cc r.tools k,
)

-- A request has three cache breakpoints at most, and only where the format asks for some.
pub build_params-breakpoints_le :
    (now : ℕ → ℤ) (i : Input) (ms : List Message) (model : Model)
    → breakpoints (build_params now i ms model)
      ≤ 3 * mark (get_compat_cache_control i (resolve_cache_retention i))
unfolding build_params apply_caching
build_params-breakpoints_le now i ms model =
    applied_marks (get_compat_cache_control i (resolve_cache_retention i)) _
      (messages-unmarked now i.conversion i.system_prompt ms model)
      (request_tools-unmarked i ms i.tools)
