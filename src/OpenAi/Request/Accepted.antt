-- ===== src/OpenAi/Request/Accepted.antt =====
-- The cache control changes no call and no answer, so the whole request is answered.
use kern_proxy.Base.{
  ℕ, ◌≡◌, ◌≤◌, ◌=ₛ◌, ◌||◌, refl, sym, ap, ◌∙◌, not, Option, none, some, List, [], ◌∷◌, String,
  arith, Bool-cases, inl, inr, if◌then◌else◌,
}
use kern_proxy.Base.Int.{ℤ}
use kern_proxy.Messages.{Message, Model}
use kern_proxy.Anthropic.Convert.{CacheControl}
use kern_proxy.Anthropic.Params.{given}
use kern_proxy.OpenAi.Message.{Content, WireMessage}
use kern_proxy.OpenAi.Convert.Answers.{calls, answers, EachAnswered, convert_messages-EachAnswered}
use kern_proxy.OpenAi.Caching.{
  is_instruction, is_conversation, add_to_text_content, with_content, or_same, add_to_system_prompt,
  marked_message, mark_last_message, add_to_last_message, in_front,
}
use kern_proxy.OpenAi.Request.{
  Input, WireRequest, apply_cache_control, apply_caching, get_compat_cache_control,
  resolve_cache_retention, build_params,
}
use kern_proxy.OpenAi.Request.Unmarked.{mark, breakpoints}
use kern_proxy.OpenAi.Request.Breakpoints.{build_params-breakpoints_le}

-- The messages are the same but for their content.
abbrev Alike : List WireMessage → List WireMessage → Type 0
Alike [] [] = Unit
Alike (w ∷ ws) (v ∷ vs) =
    (v.role ≡ w.role)
    × (v.tool_calls ≡ w.tool_calls)
    × (v.tool_call_id ≡ w.tool_call_id)
    × Alike ws vs
Alike _ _ = ⊥

Alike-refl : (ws : List WireMessage) → Alike ws ws
Alike-refl [] = tt
Alike-refl (w ∷ ws) = (refl, refl, refl, Alike-refl ws)

answers-Alike :
    (id : String) (ws vs : List WireMessage) → Alike ws vs → answers id vs ≡ answers id ws
answers-Alike id [] [] h = refl
answers-Alike id (w ∷ ws) (v ∷ vs) h = ground (arith, answers-Alike id ws vs)
answers-Alike id [] (v ∷ vs) h = elim h [ ]
answers-Alike id (w ∷ ws) [] h = elim h [ ]

EachAnswered-Alike : (ws vs : List WireMessage) → Alike ws vs → EachAnswered ws → EachAnswered vs
EachAnswered-Alike [] [] h k = tt
EachAnswered-Alike (w ∷ ws) (v ∷ vs) (r, c, i, h) k = (
  λ id e. answers-Alike id ws vs h ∙ k.0 id (sym (ap (calls id) c) ∙ e),
  EachAnswered-Alike ws vs h k.1,
)
EachAnswered-Alike [] (v ∷ vs) h k = elim h [ ]
EachAnswered-Alike (w ∷ ws) [] h k = elim h [ ]

or_same-Alike :
    (w : WireMessage) (ws : List WireMessage) (o : Option Content)
    → Alike (w ∷ ws) (or_same w (with_content w o) ∷ ws)
or_same-Alike w ws none = (refl, refl, refl, Alike-refl ws)
or_same-Alike w ws (some c) = (refl, refl, refl, Alike-refl ws)

system-Alike : (cc : CacheControl) (ws : List WireMessage) → Alike ws (add_to_system_prompt cc ws)
unfolding add_to_system_prompt
system-Alike cc [] = tt
system-Alike cc (w ∷ ws) = elim (Bool-cases (is_instruction w.role)) [
  | inl e ↦ simp e (or_same-Alike w ws (add_to_text_content cc w.content))
  | inr e ↦ simp e (refl, refl, refl, system-Alike cc ws)
]

-- What a change gives, if it gives anything.
abbrev AlikeIf : List WireMessage → Option (List WireMessage) → Type 0
AlikeIf ws none = Unit
AlikeIf ws (some vs) = Alike ws vs

with_content-Alike :
    (w : WireMessage) (ws : List WireMessage) (o : Option Content)
    → AlikeIf (w ∷ ws) (elim (with_content w o) [ none ↦ none | some v ↦ some (v ∷ ws) ])
with_content-Alike w ws none = tt
with_content-Alike w ws (some c) = (refl, refl, refl, Alike-refl ws)

marked-Alike :
    (cc : CacheControl) (w : WireMessage) (ws : List WireMessage)
    → AlikeIf (w ∷ ws) (marked_message cc w ws)
marked-Alike cc w ws = elim (Bool-cases (is_conversation w.role)) [
  | inl e ↦ simp e (with_content-Alike w ws (add_to_text_content cc w.content))
  | inr e ↦ simp e tt
]

in_front-Alike :
    (w : WireMessage) (ws : List WireMessage) (o other : Option (List WireMessage))
    → AlikeIf ws o
    → AlikeIf (w ∷ ws) other
    → AlikeIf (w ∷ ws) (in_front w o other)
in_front-Alike w ws none other h k = k
in_front-Alike w ws (some vs) other h k = (refl, refl, refl, h)

last-Alike : (cc : CacheControl) (ws : List WireMessage) → AlikeIf ws (mark_last_message cc ws)
unfolding mark_last_message
last-Alike cc [] = tt
last-Alike cc (w ∷ ws) =
    in_front-Alike w ws (mark_last_message cc ws) (marked_message cc w ws) (last-Alike cc ws)
      (marked-Alike cc w ws)

given-Alike :
    (ws : List WireMessage) (o : Option (List WireMessage)) → AlikeIf ws o → Alike ws (given o ws)
given-Alike ws none h = Alike-refl ws
given-Alike ws (some vs) h = h

applied-EachAnswered :
    (o : Option CacheControl) (r : WireRequest)
    → EachAnswered r.messages
    → EachAnswered (apply_cache_control o r).messages
unfolding apply_cache_control add_to_last_message
applied-EachAnswered none r h = h
applied-EachAnswered (some cc) r h =
    let ws = add_to_system_prompt cc r.messages in
    EachAnswered-Alike ws _ (given-Alike ws (mark_last_message cc ws) (last-Alike cc ws))
      (EachAnswered-Alike r.messages ws (system-Alike cc r.messages) h)

cache_control-mark :
    (i : Input) (retention : String)
    → mark (get_compat_cache_control i retention)
      ≡ (if not (i.cache_control_format =ₛ "anthropic") || (retention =ₛ "none") then 0 else 1)
unfolding get_compat_cache_control
cache_control-mark i retention = ground arith

fewer-breakpoints :
    (now : ℕ → ℤ) (i : Input) (ms : List Message) (model : Model)
    → breakpoints (build_params now i ms model) ≤ (
        if not (i.cache_control_format =ₛ "anthropic") || (resolve_cache_retention i =ₛ "none")
        then 0
        else 3)
fewer-breakpoints now i ms model = ground (
  arith,
  build_params-breakpoints_le now i ms model,
  cache_control-mark i (resolve_cache_retention i),
)

-- For every conversation, whatever the model, the options, the flags of the provider, the environment and
-- the clock: in an OpenAI completions request each tool call is answered by a tool message with its id
-- among those right behind it, before any message of another role; and there are three cache breakpoints
-- at most, and none where the provider's format is not Anthropic's or the retention is `none`.
pub build_params-IsAccepted :
    (now : ℕ → ℤ) (i : Input) (ms : List Message) (model : Model)
    → EachAnswered (build_params now i ms model).messages
      × (breakpoints (build_params now i ms model) ≤ (
          if not (i.cache_control_format =ₛ "anthropic") || (resolve_cache_retention i =ₛ "none")
          then 0
          else 3))
unfolding build_params apply_caching
build_params-IsAccepted now i ms model = (
  applied-EachAnswered (get_compat_cache_control i (resolve_cache_retention i)) _
      (convert_messages-EachAnswered now i.conversion i.system_prompt ms model),
  fewer-breakpoints now i ms model,
)
