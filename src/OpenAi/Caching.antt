-- ===== src/OpenAi/Caching.antt =====
-- Where the cache control goes in the messages, in ai/apis/openaicompletions/openaicompletions.go: on the system prompt, and
-- on the last message of the conversation that has a text.
use kern_proxy.Base.{Bool, true, false, Option, none, some, List, [], ◌∷◌, ◌=ₛ◌, if◌then◌else◌}
use kern_proxy.Anthropic.Convert.{CacheControl}
use kern_proxy.Anthropic.Params.{given}
use kern_proxy.OpenAi.Message.{Role, PartKind, ContentPart, Content, WireMessage}

abbrev pub is_text : PartKind → Bool
is_text (PartKind.text _) = true
is_text (PartKind.image_url _) = false

abbrev pub marked_part : CacheControl → ContentPart → List ContentPart → Option (List ContentPart)
marked_part cc p ps = if is_text p.kind then some (record p { cache = some cc } ∷ ps) else none

abbrev pub in_front : {A : Type 0} → A → Option (List A) → Option (List A) → Option (List A)
in_front a none other = other
in_front a (some rest) other = some (a ∷ rest)

-- The last text part is marked; `none` if there is none.
unfoldable pub mark_last_text : CacheControl → List ContentPart → Option (List ContentPart)
mark_last_text cc [] = none
mark_last_text cc (p ∷ ps) = in_front p (mark_last_text cc ps) (marked_part cc p ps)

abbrev pub as_parts : Option (List ContentPart) → Option Content
as_parts none = none
as_parts (some ps) = some (Content.parts ps)

-- `addCacheControlToTextContent`; `none` stands for `false`, where nothing is changed.
unfoldable pub add_to_text_content : CacheControl → Content → Option Content
add_to_text_content cc Content.absent = none
add_to_text_content cc (Content.plain t) =
    if t =ₛ ""
    then none
    else some (Content.parts (record { kind = PartKind.text t; cache = some cc } ∷ []))
add_to_text_content cc (Content.parts ps) = as_parts (mark_last_text cc ps)

abbrev pub with_content : WireMessage → Option Content → Option WireMessage
with_content w none = none
with_content w (some c) = some (record w { content = c })

abbrev pub or_same : WireMessage → Option WireMessage → WireMessage
or_same w none = w
or_same w (some v) = v

abbrev pub is_instruction : Role → Bool
is_instruction Role.system = true
is_instruction Role.developer = true
is_instruction _ = false

abbrev pub is_conversation : Role → Bool
is_conversation Role.user = true
is_conversation Role.assistant = true
is_conversation _ = false

-- `addCacheControlToSystemPrompt`
unfoldable pub add_to_system_prompt : CacheControl → List WireMessage → List WireMessage
add_to_system_prompt cc [] = []
add_to_system_prompt cc (w ∷ ws) =
    let rest = add_to_system_prompt cc ws in
    if is_instruction w.role
    then or_same w (with_content w (add_to_text_content cc w.content)) ∷ ws
    else w ∷ rest

abbrev pub marked_message :
    CacheControl → WireMessage → List WireMessage → Option (List WireMessage)
marked_message cc w ws =
    if is_conversation w.role
    then elim (with_content w (add_to_text_content cc w.content)) [
      | none ↦ none
      | some v ↦ some (v ∷ ws)
    ]
    else none

-- The loop of `addCacheControlToLastConversationMessage`, from the end; `none` if it changes nothing.
unfoldable pub mark_last_message : CacheControl → List WireMessage → Option (List WireMessage)
mark_last_message cc [] = none
mark_last_message cc (w ∷ ws) = in_front w (mark_last_message cc ws) (marked_message cc w ws)

-- `addCacheControlToLastConversationMessage`
unfoldable pub add_to_last_message : CacheControl → List WireMessage → List WireMessage
add_to_last_message cc ws = given (mark_last_message cc ws) ws
