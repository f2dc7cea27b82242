-- ===== src/Transform/Blocks/Handed.antt =====
-- What a hand-off to another model makes of each message: it stays where it is, and its ids are renamed.
use kern_proxy.Base.{
  ◌≡◌, refl, sym, ap, ◌∙◌, Bool, true, false, ◌||◌, Option, none, some, List, [], ◌∷◌, String, ◌=ₛ◌,
  eq_iff, arith, items, Bool-cases, inl, inr, if◌then◌else◌,
}
use kern_proxy.Messages.{
  ToolCall, ToolResultMessage, AssistantPart, AssistantMessage, Message, Model,
}
use kern_proxy.Transform.Blocks.{
  IdMap, lookup_id, rename_call, transform_call, transform_blocks, remap_result, transform_one,
  transform_all,
}
use kern_proxy.Transform.Blocks.Renamed.{
  by_id, IsForeign, remapped, tool_calls-thinking, remap_result-id,
}
use kern_proxy.Transform.Orphans.{tool_calls}

abbrev pub is_called : String → List String → Bool
is_called k [] = false
is_called k (id ∷ ids) = id =ₛ k || is_called k ids

-- The ids of the calls so far.
abbrev pub called : List ToolCall → List String → List String
called [] ids = ids
called (c ∷ cs) ids = called cs (c.id ∷ ids)

-- The calls of another model, under their new ids.
abbrev pub renamed_calls : (String → String) → List ToolCall → List ToolCall
renamed_calls h [] = []
renamed_calls h (c ∷ cs) = record c { id = h c.id; thought_signature = "" } ∷ renamed_calls h cs

abbrev pub new_id : (String → String) → List String → String → String
new_id h ids k = if is_called k ids then h k else k

-- Each message is at its place, and of its kind. A turn has its calls, under their new ids, and a result
-- that stands behind a call with its id has the new id of that call.
abbrev pub IsHandedOff : (String → String) → List String → List Message → List Message → Type 0
IsHandedOff h ids [] [] = Unit
IsHandedOff h ids (Message.user m ∷ ms) (Message.user n ∷ ns) =
    (n.content.plain ≡ m.content.plain) × (n.timestamp ≡ m.timestamp) × IsHandedOff h ids ms ns
IsHandedOff h ids (Message.assistant m ∷ ms) (Message.assistant n ∷ ns) =
    (tool_calls (items n.content) ≡ renamed_calls h (tool_calls (items m.content)))
    × (n.stop_reason ≡ m.stop_reason)
    × (n.timestamp ≡ m.timestamp)
    × IsHandedOff h (called (tool_calls (items m.content)) ids) ms ns
IsHandedOff h ids (Message.tool_result m ∷ ms) (Message.tool_result n ∷ ns) =
    (n.tool_call_id ≡ new_id h ids m.tool_call_id)
    × (n.tool_name ≡ m.tool_name)
    × (n.is_error ≡ m.is_error)
    × (n.timestamp ≡ m.timestamp)
    × IsHandedOff h ids ms ns
IsHandedOff h ids _ _ = ⊥

-- The map renames just the ids of the calls so far.
abbrev Tracks : (String → String) → List String → IdMap → Type 0
Tracks h ids map = (k : String) → remapped map k ≡ new_id h ids k

record HandsCall (h : String → String) (c : ToolCall) (ids : List String)
    (out : AssistantPart × IdMap) : Type 0 where
  is_call : out.0 ≡ AssistantPart.tool_call (record c { id = h c.id; thought_signature = "" })
  tracks : Tracks h (c.id ∷ ids) out.1

fixed_either : (b : Bool) (x y : String) → x ≡ y → (if b then x else y) ≡ x
fixed_either true x y e = refl
fixed_either false x y e = sym e

same-Tracks :
    (h : String → String) (id : String) (ids : List String) (map : IdMap)
    → h id ≡ id
    → Tracks h ids map
    → Tracks h (id ∷ ids) map
same-Tracks h id ids map e t k = elim (Bool-cases (id =ₛ k)) [
  | inl same ↦
      let is : id ≡ k = (eq_iff id k).0 same in
      let fixed : h k ≡ k = rw (← is) e in
      rw same (t k ∙ fixed_either (is_called k ids) (h k) k fixed)
  | inr other ↦ rw other (t k)
]

cons-Tracks :
    (h : String → String) (id : String) (ids : List String) (map : IdMap)
    → Tracks h ids map
    → Tracks h (id ∷ ids) ((id, h id) ∷ map)
unfolding lookup_id
cons-Tracks h id ids map t k = elim (Bool-cases (id =ₛ k)) [
  | inl same ↦ let is : h id ≡ h k = ap h ((eq_iff id k).0 same) in ground arith
  | inr other ↦ let before = t k in ground arith
]

call-HandsCall :
    (h : String → String) (c : ToolCall) (model : Model) (source : AssistantMessage)
    (ids : List String) (map : IdMap)
    → Tracks h ids map
    → HandsCall h c ids (transform_call c model source false map (by_id h))
unfolding transform_call rename_call
call-HandsCall h c model source ids map t = elim (Bool-cases (h c.id =ₛ c.id)) [
  | inl same ↦
      let e : h c.id ≡ c.id = (eq_iff (h c.id) c.id).0 same in
      rw same (record {
        is_call =
            ap (λ x. AssistantPart.tool_call (record c { id = x; thought_signature = "" })) (sym e);
        tracks = same-Tracks h c.id ids map e t;
      })
  | inr other ↦ rw other (record { is_call = refl; tracks = cons-Tracks h c.id ids map t })
]

record HandsBlocks (h : String → String) (bs : List AssistantPart) (ids : List String)
    (out : List AssistantPart × IdMap) : Type 0 where
  calls : tool_calls out.0 ≡ renamed_calls h (tool_calls bs)
  tracks : Tracks h (called (tool_calls bs) ids) out.1

HandsBlocks-call :
    (h : String → String) (c : ToolCall) (bs : List AssistantPart) (ids : List String)
    (head : AssistantPart × IdMap) (rest : List AssistantPart × IdMap)
    → HandsCall h c ids head
    → HandsBlocks h bs (c.id ∷ ids) rest
    → HandsBlocks h (AssistantPart.tool_call c ∷ bs) ids (head.0 ∷ rest.0, rest.1)
unfolding tool_calls
HandsBlocks-call h c bs ids head rest r t = record {
  calls = rw r.is_call (ap (◌∷◌ (record c { id = h c.id; thought_signature = "" })) t.calls);
  tracks = t.tracks;
}

blocks-HandsBlocks :
    (h : String → String) (bs : List AssistantPart) (model : Model) (source : AssistantMessage)
    (ids : List String) (map : IdMap)
    → Tracks h ids map
    → HandsBlocks h bs ids (transform_blocks bs model source false map (by_id h))
unfolding transform_blocks tool_calls
blocks-HandsBlocks h [] model source ids map t = record { calls = refl; tracks = t }
blocks-HandsBlocks h (AssistantPart.text b ∷ bs) model source ids map t =
    let r = blocks-HandsBlocks h bs model source ids map t in
    record { calls = r.calls; tracks = r.tracks }
blocks-HandsBlocks h (AssistantPart.thinking b ∷ bs) model source ids map t =
    let r = blocks-HandsBlocks h bs model source ids map t in
    record { calls = tool_calls-thinking b false _ ∙ r.calls; tracks = r.tracks }
blocks-HandsBlocks h (AssistantPart.tool_call c ∷ bs) model source ids map t =
    let r = call-HandsCall h c model source ids map t in
    HandsBlocks-call h c bs ids _ _ r (blocks-HandsBlocks h bs model source (c.id ∷ ids) _ r.tracks)

-- A result is the same but for its id.
remap_result-same :
    (m : ToolResultMessage) (found : Option String)
    → ((remap_result m found).tool_name ≡ m.tool_name)
      × ((remap_result m found).is_error ≡ m.is_error)
      × ((remap_result m found).timestamp ≡ m.timestamp)
unfolding remap_result
remap_result-same m none = (refl, refl, refl)
remap_result-same m (some new) = elim (Bool-cases (new =ₛ m.tool_call_id)) [
  | inl e ↦ rw e (refl, refl, refl)
  | inr e ↦ rw e (refl, refl, refl)
]

pub transform_all-IsHandedOff :
    (h : String → String) (ms : List Message) (model : Model) (ids : List String) (map : IdMap)
    → Tracks h ids map
    → IsForeign model ms
    → IsHandedOff h ids ms (transform_all ms model map (by_id h))
unfolding transform_all transform_one
transform_all-IsHandedOff h [] model ids map t f = tt
transform_all-IsHandedOff h (Message.user m ∷ ms) model ids map t f =
    (refl, refl, transform_all-IsHandedOff h ms model ids map t f)
transform_all-IsHandedOff h (Message.tool_result m ∷ ms) model ids map t f =
    let (name, failed, time) = remap_result-same m (lookup_id m.tool_call_id map) in
    (
      remap_result-id m map ∙ t m.tool_call_id,
      name,
      failed,
      time,
      transform_all-IsHandedOff h ms model ids map t f,
    )
transform_all-IsHandedOff h (Message.assistant m ∷ ms) model ids map t f =
    let r = rw (← f.0) at (blocks-HandsBlocks h (items m.content) model m ids map t) in
    (r.calls, refl, refl, transform_all-IsHandedOff h ms model _ _ r.tracks f.1)
