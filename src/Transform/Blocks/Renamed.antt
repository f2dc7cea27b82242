-- ===== src/Transform/Blocks/Renamed.antt =====
-- A hand-off to another model renames a tool call and its result alike.
use kern_proxy.Base.Int.{ℤ}
use kern_proxy.Base.{
  ℕ, ◌≡◌, refl, sym, ap, ◌∙◌, Bool, true, false, Option, none, some, List, [], ◌∷◌, ◌++◌, String,
  ◌=ₛ◌, eq_iff, eq_refl, arith, items, Bool-cases, ◌⊎◌, inl, inr,
}
use kern_proxy.Messages.{
  ToolCall, ThinkingContent, ToolResultMessage, AssistantPart, AssistantMessage, Message, Model,
}
use kern_proxy.Transform.Blocks.{
  IdMap, Normalizer, lookup_id, rename_call, transform_thinking, transform_call, transform_blocks,
  is_same_model, remap_result, transform_one, transform_all,
}
use kern_proxy.Transform.Orphans.{tool_calls, insert_orphan_tool_results}
use kern_proxy.Transform.Orphans.Settled.{answered, has_call, IsSettled, insert-of_IsSettled}

-- A normaliser that looks at the id alone.
abbrev pub by_id : (String → String) → Option Normalizer
by_id h = some (λ id model source. h id)

-- Every turn was written by another model than the one to be asked.
abbrev pub IsForeign : Model → List Message → Type 0
IsForeign model [] = Unit
IsForeign model (Message.user m ∷ ms) = IsForeign model ms
IsForeign model (Message.tool_result m ∷ ms) = IsForeign model ms
IsForeign model (Message.assistant m ∷ ms) = (is_same_model m model ≡ false) × IsForeign model ms

-- What the map makes of an id.
abbrev pub remapped : IdMap → String → String
remapped ids id = elim (lookup_id id ids) [ none ↦ id | some new ↦ new ]

-- The map holds renamings by `h` only.
abbrev IsSound : (String → String) → IdMap → Type 0
IsSound h ids = (id : String) → (lookup_id id ids ≡ none) ⊎ (lookup_id id ids ≡ some (h id))

IsSound-cons :
    (h : String → String) (ids : IdMap) (id : String) → IsSound h ids → IsSound h ((id, h id) ∷ ids)
unfolding lookup_id
IsSound-cons h ids id s k = elim (Bool-cases (id =ₛ k)) [
  | inl same ↦ rw same (inr (ap (λ x. some (h x)) ((eq_iff id k).0 same)))
  | inr other ↦ rw other (s k)
]

-- A renaming that is in the map, or was not needed, stays right under another one.
remapped-cons :
    (h : String → String) (ids : IdMap) (id k : String)
    → remapped ids k ≡ h k
    → remapped ((id, h id) ∷ ids) k ≡ h k
unfolding lookup_id
remapped-cons h ids id k e = ground (arith, eq_iff id k)

-- What one call of a foreign turn does to the map: the call gets its new id, the map stays
-- sound, it keeps what it had, and it renames the call.
record RenamesCall (h : String → String) (c : ToolCall) (ids : IdMap) (out : AssistantPart × IdMap)
    : Type 0 where
  call : ToolCall
  is_call : out.0 ≡ AssistantPart.tool_call call
  id_is : call.id ≡ h c.id
  sound : IsSound h out.1
  keeps : (k : String) → remapped ids k ≡ h k → remapped out.1 k ≡ h k
  renames : remapped out.1 c.id ≡ h c.id

call-RenamesCall :
    (h : String → String) (c : ToolCall) (model : Model) (source : AssistantMessage) (ids : IdMap)
    → IsSound h ids
    → RenamesCall h c ids (transform_call c model source false ids (by_id h))
unfolding transform_call rename_call
call-RenamesCall h c model source ids s = elim (Bool-cases (h c.id =ₛ c.id)) [
  | inl same ↦ rw same (record {
    call = record c { thought_signature = "" };
    is_call = refl;
    id_is = sym ((eq_iff (h c.id) c.id).0 same);
    sound = s;
    keeps = λ k e. e;
    renames = ground (arith, eq_iff (h c.id) c.id, s c.id);
  })
  | inr other ↦ rw other (record {
    call = record c { thought_signature = ""; id = h c.id };
    is_call = refl;
    id_is = refl;
    sound = IsSound-cons h ids c.id s;
    keeps = remapped-cons h ids c.id;
    renames = unfold lookup_id in ground (arith, eq_refl c.id);
  })
]

-- What one foreign turn does to the map, and where the ids of its calls come from.
record Renames (h : String → String) (bs : List AssistantPart) (ids : IdMap)
    (out : List AssistantPart × IdMap) : Type 0 where
  sound : IsSound h out.1
  keeps : (k : String) → remapped ids k ≡ h k → remapped out.1 k ≡ h k
  renames : (k : String) → has_call k (tool_calls bs) ≡ true → remapped out.1 k ≡ h k
  back :
      (j : String)
      → has_call j (tool_calls out.0) ≡ true
      → (k : String) × (j ≡ h k) × (has_call k (tool_calls bs) ≡ true)

Renames-call :
    (h : String → String) (c : ToolCall) (bs : List AssistantPart) (ids : IdMap)
    (head : AssistantPart × IdMap) (rest : List AssistantPart × IdMap)
    → RenamesCall h c ids head
    → Renames h bs head.1 rest
    → Renames h (AssistantPart.tool_call c ∷ bs) ids (head.0 ∷ rest.0, rest.1)
unfolding tool_calls
Renames-call h c bs ids head rest r t = record {
  sound = t.sound;
  keeps = λ k e. t.keeps k (r.keeps k e);
  renames = λ k e. elim (Bool-cases (c.id =ₛ k)) [
    | inl same ↦ t.keeps k (rw (← (eq_iff c.id k).0 same) r.renames)
    | inr other ↦ t.renames k (rw other at e)
  ];
  back = λ j e. elim (Bool-cases (r.call.id =ₛ j)) [
    | inl same ↦ (c.id, sym ((eq_iff r.call.id j).0 same) ∙ r.id_is, rw eq_refl)
    | inr other ↦
        let (k, e', found) = t.back j (rw (r.is_call, other) at e) in (k, e', ground arith)
  ];
}

pub tool_calls-thinking :
    (b : ThinkingContent) (same : Bool) (rest : List AssistantPart)
    → tool_calls (transform_thinking b same ++ rest) ≡ tool_calls rest
unfolding transform_thinking tool_calls
tool_calls-thinking b same rest = ground arith

blocks-Renames :
    (h : String → String) (bs : List AssistantPart) (model : Model) (source : AssistantMessage)
    (ids : IdMap)
    → IsSound h ids
    → Renames h bs ids (transform_blocks bs model source false ids (by_id h))
unfolding transform_blocks tool_calls
blocks-Renames h [] model source ids s = record {
  sound = s;
  keeps = λ k e. e;
  renames = λ k e. cc;
  back = λ j e. cc;
}
blocks-Renames h (AssistantPart.text t ∷ bs) model source ids s =
    let r = blocks-Renames h bs model source ids s in
    record { sound = r.sound; keeps = r.keeps; renames = r.renames; back = r.back }
blocks-Renames h (AssistantPart.thinking b ∷ bs) model source ids s =
    let r = blocks-Renames h bs model source ids s in
    record {
      sound = r.sound;
      keeps = r.keeps;
      renames = r.renames;
      back = λ j e. r.back j (rw tool_calls-thinking at e);
    }
blocks-Renames h (AssistantPart.tool_call c ∷ bs) model source ids s =
    let r = call-RenamesCall h c model source ids s in
    Renames-call h c bs ids _ _ r (blocks-Renames h bs model source _ r.sound)

remap_result-found :
    (m : ToolResultMessage) (found : Option String)
    → (remap_result m found).tool_call_id ≡ (elim found [ none ↦ m.tool_call_id | some new ↦ new ])
unfolding remap_result
remap_result-found m none = refl
remap_result-found m (some new) = ground (arith, eq_iff new m.tool_call_id)

pub remap_result-id :
    (m : ToolResultMessage) (ids : IdMap)
    → (remap_result m (lookup_id m.tool_call_id ids)).tool_call_id ≡ remapped ids m.tool_call_id
remap_result-id m ids = remap_result-found m (lookup_id m.tool_call_id ids)

-- A result for `k` becomes a result for `h k`.
answered-transform_all :
    (h : String → String) (ms : List Message) (model : Model) (ids : IdMap) (k : String)
    → remapped ids k ≡ h k
    → answered k ms ≡ true
    → answered (h k) (transform_all ms model ids (by_id h)) ≡ true
unfolding transform_all transform_one
answered-transform_all h [] model ids k e a = cc
answered-transform_all h (Message.user m ∷ ms) model ids k e a = cc
answered-transform_all h (Message.assistant m ∷ ms) model ids k e a = cc
answered-transform_all h (Message.tool_result m ∷ ms) model ids k e a =
    elim (Bool-cases (m.tool_call_id =ₛ k)) [
      | inl same ↦
          let here : (remap_result m (lookup_id m.tool_call_id ids)).tool_call_id ≡ h k =
            remap_result-id m ids ∙ ap (remapped ids) ((eq_iff m.tool_call_id k).0 same) ∙ e in
          rw (here, eq_refl)
      | inr other ↦ ground (arith, answered-transform_all h ms model ids k e (rw other at a))
    ]

transform_all-IsSettled :
    (h : String → String) (ms : List Message) (model : Model) (ids : IdMap)
    → IsSound h ids
    → IsForeign model ms
    → IsSettled ms
    → IsSettled (transform_all ms model ids (by_id h))
unfolding transform_all transform_one
transform_all-IsSettled h [] model ids s f w = tt
transform_all-IsSettled h (Message.user m ∷ ms) model ids s f w =
    transform_all-IsSettled h ms model ids s f w
transform_all-IsSettled h (Message.tool_result m ∷ ms) model ids s f w =
    transform_all-IsSettled h ms model ids s f w
transform_all-IsSettled h (Message.assistant m ∷ ms) model ids s f w =
    let r = rw (← f.0) at (blocks-Renames h (items m.content) model m ids s) in
    (
      w.0,
      λ j e.
          let (k, j-is, called) = r.back j e in
          rw j-is (answered-transform_all h ms model _ k (r.renames k called) (w.1 k called)),
      transform_all-IsSettled h ms model _ r.sound f.1 w.2,
    )

-- Hand-off of a settled conversation to a model that wrote none of its turns, by a normaliser
-- that looks at the id alone: the renamed conversation is settled again, so the last pass puts
-- no error result into it and drops no turn.
pub insert-transform_all :
    (now : ℕ → ℤ) (h : String → String) (ms : List Message) (model : Model)
    → IsForeign model ms
    → IsSettled ms
    → insert_orphan_tool_results now (transform_all ms model [] (by_id h))
      ≡ transform_all ms model [] (by_id h)
insert-transform_all now h ms model f w =
    insert-of_IsSettled now _
      (transform_all-IsSettled h ms model [] (λ k. unfold lookup_id in inl refl) f w)
