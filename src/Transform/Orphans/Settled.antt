-- ===== src/Transform/Orphans/Settled.antt =====
-- What a provider requires of a replayed conversation: no failed turn is in it, and every tool
-- call is answered before the next turn.
use kern_proxy.Base.{
  ℕ, ◌+◌, ◌≡◌, refl, ap, ◌∙◌, Bool, true, false, ◌||◌, List, [], ◌∷◌, ◌++◌, append-nil, String,
  ◌=ₛ◌, eq_iff, eq_refl, arith, items, Bool-cases, inl, inr,
}
use kern_proxy.Base.Int.{ℤ}
use kern_proxy.Messages.{ToolCall, Message}
use kern_proxy.Transform.Orphans.{contains, tool_calls, is_failed, insert_orphan_tool_results}
use kern_proxy.Transform.Orphans.Fill.{missing, fill, insert-fill}

-- A result for `id` stands before the next user or assistant turn.
abbrev pub answered : String → List Message → Bool
answered id [] = false
answered id (Message.tool_result m ∷ ms) = m.tool_call_id =ₛ id || answered id ms
answered id (Message.user m ∷ ms) = false
answered id (Message.assistant m ∷ ms) = false

abbrev pub has_call : String → List ToolCall → Bool
has_call id [] = false
has_call id (c ∷ cs) = c.id =ₛ id || has_call id cs

abbrev pub IsSettled : List Message → Type 0
IsSettled [] = Unit
IsSettled (Message.tool_result m ∷ ms) = IsSettled ms
IsSettled (Message.user m ∷ ms) = IsSettled ms
IsSettled (Message.assistant m ∷ ms) =
    (is_failed m.stop_reason ≡ false)
    × ((id : String) → has_call id (tool_calls (items m.content)) ≡ true → answered id ms ≡ true)
    × IsSettled ms

missing-answers :
    (now : ℕ → ℤ) (n : ℕ) (existing : List String) (calls : List ToolCall) (rest : List Message)
    (id : String)
    → has_call id calls ≡ true
    → (contains existing id || answered id (missing now n existing calls ++ rest)) ≡ true
unfolding missing
missing-answers now n e [] rest id h = cc
missing-answers now n e (c ∷ cs) rest id h = ground (
  arith,
  eq_iff c.id id,
  missing-answers now n e cs rest id,
  missing-answers now (n + 1) e cs rest id,
  ap (contains e) {x = c.id} {y = id},
)

fill-answers :
    (now : ℕ → ℤ) (n : ℕ) (pending : List ToolCall) (existing : List String) (ms : List Message)
    (id : String)
    → has_call id pending ≡ true
    → (contains existing id || answered id (fill now n pending existing ms)) ≡ true
unfolding fill contains
fill-answers now n p e [] id h = rw append-nil at (missing-answers now n e p [] id h)
fill-answers now n p e (Message.tool_result m ∷ ms) id h =
    ground (arith, fill-answers now (n + 1) p (m.tool_call_id ∷ e) ms id h)
fill-answers now n p e (Message.user m ∷ ms) id h = missing-answers now n e p _ id h
fill-answers now n p e (Message.assistant m ∷ ms) id h = missing-answers now n e p _ id h

missing-IsSettled :
    (now : ℕ → ℤ) (n : ℕ) (existing : List String) (calls : List ToolCall) (rest : List Message)
    → IsSettled rest
    → IsSettled (missing now n existing calls ++ rest)
unfolding missing
missing-IsSettled now n e [] rest h = h
missing-IsSettled now n e (c ∷ cs) rest h = elim (Bool-cases (contains e c.id)) [
  | inl found ↦ rw found (missing-IsSettled now n e cs rest h)
  | inr absent ↦ rw absent (missing-IsSettled now (n + 1) e cs rest h)
]

fill-IsSettled :
    (now : ℕ → ℤ) (n : ℕ) (pending : List ToolCall) (existing : List String) (ms : List Message)
    → IsSettled (fill now n pending existing ms)
unfolding fill contains
fill-IsSettled now n p e [] = rw append-nil at (missing-IsSettled now n e p [] tt)
fill-IsSettled now n p e (Message.tool_result m ∷ ms) =
    fill-IsSettled now (n + 1) p (m.tool_call_id ∷ e) ms
fill-IsSettled now n p e (Message.user m ∷ ms) =
    missing-IsSettled now n e p _ (fill-IsSettled now _ [] [] ms)
fill-IsSettled now n p e (Message.assistant m ∷ ms) = elim (Bool-cases (is_failed m.stop_reason)) [
  | inl failed ↦ rw failed (missing-IsSettled now n e p _ (fill-IsSettled now _ [] [] ms))
  | inr complete ↦ rw complete (
      missing-IsSettled now n e p _
        (complete, λ id. fill-answers now _ _ [] ms id, fill-IsSettled now _ _ [] ms))
]

-- Whatever the conversation and the clock, the result of `insertOrphanToolResults` holds no
-- assistant turn that ended in error or was aborted, and each tool call of each assistant turn
-- in it has a tool result with its id before the next user or assistant turn or the end.
pub insert-IsSettled :
    (now : ℕ → ℤ) (ms : List Message) → IsSettled (insert_orphan_tool_results now ms)
insert-IsSettled now ms = rw insert-fill (fill-IsSettled now 0 [] [] ms)

-- Every pending call has a result already, or gets one from the messages to come.
abbrev IsMet : List ToolCall → List String → List Message → Type 0
IsMet pending existing ms =
    (id : String) → has_call id pending ≡ true → (contains existing id || answered id ms) ≡ true

missing-nil :
    (now : ℕ → ℤ) (n : ℕ) (existing : List String) (calls : List ToolCall)
    → ((id : String) → has_call id calls ≡ true → contains existing id ≡ true)
    → missing now n existing calls ≡ []
unfolding missing
missing-nil now n e [] h = refl
missing-nil now n e (c ∷ cs) h =
    rw (h c.id (rw eq_refl)) (missing-nil now n e cs (λ id k. h id (ground arith)))

fill-of_IsSettled :
    (now : ℕ → ℤ) (n : ℕ) (pending : List ToolCall) (existing : List String) (ms : List Message)
    → IsMet pending existing ms
    → IsSettled ms
    → fill now n pending existing ms ≡ ms
unfolding fill contains
fill-of_IsSettled now n p e [] met h = missing-nil now n e p (λ id k. ground (arith, met id k))
fill-of_IsSettled now n p e (Message.tool_result m ∷ ms) met h =
    ap (◌∷◌ (Message.tool_result m))
      (fill-of_IsSettled now (n + 1) p (m.tool_call_id ∷ e) ms (λ id k. ground (arith, met id k)) h)
fill-of_IsSettled now n p e (Message.user m ∷ ms) met h =
    rw (missing-nil now n e p (λ id k. ground (arith, met id k)))
      (ap (◌∷◌ (Message.user m)) (fill-of_IsSettled now _ [] [] ms (λ id k. cc) h))
fill-of_IsSettled now n p e (Message.assistant m ∷ ms) met h =
    rw (missing-nil now n e p (λ id k. ground (arith, met id k)), h.0)
      (ap (◌∷◌ (Message.assistant m)) (fill-of_IsSettled now _ _ [] ms (λ id k. h.1 id k) h.2))

-- A conversation that is settled already comes back unchanged.
pub insert-of_IsSettled :
    (now : ℕ → ℤ) (ms : List Message) → IsSettled ms → insert_orphan_tool_results now ms ≡ ms
insert-of_IsSettled now ms h = insert-fill now ms ∙ fill-of_IsSettled now 0 [] [] ms (λ id k. cc) h

-- A second pass, at whatever clock, changes nothing.
insert-idempotent :
    (now later : ℕ → ℤ) (ms : List Message)
    → insert_orphan_tool_results later (insert_orphan_tool_results now ms)
      ≡ insert_orphan_tool_results now ms
insert-idempotent now later ms = insert-of_IsSettled later _ (insert-IsSettled now ms)
