-- ===== src/Transform/Orphans/Kept.antt =====
-- What `insertOrphanToolResults` keeps, drops and adds.
use kern_proxy.Base.{
  ℕ, ◌+◌, ◌≡◌, true, List, [], ◌∷◌, ◌++◌, append-nil, String, Bool-cases, inl, inr,
}
use kern_proxy.Base.Int.{ℤ}
use kern_proxy.Messages.{ToolCall, AssistantMessage, Message}
use kern_proxy.Transform.Orphans.{contains, no_result, is_failed, insert_orphan_tool_results}
use kern_proxy.Transform.Orphans.Fill.{missing, fill, insert-fill}

-- The second conversation is the first, in its order, with failed turns dropped and with
-- error results put in that answer `No result provided`.
pub data Completes : List Message → List Message → Type 0 where
  done : Completes [] []
  keep : (m : Message) {ms out : List Message} → Completes ms out → Completes (m ∷ ms) (m ∷ out)
  drop :
      (m : AssistantMessage) {ms out : List Message}
      → is_failed m.stop_reason ≡ true
      → Completes ms out
      → Completes (Message.assistant m ∷ ms) out
  add :
      (call : ToolCall) (t : ℤ) {ms out : List Message}
      → Completes ms out
      → Completes ms (Message.tool_result (no_result call t) ∷ out)

missing-Completes :
    (now : ℕ → ℤ) (n : ℕ) (existing : List String) (calls : List ToolCall) {ms rest : List Message}
    → Completes ms rest
    → Completes ms (missing now n existing calls ++ rest)
unfolding missing
missing-Completes now n e [] h = h
missing-Completes now n e (c ∷ cs) h = elim (Bool-cases (contains e c.id)) [
  | inl found ↦ rw found (missing-Completes now n e cs h)
  | inr absent ↦ rw absent (Completes.add c (now n) (missing-Completes now (n + 1) e cs h))
]

fill-Completes :
    (now : ℕ → ℤ) (n : ℕ) (pending : List ToolCall) (existing : List String) (ms : List Message)
    → Completes ms (fill now n pending existing ms)
unfolding fill
fill-Completes now n p e [] = rw append-nil at (missing-Completes now n e p Completes.done)
fill-Completes now n p e (Message.tool_result m ∷ ms) =
    Completes.keep _ (fill-Completes now (n + 1) p (m.tool_call_id ∷ e) ms)
fill-Completes now n p e (Message.user m ∷ ms) =
    missing-Completes now n e p (Completes.keep _ (fill-Completes now _ [] [] ms))
fill-Completes now n p e (Message.assistant m ∷ ms) = elim (Bool-cases (is_failed m.stop_reason)) [
  | inl failed ↦
      rw failed
        (missing-Completes now n e p (Completes.drop m failed (fill-Completes now _ [] [] ms)))
  | inr complete ↦
      rw complete (missing-Completes now n e p (Completes.keep _ (fill-Completes now _ _ [] ms)))
]

-- Nothing else happens to the conversation: the result is the input in its order, less some
-- turns that ended in error or were aborted, plus error results that say `No result provided`.
pub insert-Completes :
    (now : ℕ → ℤ) (ms : List Message) → Completes ms (insert_orphan_tool_results now ms)
insert-Completes now ms = rw insert-fill (fill-Completes now 0 [] [] ms)
