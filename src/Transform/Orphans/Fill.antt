-- ===== src/Transform/Orphans/Fill.antt =====
-- The output of `insertOrphanToolResults` with no accumulator: what stands in it between the
-- messages that are left to visit.
use kern_proxy.Base.{
  ℕ, ◌+◌, ◌≡◌, sym, ◌∙◌, List, [], ◌∷◌, ◌++◌, append-nil, append_assoc, String, if◌then◌else◌,
  items, length, length-append, Bool-cases, inl, inr,
}
use kern_proxy.Base.Int.{ℤ}
use kern_proxy.Messages.{ToolCall, Message}
use kern_proxy.Transform.Orphans.{
  contains, no_result, flush, tool_calls, is_failed, State, flushed, expect, visit, visit_all,
  insert_orphan_tool_results,
}

-- The results that `flush` appends at place `n`.
unfoldable pub missing : (ℕ → ℤ) → ℕ → List String → List ToolCall → List Message
missing now n existing [] = []
missing now n existing (call ∷ calls) =
    let rest = missing now n existing calls in
    let more = missing now (n + 1) existing calls in
    if contains existing call.id then rest else Message.tool_result (no_result call (now n)) ∷ more

-- What the loop appends from place `n` on.
unfoldable pub fill : (ℕ → ℤ) → ℕ → List ToolCall → List String → List Message → List Message
fill now n pending existing [] = missing now n existing pending
fill now n pending existing (Message.tool_result m ∷ ms) =
    Message.tool_result m ∷ fill now (n + 1) pending (m.tool_call_id ∷ existing) ms
fill now n pending existing (Message.user m ∷ ms) =
    missing now n existing pending
    ++ Message.user m ∷ fill now (n + length (missing now n existing pending) + 1) [] [] ms
fill now n pending existing (Message.assistant m ∷ ms) =
    let gap = missing now n existing pending in
    let skipped = fill now (n + length gap) [] [] ms in
    let kept = fill now (n + length gap + 1) (tool_calls (items m.content)) [] ms in
    gap ++ (if is_failed m.stop_reason then skipped else Message.assistant m ∷ kept)

flush-missing :
    (now : ℕ → ℤ) (existing : List String) (calls : List ToolCall) (result : List Message)
    → flush now existing calls result ≡ result ++ missing now (length result) existing calls
unfolding flush missing
flush-missing now existing [] result = sym (append-nil result)
flush-missing now existing (c ∷ cs) result = elim (Bool-cases (contains existing c.id)) [
  | inl found ↦ rw found (flush-missing now existing cs result)
  | inr absent ↦ rw absent (flush-missing now existing cs _ ∙ rw (length-append) (rw append_assoc))
]

flushed-missing :
    (now : ℕ → ℤ) (s : State)
    → flushed now s ≡ record {
      result = s.result ++ missing now (length s.result) s.existing s.pending;
      pending = [];
      existing = [];
    }
unfolding flushed
flushed-missing now s = rw flush-missing

expect-flushed :
    (now : ℕ → ℤ) (s : State) (calls : List ToolCall)
    → expect (flushed now s) calls ≡ record {
      result = s.result ++ missing now (length s.result) s.existing s.pending;
      pending = calls;
      existing = [];
    }
expect-flushed now s [] = flushed-missing now s
expect-flushed now s (c ∷ cs) = rw flushed-missing

visit_all-fill :
    (now : ℕ → ℤ) (ms : List Message) (s : State)
    → (visit_all now s ms).result ≡ s.result ++ fill now (length s.result) s.pending s.existing ms
unfolding visit_all visit fill
visit_all-fill now [] s = flush-missing now s.existing s.pending s.result
visit_all-fill now (Message.tool_result m ∷ ms) s =
    visit_all-fill now ms _ ∙ rw length-append (rw append_assoc)
visit_all-fill now (Message.user m ∷ ms) s =
    visit_all-fill now ms (visit now s (Message.user m))
    ∙ rw (flush-missing, length-append, length-append) (simp append_assoc)
visit_all-fill now (Message.assistant m ∷ ms) s = elim (Bool-cases (is_failed m.stop_reason)) [
  | inl failed ↦
      visit_all-fill now ms (visit now s (Message.assistant m))
      ∙ rw (failed, flush-missing, length-append) (simp append_assoc)
  | inr complete ↦
      visit_all-fill now ms (visit now s (Message.assistant m))
      ∙ rw
          (
            complete,
            expect-flushed now s (tool_calls (items m.content)),
            length-append,
            length-append,
          )
          (simp append_assoc)
]

pub insert-fill :
    (now : ℕ → ℤ) (ms : List Message) → insert_orphan_tool_results now ms ≡ fill now 0 [] [] ms
unfolding insert_orphan_tool_results
insert-fill now ms = visit_all-fill now ms _
