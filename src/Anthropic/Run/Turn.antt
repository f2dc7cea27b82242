-- ===== src/Anthropic/Run/Turn.antt =====
-- The stream that `run` makes.
use kern_proxy.Base.{
  ◌≡◌, refl, Bool, true, false, Option, none, some, List, [], ◌∷◌, arith, inl, inr, String,
  Bool-cases,
}
use kern_proxy.Messages.{AssistantPart, AssistantMessage, Model}
use kern_proxy.Stream.{Event, Stream, new_stream, push, is_terminal_event}
use kern_proxy.Sse.{new_reader, read_all}
use kern_proxy.Anthropic.Wire.{Json}
use kern_proxy.Anthropic.Blocks.{BlockState, Decoding, Outcome, content_of}
use kern_proxy.Anthropic.Decode.{error_text}
use kern_proxy.Replay.{replay, follow}
use kern_proxy.Replay.Told.{TellAll, Ends, IsTurn, push-IsTurn}
use kern_proxy.Anthropic.Replay.{pieces, aligned, Agrees}
use kern_proxy.Anthropic.Replay.Steps.{Holds}
use kern_proxy.Anthropic.Replay.Whole.{decode_events-Agrees}
use kern_proxy.Transform.Orphans.{is_failed}
use kern_proxy.Anthropic.Run.{
  Request, Answer, fail, fail_reason, complete, conclude, answered, refused, refusal, run,
  new_output, started, or_unknown,
}

pieces-TellAll :
    (bs : List BlockState) (ps : List AssistantPart)
    → aligned bs ps ≡ true
    → TellAll (pieces bs ps) ps
unfolding pieces aligned
pieces-TellAll [] [] h = tt
pieces-TellAll (b ∷ bs) (AssistantPart.text t ∷ ps) h = (refl, pieces-TellAll bs ps (ground arith))
pieces-TellAll (b ∷ bs) (AssistantPart.thinking t ∷ ps) h =
    (refl, pieces-TellAll bs ps (ground arith))
pieces-TellAll (b ∷ bs) (AssistantPart.tool_call t ∷ ps) h =
    (tt, pieces-TellAll bs ps (ground arith))
pieces-TellAll [] (p ∷ ps) h = ground arith
pieces-TellAll (b ∷ bs) [] h = ground arith

close-IsTurn :
    (j : Json) (s : Decoding) (ev : Event) (m : AssistantMessage)
    → Agrees j s
    → Ends ev m
    → m.content ≡ s.output.content
    → IsTurn j.object (push s.out ev)
close-IsTurn j s ev m h e c =
    push-IsTurn j.object s.out (pieces s.blocks (content_of s)) ev m h.0 h.2
      (rw c (pieces-TellAll s.blocks (content_of s) h.1)) e

pub fail_reason-is_failed : (c : Bool) → is_failed (fail_reason c) ≡ true
fail_reason-is_failed true = refl
fail_reason-is_failed false = refl

fail-IsTurn :
    (j : Json) (s : Decoding) (c : Bool) (e : String)
    → Agrees j s
    → IsTurn j.object (fail c e s.out s.output)
unfolding fail
fail-IsTurn j s c e h =
    close-IsTurn j s _ (record s.output { stop_reason = fail_reason c; error_message = e }) h
      (refl, refl, fail_reason-is_failed c) refl

complete-IsTurn :
    (r : Request) (j : Json) (s : Decoding) → Agrees j s → IsTurn j.object (complete r s)
unfolding complete
complete-IsTurn r j s h = elim (Bool-cases r.cancelled) [
  | inl c ↦ simp c (fail-IsTurn j s true "Request was aborted" h)
  | inr c ↦ elim (Bool-cases (is_failed s.output.stop_reason)) [
    | inl f ↦ simp (c, f) (fail-IsTurn j s r.cancelled_late (or_unknown s.output.error_message) h)
    | inr f ↦
        simp (c, f)
          (close-IsTurn j s (Event.done s.output.stop_reason (some s.output)) s.output h
            (refl, refl, f) refl)
  ]
]

-- `run` does not panic, and what it makes is a turn.
abbrev pub GivesTurn : Json → Option Stream → Type 0
GivesTurn j none = ⊥
GivesTurn j (some out) = IsTurn j.object out

conclude-GivesTurn :
    (r : Request) (j : Json) (o : Outcome) → Holds (Agrees j) o → GivesTurn j (conclude r j o)
unfolding conclude
conclude-GivesTurn r j (Outcome.goes_on s) h = complete-IsTurn r j s h
conclude-GivesTurn r j (Outcome.fails s e) h = fail-IsTurn j s r.cancelled_late (error_text j e) h
conclude-GivesTurn r j Outcome.panics h = h

-- Before anything is pushed.
abbrev idle : AssistantMessage → Decoding
idle output = record {
  out = new_stream;
  output = output;
  blocks = [];
  saw_start = false;
  saw_stop = false;
}

idle-Agrees : (r : Request) (j : Json) (m : Model) → Agrees j (idle (new_output r m))
unfolding new_output aligned replay pieces
idle-Agrees r j m = (refl, refl, refl)

pub started-Agrees : (r : Request) (j : Json) (m : Model) → Agrees j (started (new_output r m))
unfolding new_output aligned replay pieces push is_terminal_event follow
started-Agrees r j m = (refl, refl, refl)

answered-GivesTurn :
    (r : Request) (j : Json) (m : Model) (a : Answer)
    → GivesTurn j (answered r j (new_output r m) a)
unfolding answered
answered-GivesTurn r j m (Answer.failed e) =
    fail-IsTurn j (idle (new_output r m)) r.cancelled_late e (idle-Agrees r j m)
answered-GivesTurn r j m (Answer.responded bytes ending) =
    conclude-GivesTurn r j _
      (decode_events-Agrees j ending (read_all new_reader bytes) _ (started-Agrees r j m))

refused-GivesTurn :
    (r : Request) (j : Json) (m : Model) (o : Option String)
    → GivesTurn j (refused r j (new_output r m) o)
unfolding refused
refused-GivesTurn r j m none = answered-GivesTurn r j m r.answer
refused-GivesTurn r j m (some e) =
    fail-IsTurn j (idle (new_output r m)) r.cancelled_late e (idle-Agrees r j m)

-- Whatever the caller, the network, the server and the context do, `run` does not panic, and ends the
-- stream with exactly one terminal event, the last: `done` with a reason that is no failure, or `error`
-- with one that is, which is also that of its message. A consumer that adds up the deltas before it
-- meets no contradiction, and has block for block the texts and the thinking of that message.
pub run-GivesTurn : (r : Request) (j : Json) (m : Model) → GivesTurn j (run r j m)
unfolding run
run-GivesTurn r j m = refused-GivesTurn r j m (refusal r m.provider)
