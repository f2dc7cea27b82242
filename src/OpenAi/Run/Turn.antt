-- ===== src/OpenAi/Run/Turn.antt =====
-- The stream that `run` makes.
use kern_proxy.Base.{
  ◌≡◌, refl, sym, Bool, true, Option, none, some, [], String, Bool-cases, inl, inr,
}
use kern_proxy.Messages.{StopReason, AssistantMessage, Model}
use kern_proxy.Stream.{Event, Stream, new_stream, push, is_terminal_event}
use kern_proxy.Sse.{new_reader, read_all}
use kern_proxy.Anthropic.Run.{Request, Answer, fail, fail_reason, new_output}
use kern_proxy.Anthropic.Run.Turn.{fail_reason-is_failed}
use kern_proxy.Replay.{replay, follow}
use kern_proxy.Replay.Told.{IsTurn, Ends, push-IsTurn}
use kern_proxy.OpenAi.Wire.{Json}
use kern_proxy.OpenAi.Blocks.{Decoding}
use kern_proxy.OpenAi.Decode.{Returned}
use kern_proxy.OpenAi.Replay.{Fits, Agrees}
use kern_proxy.OpenAi.Replay.Whole.{Returns, decode_events-Returns}
use kern_proxy.OpenAi.Run.{
  or_unknown, close, complete, concluded, conclude, variables, started, answered, refused, refusal,
  run,
}

close-IsTurn :
    (object : String → String) (s : Decoding) (ev : Event) (m : AssistantMessage)
    → Agrees object s
    → Ends ev m
    → m.content ≡ s.output.content
    → IsTurn object (push s.out ev)
close-IsTurn object s ev m (ps, heard, fits) e c =
    push-IsTurn object s.out ps ev m heard.going heard.replayed (rw c fits.told) e

fail-IsTurn :
    (object : String → String) (s : Decoding) (c : Bool) (e : String)
    → Agrees object s
    → IsTurn object (fail c e s.out s.output)
unfolding fail
fail-IsTurn object s c e h =
    close-IsTurn object s _ (record s.output { stop_reason = fail_reason c; error_message = e }) h
      (refl, refl, fail_reason-is_failed c) refl

reason-IsTurn :
    (object : String → String) (r : Request) (s : Decoding) (reason : StopReason)
    → s.output.stop_reason ≡ reason
    → Agrees object s
    → IsTurn object (close r s reason)
unfolding close
reason-IsTurn object r s StopReason.aborted e h =
    fail-IsTurn object s r.cancelled_late "Request was aborted" h
reason-IsTurn object r s StopReason.error e h =
    fail-IsTurn object s r.cancelled_late (or_unknown s.output.error_message) h
reason-IsTurn object r s StopReason.stop e h =
    close-IsTurn object s _ s.output h (refl, sym e, refl) refl
reason-IsTurn object r s StopReason.length e h =
    close-IsTurn object s _ s.output h (refl, sym e, refl) refl
reason-IsTurn object r s StopReason.tool_use e h =
    close-IsTurn object s _ s.output h (refl, sym e, refl) refl

complete-IsTurn :
    (object : String → String) (r : Request) (s : Decoding)
    → Agrees object s
    → IsTurn object (complete r s)
unfolding complete
complete-IsTurn object r s h = elim (Bool-cases r.cancelled) [
  | inl c ↦ simp c (fail-IsTurn object s true "Request was aborted" h)
  | inr c ↦ simp c (reason-IsTurn object r s s.output.stop_reason refl h)
]

concluded-IsTurn :
    (object : String → String) (r : Request) (s : Decoding) (e : Option String)
    → Agrees object s
    → IsTurn object (concluded r s e)
concluded-IsTurn object r s none h = complete-IsTurn object r s h
concluded-IsTurn object r s (some e) h = fail-IsTurn object s r.cancelled_late e h

-- `run` does not panic, and what it makes is a turn.
abbrev pub GivesCompletion : (String → String) → Option Stream → Type 0
GivesCompletion object none = ⊥
GivesCompletion object (some out) = IsTurn object out

conclude-GivesCompletion :
    (object : String → String) (r : Request) (o : Option Returned)
    → Returns object o
    → GivesCompletion object (conclude r o)
unfolding conclude
conclude-GivesCompletion object r none h = h
conclude-GivesCompletion object r (some returned) h =
    concluded-IsTurn object r returned.state returned.error h

empty-Fits : Fits [] none none [] [] [] []
empty-Fits = record {
  told = tt;
  text_at = tt;
  thinking_at = tt;
  tools_at = tt;
  rising = tt;
  index_known = tt;
  id_known = tt;
}

variables-Agrees :
    (object : String → String) (r : Request) (m : Model)
    → Agrees object (variables new_stream (new_output r m))
unfolding new_output replay
variables-Agrees object r m = ([], record { going = refl; replayed = refl }, empty-Fits)

pub started-Agrees :
    (object : String → String) (r : Request) (m : Model) → Agrees object (started (new_output r m))
unfolding new_output replay push is_terminal_event follow
started-Agrees object r m = ([], record { going = refl; replayed = refl }, empty-Fits)

answered-GivesCompletion :
    (r : Request) (j : Json) (m : Model) (a : Answer)
    → GivesCompletion j.object (answered r j (new_output r m) a)
unfolding answered
answered-GivesCompletion r j m (Answer.failed e) =
    fail-IsTurn j.object (variables new_stream (new_output r m)) r.cancelled_late e
      (variables-Agrees j.object r m)
answered-GivesCompletion r j m (Answer.responded bytes ending) =
    conclude-GivesCompletion j.object r _
      (decode_events-Returns j ending (read_all new_reader bytes) _ (started-Agrees j.object r m))

refused-GivesCompletion :
    (r : Request) (j : Json) (m : Model) (o : Option String)
    → GivesCompletion j.object (refused r j (new_output r m) o)
unfolding refused
refused-GivesCompletion r j m none = answered-GivesCompletion r j m r.answer
refused-GivesCompletion r j m (some e) =
    fail-IsTurn j.object (variables new_stream (new_output r m)) r.cancelled_late e
      (variables-Agrees j.object r m)

-- Whatever the caller, the network, the server and the context do, the goroutine of an OpenAI completions
-- request does not panic, and ends the stream with exactly one terminal event, the last: `done` with a
-- reason that is no failure, or `error` with one that is, which is also that of its message. A consumer
-- that adds up the deltas before it meets no contradiction, and has block for block the texts and the
-- thinking of that message.
pub run-GivesCompletion :
    (r : Request) (j : Json) (m : Model) → GivesCompletion j.object (run r j m)
unfolding run
run-GivesCompletion r j m = refused-GivesCompletion r j m (refusal r m.provider)
