-- ===== src/Anthropic/Run/Truncated.antt =====
-- A body that ends before `message_stop`.
use kern_proxy.Base.{
  ◌≡◌, refl, Bool, true, false, not, ◌||◌, Option, none, some, List, [], ◌∷◌, arith, String,
  Bool-cases, inl, inr,
}
use kern_proxy.Base.Bytes.{Bytes}
use kern_proxy.Messages.{StopReason, AssistantMessage, Model}
use kern_proxy.Stream.{Stream, push, is_terminal_event, event_result}
use kern_proxy.Sse
use kern_proxy.Sse.{new_reader, read_all}
use kern_proxy.Retry.{
  is_retryable_assistant_error, is_limit_error, is_retryable_text, matches_any, pattern_of,
}
use kern_proxy.Anthropic.Replay.{Agrees}
use kern_proxy.Anthropic.Replay.Steps.{Holds}
use kern_proxy.Anthropic.Replay.Whole.{decode_events-Agrees}
use kern_proxy.Anthropic.Run.{
  Request, Answer, fail, fail_reason, conclude, answered, refused, refusal, run, new_output,
  started,
}
use kern_proxy.Anthropic.Run.Flags.{Went, Seen, type_of, some_type, decode_event-Seen}
use kern_proxy.Anthropic.Run.Turn.{started-Agrees}
use kern_proxy.Anthropic.Wire.{Json}
use kern_proxy.Anthropic.Blocks.{Decoding, Outcome, Failure}
use kern_proxy.Anthropic.Decode.{error_text, decode_event, decode_events, and_then}

-- An outcome that is no success.
abbrev pub IsFailure : Outcome → Type 0
IsFailure (Outcome.goes_on _) = ⊥
IsFailure _ = Unit

then-IsFailure :
    (P : Decoding → Type 0) (o : Outcome) (f : Decoding → Outcome)
    → Went P o
    → ((t : Decoding) → P t → IsFailure (f t))
    → IsFailure (and_then o f)
then-IsFailure P (Outcome.goes_on t) f h k = k t h
then-IsFailure P (Outcome.fails t e) f h k = tt
then-IsFailure P Outcome.panics f h k = tt

-- A response with a `message_start` and no `message_stop` is not taken for a success.
decode_events-truncated :
    (j : Json) (ending : Option String) (evs : List Sse.Event) (s : Decoding)
    → (s.saw_start || some_type j "message_start" evs) ≡ true
    → (s.saw_stop || some_type j "message_stop" evs) ≡ false
    → IsFailure (decode_events j ending evs s)
unfolding decode_events some_type
decode_events-truncated j none [] s h k = ground arith
decode_events-truncated j (some e) [] s h k = tt
decode_events-truncated j ending (ev ∷ evs) s h k =
    then-IsFailure (Seen s (type_of j ev)) (decode_event j s ev) (λ t. decode_events j ending evs t)
      (decode_event-Seen j s ev)
      (λ t w. decode_events-truncated j ending evs t (ground arith) (ground arith))

abbrev pub is_early : Failure → Bool
is_early Failure.ended_early = true
is_early _ = false

-- The words of `decodeEvents` are those that `IsRetryableAssistantError` looks for.
early-is_retryable :
    (j : Json) (m : AssistantMessage)
    → is_retryable_assistant_error (record m {
      stop_reason = StopReason.error;
      error_message = error_text j Failure.ended_early;
    })
      ≡ true
unfolding is_retryable_assistant_error is_limit_error is_retryable_text error_text matches_any
    pattern_of
early-is_retryable j m = refl

-- What `fail` leaves on an open stream.
abbrev pub failed_message : Request → Json → Decoding → Failure → AssistantMessage
failed_message r j s e = record s.output {
  stop_reason = fail_reason r.cancelled_late;
  error_message = error_text j e;
}

retries-early :
    (r : Request) (j : Json) (s : Decoding) (e : Failure)
    → (not (is_early e)
        || r.cancelled_late
        || is_retryable_assistant_error (failed_message r j s e))
      ≡ true
retries-early r j s Failure.ended_early = elim (Bool-cases r.cancelled_late) [
  | inl c ↦ rw c refl
  | inr c ↦ simp (c, early-is_retryable j s.output) refl
]
retries-early r j s (Failure.read_error e) = refl
retries-early r j s (Failure.error_event e) = refl
retries-early r j s (Failure.unparsable e f) = refl
retries-early r j s (Failure.unhandled_stop_reason e) = refl

concluded :
    (r : Request) (j : Json) (o : Outcome)
    → IsFailure o
    → Holds (Agrees j) o
    → (s : Decoding) × (e : Failure) × (out : Stream) × (o ≡ Outcome.fails s e)
      × (conclude r j o ≡ some out)
      × (out.result ≡ some (failed_message r j s e))
unfolding conclude fail push is_terminal_event event_result
concluded r j (Outcome.fails s e) f h = (s, e, _, refl, refl, simp h.0 refl)
concluded r j (Outcome.goes_on s) f h = elim f [ ]
concluded r j Outcome.panics f h = elim h [ ]

-- If a response is read that has a `message_start` and no `message_stop`, `run` ends the stream with an
-- error, whatever else is in it and however it ends.
pub run-truncated :
    (r : Request) (j : Json) (m : Model) (bytes : Bytes) (ending : Option String)
    → refusal r m.provider ≡ none
    → r.answer ≡ Answer.responded bytes ending
    → some_type j "message_start" (read_all new_reader bytes) ≡ true
    → some_type j "message_stop" (read_all new_reader bytes) ≡ false
    → (s : Decoding) × (e : Failure) × (out : Stream) × (decode_events j ending
          (read_all new_reader bytes)
          (started (new_output r m))
        ≡ Outcome.fails s e)
      × (run r j m ≡ some out)
      × (out.result ≡ some (failed_message r j s e))
      × ((not (is_early e)
            || r.cancelled_late
            || is_retryable_assistant_error (failed_message r j s e))
          ≡ true)
unfolding run refused answered
run-truncated r j m bytes ending a b c d =
    let s0 = started (new_output r m) in
    let evs = read_all new_reader bytes in
    let (s, e, out, x, y, z) =
      concluded r j (decode_events j ending evs s0) (decode_events-truncated j ending evs s0 c d)
        (decode_events-Agrees j ending evs s0 (started-Agrees r j m)) in
    (s, e, out, x, simp (a, b) y, z, retries-early r j s e)
