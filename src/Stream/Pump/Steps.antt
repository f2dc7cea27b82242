-- ===== src/Stream/Pump/Steps.antt =====
-- What one action does to the events of the pump.
use kern_proxy.Base.{
  ◌≡◌, refl, ◌∙◌, Bool, true, false, ◌||◌, Option, none, some, List, [], ◌∷◌, ◌++◌, append-nil,
  append_assoc, arith, if◌then◌else◌, Bool-cases, inl, inr,
}
use kern_proxy.Stream.{
  Pointer, Event, Stream, is_terminal_event, event_result, push, end_stream, Popped, next,
}
use kern_proxy.Stream.Pump.{Action, System, take, hand_over, abandon, is_held, step}

-- The events that a run offers to the consumer, read off the producer's calls alone: each event up
-- to the first terminal one or the first `End`. The flag says that one of these has been.
abbrev pub offered : Bool → List Action → List Event
offered ended [] = []
offered ended (Action.produce ev ∷ rest) =
    if ended then offered true rest else ev ∷ offered (is_terminal_event ev) rest
offered ended (Action.finish m ∷ rest) = offered true rest
offered ended (Action.cancel ∷ rest) = offered ended rest
offered ended (Action.pop ∷ rest) = offered ended rest
offered ended (Action.send ∷ rest) = offered ended rest
offered ended (Action.give_up ∷ rest) = offered ended rest

-- The result, read off the same way: that of the first terminal event or of the first `End`.
abbrev pub outcome : List Action → Option Pointer
outcome [] = none
outcome (Action.produce ev ∷ rest) =
    if is_terminal_event ev then some (event_result ev) else outcome rest
outcome (Action.finish m ∷ rest) = some m
outcome (Action.cancel ∷ rest) = outcome rest
outcome (Action.pop ∷ rest) = outcome rest
outcome (Action.send ∷ rest) = outcome rest
outcome (Action.give_up ∷ rest) = outcome rest

abbrev pub held_events : Option Event → List Event
held_events none = []
held_events (some ev) = ev ∷ []

-- All events that the system has taken in, in order.
abbrev pub events : System → List Event
events sys = sys.delivered ++ (sys.lost ++ (held_events sys.held ++ sys.stream.queue))

-- An event is lost only as the channel is closed.
abbrev pub IsOpen : System → Type 0
IsOpen sys = sys.closed ≡ false → sys.lost ≡ []

abbrev pub is_end : Action → Bool
is_end (Action.produce ev) = is_terminal_event ev
is_end (Action.finish m) = true
is_end _ = false

abbrev pub or_else : Option Pointer → Pointer → Pointer
or_else none m = m
or_else (some m) _ = m

-- The result of a stream after some actions.
abbrev pub result_of : Stream → List Action → Pointer
result_of s actions = if s.done then s.result else or_else (outcome actions) s.result

pub record Stepped (sys : System) (a : Action) (sys' : System) : Type 0 where
  pub open_after : IsOpen sys'
  pub events_after : events sys' ≡ events sys ++ offered sys.stream.done (a ∷ [])
  pub done_after : sys'.stream.done ≡ (sys.stream.done || is_end a)
  pub result_after : sys'.stream.result ≡ result_of sys.stream (a ∷ [])

abbrev pub Good : System → Action → Option System → Type 0
Good sys a none = Unit
Good sys a (some sys') = Stepped sys a sys'

queue-push :
    (s : Stream) (ev : Event)
    → (push s ev).queue ≡ s.queue ++ offered s.done (Action.produce ev ∷ [])
unfolding push
queue-push s ev = ground (arith, append-nil s.queue)

done-push : (s : Stream) (ev : Event) → (push s ev).done ≡ (s.done || is_terminal_event ev)
unfolding push
done-push s ev = ground arith

queue-end_stream : (s : Stream) (m : Pointer) → (end_stream s m).queue ≡ s.queue
unfolding end_stream
queue-end_stream s m = ground arith

done-end_stream : (s : Stream) (m : Pointer) → (end_stream s m).done ≡ (s.done || true)
unfolding end_stream
done-end_stream s m = ground arith

result-push : (s : Stream) (ev : Event) → (push s ev).result ≡ result_of s (Action.produce ev ∷ [])
unfolding push
result-push s ev = ground arith

result-end_stream :
    (s : Stream) (m : Pointer) → (end_stream s m).result ≡ result_of s (Action.finish m ∷ [])
unfolding end_stream
result-end_stream s m = ground arith

-- What a round of `next` does to the queue.
abbrev Shortens : Stream → Popped → Type 0
Shortens s (Popped.event ev s') =
    (s.queue ≡ ev ∷ s'.queue) × (s'.done ≡ s.done) × (s'.result ≡ s.result)
Shortens s Popped.no_more = Unit
Shortens s Popped.waits = Unit

next-Shortens : (cancelled : Bool) (s : Stream) → Shortens s (next cancelled s)
unfolding next
next-Shortens cancelled s = ground arith

abbrev pub kept : (b : Bool) → b ≡ (b || false)
kept true = refl
kept false = refl

take-Good :
    (p : Popped) (sys : System)
    → sys.held ≡ none
    → IsOpen sys
    → Shortens sys.stream p
    → Good sys Action.pop (take p sys)
unfolding take
take-Good (Popped.event ev s') sys h o s = record {
  open_after = o;
  events_after = rw (h, s.0, append-nil) refl;
  done_after = s.1 ∙ kept sys.stream.done;
  result_after = s.2 ∙ ground arith;
}
take-Good Popped.no_more sys h o s = record {
  open_after = λ e. cc;
  events_after = rw append-nil;
  done_after = kept sys.stream.done;
  result_after = ground arith;
}
take-Good Popped.waits sys h o s = tt

hand_over-Good :
    (held : Option Event) (sys : System)
    → sys.held ≡ held
    → sys.closed ≡ false
    → IsOpen sys
    → Good sys Action.send (hand_over held sys)
unfolding hand_over
hand_over-Good none sys h c o = tt
hand_over-Good (some ev) sys h c o = record {
  open_after = o;
  events_after = rw (h, o c) (simp (append-nil, append_assoc));
  done_after = kept sys.stream.done;
  result_after = ground arith;
}

abandon-Good :
    (held : Option Event) (sys : System)
    → sys.held ≡ held
    → Good sys Action.give_up (abandon held sys)
unfolding abandon
abandon-Good none sys h = tt
abandon-Good (some ev) sys h = record {
  open_after = λ e. cc;
  events_after = rw h (simp (append-nil, append_assoc));
  done_after = kept sys.stream.done;
  result_after = ground arith;
}

pub step-Good : (sys : System) (a : Action) → IsOpen sys → Good sys a (step sys a)
unfolding step
step-Good sys (Action.produce ev) o = record {
  open_after = o;
  events_after = rw queue-push (simp append_assoc);
  done_after = done-push sys.stream ev;
  result_after = result-push sys.stream ev;
}
step-Good sys (Action.finish m) o = record {
  open_after = o;
  events_after = rw (queue-end_stream, append-nil);
  done_after = done-end_stream sys.stream m;
  result_after = result-end_stream sys.stream m;
}
step-Good sys Action.cancel o = record {
  open_after = o;
  events_after = rw append-nil;
  done_after = kept sys.stream.done;
  result_after = ground arith;
}
step-Good sys Action.pop o = elim (Bool-cases (sys.closed || is_held sys.held)) [
  | inl busy ↦ rw busy tt
  | inr free ↦ rw free (
      take-Good (next sys.cancelled sys.stream) sys (ground arith) o
        (next-Shortens sys.cancelled sys.stream))
]
step-Good sys Action.send o = elim (Bool-cases sys.closed) [
  | inl closed ↦ simp closed tt
  | inr c ↦ simp c (hand_over-Good sys.held sys refl c o)
]
step-Good sys Action.give_up o = elim (Bool-cases sys.closed) [
  | inl closed ↦ simp closed tt
  | inr c ↦ simp c (elim (Bool-cases sys.cancelled) [
    | inl cancelled ↦ simp cancelled (abandon-Good sys.held sys refl)
    | inr waits ↦ simp waits tt
  ])
]
