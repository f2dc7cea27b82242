-- ===== src/Stream/Pump/Drain.antt =====
-- A consumer that keeps reading gets everything.
use kern_proxy.Base.{
  ◌≡◌, ◌∙◌, true, false, Option, none, some, List, [], ◌∷◌, ◌++◌, append-nil, append_assoc,
}
use kern_proxy.Stream.{Pointer, Event}
use kern_proxy.Stream.Pump.{Action, System, step, run}
use kern_proxy.Stream.Pump.Steps.{held_events}

-- A stream that has ended, with its pump before a round of `next` or, if it holds an event, before
-- the `select`; the context is not cancelled and the channel is open.
abbrev pub ended : List Event → Pointer → Option Event → List Event → List Event → System
ended queue result held delivered lost = record {
  stream = record { queue = queue; done = true; result = result };
  cancelled = false;
  held = held;
  delivered = delivered;
  lost = lost;
  closed = false;
}

-- What the pump does while the consumer reads.
abbrev pub reading : List Event → List Action
reading [] = Action.pop ∷ []
reading (ev ∷ queue) = Action.pop ∷ Action.send ∷ reading queue

abbrev pub reading_from : Option Event → List Event → List Action
reading_from none queue = reading queue
reading_from (some ev) queue = Action.send ∷ reading queue

drain_queue :
    (queue : List Event) (result : Pointer) (delivered lost : List Event)
    → run (ended queue result none delivered lost) (reading queue)
      ≡ some (record (ended [] result none (delivered ++ queue) lost) { closed = true })
unfolding run step
drain_queue [] result delivered lost = rw append-nil
drain_queue (ev ∷ queue) result delivered lost =
    drain_queue queue result (delivered ++ ev ∷ []) lost ∙ rw append_assoc

-- After the terminal event or `End`, a consumer that reads on with a context that is not cancelled
-- gets the event in the pump's hand and all of the queue, in order, and then the channel closes.
pub run_drain :
    (queue : List Event) (result : Pointer) (held : Option Event) (delivered lost : List Event)
    → run (ended queue result held delivered lost) (reading_from held queue)
      ≡ some (record (ended [] result none (delivered ++ (held_events held ++ queue)) lost) {
        closed = true;
      })
run_drain queue result none delivered lost = drain_queue queue result delivered lost
run_drain queue result (some ev) delivered lost =
    unfold run step in (drain_queue queue result (delivered ++ ev ∷ []) lost ∙ rw append_assoc)
