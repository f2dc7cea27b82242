-- ===== src/Stream/Pump.antt =====
-- The goroutine that `Events` starts, beside a producer and a context that is cancelled at some
-- point: each runs when the scheduler lets it, so a run is a list of actions.
pub mod Steps
pub mod Fifo
pub mod Drain
use kern_proxy.Base.{
  ℕ, ◌≡◌, Bool, true, false, ◌||◌, Option, none, some, List, [], ◌∷◌, ◌++◌, if◌then◌else◌,
}
use kern_proxy.Stream.{Pointer, Event, Stream, new_stream, push, end_stream, Popped, next}

pub data Action : Type 0 where
  produce : Event → Action  -- `Push`
  finish : Pointer → Action  -- `End`
  cancel : Action
  pop : Action  -- a round of `next`
  send : Action  -- `case ch <- ev`
  give_up : Action  -- `case <-ctx.Done()`

-- `held` is the event between `next` and the `select`; `lost` is the one that a cancelled pump
-- gave up, and `closed` the channel's state.
pub record System : Type 0 where
  pub stream : Stream
  pub cancelled : Bool
  pub held : Option Event
  pub delivered : List Event
  pub lost : List Event
  pub closed : Bool

abbrev pub initial : System
initial = record {
  stream = new_stream;
  cancelled = false;
  held = none;
  delivered = [];
  lost = [];
  closed = false;
}

take : Popped → System → Option System
take (Popped.event ev s') sys = some (record sys { stream = s'; held = some ev })
take Popped.no_more sys = some (record sys { closed = true })
take Popped.waits sys = none

hand_over : Option Event → System → Option System
hand_over none sys = none
hand_over (some ev) sys = some (record sys { held = none; delivered = sys.delivered ++ ev ∷ [] })

abandon : Option Event → System → Option System
abandon none sys = none
abandon (some ev) sys = some (record sys { held = none; lost = sys.lost ++ ev ∷ []; closed = true })

abbrev pub is_held : Option Event → Bool
is_held none = false
is_held (some _) = true

-- `none`: the action is not enabled.
unfoldable pub step : System → Action → Option System
unfolding take hand_over abandon push end_stream next
step sys (Action.produce ev) = some (record sys { stream = push sys.stream ev })
step sys (Action.finish m) = some (record sys { stream = end_stream sys.stream m })
step sys Action.cancel = some (record sys { cancelled = true })
step sys Action.pop =
    if sys.closed || is_held sys.held then none else take (next sys.cancelled sys.stream) sys
step sys Action.send = if sys.closed then none else hand_over sys.held sys
step sys Action.give_up =
    if sys.closed then none else if sys.cancelled then abandon sys.held sys else none

unfoldable pub run : System → List Action → Option System
run sys [] = some sys
run sys (a ∷ actions) = elim (step sys a) [ none ↦ none | some sys' ↦ run sys' actions ]
