-- ===== src/Tests/Queue.antt =====
-- A run of the pump.
use kern_proxy.Base.{◌≡◌, refl, true, false, none, some, List, [], ◌∷◌, ◌++◌, if◌then◌else◌}
use kern_proxy.Messages.{StopReason}
use kern_proxy.Stream.{Event, Answer, answer_of, result}
use kern_proxy.Stream.Pump.{Action, System, initial, step, run}
use kern_proxy.Stream.Pump.Steps.{offered, outcome, or_else, events}
use kern_proxy.Stream.Pump.Fifo.{has_ended, run_fifo, result-answers}
use kern_proxy.Stream.Pump.Drain.{ended, reading_from, run_drain}

-- The producer runs ahead of the pump, ends the turn and pushes once more, which is ignored.
abbrev actions : List Action
actions =
    Action.produce (Event.text_delta 0 "a" none)
    ∷ Action.pop
    ∷ Action.produce (Event.text_delta 0 "b" none)
    ∷ Action.send
    ∷ Action.produce (Event.done StopReason.stop none)
    ∷ Action.produce (Event.start none)
    ∷ Action.finish none
    ∷ []

abbrev reached : System
reached = record {
  stream = record {
    queue = Event.text_delta 0 "b" none ∷ Event.done StopReason.stop none ∷ [];
    done = true;
    result = none;
  };
  cancelled = false;
  held = none;
  delivered = Event.text_delta 0 "a" none ∷ [];
  lost = [];
  closed = false;
}

reaches : run initial actions ≡ some reached
unfolding run step
reaches = refl

run_fifo_example :
    (events reached ≡ offered false actions)
    × (reached.stream.result ≡ or_else (outcome actions) none)
run_fifo_example = run_fifo actions reached reaches

run_drain_example :
    run
      (ended reached.stream.queue none none reached.delivered [])
      (reading_from none reached.stream.queue)
    ≡ some (record (ended [] none none (reached.delivered ++ ([] ++ reached.stream.queue)) []) {
      closed = true;
    })
run_drain_example = run_drain reached.stream.queue none none reached.delivered []

result-answers_example :
    result true false reached.stream
    ≡ (if has_ended actions then answer_of (or_else (outcome actions) none) else Answer.waits)
result-answers_example = result-answers true actions reached reaches
