-- ===== src/Stream/Pump/Fifo.antt =====
-- The pump loses, repeats and reorders nothing.
use kern_proxy.Base.{
  ◌≡◌, refl, sym, ap, ◌∙◌, Bool, true, false, ◌||◌, Option, none, some, List, [], ◌∷◌, ◌++◌,
  append-nil, append_assoc, arith, if◌then◌else◌,
}
use mathlib.Core.Path.{subst}
use kern_proxy.Stream.{Answer, answer_of, result}
use kern_proxy.Stream.Pump.{Action, System, initial, step, run}
use kern_proxy.Stream.Pump.Steps.{
  offered, outcome, events, IsOpen, is_end, or_else, result_of, Stepped, Good, kept, step-Good,
}

offered-cons :
    (ended : Bool) (a : Action) (rest : List Action)
    → offered ended (a ∷ rest) ≡ offered ended (a ∷ []) ++ offered (ended || is_end a) rest
offered-cons true (Action.produce ev) rest = refl
offered-cons false (Action.produce ev) rest = refl
offered-cons true (Action.finish m) rest = refl
offered-cons false (Action.finish m) rest = refl
offered-cons ended _ rest = ap (λ b. offered b rest) (kept ended)

result_of-cons :
    (sys sys' : System) (a : Action) (rest : List Action)
    → Stepped sys a sys'
    → result_of sys'.stream rest ≡ result_of sys.stream (a ∷ rest)
result_of-cons sys sys' (Action.produce ev) rest s = ground (arith, s)
result_of-cons sys sys' _ rest s = ground (arith, s)

-- A terminal event or an `End` is among the actions.
abbrev pub has_ended : List Action → Bool
has_ended [] = false
has_ended (a ∷ rest) = is_end a || has_ended rest

-- A run from `sys` to `sys'`.
record Ran (sys : System) (actions : List Action) (sys' : System) : Type 0 where
  events_are : events sys' ≡ events sys ++ offered sys.stream.done actions
  result_is : sys'.stream.result ≡ result_of sys.stream actions
  open_after : IsOpen sys'
  done_is : sys'.stream.done ≡ (sys.stream.done || has_ended actions)

Ran-cons :
    (sys : System) (a : Action) (rest : List Action) (sys' : System) (middle : Option System)
    → Good sys a middle
    → (elim middle [ none ↦ none | some t ↦ run t rest ]) ≡ some sys'
    → ((t : System) → IsOpen t → run t rest ≡ some sys' → Ran t rest sys')
    → Ran sys (a ∷ rest) sys'
Ran-cons sys a rest sys' none g e later = cc
Ran-cons sys a rest sys' (some t) g e later =
    let r = later t g.open_after e in
    record {
      events_are =
          r.events_are
          ∙ rw (g.events_after, g.done_after)
              (append_assoc (events sys) (offered sys.stream.done (a ∷ []))
                  (offered (sys.stream.done || is_end a) rest)
                ∙ ap (◌++◌ (events sys)) (sym (offered-cons sys.stream.done a rest)));
      result_is = r.result_is ∙ result_of-cons sys t a rest g;
      open_after = r.open_after;
      done_is = r.done_is ∙ rw g.done_after (ground arith);
    }

run-Ran :
    (actions : List Action) (sys sys' : System)
    → IsOpen sys
    → run sys actions ≡ some sys'
    → Ran sys actions sys'
unfolding run
run-Ran [] sys sys' o e =
    let same : sys ≡ sys' = cc in
    subst (λ t. Ran sys [] t) same
      (record {
        events_are = sym (append-nil (events sys));
        result_is = ground arith;
        open_after = o;
        done_is = kept sys.stream.done;
      })
run-Ran (a ∷ rest) sys sys' o e =
    Ran-cons sys a rest sys' (step sys a) (step-Good sys a o) e
      (λ t o' e'. run-Ran rest t sys' o' e')

-- However the producer, the pump and a cancellation are interleaved: the events delivered, the one
-- given up on cancellation, the one in the pump's hand and those in the queue are together, in
-- this order, the events pushed up to the first terminal event or the first `End`; and the result
-- is that of this terminal event or `End`.
pub run_fifo :
    (actions : List Action) (sys : System)
    → run initial actions ≡ some sys
    → (events sys ≡ offered false actions) × (sys.stream.result ≡ or_else (outcome actions) none)
run_fifo actions sys e =
    let r = run-Ran actions initial sys (λ e. refl) e in (r.events_are, r.result_is)

-- However the actions are interleaved, a call of `Result` whose context is not cancelled waits until there
-- is a terminal event or an `End`, and then returns the message of the first of them, or
-- `ErrStreamEndedWithoutResult` if that is nil.
pub result-answers :
    (first : Bool) (actions : List Action) (sys : System)
    → run initial actions ≡ some sys
    → result first false sys.stream
      ≡ (if has_ended actions then answer_of (or_else (outcome actions) none) else Answer.waits)
unfolding result
result-answers first actions sys e =
    let r = run-Ran actions initial sys (λ e. refl) e in
    simp (r.done_is, r.result_is) (ground arith)
