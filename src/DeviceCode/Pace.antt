-- ===== src/DeviceCode/Pace.antt =====
-- The polls keep their distance and stop at the deadline.
use kern_proxy.Base.{
  ℕ, zero, suc, ◌+◌, ◌-◌, ◌*◌, ◌≤◌, ◌<◌, ◌≡◌, refl, ap, ◌∙◌, ◌⊎◌, inl, inr, Bool, true, false,
  Option, none, some, List, [], ◌∷◌, arith, Bool-cases,
}
use kern_proxy.Base.Int.{ℤ, pos, ◌+ℤ◌, ◌≤ℤ◌, ltb_ℤ, int64, pos_part, neg_part, int_laws}
use kern_proxy.DeviceCode.Clock.{IsSteady, scaled, sum_pos, small, awake-advances, wait_for-passes}
use kern_proxy.DeviceCode.{
  Reply, PollOptions, Pause, Round, Ending, first_interval, deadline_of, next_interval, wait_for,
  after_poll, awake, sleep_cancelled, poll_from, after_first_wait, poll_device_code_flow, millis,
}

infix 50 ◌≺◌
abbrev pub ◌≺◌ : ℤ → ℤ → Type 0
a ≺ b = a +ℤ pos 1 ≤ℤ b

-- The polls begin at `from` or later, one at least a second behind the other, all before the deadline.
abbrev pub IsPaced : ℤ → ℤ → List ℤ → Type 0
IsPaced deadline from [] = Unit
IsPaced deadline from (p ∷ ps) = (from ≤ℤ p) × (p ≺ deadline) × IsPaced deadline (p +ℤ pos 1000) ps

-- The flow has ended, with its polls paced.
abbrev pub Ends : {T : Type 0} → ℤ → ℤ → Option (List ℤ × Ending T) → Type 0
Ends deadline from none = ⊥
Ends deadline from (some (ps, e)) = IsPaced deadline from ps

next_interval-min :
    {T : Type 0} (r : Reply T) (interval : ℤ)
    → pos 1000 ≤ℤ interval
    → pos 1000 ≤ℤ next_interval r interval
unfolding next_interval
next_interval-min (Reply.slow_down s) interval h = ground arith
next_interval-min Reply.pending interval h = h
next_interval-min (Reply.failed m) interval h = h
next_interval-min (Reply.complete v) interval h = h
next_interval-min (Reply.refused e) interval h = h

first_interval-min : (opts : PollOptions) → pos 1000 ≤ℤ first_interval opts
unfolding first_interval
first_interval-min opts = ground arith

after_poll-Ends :
    {T : Type 0} (deadline from now : ℤ) (e : Option (Ending T)) (wait : Option ℤ)
    (cancelled : Bool) (over : Ending T) (later : Option (List ℤ × Ending T))
    → from ≤ℤ now
    → now ≺ deadline
    → Ends deadline (now +ℤ pos 1000) later
    → Ends deadline from (after_poll now e wait cancelled over later)
after_poll-Ends deadline from now (some e) wait cancelled over later h k rest = (h, k, tt)
after_poll-Ends deadline from now none none cancelled over later h k rest = (h, k, tt)
after_poll-Ends deadline from now none (some w) true over later h k rest = (h, k, tt)
after_poll-Ends deadline from now none (some w) false over none h k rest = rest
after_poll-Ends deadline from now none (some w) false over (some (ps, e)) h k rest = (h, k, rest)

later_than : (now : ℤ) (deadline : ℕ) → ltb_ℤ now (pos deadline) ≡ true → now ≺ pos deadline
later_than now deadline h =
    let ahead : pos_part now + 0 < deadline + neg_part now = ground arith in omega int_laws

poll_from-Ends :
    {T : Type 0} (deadline start : ℕ) (rounds : ℕ → Round T) (fuel i : ℕ) (from now interval : ℤ)
    (slow_downs : ℕ)
    → deadline < 9223372036854775808
    → (deadline - start) * 1000000 < 9223372036854775808
    → ((j : ℕ) → IsSteady (rounds j).pause)
    → pos 1000 ≤ℤ interval
    → pos start ≤ℤ now
    → (from ≤ℤ now) ⊎ (pos deadline ≤ℤ now)
    → 1 ≤ fuel
    → pos (deadline + 1000) ≤ℤ now +ℤ pos (1000 * fuel)
    → Ends
        (pos deadline)
        from
        (poll_from (some (pos deadline)) rounds fuel i now interval slow_downs)
unfolding poll_from
poll_from-Ends deadline start rounds zero i from now interval n d b s h l o f g =
    absurd (omega arith)
poll_from-Ends deadline start rounds (suc fuel) i from now interval n d b s h l o f g =
    let round = rounds i in
    let after = next_interval round.reply interval in
    let polled = now +ℤ round.pause.before in
    let floor = next_interval-min round.reply interval h in
    let steady = (s i).goes_on in
    let moved : now ≤ℤ polled = omega int_laws in
    let begun : pos start ≤ℤ polled = omega arith in
    let wakes = awake (wait_for (some (pos deadline)) polled after) polled round.pause in
    let on : polled ≤ℤ wakes =
      awake-advances (wait_for (some (pos deadline)) polled after) polled round.pause (s i) in
    let passes = wait_for-passes deadline start polled after round.pause d b begun floor (s i) in
    elim (Bool-cases (ltb_ℤ now (pos deadline))) [
      | inr over ↦ rw over tt
      | inl in_time ↦ rw in_time (elim (Bool-cases (rounds i).cancelled) [
        | inl cancelled ↦ rw cancelled tt
        | inr goes_on ↦
            let early : now ≺ pos deadline = later_than now deadline in_time in
            let woken : (now +ℤ pos 1000 ≤ℤ wakes) ⊎ (pos deadline ≤ℤ wakes) = omega int_laws in
            simp goes_on (
              after_poll-Ends (pos deadline) from now _ _ _ _ _ (omega int_laws) early (
                poll_from-Ends deadline start rounds fuel (suc i) (now +ℤ pos 1000) wakes after _ d
                  b s floor (omega arith) woken (omega int_laws) (omega int_laws)))
      ])
    ]

after_first_wait-Ends :
    {T : Type 0} (deadline from : ℤ) (wait : Option ℤ) (cancelled : Bool)
    (later : Option (List ℤ × Ending T))
    → Ends deadline from later
    → Ends deadline from (after_first_wait wait cancelled later)
after_first_wait-Ends deadline from none cancelled later h = tt
after_first_wait-Ends deadline from (some w) true later h = tt
after_first_wait-Ends deadline from (some w) false later h = h

deadline_of-pos :
    (opts : PollOptions) (now seconds : ℕ)
    → opts.expires_in_seconds ≡ pos (suc seconds)
    → now + suc seconds * 1000 < 9223372036854775808
    → deadline_of opts (pos now) ≡ some (pos (now + suc seconds * 1000))
unfolding deadline_of
deadline_of-pos opts now seconds e b =
    let span : millis (pos (suc seconds)) ≡ pos (suc seconds * 1000) =
      ap int64 (scaled (suc seconds) 1000) ∙ small (suc seconds * 1000) (omega arith) in
    let sum : int64 (pos now +ℤ pos (suc seconds * 1000)) ≡ pos (now + suc seconds * 1000) =
      ap int64 (sum_pos now (suc seconds * 1000)) ∙ small (now + suc seconds * 1000) b in
    let positive : ltb_ℤ (pos 0) (pos (suc seconds)) ≡ true = ground arith in
    rw (e, positive, span, sum) refl

-- With a deadline that no `int64` of milliseconds and no `time.Duration` overflows at, and on a clock that
-- does not go back and by which no timer of whole milliseconds fires early, the flow ends, whatever the
-- server and the user do and however long polls and sleeps take, within one round more than the deadline
-- has seconds. It asks at the start or later and before the deadline alone, and waits a second at least
-- between two polls, whatever intervals the server asks for, also where these overflow.
pub poll_device_code_flow-Ends :
    {T : Type 0} (opts : PollOptions) (first : Pause) (rounds : ℕ → Round T) (now seconds : ℕ)
    → opts.expires_in_seconds ≡ pos (suc seconds)
    → now + suc seconds * 1000 < 9223372036854775808
    → suc seconds * 1000 * 1000000 < 9223372036854775808
    → IsSteady first
    → ((j : ℕ) → IsSteady (rounds j).pause)
    → Ends
        (pos (now + suc seconds * 1000))
        (pos now)
        (poll_device_code_flow opts first rounds (seconds + 2) (pos now))
unfolding poll_device_code_flow
poll_device_code_flow-Ends opts first rounds now seconds e d b u s =
    let deadline = now + suc seconds * 1000 in
    let begun = pos now +ℤ first.before in
    let moves = u.goes_on in
    let from : pos now ≤ℤ begun = omega int_laws in
    let floor = first_interval-min opts in
    let wait = wait_for (some (pos deadline)) begun (first_interval opts) in
    let start = awake wait begun first in
    let wakes : begun ≤ℤ start = awake-advances wait begun first u in
    let span : (deadline - now) * 1000000 < 9223372036854775808 = omega arith in
    let waited =
      poll_from-Ends deadline now rounds (seconds + 2) 0 (pos now) start (first_interval opts) 0 d
        span s floor (omega arith) (inl (omega arith)) (omega arith) (omega int_laws) in
    let at_once =
      poll_from-Ends deadline now rounds (seconds + 2) 0 (pos now) begun (first_interval opts) 0 d
        span s floor from (inl from) (omega arith) (omega int_laws) in
    simp (deadline_of-pos opts now seconds e d) (elim (Bool-cases opts.wait_before_first_poll) [
      | inl waits ↦ simp waits (
          after_first_wait-Ends (pos deadline) (pos now) wait (sleep_cancelled wait first) _ waited)
      | inr asks ↦ simp asks at_once
    ])
