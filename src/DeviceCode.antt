-- ===== src/DeviceCode.antt =====
-- ai/auth/oauth/devicecode.go: the loop that asks an authorization server until the user has entered
-- a code. Times are `int64`s of milliseconds, which wrap. The clock is a wall clock: between two of its
-- readings a `Pause` moves it by what it says, in either direction.
pub mod Clock
pub mod Pace
pub mod Completion
use kern_proxy.Base.{
  ℕ, zero, suc, Bool, true, false, not, ◌&&◌, Option, none, some, List, [], ◌∷◌, String, ◌=ₛ◌, ltb,
  if◌then◌else◌,
}
use kern_proxy.Base.Int.{ℤ, pos, negsuc, ◌+ℤ◌, ◌-ℤ◌, ◌*ℤ◌, ltb_ℤ, int64}

abbrev pub minimum_interval : ℤ
minimum_interval = pos 1000

abbrev pub default_interval_seconds : ℤ
default_interval_seconds = pos 5

abbrev pub slow_down_increment : ℤ
slow_down_increment = pos 5000

-- `DeviceCodePollResult`, and `refused` for an error of `Poll`.
pub data Reply (T : Type 0) : Type 0 where
  pending : Reply T
  slow_down : ℤ → Reply T
  failed : String → Reply T
  complete : T → Reply T
  refused : String → Reply T

pub record PollOptions : Type 0 where
  pub interval_seconds : ℤ
  pub expires_in_seconds : ℤ
  pub wait_before_first_poll : Bool

-- What happens around a sleep: how far the clock moves before it is read for the time that remains, how
-- far while a timer of so many nanoseconds runs, and if the context is done by then.
pub record Pause : Type 0 where
  pub before : ℤ
  pub during : ℤ → ℤ
  pub cancelled : Bool

-- The reply comes in the time `before` of the pause.
pub record Round (T : Type 0) : Type 0 where
  pub cancelled : Bool  -- `<-ctx.Done()` before the poll
  pub reply : Reply T
  pub pause : Pause

pub data Ending (T : Type 0) : Type 0 where
  completed : T → Ending T
  login_cancelled : Ending T  -- `ErrDeviceCodeCancelled`
  timed_out : Ending T
  slow_down_timed_out : Ending T
  poll_error : String → Ending T
  flow_failed : String → Ending T

-- `int64(seconds) * 1000`
abbrev pub millis : ℤ → ℤ
millis seconds = int64 (seconds *ℤ pos 1000)

unfoldable pub at_least_minimum : ℤ → ℤ
at_least_minimum interval = if ltb_ℤ interval minimum_interval then minimum_interval else interval

unfoldable pub first_interval : PollOptions → ℤ
unfolding at_least_minimum
first_interval opts = at_least_minimum (
    millis (
      if ltb_ℤ (pos 0) opts.interval_seconds
      then opts.interval_seconds
      else default_interval_seconds))

-- `none`: there is no deadline.
unfoldable pub deadline_of : PollOptions → ℤ → Option ℤ
deadline_of opts now =
    if ltb_ℤ (pos 0) opts.expires_in_seconds
    then some (int64 (now +ℤ millis opts.expires_in_seconds))
    else none

-- The `switch` over the status, as far as it changes the interval.
unfoldable pub next_interval : {T : Type 0} → Reply T → ℤ → ℤ
unfolding at_least_minimum
next_interval (Reply.slow_down s) interval =
    at_least_minimum (if ltb_ℤ (pos 0) s then millis s else int64 (interval +ℤ slow_down_increment))
next_interval _ interval = interval

abbrev pub count_slow_down : {T : Type 0} → Reply T → ℕ → ℕ
count_slow_down (Reply.slow_down s) n = suc n
count_slow_down _ n = n

-- The `switch` over the status, as far as it ends the flow.
abbrev pub ending_of : {T : Type 0} → Reply T → Option (Ending T)
ending_of (Reply.complete v) = some (Ending.completed v)
ending_of (Reply.failed m) = some (Ending.flow_failed (if m =ₛ "" then "device flow failed" else m))
ending_of (Reply.refused e) = some (Ending.poll_error e)
ending_of Reply.pending = none
ending_of (Reply.slow_down s) = none

abbrev pub shorter : ℤ → ℤ → Option ℤ
shorter remaining interval =
    if ltb_ℤ (pos 0) remaining
    then some (if ltb_ℤ remaining interval then remaining else interval)
    else none

-- How long to sleep; `none` if the deadline is over.
unfoldable pub wait_for : Option ℤ → ℤ → ℤ → Option ℤ
wait_for none now interval = some interval
wait_for (some deadline) now interval = shorter (int64 (deadline -ℤ now)) interval

abbrev pub is_before : Option ℤ → ℤ → Bool
is_before none now = true
is_before (some deadline) now = ltb_ℤ now deadline

abbrev pub timeout : {T : Type 0} → ℕ → Ending T
timeout slow_downs = if ltb 0 slow_downs then Ending.slow_down_timed_out else Ending.timed_out

-- What a poll at `now` leads to: the end, or a sleep and what comes `later`.
abbrev pub after_poll :
    {T : Type 0}
    → ℤ
    → Option (Ending T)
    → Option ℤ
    → Bool
    → Ending T
    → Option (List ℤ × Ending T)
    → Option (List ℤ × Ending T)
after_poll now (some e) wait cancelled over later = some (now ∷ [], e)
after_poll now none none cancelled over later = some (now ∷ [], over)
after_poll now none (some w) true over later = some (now ∷ [], Ending.login_cancelled)
after_poll now none (some w) false over none = none
after_poll now none (some w) false over (some (polls, e)) = some (now ∷ polls, e)

-- `deviceCodeSleep`: a timer runs for `time.Duration(millis) * time.Millisecond`. What the clock shows then.
unfoldable pub sleep_until : ℤ → ℤ → Pause → ℤ
sleep_until wait now pause =
    if ltb_ℤ (pos 0) wait then now +ℤ pause.during (int64 (wait *ℤ pos 1000000)) else now

-- It looks at the context only where it waits.
unfoldable pub sleep_cancelled : Option ℤ → Pause → Bool
sleep_cancelled none pause = false
sleep_cancelled (some wait) pause = ltb_ℤ (pos 0) wait && pause.cancelled

abbrev pub awake : Option ℤ → ℤ → Pause → ℤ
awake none now pause = now
awake (some wait) now pause = sleep_until wait now pause

-- The loop from round `i` on: the readings of the clock at its polls, and its end; `none` if the fuel runs
-- out.
unfoldable pub poll_from :
    {T : Type 0} → Option ℤ → (ℕ → Round T) → ℕ → ℕ → ℤ → ℤ → ℕ → Option (List ℤ × Ending T)
poll_from deadline rounds zero i now interval slow_downs = none
poll_from deadline rounds (suc fuel) i now interval slow_downs =
    let round = rounds i in
    let after = next_interval round.reply interval in
    let slow = count_slow_down round.reply slow_downs in
    let polled = now +ℤ round.pause.before in
    let wait = wait_for deadline polled after in
    let later = poll_from deadline rounds fuel (suc i) (awake wait polled round.pause) after slow in
    if not (is_before deadline now)
    then some ([], timeout slow_downs)
    else if round.cancelled
    then some ([], Ending.login_cancelled)
    else after_poll now (ending_of round.reply) wait (sleep_cancelled wait round.pause)
        (timeout slow) later

-- The wait before the first poll; the loop runs from when it is over.
abbrev pub after_first_wait :
    {T : Type 0} → Option ℤ → Bool → Option (List ℤ × Ending T) → Option (List ℤ × Ending T)
after_first_wait none cancelled later = some ([], Ending.timed_out)
after_first_wait (some wait) true later = some ([], Ending.login_cancelled)
after_first_wait (some wait) false later = later

-- `PollDeviceCodeFlow`, with a deadline that is counted from the reading `now`.
unfoldable pub poll_device_code_flow :
    {T : Type 0} → PollOptions → Pause → (ℕ → Round T) → ℕ → ℤ → Option (List ℤ × Ending T)
poll_device_code_flow opts first rounds fuel now =
    let deadline = deadline_of opts now in
    let interval = first_interval opts in
    let begun = now +ℤ first.before in
    let wait = wait_for deadline begun interval in
    let waited = poll_from deadline rounds fuel 0 (awake wait begun first) interval 0 in
    let at_once = poll_from deadline rounds fuel 0 begun interval 0 in
    if opts.wait_before_first_poll
    then after_first_wait wait (sleep_cancelled wait first) waited
    else at_once
