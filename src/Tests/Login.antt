-- ===== src/Tests/Login.antt =====
-- Logins with a device code.
use kern_proxy.Base.{
  ℕ, zero, suc, ◌+◌, ◌*◌, ◌/◌, ◌<◌, ◌≡◌, refl, true, false, some, [], ◌∷◌, String, arith,
}
use kern_proxy.Base.Int.{ℤ, pos, negsuc, ◌≤ℤ◌, int64, ◌+ℤ◌, ◌-ℤ◌, ◌*ℤ◌}
use kern_proxy.DeviceCode.{
  Reply, PollOptions, Pause, Round, sleep_until, sleep_cancelled, Ending, poll_from, wait_for,
  deadline_of, first_interval, next_interval, poll_device_code_flow,
}
use kern_proxy.DeviceCode.Clock.{IsSteady}
use kern_proxy.DeviceCode.Pace.{Ends, poll_device_code_flow-Ends}
use kern_proxy.DeviceCode.Completion.{IsPatient, Completes, poll_device_code_flow-Completes}

abbrev options : ℤ → PollOptions
options expires = record {
  interval_seconds = pos 2;
  expires_in_seconds = expires;
  wait_before_first_poll = true;
}

-- The milliseconds of a timer's nanoseconds.
abbrev passed : ℤ → ℤ
passed (pos n) = pos (n / 1000000)
passed (negsuc n) = pos 0

abbrev after_time : ℕ → Pause
after_time n = record { before = pos n; during = passed; cancelled = false }

passed-min : (d : ℤ) → pos 0 ≤ℤ passed d
passed-min (pos n) = omega arith
passed-min (negsuc n) = omega arith

after_time-IsSteady : (n : ℕ) → IsSteady (after_time n)
after_time-IsSteady n = record {
  goes_on = omega arith;
  runs_on = passed-min;
  lasts = λ w. omega arith;
}

abbrev round_of : Reply String → Round String
round_of r = record { cancelled = false; reply = r; pause = after_time 10 }

abbrev rounds : ℕ → Round String
rounds zero = round_of (Reply.slow_down (pos 0))
rounds (suc n) = round_of (Reply.complete "token")

rounds-IsSteady : (j : ℕ) → IsSteady (rounds j).pause
rounds-IsSteady zero = after_time-IsSteady 10
rounds-IsSteady (suc n) = after_time-IsSteady 10

poll_device_code_flow-Ends_example :
    Ends
      (pos (5 + 60 * 1000))
      (pos 5)
      (poll_device_code_flow (options (pos 60)) (after_time 0) rounds 61 (pos 5))
poll_device_code_flow-Ends_example =
    poll_device_code_flow-Ends (options (pos 60)) (after_time 0) rounds 5 59 refl (omega arith)
      (omega arith) (after_time-IsSteady 0) rounds-IsSteady

rounds-IsPatient : (j : ℕ) → j < 1 → IsPatient (rounds j)
rounds-IsPatient zero h = record { goes_on = refl; unfinished = refl; sleeps = refl }
rounds-IsPatient (suc n) h = absurd (omega arith)

poll_device_code_flow-Completes_example :
    Completes 2 "token" (poll_device_code_flow (options (pos 0)) (after_time 0) rounds 2 (pos 5))
poll_device_code_flow-Completes_example =
    poll_device_code_flow-Completes (options (pos 0)) (after_time 0) rounds "token" (pos 5) 1
      (omega arith) refl rounds-IsPatient refl refl

-- The polls come at the interval of 2 seconds, which the server then raised by 5.
poll_times :
    poll_device_code_flow (options (pos 60)) (after_time 0) rounds 5 (pos 5)
    ≡ some (pos 2005 ∷ pos 9015 ∷ [], Ending.completed "token")
unfolding poll_device_code_flow poll_from wait_for deadline_of first_interval next_interval
    sleep_until sleep_cancelled int64 ◌+ℤ◌ ◌-ℤ◌ ◌*ℤ◌
poll_times = refl

-- An interval of so many seconds overflows: the code polls each second.
abbrev huge : Reply String
huge = Reply.slow_down (pos 9223372036854775807)

overflowing_interval : next_interval huge (pos 5000) ≡ pos 1000
unfolding next_interval int64 ◌*ℤ◌
overflowing_interval = refl
