-- ===== src/DeviceCode/Completion.antt =====
-- A login that the user completes.
use kern_proxy.Base.{
  ℕ, ◌&&◌, zero, suc, ◌+◌, ◌<◌, ◌≡◌, refl, ap, Bool, true, false, Option, none, some, List, arith,
  length, Bool-cases, inl, inr,
}
use kern_proxy.Base.Int.{ℤ, pos, ltb_ℤ, ◌+ℤ◌, ◌≤ℤ◌}
use kern_proxy.DeviceCode.{
  Reply, PollOptions, Pause, Round, Ending, first_interval, deadline_of, sleep_cancelled, ending_of,
  wait_for, after_poll, poll_from, poll_device_code_flow,
}

-- A round that asks for patience, which nobody cancels.
pub record IsPatient {T : Type 0} (round : Round T) : Type 0 where
  pub goes_on : round.cancelled ≡ false
  pub unfinished : ending_of round.reply ≡ none
  pub sleeps : round.pause.cancelled ≡ false

-- The flow has ended with the value `v` after `n` polls.
abbrev pub Completes : {T : Type 0} → ℕ → T → Option (List ℤ × Ending T) → Type 0
Completes n v none = ⊥
Completes n v (some (ps, e)) = (length ps ≡ n) × (e ≡ Ending.completed v)

after_poll-Completes :
    {T : Type 0} (n : ℕ) (v : T) (now : ℤ) (e : Option (Ending T)) (wait : ℤ) (cancelled : Bool)
    (over : Ending T) (later : Option (List ℤ × Ending T))
    → e ≡ none
    → cancelled ≡ false
    → Completes n v later
    → Completes (suc n) v (after_poll now e (some wait) cancelled over later)
after_poll-Completes n v now (some e) wait c over later h k q = cc
after_poll-Completes n v now none wait true over later h k q = cc
after_poll-Completes n v now none wait false over none h k q = q
after_poll-Completes n v now none wait false over (some (ps, e)) h k q = (ap suc q.0, q.1)

not_cancelled : (t c : Bool) → c ≡ false → (t && c) ≡ false
not_cancelled t c h = ground arith

poll_from-Completes :
    {T : Type 0} (rounds : ℕ → Round T) (v : T) (left fuel i : ℕ) (now interval : ℤ)
    (slow_downs last : ℕ)
    → last ≡ i + left
    → left < fuel
    → ((j : ℕ) → j < last → IsPatient (rounds j))
    → (rounds last).cancelled ≡ false
    → (rounds last).reply ≡ Reply.complete v
    → Completes (suc left) v (poll_from none rounds fuel i now interval slow_downs)
unfolding poll_from wait_for sleep_cancelled
poll_from-Completes rounds v left zero i now interval s last a f patient c r = absurd (omega arith)
poll_from-Completes rounds v zero (suc fuel) i now interval s last a f patient c r =
    let here : i ≡ last = omega arith in
    let awaits : (rounds i).cancelled ≡ false = rw here c in
    let replies : (rounds i).reply ≡ Reply.complete v = rw here r in
    simp (awaits, replies) (refl, refl)
poll_from-Completes rounds v (suc left) (suc fuel) i now interval s last a f patient c r =
    let q = patient i (omega arith) in
    simp (q.goes_on) (
      after_poll-Completes (suc left) v now _ _ _ _ _ q.unfinished (not_cancelled _ _ q.sleeps) (
        poll_from-Completes rounds v left fuel (suc i) _ _ _ last (omega arith) (omega arith)
          patient c r))

deadline_of-none :
    (opts : PollOptions) (now : ℤ) → opts.expires_in_seconds ≤ℤ pos 0 → deadline_of opts now ≡ none
unfolding deadline_of
deadline_of-none opts now h = ground arith

-- Without a deadline the flow waits as long as it takes: if the server asks for patience a number of
-- times, by `pending` or `slow_down`, and then completes, and nobody cancels, the flow ends with the
-- value, after one poll more than that.
pub poll_device_code_flow-Completes :
    {T : Type 0} (opts : PollOptions) (first : Pause) (rounds : ℕ → Round T) (v : T) (now : ℤ)
    (patience : ℕ)
    → opts.expires_in_seconds ≤ℤ pos 0
    → first.cancelled ≡ false
    → ((j : ℕ) → j < patience → IsPatient (rounds j))
    → (rounds patience).cancelled ≡ false
    → (rounds patience).reply ≡ Reply.complete v
    → Completes (suc patience) v (poll_device_code_flow opts first rounds (suc patience) now)
unfolding poll_device_code_flow wait_for sleep_cancelled
poll_device_code_flow-Completes opts first rounds v now patience h k patient c r =
    let waited =
      poll_from-Completes rounds v patience (suc patience) 0 _ (first_interval opts) 0 patience
        (omega arith) (omega arith) patient c r in
    let at_once =
      poll_from-Completes rounds v patience (suc patience) 0 (now +ℤ first.before)
        (first_interval opts) 0 patience (omega arith) (omega arith) patient c r in
    simp
      (
        deadline_of-none opts now h,
        not_cancelled (ltb_ℤ (pos 0) (first_interval opts)) first.cancelled k,
      )
      (elim (Bool-cases opts.wait_before_first_poll) [
        | inl waits ↦ simp waits waited
        | inr asks ↦ simp asks at_once
      ])
