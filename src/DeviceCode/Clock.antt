-- ===== src/DeviceCode/Clock.antt =====
-- What sleeps do on a clock that does not go back.
use kern_proxy.Base.{
  ℕ, ◌+◌, ◌-◌, ◌*◌, ◌≤◌, ◌<◌, ◌≡◌, ap, ◌∙◌, ◌⊎◌, inl, inr, true, Option, none, some, ltb, arith,
  Bool-cases,
}
use kern_proxy.Base.Int.{
  ℤ, pos, negsuc, ◌+ℤ◌, ◌-ℤ◌, ◌*ℤ◌, ◌≤ℤ◌, ltb_ℤ, int64, int64-of_IsInt64, int_laws,
}
use kern_proxy.DeviceCode.{Pause, shorter, wait_for, awake, sleep_until}

-- The clock does not go back, and no timer of whole milliseconds fires early by it.
pub record IsSteady (p : Pause) : Type 0 where
  pub goes_on : pos 0 ≤ℤ p.before
  pub runs_on : (d : ℤ) → pos 0 ≤ℤ p.during d
  pub lasts : (w : ℕ) → pos w ≤ℤ p.during (pos (w * 1000000))

pub scaled : (a b : ℕ) → pos a *ℤ pos b ≡ pos (a * b)
unfolding ◌*ℤ◌
scaled a b = grind arith

pub sum_pos : (a b : ℕ) → pos a +ℤ pos b ≡ pos (a + b)
unfolding ◌+ℤ◌
sum_pos a b = ground arith

difference : (a b : ℕ) → b ≤ a → pos a -ℤ pos b ≡ pos (a - b)
unfolding ◌-ℤ◌
difference a b h = ground arith

pub small : (n : ℕ) → n < 9223372036854775808 → int64 (pos n) ≡ pos n
small n h = int64-of_IsInt64 (pos n) (h, omega arith)

sleep-advances : (wait now : ℤ) (p : Pause) → IsSteady p → now ≤ℤ sleep_until wait now p
unfolding sleep_until
sleep-advances wait now p s =
    let on = s.runs_on (int64 (wait *ℤ pos 1000000)) in
    elim (Bool-cases (ltb_ℤ (pos 0) wait)) [
      | inl e ↦ rw e (omega int_laws)
      | inr e ↦ rw e (omega arith)
    ]

pub awake-advances : (wait : Option ℤ) (now : ℤ) (p : Pause) → IsSteady p → now ≤ℤ awake wait now p
awake-advances none now p s = omega arith
awake-advances (some w) now p s = sleep-advances w now p s

-- A sleep that no `time.Duration` overflows at lasts as long as it should.
sleep-lasts :
    (k : ℕ) (now : ℤ) (p : Pause)
    → 0 < k
    → k * 1000000 < 9223372036854775808
    → IsSteady p
    → now +ℤ pos k ≤ℤ sleep_until (pos k) now p
unfolding sleep_until
sleep-lasts k now p h b s =
    let asked : int64 (pos k *ℤ pos 1000000) ≡ pos (k * 1000000) =
      ap int64 (scaled k 1000000) ∙ small (k * 1000000) b in
    let lasts = s.lasts k in
    let positive : ltb_ℤ (pos 0) (pos k) ≡ true = ground arith in
    rw (positive, asked) (omega int_laws)

-- Behind the sleep a second has passed, or the deadline is over.
shorter-passes :
    (left : ℕ) (interval now deadline : ℤ) (p : Pause)
    → 0 < left
    → left * 1000000 < 9223372036854775808
    → deadline ≤ℤ now +ℤ pos left
    → pos 1000 ≤ℤ interval
    → IsSteady p
    → let later = awake (shorter (pos left) interval) now p in
      (now +ℤ pos 1000 ≤ℤ later) ⊎ (deadline ≤ℤ later)
shorter-passes left (negsuc k) now deadline p h b d i s = absurd (omega arith)
shorter-passes left (pos k) now deadline p h b d i s =
    let positive : ltb_ℤ (pos 0) (pos left) ≡ true = ground arith in
    elim (Bool-cases (ltb_ℤ (pos left) (pos k))) [
      | inl e ↦ let lasts = sleep-lasts left now p h b s in rw (positive, e) (inr (omega int_laws))
      | inr e ↦
          let lasts = sleep-lasts k now p (omega arith) (ground arith) s in
          rw (positive, e) (inl (omega int_laws))
    ]

-- Where the deadline is ahead, `start` was no negative reading and the time from it to the deadline fits a
-- `time.Duration`.
pub wait_for-passes :
    (deadline start : ℕ) (now interval : ℤ) (p : Pause)
    → deadline < 9223372036854775808
    → (deadline - start) * 1000000 < 9223372036854775808
    → pos start ≤ℤ now
    → pos 1000 ≤ℤ interval
    → IsSteady p
    → let later = awake (wait_for (some (pos deadline)) now interval) now p in
      (now +ℤ pos 1000 ≤ℤ later) ⊎ (pos deadline ≤ℤ later)
unfolding wait_for
wait_for-passes deadline start (negsuc m) interval p d b l i s = absurd (omega arith)
wait_for-passes deadline start (pos m) interval p d b l i s = elim (Bool-cases (ltb m deadline)) [
  | inl e ↦
      let ahead : m < deadline = ground arith in
      let left : int64 (pos deadline -ℤ pos m) ≡ pos (deadline - m) =
        ap int64 (difference deadline m (ground arith)) ∙ small (deadline - m) (omega arith) in
      rw left (
        shorter-passes (deadline - m) interval (pos m) (pos deadline) p (ground arith)
          (ground arith) (omega int_laws) i s)
  | inr e ↦
      let on = awake-advances (wait_for (some (pos deadline)) (pos m) interval) (pos m) p s in
      let over : deadline ≤ m = ground arith in inr (omega arith)
]
