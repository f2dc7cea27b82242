-- ===== src/HttpRetry/Total.antt =====
-- The loop of `Do` ends, within its budget of attempts.
use kern_proxy.Base.{
  ℕ, zero, suc, ◌+◌, ◌≤◌, ◌<◌, ◌≡◌, Bool, true, false, Option, none, some, List, [], ◌∷◌, ◌++◌,
  String, arith, ◌⊎◌, inl, inr, Bool-cases,
}
use kern_proxy.Base.Int.{ℤ, pos, negsuc, ltb_ℤ}
use kern_proxy.HttpRetry.{
  Response, Failure, Round, Config, Effect, Result, Verdict, do_with_header_timeout, after_failure,
  after_response, after_exchange, closing, send, attempt_once, carry_on, attempts, max_retries,
  retries, do_request,
}

-- How often a request was sent, a response came, and a body was closed.
abbrev pub count_sent : List Effect → ℕ
count_sent [] = 0
count_sent (Effect.sent ∷ es) = suc (count_sent es)
count_sent (Effect.received ∷ es) = count_sent es
count_sent (Effect.closed ∷ es) = count_sent es
count_sent (Effect.slept d ∷ es) = count_sent es

abbrev pub count_received : List Effect → ℕ
count_received [] = 0
count_received (Effect.received ∷ es) = suc (count_received es)
count_received (Effect.sent ∷ es) = count_received es
count_received (Effect.closed ∷ es) = count_received es
count_received (Effect.slept d ∷ es) = count_received es

abbrev pub count_closed : List Effect → ℕ
count_closed [] = 0
count_closed (Effect.closed ∷ es) = suc (count_closed es)
count_closed (Effect.sent ∷ es) = count_closed es
count_closed (Effect.received ∷ es) = count_closed es
count_closed (Effect.slept d ∷ es) = count_closed es

-- The bodies that are left open: that of the response that is returned, and no other.
abbrev pub open_bodies : Result → ℕ
open_bodies (Result.ok r) = 1
open_bodies (Result.err e) = 0

abbrev pub IsSuccess : Result → Type 0
IsSuccess (Result.ok r) = (200 ≤ r.status) × (r.status < 300)
IsSuccess (Result.err e) = Unit

-- What an attempt leaves behind it.
abbrev IsSound : Config → ℕ → List Effect × Verdict → Type 0
IsSound cfg attempt (es, Verdict.stop r) =
    (count_sent es ≤ 1) × (count_received es ≡ count_closed es + open_bodies r) × IsSuccess r
IsSound cfg attempt (es, Verdict.retry d) =
    (count_sent es ≤ 1)
    × (count_received es ≡ count_closed es)
    × (attempt < retries (max_retries cfg))

retries-ltb : (n : ℕ) (z : ℤ) → ltb_ℤ (pos n) z ≡ true → n < retries z
retries-ltb n (pos z) h = ground arith
retries-ltb n (negsuc z) h = ground arith

after_failure-IsSound :
    (cfg : Config) (attempt : ℕ) (round : Round) (e : Failure)
    → IsSound cfg attempt (Effect.sent ∷ [], after_failure cfg attempt round e)
unfolding after_failure
after_failure-IsSound cfg attempt round e = ground (arith, retries-ltb attempt (max_retries cfg))

after_response-IsSound :
    (cfg : Config) (attempt : ℕ) (round : Round) (r : Response)
    → let (closes, v) = after_response cfg attempt round r in
      IsSound cfg attempt (Effect.sent ∷ Effect.received ∷ closing closes, v)
unfolding after_response
after_response-IsSound cfg attempt round r = ground (arith, retries-ltb attempt (max_retries cfg))

after_exchange-IsSound :
    (cfg : Config) (attempt : ℕ) (round : Round) (x : Response ⊎ Failure)
    → IsSound cfg attempt (after_exchange cfg attempt round x)
after_exchange-IsSound cfg attempt round (inl r) = after_response-IsSound cfg attempt round r
after_exchange-IsSound cfg attempt round (inr e) = after_failure-IsSound cfg attempt round e

send-IsSound :
    (cfg : Config) (attempt : ℕ) (round : Round) (e : Option String)
    → IsSound cfg attempt (send cfg attempt round e)
unfolding send
send-IsSound cfg attempt round (some e) = ground arith
send-IsSound cfg attempt round none =
    after_exchange-IsSound cfg attempt round (do_with_header_timeout cfg.timeout round)

attempt_once-IsSound :
    (cfg : Config) (attempt : ℕ) (round : Round)
    → IsSound cfg attempt (attempt_once cfg attempt round)
unfolding attempt_once
attempt_once-IsSound cfg attempt round = elim (Bool-cases round.cancelled_before) [
  | inl c ↦ rw c (ground arith)
  | inr c ↦ rw c (send-IsSound cfg attempt round round.request_error)
]

-- The loop has returned, with at most `budget` requests sent, every body closed but that of the
-- response it returns, and no response returned that is not a 2xx.
abbrev pub Ends : ℕ → Option (List Effect × Result) → Type 0
Ends budget none = ⊥
Ends budget (some (es, r)) =
    (count_sent es ≤ budget) × (count_received es ≡ count_closed es + open_bodies r) × IsSuccess r

pub count_sent-slept :
    (d : ℤ) (es more : List Effect)
    → count_sent (es ++ Effect.slept d ∷ more) ≡ count_sent es + count_sent more
count_sent-slept d [] more = omega arith
count_sent-slept d (Effect.sent ∷ es) more = let ih = count_sent-slept d es more in omega arith
count_sent-slept d (Effect.received ∷ es) more = count_sent-slept d es more
count_sent-slept d (Effect.closed ∷ es) more = count_sent-slept d es more
count_sent-slept d (Effect.slept _ ∷ es) more = count_sent-slept d es more

count_received-slept :
    (d : ℤ) (es more : List Effect)
    → count_received (es ++ Effect.slept d ∷ more) ≡ count_received es + count_received more
count_received-slept d [] more = omega arith
count_received-slept d (Effect.sent ∷ es) more = count_received-slept d es more
count_received-slept d (Effect.received ∷ es) more =
    let ih = count_received-slept d es more in omega arith
count_received-slept d (Effect.closed ∷ es) more = count_received-slept d es more
count_received-slept d (Effect.slept _ ∷ es) more = count_received-slept d es more

count_closed-slept :
    (d : ℤ) (es more : List Effect)
    → count_closed (es ++ Effect.slept d ∷ more) ≡ count_closed es + count_closed more
count_closed-slept d [] more = omega arith
count_closed-slept d (Effect.sent ∷ es) more = count_closed-slept d es more
count_closed-slept d (Effect.received ∷ es) more = count_closed-slept d es more
count_closed-slept d (Effect.closed ∷ es) more =
    let ih = count_closed-slept d es more in omega arith
count_closed-slept d (Effect.slept _ ∷ es) more = count_closed-slept d es more

carry_on-Ends :
    (cfg : Config) (budget attempt : ℕ) (sleep_cancelled : Bool) (o : List Effect × Verdict)
    (later : Option (List Effect × Result))
    → IsSound cfg attempt o
    → (attempt < retries (max_retries cfg) → Ends budget later)
    → Ends (suc budget) (carry_on sleep_cancelled o later)
carry_on-Ends cfg budget attempt c (es, Verdict.stop r) later (s, b, ok) rest =
    ((ground arith), b, ok)
carry_on-Ends cfg budget attempt true (es, Verdict.retry d) later (s, b, l) rest =
    simp (count_sent-slept, count_received-slept, count_closed-slept) (ground arith)
carry_on-Ends cfg budget attempt false (es, Verdict.retry d) none (s, b, l) rest = rest l
carry_on-Ends cfg budget attempt false (es, Verdict.retry d) (some (more, r)) (s, b, l) rest =
    let (s1, b1, ok) = rest l in
    simp (count_sent-slept, count_received-slept, count_closed-slept)
      ((ground arith), (ground arith), ok)

attempts-Ends :
    (cfg : Config) (rounds : ℕ → Round) (fuel attempt : ℕ)
    → attempt ≤ retries (max_retries cfg)
    → retries (max_retries cfg) < attempt + fuel
    → Ends fuel (attempts cfg rounds fuel attempt)
unfolding attempts
attempts-Ends cfg rounds zero attempt l h = absurd (omega arith)
attempts-Ends cfg rounds (suc fuel) attempt l h =
    carry_on-Ends cfg fuel attempt (rounds attempt).sleep_cancelled
      (attempt_once cfg attempt (rounds attempt)) (attempts cfg rounds fuel (suc attempt))
      (attempt_once-IsSound cfg attempt (rounds attempt))
      (λ more. attempts-Ends cfg rounds fuel (suc attempt) (ground arith) (ground arith))

-- Whatever the server, the clock, the context and the hook do, `do_request` returns. It sends at
-- most one request more than the retry cap (a negative cap counts as zero), closes the body of every
-- response but the one it returns, and returns no response whose status is not a 2xx.
pub do_request-Ends :
    (cfg : Config) (rounds : ℕ → Round)
    → Ends (suc (retries (max_retries cfg))) (do_request cfg rounds)
unfolding do_request
do_request-Ends cfg rounds =
    attempts-Ends cfg rounds (suc (retries (max_retries cfg))) 0 (ground arith) (ground arith)
