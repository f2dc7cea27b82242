-- ===== src/HttpRetry/Recovery.antt =====
-- A request that fails for a while and then succeeds gets its response.
use kern_proxy.Base.{
  ℕ, zero, suc, ◌+◌, ◌≤◌, ◌<◌, ◌≡◌, refl, Bool, true, false, Option, none, some, List, [], ◌∷◌,
  arith,
}
use kern_proxy.Base.Int.{ℤ, pos, negsuc, ltb_ℤ}
use kern_proxy.HttpRetry.{
  Response, Exchange, Round, Config, Effect, Result, Verdict, is_retryable, after_failure,
  after_response, do_with_header_timeout, attempt_once, carry_on, attempts, max_retries, retries,
  do_request,
}
use kern_proxy.HttpRetry.Total.{count_sent, count_sent-slept}

-- The exchange failed, or the server refused for the time being.
abbrev pub IsRefusal : Exchange → Type 0
IsRefusal (Exchange.failed e) = Unit
IsRefusal (Exchange.responded r) = (300 ≤ r.status) × (is_retryable r.status r.body ≡ true)

-- Nobody cancels, and the hook does not object.
pub record IsQuiet (round : Round) : Type 0 where
  pub before : round.cancelled_before ≡ false
  pub request : round.request_error ≡ none
  pub after : round.cancelled_after ≡ false
  pub hooked : round.hook_error ≡ none
  pub sleeping : round.sleep_cancelled ≡ false

ltb_ℤ-retries : (n : ℕ) (z : ℤ) → n < retries z → ltb_ℤ (pos n) z ≡ true
ltb_ℤ-retries n (pos z) h = ground arith
ltb_ℤ-retries n (negsuc z) h = ground arith

-- An attempt that sent the request once and wants it sent again.
abbrev Retries : List Effect × Verdict → Type 0
Retries (es, Verdict.retry d) = count_sent es ≡ 1
Retries (es, Verdict.stop r) = ⊥

attempt_once-Retries :
    (cfg : Config) (attempt : ℕ) (round : Round)
    → IsQuiet round
    → IsRefusal round.exchange
    → attempt < retries (max_retries cfg)
    → Retries (attempt_once cfg attempt round)
unfolding attempt_once do_with_header_timeout after_failure after_response
attempt_once-Retries cfg attempt round q x l =
    simp (q.before, q.request)
      (ground (arith, q.after, q.hooked, ltb_ℤ-retries attempt (max_retries cfg) l))

attempt_once-responded :
    (cfg : Config) (attempt : ℕ) (round : Round) (r : Response)
    → IsQuiet round
    → round.exchange ≡ Exchange.responded r
    → 200 ≤ r.status
    → r.status < 300
    → attempt_once cfg attempt round
      ≡ (Effect.sent ∷ Effect.received ∷ [], Verdict.stop (Result.ok r))
unfolding attempt_once do_with_header_timeout after_failure after_response
attempt_once-responded cfg attempt round r q x l u =
    simp (q.before, q.request) (ground (arith, x, q.hooked))

-- The loop has returned the response `r`, with `n` requests sent.
abbrev pub Returns : ℕ → Response → Option (List Effect × Result) → Type 0
Returns n r none = ⊥
Returns n r (some (es, o)) = (count_sent es ≡ n) × (o ≡ Result.ok r)

carry_on-Returns :
    (n : ℕ) (r : Response) (c : Bool) (o : List Effect × Verdict)
    (later : Option (List Effect × Result))
    → c ≡ false
    → Retries o
    → Returns n r later
    → Returns (suc n) r (carry_on c o later)
carry_on-Returns n r c (es, Verdict.stop v) later awake h q = absurd h
carry_on-Returns n r c (es, Verdict.retry d) none awake h q = absurd q
carry_on-Returns n r c (es, Verdict.retry d) (some (more, v)) awake h (k, e) =
    rw awake ((simp (count_sent-slept) (ground arith)), e)

attempts-Returns :
    (cfg : Config) (rounds : ℕ → Round) (r : Response) (left fuel attempt last : ℕ)
    → last ≡ attempt + left
    → last ≤ retries (max_retries cfg)
    → left < fuel
    → ((i : ℕ) → i ≤ last → IsQuiet (rounds i))
    → ((i : ℕ) → i < last → IsRefusal (rounds i).exchange)
    → (rounds last).exchange ≡ Exchange.responded r
    → 200 ≤ r.status
    → r.status < 300
    → Returns (suc left) r (attempts cfg rounds fuel attempt)
unfolding attempts
attempts-Returns cfg rounds r left zero attempt last a b f quiet refuse x l u = absurd (omega arith)
attempts-Returns cfg rounds r zero (suc fuel) attempt last a b f quiet refuse x l u =
    let here : attempt ≡ last = omega arith in
    let q = quiet attempt (omega arith) in
    rw (attempt_once-responded cfg attempt (rounds attempt) r q (rw here x) l u) (refl, refl)
attempts-Returns cfg rounds r (suc left) (suc fuel) attempt last a b f quiet refuse x l u =
    let q = quiet attempt (omega arith) in
    carry_on-Returns (suc left) r (rounds attempt).sleep_cancelled
      (attempt_once cfg attempt (rounds attempt)) (attempts cfg rounds fuel (suc attempt))
      q.sleeping
      (attempt_once-Retries cfg attempt (rounds attempt) q (refuse attempt (omega arith))
        (omega arith))
      (attempts-Returns cfg rounds r left fuel (suc attempt) last (omega arith) b (omega arith)
        quiet refuse x l u)

-- If the server refuses a number of attempts that the retry cap allows for, or they fail on their way
-- to it, and the next one is answered by a 2xx, and nobody cancels meanwhile, `do_request` returns
-- that response, with exactly one request more than were refused.
pub do_request-Returns :
    (cfg : Config) (rounds : ℕ → Round) (r : Response) (refused : ℕ)
    → refused ≤ retries (max_retries cfg)
    → ((i : ℕ) → i ≤ refused → IsQuiet (rounds i))
    → ((i : ℕ) → i < refused → IsRefusal (rounds i).exchange)
    → (rounds refused).exchange ≡ Exchange.responded r
    → 200 ≤ r.status
    → r.status < 300
    → Returns (suc refused) r (do_request cfg rounds)
unfolding do_request
do_request-Returns cfg rounds r refused b quiet refuse x l u =
    attempts-Returns cfg rounds r refused (suc (retries (max_retries cfg))) 0 refused (omega arith)
      b (omega arith) quiet refuse x l u
