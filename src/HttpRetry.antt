-- ===== src/HttpRetry.antt =====
-- ai/apis/internal/httpretry/httpretry.go: the loop that retries a request until it gets a 2xx.
-- What the network, the clock, the context and the caller's hook do in each attempt is a `Round`;
-- the number parsers of `RetryAfterDelay` are behind its field `retry_after`. Durations are
-- nanoseconds. An effect (a body closed, a sleep) is logged in its order.
pub mod Total
pub mod Recovery
pub mod Policy
use kern_proxy.Base.{
  ℕ, zero, suc, ◌+◌, ◌^◌, Bool, true, false, not, ◌&&◌, ◌||◌, Option, none, some, List, [], ◌∷◌,
  ◌++◌, String, ◌=ₛ◌, ◌==◌, ◌⊎◌, inl, inr, ltb, leb, if◌then◌else◌,
}
use kern_proxy.Base.Int.{ℤ, pos, negsuc, ◌*ℤ◌, ltb_ℤ, int64}
use kern_proxy.Retry.{is_limit_error, is_transient_text}

pub record Response : Type 0 where
  pub status : ℕ
  pub status_text : String
  pub retry_after : Option ℤ  -- `RetryAfterDelay(resp.Header)`
  pub body : String  -- at most the first MiB

pub data Failure : Type 0 where
  aborted : Failure  -- `ErrAborted`
  bad_request : String → Failure  -- `NewRequestWithContext`
  transport : String → Failure
  header_timeout : Failure
  hook : String → Failure  -- `OnResponse`
  http : ℕ → String → String → Failure  -- through `ParseError`
  text : String → Failure  -- of `defaultParseError`

-- What `client.Do` gives.
pub data Exchange : Type 0 where
  responded : Response → Exchange
  failed : String → Exchange

pub record Round : Type 0 where
  pub cancelled_before : Bool  -- `ctx.Err() != nil` at the top
  pub request_error : Option String
  pub exchange : Exchange
  pub timer_fired : Bool  -- `timeoutCtx.Err() != nil`
  pub cancelled_after : Bool  -- `ctx.Err() != nil` behind the exchange
  pub hook_error : Option String
  pub sleep_cancelled : Bool

-- `has_hook` and `has_parse_error` tell which of the functions of `Config` and its `Opts` are set;
-- `max_retry_delay` is `EffectiveMaxRetryDelay()`, `option_max_retries` the `MaxRetries` of `Opts`.
pub record Config : Type 0 where
  pub default_max_retries : ℤ
  pub option_max_retries : Option ℤ
  pub timeout : ℤ
  pub base_delay : ℤ
  pub max_retry_delay : ℤ
  pub has_hook : Bool
  pub has_parse_error : Bool

pub data Effect : Type 0 where
  sent : Effect
  received : Effect  -- a response, its body open
  closed : Effect  -- `resp.Body.Close()`
  slept : ℤ → Effect

pub data Result : Type 0 where
  ok : Response → Result
  err : Failure → Result

-- The effective retry cap.
unfoldable pub max_retries : Config → ℤ
max_retries cfg = elim cfg.option_max_retries [ none ↦ cfg.default_max_retries | some n ↦ n ]

-- `ExponentialDelay`. The conversion of `math.Pow` is exact up to attempt 62.
unfoldable pub exponential_delay : ℤ → ℕ → ℤ
exponential_delay base_delay attempt = int64 (base_delay *ℤ pos (2 ^ attempt))

-- `capRetryDelay`
unfoldable pub cap_retry_delay : ℤ → ℤ → ℤ
cap_retry_delay delay max_delay =
    if ltb_ℤ (pos 0) max_delay && ltb_ℤ max_delay delay then max_delay else delay

-- `IsRetryable`
unfoldable pub is_retryable : ℕ → String → Bool
is_retryable code error_text =
    if is_limit_error error_text
    then false
    else if code == 429 || code == 500 || code == 502 || code == 503 || code == 504
    then true
    else is_transient_text error_text

-- The delay before the next attempt.
unfoldable pub retry_delay : Config → ℕ → Response → ℤ
unfolding exponential_delay cap_retry_delay
retry_delay cfg attempt r = elim r.retry_after [
  | none ↦ exponential_delay cfg.base_delay attempt
  | some d ↦ if r.status == 429 then cap_retry_delay d cfg.max_retry_delay else d
]

-- `defaultParseError`, or `ParseError` where it is set.
unfoldable pub parse_error : Config → Response → Failure
parse_error cfg r =
    if cfg.has_parse_error
    then Failure.http r.status r.status_text r.body
    else if not (r.body =ₛ "")
    then Failure.text r.body
    else if not (r.status_text =ₛ "")
    then Failure.text r.status_text
    else Failure.text "Request failed"

-- `doWithHeaderTimeout`
unfoldable pub do_with_header_timeout : ℤ → Round → Response ⊎ Failure
do_with_header_timeout timeout round = elim round.exchange [
  | Exchange.responded r ↦ inl r
  | Exchange.failed e ↦
      if ltb_ℤ (pos 0) timeout && round.timer_fired && not round.cancelled_after
      then inr Failure.header_timeout
      else inr (Failure.transport e)
]

-- What an attempt comes to: the end of `Do`, or a sleep and the next attempt.
pub data Verdict : Type 0 where
  stop : Result → Verdict
  retry : ℤ → Verdict

-- The branch `err != nil` behind the exchange.
unfoldable pub after_failure : Config → ℕ → Round → Failure → Verdict
after_failure cfg attempt round e =
    if round.cancelled_after
    then Verdict.stop (Result.err Failure.aborted)
    else if ltb_ℤ (pos attempt) (max_retries cfg)
    then Verdict.retry (exponential_delay cfg.base_delay attempt)
    else Verdict.stop (Result.err e)

abbrev pub hook_result : Config → Round → Option String
hook_result cfg round = if cfg.has_hook then round.hook_error else none

-- The branches behind a response: whether the body is closed, and what comes next.
unfoldable pub after_response : Config → ℕ → Round → Response → Bool × Verdict
after_response cfg attempt round r = elim (hook_result cfg round) [
  | some e ↦ (true, Verdict.stop (Result.err (Failure.hook e)))
  | none ↦
      if leb 200 r.status && ltb r.status 300
      then (false, Verdict.stop (Result.ok r))
      else if ltb_ℤ (pos attempt) (max_retries cfg) && is_retryable r.status r.body
      then (true, Verdict.retry (retry_delay cfg attempt r))
      else (true, Verdict.stop (Result.err (parse_error cfg r)))
]

abbrev pub closing : Bool → List Effect
closing true = Effect.closed ∷ []
closing false = []

abbrev pub after_exchange : Config → ℕ → Round → Response ⊎ Failure → List Effect × Verdict
after_exchange cfg attempt round (inl r) =
    let (closes, v) = after_response cfg attempt round r in
    (Effect.sent ∷ Effect.received ∷ closing closes, v)
after_exchange cfg attempt round (inr e) = (Effect.sent ∷ [], after_failure cfg attempt round e)

-- One round of the loop up to the sleep, from the request that `NewRequestWithContext` makes on.
unfoldable pub send : Config → ℕ → Round → Option String → List Effect × Verdict
unfolding do_with_header_timeout after_failure after_response
send cfg attempt round (some e) = ([], Verdict.stop (Result.err (Failure.bad_request e)))
send cfg attempt round none =
    after_exchange cfg attempt round (do_with_header_timeout cfg.timeout round)

unfoldable pub attempt_once : Config → ℕ → Round → List Effect × Verdict
unfolding send
attempt_once cfg attempt round =
    if round.cancelled_before
    then ([], Verdict.stop (Result.err Failure.aborted))
    else send cfg attempt round round.request_error

-- The sleep and the further attempts, `later`, behind an attempt that is to be retried.
abbrev pub carry_on :
    Bool → List Effect × Verdict → Option (List Effect × Result) → Option (List Effect × Result)
carry_on sleep_cancelled (effects, Verdict.stop r) later = some (effects, r)
carry_on true (effects, Verdict.retry d) later =
    some (effects ++ Effect.slept d ∷ [], Result.err Failure.aborted)
carry_on false (effects, Verdict.retry d) none = none
carry_on false (effects, Verdict.retry d) (some (more, r)) =
    some (effects ++ Effect.slept d ∷ more, r)

-- The loop of `Do` from an attempt on; `none` if the fuel runs out.
unfoldable pub attempts : Config → (ℕ → Round) → ℕ → ℕ → Option (List Effect × Result)
attempts cfg rounds zero attempt = none
attempts cfg rounds (suc fuel) attempt =
    carry_on (rounds attempt).sleep_cancelled (attempt_once cfg attempt (rounds attempt))
      (attempts cfg rounds fuel (suc attempt))

abbrev pub retries : ℤ → ℕ
retries (pos n) = n
retries (negsuc n) = 0

-- `Do`
unfoldable pub do_request : Config → (ℕ → Round) → Option (List Effect × Result)
do_request cfg rounds = attempts cfg rounds (suc (retries (max_retries cfg))) 0
