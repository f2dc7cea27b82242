-- ===== src/Tests/Http.antt =====
-- A server that is overloaded once, and one that stays so.
use kern_proxy.Base.{ℕ, zero, suc, ◌≤◌, ◌<◌, ◌≡◌, refl, true, false, none, arith}
use kern_proxy.Base.Int.{pos}
use kern_proxy.Messages.{StopReason, AssistantMessage}
use kern_proxy.Retry.{is_limit_error, is_transient_text, is_retryable_assistant_error}
use kern_proxy.HttpRetry.{
  Response, Exchange, Round, Config, is_retryable, max_retries, retries, do_request,
}
use kern_proxy.HttpRetry.Total.{Ends, do_request-Ends}
use kern_proxy.HttpRetry.Recovery.{IsQuiet, IsRefusal, Returns, do_request-Returns}
use kern_proxy.HttpRetry.Policy.{is_retryable-agrees}

abbrev config : Config
config = record {
  default_max_retries = pos 2;
  option_max_retries = none;
  timeout = pos 0;
  base_delay = pos 1000000000;
  max_retry_delay = pos 60000000000;
  has_hook = false;
  has_parse_error = false;
}

abbrev overloaded : Response
overloaded = record { status = 503; status_text = "503"; retry_after = none; body = "overloaded" }

abbrev fine : Response
fine = record { status = 200; status_text = "200 OK"; retry_after = none; body = "" }

abbrev round_with : Response → Round
round_with r = record {
  cancelled_before = false;
  request_error = none;
  exchange = Exchange.responded r;
  timer_fired = false;
  cancelled_after = false;
  hook_error = none;
  sleep_cancelled = false;
}

abbrev recovering : ℕ → Round
recovering zero = round_with overloaded
recovering (suc n) = round_with fine

do_request-Ends_example :
    Ends (suc (retries (max_retries config))) (do_request config (λ n. round_with overloaded))
do_request-Ends_example = do_request-Ends config (λ n. round_with overloaded)

recovering-IsQuiet : (i : ℕ) → IsQuiet (recovering i)
recovering-IsQuiet zero = record {
  before = refl;
  request = refl;
  after = refl;
  hooked = refl;
  sleeping = refl;
}
recovering-IsQuiet (suc n) = record {
  before = refl;
  request = refl;
  after = refl;
  hooked = refl;
  sleeping = refl;
}

recovering-IsRefusal : (i : ℕ) → i < 1 → IsRefusal (recovering i).exchange
unfolding is_retryable is_limit_error
recovering-IsRefusal zero h = (omega arith, refl)
recovering-IsRefusal (suc n) h = absurd (omega arith)

config-retries : 1 ≤ retries (max_retries config)
unfolding max_retries
config-retries = omega arith

do_request-Returns_example : Returns 2 fine (do_request config recovering)
do_request-Returns_example =
    do_request-Returns config recovering fine 1 config-retries (λ i h. recovering-IsQuiet i)
      recovering-IsRefusal refl (omega arith) (omega arith)

abbrev failed_turn : AssistantMessage
failed_turn = record {
  content = none;
  api = "anthropic-messages";
  provider = "anthropic";
  model = "opus";
  usage = record {
    input = pos 0;
    output = pos 0;
    cache_read = pos 0;
    cache_write = pos 0;
    total_tokens = pos 0;
  };
  stop_reason = StopReason.error;
  error_message = "Overloaded";
  timestamp = pos 0;
}

failed_turn-is_transient : is_transient_text failed_turn.error_message ≡ true
unfolding is_transient_text
failed_turn-is_transient = refl

is_retryable-agrees_example :
    is_retryable 400 failed_turn.error_message ≡ is_retryable_assistant_error failed_turn
is_retryable-agrees_example = is_retryable-agrees 400 failed_turn refl failed_turn-is_transient
