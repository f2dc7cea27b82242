-- ===== src/Retry.antt =====
-- ai/retry.go: which provider errors are worth another try. The expressions are alternatives of
-- letters, `.?` and `d?`, matched anywhere in a text without regard to case: `Piece` writes them
-- down, and `matches` is what `regexp.MatchString` does for expressions of this form.
pub mod Classes
use kern_proxy.Base.{
  ℕ, ◌+◌, Bool, true, false, not, ◌&&◌, ◌||◌, List, [], ◌∷◌, ◌++◌, String, ◌==◌, ◌=ₛ◌,
  if◌then◌else◌,
}
use kern_proxy.Base.Bytes.{codes, between}
use kern_proxy.Messages.{AssistantMessage, StopReason}

pub data Piece : Type 0 where
  letter : ℕ → Piece
  any_optional : Piece  -- `.?`
  optional : ℕ → Piece  -- `d?`

-- The folding of `(?i)`, for expressions in ASCII: two code points beyond ASCII fold to letters.
unfoldable pub fold : ℕ → ℕ
fold c =
    if between b'A' b'Z' c
    then c + 32
    else if c == 0x212a
    then b'k'
    else if c == 0x17f
    then b's'
    else c

-- The expression matches at the start of the text.
unfoldable pub matches_here : List Piece → List ℕ → Bool
unfolding fold
matches_here [] text = true
matches_here (Piece.letter p ∷ ps) [] = false
matches_here (Piece.letter p ∷ ps) (c ∷ text) = fold c == fold p && matches_here ps text
matches_here (Piece.any_optional ∷ ps) [] = matches_here ps []
matches_here (Piece.any_optional ∷ ps) (c ∷ text) =
    (not (c == b'\n') && matches_here ps text) || matches_here ps (c ∷ text)
matches_here (Piece.optional p ∷ ps) [] = matches_here ps []
matches_here (Piece.optional p ∷ ps) (c ∷ text) =
    (fold c == fold p && matches_here ps text) || matches_here ps (c ∷ text)

unfoldable pub matches : List Piece → List ℕ → Bool
unfolding matches_here
matches ps [] = matches_here ps []
matches ps (c ∷ text) = matches_here ps (c ∷ text) || matches ps text

-- One of the alternatives matches.
unfoldable pub matches_any : List (List Piece) → List ℕ → Bool
unfolding matches
matches_any [] text = false
matches_any (p ∷ ps) text = matches p text || matches_any ps text

-- An alternative as the source spells it: `.?` stands for any code point or none, a letter with `?`
-- behind it for that letter or none.
unfoldable pub pattern_of : List ℕ → List Piece
pattern_of [] = []
pattern_of (c ∷ []) = Piece.letter c ∷ []
pattern_of (c ∷ d ∷ rest) =
    let after = pattern_of rest in
    let next = pattern_of (d ∷ rest) in
    if d == b'?'
    then (if c == b'.' then Piece.any_optional else Piece.optional c) ∷ after
    else Piece.letter c ∷ next

abbrev pub patterns : List String → List (List Piece)
patterns [] = []
patterns (s ∷ ss) = pattern_of (codes s) ∷ patterns ss

-- `nonRetryableProviderLimitErrorPattern`
abbrev pub non_retryable_limit_patterns : List String
non_retryable_limit_patterns =
    "GoUsageLimitError" ∷ "FreeUsageLimitError" ∷ "Monthly usage limit reached"
    ∷ "available balance" ∷ "insufficient_quota" ∷ "out of budget" ∷ "quota exceeded" ∷ "billing"
    ∷ []

abbrev pub retryable_status_code_patterns : List String
retryable_status_code_patterns = "429" ∷ "500" ∷ "502" ∷ "503" ∷ "504" ∷ "524" ∷ []

abbrev pub transient_provider_error_patterns : List String
transient_provider_error_patterns =
    "overloaded" ∷ "rate.?limit" ∷ "too many requests" ∷ "service.?unavailable" ∷ "server.?error"
    ∷ "internal.?error" ∷ "provider.?returned.?error" ∷ "network.?error" ∷ "connection.?error"
    ∷ "connection.?refused" ∷ "connection.?lost" ∷ "other side closed" ∷ "fetch failed"
    ∷ "upstream.?connect" ∷ "reset before headers" ∷ "socket hang up" ∷ "timed? out" ∷ "timeout"
    ∷ "terminated" ∷ "websocket.?closed" ∷ "websocket.?error" ∷ "ended without"
    ∷ "stream ended before message_stop" ∷ "http2 request did not get a response" ∷ "retry delay"
    ∷ "you can retry your request" ∷ "try your request again" ∷ "please retry your request" ∷ []

-- `IsNonRetryableProviderLimitError`
unfoldable pub is_limit_error : String → Bool
unfolding matches_any pattern_of
is_limit_error text = matches_any (patterns non_retryable_limit_patterns) (codes text)

-- `IsTransientProviderErrorText`
unfoldable pub is_transient_text : String → Bool
unfolding matches_any pattern_of
is_transient_text text = matches_any (patterns transient_provider_error_patterns) (codes text)

-- `retryableProviderErrorPattern`
unfoldable pub is_retryable_text : String → Bool
unfolding matches_any pattern_of
is_retryable_text text =
    matches_any (patterns (retryable_status_code_patterns ++ transient_provider_error_patterns))
      (codes text)

abbrev is_error : StopReason → Bool
is_error StopReason.error = true
is_error _ = false

-- `IsRetryableAssistantError`
unfoldable pub is_retryable_assistant_error : AssistantMessage → Bool
is_retryable_assistant_error m =
    if not (is_error m.stop_reason) || m.error_message =ₛ ""
    then false
    else if is_limit_error m.error_message
    then false
    else is_retryable_text m.error_message
