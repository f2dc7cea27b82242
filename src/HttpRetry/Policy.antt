-- ===== src/HttpRetry/Policy.antt =====
-- The retry of a request and the retry of a turn, one beside the other.
use kern_proxy.Base.{ℕ, ◌≡◌, refl, true, false, String, ◌=ₛ◌, eq_iff, arith, Bool-cases, inl, inr}
use kern_proxy.Messages.{AssistantMessage, StopReason}
use kern_proxy.Retry.{is_transient_text, is_retryable_assistant_error}
use kern_proxy.Retry.Classes.{retryable-of_transient}
use kern_proxy.HttpRetry.{is_retryable}

transient-nonempty : (s : String) → is_transient_text s ≡ true → (s =ₛ "") ≡ false
transient-nonempty s h =
    let none_in_empty : is_transient_text "" ≡ false = unfold is_transient_text in refl in
    elim (Bool-cases (s =ₛ "")) [ inl e ↦ let same : s ≡ "" = (eq_iff s "").0 e in cc | inr e ↦ e ]

-- The request-level and the turn-level policy agree on what is transient: for a text that names a
-- transient failure, with any status code, the request is retried just if a turn that ended in an
-- error with that text is.
pub is_retryable-agrees :
    (status_code : ℕ) (m : AssistantMessage)
    → m.stop_reason ≡ StopReason.error
    → is_transient_text m.error_message ≡ true
    → is_retryable status_code m.error_message ≡ is_retryable_assistant_error m
unfolding is_retryable is_retryable_assistant_error
is_retryable-agrees status_code m failed transient =
    let nonempty = transient-nonempty m.error_message transient in
    let retryable = retryable-of_transient m.error_message transient in
    simp (failed, nonempty, retryable, transient) (ground arith)
