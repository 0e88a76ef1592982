-- ===== src/Retry/Examples.antt =====
-- Runs of the retries, and their theorems at concrete inputs.
use cross_border_payment_app.Retry.{
  HttpError, Outcome, done, failed, retry_with_backoff, with_retry,
}
use cross_border_payment_app.Retry.Attempts.{IsRun, retry_with_backoff-IsRun}
use cross_border_payment_app.Base.{ℕ, ◌≡◌, refl, none, some, [], ◌∷◌, ltb, if◌then◌else◌}

abbrev busy : HttpError
busy = record { status = some 503; tx_code = none; retry_after_ms = none }

-- Busy twice, then an answer.
abbrev third_time : ℕ → Outcome ℕ
third_time k = if ltb k 2 then failed busy else done k

abbrev no_jitter : ℕ → ℕ
no_jitter k = 0

third_time_run :
    with_retry third_time no_jitter 3
    ≡ record { result = some (done 2); calls = 3; delays = 1000 ∷ 2000 ∷ [] }
unfolding with_retry
third_time_run = refl

given_up : (retry_with_backoff third_time no_jitter 1 500).result ≡ some (failed busy)
unfolding retry_with_backoff
given_up = refl

retry_with_backoff-IsRun_example :
    IsRun third_time no_jitter 3 500 0 (retry_with_backoff third_time no_jitter 3 500)
retry_with_backoff-IsRun_example = retry_with_backoff-IsRun third_time no_jitter 3 500
