-- ===== src/Retry.antt =====
-- Retries with exponential backoff: backend/src/utils/retry.js. The function that is called, the jitter
-- and the reading of Retry-After are arguments; delays are in milliseconds.
pub mod Attempts
mod Examples
use cross_border_payment_app.Base.{
  ℕ, zero, suc, ◌+◌, ◌-◌, ◌*◌, ◌^◌, min, Bool, true, false, ◌||◌, not, Option, none, some, List, [],
  ◌∷◌, ltb, ◌==◌, if◌then◌else◌,
}

-- What the module reads of an error: the status, the transaction's result code, and the delay that
-- `retryAfterMs` finds in the headers.
pub record HttpError : Type 0 where
  pub status : Option ℕ
  pub tx_code : Option ℕ
  pub retry_after_ms : Option ℕ

pub data Outcome (A : Type 0) : Type 0 where
  done : A → Outcome A
  failed : HttpError → Outcome A

-- The codes of NON_RETRIABLE_TX_CODES, in the order of the source.
abbrev pub is_non_retriable : ℕ → Bool
is_non_retriable code = ltb code 6

abbrev pub is_retryable_status : ℕ → Bool
is_retryable_status n = (n == 429) || (n == 503) || (n == 504)

abbrev pub blocks_retry : Option ℕ → Bool
blocks_retry none = false
blocks_retry (some code) = is_non_retriable code

-- A status of 0 is no status.
pub is_retryable : HttpError → Bool
is_retryable e = elim e.status [
  | none ↦ true
  | some n ↦
      if n == 0 then true else if blocks_retry e.tx_code then false else is_retryable_status n
]

abbrev pub max_delay_ms : ℕ
max_delay_ms = 10000

pub backoff : ℕ → ℕ → ℕ → ℕ
backoff base_delay jitter attempt = min (base_delay * 2 ^ (attempt - 1) + jitter) max_delay_ms

abbrev pub is_429 : Option ℕ → Bool
is_429 none = false
is_429 (some n) = n == 429

-- `attempt` counts from 1 when the delay is computed.
pub delay_of : ℕ → ℕ → HttpError → ℕ → ℕ
unfolding backoff
delay_of base_delay jitter e attempt =
    if is_429 e.status
    then elim e.retry_after_ms [ some ms ↦ ms | none ↦ backoff base_delay jitter attempt ]
    else backoff base_delay jitter attempt

-- The result, how often the function was called, and the delays in between.
pub record Run (A : Type 0) : Type 0 where
  pub result : Option (Outcome A)
  pub calls : ℕ
  pub delays : List ℕ

module _ {A : Type 0} (fn : ℕ → Outcome A) (jitter : ℕ → ℕ) (max_retries base_delay : ℕ) where
  abbrev pub waited : ℕ → Run A → Run A
  waited d r = record r { calls = r.calls + 1; delays = d ∷ r.delays }

  -- The loop, with `attempt` failures so far; `none` in the result is that the fuel ran out.
  pub loop : ℕ → ℕ → Run A
  unfolding is_retryable delay_of
  loop zero attempt = record { result = none; calls = 0; delays = [] }
  loop (suc fuel) attempt =
      let rest = loop fuel (attempt + 1) in
      elim (fn attempt) [
        | done a ↦ record { result = some (done a); calls = 1; delays = [] }
        | failed e ↦
            if ltb max_retries (attempt + 1) || not (is_retryable e)
            then record { result = some (failed e); calls = 1; delays = [] }
            else waited (delay_of base_delay (jitter attempt) e (attempt + 1)) rest
      ]

  pub retry_with_backoff : Run A
  unfolding loop
  retry_with_backoff = loop (max_retries + 1) 0

-- `withRetry`, with its `maxAttempts`
pub with_retry : {A : Type 0} → (ℕ → Outcome A) → (ℕ → ℕ) → ℕ → Run A
unfolding retry_with_backoff
with_retry fn jitter max_attempts = retry_with_backoff fn jitter (max_attempts - 1) 1000
