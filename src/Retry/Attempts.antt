-- ===== src/Retry/Attempts.antt =====
-- How often backend/src/utils/retry.js calls, how long it waits, and what it gives.
use mathlib.Core.Path.{subst}
unfoldable use native.Mathlib.Decide.{ℕ_discrete}
use cross_border_payment_app.Retry.{
  HttpError, Outcome, done, failed, is_retryable, is_429, backoff, delay_of, Run, waited, loop,
  retry_with_backoff, max_delay_ms,
}
use cross_border_payment_app.Base.{
  ℕ, zero, suc, ◌+◌, ◌≤◌, ◌<◌, ◌≡◌, refl, sym, ap, ◌⊎◌, inl, inr, true, false, ◌||◌, not, Option,
  none, some, [], arith, ltb, Bool-cases, Option-cases, length, All,
}

module _ {A : Type 0} (fn : ℕ → Outcome A) (jitter : ℕ → ℕ) (max_retries base_delay : ℕ) where
  -- Why the last call was the last: it succeeded, it cannot be retried, or the retries are used up.
  abbrev pub IsLast : ℕ → Outcome A → Type 0
  IsLast k (done a) = Unit {0}
  IsLast k (failed e) = (is_retryable e ≡ false) ⊎ (max_retries ≤ k)

  -- Why a call was followed by another: it failed with an error that can be retried.
  abbrev pub IsRetried : Outcome A → Type 0
  IsRetried (done a) = ⊥
  IsRetried (failed e) = is_retryable e ≡ true

  -- The run ends: it gives what call number `last` gave, having made the calls before it, all of
  -- which failed with an error that can be retried.
  pub record IsRun (start : ℕ) (r : Run A) : Type 0 where
    pub last : ℕ
    pub from_start : start ≤ last
    pub within : last ≤ max_retries
    pub counted : r.calls + start ≡ last + 1
    pub waits : length r.delays + start ≡ last
    pub answer : r.result ≡ some (fn last)
    pub is_last : IsLast last (fn last)
    pub retried : (k : ℕ) → start ≤ k → k < last → IsRetried (fn k)

  stop_here :
      (attempt : ℕ) (r : Run A)
      → attempt ≤ max_retries
      → r.calls ≡ 1
      → r.delays ≡ []
      → r.result ≡ some (fn attempt)
      → IsLast attempt (fn attempt)
      → IsRun attempt r
  stop_here attempt r le c d a l = record {
    last = attempt;
    from_start = omega arith;
    within = le;
    counted = omega arith;
    waits = rw d (omega arith);
    answer = a;
    is_last = l;
    retried = λ k from before. absurd (omega arith);
  }

  go_on :
      (attempt d : ℕ) (r : Run A)
      → IsRetried (fn attempt)
      → IsRun (attempt + 1) r
      → IsRun attempt (waited fn jitter max_retries base_delay d r)
  go_on attempt d r again w = record {
    last = w.last;
    from_start = omega (arith, w.from_start);
    within = w.within;
    counted = omega (arith, w.counted);
    waits = omega (arith, w.waits);
    answer = w.answer;
    is_last = w.is_last;
    retried = λ k from before. elim (ℕ_discrete attempt k) [
      | yes same ↦ subst (λ j. IsRetried (fn j)) same again
      | no other ↦ w.retried k (ground (arith, other)) before
    ];
  }

  loop-IsRun :
      (fuel attempt : ℕ)
      → max_retries + 1 ≡ fuel + attempt
      → attempt ≤ max_retries
      → IsRun attempt (loop fn jitter max_retries base_delay fuel attempt)
  unfolding loop
  loop-IsRun zero attempt e le = absurd (omega arith)
  loop-IsRun (suc fuel) attempt e le = go (loop-IsRun fuel (attempt + 1)) (fn attempt) refl
    where
      go :
          (max_retries + 1 ≡ fuel + (attempt + 1)
            → attempt + 1 ≤ max_retries
            → IsRun (attempt + 1) (loop fn jitter max_retries base_delay fuel (attempt + 1)))
          → (o : Outcome A) → fn attempt ≡ o
          → IsRun attempt (loop fn jitter max_retries base_delay (suc fuel) attempt)
      go ih (done a) q = rw (q, loop) (stop_here attempt _ le refl refl (ap some (sym q)) (rw q tt))
      go ih (failed x) q =
          elim (Bool-cases (ltb max_retries (attempt + 1) || not (is_retryable x))) [
            | inl stop ↦
                rw (q, loop, stop)
                  (stop_here attempt _ le refl refl (ap some (sym q)) (rw q (ground arith)))
            | inr more ↦
                rw (q, loop, more)
                  (go_on attempt _ _ (rw q (ground arith)) (ih (omega arith) (ground arith)))
          ]

  -- A run of the retries always ends, after at most one call more than the retries. It gives what its
  -- last call gave, and that call succeeded, or failed with an error that cannot be retried, or was
  -- the last that was left; each call before it failed with an error that can be retried, and was
  -- followed by one delay.
  pub retry_with_backoff-IsRun : IsRun 0 (retry_with_backoff fn jitter max_retries base_delay)
  unfolding retry_with_backoff
  retry_with_backoff-IsRun = loop-IsRun (max_retries + 1) 0 (omega arith) (omega arith)

-- A delay of at most ten seconds, or one that a 429 answer asked for by its Retry-After.
abbrev pub IsDelay : ℕ → Type 0
IsDelay d =
    (d ≤ max_delay_ms) ⊎ ((e : HttpError) × (e.status ≡ some 429) × (e.retry_after_ms ≡ some d))

backoff_le : (base jitter attempt : ℕ) → backoff base jitter attempt ≤ max_delay_ms
unfolding backoff
backoff_le base jitter attempt = omega arith

is_429_eq : (o : Option ℕ) → is_429 o ≡ true → o ≡ some 429
is_429_eq none h = cc
is_429_eq (some n) h = ground arith

delay_of-IsDelay :
    (base jitter attempt : ℕ) (e : HttpError) → IsDelay (delay_of base jitter e attempt)
unfolding delay_of
delay_of-IsDelay base jitter attempt e = elim (Bool-cases (is_429 e.status)) [
  | inl limited ↦ elim (Option-cases e.retry_after_ms) [
    | inl missing ↦ inl (rw (limited, delay_of, missing) (backoff_le base jitter attempt))
    | inr (ms, given) ↦ inr (e, is_429_eq e.status limited, rw (limited, delay_of, given) refl)
  ]
  | inr free ↦ inl (rw (free, delay_of) (backoff_le base jitter attempt))
]

module _ {A : Type 0} (fn : ℕ → Outcome A) (jitter : ℕ → ℕ) (max_retries base_delay : ℕ) where
  loop-IsDelay :
      (fuel attempt : ℕ) → All IsDelay (loop fn jitter max_retries base_delay fuel attempt).delays
  unfolding loop
  loop-IsDelay zero attempt = tt
  loop-IsDelay (suc fuel) attempt = go (loop-IsDelay fuel (attempt + 1)) (fn attempt) refl
    where
      go :
          All IsDelay (loop fn jitter max_retries base_delay fuel (attempt + 1)).delays
          → (o : Outcome A) → fn attempt ≡ o
          → All IsDelay (loop fn jitter max_retries base_delay (suc fuel) attempt).delays
      go ih (done a) q = rw (q, loop) tt
      go ih (failed x) q =
          elim (Bool-cases (ltb max_retries (attempt + 1) || not (is_retryable x))) [
            | inl stop ↦ rw (q, loop, stop) tt
            | inr more ↦
                rw (q, loop, more)
                  (delay_of-IsDelay base_delay (jitter attempt) (attempt + 1) x, ih)
          ]

  -- Every delay of a run is at most ten seconds, or what a 429 answer asked for by its Retry-After.
  pub retry_with_backoff-IsDelay :
      All IsDelay (retry_with_backoff fn jitter max_retries base_delay).delays
  unfolding retry_with_backoff
  retry_with_backoff-IsDelay = loop-IsDelay (max_retries + 1) 0
