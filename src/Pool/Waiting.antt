-- ===== src/Pool/Waiting.antt =====
-- The wait for an account in backend/src/services/channelAccountPool.js ends.
use cross_border_payment_app.Pool.{
  Ended, poll_interval, exhausted, out_of_fuel, can_take, acquired, Account, try_acquire, Turn,
  wait, acquire,
}
use cross_border_payment_app.Base.{
  ℕ, zero, suc, ◌+◌, ◌*◌, ◌/◌, ◌≤◌, ◌<◌, ◌≡◌, refl, ◌≢◌, ◌⊎◌, inl, inr, true, false, some, List,
  arith, ltb, Bool-cases, Option-cases, find_where, Error,
}

-- Enough fuel: each round takes at least the interval of the polls.
wait-ends :
    (rounds : ℕ → Turn) (timeout k n elapsed : ℕ) (pool : List Account)
    → timeout ≤ elapsed + k * 200
    → (wait rounds timeout (suc k) n elapsed pool).0 ≢ out_of_fuel
unfolding wait
wait-ends rounds timeout zero n elapsed pool h =
    let over : ltb elapsed timeout ≡ false = ground arith in rw (wait, over) (λ e. ground arith)
wait-ends rounds timeout (suc k) n elapsed pool h = elim (Bool-cases (ltb elapsed timeout)) [
  | inr over ↦ rw (wait, over) (λ e. ground arith)
  | inl waiting ↦
      let r = (rounds n).round in
      let tried = try_acquire r ((rounds n).before pool) in
      elim (Option-cases tried.0) [
        | inl nothing ↦
            rw (wait, waiting, nothing)
              (wait-ends rounds timeout k (suc n) (elapsed + r.took + poll_interval) tried.1
                (omega arith))
        | inr (address, found) ↦ rw (wait, waiting, found) (λ e. ground arith)
      ]
]

-- The wait for an account ends with an account or with the error 503, whatever the database answers and
-- however long it takes.
pub acquire-ends :
    (rounds : ℕ → Turn) (timeout : ℕ) (pool : List Account)
    → ((address : ℕ) × ((acquire rounds timeout pool).0 ≡ acquired address))
      ⊎ ((e : Error) × ((acquire rounds timeout pool).0 ≡ exhausted e))
unfolding acquire
acquire-ends rounds timeout pool =
    ended (acquire rounds timeout pool).0
      (wait-ends rounds timeout (timeout / poll_interval + 1) 0 0 pool (omega arith))
  where
    ended :
        (x : Ended)
        → x ≢ out_of_fuel
        → ((address : ℕ) × (x ≡ acquired address)) ⊎ ((e : Error) × (x ≡ exhausted e))
    ended (acquired address) h = inl (address, refl)
    ended (exhausted e) h = inr (e, refl)
    ended out_of_fuel h = absurd (h refl)

-- A round that is answered finds an account whenever one is available and not locked by another, so that
-- a wait that begins with such a pool gives an account at once; unless its secret cannot be read.
pub acquire-now :
    (rounds : ℕ → Turn) (timeout : ℕ) (pool : List Account) (a : Account)
    → 0 < timeout
    → (rounds 0).round.answered ≡ true
    → find_where (can_take (rounds 0).round) ((rounds 0).before pool) ≡ some a
    → a.readable ≡ true
    → (acquire rounds timeout pool).0 ≡ acquired a.stellar_address
unfolding acquire wait try_acquire
acquire-now rounds timeout pool a some_time up found readable =
    let waiting : ltb 0 timeout ≡ true = ground arith in
    rw (acquire, wait, waiting, try_acquire, up, found, readable) refl
