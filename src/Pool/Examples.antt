-- ===== src/Pool/Examples.antt =====
-- Runs of backend/src/services/channelAccountPool.js.
use cross_border_payment_app.Pool.{
  Account, Round, Turn, try_acquire, wait, acquire, exhausted, get_pool_stats, release,
  fund_channel_pool,
}
use cross_border_payment_app.Pool.Exclusion.{
  hold, here, next, takes, IsExclusive, Reach-IsExclusive,
}
use cross_border_payment_app.Base.{
  ℕ, ◌+◌, ◌≡◌, refl, true, false, some, List, [], ◌∷◌, arith, ◌==◌, with_status, ok,
}

abbrev account : ℕ → Account
account i = record { id = i; stellar_address = i + 100; readable = true; is_available = true }

abbrev two : List Account
two = account 1 ∷ account 2 ∷ []

abbrev quiet : Round
quiet = record { answered = true; locked = λ i. false; took = 3 }

-- Another worker is taking the first account.
abbrev busy : Round
busy = record quiet { locked = λ i. i == 1 }

abbrev alone : ℕ → Turn
alone n = record { round = quiet; before = λ pool. pool }

takes_first : (try_acquire quiet two).0 ≡ some 101
unfolding try_acquire
takes_first = refl

skips_locked : (try_acquire busy two).0 ≡ some 102
unfolding try_acquire
skips_locked = refl

waits_out : (acquire alone 500 []).0 ≡ exhausted (with_status 503)
unfolding acquire wait try_acquire
waits_out = refl

stats : get_pool_stats (release 101 (try_acquire quiet two).1) ≡ (2, 2)
unfolding get_pool_stats release try_acquire
stats = refl

funded :
    (fund_channel_pool 3 ((3, 103) ∷ (4, 104) ∷ []) (ok tt) two)
    ≡ (ok 1, account 1 ∷ account 2 ∷ account 3 ∷ [])
unfolding fund_channel_pool
funded = refl

two-IsExclusive : IsExclusive (record { pool = two; holders = [] })
two-IsExclusive x = (ground arith, ground arith)

Reach-IsExclusive_example :
    IsExclusive
      (record { pool = (try_acquire quiet two).1; holders = hold (try_acquire quiet two).0 [] })
Reach-IsExclusive_example = Reach-IsExclusive (next here (takes quiet)) two-IsExclusive
