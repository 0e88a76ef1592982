-- ===== src/Loyalty/Examples.antt =====
-- Runs of the loyalty queue, and its theorems at concrete inputs.
use cross_border_payment_app.Loyalty.{
  estimate_xlm_equivalent, Job, State, runs, Config, new_job, process_loyalty_mint_queue,
  process_slot, enqueue_mint,
}
use cross_border_payment_app.Loyalty.Once.{
  Reach, start, slot_step, enqueue_step, times_minted, minted_at_most_once,
}
use cross_border_payment_app.Loyalty.Attempts.{recorded}
use cross_border_payment_app.Base.{ℕ, ◌≤◌, ◌≡◌, refl, Bool, true, [], ◌∷◌, arith, xlm}

-- The default of 0.11 dollars for a lumen, and a least payment of one lumen.
abbrev config : Config
config = record { xlm_usd_rate = 1100000; min_payment = 10000000 }

abbrev all_completed : ℕ → Bool
all_completed i = true

abbrev empty : State
empty = record { jobs = []; tx_completed = all_completed; mints = []; loyalty_points = [] }

-- A payment of 25 lumens
abbrev job : Job
job = new_job 1 2 3 250000000 xlm

abbrev enqueued : State
enqueued = record empty { jobs = job ∷ [] }

-- 25 points for 25 lumens; a payment of 0.5 lumens earns none.
points :
    (process_loyalty_mint_queue config (runs recorded ∷ []) enqueued).mints
    ≡ record { job_id = 1; wallet = 3; points = 25 } ∷ []
unfolding process_loyalty_mint_queue
points = refl

dust :
    (process_loyalty_mint_queue config
      (runs recorded ∷ [])
      (record empty { jobs = new_job 1 2 3 5000000 xlm ∷ [] })).mints
    ≡ []
unfolding process_loyalty_mint_queue
dust = refl

enqueued_twice : enqueue_mint 1 2 3 250000000 xlm enqueued ≡ enqueued
unfolding enqueue_mint
enqueued_twice = refl

reached_trusted :
    Reach true config (process_slot config (runs recorded) (enqueue_mint 1 2 3 250000000 xlm empty))
reached_trusted =
    slot_step recorded (enqueue_step 1 2 3 250000000 xlm (start all_completed)) (λ h. refl)

minted_at_most_once_example :
    let s = process_slot config (runs recorded) (enqueue_mint 1 2 3 250000000 xlm empty) in
    (times_minted 1 s ≤ 1) × (s.loyalty_points ≡ s.mints)
minted_at_most_once_example = minted_at_most_once config 1 reached_trusted

enough : config.min_payment ≤ estimate_xlm_equivalent config job.amount job.asset
unfolding estimate_xlm_equivalent
enough = omega arith
