-- ===== src/Loyalty/Attempts.antt =====
-- The attempts at the oldest job of the queue of backend/src/jobs/loyaltyMintJob.js.
use cross_border_payment_app.Loyalty.{
  pending, failed, Job, State, minted, thrown, Events, runs, Config, estimate_xlm_equivalent,
  is_pending, with_id, claim_next_job, mint_failed, mint_job, process_job, process_slot,
  process_loyalty_mint_queue,
}
use cross_border_payment_app.Loyalty.Once.{times_minted}
use cross_border_payment_app.Base.{
  ◌+◌, ◌≤◌, ◌<◌, ◌≡◌, true, false, some, List, [], ◌∷◌, arith, length, find_where,
}

abbrev pub head_of : Job → List Job → State → State
head_of j rest s = record s { jobs = j ∷ rest }

-- The contract refuses, and the database answers.
abbrev pub refusal : Events
refusal = record {
  mint = thrown false;
  update_fails = false;
  insert_fails = false;
  requeue_fails = false;
}

-- The tokens are minted and the job is completed, but the row of loyalty_points is not written.
abbrev pub unrecorded : Events
unrecorded = record {
  mint = minted;
  update_fails = false;
  insert_fails = true;
  requeue_fails = false;
}

abbrev pub recorded : Events
recorded = record {
  mint = minted;
  update_fails = false;
  insert_fails = false;
  requeue_fails = false;
}

-- The oldest job of the queue, new, with a completed payment that reaches the minimum, is tried
-- three times when the contract refuses it and mints nothing: after two slots it is pending with a
-- count of 4, after three it has failed with a count of 5. Each attempt but the last counts twice.
pub three_attempts :
    (c : Config) (j : Job) (rest : List Job) (s : State)
    → is_pending j.status ≡ true
    → s.tx_completed j.id ≡ true
    → j.retry_count ≡ 0
    → c.min_payment ≤ estimate_xlm_equivalent c j.amount j.asset
    → let two =
        process_loyalty_mint_queue c (runs refusal ∷ runs refusal ∷ []) (head_of j rest s) in
      let three = process_slot c (runs refusal) two in
      (find_where (with_id j.id) two.jobs ≡ some (record j { status = pending; retry_count = 4 }))
      × (find_where (with_id j.id) three.jobs
          ≡ some (record j { status = failed; retry_count = 5 }))
      × (three.mints ≡ s.mints)
unfolding process_loyalty_mint_queue process_slot claim_next_job process_job mint_job mint_failed
three_attempts c j rest s p tx r0 enough = (ground arith, ground arith, ground arith)

-- A mint that is not recorded is done again: when the row of loyalty_points cannot be written for
-- the oldest job, which has a count below 3 and a completed payment that reaches the minimum, and
-- all goes well in the next slot, then its points are minted twice, and the ledger has them once.
pub minted_twice :
    (c : Config) (j : Job) (rest : List Job) (s : State)
    → is_pending j.status ≡ true
    → s.tx_completed j.id ≡ true
    → j.retry_count < 3
    → c.min_payment ≤ estimate_xlm_equivalent c j.amount j.asset
    → let s' =
        process_loyalty_mint_queue c (runs unrecorded ∷ runs recorded ∷ []) (head_of j rest s) in
      (times_minted j.id s' ≡ times_minted j.id s + 2)
      × (length s'.loyalty_points ≡ length s.loyalty_points + 1)
unfolding process_loyalty_mint_queue process_slot claim_next_job process_job mint_job mint_failed
minted_twice c j rest s p tx few enough = (ground arith, ground arith)
