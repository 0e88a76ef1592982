-- ===== src/Loyalty.antt =====
-- The queue of loyalty mints: backend/src/jobs/loyaltyMintJob.js and
-- backend/src/services/loyaltyMintQueue.js. Amounts are in units of 10^-7; what the contract and the
-- database answer in a slot is an argument of the slot.
pub mod Effects
pub mod Attempts
pub mod Once
mod Examples
use cross_border_payment_app.Base.{
  ℕ, ◌+◌, ◌*◌, ◌/◌, Bool, true, false, ◌&&◌, Option, none, some, List, [], ◌∷◌, ◌++◌, ltb, ◌==◌,
  if◌then◌else◌, find_where, update_where, any, Asset, xlm,
}

pub data JobStatus : Type 0 where
  pending processing completed failed : JobStatus

pub record Job : Type 0 where
  pub id : ℕ
  pub user_id : ℕ
  pub sender_wallet : ℕ
  pub amount : ℕ
  pub asset : Asset
  pub status : JobStatus
  pub retry_count : ℕ

pub record Mint : Type 0 where
  pub job_id : ℕ
  pub wallet : ℕ
  pub points : ℕ

-- The rows of loyalty_mint_queue in the order of `created_at`, the payments whose transaction is
-- completed, the mints on the chain, and the rows of loyalty_points.
pub record State : Type 0 where
  pub jobs : List Job
  pub tx_completed : ℕ → Bool
  pub mints : List Mint
  pub loyalty_points : List Mint

-- `mintPoints` gives a transaction, or null when no contract is configured, or throws; when it throws the
-- tokens may have been minted all the same.
pub data MintOutcome : Type 0 where
  minted not_configured : MintOutcome
  thrown : Bool → MintOutcome

-- What happens in a slot: whether the update to 'completed', the insertion into loyalty_points and the
-- update in the `catch` fail.
pub record Events : Type 0 where
  pub mint : MintOutcome
  pub update_fails : Bool
  pub insert_fails : Bool
  pub requeue_fails : Bool

-- A slot runs, or its lock is held by another replica, or no client of the database is given.
pub data Slot : Type 0 where
  skipped : Slot
  runs : Events → Slot

pub record Config : Type 0 where
  pub xlm_usd_rate : ℕ
  pub min_payment : ℕ

abbrev pub one : ℕ
one = 10000000

pub estimate_xlm_equivalent : Config → ℕ → Asset → ℕ
estimate_xlm_equivalent c amount xlm = amount
estimate_xlm_equivalent c amount _ = amount * one / c.xlm_usd_rate

abbrev pub is_pending : JobStatus → Bool
is_pending pending = true
is_pending _ = false

abbrev pub with_id : ℕ → Job → Bool
with_id i j = j.id == i

abbrev pub is_claimable : (ℕ → Bool) → Job → Bool
is_claimable tx_completed j = is_pending j.status && tx_completed j.id

abbrev pub claim : Job → Job
claim j = record j { status = processing; retry_count = j.retry_count + 1 }

-- The job as it was selected, before the update.
pub claim_next_job : State → Option (Job × State)
claim_next_job s = elim (find_where (is_claimable s.tx_completed) s.jobs) [
  | none ↦ none
  | some j ↦ some (j, record s { jobs = update_where (with_id j.id) claim s.jobs })
]

abbrev pub complete : Job → Job
complete j = record j { status = completed }

abbrev pub requeue : Job → Job
requeue j = record j { status = pending; retry_count = j.retry_count + 1 }

abbrev pub fail : Job → Job
fail j = record j { status = failed }

abbrev pub update_job : ℕ → (Job → Job) → State → State
update_job i f s = record s { jobs = update_where (with_id i) f s.jobs }

-- The `catch`: the count is the one of the selected row.
pub mint_failed : Bool → Job → State → State
mint_failed fails j s =
    if fails
    then s
    else if ltb j.retry_count 3
    then update_job j.id requeue s
    else update_job j.id fail s

abbrev pub on_chain : Mint → State → State
on_chain m s = record s { mints = m ∷ s.mints }

abbrev pub in_ledger : Mint → State → State
in_ledger m s = record s { loyalty_points = m ∷ s.loyalty_points }

-- The `try` around the mint, with what its three writes come to.
pub mint_job : Events → Job → ℕ → State → State
unfolding mint_failed
mint_job e j points s =
    let m : Mint = record { job_id = j.id; wallet = j.sender_wallet; points = points } in
    elim e.mint [
      | thrown on ↦ mint_failed e.requeue_fails j (if on then on_chain m s else s)
      | not_configured ↦
          if e.update_fails then mint_failed e.requeue_fails j s else update_job j.id complete s
      | minted ↦
          if e.update_fails
          then mint_failed e.requeue_fails j (on_chain m s)
          else if e.insert_fails
          then mint_failed e.requeue_fails j (update_job j.id complete (on_chain m s))
          else in_ledger m (update_job j.id complete (on_chain m s))
    ]

-- A payment below the minimum is completed without a mint.
pub process_job : Config → Events → Job → State → State
unfolding estimate_xlm_equivalent mint_job
process_job c e j s =
    let xlm_equivalent = estimate_xlm_equivalent c j.amount j.asset in
    if ltb xlm_equivalent c.min_payment
    then (if e.update_fails then s else update_job j.id complete s)
    else mint_job e j (xlm_equivalent / one) s

pub process_slot : Config → Slot → State → State
unfolding claim_next_job process_job
process_slot c skipped s = s
process_slot c (runs e) s = elim (claim_next_job s) [
  | none ↦ s
  | some (j, s') ↦ process_job c e j s'
]

-- `processLoyaltyMintQueue`, once per slot
pub process_loyalty_mint_queue : Config → List Slot → State → State
unfolding process_slot
process_loyalty_mint_queue c [] s = s
process_loyalty_mint_queue c (slot ∷ slots) s =
    process_loyalty_mint_queue c slots (process_slot c slot s)

abbrev pub new_job : ℕ → ℕ → ℕ → ℕ → Asset → Job
new_job id user_id wallet amount asset = record {
  id = id;
  user_id = user_id;
  sender_wallet = wallet;
  amount = amount;
  asset = asset;
  status = pending;
  retry_count = 0;
}

-- `INSERT … ON CONFLICT DO NOTHING`
pub enqueue_mint : ℕ → ℕ → ℕ → ℕ → Asset → State → State
enqueue_mint id user_id wallet amount asset s =
    if any (with_id id) s.jobs
    then s
    else record s { jobs = s.jobs ++ new_job id user_id wallet amount asset ∷ [] }
