-- ===== src/Pool.antt =====
-- The pool of channel accounts: backend/src/services/channelAccountPool.js, over the table
-- channel_accounts. Times are in milliseconds; addresses stand as numbers.
pub mod Exclusion
pub mod Waiting
mod Examples
use cross_border_payment_app.Base.{
  ℕ, zero, suc, ◌+◌, ◌-◌, ◌/◌, Bool, true, false, ◌&&◌, not, Option, none, some, List, [], ◌∷◌,
  ◌++◌, ltb, ◌==◌, if◌then◌else◌, length, find_where, count_where, update_where, Error, Result,
  with_status, ok, err,
}

-- `readable` says whether the secret of the account can be decrypted.
pub record Account : Type 0 where
  pub id : ℕ
  pub stellar_address : ℕ
  pub readable : Bool
  pub is_available : Bool

-- One round of the loop: whether the database answers, which rows others have locked, and how long it
-- takes.
pub record Round : Type 0 where
  pub answered : Bool
  pub locked : ℕ → Bool
  pub took : ℕ

abbrev pub poll_interval : ℕ
poll_interval = 200

abbrev pub with_id : ℕ → Account → Bool
with_id i a = a.id == i

abbrev pub with_address : ℕ → Account → Bool
with_address x a = a.stellar_address == x

-- `SELECT … WHERE is_available LIMIT 1 FOR UPDATE SKIP LOCKED`
abbrev pub can_take : Round → Account → Bool
can_take r a = a.is_available && not (r.locked a.id)

abbrev pub take_row : Account → Account
take_row a = record a { is_available = false }

-- A round gives the address of an account, or nothing. An account whose secret cannot be decrypted is
-- taken all the same: the transaction is committed before.
pub try_acquire : Round → List Account → Option ℕ × List Account
try_acquire r pool = if not r.answered then (none, pool) else elim (find_where (can_take r) pool) [
  | none ↦ (none, pool)
  | some a ↦ (
    if a.readable then some a.stellar_address else none,
    update_where (with_id a.id) take_row pool,
  )
]

-- What a wait ends with, on fuel: an address, or the error 503 after the time is over.
pub data Ended : Type 0 where
  acquired : ℕ → Ended
  exhausted : Error → Ended
  out_of_fuel : Ended

-- `rounds` are the rounds by their number, with what other workers do to the pool before each.
pub record Turn : Type 0 where
  pub round : Round
  pub before : List Account → List Account

pub wait : (ℕ → Turn) → ℕ → ℕ → ℕ → ℕ → List Account → Ended × List Account
unfolding try_acquire
wait rounds timeout zero n elapsed pool = (out_of_fuel, pool)
wait rounds timeout (suc k) n elapsed pool = elim (ltb elapsed timeout) [
  | false ↦ (exhausted (with_status 503), pool)
  | true ↦
      let r = (rounds n).round in
      let (found, pool2) = try_acquire r ((rounds n).before pool) in
      elim found [
        | some address ↦ (acquired address, pool2)
        | none ↦ wait rounds timeout k (suc n) (elapsed + r.took + poll_interval) pool2
      ]
]

pub acquire : (ℕ → Turn) → ℕ → List Account → Ended × List Account
unfolding wait
acquire rounds timeout pool = wait rounds timeout (suc (timeout / poll_interval + 1)) 0 0 pool

-- `get_pool_stats`: the available accounts, and all of them
pub get_pool_stats : List Account → ℕ × ℕ
get_pool_stats pool = (count_where (λ a. a.is_available) pool, length pool)

abbrev pub free_row : Account → Account
free_row a = record a { is_available = true }

pub release : ℕ → List Account → List Account
release address pool = update_where (with_address address) free_row pool

-- The rows that `fundChannelPool` inserts once the network has funded the addresses: as many as are
-- missing. The key pairs that it draws are given.
abbrev pub insert_accounts : ℕ → List (ℕ × ℕ) → List Account → List Account
insert_accounts zero keys pool = pool
insert_accounts (suc n) [] pool = pool
insert_accounts (suc n) ((i, address) ∷ keys) pool = insert_accounts n keys (
    pool ++ record { id = i; stellar_address = address; readable = true; is_available = true } ∷ [])

pub fund_channel_pool :
    ℕ → List (ℕ × ℕ) → Result (Unit {0}) → List Account → Result ℕ × List Account
fund_channel_pool pool_size keys funded pool =
    let needed = pool_size - length pool in
    if needed == 0 then (ok 0, pool) else elim funded [
      | err e ↦ (err e, pool)
      | ok _ ↦ (ok needed, insert_accounts needed keys pool)
    ]
