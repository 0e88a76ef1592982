-- ===== src/Savings.antt =====
-- The savings vaults of backend/src/controllers/savingsController.js and
-- backend/src/utils/savingsPenalty.js. Amounts are in units of 10^-7; before it is rounded, a penalty
-- is in units of 10^-11, in which it is exact.
pub mod Withdrawals
pub mod Locking
mod Examples
use cross_border_payment_app.Payment.{Balances, check_sufficient_balance}
use cross_border_payment_app.Base.{
  ℕ, ◌+◌, ◌-◌, ◌*◌, ◌⊎◌, inl, inr, Bool, true, false, ◌&&◌, not, Option, none, some, List, [], ◌∷◌,
  ltb, ◌==◌, if◌then◌else◌, find_where, select_where, update_where, any, Error, Result, plain_error,
  Reply, Asset, same_asset, ℤ, xlm, usdc, usd, other, ok, err, json, rejected, forwarded, pos,
  negsuc,
}

pub data Status : Type 0 where
  locked unlocked withdrawn : Status

-- A row of savings_vaults
pub record Vault : Type 0 where
  pub id : ℕ
  pub user_id : ℕ
  pub amount : ℕ
  pub asset : Asset
  pub lock_period_days : ℕ
  pub unlock_timestamp : ℕ
  pub status : Status
  pub early_withdrawal : Bool
  pub penalty_amount : ℕ

-- A payout that a caller is told of.
pub record Payout : Type 0 where
  pub vault_id : ℕ
  pub amount : ℕ
  pub payout : ℕ
  pub penalty : ℕ
  pub early_withdrawal : Bool

pub record State : Type 0 where
  pub vaults : List Vault
  pub payouts : List Payout

-- PENALTY_BPS, and `toFixed(7)` of so many units of 10^-11, which floating-point numbers hold: the
-- nearest number of units of 10^-7, and of two that are as near either one.
pub record Terms : Type 0 where
  pub bps : ℕ
  pub to_fixed : ℕ → ℕ

-- `calculateEarlyWithdrawalPenalty`, with PENALTY_BPS
pub calculate_early_withdrawal_penalty : ℕ → ℕ → ℕ
calculate_early_withdrawal_penalty bps amount = amount * bps

abbrev pub is_locked : Status → Bool
is_locked locked = true
is_locked unlocked = false
is_locked withdrawn = false

abbrev pub is_withdrawn : Status → Bool
is_withdrawn withdrawn = true
is_withdrawn locked = false
is_withdrawn unlocked = false

-- SUPPORTED_ASSETS
abbrev pub is_supported : Asset → Bool
is_supported xlm = true
is_supported usdc = true
is_supported usd = false
is_supported (other n) = false

abbrev pub is_lock_period : ℕ → Bool
is_lock_period d = any (λ p. p == d) (7 ∷ 30 ∷ 90 ∷ 180 ∷ 365 ∷ [])

-- `WHERE user_id = $1 AND asset = $2 AND status = 'locked'`
pub counts_for : ℕ → Asset → Vault → Bool
unfolding same_asset
counts_for user a v = v.user_id == user && same_asset v.asset a && is_locked v.status

-- `COALESCE(SUM(amount), 0)`
pub total_locked : ℕ → Asset → List Vault → ℕ
unfolding counts_for
total_locked user a [] = 0
total_locked user a (v ∷ vs) =
    (if counts_for user a v then v.amount else 0) + total_locked user a vs

-- The body of a request
pub record NewVault : Type 0 where
  pub amount : ℤ
  pub asset : Asset
  pub lock_period_days : ℕ

abbrev pub new_vault : ℕ → ℕ → ℕ → NewVault → ℕ → Vault
new_vault now i user q amount = record {
  id = i;
  user_id = user;
  amount = amount;
  asset = q.asset;
  lock_period_days = q.lock_period_days;
  unlock_timestamp = now + q.lock_period_days * 24 * 60 * 60;
  status = locked;
  early_withdrawal = false;
  penalty_amount = 0;
}

-- What the caller has: a wallet, if any, and its balances, unless the network fails to tell them.
pub record Holdings : Type 0 where
  pub has_wallet : Bool
  pub balances : Option Balances

-- The call of `checkSufficientBalance`
abbrev pub check_balance : Holdings → ℕ → Asset → Result (Unit {0})
check_balance h amount a = elim h.balances [
  | none ↦ err plain_error
  | some bs ↦ check_sufficient_balance bs amount a
]

-- A status of 400 is answered, any other error is passed on.
abbrev pub refusal : Error → Reply Vault
refusal e = elim e.status [
  | none ↦ forwarded e
  | some n ↦ if n == 400 then rejected 400 (elim e.code [ none ↦ "" | some c ↦ c ]) else forwarded e
]

-- What stands before the INSERT, with the sum that is locked: the amount, or the reply.
pub may_create : Holdings → NewVault → ℕ → (Reply Vault) ⊎ ℕ
may_create h q total = elim q.amount [
  | negsuc n ↦ inl (rejected 400 "")
  | pos amount ↦
      if amount == 0
      then inl (rejected 400 "")
      else if not (is_supported q.asset)
      then inl (rejected 400 "")
      else if not (is_lock_period q.lock_period_days)
      then inl (rejected 400 "")
      else if not h.has_wallet
      then inl (rejected 404 "")
      else elim (check_balance h (amount + total) q.asset) [
        | err e ↦ inl (refusal e)
        | ok x ↦ inr amount
      ]
]

-- The INSERT
abbrev pub insert_vault : Vault → State → State
insert_vault v s = record s { vaults = v ∷ s.vaults }

-- `create` up to its INSERT: the reply, or the row that is to be written.
pub begin_create : ℕ → Holdings → ℕ → ℕ → NewVault → State → (Reply Vault) ⊎ Vault
unfolding may_create total_locked
begin_create now h i user q s = elim (may_create h q (total_locked user q.asset s.vaults)) [
  | inl reply ↦ inl reply
  | inr amount ↦ inr (new_vault now i user q amount)
]

-- `create`, with nothing between its read of the sum and its INSERT
pub create : ℕ → Holdings → ℕ → ℕ → NewVault → State → Reply Vault × State
unfolding begin_create
create now h i user q s = elim (begin_create now h i user q s) [
  | inl reply ↦ (reply, s)
  | inr v ↦ (json v, insert_vault v s)
]

abbrev pub is_of : ℕ → Vault → Bool
is_of user v = v.user_id == user

-- `list`; the newest vault stands first in the table.
pub list : ℕ → State → Reply (List Vault)
list user s = json (select_where (is_of user) s.vaults)

abbrev pub with_id : ℕ → Vault → Bool
with_id i v = v.id == i

abbrev pub owned : ℕ → ℕ → Vault → Bool
owned i user v = v.id == i && v.user_id == user

-- The payout of a vault at a time. PENALTY_BPS is below 10000, so that the difference is exact.
pub payout_of : Terms → ℕ → Vault → Payout
unfolding calculate_early_withdrawal_penalty
payout_of terms now v =
    let early = ltb now v.unlock_timestamp in
    let penalty = if early then calculate_early_withdrawal_penalty terms.bps v.amount else 0 in
    record {
      vault_id = v.id;
      amount = v.amount;
      payout = terms.to_fixed (v.amount * 10000 - penalty);
      penalty = terms.to_fixed penalty;
      early_withdrawal = early;
    }

-- `getWithdrawQuote`, and the first part of `withdraw`, which is the same: the vault is read.
pub get_withdraw_quote : Terms → ℕ → ℕ → ℕ → State → Reply Payout
unfolding payout_of
get_withdraw_quote terms now user i s = elim (find_where (owned i user) s.vaults) [
  | none ↦ rejected 404 ""
  | some v ↦ if is_withdrawn v.status then rejected 400 "" else json (payout_of terms now v)
]

abbrev pub with_id_locked : ℕ → Vault → Bool
with_id_locked i v = v.id == i && is_locked v.status

-- The column of the penalty rounds to the nearest unit, as the reply does.
abbrev pub settled : Payout → Vault → Vault
settled p v = record v {
  status = withdrawn;
  early_withdrawal = p.early_withdrawal;
  penalty_amount = p.penalty;
}

-- The second part of `withdraw`: the conditional UPDATE, and the reply.
pub finish_withdraw : Payout → State → Reply Payout × State
finish_withdraw p s =
    if any (with_id_locked p.vault_id) s.vaults
    then (
      json p,
      record {
        vaults = update_where (with_id_locked p.vault_id) (settled p) s.vaults;
        payouts = p ∷ s.payouts;
      },
    )
    else (rejected 400 "", s)

-- `withdraw`, with nothing between its two parts
pub withdraw : Terms → ℕ → ℕ → ℕ → State → Reply Payout × State
unfolding get_withdraw_quote finish_withdraw
withdraw terms now user i s = elim (get_withdraw_quote terms now user i s) [
  | json p ↦ finish_withdraw p s
  | rejected status code ↦ (rejected status code, s)
  | forwarded e ↦ (forwarded e, s)
]
