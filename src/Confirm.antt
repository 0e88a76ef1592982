-- ===== src/Confirm.antt =====
-- The confirmation of payments: backend/src/jobs/transactionConfirmationJob.js over the table transactions.
pub mod Finality
mod Examples
use cross_border_payment_app.Base.{
  ℕ, zero, suc, Bool, true, false, ◌&&◌, Option, none, some, List, [], ◌∷◌, leb, ◌==◌,
  if◌then◌else◌, select_where, update_where,
}

pub data Status : Type 0 where
  pending confirming completed failed : Status

-- A row of transactions
pub record Transaction : Type 0 where
  pub id : ℕ
  pub tx_hash : Option ℕ
  pub status : Status
  pub confirmation_expires_at : Option ℕ

abbrev pub Table : Type 0
Table = List Transaction

-- What the network answers for a hash: the transaction, and whether it succeeded; that there is none; or
-- another error, which includes an answer that does not pass the schema.
pub data Lookup : Type 0 where
  found : Bool → Lookup
  not_found : Lookup
  breaks : Lookup

-- BATCH_SIZE
abbrev pub batch_size : ℕ
batch_size = 100

abbrev pub is_confirming : Status → Bool
is_confirming confirming = true
is_confirming _ = false

abbrev pub has_id : ℕ → Transaction → Bool
has_id i x = x.id == i && is_confirming x.status

-- `setFinalStatus`
pub set_final_status : ℕ → Status → Table → Table
set_final_status i st t = update_where (has_id i) (λ x. record x { status = st }) t

abbrev pub is_due : Transaction → Bool
is_due x = is_confirming x.status && elim x.tx_hash [ none ↦ false | some h ↦ true ]

abbrev pub first : ℕ → Table → Table
first zero t = []
first (suc n) [] = []
first (suc n) (x ∷ t) = x ∷ first n t

abbrev pub has_expired : ℕ → Option ℕ → Bool
has_expired now none = false
has_expired now (some e) = leb e now

-- What becomes of one row: a status to be written, or nothing.
pub verdict : ℕ → Lookup → Transaction → Option Status
verdict now (found true) x = some completed
verdict now (found false) x = some failed
verdict now not_found x = if has_expired now x.confirmation_expires_at then some failed else none
verdict now breaks x = none

abbrev pub hash_of : Transaction → ℕ
hash_of x = elim x.tx_hash [ none ↦ 0 | some h ↦ h ]

-- The loop over the rows that were selected; the clock and the network are read anew for each.
pub reconcile_rows : (ℕ → ℕ) → (ℕ → Lookup) → Table → Table → Table
unfolding verdict set_final_status
reconcile_rows clock lookup [] t = t
reconcile_rows clock lookup (x ∷ xs) t =
    reconcile_rows clock lookup xs (elim (verdict (clock x.id) (lookup (hash_of x)) x) [
      | none ↦ t
      | some st ↦ set_final_status x.id st t
    ])

-- `reconcileTransactionConfirmations`; the oldest row stands first in the table.
pub reconcile_transaction_confirmations : (ℕ → ℕ) → (ℕ → Lookup) → Table → Table
unfolding reconcile_rows
reconcile_transaction_confirmations clock lookup t =
    reconcile_rows clock lookup (first batch_size (select_where is_due t)) t
