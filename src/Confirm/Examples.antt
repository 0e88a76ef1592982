-- ===== src/Confirm/Examples.antt =====
-- Payments that are confirmed, and one that is not found in time.
use cross_border_payment_app.Confirm.{
  Transaction, reconcile_transaction_confirmations, reconcile_rows, verdict, Status, Lookup,
  set_final_status, Table, found, not_found, breaks, confirming, completed, failed,
}
use cross_border_payment_app.Confirm.Finality.{
  IsSettled, with_id, reconcile_transaction_confirmations-IsSettled,
}
use cross_border_payment_app.Base.{
  ℕ, ◌≤◌, ◌≡◌, refl, true, none, some, [], ◌∷◌, arith, ◌==◌, if◌then◌else◌, count_where,
}

abbrev row : ℕ → Status → Transaction
row i st = record { id = i; tx_hash = some i; status = st; confirmation_expires_at = some 50 }

-- The network knows transaction 1 only.
abbrev lookup : ℕ → Lookup
lookup h = if h == 1 then found true else not_found

abbrev table : Table
table = row 1 confirming ∷ row 2 confirming ∷ row 3 completed ∷ []

settled :
    reconcile_transaction_confirmations (λ i. 60) lookup table
    ≡ row 1 completed ∷ row 2 failed ∷ row 3 completed ∷ []
unfolding reconcile_transaction_confirmations
settled = refl

-- Before its time a payment that is not found stays as it is.
early : verdict 40 not_found (row 2 confirming) ≡ none
unfolding verdict
early = refl

broken : reconcile_rows (λ i. 60) (λ h. breaks) table table ≡ table
unfolding reconcile_rows
broken = refl

unchanged : set_final_status 3 failed table ≡ table
unfolding set_final_status
unchanged = refl

once : count_where (with_id 2) table ≤ 1
once = omega arith

reconcile_transaction_confirmations-IsSettled_example :
    IsSettled
      (λ i. 60)
      lookup
      (row 2 confirming)
      (reconcile_transaction_confirmations (λ i. 60) lookup table)
reconcile_transaction_confirmations-IsSettled_example =
    reconcile_transaction_confirmations-IsSettled (λ i. 60) lookup (row 2 confirming) table refl
      once
