-- ===== src/Payment/Batch/Examples.antt =====
-- A run of a batch, and its theorems at concrete inputs.
use cross_border_payment_app.Fraud.{check_fraud, check_velocity, check_daily_limit}
use cross_border_payment_app.Payment.{passed}
use cross_border_payment_app.Payment.Examples.{limits, users, quiet, balances, empty}
use cross_border_payment_app.Payment.Batch.Cleared.{IsCleared, send_batch-IsCleared}
use cross_border_payment_app.Payment.Batch.{
  sum_amounts, send_batch, Recipient, SendOutcome, sent, Inserts, Context, classify,
  valid_recipients, process,
}
use cross_border_payment_app.Base.{
  ℕ, ◌≡◌, refl, true, false, not, none, some, List, [], ◌∷◌, map, ◌==◌, same_asset, usdc, ok,
}

abbrev recipients : List Recipient
recipients =
    record { recipient_address = 8; amount = 10000000 }
    ∷ record { recipient_address = 7; amount = 5 }
    ∷ record { recipient_address = 9; amount = 20000000 }
    ∷ []

abbrev context : Context
context = record {
  key = 7;
  has_memo = false;
  asset = usdc;
  memo_required = λ a. false;
  valid = λ a. not (a == 9);
  fallback_bps = 250;
  fee_config = ok none;
}

abbrev network : List (ℕ × ℕ) → SendOutcome
network vs = sent 77

submitted : valid_recipients (map (classify context) recipients) ≡ (8, 9750000) ∷ []
unfolding valid_recipients classify cross_border_payment_app.Fees.build_fee_breakdown
submitted = refl

abbrev every_insert : Inserts
every_insert k = true

-- The second row of the first write fails.
abbrev second_fails : Inserts
second_fails k = not (k == 1)

-- The network has paid, but the last word of the books is a failure.
paid_and_failed : (process network second_fails context recipients).status_code ≡ 500
unfolding process classify cross_border_payment_app.Fees.build_fee_breakdown
paid_and_failed = refl

send_batch_runs :
    send_batch limits users quiet balances passed true network every_insert 4
      (some 7)
      context
      recipients
      empty
    ≡ ok (process network every_insert context recipients)
unfolding send_batch same_asset check_fraud check_velocity check_daily_limit
send_batch_runs = refl

send_batch-IsCleared_example :
    (key : ℕ) × (some 7 ≡ some key)
    × (true ≡ true)
    × IsCleared limits users quiet balances passed 4 key (sum_amounts recipients) usdc empty
    × (process network every_insert context recipients
        ≡ process network every_insert (record context { key = key }) recipients)
send_batch-IsCleared_example =
    send_batch-IsCleared limits users quiet balances passed true network every_insert 4 context
      recipients empty (some 7) (process network every_insert context recipients) send_batch_runs

asked_sum : sum_amounts recipients ≡ 30000005
unfolding sum_amounts
asked_sum = refl
