-- ===== src/Payment/Preflight.antt =====
-- When a payment passes the preflight of backend/src/controllers/paymentController.js.
use cross_border_payment_app.Fraud.{
  Verdict, clear, State, check_fraud, check_velocity, check_daily_limit,
}
use cross_border_payment_app.Payment.{
  Limits, Screening, fraud_payment, daily_limit_exceeded, check_payment_preflight, Balances,
  available, required, check_sufficient_balance,
}
use cross_border_payment_app.Base.{ℕ, ◌≤◌, ◌≡◌, ◌↔◌, false, arith, Result, Asset, ok}

abbrev pub fraud_verdict : Limits → Screening → ℕ → ℕ → Asset → State → Result Verdict
fraud_verdict l sc wallet amount asset s =
    (check_fraud sc.db_rules l.fail_closed_threshold_usd sc.env (fraud_payment wallet amount asset)
      s).0

-- A payment passes the preflight exactly when it keeps the daily send limit, the wallet is not too
-- active, the fraud rules clear it, and it keeps the fraud module's daily limit.
pub check_payment_preflight_iff :
    (l : Limits) (sc : Screening) (wallet amount : ℕ) (asset : Asset) (s : State)
    → ((check_payment_preflight l sc wallet amount asset s).0 ≡ ok tt) ↔ (
        (daily_limit_exceeded l sc.env wallet amount asset ≡ false)
        × (check_velocity l.fraud_window_hours l.fraud_max_tx sc.env wallet ≡ false)
        × (fraud_verdict l sc wallet amount asset s ≡ ok clear)
        × (check_daily_limit l.fraud_daily_limit_usd l.fraud_window_hours sc.env
              (fraud_payment wallet amount asset)
            ≡ false))
unfolding check_payment_preflight
check_payment_preflight_iff l sc wallet amount asset s = (ground arith, ground arith)

-- A payment is covered exactly when the balance of its asset, zero for an asset that is not held,
-- reaches the amount, and 0.00001 more for XLM.
pub check_sufficient_balance_iff :
    (bs : Balances) (amount : ℕ) (asset : Asset)
    → (check_sufficient_balance bs amount asset ≡ ok tt)
      ↔ (required amount asset ≤ available asset bs)
unfolding check_sufficient_balance
check_sufficient_balance_iff bs amount asset = (ground arith, ground arith)
