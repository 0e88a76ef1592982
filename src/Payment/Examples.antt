-- ===== src/Payment/Examples.antt =====
-- Runs of the payment checks, and their theorems at concrete inputs.
use cross_border_payment_app.Fraud.{Env, State, check_fraud, check_velocity, check_daily_limit}
use cross_border_payment_app.Payment.{
  verified, User, Wallet, Limits, Screening, Balances, passed, SendRequest, send_guards,
}
use cross_border_payment_app.Payment.Guards.{IsCleared, send_guards-IsCleared}
use cross_border_payment_app.Base.{
  ◌≡◌, refl, true, false, none, some, List, [], ◌∷◌, with_status, same_asset, xlm, usdc, ok, err,
}

abbrev pub limits : Limits
limits = record {
  xlm_usd_rate = 1100000;
  kyc_threshold_usd = 10000000000000000;
  phone_threshold_usd = 10000000000000000;
  aml_threshold_usd = 100000000000000000;
  daily_send_limit = 5000000000000000000;
  fraud_daily_limit_usd = 100000000000000000;
  fraud_window_hours = 24;
  fraud_max_tx = 30;
  fail_closed_threshold_usd = 100000000000000000;
}

abbrev pub users : List User
users = record { id = 4; kyc_status = verified; phone_verified = true } ∷ []

abbrev env : Env
env = record { now = 100000; xlm_usd_rate = 1100000; transactions = []; throws = λ r. false }

abbrev pub quiet : Screening
quiet = record { env = env; db_rules = ok [] }

abbrev pub balances : Balances
balances = (usdc, 5000000000) ∷ (xlm, 200) ∷ []

abbrev pub empty : State
empty = record { cached = none; last_known = none; checks = [] }

-- The second wallet of the user is the default one.
abbrev wallets : List Wallet
wallets =
    record { id = 1; user_id = 5; public_key = 9; is_default = true; created_at = 1 }
    ∷ record { id = 2; user_id = 4; public_key = 6; is_default = false; created_at = 2 }
    ∷ record { id = 3; user_id = 4; public_key = 7; is_default = true; created_at = 3 }
    ∷ []

abbrev request : SendRequest
request = record {
  user_id = 4;
  recipient_address = 8;
  amount = 2000000000;
  asset = usdc;
  memo = none;
  encrypt_memo = false;
  encrypted_bytes = 0;
  wallet_id = none;
  memo_required = false;
  aml_status = passed;
}

request_passes : send_guards limits users wallets quiet balances true request empty ≡ ok 7
unfolding send_guards same_asset check_fraud check_velocity check_daily_limit
request_passes = refl

send_guards-IsCleared_example : IsCleared limits users wallets quiet balances request empty 7
send_guards-IsCleared_example =
    send_guards-IsCleared limits users wallets quiet balances true request empty 7 request_passes

other_wallet :
    send_guards limits users wallets quiet balances true
      (record request { wallet_id = some 2 })
      empty
    ≡ ok 6
unfolding send_guards same_asset check_fraud check_velocity check_daily_limit
other_wallet = refl

-- A wallet of another user is not found.
not_own :
    send_guards limits users wallets quiet balances true
      (record request { wallet_id = some 1 })
      empty
    ≡ err (with_status 404)
unfolding send_guards
not_own = refl
