-- ===== src/Payment/Batch/Cleared.antt =====
-- What `sendBatch` of backend/src/controllers/paymentController.js has established when it sends.
use cross_border_payment_app.Fraud.{clear, State, check_velocity, check_daily_limit}
use cross_border_payment_app.Payment.{
  verified, User, Limits, estimate_usd_value, daily_limit_exceeded, Balances, available, required,
  check_sufficient_balance, Screening, fraud_payment, check_payment_preflight, kyc_of,
  ensure_kyc_if_needed, AmlStatus, passed, aml_rescreen_for_payment,
}
use cross_border_payment_app.Payment.Preflight.{
  fraud_verdict, check_payment_preflight_iff, check_sufficient_balance_iff,
}
use cross_border_payment_app.Payment.Guards.{ensure_kyc_sound, aml_sound}
use cross_border_payment_app.Payment.Batch.{
  Recipient, SendOutcome, Inserts, Context, BatchReply, process, sum_amounts, send_batch,
}
use cross_border_payment_app.Base.{
  ℕ, ◌≤◌, ◌<◌, ◌≡◌, refl, sym, ◌⊎◌, Bool, true, false, not, Option, none, some, List, arith, ◌==◌,
  find_where, throw_if, with_code, ◌>>◌, >>-eq-ok, ok-injective, Asset, ok,
}

-- The facts about a batch that is processed: they are about the sum of its amounts.
pub record IsCleared (l : Limits) (users : List User) (sc : Screening) (bs : Balances)
    (aml : AmlStatus) (user_id key total : ℕ) (asset : Asset) (s : State) : Type 0 where
  pub kyc :
      (estimate_usd_value l.xlm_usd_rate total asset < l.kyc_threshold_usd)
      ⊎ (kyc_of (find_where (λ u. u.id == user_id) users) ≡ verified)
  pub aml_passed :
      (estimate_usd_value l.xlm_usd_rate total asset < l.aml_threshold_usd) ⊎ (aml ≡ passed)
  pub daily_limit : daily_limit_exceeded l sc.env key total asset ≡ false
  pub velocity : check_velocity l.fraud_window_hours l.fraud_max_tx sc.env key ≡ false
  pub fraud : fraud_verdict l sc key total asset s ≡ ok clear
  pub fraud_limit :
      check_daily_limit l.fraud_daily_limit_usd l.fraud_window_hours sc.env
        (fraud_payment key total asset)
      ≡ false
  pub covered : required total asset ≤ available asset bs

module _ (l : Limits) (users : List User) (sc : Screening) (bs : Balances) (aml : AmlStatus)
    (lock_free : Bool) (send : List (ℕ × ℕ) → SendOutcome) (inserts : Inserts) (user_id : ℕ)
    (context : Context) (recipients : List Recipient) (s : State) where
  -- A batch that is answered by its loop comes from a wallet, whose lock was free; the sum of its
  -- amounts, in the asset of the batch, passed the checks of identity, of AML, of the daily limits and
  -- of fraud, and is covered by the balance; and the answer is that of the loop over the recipients.
  pub send_batch-IsCleared :
      (wallet : Option ℕ) (b : BatchReply)
      → send_batch l users sc bs aml lock_free send inserts user_id wallet context recipients s
        ≡ ok b
      → (key : ℕ) × (wallet ≡ some key)
        × (lock_free ≡ true)
        × IsCleared l users sc bs aml user_id key (sum_amounts recipients) context.asset s
        × (b ≡ process send inserts (record context { key = key }) recipients)
  unfolding send_batch
  send_batch-IsCleared none b h =
      let (_, h1) =
        >>-eq-ok (ensure_kyc_if_needed l users user_id (sum_amounts recipients) context.asset) _
          h in
      cc
  send_batch-IsCleared (some key) b h =
      let total = sum_amounts recipients in
      let asset = context.asset in
      let usd = estimate_usd_value l.xlm_usd_rate total context.asset in
      let screened = aml_rescreen_for_payment l aml usd in
      let locked = screened >> throw_if (not lock_free) (with_code 429 "CONCURRENCY_LIMIT") in
      let preflight = (check_payment_preflight l sc key total context.asset s).0 in
      let enough = check_sufficient_balance bs total context.asset in
      let (kyc, h1) = >>-eq-ok (ensure_kyc_if_needed l users user_id total asset) _ h in
      let (h2, done) = >>-eq-ok (locked >> preflight >> enough) _ h1 in
      let (h3, covered) = >>-eq-ok (locked >> preflight) _ h2 in
      let (h4, pre) = >>-eq-ok locked _ h3 in
      let (h5, lock) = >>-eq-ok screened _ h4 in
      let (limit, velocity, fraud, fraud_limit) =
        (check_payment_preflight_iff l sc key total asset s).0 pre in
      (
        key,
        refl,
        ground (arith, lock),
        record {
          kyc = ensure_kyc_sound l users user_id total asset kyc;
          aml_passed = aml_sound l aml usd h5;
          daily_limit = limit;
          velocity = velocity;
          fraud = fraud;
          fraud_limit = fraud_limit;
          covered = (check_sufficient_balance_iff bs total context.asset).0 covered;
        },
        sym (ok-injective done),
      )
