-- ===== src/FeeConfig/Preview.antt =====
-- `previewFeeConfig` of backend/src/services/feeConfigService.js: a proposed configuration against the
-- completed transactions of the window. Amounts are in units of 10^-7, fees in units of 10^-11, so that
-- the division by 10000 is exact; a total is a sum, and `estimated_delta` is kept as its two terms.
use cross_border_payment_app.FeeConfig.{Params, check_params}
use cross_border_payment_app.Base.{
  ℕ, zero, suc, ◌+◌, ◌*◌, ◌≤◌, min, max, ◌≡◌, ap, Option, none, some, List, [], ◌∷◌, arith, length,
  Result, ◌>>◌, >>-eq-ok, ok-injective, ok,
}

pub record Row : Type 0 where
  pub amount : ℕ
  pub fee_amount : ℕ

pub record Totals : Type 0 where
  pub volume_total : ℕ
  pub actual_fee_total : ℕ
  pub simulated_fee_total : ℕ

-- `Math.max(minFeeUsdc, Math.min(maxFeeUsdc, (amount * feeBps) / 10000))`
pub simulated_fee : Params → ℕ → ℕ
simulated_fee p amount =
    max (p.min_fee_usdc * 10000) (min (p.max_fee_usdc * 10000) (amount * p.fee_bps))

pub add_row : Params → Row → Totals → Totals
unfolding simulated_fee
add_row p r t = record {
  volume_total = t.volume_total + r.amount;
  actual_fee_total = t.actual_fee_total + r.fee_amount * 10000;
  simulated_fee_total = t.simulated_fee_total + simulated_fee p r.amount;
}

pub add_rows : Params → List Row → Totals → Totals
unfolding add_row
add_rows p [] t = t
add_rows p (r ∷ rows) t = add_rows p rows (add_row p r t)

-- `Math.min(Math.max(parseInt(lookbackDays) || 7, 1), 90)`; `none` is an unparsable argument.
pub window_days : Option ℕ → ℕ
window_days none = 7
window_days (some zero) = 7
window_days (some (suc n)) = min (max (suc n) 1) 90

abbrev pub no_totals : Totals
no_totals = record { volume_total = 0; actual_fee_total = 0; simulated_fee_total = 0 }

-- The rows of each window come from the database.
unfoldable pub preview : (ℕ → List Row) → Params → Option ℕ → Result (ℕ × Totals)
unfolding check_params add_rows window_days
preview rows_since p lookback = do
  check_params p
  ok (window_days lookback, add_rows p (rows_since (window_days lookback)) no_totals)

simulated_fee_bounds :
    (p : Params) (amount : ℕ)
    → check_params p ≡ ok tt
    → (p.min_fee_usdc * 10000 ≤ simulated_fee p amount)
      × (simulated_fee p amount ≤ p.max_fee_usdc * 10000)
unfolding simulated_fee check_params
simulated_fee_bounds p amount h = (omega arith, ground arith)

add_rows_bounds :
    (p : Params) (rows : List Row) (t : Totals)
    → check_params p ≡ ok tt
    → (t.simulated_fee_total + length rows * (p.min_fee_usdc * 10000)
        ≤ (add_rows p rows t).simulated_fee_total)
      × ((add_rows p rows t).simulated_fee_total
          ≤ t.simulated_fee_total + length rows * (p.max_fee_usdc * 10000))
unfolding add_rows add_row
add_rows_bounds p [] t h = (omega arith, omega arith)
add_rows_bounds p (r ∷ rows) t h =
    let (lo, hi) = simulated_fee_bounds p r.amount h in
    let (los, his) = add_rows_bounds p rows (add_row p r t) h in
    (omega (arith, lo, los), omega (arith, hi, his))

window_days_bounds : (o : Option ℕ) → (1 ≤ window_days o) × (window_days o ≤ 90)
unfolding window_days
window_days_bounds none = omega arith
window_days_bounds (some zero) = omega arith
window_days_bounds (some (suc n)) = omega arith

-- A preview that is accepted looks back between 1 and 90 days, and its simulated revenue lies
-- between the minimum and the maximum fee times the number of transactions of that window.
pub preview_bounds :
    (rows_since : ℕ → List Row) (p : Params) (lookback : Option ℕ) (days : ℕ) (t : Totals)
    → preview rows_since p lookback ≡ ok (days, t)
    → (1 ≤ days)
      × (days ≤ 90)
      × (length (rows_since days) * (p.min_fee_usdc * 10000) ≤ t.simulated_fee_total)
      × (t.simulated_fee_total ≤ length (rows_since days) * (p.max_fee_usdc * 10000))
unfolding preview
preview_bounds rows_since p lookback days t h =
    let (valid, done) = >>-eq-ok (check_params p) _ h in
    let days_eq : window_days lookback ≡ days = ap (λ q. q.0) (ok-injective done) in
    let totals_eq : add_rows p (rows_since (window_days lookback)) no_totals ≡ t =
      ap (λ q. q.1) (ok-injective done) in
    let bounds = add_rows_bounds p (rows_since (window_days lookback)) no_totals valid in
    rw (← totals_eq, ← days_eq)
      (
        (window_days_bounds lookback).0,
        (window_days_bounds lookback).1,
        omega (arith, bounds.0),
        omega (arith, bounds.1),
      )
