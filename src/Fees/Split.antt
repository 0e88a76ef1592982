-- ===== src/Fees/Split.antt =====
-- The fee of backend/src/services/fees.js splits the gross amount.
use cross_border_payment_app.FeeConfig.{Config}
use cross_border_payment_app.Fees.{
  Rate, rate_of, platform_fee, build_fee_breakdown, with_stellar_fee, collect_platform_fee,
}
use cross_border_payment_app.Base.{ℕ, ◌+◌, ◌≤◌, ◌<◌, ◌≡◌, Option, none, some, arith, Result, Asset}

platform_fee-le : (r : Rate) (gross : ℕ) → platform_fee r gross ≤ gross
unfolding platform_fee
platform_fee-le r gross = omega arith

pub build_fee_breakdown-net :
    (fallback : ℕ) (config : Result (Option Config)) (gross : ℕ) (asset : Asset)
    (charged : Option ℕ)
    → let b = build_fee_breakdown fallback config gross asset charged in
      b.net_amount + b.platform_fee_amount ≡ gross
unfolding build_fee_breakdown
build_fee_breakdown-net fallback config gross asset charged =
    omega (arith, platform_fee-le (rate_of fallback config) gross)

abbrev pub collected : Option (ℕ × Asset) → ℕ
collected none = 0
collected (some d) = d.0

-- The floating-point product is below its exact value by less than one unit: a double has 53 bits, so
-- for fees below 2^51 units the errors of the two roundings stay below one half.
abbrev pub IsFloored : (ℕ → ℕ) → Type 0
IsFloored f = (n : ℕ) → n < 2251799813685248 → (f n ≤ n) × (n ≤ f n + 1)

-- The split of an amount below 2^51 units: for every rate the fee is at most the gross amount, what
-- the recipient is sent and the fee add up to it exactly, and what the platform then collects,
-- whatever fee the network charged, is the fee or one unit of 10^-7 less, if the floating-point product
-- of the fee is off by less than one unit.
pub build_fee_breakdown-split :
    (floor_scaled : ℕ → ℕ)
    → IsFloored floor_scaled
    → (fallback : ℕ) (config : Result (Option Config)) (gross : ℕ) (asset : Asset)
      (estimated charged : Option ℕ)
    → gross < 2251799813685248
    → let b =
        with_stellar_fee (build_fee_breakdown fallback config gross asset estimated) charged in
      (b.platform_fee_amount ≤ gross)
      × (b.net_amount + b.platform_fee_amount ≡ gross)
      × (collected (collect_platform_fee floor_scaled b) ≤ b.platform_fee_amount)
      × (b.platform_fee_amount ≤ collected (collect_platform_fee floor_scaled b) + 1)
unfolding build_fee_breakdown with_stellar_fee collect_platform_fee
build_fee_breakdown-split floor_scaled floored fallback config gross asset estimated charged below =
    let fee = platform_fee (rate_of fallback config) gross in
    let le = platform_fee-le (rate_of fallback config) gross in
    let (low, high) = floored fee (omega (arith, le)) in
    (le, omega (arith, le), ground arith, ground arith)
