-- ===== src/Fees.antt =====
-- The platform fee: backend/src/services/fees.js. Amounts are in units of 10^-7; inside the computation
-- they are in units of 10^-11, so that the division by 10000 is exact before `toFixed(7)` rounds.
pub mod Split
mod Examples
use cross_border_payment_app.FeeConfig.{Config}
use cross_border_payment_app.Base.{
  ℕ, ◌+◌, ◌-◌, ◌*◌, ◌/◌, min, max, Option, none, some, ◌==◌, if◌then◌else◌, Result, Asset, ok, err,
}

pub record Breakdown : Type 0 where
  pub gross_amount : ℕ
  pub platform_fee_bps : ℕ
  pub platform_fee_amount : ℕ
  pub net_amount : ℕ
  pub stellar_base_fee_xlm : Option ℕ
  pub asset : Asset

-- The rate and the bounds: the fallback's `maxFee` is infinite.
pub record Rate : Type 0 where
  pub fee_bps : ℕ
  pub min_fee : ℕ
  pub max_fee : Option ℕ

-- The fallback is kept where there is no configuration, and where the store throws.
pub rate_of : ℕ → Result (Option Config) → Rate
rate_of fallback_bps (ok (some c)) = record {
  fee_bps = c.fee_bps;
  min_fee = c.min_fee_usdc;
  max_fee = some c.max_fee_usdc;
}
rate_of fallback_bps (ok none) = record { fee_bps = fallback_bps; min_fee = 0; max_fee = none }
rate_of fallback_bps (err e) = record { fee_bps = fallback_bps; min_fee = 0; max_fee = none }

-- `Math.min(n, maxFee)`
abbrev pub min_fee_cap : Option ℕ → ℕ → ℕ
min_fee_cap none n = n
min_fee_cap (some m) n = min (m * 10000) n

-- `toFixed(7)` of a number of units of 10^-11
abbrev pub to_fixed : ℕ → ℕ
to_fixed n = (n + 5000) / 10000

pub platform_fee : Rate → ℕ → ℕ
platform_fee r gross =
    to_fixed
      (min (gross * 10000) (min_fee_cap r.max_fee (max (r.min_fee * 10000) (gross * r.fee_bps))))

-- The fee is at most the gross amount, so the subtraction is exact.
unfoldable pub build_fee_breakdown : ℕ → Result (Option Config) → ℕ → Asset → Option ℕ → Breakdown
unfolding rate_of platform_fee
build_fee_breakdown fallback_bps config gross asset fee_charged =
    let fee = platform_fee (rate_of fallback_bps config) gross in
    record {
      gross_amount = gross;
      platform_fee_bps = (rate_of fallback_bps config).fee_bps;
      platform_fee_amount = fee;
      net_amount = gross - fee;
      stellar_base_fee_xlm = fee_charged;
      asset = asset;
    }

pub with_stellar_fee : Breakdown → Option ℕ → Breakdown
with_stellar_fee b fee_charged = record b { stellar_base_fee_xlm = fee_charged }

-- The deposit that is made, if any; a failing deposit is only logged. The argument is
-- `Math.floor(feeAmount * 1e7)` in floating-point numbers, for a fee of so many units of 10^-7.
pub collect_platform_fee : (ℕ → ℕ) → Breakdown → Option (ℕ × Asset)
collect_platform_fee floor_scaled b =
    if b.platform_fee_amount == 0
    then none
    else if floor_scaled b.platform_fee_amount == 0
    then none
    else some (floor_scaled b.platform_fee_amount, b.asset)
