-- ===== src/Fees/Examples.antt =====
-- The theorems on fees at concrete inputs.
use cross_border_payment_app.FeeConfig.{Config}
use cross_border_payment_app.Fees.{
  Breakdown, build_fee_breakdown, with_stellar_fee, collect_platform_fee,
}
use cross_border_payment_app.Fees.Split.{IsFloored, build_fee_breakdown-split, collected}
use cross_border_payment_app.Base.{
  ℕ, ◌+◌, ◌≤◌, ◌≡◌, ◌==◌, if◌then◌else◌, arith, refl, true, none, some, usdc, ok,
}

abbrev config : Config
config = record {
  id = 1;
  fee_type = 1;
  asset_code = usdc;
  fee_bps = 250;
  max_fee_usdc = 1000000000;
  min_fee_usdc = 100000;
  is_active = true;
  created_by = 0;
  effective_from = 0;
}

abbrev breakdown : Breakdown
breakdown = build_fee_breakdown 250 (ok (some config)) 100000003 usdc none

fee_of_ten : breakdown.platform_fee_amount ≡ 2500000
unfolding build_fee_breakdown
fee_of_ten = refl

-- Some products fall just short of their exact value, as 0.0000021 * 1e7 does.
abbrev short_of_21 : ℕ → ℕ
short_of_21 n = if n == 21 then 20 else n

short_of_21-IsFloored : IsFloored short_of_21
short_of_21-IsFloored n below = ground arith

one_unit_short :
    collect_platform_fee short_of_21 (build_fee_breakdown 250 (ok none) 840 usdc none)
    ≡ some (20, usdc)
unfolding build_fee_breakdown collect_platform_fee
one_unit_short = refl

build_fee_breakdown-split_example :
    let b = with_stellar_fee (build_fee_breakdown 250 (ok none) 840 usdc none) (some 100) in
    (b.platform_fee_amount ≤ 840)
    × (b.net_amount + b.platform_fee_amount ≡ 840)
    × (collected (collect_platform_fee short_of_21 b) ≤ b.platform_fee_amount)
    × (b.platform_fee_amount ≤ collected (collect_platform_fee short_of_21 b) + 1)
build_fee_breakdown-split_example =
    build_fee_breakdown-split short_of_21 short_of_21-IsFloored 250 (ok none) 840 usdc none
      (some 100) (omega arith)
