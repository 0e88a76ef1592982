-- ===== src/FeeConfig/Examples.antt =====
-- Runs of the fee configuration store, and its theorems at concrete inputs.
use cross_border_payment_app.FeeConfig.{
  activate_scheduled, Config, Store, Params, Updates, new_row, check_params, create_config,
  patch_config, unique_violation, is_active_for,
}
use cross_border_payment_app.FeeConfig.Table.{is_inactive_for}
use cross_border_payment_app.FeeConfig.Locked.{create_config_locked}
use cross_border_payment_app.FeeConfig.Preview.{Row, Totals, preview}
use cross_border_payment_app.Base.{
  ℕ, ◌≤◌, ◌≡◌, refl, true, false, none, some, List, [], ◌∷◌, arith, count_where, Result, same_asset,
  usdc, ok, err,
}

abbrev platform : Params
platform = record {
  fee_type = 1;
  asset_code = usdc;
  fee_bps = 250;
  max_fee_usdc = 1000000000;
  min_fee_usdc = 100000;
}

abbrev seeded : Store
seeded = record { rows = new_row 1 platform true 0 5 ∷ []; next_id = 2; cache = λ t a. none }

abbrev cheaper : Params
cheaper = record platform { fee_bps = 100 }

-- The store after one change of the fee: an active and an inactive row.
abbrev changed : Store
changed = record {
  rows = new_row 1 platform false 0 5 ∷ new_row 2 cheaper true 9 10 ∷ [];
  next_id = 3;
  cache = λ t a. none;
}

abbrev in_future : Updates
in_future = record {
  fee_type = none;
  asset_code = none;
  fee_bps = some 100;
  max_fee_usdc = none;
  min_fee_usdc = none;
  effective_from = some 99;
}

abbrev created : Result Config × Store
created = create_config true 10 cheaper none 9 seeded

created_ok : created ≡ (ok (new_row 2 cheaper true 9 10), created.1)
unfolding create_config same_asset
created_ok = refl

abbrev patched : Result Config × Store
patched = patch_config true 10 1 in_future 9 seeded

patched_ok : patched ≡ (ok (new_row 2 cheaper true 9 99), patched.1)
unfolding patch_config same_asset
patched_ok = refl

platform_valid : check_params platform ≡ ok tt
unfolding check_params
platform_valid = refl

one_active : 1 ≤ count_where (is_active_for 1 usdc) changed.rows
unfolding same_asset
one_active = omega arith

one_inactive : 1 ≤ count_where (is_inactive_for 1 usdc) changed.rows
unfolding same_asset
one_inactive = omega arith

create_config_locked_example :
    create_config true 20 platform none 9 changed ≡ (err unique_violation, changed)
create_config_locked_example =
    create_config_locked true 20 platform none 9 changed platform_valid refl one_active one_inactive

abbrev history : ℕ → List Row
history days = record { amount = 20000000; fee_amount = 500000 } ∷ []

abbrev simulated : Totals
simulated = record {
  volume_total = 20000000;
  actual_fee_total = 5000000000;
  simulated_fee_total = 5000000000;
}

previewed : preview history platform (some 30) ≡ ok (30, simulated)
unfolding preview
previewed = refl

-- A cheaper fee, scheduled for the time 50.
abbrev scheduled : Store
scheduled = record {
  rows = new_row 1 platform true 0 5 ∷ new_row 2 cheaper false 9 50 ∷ [];
  next_id = 3;
  cache = λ t a. none;
}

activated :
    (activate_scheduled true 60 scheduled).1.rows
    ≡ new_row 1 platform false 0 5 ∷ new_row 2 cheaper true 9 50 ∷ []
unfolding activate_scheduled same_asset
activated = refl

too_early : activate_scheduled true 40 scheduled ≡ (ok tt, scheduled)
unfolding activate_scheduled
too_early = refl
