-- ===== src/FeeConfig/Locked.antt =====
-- What UNIQUE (fee_type, asset_code, is_active) of database/migrations/1710000072000_fee_configs.js
-- does to the writers of backend/src/services/feeConfigService.js.
use cross_border_payment_app.FeeConfig.{
  Config, Store, is_active_for, deactivate, has_duplicate, commit, unique_violation, Params,
  new_row, or_now, check_params, finish, create_rows, create_config,
}
use cross_border_payment_app.FeeConfig.Table.{
  is_inactive_for, deactivate-inactive, has_duplicate_of_count,
}
use cross_border_payment_app.Base.{
  ℕ, ◌+◌, ◌≤◌, ◌≡◌, Bool, true, Option, List, [], ◌∷◌, arith, leb, count_where, count-append, ok,
  err,
}

create_rows-inactive :
    (now : ℕ) (p : Params) (from : Option ℕ) (by : ℕ) (s : Store)
    → leb (or_now now from) now ≡ true
    → count_where (is_inactive_for p.fee_type p.asset_code) s.rows
        + count_where (is_active_for p.fee_type p.asset_code) s.rows
      ≤ count_where (is_inactive_for p.fee_type p.asset_code) (create_rows now p from by s)
unfolding create_rows
create_rows-inactive now p from by s e = rw e (
    omega (
      arith,
      deactivate-inactive p.fee_type p.asset_code s.rows,
      count-append (is_inactive_for p.fee_type p.asset_code)
          (deactivate p.fee_type p.asset_code s.rows)
          (new_row s.next_id p true by (or_now now from) ∷ []),
    ))

finish-duplicate :
    (kl : Bool) (now : ℕ) (s : Store) (c : Config) (rows : List Config)
    → has_duplicate rows ≡ true
    → finish kl now s c rows ≡ (err unique_violation, s)
unfolding commit
finish-duplicate kl now s c rows e = ground arith

-- Once a fee type and asset has both an active and an inactive row, every valid configuration that
-- is to hold from now on is refused with a unique violation, and the store is left as it was: the
-- fee can no longer be changed by creating a configuration.
pub create_config_locked :
    (kl : Bool) (now : ℕ) (p : Params) (from : Option ℕ) (by : ℕ) (s : Store)
    → check_params p ≡ ok tt
    → leb (or_now now from) now ≡ true
    → 1 ≤ count_where (is_active_for p.fee_type p.asset_code) s.rows
    → 1 ≤ count_where (is_inactive_for p.fee_type p.asset_code) s.rows
    → create_config kl now p from by s ≡ (err unique_violation, s)
unfolding create_config
create_config_locked kl now p from by s valid e active inactive =
    rw (valid, create_config)
      (finish-duplicate kl now s
        (new_row s.next_id p (leb (or_now now from) now) by (or_now now from))
        (create_rows now p from by s)
        (has_duplicate_of_count p.fee_type p.asset_code (create_rows now p from by s)
          (omega (arith, create_rows-inactive now p from by s e))))
