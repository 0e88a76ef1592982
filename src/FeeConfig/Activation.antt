-- ===== src/FeeConfig/Activation.antt =====
-- The activation of scheduled configurations: backend/src/jobs/activateScheduledFeeConfigs.js.
use cross_border_payment_app.FeeConfig.{
  Config, Store, written, activate, activate_all, to_activate, is_active_for, clashes,
  has_duplicate, commit, refresh_cache, activate_scheduled,
}
use cross_border_payment_app.FeeConfig.Active.{AtMostOneActive}
use cross_border_payment_app.Base.{
  ℕ, ◌≡◌, refl, inl, inr, Bool, true, false, List, [], ◌∷◌, arith, Bool-cases, count_where, any,
  Asset, same_asset_iff,
}

clashes_of_active :
    (t : ℕ) (a : Asset) (c d : Config)
    → is_active_for t a c ≡ true
    → is_active_for t a d ≡ true
    → clashes c d ≡ true
clashes_of_active t a c d h k = ground (
  arith,
  same_asset_iff c.asset_code a,
  same_asset_iff d.asset_code a,
  same_asset_iff d.asset_code c.asset_code,
)

active_clashes :
    (t : ℕ) (a : Asset) (c : Config) (rows : List Config)
    → is_active_for t a c ≡ true
    → any (clashes c) rows ≡ false
    → count_where (is_active_for t a) rows ≡ 0
active_clashes t a c [] h k = refl
active_clashes t a c (d ∷ rows) h k =
    ground (arith, clashes_of_active t a c d h, active_clashes t a c rows h)

-- Rows without a duplicate have at most one active row for each pair.
unique-AtMostOneActive : (rows : List Config) → has_duplicate rows ≡ false → AtMostOneActive rows
unfolding has_duplicate
unique-AtMostOneActive [] h t a = omega arith
unique-AtMostOneActive (c ∷ rows) h t a =
    ground (arith, active_clashes t a c rows, unique-AtMostOneActive rows _ t a)

committed :
    (kl : Bool) (now : ℕ) (s : Store) (rows : List Config)
    → AtMostOneActive s.rows
    → AtMostOneActive (written kl now s rows).1.rows
unfolding commit refresh_cache written
committed kl now s rows h t a = elim (Bool-cases (has_duplicate rows)) [
  | inl e ↦ rw (written, commit, e) (h t a)
  | inr e ↦ rw (written, commit, e) (unique-AtMostOneActive rows e t a)
]

-- The job leaves at most one active row for each fee type and asset, if that held before: a set of
-- updates that would break it is refused by the database as a whole.
pub activate_scheduled-AtMostOneActive :
    (keys_listed : Bool) (now : ℕ) (s : Store)
    → AtMostOneActive s.rows
    → AtMostOneActive (activate_scheduled keys_listed now s).1.rows
unfolding activate_scheduled activate
activate_scheduled-AtMostOneActive keys_listed now s h = go (to_activate now s.rows [] s.rows)
  where
    go : (items : List Config) → AtMostOneActive (activate keys_listed now s items).1.rows
    go [] = h
    go (item ∷ items) = committed keys_listed now s (activate_all (item ∷ items) s.rows) h
