-- ===== src/FeeConfig/Active.antt =====
-- Which configuration is in force after the writers of backend/src/services/feeConfigService.js.
use cross_border_payment_app.FeeConfig.{
  Config, Store, is_active_for, deactivate, set_active_by_id, commit, Params, new_row, or_now,
  Updates, merge, check_params, finish, create_rows, create_config, unless_thrown, patch_rows,
  patch_config, is_candidate, grouped, refresh_cache, get_active_config,
}
use cross_border_payment_app.FeeConfig.Table.{
  deactivate-active, deactivate-active_le, set_inactive_by_id-active_le, latest_of_count,
  grouped_of_count, grouped-append, candidate_le,
}
use cross_border_payment_app.Base.{
  ℕ, ◌+◌, ◌≤◌, ◌<◌, ◌≡◌, refl, ap, inl, inr, Bool, true, false, Option, none, some, List, [], ◌∷◌,
  ◌++◌, arith, leb, ◌==◌, ==_refl, Bool-cases, find_where, count_where, count-append, Result,
  plain_error, Asset, same_asset_iff, same_asset_refl, ok, err,
}

-- For every fee type and asset at most one row is active.
abbrev pub AtMostOneActive : List Config → Type 0
AtMostOneActive rows = (t : ℕ) (a : Asset) → count_where (is_active_for t a) rows ≤ 1

-- A row appended after its pair was deactivated keeps the bound.
append-AtMostOneActive :
    (rows rows' : List Config) (c : Config)
    → AtMostOneActive rows
    → ((t : ℕ) (a : Asset)
        → count_where (is_active_for t a) rows' ≤ count_where (is_active_for t a) rows)
    → count_where (is_active_for c.fee_type c.asset_code) rows' ≡ 0
    → AtMostOneActive (rows' ++ c ∷ [])
append-AtMostOneActive rows rows' c h le gone t a = elim (Bool-cases (is_active_for t a c)) [
  | inl e ↦
      let (ft, fa) : (t ≡ c.fee_type) × (a ≡ c.asset_code) =
        (ground arith, ground (arith, same_asset_iff c.asset_code a)) in
      rw (ft, fa)
        (omega (
          arith,
          count-append (is_active_for c.fee_type c.asset_code) rows' (c ∷ []),
          one_row c.fee_type c.asset_code c,
          gone,
        ))
  | inr e ↦
      omega (arith, count-append (is_active_for t a) rows' (c ∷ []), no_row t a c e, le t a, h t a)
]
  where
    one_row : (t : ℕ) (a : Asset) (c : Config) → count_where (is_active_for t a) (c ∷ []) ≤ 1
    one_row t a c = ground arith

    no_row :
        (t : ℕ) (a : Asset) (c : Config)
        → is_active_for t a c ≡ false
        → count_where (is_active_for t a) (c ∷ []) ≡ 0
    no_row t a c e = ground arith

append_inactive :
    (rows : List Config) (c : Config)
    → c.is_active ≡ false
    → AtMostOneActive rows
    → AtMostOneActive (rows ++ c ∷ [])
append_inactive rows c off h t a =
    ground (arith, count-append (is_active_for t a) rows (c ∷ []), h t a)

create_rows-AtMostOneActive :
    (now : ℕ) (p : Params) (from : Option ℕ) (by : ℕ) (s : Store)
    → AtMostOneActive s.rows
    → AtMostOneActive (create_rows now p from by s)
unfolding create_rows
create_rows-AtMostOneActive now p from by s h = elim (Bool-cases (leb (or_now now from) now)) [
  | inl e ↦ rw e (
      append-AtMostOneActive s.rows (deactivate p.fee_type p.asset_code s.rows) _ h
        (λ t a. deactivate-active_le p.fee_type t p.asset_code a s.rows)
        (deactivate-active p.fee_type p.asset_code s.rows))
  | inr e ↦ rw e (append_inactive s.rows _ refl h)
]

patch_rows-AtMostOneActive :
    (now i : ℕ) (p : Params) (from : Option ℕ) (by : ℕ) (s : Store)
    → AtMostOneActive s.rows
    → AtMostOneActive (patch_rows now i p from by s)
unfolding patch_rows
patch_rows-AtMostOneActive now i p from by s h =
    let rows = deactivate p.fee_type p.asset_code s.rows in
    append-AtMostOneActive s.rows (set_active_by_id false i rows) _ h
      (λ t a. omega (
        arith,
        set_inactive_by_id-active_le t i a rows,
        deactivate-active_le p.fee_type t p.asset_code a s.rows,
      ))
      (omega (
        arith,
        set_inactive_by_id-active_le p.fee_type i p.asset_code rows,
        deactivate-active p.fee_type p.asset_code s.rows,
      ))

finish-rows :
    (kl : Bool) (now : ℕ) (s : Store) (c : Config) (rows : List Config)
    → AtMostOneActive s.rows
    → AtMostOneActive rows
    → AtMostOneActive (finish kl now s c rows).1.rows
unfolding commit refresh_cache
finish-rows kl now s c rows h k t a = ground (arith, h t a, k t a)

unless_thrown-rows :
    (r : Result (Unit {0})) (s : Store) (k : Result Config × Store)
    → AtMostOneActive s.rows
    → AtMostOneActive k.1.rows
    → AtMostOneActive (unless_thrown r s k).1.rows
unless_thrown-rows (ok _) s k h g = g
unless_thrown-rows (err e) s k h g = h

-- Creating a configuration, whether it succeeds or fails, leaves at most one active row for each fee
-- type and asset, if that held before.
pub create_config-AtMostOneActive :
    (kl : Bool) (now : ℕ) (p : Params) (from : Option ℕ) (by : ℕ) (s : Store)
    → AtMostOneActive s.rows
    → AtMostOneActive (create_config kl now p from by s).1.rows
unfolding create_config
create_config-AtMostOneActive kl now p from by s h =
    unless_thrown-rows (check_params p) s _ h
      (finish-rows kl now s _ _ h (create_rows-AtMostOneActive now p from by s h))

-- Patching a configuration, whether it succeeds or fails, leaves at most one active row for each fee
-- type and asset, if that held before.
pub patch_config-AtMostOneActive :
    (kl : Bool) (now i : ℕ) (u : Updates) (by : ℕ) (s : Store)
    → AtMostOneActive s.rows
    → AtMostOneActive (patch_config kl now i u by s).1.rows
unfolding patch_config
patch_config-AtMostOneActive kl now i u by s h = go (find_where (λ c. c.id == i) s.rows) refl
  where
    go :
        (o : Option Config)
        → find_where (λ c. c.id == i) s.rows ≡ o
        → AtMostOneActive (patch_config kl now i u by s).1.rows
    go none e = rw (e, patch_config) h
    go (some c) e =
        rw (e, patch_config)
          (unless_thrown-rows (check_params (merge u c)) s _ h (
            finish-rows kl now s _ _ h
              (patch_rows-AtMostOneActive now i (merge u c) u.effective_from by s h)))

-- What a successful write did: it committed the row, and refreshed the cache.
unless_thrown-eq-ok :
    (r : Result (Unit {0})) (s s' : Store) (k : Result Config × Store) (c : Config)
    → unless_thrown r s k ≡ (ok c, s')
    → k ≡ (ok c, s')
unless_thrown-eq-ok (ok _) s s' k c h = h
unless_thrown-eq-ok (err e) s s' k c h = absurd (ne (ap (λ r. r.0) h))
  where
    ne : err e ≡ ok c → ⊥
    ne q = cc

finish-eq-ok :
    (kl : Bool) (now : ℕ) (s s' : Store) (c d : Config) (rows : List Config)
    → finish kl now s c rows ≡ (ok d, s')
    → (c ≡ d) × (refresh_cache kl now (record s { rows = rows; next_id = s.next_id + 1 }) ≡ s')
unfolding commit
finish-eq-ok kl now s s' c d rows h = (ground arith, ground arith)

abbrev committed : Store → List Config → Store
committed s rows = record s { rows = rows; next_id = s.next_id + 1 }

create_config-eq-ok :
    (kl : Bool) (now : ℕ) (p : Params) (from : Option ℕ) (by : ℕ) (s s' : Store) (c : Config)
    → create_config kl now p from by s ≡ (ok c, s')
    → (new_row s.next_id p (leb (or_now now from) now) by (or_now now from) ≡ c)
      × (refresh_cache kl now (committed s (create_rows now p from by s)) ≡ s')
unfolding create_config
create_config-eq-ok kl now p from by s s' c h =
    finish-eq-ok kl now s s' (new_row s.next_id p (leb (or_now now from) now) by (or_now now from))
      c (create_rows now p from by s) (unless_thrown-eq-ok (check_params p) s s' _ c h)

patch_config-eq-ok :
    (kl : Bool) (now i : ℕ) (u : Updates) (by : ℕ) (s s' : Store) (c : Config)
    → patch_config kl now i u by s ≡ (ok c, s')
    → (p : Params) × (new_row s.next_id p true by (or_now now u.effective_from) ≡ c)
      × (refresh_cache kl now (committed s (patch_rows now i p u.effective_from by s)) ≡ s')
unfolding patch_config
patch_config-eq-ok kl now i u by s s' c h = go (find_where (λ c. c.id == i) s.rows) refl
  where
    ne : ◌≡◌ {A = Result Config × Store} (err plain_error, s) (ok c, s') → ⊥
    ne q = cc

    go :
        (o : Option Config)
        → find_where (λ c. c.id == i) s.rows ≡ o
        → (p : Params) × (new_row s.next_id p true by (or_now now u.effective_from) ≡ c)
          × (refresh_cache kl now (committed s (patch_rows now i p u.effective_from by s)) ≡ s')
    go none e = absurd (ne (rw (e, patch_config) at h))
    go (some d) e =
        let h' = rw (e, patch_config) at h in
        let (same, s'_eq) =
          finish-eq-ok kl now s s'
            (new_row s.next_id (merge u d) true by (or_now now u.effective_from)) c
            (patch_rows now i (merge u d) u.effective_from by s)
            (unless_thrown-eq-ok (check_params (merge u d)) s s' _ c h') in
        (merge u d, same, s'_eq)

cached_some :
    (kl : Bool) (now t : ℕ) (a : Asset) (s : Store) (c : Config)
    → grouped now t a s.rows ≡ some c
    → get_active_config now t a (refresh_cache kl now s) ≡ (some c, refresh_cache kl now s)
unfolding get_active_config refresh_cache
cached_some kl now t a s c e = ground arith

cached_none :
    (now t : ℕ) (a : Asset) (s : Store)
    → count_where (is_candidate now t a) s.rows ≡ 0
    → get_active_config now t a (refresh_cache true now s) ≡ (none, refresh_cache true now s)
unfolding get_active_config refresh_cache
cached_none now t a s e =
    ground
      (arith, grouped_of_count now t a s.rows e, latest_of_count (is_candidate now t a) s.rows e)

create_rows-grouped :
    (now : ℕ) (p : Params) (from : Option ℕ) (by : ℕ) (s : Store)
    → leb (or_now now from) now ≡ true
    → grouped now p.fee_type p.asset_code (create_rows now p from by s)
      ≡ some (new_row s.next_id p (leb (or_now now from) now) by (or_now now from))
unfolding create_rows
create_rows-grouped now p from by s e =
    grouped-append now p.fee_type p.asset_code _ _
      (ground (arith, same_asset_refl p.asset_code, ==_refl p.fee_type))

patch_rows-candidate :
    (now i t : ℕ) (p : Params) (by : ℕ) (s : Store)
    → now < t
    → count_where (is_candidate now p.fee_type p.asset_code) (patch_rows now i p (some t) by s) ≡ 0
unfolding patch_rows
patch_rows-candidate now i t p by s lt =
    let rows = deactivate p.fee_type p.asset_code s.rows in
    let rows' = set_active_by_id false i rows in
    let c = new_row s.next_id p true by t in
    omega (
      arith,
      count-append (is_candidate now p.fee_type p.asset_code) rows' (c ∷ []),
      candidate_le now p.fee_type p.asset_code rows',
      set_inactive_by_id-active_le p.fee_type i p.asset_code rows,
      deactivate-active p.fee_type p.asset_code s.rows,
      not_yet c.effective_from c lt,
    )
  where
    not_yet :
        (u : ℕ) (c : Config)
        → now < c.effective_from
        → count_where (is_candidate now p.fee_type p.asset_code) (c ∷ []) ≡ 0
    not_yet u c h = ground arith

-- A configuration created to hold from now on is the one that `getActiveConfig` answers with
-- afterwards, for its fee type and asset.
pub get_active_config-create_config :
    (kl : Bool) (now : ℕ) (p : Params) (from : Option ℕ) (by : ℕ) (s s' : Store) (c : Config)
    → leb (or_now now from) now ≡ true
    → create_config kl now p from by s ≡ (ok c, s')
    → get_active_config now p.fee_type p.asset_code s' ≡ (some c, s')
get_active_config-create_config kl now p from by s s' c e h =
    let (same, s'_eq) = create_config-eq-ok kl now p from by s s' c h in
    rw (← s'_eq, ← same)
      (cached_some kl now p.fee_type p.asset_code (committed s (create_rows now p from by s)) _
        (create_rows-grouped now p from by s e))

-- A patch whose effective date lies in the future leaves its fee type and asset with no
-- configuration in force: `getActiveConfig` then answers with nothing, where Redis lists its keys to
-- the refresh of the cache.
pub get_active_config-patch_config :
    (now i t : ℕ) (u : Updates) (by : ℕ) (s s' : Store) (c : Config)
    → u.effective_from ≡ some t
    → now < t
    → patch_config true now i u by s ≡ (ok c, s')
    → get_active_config now c.fee_type c.asset_code s' ≡ (none, s')
get_active_config-patch_config now i t u by s s' c e lt h =
    let (p, same, s'_eq) = patch_config-eq-ok true now i u by s s' c h in
    rw (← s'_eq, ← same)
      (cached_none now p.fee_type p.asset_code
        (committed s (patch_rows now i p u.effective_from by s))
        (rw e (patch_rows-candidate now i t p by s lt)))
