-- ===== src/FeeConfig.antt =====
-- The fee configuration store: backend/src/services/feeConfigService.js, the activation job
-- backend/src/jobs/activateScheduledFeeConfigs.js, and the constraint of the table fee_configs in
-- database/migrations/1710000072000_fee_configs.js. Rows stand in the order of their creation.
-- Amounts are in units of 10^-7, times are numbers, identifiers are numbers.
pub mod Table
pub mod Activation
pub mod Active
pub mod Locked
pub mod Preview
mod Examples
use cross_border_payment_app.Base.{
  ℕ, ◌+◌, Bool, true, false, ◌&&◌, ◌||◌, not, Option, none, some, List, [], ◌∷◌, ◌++◌, ltb, leb,
  ◌==◌, if◌then◌else◌, find_where, update_where, any, Error, Result, ◌>>=◌, ◌>>◌, throw_if,
  plain_error, Asset, same_asset, ok, err,
}

pub record Config : Type 0 where
  pub id : ℕ
  pub fee_type : ℕ
  pub asset_code : Asset
  pub fee_bps : ℕ
  pub max_fee_usdc : ℕ
  pub min_fee_usdc : ℕ
  pub is_active : Bool
  pub created_by : ℕ
  pub effective_from : ℕ

-- The table, the next identifier, and the cache by fee type and asset code.
pub record Store : Type 0 where
  pub rows : List Config
  pub next_id : ℕ
  pub cache : ℕ → Asset → Option Config

abbrev pub for_pair : ℕ → Asset → Config → Bool
for_pair t a c = (c.fee_type == t) && same_asset c.asset_code a

abbrev pub is_active_for : ℕ → Asset → Config → Bool
is_active_for t a c = for_pair t a c && c.is_active

abbrev pub set_active : Bool → Config → Config
set_active b c = record c { is_active = b }

-- `UPDATE fee_configs SET is_active = false WHERE fee_type = $1 AND asset_code = $2 AND is_active`
pub deactivate : ℕ → Asset → List Config → List Config
deactivate t a rows = update_where (is_active_for t a) (set_active false) rows

-- `UPDATE fee_configs SET is_active = b WHERE id = $1`
pub set_active_by_id : Bool → ℕ → List Config → List Config
set_active_by_id b i rows = update_where (λ c. c.id == i) (set_active b) rows

-- UNIQUE (fee_type, asset_code, is_active), checked when the transaction commits.
abbrev pub same_flag : Bool → Bool → Bool
same_flag true b = b
same_flag false b = not b

abbrev pub clashes : Config → Config → Bool
clashes c d = for_pair c.fee_type c.asset_code d && same_flag c.is_active d.is_active

pub has_duplicate : List Config → Bool
has_duplicate [] = false
has_duplicate (c ∷ rows) =
    let rest = has_duplicate rows in if any (clashes c) rows then true else rest

abbrev pub unique_violation : Error
unique_violation = record { status = none; code = some "23505" }

pub commit : List Config → Result (List Config)
unfolding has_duplicate
commit rows = if has_duplicate rows then err unique_violation else ok rows

abbrev pub is_effective : ℕ → Config → Bool
is_effective now c = c.is_active && leb c.effective_from now

-- `grouped[key] = row` in a loop: the last row of a pair stays.
pub grouped : ℕ → ℕ → Asset → List Config → Option Config
grouped now t a [] = none
grouped now t a (c ∷ rows) = elim (grouped now t a rows) [
  | some d ↦ some d
  | none ↦ if for_pair t a c && is_effective now c then some c else none
]

-- `keys_listed` says whether Redis answered with its keys; without it stale entries stay.
pub refresh_cache : Bool → ℕ → Store → Store
unfolding grouped
refresh_cache keys_listed now s = record s {
  cache = λ t a. elim (grouped now t a s.rows) [
    | some c ↦ some c
    | none ↦ if keys_listed then none else s.cache t a
  ];
}

-- `ORDER BY effective_from DESC LIMIT 1` over the rows that pass a test.
pub latest : (Config → Bool) → List Config → Option Config
latest p [] = none
latest p (c ∷ rows) = elim (latest p rows) [
  | none ↦ if p c then some c else none
  | some d ↦ if p c && leb d.effective_from c.effective_from then some c else some d
]

abbrev pub is_candidate : ℕ → ℕ → Asset → Config → Bool
is_candidate now t a c = for_pair t a c && is_effective now c

abbrev pub cache_put : ℕ → Asset → Config → (ℕ → Asset → Option Config) → ℕ → Asset → Option Config
cache_put t a c old u b = if (u == t) && same_asset b a then some c else old u b

pub get_active_config : ℕ → ℕ → Asset → Store → Option Config × Store
unfolding latest
get_active_config now t a s = elim (s.cache t a) [
  | some c ↦ (some c, s)
  | none ↦ elim (latest (is_candidate now t a) s.rows) [
    | some c ↦ (some c, record s { cache = cache_put t a c s.cache })
    | none ↦ (none, s)
  ]
]

pub record Params : Type 0 where
  pub fee_type : ℕ
  pub asset_code : Asset
  pub fee_bps : ℕ
  pub max_fee_usdc : ℕ
  pub min_fee_usdc : ℕ

pub check_params : Params → Result (Unit {0})
check_params p = do
  throw_if (ltb 1000 p.fee_bps) plain_error
  throw_if (ltb p.max_fee_usdc p.min_fee_usdc) plain_error

abbrev pub new_row : ℕ → Params → Bool → ℕ → ℕ → Config
new_row i p active by from = record {
  id = i;
  fee_type = p.fee_type;
  asset_code = p.asset_code;
  fee_bps = p.fee_bps;
  max_fee_usdc = p.max_fee_usdc;
  min_fee_usdc = p.min_fee_usdc;
  is_active = active;
  created_by = by;
  effective_from = from;
}

-- The end of both writers: COMMIT, the refresh of the cache, and ROLLBACK with a rethrow on failure.
abbrev pub finish : Bool → ℕ → Store → Config → List Config → Result Config × Store
finish keys_listed now s c rows = elim (commit rows) [
  | ok rows' ↦
      (ok c, refresh_cache keys_listed now (record s { rows = rows'; next_id = s.next_id + 1 }))
  | err e ↦ (err e, s)
]

-- A missing `effectiveFrom` is the present.
abbrev pub or_now : ℕ → Option ℕ → ℕ
or_now now none = now
or_now now (some t) = t

abbrev pub unless_thrown : Result (Unit {0}) → Store → Result Config × Store → Result Config × Store
unless_thrown (ok _) s k = k
unless_thrown (err e) s k = (err e, s)

-- The rows that `createConfig` brings to its COMMIT.
pub create_rows : ℕ → Params → Option ℕ → ℕ → Store → List Config
unfolding deactivate
create_rows now p effective_from created_by s =
    let from = or_now now effective_from in
    let rows = if leb from now then deactivate p.fee_type p.asset_code s.rows else s.rows in
    rows ++ new_row s.next_id p (leb from now) created_by from ∷ []

pub create_config : Bool → ℕ → Params → Option ℕ → ℕ → Store → Result Config × Store
unfolding check_params commit refresh_cache create_rows
create_config keys_listed now p effective_from created_by s =
    let from = or_now now effective_from in
    unless_thrown (check_params p) s (
      finish keys_listed now s (new_row s.next_id p (leb from now) created_by from)
        (create_rows now p effective_from created_by s))

-- The `updates` of a patch; an absent field keeps the row's value.
pub record Updates : Type 0 where
  pub fee_type : Option ℕ
  pub asset_code : Option Asset
  pub fee_bps : Option ℕ
  pub max_fee_usdc : Option ℕ
  pub min_fee_usdc : Option ℕ
  pub effective_from : Option ℕ

abbrev pub or_else {ℓ} : {A : Type ℓ} → Option A → A → A
or_else none a = a
or_else (some b) a = b

abbrev pub merge : Updates → Config → Params
merge u c = record {
  fee_type = or_else u.fee_type c.fee_type;
  asset_code = or_else u.asset_code c.asset_code;
  fee_bps = or_else u.fee_bps c.fee_bps;
  max_fee_usdc = or_else u.max_fee_usdc c.max_fee_usdc;
  min_fee_usdc = or_else u.min_fee_usdc c.min_fee_usdc;
}

-- The rows that `patchConfig` brings to its COMMIT.
pub patch_rows : ℕ → ℕ → Params → Option ℕ → ℕ → Store → List Config
unfolding deactivate set_active_by_id
patch_rows now i p effective_from created_by s =
    set_active_by_id false i (deactivate p.fee_type p.asset_code s.rows)
    ++ new_row s.next_id p true created_by (or_now now effective_from) ∷ []

pub patch_config : Bool → ℕ → ℕ → Updates → ℕ → Store → Result Config × Store
unfolding check_params commit refresh_cache patch_rows
patch_config keys_listed now i u created_by s = elim (find_where (λ c. c.id == i) s.rows) [
  | none ↦ (err plain_error, s)
  | some existing ↦
      let p = merge u existing in
      unless_thrown (check_params p) s (
        finish keys_listed now s (new_row s.next_id p true created_by (or_now now u.effective_from))
          (patch_rows now i p u.effective_from created_by s))
]

-- The job: `seen`, the latest due row of each pair, and the updates in one transaction.
abbrev pub is_due : ℕ → Config → Bool
is_due now c = not c.is_active && leb c.effective_from now

abbrev pub seen_pair : ℕ → Asset → List (ℕ × Asset) → Bool
seen_pair t a seen = any (λ k. (k.0 == t) && same_asset k.1 a) seen

pub to_activate : ℕ → List Config → List (ℕ × Asset) → List Config → List Config
unfolding latest
to_activate now all seen [] = []
to_activate now all seen (c ∷ rows) =
    let skipped = to_activate now all seen rows in
    let later = to_activate now all ((c.fee_type, c.asset_code) ∷ seen) rows in
    if not (is_due now c) || seen_pair c.fee_type c.asset_code seen
    then skipped
    else elim (latest (λ d. for_pair c.fee_type c.asset_code d && leb d.effective_from now) all) [
      | none ↦ later
      | some d ↦ d ∷ later
    ]

pub activate_item : Config → List Config → List Config
unfolding deactivate set_active_by_id
activate_item c rows = set_active_by_id true c.id (deactivate c.fee_type c.asset_code rows)

pub activate_all : List Config → List Config → List Config
unfolding activate_item
activate_all [] rows = rows
activate_all (c ∷ items) rows = activate_all items (activate_item c rows)

pub written : Bool → ℕ → Store → List Config → Result (Unit {0}) × Store
unfolding commit refresh_cache
written keys_listed now s rows = elim (commit rows) [
  | ok rows' ↦ (ok tt, refresh_cache keys_listed now (record s { rows = rows' }))
  | err e ↦ (err e, s)
]

pub activate : Bool → ℕ → Store → List Config → Result (Unit {0}) × Store
unfolding activate_all written
activate keys_listed now s [] = (ok tt, s)
activate keys_listed now s (item ∷ items) =
    written keys_listed now s (activate_all (item ∷ items) s.rows)

pub activate_scheduled : Bool → ℕ → Store → Result (Unit {0}) × Store
unfolding to_activate activate
activate_scheduled keys_listed now s = activate keys_listed now s (to_activate now s.rows [] s.rows)
