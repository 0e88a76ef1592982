-- ===== src/FeeConfig/Table.antt =====
-- Counting the rows of a pair through the updates of backend/src/services/feeConfigService.js.
use cross_border_payment_app.FeeConfig.{
  Config, for_pair, is_active_for, deactivate, set_active_by_id, clashes, has_duplicate, latest,
  is_candidate, grouped,
}
use cross_border_payment_app.Base.{
  ℕ, ◌+◌, ◌≤◌, ◌≡◌, refl, inl, inr, Bool, true, false, ◌&&◌, not, none, some, List, [], ◌∷◌, ◌++◌,
  arith, Bool-cases, count_where, any, Asset, same_asset_iff,
}

abbrev pub is_inactive_for : ℕ → Asset → Config → Bool
is_inactive_for t a c = for_pair t a c && not c.is_active

-- After `deactivate` the pair has no active row.
pub deactivate-active :
    (t : ℕ) (a : Asset) (rows : List Config)
    → count_where (is_active_for t a) (deactivate t a rows) ≡ 0
unfolding deactivate
deactivate-active t a [] = refl
deactivate-active t a (c ∷ rows) = ground (arith, deactivate-active t a rows)

-- No pair gains an active row.
pub deactivate-active_le :
    (t u : ℕ) (a b : Asset) (rows : List Config)
    → count_where (is_active_for u b) (deactivate t a rows) ≤ count_where (is_active_for u b) rows
unfolding deactivate
deactivate-active_le t u a b [] = omega arith
deactivate-active_le t u a b (c ∷ rows) = ground (arith, deactivate-active_le t u a b rows)

-- Every active row of the pair becomes an inactive one.
pub deactivate-inactive :
    (t : ℕ) (a : Asset) (rows : List Config)
    → count_where (is_inactive_for t a) (deactivate t a rows)
      ≡ count_where (is_inactive_for t a) rows + count_where (is_active_for t a) rows
unfolding deactivate
deactivate-inactive t a [] = omega arith
deactivate-inactive t a (c ∷ rows) = ground (arith, deactivate-inactive t a rows)

pub set_inactive_by_id-active_le :
    (u i : ℕ) (b : Asset) (rows : List Config)
    → count_where (is_active_for u b) (set_active_by_id false i rows)
      ≤ count_where (is_active_for u b) rows
unfolding set_active_by_id
set_inactive_by_id-active_le u i b [] = omega arith
set_inactive_by_id-active_le u i b (c ∷ rows) =
    ground (arith, set_inactive_by_id-active_le u i b rows)

clashes_of_inactive :
    (t : ℕ) (a : Asset) (c d : Config)
    → is_inactive_for t a c ≡ true
    → is_inactive_for t a d ≡ true
    → clashes c d ≡ true
clashes_of_inactive t a c d h k = ground (
  arith,
  same_asset_iff c.asset_code a,
  same_asset_iff d.asset_code a,
  same_asset_iff d.asset_code c.asset_code,
)

inactive_clashes :
    (t : ℕ) (a : Asset) (c : Config) (rows : List Config)
    → is_inactive_for t a c ≡ true
    → 1 ≤ count_where (is_inactive_for t a) rows
    → any (clashes c) rows ≡ true
inactive_clashes t a c [] h k = absurd (omega arith)
inactive_clashes t a c (d ∷ rows) h k = elim (Bool-cases (is_inactive_for t a d)) [
  | inl e ↦ rw (clashes_of_inactive t a c d h e) refl
  | inr e ↦ elim (Bool-cases (clashes c d)) [
    | inl f ↦ rw f refl
    | inr f ↦ rw f (inactive_clashes t a c rows h (let k' = rw e at k in omega arith))
  ]
]

-- Two inactive rows of one pair violate the constraint.
pub has_duplicate_of_count :
    (t : ℕ) (a : Asset) (rows : List Config)
    → 2 ≤ count_where (is_inactive_for t a) rows
    → has_duplicate rows ≡ true
unfolding has_duplicate
has_duplicate_of_count t a [] h = absurd (omega arith)
has_duplicate_of_count t a (c ∷ rows) h =
    ground (arith, inactive_clashes t a c rows, has_duplicate_of_count t a rows)

-- With no row that passes the test there is no latest row.
pub latest_of_count :
    (p : Config → Bool) (rows : List Config) → count_where p rows ≡ 0 → latest p rows ≡ none
unfolding latest
latest_of_count p [] h = refl
latest_of_count p (c ∷ rows) h = ground (arith, latest_of_count p rows)

pub grouped_of_count :
    (now t : ℕ) (a : Asset) (rows : List Config)
    → count_where (is_candidate now t a) rows ≡ 0
    → grouped now t a rows ≡ none
unfolding grouped
grouped_of_count now t a [] h = refl
grouped_of_count now t a (c ∷ rows) h = ground (arith, grouped_of_count now t a rows)

-- The last row wins.
pub grouped-append :
    (now t : ℕ) (a : Asset) (rows : List Config) (c : Config)
    → is_candidate now t a c ≡ true
    → grouped now t a (rows ++ c ∷ []) ≡ some c
unfolding grouped
grouped-append now t a [] c h = ground arith
grouped-append now t a (d ∷ rows) c h = ground (arith, grouped-append now t a rows c h)

-- A candidate is active.
pub candidate_le :
    (now t : ℕ) (a : Asset) (rows : List Config)
    → count_where (is_candidate now t a) rows ≤ count_where (is_active_for t a) rows
candidate_le now t a [] = omega arith
candidate_le now t a (c ∷ rows) = ground (arith, candidate_le now t a rows)
