-- ===== src/Savings/Locking.antt =====
-- What may be locked in the vaults of backend/src/controllers/savingsController.js.
use mathlib.Core.Path.{subst}
use cross_border_payment_app.Savings.{
  refusal, new_vault, Vault, State, counts_for, total_locked, check_balance, begin_create, create,
  NewVault, Holdings, may_create,
}
use cross_border_payment_app.Payment.{Balances, available, required, check_sufficient_balance}
use cross_border_payment_app.Payment.Preflight.{check_sufficient_balance_iff}
use cross_border_payment_app.Base.{
  ℕ, ◌+◌, ◌≤◌, ◌≡◌, refl, ap, ◌∙◌, ◌≢◌, ◌⊎◌, inl, inr, true, some, List, ◌∷◌, arith, ◌==◌,
  Option-cases, Error, Result-cases, Reply, Asset, same_asset, same_asset_refl, ℤ, ok, json, pos,
  negsuc,
}

ℤ-cases : (z : ℤ) → ((n : ℕ) × (z ≡ pos n)) ⊎ ((n : ℕ) × (z ≡ negsuc n))
ℤ-cases (pos n) = inl (n, refl)
ℤ-cases (negsuc n) = inr (n, refl)

may_create-covered :
    (h : Holdings) (q : NewVault) (total amount : ℕ)
    → may_create h q total ≡ inr amount
    → check_balance h (amount + total) q.asset ≡ ok tt
unfolding may_create
may_create-covered h q total amount e = elim (ℤ-cases q.amount) [
  | inr (n, z) ↦ absurd (ground arith)
  | inl (n, z) ↦ elim (Result-cases (check_balance h (n + total) q.asset)) [
    | inr (r, f) ↦ absurd (ground arith)
    | inl (x, f) ↦ let same : n ≡ amount = ground arith in rw⁻¹ same f
  ]
]

covered :
    (h : Holdings) (n : ℕ) (a : Asset)
    → check_balance h n a ≡ ok tt
    → (bs : Balances) × (h.balances ≡ some bs) × (required n a ≤ available a bs)
covered h n a e = elim (Option-cases h.balances) [
  | inl f ↦ absurd (ground arith)
  | inr (bs, f) ↦
      let enough : check_sufficient_balance bs n a ≡ ok tt = ground arith in
      (bs, f, (check_sufficient_balance_iff bs n a).0 enough)
]

pub ok-cases : {A B : Type 0} (r : A ⊎ B) → ((a : A) × (r ≡ inl a)) ⊎ ((b : B) × (r ≡ inr b))
ok-cases (inl a) = inl (a, refl)
ok-cases (inr b) = inr (b, refl)

total-new :
    (now i user amount : ℕ) (q : NewVault) (vs : List Vault)
    → total_locked user q.asset (new_vault now i user q amount ∷ vs)
      ≡ amount + total_locked user q.asset vs
unfolding total_locked counts_for
total-new now i user amount q vs =
    let mine : (user == user) ≡ true = ground arith in
    let same : same_asset q.asset q.asset ≡ true = same_asset_refl q.asset in rw (mine, same) refl

refusal-not_json : (r : Error) (v : Vault) → refusal r ≢ json v
refusal-not_json r v h = elim (Option-cases r.status) [
  | inl e ↦ absurd (ground arith)
  | inr (n, e) ↦ absurd (ground arith)
]

may_create-not_json :
    (h : Holdings) (q : NewVault) (total : ℕ) (v : Vault) → may_create h q total ≢ inl (json v)
unfolding may_create
may_create-not_json h q total v e = elim (ℤ-cases q.amount) [
  | inr (n, z) ↦ absurd (ground arith)
  | inl (n, z) ↦ elim (Result-cases (check_balance h (n + total) q.asset)) [
    | inr (r, f) ↦ let never = refusal-not_json r v in absurd (ground arith)
    | inl (x, f) ↦ absurd (ground arith)
  ]
]

pub begin_create-cases :
    (now i user : ℕ) (h : Holdings) (q : NewVault) (s : State)
    → ((r : Reply Vault) × (may_create h q (total_locked user q.asset s.vaults) ≡ inl r)
        × (begin_create now h i user q s ≡ inl r))
      ⊎ ((amount : ℕ) × (may_create h q (total_locked user q.asset s.vaults) ≡ inr amount)
          × (begin_create now h i user q s ≡ inr (new_vault now i user q amount)))
unfolding begin_create
begin_create-cases now i user h q s =
    elim (ok-cases (may_create h q (total_locked user q.asset s.vaults))) [
      | inl (r, f) ↦ inl (r, f, rw (begin_create, f) refl)
      | inr (amount, f) ↦ inr (amount, f, rw (begin_create, f) refl)
    ]

create-refused :
    (now i user : ℕ) (h : Holdings) (q : NewVault) (s : State) (r : Reply Vault)
    → begin_create now h i user q s ≡ inl r
    → create now h i user q s ≡ (r, s)
unfolding create
create-refused now i user h q s r f = rw (create, f) refl

-- When `create` gives a vault, and no other call came between its read of the locked sum and its INSERT,
-- all that the caller then has locked of its asset, with the fee that a payment of it would need, is
-- covered by the balance of the wallet, as the cache or the network told it.
pub create-covered :
    (now i user : ℕ) (h : Holdings) (q : NewVault) (s : State) (v : Vault)
    → (create now h i user q s).0 ≡ json v
    → (bs : Balances) × (h.balances ≡ some bs)
      × (required (total_locked user q.asset (create now h i user q s).1.vaults) q.asset
          ≤ available q.asset bs)
unfolding create
create-covered now i user h q s v e =
    let total = total_locked user q.asset s.vaults in
    elim (begin_create-cases now i user h q s) [
      | inl (r, f, g) ↦
          let same : r ≡ json v =
            subst (λ z. z ≡ json v) (ap (λ z. z.0) (create-refused now i user h q s r g)) e in
          absurd (may_create-not_json h q total v (f ∙ ap inl same))
      | inr (amount, f, g) ↦
          let (bs, has, enough) =
            covered h (amount + total) q.asset (may_create-covered h q total amount f) in
          (bs, has, rw (create, g, total-new now i user amount q s.vaults) enough)
    ]
