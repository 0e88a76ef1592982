-- ===== src/Savings/Withdrawals.antt =====
-- How often, and with how much, a vault of backend/src/controllers/savingsController.js is paid out.
use mathlib.Core.Path.{subst}
use cross_border_payment_app.Savings.Locking.{begin_create-cases}
use cross_border_payment_app.Savings.{
  Terms, owned, begin_create, insert_vault, new_vault, finish_withdraw, settled,
  calculate_early_withdrawal_penalty, is_withdrawn, with_id_locked, NewVault, with_id, payout_of,
  State, Payout, Holdings, Vault, get_withdraw_quote,
}
use cross_border_payment_app.Base.{
  ℕ, ◌+◌, ◌-◌, ◌*◌, ◌≤◌, ◌≡◌, refl, inl, inr, Bool, true, false, ◌&&◌, List, [], ◌∷◌, ◌++◌, arith,
  ltb, ◌==◌, if◌then◌else◌, Bool-cases, Option-cases, find_where, count_where, update_where, any,
  All, count-update_where, All-middle, count_where_le, json,
}

-- The handlers interleaved: `withdraw` is two steps, and other calls may come between. A withdrawal that
-- has read its vault waits with the payout it has computed, and `create`, once it has compared the sum of
-- the locked vaults with the balance, with the row that it is to insert.
pub record System : Type 0 where
  pub state : State
  pub waiting : List Payout
  pub opening : List Vault

pub data Step (terms : Terms) (y : System) : System → Type 0 where
  check_step :
      (now : ℕ) (h : Holdings) (i user : ℕ) (q : NewVault) (v : Vault)
      → begin_create now h i user q y.state ≡ inr v
      → Step terms y (record y { opening = v ∷ y.opening })
  insert_step :
      (before after : List Vault) (v : Vault)
      → y.opening ≡ before ++ v ∷ after
      → count_where (with_id v.id) y.state.vaults ≡ 0
      → Step terms y (record y { state = insert_vault v y.state; opening = before ++ after })
  read_step :
      (now user i : ℕ) (p : Payout)
      → get_withdraw_quote terms now user i y.state ≡ json p
      → Step terms y (record y { waiting = p ∷ y.waiting })
  write_step :
      (before after : List Payout) (p : Payout)
      → y.waiting ≡ before ++ p ∷ after
      → Step terms y (record y { state = (finish_withdraw p y.state).1; waiting = before ++ after })

pub data Reach (terms : Terms) : System → Type 0 where
  start :
      Reach terms
        (record { state = record { vaults = []; payouts = [] }; waiting = []; opening = [] })
  next : {y y' : System} → Reach terms y → Step terms y y' → Reach terms y'

abbrev pub is_paid : ℕ → Payout → Bool
is_paid i p = p.vault_id == i

abbrev pub withdrawn_with : ℕ → Vault → Bool
withdrawn_with i v = v.id == i && is_withdrawn v.status

-- The penalty is below the amount, and `toFixed` gives a nearest unit.
abbrev pub IsFair : Terms → Type 0
IsFair terms =
    (terms.bps ≤ 10000)
    × ((n : ℕ) → (terms.to_fixed n * 10000 ≤ n + 5000) × (n ≤ terms.to_fixed n * 10000 + 5000))

-- What a payout says of itself: one that is not early is the amount, with no penalty; for an early one
-- the penalty is within half a unit of its rate, and with what is paid makes up the amount but for one
-- unit at most, since the two are rounded on their own.
abbrev pub IsSettled : Terms → Payout → Type 0
IsSettled terms p =
    (p.early_withdrawal ≡ false → (p.penalty ≡ 0) × (p.payout ≡ p.amount))
    × (p.early_withdrawal ≡ true
        → (p.penalty * 10000 ≤ p.amount * terms.bps + 5000)
          × (p.amount * terms.bps ≤ p.penalty * 10000 + 5000))
    × (p.payout + p.penalty ≤ p.amount + 1)
    × (p.amount ≤ p.payout + p.penalty + 1)

pub record IsValid (terms : Terms) (y : System) : Type 0 where
  pub unique : (i : ℕ) → count_where (with_id i) y.state.vaults ≤ 1
  pub paid :
      (i : ℕ)
      → count_where (is_paid i) y.state.payouts ≡ count_where (withdrawn_with i) y.state.vaults
  pub payouts_settled : All (IsSettled terms) y.state.payouts
  pub waiting_settled : All (IsSettled terms) y.waiting
  pub opening_locked : All (λ v. is_withdrawn v.status ≡ false) y.opening

count_settled :
    (i j : ℕ) (p : Payout) (vs : List Vault)
    → count_where (withdrawn_with i) (update_where (with_id_locked j) (settled p) vs)
      ≡ count_where (withdrawn_with i) vs
        + (if j == i then count_where (with_id_locked j) vs else 0)
count_settled i j p [] = ground arith
count_settled i j p (v ∷ vs) = ground (arith, count_settled i j p vs)

any_count : (p : Vault → Bool) (vs : List Vault) → any p vs ≡ true → 1 ≤ count_where p vs
any_count p [] h = cc
any_count p (v ∷ vs) h = ground (arith, any_count p vs)

penalty_le : (terms amount : ℕ) → terms ≤ 10000 → amount * terms ≤ amount * 10000
penalty_le terms amount h = grind arith

payout-IsSettled :
    (terms : Terms) (now : ℕ) (v : Vault) → IsFair terms → IsSettled terms (payout_of terms now v)
unfolding payout_of calculate_early_withdrawal_penalty
payout-IsSettled terms now v (low, near) = elim (Bool-cases (ltb now v.unlock_timestamp)) [
  | inl e ↦
      let le = penalty_le terms.bps v.amount low in
      let a = near (v.amount * terms.bps) in
      let b = near (v.amount * 10000 - v.amount * terms.bps) in
      rw (e, payout_of)
        (λ h. absurd (ground arith), λ h. (omega arith, omega arith), omega arith, omega arith)
  | inr e ↦
      let a = near 0 in
      let b = near (v.amount * 10000) in
      rw (e, payout_of)
        (λ h. (omega arith, omega arith), λ h. absurd (ground arith), omega arith, omega arith)
]

quote-IsSettled :
    (terms : Terms) (now user i : ℕ) (s : State) (p : Payout)
    → IsFair terms
    → get_withdraw_quote terms now user i s ≡ json p
    → IsSettled terms p
unfolding get_withdraw_quote
quote-IsSettled terms now user i s p fair e =
    elim (Option-cases (find_where (owned i user) s.vaults)) [
      | inl f ↦ absurd (ground arith)
      | inr (v, f) ↦ elim (Bool-cases (is_withdrawn v.status)) [
        | inl g ↦ absurd (ground arith)
        | inr g ↦
            let same : payout_of terms now v ≡ p = ground arith in
            subst (IsSettled terms) same (payout-IsSettled terms now v fair)
      ]
    ]

finish-IsValid :
    (terms : Terms) (before after : List Payout) (p : Payout) (s : State) (vs : List Vault)
    → IsValid terms (record { state = s; waiting = before ++ p ∷ after; opening = vs })
    → IsValid terms
        (record { state = (finish_withdraw p s).1; waiting = before ++ after; opening = vs })
unfolding finish_withdraw
finish-IsValid terms before after p s vs v =
    let (this, rest) = All-middle (IsSettled terms) before after p v.waiting_settled in
    elim (Bool-cases (any (with_id_locked p.vault_id) s.vaults)) [
      | inr f ↦
          rw (finish_withdraw, f)
            (record {
              unique = v.unique;
              paid = v.paid;
              payouts_settled = v.payouts_settled;
              waiting_settled = rest;
              opening_locked = v.opening_locked;
            })
      | inl f ↦
          let some_row = any_count (with_id_locked p.vault_id) s.vaults f in
          let few =
            count_where_le (with_id_locked p.vault_id) (with_id p.vault_id) s.vaults
              (λ w h. ground arith) in
          rw (finish_withdraw, f)
            (record {
              unique = λ i.
                  rw
                    (count-update_where (with_id i) (with_id_locked p.vault_id) (settled p) s.vaults
                      (λ w. refl))
                    (v.unique i);
              paid = λ i.
                  ground
                    (arith, v.paid i, v.unique p.vault_id, count_settled i p.vault_id p s.vaults);
              payouts_settled = (this, v.payouts_settled);
              waiting_settled = rest;
              opening_locked = v.opening_locked;
            })
    ]

begin_create-locked :
    (now i user : ℕ) (h : Holdings) (q : NewVault) (s : State) (v : Vault)
    → begin_create now h i user q s ≡ inr v
    → is_withdrawn v.status ≡ false
begin_create-locked now i user h q s v e = elim (begin_create-cases now i user h q s) [
  | inl (r, f, g) ↦ cc
  | inr (amount, f, g) ↦
      let same : new_vault now i user q amount ≡ v = cc in
      subst (λ w. is_withdrawn w.status ≡ false) same refl
]

insert-IsValid :
    (terms : Terms) (before after : List Vault) (w : Vault) (y : System)
    → y.opening ≡ before ++ w ∷ after
    → count_where (with_id w.id) y.state.vaults ≡ 0
    → IsValid terms y
    → IsValid terms (record y { state = insert_vault w y.state; opening = before ++ after })
insert-IsValid terms before after w y e fresh v =
    let (locked, rest) =
      All-middle (λ v. is_withdrawn v.status ≡ false) before after w
        (subst (All (λ v. is_withdrawn v.status ≡ false)) e v.opening_locked) in
    record {
      unique = λ j. ground (arith, v.unique j);
      paid = λ j. ground (arith, v.paid j, locked);
      payouts_settled = v.payouts_settled;
      waiting_settled = v.waiting_settled;
      opening_locked = rest;
    }

Reach-IsValid : (terms : Terms) {y : System} → IsFair terms → Reach terms y → IsValid terms y
Reach-IsValid terms fair start = record {
  unique = λ i. omega arith;
  paid = λ i. refl;
  payouts_settled = tt;
  waiting_settled = tt;
  opening_locked = tt;
}
Reach-IsValid terms fair (next {y} r (check_step now h i user q w e)) =
    let v = Reach-IsValid terms fair r in
    record {
      unique = v.unique;
      paid = v.paid;
      payouts_settled = v.payouts_settled;
      waiting_settled = v.waiting_settled;
      opening_locked = (begin_create-locked now i user h q y.state w e, v.opening_locked);
    }
Reach-IsValid terms fair (next {y} r (insert_step before after w e fresh)) =
    insert-IsValid terms before after w y e fresh (Reach-IsValid terms fair r)
Reach-IsValid terms fair (next {y} r (read_step now user i p e)) =
    let v = Reach-IsValid terms fair r in
    record {
      unique = v.unique;
      paid = v.paid;
      payouts_settled = v.payouts_settled;
      waiting_settled = (quote-IsSettled terms now user i y.state p fair e, v.waiting_settled);
      opening_locked = v.opening_locked;
    }
Reach-IsValid terms fair (next {y} r (write_step before after p e)) =
    let v = Reach-IsValid terms fair r in
    finish-IsValid terms before after p y.state y.opening (record {
      unique = v.unique;
      paid = v.paid;
      payouts_settled = v.payouts_settled;
      waiting_settled = subst (All (IsSettled terms)) e v.waiting_settled;
      opening_locked = v.opening_locked;
    })

-- Whatever calls are made, and however the parts of `create` and `withdraw` are interleaved, a vault is
-- paid out at most once, exactly when it stands as withdrawn, and each payout and its penalty make up the
-- amount: exactly for one that is not early, which has no penalty, and within one unit of 10^-7 for an
-- early one, whose penalty is within half a unit of its rate; if the rate is at most 100 per cent and
-- `toFixed` gives a nearest number.
pub Reach-paid :
    {y : System} (terms : Terms) (i : ℕ)
    → IsFair terms
    → Reach terms y
    → (count_where (is_paid i) y.state.payouts ≤ 1)
      × (count_where (is_paid i) y.state.payouts ≡ count_where (withdrawn_with i) y.state.vaults)
      × All (IsSettled terms) y.state.payouts
Reach-paid {y} terms i fair r =
    let v = Reach-IsValid terms fair r in
    let few = count_where_le (withdrawn_with i) (with_id i) y.state.vaults (λ w h. ground arith) in
    (ground (arith, v.paid i, v.unique i), v.paid i, v.payouts_settled)
