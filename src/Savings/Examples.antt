-- ===== src/Savings/Examples.antt =====
-- A vault that is opened and paid out, and two withdrawals at once.
use cross_border_payment_app.Savings.{
  new_vault, total_locked, payout_of, NewVault, Vault, may_create, Holdings, State, Payout, list,
  Terms, begin_create, create, calculate_early_withdrawal_penalty, counts_for, withdraw,
  get_withdraw_quote, finish_withdraw,
}
use cross_border_payment_app.Payment.{Balances, available, required, check_sufficient_balance}
use cross_border_payment_app.Savings.Locking.{create-covered}
use cross_border_payment_app.Savings.Withdrawals.{
  next, System, Reach, start, check_step, insert_step, read_step, write_step, is_paid,
  withdrawn_with, IsFair, IsSettled, Reach-paid,
}
use cross_border_payment_app.Base.{
  ◌+◌, ◌/◌, ◌≤◌, ◌≡◌, refl, inl, inr, arith, true, false, some, [], ◌∷◌, count_where, All,
  same_asset, xlm, usdc, json, rejected, pos,
}

-- 100 lumens
abbrev holdings : Holdings
holdings = record { has_wallet = true; balances = some ((xlm, 1000000000) ∷ []) }

abbrev request : NewVault
request = record { amount = pos 500000000; asset = xlm; lock_period_days = 7 }

-- A penalty of 10 per cent. A half that the floating-point product falls short of is rounded down.
abbrev terms : Terms
terms = record { bps = 1000; to_fixed = λ n. (n + 4999) / 10000 }

terms-IsFair : IsFair terms
terms-IsFair = (omega arith, λ n. (omega arith, omega arith))

abbrev empty : State
empty = record { vaults = []; payouts = [] }

abbrev vault : Vault
vault = new_vault 100 1 9 request 500000000

abbrev one_vault : State
one_vault = record { vaults = vault ∷ []; payouts = [] }

opened : create 100 holdings 1 9 request empty ≡ (json vault, one_vault)
unfolding create check_sufficient_balance available same_asset
opened = refl

-- A second vault of the same size would leave nothing for the fee.
too_much : (create 100 holdings 2 9 request one_vault).0 ≡ rejected 400 "INSUFFICIENT_BALANCE"
unfolding create check_sufficient_balance available same_asset
too_much = refl

sum : total_locked 9 xlm one_vault.vaults ≡ 500000000
unfolding total_locked same_asset
sum = refl

counted : counts_for 9 usdc vault ≡ false
unfolding counts_for same_asset
counted = refl

not_a_period :
    may_create holdings (record request { lock_period_days = 8 }) 0 ≡ inl (rejected 400 "")
unfolding may_create
not_a_period = refl

listed : list 8 one_vault ≡ json []
unfolding list
listed = refl

abbrev early : Payout
early = record {
  vault_id = 1;
  amount = 500000000;
  payout = 450000000;
  penalty = 50000000;
  early_withdrawal = true;
}

ten_percent : calculate_early_withdrawal_penalty 1000 500000000 ≡ 500000000000
unfolding calculate_early_withdrawal_penalty
ten_percent = refl

paid_early : payout_of terms 200 vault ≡ early
unfolding payout_of calculate_early_withdrawal_penalty
paid_early = refl

paid_in_full : (payout_of terms 700000 vault).payout ≡ 500000000
unfolding payout_of calculate_early_withdrawal_penalty
paid_in_full = refl

quoted : get_withdraw_quote terms 200 9 1 one_vault ≡ json early
unfolding get_withdraw_quote
quoted = refl

abbrev after : State
after = (finish_withdraw early one_vault).1

finished : after.payouts ≡ early ∷ []
unfolding finish_withdraw
finished = refl

withdrawn_twice : (withdraw terms 300 9 1 after).0 ≡ rejected 400 ""
unfolding withdraw finish_withdraw
withdrawn_twice = refl

abbrev first_system : System
first_system = record { state = one_vault; waiting = []; opening = [] }

checked : begin_create 100 holdings 1 9 request empty ≡ inr vault
unfolding begin_create check_sufficient_balance available same_asset
checked = refl

first_quote : get_withdraw_quote terms 200 9 1 first_system.state ≡ json early
unfolding get_withdraw_quote
first_quote = refl

-- Neither part of 0.0000015 is rounded up.
one_unit_lost :
    payout_of terms 200 (record vault { amount = 15 })
    ≡ record { vault_id = 1; amount = 15; payout = 13; penalty = 1; early_withdrawal = true }
unfolding payout_of calculate_early_withdrawal_penalty
one_unit_lost = refl

abbrev last : State
last = (finish_withdraw early (finish_withdraw early first_system.state).1).1

reached : Reach terms (record { state = last; waiting = []; opening = [] })
reached =
    next
      (next
        (next
          (next
            (next (next start (check_step 100 holdings 1 9 request vault checked))
              (insert_step [] [] vault refl refl))
            (read_step 200 9 1 early first_quote))
          (read_step 200 9 1 early first_quote))
        (write_step [] (early ∷ []) early refl))
      (write_step [] [] early refl)

Reach-paid_example :
    (count_where (is_paid 1) last.payouts ≤ 1)
    × (count_where (is_paid 1) last.payouts ≡ count_where (withdrawn_with 1) last.vaults)
    × All (IsSettled terms) last.payouts
Reach-paid_example = Reach-paid terms 1 terms-IsFair reached

created : (create 100 holdings 1 9 request empty).0 ≡ json vault
unfolding create check_sufficient_balance available same_asset
created = refl

create-covered_example :
    (bs : Balances) × (holdings.balances ≡ some bs)
    × (required (total_locked 9 request.asset (create 100 holdings 1 9 request empty).1.vaults) xlm
        ≤ available xlm bs)
create-covered_example = create-covered 100 1 9 holdings request empty vault created
