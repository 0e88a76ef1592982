-- ===== src/Referral/Rewards.antt =====
-- How often backend/src/services/referralRewardService.js rewards a referral.
use cross_border_payment_app.Referral.{
  row, flagged, detect_referral_abuse, parent_of, User, Reward, Mint, State, Events, conflicts,
  of_referee, credit, credit_referral_reward,
}
use cross_border_payment_app.Base.{
  ℕ, ◌≤◌, ◌≡◌, refl, inl, inr, Bool, false, some, List, [], ◌∷◌, arith, ◌==◌, Bool-cases,
  Option-cases, count_where, any,
}

-- A call, with the users and the events at its time.
pub record Call : Type 0 where
  pub tokens : ℕ
  pub users : List User
  pub events : Events
  pub referee : ℕ
  pub payment : ℕ

unfoldable pub run_calls : List Call → State → State
unfolding credit_referral_reward
run_calls [] s = s
run_calls (c ∷ calls) s =
    run_calls calls (credit_referral_reward c.tokens c.users c.events c.referee c.payment s)

abbrev pub is_for : ℕ → Mint → Bool
is_for i m = m.referee == i

-- Each referee has at most one row, and no more mints than rows.
abbrev pub IsValid : State → Type 0
IsValid s =
    (i : ℕ)
    → (count_where (of_referee i) s.rewards ≤ 1)
      × (count_where (is_for i) s.mints ≤ count_where (of_referee i) s.rewards)

no_conflict :
    (referee payment : ℕ) (rs : List Reward)
    → any (conflicts referee payment) rs ≡ false
    → count_where (of_referee referee) rs ≡ 0
no_conflict referee payment [] h = refl
no_conflict referee payment (r ∷ rs) h = ground (arith, no_conflict referee payment rs)

flagged-IsValid :
    (referrer referee payment : ℕ) (s : State)
    → IsValid s
    → any (conflicts referee payment) s.rewards ≡ false
    → IsValid (record s { rewards = row referrer referee 0 flagged payment ∷ s.rewards })
flagged-IsValid referrer referee payment s v free i =
    let (rows, minted) = v i in
    let (none_rows, none_minted) = v referee in
    let none_yet = no_conflict referee payment s.rewards free in
    (ground (arith, none_yet), ground arith)

granted-IsValid :
    (tokens : ℕ) (e : Events) (referrer referee payment : ℕ) (s : State)
    → IsValid s
    → any (conflicts referee payment) s.rewards ≡ false
    → IsValid (credit tokens e referrer referee payment s)
unfolding credit
granted-IsValid tokens e referrer referee payment s v free i =
    let (rows, minted) = v i in
    let none_yet = no_conflict referee payment s.rewards free in
    let (none_rows, none_minted) = v referee in (ground (arith, none_yet), ground (arith, none_yet))

credit-IsValid :
    (tokens : ℕ) (users : List User) (e : Events) (referee payment : ℕ) (s : State)
    → IsValid s
    → IsValid (credit_referral_reward tokens users e referee payment s)
unfolding credit_referral_reward
credit-IsValid tokens users e referee payment s v = elim (Option-cases (parent_of users referee)) [
  | inl none_found ↦ rw (credit_referral_reward, none_found) v
  | inr (referrer, found) ↦ elim (Bool-cases (any (conflicts referee payment) s.rewards)) [
    | inl taken ↦ rw (credit_referral_reward, found, taken) v
    | inr free ↦ elim (Option-cases (detect_referral_abuse users (some referrer) (some referee))) [
      | inl clean ↦
          rw (credit_referral_reward, found, free, clean)
            (granted-IsValid tokens e referrer referee payment s v free)
      | inr (reason, abuse) ↦
          rw (credit_referral_reward, found, free, abuse)
            (flagged-IsValid referrer referee payment s v free)
    ]
  ]
]

run_calls-IsValid : (calls : List Call) (s : State) → IsValid s → IsValid (run_calls calls s)
unfolding run_calls
run_calls-IsValid [] s v = v
run_calls-IsValid (c ∷ calls) s v =
    run_calls-IsValid calls (credit_referral_reward c.tokens c.users c.events c.referee c.payment s)
      (credit-IsValid c.tokens c.users c.events c.referee c.payment s v)

-- Whatever payments are reported, in whatever order, with whatever events, each referee has at most one
-- row of rewards and brings at most one mint of tokens, when there was nothing at the start.
pub rewarded_at_most_once :
    (calls : List Call) (i : ℕ)
    → let s = run_calls calls (record { rewards = []; mints = [] }) in
      (count_where (of_referee i) s.rewards ≤ 1)
      × (count_where (is_for i) s.mints ≤ count_where (of_referee i) s.rewards)
rewarded_at_most_once calls i =
    run_calls-IsValid calls (record { rewards = []; mints = [] }) (λ j. (omega arith, omega arith))
      i
