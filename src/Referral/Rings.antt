-- ===== src/Referral/Rings.antt =====
-- The rings of accounts that backend/src/services/referralAbuseGuard.js finds.
use cross_border_payment_app.Referral.{
  User, parent_of, max_referral_chain_depth, walk, detect_referral_abuse,
}
use cross_border_payment_app.Base.{
  ℕ, zero, suc, ◌<◌, ◌≡◌, ◌≢◌, inl, inr, true, Option, none, some, List, [], ◌∷◌, arith,
  Option-cases,
}

-- The account that stands the given number of referrals above.
abbrev pub ancestor : List User → ℕ → ℕ → Option ℕ
ancestor users zero i = some i
ancestor users (suc n) i = elim (parent_of users i) [ none ↦ none | some p ↦ ancestor users n p ]

walk_finds :
    (users : List User) (referee hops n current : ℕ) (visited : List ℕ)
    → n < hops
    → ancestor users (suc n) current ≡ some referee
    → walk users referee hops current visited ≡ true
unfolding walk
walk_finds users referee zero n current visited le h = absurd (omega arith)
walk_finds users referee (suc hops) zero current visited le h =
    elim (Option-cases (parent_of users current)) [
      | inl e ↦ absurd (ground arith)
      | inr (p, e) ↦ let eq : p ≡ referee = ground arith in ground arith
    ]
walk_finds users referee (suc hops) (suc n) current visited le h =
    elim (Option-cases (parent_of users current)) [
      | inl e ↦ absurd (ground arith)
      | inr (p, e) ↦
          let above : ancestor users (suc n) p ≡ some referee = ground arith in
          ground (arith, walk_finds users referee hops n p (p ∷ visited) (omega arith) above)
    ]

-- A referee who stands at most 20 referrals above the referrer is always found: the referral counts as
-- abuse, for one reason or another.
pub detect_referral_abuse-ring :
    (users : List User) (referrer referee n : ℕ)
    → n < max_referral_chain_depth
    → ancestor users (suc n) referrer ≡ some referee
    → detect_referral_abuse users (some referrer) (some referee) ≢ none
unfolding detect_referral_abuse
detect_referral_abuse-ring users referrer referee n le h =
    let found = walk_finds users referee max_referral_chain_depth n referrer (referrer ∷ []) le h in
    ground (arith, found)
