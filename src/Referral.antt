-- ===== src/Referral.antt =====
-- Rewards for referrals: backend/src/services/referralAbuseGuard.js and
-- backend/src/services/referralRewardService.js. Users, codes, payments and the parts of an identity are
-- numbers; an empty text is missing.
pub mod Rings
pub mod Rewards
mod Examples
use cross_border_payment_app.Base.{
  ℕ, zero, suc, Bool, true, false, ◌&&◌, ◌||◌, Option, none, some, List, [], ◌∷◌, ◌==◌,
  if◌then◌else◌, find_where, any,
}

pub record User : Type 0 where
  pub id : ℕ
  pub referral_code : ℕ
  pub referred_by : Option ℕ
  pub id_type : Option ℕ
  pub id_last4 : Option ℕ
  pub dob : Option ℕ

pub data Abuse : Type 0 where
  self_referral kyc_identity_match circular_chain : Abuse

abbrev pub by_id : ℕ → List User → Option User
by_id i users = find_where (λ u. u.id == i) users

abbrev pub by_code : Option ℕ → List User → Option User
by_code none users = none
by_code (some c) users = find_where (λ u. u.referral_code == c) users

-- A part that is there, and the same.
abbrev pub same_part : Option ℕ → Option ℕ → Bool
same_part (some a) (some b) = a == b
same_part _ _ = false

abbrev pub same_identity : Option User → Option User → Bool
same_identity (some u) (some v) =
    same_part u.id_type v.id_type && same_part u.id_last4 v.id_last4 && same_part u.dob v.dob
same_identity _ _ = false

abbrev pub id_of : Option User → Option ℕ
id_of none = none
id_of (some u) = some u.id

-- The two queries of a step of the walk.
pub parent_of : List User → ℕ → Option ℕ
parent_of users i = elim (by_id i users) [
  | none ↦ none
  | some u ↦ id_of (by_code u.referred_by users)
]

abbrev pub max_referral_chain_depth : ℕ
max_referral_chain_depth = 20

-- The walk up the chain, by the number of hops that are left.
pub walk : List User → ℕ → ℕ → ℕ → List ℕ → Bool
unfolding parent_of
walk users referee zero current visited = false
walk users referee (suc hops) current visited = elim (parent_of users current) [
  | none ↦ false
  | some p ↦
      if p == referee || any (λ v. v == p) visited
      then true
      else walk users referee hops p (p ∷ visited)
]

pub detect_referral_abuse : List User → Option ℕ → Option ℕ → Option Abuse
unfolding walk
detect_referral_abuse users (some referrer) (some referee) =
    if referrer == referee
    then some self_referral
    else if same_identity (by_id referrer users) (by_id referee users)
    then some kyc_identity_match
    else if walk users referee max_referral_chain_depth referrer (referrer ∷ [])
    then some circular_chain
    else none
detect_referral_abuse users _ _ = none

pub data RewardStatus : Type 0 where
  pending credited failed flagged : RewardStatus

pub record Reward : Type 0 where
  pub referrer_id : ℕ
  pub referee_id : ℕ
  pub reward_amount : ℕ
  pub status : RewardStatus
  pub payment_id : ℕ

-- A mint of tokens: for whom, and for which referee.
pub record Mint : Type 0 where
  pub to : ℕ
  pub referee : ℕ
  pub tokens : ℕ

pub record State : Type 0 where
  pub rewards : List Reward
  pub mints : List Mint

-- What the rest of the world does in a call: whether the referrer has a wallet, whether tokens are minted
-- on the chain, whether the mint or the update after it throws, and whether the update in the `catch`
-- throws.
pub record Events : Type 0 where
  pub has_wallet : Bool
  pub on_chain : Bool
  pub throws : Bool
  pub update_throws : Bool

-- The unique indexes on `referee_id` and on `payment_id`
abbrev pub conflicts : ℕ → ℕ → Reward → Bool
conflicts referee payment r = (r.referee_id == referee) || (r.payment_id == payment)

abbrev pub of_referee : ℕ → Reward → Bool
of_referee referee r = r.referee_id == referee

-- `UPDATE referral_rewards SET status = … WHERE id = …`: the row that was inserted, at the head.
abbrev pub row : ℕ → ℕ → ℕ → RewardStatus → ℕ → Reward
row referrer referee amount status payment = record {
  referrer_id = referrer;
  referee_id = referee;
  reward_amount = amount;
  status = status;
  payment_id = payment;
}

abbrev pub final_status : Events → RewardStatus
final_status e = if e.throws then (if e.update_throws then pending else failed) else credited

-- The tokens are minted only for a referrer with a wallet.
pub credit : ℕ → Events → ℕ → ℕ → ℕ → State → State
credit tokens e referrer referee payment s = record {
  rewards = row referrer referee tokens (final_status e) payment ∷ s.rewards;
  mints =
      if e.has_wallet && e.on_chain
      then record { to = referrer; referee = referee; tokens = tokens } ∷ s.mints
      else s.mints;
}

-- The referrer: `users ref JOIN users u ON u.referral_code = ref.referred_by`
pub credit_referral_reward : ℕ → List User → Events → ℕ → ℕ → State → State
unfolding parent_of detect_referral_abuse credit
credit_referral_reward tokens users e referee payment s = elim (parent_of users referee) [
  | none ↦ s
  | some referrer ↦
      if any (conflicts referee payment) s.rewards
      then s
      else elim (detect_referral_abuse users (some referrer) (some referee)) [
        | some _ ↦ record s { rewards = row referrer referee 0 flagged payment ∷ s.rewards }
        | none ↦ credit tokens e referrer referee payment s
      ]
]
