-- ===== src/Referral/Examples.antt =====
-- A ring of three accounts, a rewarded referral, and the theorems on them.
use cross_border_payment_app.Referral.{
  User, parent_of, circular_chain, detect_referral_abuse, Events, credited, of_referee,
}
use cross_border_payment_app.Referral.Rings.{ancestor}
use cross_border_payment_app.Referral.Rewards.{Call, run_calls, is_for, rewarded_at_most_once}
use cross_border_payment_app.Base.{
  ℕ, ◌+◌, ◌≤◌, ◌≡◌, refl, true, false, Option, none, some, List, [], ◌∷◌, count_where,
}

abbrev user : ℕ → Option ℕ → User
user i by = record {
  id = i;
  referral_code = 100 + i;
  referred_by = by;
  id_type = none;
  id_last4 = none;
  dob = none;
}

-- 1 was referred by 2, who was referred by 3, who was referred by 1.
abbrev ring : List User
ring = user 1 (some 102) ∷ user 2 (some 103) ∷ user 3 (some 101) ∷ []

ring_found : detect_referral_abuse ring (some 2) (some 1) ≡ some circular_chain
unfolding detect_referral_abuse
ring_found = refl

two_above : ancestor ring 2 2 ≡ some 1
unfolding parent_of
two_above = refl

abbrev calm : Events
calm = record { has_wallet = true; on_chain = true; throws = false; update_throws = false }

abbrev call : ℕ → Call
call payment = record {
  tokens = 50;
  users = user 1 none ∷ user 2 (some 101) ∷ [];
  events = calm;
  referee = 2;
  payment = payment;
}

rewarded : run_calls (call 7 ∷ call 8 ∷ []) (record { rewards = []; mints = [] }) ≡ record {
  rewards =
      record {
        referrer_id = 1;
        referee_id = 2;
        reward_amount = 50;
        status = credited;
        payment_id = 7;
      }
      ∷ [];
  mints = record { to = 1; referee = 2; tokens = 50 } ∷ [];
}
unfolding run_calls
rewarded = refl

rewarded_at_most_once_example :
    let s = run_calls (call 7 ∷ call 8 ∷ []) (record { rewards = []; mints = [] }) in
    (count_where (of_referee 2) s.rewards ≤ 1)
    × (count_where (is_for 2) s.mints ≤ count_where (of_referee 2) s.rewards)
rewarded_at_most_once_example = rewarded_at_most_once (call 7 ∷ call 8 ∷ []) 2
