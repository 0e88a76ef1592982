-- ===== src/Fraud/Examples.antt =====
-- Runs of the fraud screening, and its theorems at concrete inputs.
use cross_border_payment_app.Fraud.{
  RuleType, velocity, daily_limit, unknown, Rule, Env, Payment, Transaction, triggered, pending,
  blocked, run_rules, State, load_rules, check_fraud, check_velocity, check_daily_limit,
  invalidate_rules_cache,
}
use cross_border_payment_app.Fraud.Laws.{blocks, verdict_of, check_fraud-verdict}
use cross_border_payment_app.Base.{
  ℕ, ◌≡◌, refl, inl, Bool, true, false, none, some, List, [], ◌∷◌, find_where, usdc, ok,
}

abbrev sent : ℕ → Transaction
sent t = record {
  sender_wallet = 7;
  amount = 30000000;
  asset = usdc;
  created_at = t;
  status = pending;
}

abbrev env : Env
env = record {
  now = 100000;
  xlm_usd_rate = 1100000;
  transactions = sent 99990 ∷ sent 10 ∷ [];
  throws = λ r. false;
}

abbrev small : Payment
small = record { wallet = 7; amount = 20000000; asset = usdc }

abbrev rule : ℕ → RuleType → ℕ → Bool → Rule
rule name kind most hidden = record {
  name = name;
  rule_type = kind;
  max_transactions = 2;
  window_minutes = 10;
  max_usd = most;
  shadow = hidden;
}

abbrev rules : List Rule
rules =
    rule 1 velocity 0 false
    ∷ rule 2 RuleType.amount 100000000000000 true
    ∷ rule 3 unknown 0 false
    ∷ rule 4 daily_limit 400000000000000 false
    ∷ []

abbrev empty : State
empty = record { cached = none; last_known = none; checks = [] }

verdict_run : (run_rules env small rules).0 ≡ blocked (rule 4 daily_limit 400000000000000 false)
unfolding run_rules triggered
verdict_run = refl

cached_after_load :
    invalidate_rules_cache (load_rules (ok rules) empty).1
    ≡ record { cached = none; last_known = some rules; checks = [] }
unfolding load_rules invalidate_rules_cache
cached_after_load = refl

older_checks :
    (check_velocity 24 1 env 7 ≡ true) × (check_daily_limit 400000000000000 24 env small ≡ true)
unfolding check_velocity check_daily_limit
older_checks = (refl, refl)

loaded : (load_rules (ok rules) empty).0 ≡ ok rules
unfolding load_rules
loaded = refl

check_fraud-verdict_example :
    (check_fraud (ok rules) 0 env small empty).0
    ≡ ok (verdict_of (find_where (blocks env small) rules))
check_fraud-verdict_example = check_fraud-verdict (ok rules) 0 env small empty rules (inl loaded)
