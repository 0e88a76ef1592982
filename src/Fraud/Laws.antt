-- ===== src/Fraud/Laws.antt =====
-- The verdict of backend/src/services/fraudDetection.js against a description without its loop.
use cross_border_payment_app.Fraud.{
  RuleType, Rule, Env, Payment, to_usd, triggered, evaluate_amount, evaluate_daily_limit, Verdict,
  clear, blocked, run_rules, State, load_rules, check_fraud,
}
use cross_border_payment_app.Base.{
  ℕ, ◌≤◌, ◌<◌, ◌≡◌, refl, ◌≢◌, ◌↔◌, ◌⊎◌, Bool, false, ◌&&◌, not, Option, none, some, List, [], ◌∷◌,
  arith, find_where, select_where, All, Error, Result, with_status, other, ok, err,
}

-- A rule blocks if it is known and active, its evaluation does not throw, and it triggers.
abbrev pub blocks : Env → Payment → Rule → Bool
blocks e p r = elim (triggered e r p) [
  | none ↦ false
  | some hit ↦ hit && not r.shadow && not (e.throws r)
]

abbrev pub verdict_of : Option Rule → Verdict
verdict_of none = clear
verdict_of (some r) = blocked r

run_rules-verdict :
    (e : Env) (p : Payment) (rules : List Rule)
    → (run_rules e p rules).0 ≡ verdict_of (find_where (blocks e p) rules)
unfolding run_rules
run_rules-verdict e p [] = refl
run_rules-verdict e p (r ∷ rules) = ground (arith, run_rules-verdict e p rules)

-- Whatever the rules were loaded from (the cache, the database, or the last known set when the
-- database fails), a payment is screened by the first of them that blocks it: a known rule, not in
-- shadow mode, whose evaluation does not throw and triggers.
pub check_fraud-verdict :
    (db : Result (List Rule)) (threshold : ℕ) (e : Env) (p : Payment) (s : State)
    (rules : List Rule)
    → ((load_rules db s).0 ≡ ok rules)
      ⊎ (((x : Error) × ((load_rules db s).0 ≡ err x)) × (s.last_known ≡ some rules))
    → (check_fraud db threshold e p s).0 ≡ ok (verdict_of (find_where (blocks e p) rules))
unfolding check_fraud load_rules
check_fraud-verdict db threshold e p s rules h = ground (arith, run_rules-verdict e p rules)

-- With no rules loaded now or before, a payment above the threshold is refused with status 503, any
-- other is let through, and no row is written.
pub check_fraud_unavailable :
    (x : Error) (threshold : ℕ) (e : Env) (p : Payment) (s : State)
    → s.cached ≡ none
    → s.last_known ≡ none
    → ((check_fraud (err x) threshold e p s).0 ≡ err (with_status 503)
        ↔ (threshold < to_usd e.xlm_usd_rate p.amount p.asset))
      × ((check_fraud (err x) threshold e p s).0 ≡ ok clear
          ↔ (to_usd e.xlm_usd_rate p.amount p.asset ≤ threshold))
      × ((check_fraud (err x) threshold e p s).1 ≡ s)
unfolding check_fraud load_rules
check_fraud_unavailable x threshold e p s c k =
    ((ground arith, ground arith), (ground arith, ground arith), ground arith)

-- Shadow rules never decide: the verdict is that of the other rules alone.
pub run_rules-shadow :
    (e : Env) (p : Payment) (rules : List Rule)
    → (run_rules e p rules).0 ≡ (run_rules e p (select_where (λ r. not r.shadow) rules)).0
unfolding run_rules
run_rules-shadow e p [] = refl
run_rules-shadow e p (r ∷ rules) = ground (arith, run_rules-shadow e p rules)

-- A payment in an asset that the module does not convert is worth nothing to it: no amount rule and
-- no daily limit ever blocks it, however large it is, and with no rules it passes the threshold.
pub check_fraud_unsupported :
    (e : Env) (p : Payment) (code : ℕ) (rules : List Rule)
    → p.asset ≡ other code
    → All (λ r. r.rule_type ≢ RuleType.velocity) rules
    → (run_rules e p rules).0 ≡ clear
unfolding run_rules triggered evaluate_amount evaluate_daily_limit to_usd
check_fraud_unsupported e p code [] h k = refl
check_fraud_unsupported e p code (r ∷ rules) h k =
    ground (arith, check_fraud_unsupported e p code rules h k.1)
