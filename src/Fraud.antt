-- ===== src/Fraud.antt =====
-- Fraud screening: backend/src/services/fraudDetection.js. Amounts are in units of 10^-7 and USD values
-- in units of 10^-14, so that a product with the XLM rate, in units of 10^-7, is exact. Times are in
-- seconds. Rows of the transactions table are read, rows of fraud_checks are written.
pub mod Laws
mod Examples
use cross_border_payment_app.Base.{
  ℕ, ◌+◌, ◌*◌, Bool, true, false, ◌&&◌, not, Option, none, some, List, [], ◌∷◌, ◌++◌, ltb, leb,
  ◌==◌, if◌then◌else◌, select_where, count_where, Result, with_status, Asset, xlm, usdc, usd, other,
  ok, err,
}

pub data TxStatus : Type 0 where
  pending confirming completed failed pending_claim cancelled : TxStatus

pub record Transaction : Type 0 where
  pub sender_wallet : ℕ
  pub amount : ℕ
  pub asset : Asset
  pub created_at : ℕ
  pub status : TxStatus

pub data RuleType : Type 0 where
  velocity amount daily_limit unknown : RuleType

pub record Rule : Type 0 where
  pub name : ℕ
  pub rule_type : RuleType
  pub max_transactions : ℕ
  pub window_minutes : ℕ
  pub max_usd : ℕ
  pub shadow : Bool

-- The environment of one check: the clock, the rate, the table of transactions, and the rules whose
-- evaluation throws because the database fails.
pub record Env : Type 0 where
  pub now : ℕ
  pub xlm_usd_rate : ℕ
  pub transactions : List Transaction
  pub throws : Rule → Bool

pub record Payment : Type 0 where
  pub wallet : ℕ
  pub amount : ℕ
  pub asset : Asset

pub to_usd : ℕ → ℕ → Asset → ℕ
to_usd rate n usdc = n * 10000000
to_usd rate n xlm = n * rate
to_usd rate n usd = 0
to_usd rate n (other c) = 0

abbrev pub counts_for_velocity : TxStatus → Bool
counts_for_velocity failed = false
counts_for_velocity cancelled = false
counts_for_velocity _ = true

abbrev pub counts_for_limit : TxStatus → Bool
counts_for_limit cancelled = false
counts_for_limit _ = true

-- `created_at > NOW() - window`
abbrev pub within : ℕ → ℕ → Transaction → Bool
within now window t = ltb now (t.created_at + window)

abbrev pub sum_amounts : List Transaction → ℕ
sum_amounts [] = 0
sum_amounts (t ∷ ts) = t.amount + sum_amounts ts

pub evaluate_velocity : Env → Rule → Payment → Bool
evaluate_velocity e r p = leb r.max_transactions (
    count_where
      (λ t.
        (t.sender_wallet == p.wallet)
        && within e.now (r.window_minutes * 60) t
        && counts_for_velocity t.status)
      e.transactions)

pub evaluate_amount : Env → Rule → Payment → Bool
unfolding to_usd
evaluate_amount e r p = ltb r.max_usd (to_usd e.xlm_usd_rate p.amount p.asset)

-- The total is over all assets, and is converted as an amount of the payment's asset.
pub evaluate_daily_limit : Env → Rule → Payment → Bool
unfolding to_usd
evaluate_daily_limit e r p =
    let sent = sum_amounts (
      select_where
        (λ t. (t.sender_wallet == p.wallet) && within e.now 86400 t && counts_for_limit t.status)
        e.transactions) in
    ltb r.max_usd (to_usd e.xlm_usd_rate sent p.asset + to_usd e.xlm_usd_rate p.amount p.asset)

-- `EVALUATORS[rule.rule_type]`; `none` where there is no evaluator.
pub triggered : Env → Rule → Payment → Option Bool
unfolding evaluate_velocity evaluate_amount evaluate_daily_limit
triggered e r p = elim r.rule_type [
  | velocity ↦ some (evaluate_velocity e r p)
  | amount ↦ some (evaluate_amount e r p)
  | daily_limit ↦ some (evaluate_daily_limit e r p)
  | unknown ↦ none
]

-- A row of fraud_checks.
pub record Check : Type 0 where
  pub rule_name : ℕ
  pub rule_shadow : Bool
  pub would_block : Bool
  pub created_at : ℕ

pub data Verdict : Type 0 where
  clear : Verdict
  blocked : Rule → Verdict

abbrev pub check_row : Env → Rule → Bool → Check
check_row e r hit = record {
  rule_name = r.name;
  rule_shadow = r.shadow;
  would_block = hit;
  created_at = e.now;
}

-- One evaluated rule, and what the rest of the loop gives.
abbrev pub after_rule : Env → Rule → Bool → Verdict × List Check → Verdict × List Check
after_rule e r hit rest =
    if hit && not r.shadow
    then (blocked r, check_row e r hit ∷ [])
    else (rest.0, check_row e r hit ∷ rest.1)

-- The loop over the rules: the verdict and the rows written to the audit table.
pub run_rules : Env → Payment → List Rule → Verdict × List Check
unfolding triggered
run_rules e p [] = (clear, [])
run_rules e p (r ∷ rules) =
    let rest = run_rules e p rules in
    elim (triggered e r p) [
      | none ↦ rest
      | some hit ↦ if e.throws r then rest else after_rule e r hit rest
    ]

-- The module's state: the cache, and `lastKnownRules`.
pub record State : Type 0 where
  pub cached : Option (List Rule)
  pub last_known : Option (List Rule)
  pub checks : List Check

-- The database answers with the active rules or throws.
pub load_rules : Result (List Rule) → State → Result (List Rule) × State
load_rules db s = elim s.cached [
  | some rules ↦ (ok rules, record s { last_known = some rules })
  | none ↦ elim db [
    | ok rules ↦ (ok rules, record s { cached = some rules; last_known = some rules })
    | err e ↦ (err e, s)
  ]
]

pub invalidate_rules_cache : State → State
invalidate_rules_cache s = record s { cached = none }

abbrev pub screen : Env → Payment → List Rule → State → Result Verdict × State
screen e p rules s =
    let (v, checks) = run_rules e p rules in (ok v, record s { checks = s.checks ++ checks })

unfoldable pub check_fraud : Result (List Rule) → ℕ → Env → Payment → State → Result Verdict × State
unfolding load_rules run_rules to_usd
check_fraud db threshold_usd e p s =
    let (loaded, s') = load_rules db s in
    elim loaded [
      | ok rules ↦ screen e p rules s'
      | err _ ↦ elim s'.last_known [
        | some rules ↦ screen e p rules s'
        | none ↦ (
          if ltb threshold_usd (to_usd e.xlm_usd_rate p.amount p.asset)
              then err (with_status 503)
              else ok clear,
          s',
        )
      ]
    ]

-- The older checks, with their limits from the environment variables.
unfoldable pub check_velocity : ℕ → ℕ → Env → ℕ → Bool
check_velocity window_hours max_tx e wallet = leb max_tx (
    count_where
      (λ t.
        (t.sender_wallet == wallet)
        && within e.now (window_hours * 3600) t
        && counts_for_velocity t.status)
      e.transactions)

unfoldable pub check_daily_limit : ℕ → ℕ → Env → Payment → Bool
unfolding to_usd
check_daily_limit limit_usd window_hours e p =
    let sent = sum_amounts (
      select_where (λ t. (t.sender_wallet == p.wallet) && within e.now (window_hours * 3600) t)
        e.transactions) in
    ltb limit_usd (to_usd e.xlm_usd_rate sent p.asset + to_usd e.xlm_usd_rate p.amount p.asset)
