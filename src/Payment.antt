-- ===== src/Payment.antt =====
-- The checks that a payment passes before it is sent: backend/src/controllers/paymentController.js and
-- `amlRescreenForPayment` of backend/src/controllers/kycController.js. Amounts are in units of 10^-7,
-- USD values in units of 10^-14.
pub mod Preflight
pub mod Guards
pub mod Batch
mod Examples
use cross_border_payment_app.Fraud.{
  Env, Payment, Transaction, TxStatus, failed, Rule, State, Verdict, clear, blocked, check_fraud,
  check_velocity, check_daily_limit,
}
use cross_border_payment_app.Base.{
  ℕ, ◌+◌, ◌*◌, ◌/◌, String, Bool, true, false, ◌&&◌, ◌||◌, not, Option, none, some, List, [], ◌∷◌,
  ltb, leb, ◌==◌, if◌then◌else◌, find_where, Result, throw_if, with_status, with_code, ◌>>◌, ◌>>=◌,
  Asset, same_asset, xlm, usdc, usd, other, ok, err,
}

pub data KycStatus : Type 0 where
  unverified pending verified expired : KycStatus

pub record User : Type 0 where
  pub id : ℕ
  pub kyc_status : KycStatus
  pub phone_verified : Bool

-- The constants that the module reads from the environment.
pub record Limits : Type 0 where
  pub xlm_usd_rate : ℕ
  pub kyc_threshold_usd : ℕ
  pub phone_threshold_usd : ℕ
  pub aml_threshold_usd : ℕ
  pub daily_send_limit : ℕ
  pub fraud_daily_limit_usd : ℕ
  pub fraud_window_hours : ℕ
  pub fraud_max_tx : ℕ
  pub fail_closed_threshold_usd : ℕ

pub estimate_usd_value : ℕ → ℕ → Asset → ℕ
estimate_usd_value rate n usd = n * 10000000
estimate_usd_value rate n usdc = n * 10000000
estimate_usd_value rate n xlm = n * rate
estimate_usd_value rate n (other c) = n * 10000000

-- `created_at >= date_trunc('day', NOW() AT TIME ZONE 'UTC')`
abbrev pub is_today : ℕ → Transaction → Bool
is_today now t = leb (now / 86400 * 86400) t.created_at

abbrev pub is_failed : TxStatus → Bool
is_failed failed = true
is_failed _ = false

pub total_today : ℕ → ℕ → ℕ → List Transaction → ℕ
unfolding estimate_usd_value
total_today rate now wallet [] = 0
total_today rate now wallet (t ∷ ts) =
    (if (t.sender_wallet == wallet) && not (is_failed t.status) && is_today now t
      then estimate_usd_value rate t.amount t.asset
      else 0)
    + total_today rate now wallet ts

-- Whether the query of the day's payments gives a row.
pub has_asset_rows : ℕ → ℕ → List Transaction → Bool
has_asset_rows now wallet [] = false
has_asset_rows now wallet (t ∷ ts) =
    ((t.sender_wallet == wallet) && not (is_failed t.status) && is_today now t)
    || has_asset_rows now wallet ts

-- Where there is no row, the amount is compared with the limit as it is, in whatever asset.
pub daily_limit_exceeded : Limits → Env → ℕ → ℕ → Asset → Bool
unfolding total_today has_asset_rows
daily_limit_exceeded l e wallet amount asset =
    if has_asset_rows e.now wallet e.transactions
    then ltb l.daily_send_limit (
        total_today l.xlm_usd_rate e.now wallet e.transactions
        + estimate_usd_value l.xlm_usd_rate amount asset)
    else ltb l.daily_send_limit (amount * 10000000)

-- `getBalance` of the Stellar network, or the cached answer: the spendable amount of each asset.
abbrev pub Balances : Type 0
Balances = List (Asset × ℕ)

unfoldable pub available : Asset → Balances → ℕ
available a [] = 0
available a ((b, n) ∷ bs) = if same_asset b a then n else available a bs

-- `FEE_XLM` is 0.00001.
abbrev pub required : ℕ → Asset → ℕ
required amount asset = amount + (if same_asset asset xlm then 100 else 0)

unfoldable pub check_sufficient_balance : Balances → ℕ → Asset → Result (Unit {0})
unfolding available
check_sufficient_balance bs amount asset =
    throw_if (ltb (available asset bs) (required amount asset))
      (with_code 400 "INSUFFICIENT_BALANCE")

-- The environment of one preflight: what the fraud module reads, and the rules' load.
pub record Screening : Type 0 where
  pub env : Env
  pub db_rules : Result (List Rule)

abbrev pub fraud_payment : ℕ → ℕ → Asset → Payment
fraud_payment wallet amount asset = record { wallet = wallet; amount = amount; asset = asset }

-- A row of fraud_blocks: the wallet and the amount.
abbrev pub Block : Type 0
Block = ℕ × ℕ

-- The checks in their order. The two older checks run before `checkFraud`; the result of the second
-- is used last.
pub check_payment_preflight :
    Limits → Screening → ℕ → ℕ → Asset → State → Result (Unit {0}) × State × List Block
unfolding daily_limit_exceeded
check_payment_preflight l sc wallet amount asset s =
    let p = fraud_payment wallet amount asset in
    if daily_limit_exceeded l sc.env wallet amount asset
    then (err (with_code 400 "DAILY_LIMIT_EXCEEDED"), s, [])
    else if check_velocity l.fraud_window_hours l.fraud_max_tx sc.env wallet
    then (err (with_status 429), s, [])
    else (let (r, s') = check_fraud sc.db_rules l.fail_closed_threshold_usd sc.env p s in
        elim r [
          | err e ↦ (err e, s', [])
          | ok v ↦ elim v [
            | blocked rule ↦ (err (with_status 429), s', (wallet, amount) ∷ [])
            | clear ↦ (
              throw_if (check_daily_limit l.fraud_daily_limit_usd l.fraud_window_hours sc.env p)
                  (with_code 429 "DAILY_LIMIT_EXCEEDED"),
              s',
              [],
            )
          ]
        ])

-- A missing row or status is 'unverified'.
abbrev pub kyc_of : Option User → KycStatus
kyc_of none = unverified
kyc_of (some u) = u.kyc_status

pub require_kyc : KycStatus → Result (Unit {0})
require_kyc expired = err (with_code 403 "KYC_EXPIRED")
require_kyc verified = ok tt
require_kyc unverified = err (with_code 403 "KYC_REQUIRED")
require_kyc pending = err (with_code 403 "KYC_REQUIRED")

pub ensure_kyc_if_needed : Limits → List User → ℕ → ℕ → Asset → Result (Unit {0})
unfolding estimate_usd_value require_kyc
ensure_kyc_if_needed l users user_id amount asset =
    if ltb (estimate_usd_value l.xlm_usd_rate amount asset) l.kyc_threshold_usd
    then ok tt
    else require_kyc (kyc_of (find_where (λ u. u.id == user_id) users))

-- The answers of the AML screening service; `passed` is 'clear'.
pub data AmlStatus : Type 0 where
  passed flagged not_screened error : AmlStatus

unfoldable pub aml_rescreen_for_payment : Limits → AmlStatus → ℕ → Result (Unit {0})
aml_rescreen_for_payment l status amount_usd =
    if ltb amount_usd l.aml_threshold_usd then ok tt else elim status [
      | flagged ↦ err (with_status 403)
      | not_screened ↦ err (with_code 403 "AML_SCREENING_UNAVAILABLE")
      | error ↦ err (with_code 503 "AML_SCREENING_ERROR")
      | passed ↦ ok tt
    ]

-- A row of wallets.
pub record Wallet : Type 0 where
  pub id : ℕ
  pub user_id : ℕ
  pub public_key : ℕ
  pub is_default : Bool
  pub created_at : ℕ

-- `ORDER BY is_default DESC, created_at ASC`, with the order of the list for what is equal.
abbrev pub comes_first : Wallet → Wallet → Bool
comes_first v w =
    if v.is_default
    then not w.is_default || leb v.created_at w.created_at
    else not w.is_default && leb v.created_at w.created_at

abbrev pub earlier : Wallet → Option Wallet → Wallet
earlier v none = v
earlier v (some w) = if comes_first v w then v else w

-- The user's default wallet, or else the oldest.
pub default_wallet : ℕ → List Wallet → Option Wallet
default_wallet user_id [] = none
default_wallet user_id (w ∷ ws) =
    let rest = default_wallet user_id ws in
    if w.user_id == user_id then some (earlier w rest) else rest

-- The wallet that the request names, if it is the user's; or the default one.
pub select_wallet : List Wallet → ℕ → Option ℕ → Option Wallet
unfolding default_wallet
select_wallet ws user_id none = default_wallet user_id ws
select_wallet ws user_id (some i) = find_where (λ w. (w.id == i) && (w.user_id == user_id)) ws

-- One request of `send`, with the answers that it waits for: the memo after trimming, the size of its
-- encryption, and whether the recipient requires a memo.
pub record SendRequest : Type 0 where
  pub user_id : ℕ
  pub recipient_address : ℕ
  pub amount : ℕ
  pub asset : Asset
  pub memo : Option String
  pub encrypt_memo : Bool
  pub encrypted_bytes : ℕ
  pub wallet_id : Option ℕ
  pub memo_required : Bool
  pub aml_status : AmlStatus

abbrev pub is_verified_phone : Option User → Bool
is_verified_phone none = false
is_verified_phone (some u) = u.phone_verified

-- The phone check, and the second KYC check under it.
pub check_phone : Limits → List User → ℕ → ℕ → Result (Unit {0})
unfolding require_kyc
check_phone l users user_id usd_value =
    let user = find_where (λ u. u.id == user_id) users in
    if ltb usd_value l.phone_threshold_usd
    then ok tt
    else if not (is_verified_phone user)
    then err (with_code 403 "PHONE_VERIFICATION_REQUIRED")
    else if ltb usd_value l.kyc_threshold_usd
    then ok tt
    else require_kyc (kyc_of user)

abbrev pub has_memo : Option String → Bool
has_memo none = false
has_memo (some _) = true

abbrev pub check_encrypted_memo : SendRequest → Result (Unit {0})
check_encrypted_memo r =
    throw_if (r.encrypt_memo && has_memo r.memo && ltb 28 r.encrypted_bytes) (with_status 400)

pub check_wallet : List Wallet → SendRequest → Result ℕ
unfolding select_wallet
check_wallet ws r = elim (select_wallet ws r.user_id r.wallet_id) [
  | none ↦ err (with_status 404)
  | some w ↦ if r.recipient_address == w.public_key then err (with_status 400) else ok w.public_key
]

-- The part of `send` before the lock; it gives the key of the wallet that pays.
pub before_lock : Limits → List User → List Wallet → SendRequest → Result ℕ
unfolding ensure_kyc_if_needed check_phone check_wallet aml_rescreen_for_payment estimate_usd_value
before_lock l users ws r = do
  let usd_value = estimate_usd_value l.xlm_usd_rate r.amount r.asset
  ensure_kyc_if_needed l users r.user_id r.amount r.asset
  check_phone l users r.user_id usd_value
  check_encrypted_memo r
  key ← check_wallet ws r
  aml_rescreen_for_payment l r.aml_status usd_value
  ok key

-- The part of `send` under the lock, up to the call that sends the payment.
pub under_lock : Limits → Screening → Balances → SendRequest → ℕ → State → Result (Unit {0})
unfolding check_payment_preflight check_sufficient_balance
under_lock l sc bs r key s = do
  (check_payment_preflight l sc key r.amount r.asset s).0
  throw_if (r.memo_required && not (has_memo r.memo)) (with_code 422 "MEMO_REQUIRED")
  check_sufficient_balance bs r.amount r.asset

-- `send` up to the call that sends the payment, which is reached with the key of the wallet.
pub send_guards :
    Limits → List User → List Wallet → Screening → Balances → Bool → SendRequest → State → Result ℕ
unfolding before_lock under_lock
send_guards l users ws sc bs lock_free r s = do
  key ← before_lock l users ws r
  throw_if (not lock_free) (with_code 429 "CONCURRENCY_LIMIT")
  under_lock l sc bs r key s
  ok key
