-- ===== src/Payment/Guards.antt =====
-- What `send` of backend/src/controllers/paymentController.js has established when it sends a payment.
use mathlib.Core.Path.{subst}
use cross_border_payment_app.Fraud.{clear, State, check_velocity, check_daily_limit}
use cross_border_payment_app.Payment.{
  KycStatus, unverified, verified, expired, User, Limits, estimate_usd_value, daily_limit_exceeded,
  Balances, available, required, check_sufficient_balance, Screening, fraud_payment,
  check_payment_preflight, kyc_of, require_kyc, ensure_kyc_if_needed, AmlStatus, passed,
  aml_rescreen_for_payment, SendRequest, is_verified_phone, check_phone, has_memo,
  check_encrypted_memo, Wallet, earlier, default_wallet, select_wallet, check_wallet, before_lock,
  under_lock, send_guards,
}
use cross_border_payment_app.Payment.Preflight.{
  fraud_verdict, check_payment_preflight_iff, check_sufficient_balance_iff,
}
use cross_border_payment_app.Base.{
  ℕ, ◌≤◌, ◌<◌, ◌≡◌, refl, ◌∙◌, ◌≢◌, ◌↔◌, ◌⊎◌, Bool, true, false, ◌&&◌, not, Option, none, some,
  List, [], ◌∷◌, if◌then◌else◌, find_where_sound, arith, ◌==◌, find_where, Error, throw_if,
  >>=-eq-ok, >>-eq-ok, ok-injective, Asset, ok,
}

require_kyc_iff : (k : KycStatus) → (require_kyc k ≡ ok tt) ↔ (k ≡ verified)
unfolding require_kyc
require_kyc_iff unverified = ground arith
require_kyc_iff KycStatus.pending = ground arith
require_kyc_iff verified = ground arith
require_kyc_iff expired = ground arith

abbrev user_of : List User → ℕ → Option User
user_of users i = find_where (λ u. u.id == i) users

pub ensure_kyc_sound :
    (l : Limits) (users : List User) (i amount : ℕ) (asset : Asset)
    → ensure_kyc_if_needed l users i amount asset ≡ ok tt
    → (estimate_usd_value l.xlm_usd_rate amount asset < l.kyc_threshold_usd)
      ⊎ (kyc_of (user_of users i) ≡ verified)
unfolding ensure_kyc_if_needed
ensure_kyc_sound l users i amount asset h =
    ground (arith, require_kyc_iff (kyc_of (user_of users i)))

check_phone_sound :
    (l : Limits) (users : List User) (i usd_value : ℕ)
    → check_phone l users i usd_value ≡ ok tt
    → (usd_value < l.phone_threshold_usd) ⊎ (is_verified_phone (user_of users i) ≡ true)
unfolding check_phone
check_phone_sound l users i usd_value h = ground arith

pub aml_sound :
    (l : Limits) (status : AmlStatus) (usd_value : ℕ)
    → aml_rescreen_for_payment l status usd_value ≡ ok tt
    → (usd_value < l.aml_threshold_usd) ⊎ (status ≡ passed)
unfolding aml_rescreen_for_payment
aml_sound l status usd_value h = ground arith

default_wallet-owner :
    (user_id : ℕ) (ws : List Wallet) (w : Wallet)
    → default_wallet user_id ws ≡ some w
    → w.user_id ≡ user_id
unfolding default_wallet
default_wallet-owner user_id [] w h = cc
default_wallet-owner user_id (v ∷ ws) w h =
    go (default_wallet user_id ws) (default_wallet-owner user_id ws) h
  where
    go :
        (rest : Option Wallet)
        → ((u : Wallet) → rest ≡ some u → u.user_id ≡ user_id)
        → (if v.user_id == user_id then some (earlier v rest) else rest) ≡ some w
        → w.user_id ≡ user_id
    go none ih e = ground arith
    go (some u) ih e = ground (arith, ih u refl)

select_wallet-owner :
    (ws : List Wallet) (user_id : ℕ) (i : Option ℕ) (w : Wallet)
    → select_wallet ws user_id i ≡ some w
    → w.user_id ≡ user_id
unfolding select_wallet
select_wallet-owner ws user_id none w h = default_wallet-owner user_id ws w h
select_wallet-owner ws user_id (some i) w h =
    ground (arith, find_where_sound (λ v. (v.id == i) && (v.user_id == user_id)) ws w h)

-- The wallet that pays: the one that the request names, or the default one, and the user's.
abbrev pub IsPaying : List Wallet → SendRequest → ℕ → Type 0
IsPaying ws r key =
    (w : Wallet) × (select_wallet ws r.user_id r.wallet_id ≡ some w)
    × (w.user_id ≡ r.user_id)
    × (w.public_key ≡ key)

check_wallet_sound :
    (ws : List Wallet) (r : SendRequest) (key : ℕ)
    → check_wallet ws r ≡ ok key
    → IsPaying ws r key × (r.recipient_address ≢ key)
unfolding check_wallet
check_wallet_sound ws r key h = go (select_wallet ws r.user_id r.wallet_id) refl
  where
    go :
        (o : Option Wallet)
        → select_wallet ws r.user_id r.wallet_id ≡ o
        → IsPaying ws r key × (r.recipient_address ≢ key)
    go none e = ground arith
    go (some w) e =
        ((w, e, select_wallet-owner ws r.user_id r.wallet_id w e, ground arith), ground arith)

-- The facts about a request that reaches the call that sends the payment.
pub record IsCleared (l : Limits) (users : List User) (ws : List Wallet) (sc : Screening)
    (bs : Balances) (r : SendRequest) (s : State) (key : ℕ) : Type 0 where
  pub wallet : IsPaying ws r key
  pub not_self : r.recipient_address ≢ key
  pub kyc :
      (estimate_usd_value l.xlm_usd_rate r.amount r.asset < l.kyc_threshold_usd)
      ⊎ (kyc_of (find_where (λ u. u.id == r.user_id) users) ≡ verified)
  pub phone :
      (estimate_usd_value l.xlm_usd_rate r.amount r.asset < l.phone_threshold_usd)
      ⊎ (is_verified_phone (find_where (λ u. u.id == r.user_id) users) ≡ true)
  pub aml :
      (estimate_usd_value l.xlm_usd_rate r.amount r.asset < l.aml_threshold_usd)
      ⊎ (r.aml_status ≡ passed)
  pub daily_limit : daily_limit_exceeded l sc.env key r.amount r.asset ≡ false
  pub velocity : check_velocity l.fraud_window_hours l.fraud_max_tx sc.env key ≡ false
  pub fraud : fraud_verdict l sc key r.amount r.asset s ≡ ok clear
  pub fraud_limit :
      check_daily_limit l.fraud_daily_limit_usd l.fraud_window_hours sc.env
        (fraud_payment key r.amount r.asset)
      ≡ false
  pub memo : (r.memo_required ≡ false) ⊎ (has_memo r.memo ≡ true)
  pub covered : required r.amount r.asset ≤ available r.asset bs

memo_sound :
    (a b : Bool) (e : Error) {u : Unit {0}}
    → throw_if (a && not b) e ≡ ok u
    → (a ≡ false) ⊎ (b ≡ true)
memo_sound a b e h = ground arith

-- What `before_lock` establishes, by the check that does it.
record PassedBefore (l : Limits) (users : List User) (ws : List Wallet) (r : SendRequest) (key : ℕ)
    : Type 0 where
  kyc_ok : ensure_kyc_if_needed l users r.user_id r.amount r.asset ≡ ok tt
  phone_ok :
      check_phone l users r.user_id (estimate_usd_value l.xlm_usd_rate r.amount r.asset) ≡ ok tt
  wallet_ok : check_wallet ws r ≡ ok key
  aml_ok :
      aml_rescreen_for_payment l r.aml_status (estimate_usd_value l.xlm_usd_rate r.amount r.asset)
      ≡ ok tt

before_lock_sound :
    (l : Limits) (users : List User) (ws : List Wallet) (r : SendRequest) (key : ℕ)
    → before_lock l users ws r ≡ ok key
    → PassedBefore l users ws r key
unfolding before_lock
before_lock_sound l users ws r key h =
    let (kyc, b1) = >>-eq-ok (ensure_kyc_if_needed l users r.user_id r.amount r.asset) _ h in
    let (phone, b2) = >>-eq-ok (check_phone l users r.user_id _) _ b1 in
    let (_, b3) = >>-eq-ok (check_encrypted_memo r) _ b2 in
    let (k, wallet, b4) = >>=-eq-ok (check_wallet ws r) _ b3 in
    let (aml, b5) = >>-eq-ok (aml_rescreen_for_payment l r.aml_status _) _ b4 in
    record { kyc_ok = kyc; phone_ok = phone; wallet_ok = wallet ∙ b5; aml_ok = aml }

record PassedUnder (l : Limits) (sc : Screening) (bs : Balances) (r : SendRequest) (s : State)
    (key : ℕ) : Type 0 where
  preflight_ok : (check_payment_preflight l sc key r.amount r.asset s).0 ≡ ok tt
  memo_ok : (r.memo_required ≡ false) ⊎ (has_memo r.memo ≡ true)
  covered_ok : check_sufficient_balance bs r.amount r.asset ≡ ok tt

under_lock_sound :
    (l : Limits) (sc : Screening) (bs : Balances) (r : SendRequest) (s : State) (key : ℕ)
    → under_lock l sc bs r key s ≡ ok tt
    → PassedUnder l sc bs r s key
unfolding under_lock
under_lock_sound l sc bs r s key h =
    let (pre, u1) = >>-eq-ok (check_payment_preflight l sc key r.amount r.asset s).0 _ h in
    let (memo, covered) = >>-eq-ok (throw_if (r.memo_required && not (has_memo r.memo)) _) _ u1 in
    record {
      preflight_ok = pre;
      memo_ok = memo_sound r.memo_required (has_memo r.memo) _ memo;
      covered_ok = covered;
    }

cleared :
    (l : Limits) (users : List User) (ws : List Wallet) (sc : Screening) (bs : Balances)
    (r : SendRequest) (s : State) (key : ℕ)
    → PassedBefore l users ws r key
    → PassedUnder l sc bs r s key
    → IsCleared l users ws sc bs r s key
cleared l users ws sc bs r s key b u =
    let (wallet, not_self) = check_wallet_sound ws r key b.wallet_ok in
    let (limit, velocity, fraud, fraud_limit) =
      (check_payment_preflight_iff l sc key r.amount r.asset s).0 u.preflight_ok in
    record {
      wallet = wallet;
      not_self = not_self;
      kyc = ensure_kyc_sound l users r.user_id r.amount r.asset b.kyc_ok;
      phone = check_phone_sound l users r.user_id _ b.phone_ok;
      aml = aml_sound l r.aml_status _ b.aml_ok;
      daily_limit = limit;
      velocity = velocity;
      fraud = fraud;
      fraud_limit = fraud_limit;
      memo = u.memo_ok;
      covered = (check_sufficient_balance_iff bs r.amount r.asset).0 u.covered_ok;
    }

-- A payment is sent only from a wallet of the user, the one that the request names or else the
-- default one, to another one, with the identity, the phone and
-- the AML screening checked above their thresholds, within the daily limits, cleared by the fraud
-- rules, with a memo where the recipient requires one, and covered by the balance.
pub send_guards-IsCleared :
    (l : Limits) (users : List User) (ws : List Wallet) (sc : Screening) (bs : Balances)
    (lock_free : Bool) (r : SendRequest) (s : State) (key : ℕ)
    → send_guards l users ws sc bs lock_free r s ≡ ok key
    → IsCleared l users ws sc bs r s key
unfolding send_guards
send_guards-IsCleared l users ws sc bs lock_free r s key h =
    let (k, before, h1) = >>=-eq-ok (before_lock l users ws r) _ h in
    let (_, h2) = >>-eq-ok (throw_if (not lock_free) _) _ h1 in
    let (under, h3) = >>-eq-ok (under_lock l sc bs r k s) _ h2 in
    subst (IsCleared l users ws sc bs r s) (ok-injective h3) (
      cleared l users ws sc bs r s k (before_lock_sound l users ws r k before)
        (under_lock_sound l sc bs r s k under))
