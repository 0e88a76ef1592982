-- ===== src/Request.antt =====
-- Payment requests: backend/src/controllers/paymentRequestController.js, over the table
-- payment_requests. Amounts are in units of 10^-7, times in milliseconds. The verification of a
-- transaction against the Stellar network is an argument.
pub mod Claiming
pub mod Claims
pub mod Pages
mod Examples
use cross_border_payment_app.Base.{
  ◌⊎◌, inl, inr, ℕ, zero, suc, ◌+◌, ◌-◌, ◌*◌, min, max, String, Bool, true, false, ◌&&◌, not,
  Option, none, some, List, [], ◌∷◌, ◌++◌, leb, ◌==◌, if◌then◌else◌, find_where, select_where,
  count_where, update_where, Result, Reply, Asset, ℤ, ok, err, json, rejected, forwarded, pos,
  negsuc,
}

pub data Status : Type 0 where
  active cancelled : Status

pub record PaymentRequest : Type 0 where
  pub id : ℕ
  pub requester_id : ℕ
  pub requester_wallet : ℕ
  pub amount : ℕ
  pub asset : Asset
  pub memo : Option String
  pub expires_at : ℕ
  pub claimed : Bool
  pub claimed_tx_hash : Option ℕ
  pub status : Status

abbrev pub Table : Type 0
Table = List PaymentRequest

abbrev pub with_id : ℕ → PaymentRequest → Bool
with_id i r = r.id == i

abbrev pub is_cancelled : Status → Bool
is_cancelled cancelled = true
is_cancelled active = false

-- Seven days.
abbrev pub lifetime : ℕ
lifetime = 604800000

-- The body of a creation; the amount is what `parseFloat` gives, `wallet` the requester's wallet.
pub record NewRequest : Type 0 where
  pub id : ℕ
  pub user_id : ℕ
  pub amount : ℤ
  pub asset : Asset
  pub memo : Option String
  pub wallet : Option ℕ

abbrev pub positive : ℤ → Option ℕ
positive (negsuc n) = none
positive (pos zero) = none
positive (pos (suc n)) = some (suc n)

pub create : ℕ → NewRequest → Table → Reply PaymentRequest × Table
create now q t = elim (positive q.amount) [
  | none ↦ (rejected 400 "Amount must be greater than 0", t)
  | some n ↦ elim q.wallet [
    | none ↦ (rejected 404 "Wallet not found", t)
    | some key ↦
        let r : PaymentRequest = record {
          id = q.id;
          requester_id = q.user_id;
          requester_wallet = key;
          amount = n;
          asset = q.asset;
          memo = q.memo;
          expires_at = now + lifetime;
          claimed = false;
          claimed_tx_hash = none;
          status = active;
        } in
        (json r, t ++ r ∷ [])
  ]
]

pub get_by_id : ℕ → ℕ → Table → Reply PaymentRequest
get_by_id now i t = elim (find_where (with_id i) t) [
  | none ↦ rejected 404 "Payment request not found"
  | some r ↦
      if is_cancelled r.status
      then rejected 410 "Payment request was cancelled"
      else if leb r.expires_at now
      then rejected 410 "Payment request has expired"
      else json r
]

-- `verifyIncomingPayment`: whether the transaction paid at least the amount of the asset to the
-- wallet, or the error of the network.
abbrev pub Verify : Type 0
Verify = ℕ → ℕ → Asset → ℕ → Result Bool

abbrev pub claim : ℕ → PaymentRequest → PaymentRequest
claim hash r = record r { claimed = true; claimed_tx_hash = some hash }

-- An UPDATE by the id alone, which a handler makes when it has read the row and checked it.
pub data Write : Type 0 where
  claims : ℕ → ℕ → Write
  cancels : ℕ → Write

abbrev pub cancel_row : PaymentRequest → PaymentRequest
cancel_row r = record r { status = cancelled }

abbrev pub write : Write → Table → Table
write (claims i hash) t = update_where (with_id i) (claim hash) t
write (cancels i) t = update_where (with_id i) cancel_row t

-- `markClaimed` up to its UPDATE: the reply, or the write that is to come.
pub begin_claim : Verify → ℕ → ℕ → ℕ → ℕ → Table → Reply (Unit {0}) ⊎ Write
begin_claim verify now user_id i hash t = elim (find_where (with_id i) t) [
  | none ↦ inl (rejected 404 "Payment request not found")
  | some r ↦
      if leb r.expires_at now
      then inl (rejected 410 "Payment request has expired")
      else if not (r.requester_id == user_id)
      then inl (rejected 403 "Only the intended recipient can claim this payment request")
      else if is_cancelled r.status
      then inl (rejected 410 "Payment request was cancelled")
      else if r.claimed
      then inl (rejected 409 "Payment request already claimed")
      else elim (verify hash r.requester_wallet r.asset r.amount) [
        | err e ↦ inl (forwarded e)
        | ok valid ↦
            if valid then inr (claims i hash) else inl (rejected 422 "Unable to verify transaction")
      ]
]

-- `cancel` up to its UPDATE
pub begin_cancel : ℕ → ℕ → Table → Reply (Unit {0}) ⊎ Write
begin_cancel user_id i t = elim (find_where (with_id i) t) [
  | none ↦ inl (rejected 404 "Payment request not found")
  | some r ↦
      if not (r.requester_id == user_id)
      then inl (rejected 404 "Payment request not found")
      else if r.claimed
      then inl (rejected 409 "Payment request already paid")
      else inr (cancels i)
]

-- A handler whose write follows at once
abbrev pub finish : Reply (Unit {0}) ⊎ Write → Table → Reply (Unit {0}) × Table
finish (inl reply) t = (reply, t)
finish (inr w) t = (json tt, write w t)

pub mark_claimed : Verify → ℕ → ℕ → ℕ → ℕ → Table → Reply (Unit {0}) × Table
unfolding begin_claim
mark_claimed verify now user_id i hash t = finish (begin_claim verify now user_id i hash t) t

pub cancel : ℕ → ℕ → Table → Reply (Unit {0}) × Table
unfolding begin_cancel
cancel user_id i t = finish (begin_cancel user_id i t) t

-- STATUS_SQL
pub data Shown : Type 0 where
  paid cancelled expired pending : Shown

pub shown : ℕ → PaymentRequest → Shown
shown now r =
    if r.claimed
    then paid
    else if is_cancelled r.status
    then Shown.cancelled
    else if leb r.expires_at now
    then expired
    else pending

abbrev pub same_shown : Shown → Shown → Bool
same_shown paid paid = true
same_shown Shown.cancelled Shown.cancelled = true
same_shown expired expired = true
same_shown pending pending = true
same_shown _ _ = false

-- The status filter of the query: absent, one of the four, or another text.
pub data Filter : Type 0 where
  every : Filter
  only : Shown → Filter
  invalid : Filter

-- `parseInt(…) || d`, where `none` is a text that does not parse.
abbrev pub int_or : ℕ → Option ℤ → ℤ
int_or d none = pos d
int_or d (some (pos zero)) = pos d
int_or d (some (pos (suc n))) = pos (suc n)
int_or d (some (negsuc n)) = negsuc n

abbrev pub at_least_one : ℤ → ℕ
at_least_one (pos n) = max n 1
at_least_one (negsuc n) = 1

pub page_of : Option ℤ → ℕ
page_of o = at_least_one (int_or 1 o)

pub limit_of : Option ℤ → ℕ
limit_of o = min (at_least_one (int_or 10 o)) 50

abbrev pub drop {ℓ} : {A : Type ℓ} → ℕ → List A → List A
drop zero xs = xs
drop (suc n) [] = []
drop (suc n) (x ∷ xs) = drop n xs

abbrev pub take {ℓ} : {A : Type ℓ} → ℕ → List A → List A
take zero xs = []
take (suc n) [] = []
take (suc n) (x ∷ xs) = x ∷ take n xs

pub record Listing : Type 0 where
  pub requests : List PaymentRequest
  pub page : ℕ
  pub limit : ℕ
  pub total : ℕ

abbrev pub is_listed : ℕ → ℕ → Filter → PaymentRequest → Bool
is_listed now user_id every r = r.requester_id == user_id
is_listed now user_id (only s) r = (r.requester_id == user_id) && same_shown (shown now r) s
is_listed now user_id invalid r = false

-- The rows of the table stand here with the newest first, as `ORDER BY created_at DESC` gives them.
abbrev pub listing : ℕ → ℕ → Filter → Option ℤ → Option ℤ → Table → Listing
listing now user_id f page limit t =
    let rows = select_where (is_listed now user_id f) t in
    record {
      requests = take (limit_of limit) (drop ((page_of page - 1) * limit_of limit) rows);
      page = page_of page;
      limit = limit_of limit;
      total = count_where (is_listed now user_id f) t;
    }

pub list_mine : ℕ → ℕ → Filter → Option ℤ → Option ℤ → Table → Reply Listing
unfolding page_of limit_of shown
list_mine now user_id invalid page limit t = rejected 400 "Invalid status filter"
list_mine now user_id every page limit t = json (listing now user_id every page limit t)
list_mine now user_id (only s) page limit t = json (listing now user_id (only s) page limit t)
