-- ===== src/Sep31.antt =====
-- The payments of backend/src/controllers/sep31Controller.js over the tables sep31_transactions and
-- sep31_callbacks, and the callbacks of backend/src/services/sep31CallbackService.js.
pub mod Signed
pub mod Callbacks
mod Examples
use cross_border_payment_app.Ssrf.{Url, Dns, validate_public_url}
use cross_border_payment_app.Base.{
  ℕ, ◌+◌, ◌*◌, ◌^◌, Bool, true, false, ◌&&◌, not, Option, none, some, List, [], ◌∷◌, map, reverse,
  ltb, leb, ◌==◌, if◌then◌else◌, find_where, select_where, update_where, any, plain_error, Reply,
  Asset, same_asset, usdc, json, rejected, forwarded,
}

pub data Status : Type 0 where
  pending completed error refunded failed : Status
  unknown : ℕ → Status

-- A row of sep31_transactions. The callback_url is what `new URL` makes of its text.
pub record Transaction : Type 0 where
  pub id : ℕ
  pub sender_id : ℕ
  pub receiver_account : ℕ
  pub amount : ℕ
  pub asset_code : Asset
  pub kyc_verified : Bool
  pub status : Status
  pub status_message : Option ℕ
  pub stellar_transaction_id : Option ℕ
  pub refunded : Bool
  pub callback_url : Option (Option Url)
  pub shared_secret : Option ℕ

-- A row of sep31_callbacks
pub record Callback : Type 0 where
  pub transaction_id : ℕ
  pub http_status : Option ℕ
  pub attempt_number : ℕ

-- A request that left the server, with the secret its signature was made with.
pub record Post : Type 0 where
  pub transaction_id : ℕ
  pub status : Status
  pub secret : ℕ
  pub attempt : ℕ

pub record State : Type 0 where
  pub transactions : List Transaction
  pub callbacks : List Callback
  pub posts : List Post

-- `validateCallbackUrl`
pub validate_callback_url : Dns → Option Url → Bool
unfolding validate_public_url
validate_callback_url dns url = validate_public_url dns url

-- MAX_ATTEMPTS
abbrev pub max_attempts : ℕ
max_attempts = 5

-- What the world does during one attempt; no status when `fetch` throws.
pub record Attempt : Type 0 where
  pub dns : Dns
  pub http_status : Option ℕ
  pub insert_fails : Bool

abbrev pub is_success : Option ℕ → Bool
is_success none = false
is_success (some status) = not (status == 0) && leb 200 status && ltb status 300

pub data Next : Type 0 where
  over : Next
  retry_in : ℕ → Next

-- The request of one attempt, and the row that is written of it.
abbrev pub requested : Transaction → ℕ → Attempt → ℕ → State → State
requested x secret t attempt s =
    let post : Post = record {
      transaction_id = x.id;
      status = x.status;
      secret = secret;
      attempt = attempt;
    } in
    let row : Callback = record {
      transaction_id = x.id;
      http_status = t.http_status;
      attempt_number = attempt;
    } in
    record s {
      posts = post ∷ s.posts;
      callbacks = if t.insert_fails then s.callbacks else row ∷ s.callbacks;
    }

-- One call of `deliverCallback`, up to the timer.
pub attempt_callback : Transaction → Attempt → ℕ → State → Next × State
unfolding validate_callback_url
attempt_callback x t attempt s = elim x.callback_url [
  | none ↦ (over, s)
  | some url ↦ elim x.shared_secret [
    | none ↦ (over, s)
    | some secret ↦ if not (validate_callback_url t.dns url) then (over, s) else (
      if not (is_success t.http_status) && ltb attempt max_attempts
          then retry_in (2 ^ attempt * 1000)
          else over,
      requested x secret t attempt s,
    )
  ]
]

-- `deliverCallback` with all its timers, over what the world does at each attempt. The first component
-- tells whether it is over, and not waiting for a timer.
pub deliver_callback : Transaction → List Attempt → ℕ → State → Bool × State
unfolding attempt_callback
deliver_callback x [] attempt s = (false, s)
deliver_callback x (t ∷ ts) attempt s =
    let (next, s') = attempt_callback x t attempt s in
    elim next [ over ↦ (true, s') | retry_in delay ↦ deliver_callback x ts (attempt + 1) s' ]

-- The fields of an asset in the /info of the anchor, with whether each is optional.
pub record Field : Type 0 where
  pub name : ℕ
  pub optional : Bool

abbrev pub Info : Type 0
Info = List (Asset × List Field)

abbrev pub for_asset : Asset → Asset × List Field → Bool
for_asset a (b, fields) = same_asset a b

-- `getRequiredFields`
pub get_required_fields : Info → Asset → List ℕ
unfolding same_asset
get_required_fields info a = elim (find_where (for_asset a) info) [
  | none ↦ []
  | some (b, fields) ↦ map (λ f. f.name) (select_where (λ f. not f.optional) fields)
]

-- The entry of the cache, with the second it ends at, and what the anchor answers, if it does.
pub record Anchor : Type 0 where
  pub cached : Option (ℕ × Info)
  pub answer : Option Info

-- The answer of the anchor, kept for five minutes when there is one.
abbrev pub asked : ℕ → Option Info → Option Info × Option (ℕ × Info)
asked now none = (none, none)
asked now (some info) = (some info, some (now + 5 * 60, info))

-- `fetchAnchorInfo`, with what the cache holds afterwards; `none` when it throws.
pub fetch_anchor_info : ℕ → Anchor → Option Info × Option (ℕ × Info)
fetch_anchor_info now a = elim a.cached [
  | none ↦ asked now a.answer
  | some (ends, info) ↦ if ltb now ends then (some info, a.cached) else asked now a.answer
]

-- The body of a request. `none` stands for a missing or empty field, and `fields` for the names of the
-- fields with a value.
pub record NewTransaction : Type 0 where
  pub amount : Option ℕ
  pub receiver_account : Option ℕ
  pub asset_code : Option Asset
  pub fields : List ℕ
  pub callback_url : Option (Option Url)

-- The caller, and what the server adds: the new id, and a random secret.
pub record Caller : Type 0 where
  pub user_id : ℕ
  pub kyc_is_verified : Bool
  pub tx_id : ℕ
  pub random : ℕ

abbrev pub or_usdc : Option Asset → Asset
or_usdc none = usdc
or_usdc (some a) = a

-- `callback_url && !(await validateCallbackUrl(callback_url))`
abbrev pub is_bad_url : Dns → Option (Option Url) → Bool
is_bad_url dns none = false
is_bad_url dns (some url) = not (validate_callback_url dns url)

abbrev pub required_fields : Option Info → Asset → List ℕ
required_fields none a = []
required_fields (some info) a = get_required_fields info a

abbrev pub is_missing : List ℕ → ℕ → Bool
is_missing given f = not (any (λ g. g == f) given)

abbrev pub new_transaction : NewTransaction → Caller → ℕ → ℕ → Transaction
new_transaction q c amount receiver = record {
  id = c.tx_id;
  sender_id = c.user_id;
  receiver_account = receiver;
  amount = amount;
  asset_code = or_usdc q.asset_code;
  kyc_verified = c.kyc_is_verified;
  status = pending;
  status_message = none;
  stellar_transaction_id = none;
  refunded = false;
  callback_url = q.callback_url;
  shared_secret = elim q.callback_url [ none ↦ none | some url ↦ some c.random ];
}

-- The row is written, and the delivery of the callback begins.
abbrev pub insert_transaction : Transaction → List Attempt → State → State
insert_transaction x ts s =
    (deliver_callback x ts 1 (record s { transactions = x ∷ s.transactions })).1

-- `createTransaction`, with the answers of the DNS, of the anchor, and to the callbacks
pub create_transaction :
    Dns → Option Info → NewTransaction → Caller → List Attempt → State → Reply Transaction × State
unfolding deliver_callback get_required_fields validate_callback_url
create_transaction dns info q c ts s = elim q.amount [
  | none ↦ (rejected 400 "", s)
  | some amount ↦ elim q.receiver_account [
    | none ↦ (rejected 400 "", s)
    | some receiver ↦
        if is_bad_url dns q.callback_url
        then (rejected 400 "", s)
        else if any (is_missing q.fields) (required_fields info (or_usdc q.asset_code))
        then (rejected 400 "", s)
        else let x = new_transaction q c amount receiver in (json x, insert_transaction x ts s)
  ]
]

abbrev pub owned : ℕ → ℕ → Transaction → Bool
owned i user x = x.id == i && x.sender_id == user

abbrev pub of_transaction : ℕ → Callback → Bool
of_transaction i c = c.transaction_id == i

-- `getTransaction`: the row, and the attempts at its callback, the oldest first
pub get_transaction : ℕ → ℕ → State → Reply (Transaction × List Callback)
get_transaction user i s = elim (find_where (owned i user) s.transactions) [
  | none ↦ rejected 404 ""
  | some x ↦ json (x, reverse (select_where (of_transaction i) s.callbacks))
]

pub is_valid_status : Status → Bool
is_valid_status failed = false
is_valid_status (unknown n) = false
is_valid_status _ = true

-- The CHECK of the table allows 'pending', 'completed' and 'failed' only.
pub violates_check : Status → Bool
violates_check pending = false
violates_check completed = false
violates_check failed = false
violates_check _ = true

-- The body of an update
pub record Update : Type 0 where
  pub status : Status
  pub status_message : Option ℕ
  pub stellar_transaction_id : Option ℕ
  pub refunded : Bool

abbrev pub updated : Update → Transaction → Transaction
updated u x = record x {
  status = u.status;
  status_message = u.status_message;
  stellar_transaction_id = u.stellar_transaction_id;
  refunded = u.refunded;
}

-- `updateTransactionStatus`, with the answers to the callbacks
pub update_transaction_status : ℕ → ℕ → Update → List Attempt → State → Reply Transaction × State
unfolding deliver_callback is_valid_status violates_check
update_transaction_status user i u ts s =
    if not (is_valid_status u.status)
    then (rejected 400 "", s)
    else if not (any (owned i user) s.transactions)
    then (rejected 404 "", s)
    else if violates_check u.status
    then (forwarded plain_error, s)
    else let s' = record s {
      transactions = update_where (owned i user) (updated u) s.transactions;
    } in
      elim (find_where (owned i user) s'.transactions) [
        | none ↦ (rejected 404 "", s')
        | some x ↦ (json x, (deliver_callback x ts 1 s').1)
      ]
