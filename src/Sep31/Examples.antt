-- ===== src/Sep31/Examples.antt =====
-- A transaction, its callbacks and its statuses.
use cross_border_payment_app.Ssrf.{dotted, text, Url, Dns, https, validate_public_url}
use cross_border_payment_app.Sep31.Callbacks.{sends}
use cross_border_payment_app.Sep31.Signed.{
  next, Reach, start, create_step, update_step, IsSound, Reach-IsSound,
}
use cross_border_payment_app.Sep31.{
  violates_check, retry_in, refunded, new_transaction, completed, pending, max_attempts, Attempt,
  get_transaction, State, get_required_fields, is_valid_status, Caller, Info, Transaction,
  NewTransaction, update_transaction_status, Update, attempt_callback, create_transaction,
  validate_callback_url, fetch_anchor_info, unknown,
}
use cross_border_payment_app.Base.{
  ℕ, ◌≡◌, refl, true, false, none, some, List, [], ◌∷◌, All, plain_error, same_asset, usdc,
  rejected, forwarded,
}

-- The name "a.b", which stands for 8.8.8.8
abbrev url : Url
url = record { protocol = https; hostname = text (97 ∷ 46 ∷ 98 ∷ []) }

abbrev dns : Dns
dns = record { lookup = λ h. some (dotted 8 8 8 8); resolve4 = λ h. none; resolve6 = λ h. none }

abbrev answered : ℕ → Attempt
answered status = record { dns = dns; http_status = some status; insert_fails = false }

abbrev empty : State
empty = record { transactions = []; callbacks = []; posts = [] }

abbrev request : NewTransaction
request = record {
  amount = some 50;
  receiver_account = some 4;
  asset_code = none;
  fields = 2 ∷ [];
  callback_url = some (some url);
}

abbrev caller : Caller
caller = record { user_id = 9; kyc_is_verified = true; tx_id = 1; random = 77 }

abbrev transaction : Transaction
transaction = new_transaction request caller 50 4

-- The anchor wants field 2, and field 3 is optional.
abbrev info : Info
info =
    (usdc, record { name = 2; optional = false } ∷ record { name = 3; optional = true } ∷ []) ∷ []

abbrev created : State
created = (create_transaction dns (some info) request caller (answered 200 ∷ []) empty).1

wanted : get_required_fields info usdc ≡ 2 ∷ []
unfolding get_required_fields same_asset
wanted = refl

fresh_info :
    fetch_anchor_info 100 (record { cached = some (50, []); answer = some info })
    ≡ (some info, some (400, info))
unfolding fetch_anchor_info
fresh_info = refl

public_url : validate_callback_url dns (some url) ≡ true
unfolding validate_callback_url validate_public_url
public_url = refl

signed :
    created.posts ≡ record { transaction_id = 1; status = pending; secret = 77; attempt = 1 } ∷ []
unfolding create_transaction validate_public_url same_asset
signed = refl

second_delay : (attempt_callback transaction (answered 500) 2 empty).0 ≡ retry_in 4000
unfolding attempt_callback validate_public_url
second_delay = refl

shown : get_transaction 8 1 created ≡ rejected 404 ""
unfolding get_transaction create_transaction validate_public_url same_asset
shown = refl

unknown_status : (is_valid_status (unknown 0) ≡ false) × (violates_check refunded ≡ true)
unfolding is_valid_status violates_check
unknown_status = (refl, refl)

abbrev tries : List Attempt
tries = answered 500 ∷ answered 302 ∷ answered 200 ∷ answered 200 ∷ answered 200 ∷ []

three_requests : sends (some url) max_attempts tries ≡ 3
unfolding validate_callback_url validate_public_url
three_requests = refl

abbrev completion : Update
completion = record {
  status = completed;
  status_message = none;
  stellar_transaction_id = some 5;
  refunded = false;
}

abbrev row : State
row = record { transactions = transaction ∷ []; callbacks = []; posts = [] }

refund_throws :
    (update_transaction_status 9 1 (record completion { status = refunded }) [] row).0
    ≡ forwarded plain_error
unfolding update_transaction_status
refund_throws = refl

valid_completion : is_valid_status completion.status ≡ true
unfolding is_valid_status
valid_completion = refl

reached : Reach (update_transaction_status 9 1 completion (answered 200 ∷ []) created).1
reached =
    next (next start (create_step dns (some info) request caller (answered 200 ∷ [])))
      (update_step 9 1 completion (answered 200 ∷ []))

Reach-IsSound_example :
    All IsSound
      (update_transaction_status 9 1 completion (answered 200 ∷ []) created).1.transactions
Reach-IsSound_example = Reach-IsSound reached
