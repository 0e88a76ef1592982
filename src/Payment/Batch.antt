-- ===== src/Payment/Batch.antt =====
-- `sendBatch` of backend/src/controllers/paymentController.js. The validation of a recipient, the
-- submission to the Stellar network and the outcome of each INSERT are arguments.
use cross_border_payment_app.Fraud.{State}
use cross_border_payment_app.Fees.{Breakdown, build_fee_breakdown}
use cross_border_payment_app.FeeConfig.{Config}
use cross_border_payment_app.Payment.{
  User, Limits, Screening, Balances, AmlStatus, estimate_usd_value, ensure_kyc_if_needed,
  aml_rescreen_for_payment, check_payment_preflight, check_sufficient_balance,
}
pub mod Laws
pub mod Cleared
mod Examples
use cross_border_payment_app.Base.{
  ℕ, ◌+◌, ◌-◌, Bool, true, false, ◌&&◌, not, Option, none, some, List, [], ◌∷◌, ◌++◌, map, ◌==◌,
  if◌then◌else◌, length, Result, throw_if, with_status, with_code, ◌>>◌, Asset, ok, err,
}

pub record Recipient : Type 0 where
  pub recipient_address : ℕ
  pub amount : ℕ

pub data Status : Type 0 where
  pending success failed : Status

-- An entry of `results`.
pub record Item : Type 0 where
  pub recipient_address : ℕ
  pub amount : ℕ
  pub status : Status
  pub fee_breakdown : Option Breakdown

-- A row that `insertTransactionRecord` writes.
pub record TxRecord : Type 0 where
  pub recipient_wallet : ℕ
  pub amount : ℕ
  pub completed : Bool
  pub fee_amount : ℕ

-- The answer of `sendBatchPayment`: the hash, or an error with its status and whether it carries the
-- network's response.
pub data SendOutcome : Type 0 where
  sent : ℕ → SendOutcome
  thrown : Option ℕ → Bool → SendOutcome

pub record Context : Type 0 where
  pub key : ℕ
  pub has_memo : Bool
  pub asset : Asset
  pub memo_required : ℕ → Bool
  pub valid : ℕ → Bool
  pub fallback_bps : ℕ
  pub fee_config : Result (Option Config)

abbrev pub failed_item : Recipient → Item
failed_item r = record {
  recipient_address = r.recipient_address;
  amount = r.amount;
  status = failed;
  fee_breakdown = none;
}

abbrev pub fee_of : Context → ℕ → Breakdown
fee_of c n = build_fee_breakdown c.fallback_bps c.fee_config n c.asset none

abbrev pub pending_item : Context → Recipient → Item
pending_item c r = record {
  recipient_address = r.recipient_address;
  amount = r.amount;
  status = pending;
  fee_breakdown = some (fee_of c r.amount);
}

-- One round of the loop over the recipients.
pub classify : Context → Recipient → Item
classify c r =
    if r.recipient_address == c.key
    then failed_item r
    else if not c.has_memo && c.memo_required r.recipient_address
    then failed_item r
    else if c.valid r.recipient_address
    then pending_item c r
    else failed_item r

-- `validRecipients`: the address and the net amount of each pending entry.
pub valid_recipients : List Item → List (ℕ × ℕ)
valid_recipients [] = []
valid_recipients (i ∷ items) =
    let rest = valid_recipients items in
    elim i.status [
      | pending ↦ elim i.fee_breakdown [
        | some b ↦ (i.recipient_address, b.net_amount) ∷ rest
        | none ↦ rest
      ]
      | _ ↦ rest
    ]

abbrev pub settle_status : Bool → Status → Status
settle_status true pending = success
settle_status false pending = failed
settle_status _ success = success
settle_status _ failed = failed

pub settle : Bool → Item → Item
settle submitted i = record i { status = settle_status submitted i.status }

abbrev pub is_success : Status → Bool
is_success success = true
is_success _ = false

abbrev pub fee_amount_of : Option Breakdown → ℕ
fee_amount_of none = 0
fee_amount_of (some b) = b.platform_fee_amount

pub tx_record : Item → TxRecord
tx_record i = record {
  recipient_wallet = i.recipient_address;
  amount = i.amount;
  completed = is_success i.status;
  fee_amount = if is_success i.status then fee_amount_of i.fee_breakdown else 0;
}

pub record Summary : Type 0 where
  pub total : ℕ
  pub submitted : ℕ
  pub successful : ℕ
  pub failed : ℕ

-- Which INSERTs of a handler's run succeed, by their number: the first write of the rows counts from 0,
-- and the write of the `catch` goes on after it.
abbrev pub Inserts : Type 0
Inserts = ℕ → Bool

-- `Promise.all` over the INSERTs: those that succeed leave their rows, also where another one fails.
pub stored : Inserts → ℕ → List TxRecord → List TxRecord
stored inserts k [] = []
stored inserts k (t ∷ ts) =
    let rest = stored inserts (k + 1) ts in if inserts k then t ∷ rest else rest

pub all_stored : Inserts → ℕ → List TxRecord → Bool
all_stored inserts k [] = true
all_stored inserts k (t ∷ ts) = inserts k && all_stored inserts (k + 1) ts

-- The status code, the summary, the entries and the rows written; and the fee that is handed on to be
-- collected.
pub record BatchReply : Type 0 where
  pub status_code : ℕ
  pub summary : Summary
  pub results : List Item
  pub records : List TxRecord
  pub fee_total : ℕ

pub fee_sum : List Item → ℕ
fee_sum [] = 0
fee_sum (i ∷ items) =
    (if is_success i.status then fee_amount_of i.fee_breakdown else 0) + fee_sum items

abbrev pub error_code : Option ℕ → Bool → ℕ
error_code (some code) _ = code
error_code none true = 400
error_code none false = 500

-- The rows that are written once the entries are settled.
pub records_after : Bool → List Item → List TxRecord
unfolding settle tx_record
records_after submitted [] = []
records_after submitted (i ∷ items) = tx_record (settle submitted i) ∷ records_after submitted items

-- The rows that the `catch` writes, all of them as failed, whatever their entries say.
pub failed_records : List Item → List TxRecord
failed_records [] = []
failed_records (i ∷ items) =
    record {
      recipient_wallet = i.recipient_address;
      amount = i.amount;
      completed = false;
      fee_amount = 0;
    }
    ∷ failed_records items

-- The `catch`, on the entries as they stand, with the code of the error and the rows written before. An
-- INSERT that fails here is thrown on, and answered with 500.
abbrev pub caught : Inserts → ℕ → List TxRecord → List Item → ℕ → ℕ → BatchReply
caught inserts code before results from submitted = record {
  status_code = if all_stored inserts from (failed_records results) then code else 500;
  summary = record {
    total = length results;
    submitted = submitted;
    successful = 0;
    failed = length results;
  };
  results = results;
  records = before ++ stored inserts from (failed_records results);
  fee_total = 0;
}

-- The end of the batch, on the entries of the loop. Where the payment succeeds and an INSERT after it
-- fails, the `catch` writes the rows again, as failed.
pub submit : (List (ℕ × ℕ) → SendOutcome) → Inserts → List Item → BatchReply
unfolding valid_recipients settle records_after fee_sum failed_records stored all_stored
submit send inserts items =
    let valid = valid_recipients items in
    if length valid == 0
    then record {
      status_code = if all_stored inserts 0 (failed_records items) then 400 else 500;
      summary = record {
        total = length items;
        submitted = 0;
        successful = 0;
        failed = length items;
      };
      results = items;
      records = stored inserts 0 (failed_records items);
      fee_total = 0;
    }
    else elim (send valid) [
      | sent hash ↦
          let results = map (settle true) items in
          let rows = records_after true items in
          if all_stored inserts 0 rows
          then record {
            status_code = 200;
            summary = record {
              total = length items;
              submitted = length valid;
              successful = length valid;
              failed = length items - length valid;
            };
            results = results;
            records = stored inserts 0 rows;
            fee_total = fee_sum results;
          }
          else caught inserts 500 (stored inserts 0 rows) results (length items) (length valid)
      | thrown code has_response ↦
          caught inserts (error_code code has_response) [] (map (settle false) items) 0
            (length valid)
    ]

pub process : (List (ℕ × ℕ) → SendOutcome) → Inserts → Context → List Recipient → BatchReply
unfolding classify submit
process send inserts c recipients = submit send inserts (map (classify c) recipients)

pub sum_amounts : List Recipient → ℕ
sum_amounts [] = 0
sum_amounts (r ∷ rs) = r.amount + sum_amounts rs

-- The whole handler; the context takes its key from the user's wallet, if there is one.
pub send_batch :
    Limits
    → List User
    → Screening
    → Balances
    → AmlStatus
    → Bool
    → (List (ℕ × ℕ) → SendOutcome)
    → Inserts
    → ℕ
    → Option ℕ
    → Context
    → List Recipient
    → State
    → Result BatchReply
unfolding ensure_kyc_if_needed aml_rescreen_for_payment check_payment_preflight
    check_sufficient_balance process sum_amounts estimate_usd_value
send_batch l users sc bs aml lock_free send inserts user_id wallet context recipients s =
    let total = sum_amounts recipients in
    ensure_kyc_if_needed l users user_id total context.asset >> elim wallet [
      | none ↦ err (with_status 404)
      | some key ↦
          let c = record context { key = key } in
          aml_rescreen_for_payment l aml (estimate_usd_value l.xlm_usd_rate total c.asset)
          >> throw_if (not lock_free) (with_code 429 "CONCURRENCY_LIMIT")
          >> (check_payment_preflight l sc key total c.asset s).0
          >> check_sufficient_balance bs total c.asset
          >> ok (process send inserts c recipients)
    ]
