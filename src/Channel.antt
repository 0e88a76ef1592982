-- ===== src/Channel.antt =====
-- Payment channels: backend/src/services/paymentChannel.js, over the table payment_channels. A row is
-- locked by `FOR UPDATE` from its read to the commit, so each call is one step. Amounts are in units of
-- 10^-7, as the columns numeric(20,7) hold them; the amount of a payment is what `parseFloat` gives, to
-- twenty decimals, in units of 10^-20. The calls of the Stellar network are arguments.
pub mod Conservation
pub mod Lifecycle
mod Examples
use cross_border_payment_app.Base.{
  ℕ, ◌+◌, ◌-◌, ◌*◌, ◌/◌, Bool, true, false, ◌&&◌, ◌||◌, Option, none, some, List, [], ◌∷◌, ◌++◌,
  ltb, ◌==◌, if◌then◌else◌, find_where, update_where, Result, with_status, Asset, ℤ, ok, err, pos,
  negsuc,
}

pub data Status : Type 0 where
  opened closed : Status

pub record Channel : Type 0 where
  pub id : ℕ
  pub user_id : ℕ
  pub sender_public_key : ℕ
  pub recipient_public_key : ℕ
  pub asset : Asset
  pub funding_amount : ℕ
  pub sender_balance : ℕ
  pub recipient_balance : ℕ
  pub closing_min_time : ℕ
  pub status : Status
  pub settlement_tx_hash : Option ℕ

pub record Store : Type 0 where
  pub channels : List Channel
  pub next_id : ℕ

abbrev pub is_open : Status → Bool
is_open opened = true
is_open closed = false

-- `WHERE id = $1 AND user_id = $2 AND status = 'open'`
abbrev pub is_open_of : ℕ → ℕ → Channel → Bool
is_open_of i u c = (c.id == i) && (c.user_id == u) && is_open c.status

pub record OpenRequest : Type 0 where
  pub user_id : ℕ
  pub sender_public_key : ℕ
  pub recipient_public_key : ℕ
  pub asset : Asset
  pub funding_amount : ℕ

-- `prepared` is the answer of the network to the loading of the account and its base fee.
pub open_channel : Result (Unit {0}) → ℕ → ℕ → OpenRequest → Store → Result Channel × Store
open_channel prepared now timeout r s = elim prepared [
  | err e ↦ (err e, s)
  | ok _ ↦
      let c : Channel = record {
        id = s.next_id;
        user_id = r.user_id;
        sender_public_key = r.sender_public_key;
        recipient_public_key = r.recipient_public_key;
        asset = r.asset;
        funding_amount = r.funding_amount;
        sender_balance = r.funding_amount;
        recipient_balance = 0;
        closing_min_time = now + timeout;
        status = opened;
        settlement_tx_hash = none;
      } in
      (ok c, record s { channels = s.channels ++ c ∷ []; next_id = s.next_id + 1 })
]

-- A unit of the columns has so many parts of 10^-20.
abbrev pub parts : ℕ
parts = 10000000000000

-- What a column holds of a sum: numeric(20,7) rounds to the nearest unit, and up from the half.
abbrev pub to_column : ℕ → ℕ
to_column n = (n + 5000000000000) / parts

-- The amount, unless `amt <= 0 || amt > sender_balance`.
pub spendable : ℤ → ℕ → Option ℕ
spendable (negsuc n) balance = none
spendable (pos n) balance = if (n == 0) || ltb (balance * parts) n then none else some n

-- `SET sender_balance = sender_balance - $1, recipient_balance = recipient_balance + $1`
abbrev pub pay : ℕ → Channel → Channel
pay n c = record c {
  sender_balance = to_column (c.sender_balance * parts - n);
  recipient_balance = to_column (c.recipient_balance * parts + n);
}

pub transact : ℕ → ℕ → ℤ → Store → Result (Unit {0}) × Store
unfolding spendable
transact channel_id user_id amount s =
    elim (find_where (is_open_of channel_id user_id) s.channels) [
      | none ↦ (err (with_status 404), s)
      | some c ↦ elim (spendable amount c.sender_balance) [
        | none ↦ (err (with_status 400), s)
        | some n ↦ (
          ok tt,
          record s { channels = update_where (λ d. d.id == channel_id) (pay n) s.channels },
        )
      ]
    ]

-- The transaction that a close submits.
pub data Settlement : Type 0 where
  pay_recipient : ℕ → Asset → ℕ → Settlement
  closing_tx : ℕ → Settlement

pub settlement_of : Channel → Settlement
settlement_of c =
    if ltb 0 c.recipient_balance
    then pay_recipient c.recipient_public_key c.asset c.recipient_balance
    else closing_tx c.closing_min_time

abbrev pub close_row : ℕ → Channel → Channel
close_row hash c = record c { status = closed; settlement_tx_hash = some hash }

-- `written` is the answer of the database to the UPDATE and the COMMIT: where it is an error the row is
-- rolled back, although the transaction has been submitted.
pub close_channel : (Settlement → Result ℕ) → Result (Unit {0}) → ℕ → ℕ → Store → Result ℕ × Store
unfolding settlement_of
close_channel submit written channel_id user_id s =
    elim (find_where (is_open_of channel_id user_id) s.channels) [
      | none ↦ (err (with_status 404), s)
      | some c ↦ elim (submit (settlement_of c)) [
        | err e ↦ (err e, s)
        | ok hash ↦ elim written [
          | err e ↦ (err e, s)
          | ok _ ↦ (
            ok hash,
            record s {
              channels = update_where (λ d. d.id == channel_id) (close_row hash) s.channels;
            },
          )
        ]
      ]
    ]
