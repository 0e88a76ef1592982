-- ===== src/Escrow.antt =====
-- Agent escrows: backend/src/controllers/agentEscrowController.js, over the table agent_escrows and the
-- escrow contract of the Stellar network. Amounts are in units of 10^-7; times are in seconds.
pub mod Amounts
pub mod Agreement
pub mod Ended
pub mod Releases
mod Examples
use cross_border_payment_app.Base.{
  ℕ, ◌+◌, ◌-◌, ◌*◌, Bool, true, false, ◌||◌, not, Option, none, some, List, [], ◌∷◌, ltb, ◌==◌,
  if◌then◌else◌, find_where, update_where, any, Result, throw_if, with_status, with_code,
  plain_error, ◌>>◌, ◌>>=◌, ℤ, ok, err, pos, negsuc,
}

pub data Status : Type 0 where
  pending completed cancelled : Status

pub record Escrow : Type 0 where
  pub id : ℕ
  pub contract_escrow_id : ℕ
  pub sender_wallet : ℕ
  pub recipient_wallet : ℕ
  pub agent_wallet : ℕ
  pub amount : ℕ
  pub released_amount : ℕ
  pub fee_bps : ℕ
  pub status : Status
  pub confirm_tx_hash : Option ℕ
  pub created_at : ℕ
  pub expires_at : Option ℕ

-- What the contract holds of an escrow.
pub data Held : Type 0 where
  locked paid refunded : Held

pub record World : Type 0 where
  pub escrows : List Escrow
  pub contract : ℕ → Held

-- The caller: the role of the session, the wallet that its token names (sessions of this application name
-- none), and the wallets of the user in their order.
pub record Caller : Type 0 where
  pub is_agent : Bool
  pub session_wallet : Option ℕ
  pub wallets : List ℕ

abbrev pub is_pending : Status → Bool
is_pending pending = true
is_pending _ = false

abbrev pub with_id : ℕ → Escrow → Bool
with_id i e = e.id == i

abbrev pub owns : ℕ → Caller → Bool
owns wallet c = any (λ w. w == wallet) c.wallets

abbrev pub first_wallet_is : ℕ → List ℕ → Bool
first_wallet_is wallet [] = false
first_wallet_is wallet (w ∷ ws) = w == wallet

abbrev pub is_wallet : ℕ → Option ℕ → Bool
is_wallet wallet none = false
is_wallet wallet (some w) = wallet == w

-- `registered` says whether the agent's wallet is one of the platform's.
pub confirm_checks : (ℕ → Bool) → Caller → ℕ → List Escrow → Result Escrow
confirm_checks registered c i es = do
  throw_if (not c.is_agent) (with_status 403)
  elim (find_where (with_id i) es) [
    | none ↦ err (with_status 404)
    | some e ↦ do
      throw_if (not (is_pending e.status)) (with_status 400)
      throw_if (not (first_wallet_is e.agent_wallet c.wallets)) (with_status 403)
      throw_if (not (registered e.agent_wallet)) (with_status 403)
      ok e
  ]

-- 48 hours after the creation, where the row has no time of its own
abbrev pub cancel_available_at : Escrow → ℕ
cancel_available_at e = elim e.expires_at [ none ↦ e.created_at + 172800 | some t ↦ t ]

pub cancel_checks : ℕ → Caller → ℕ → List Escrow → Result Escrow
cancel_checks now c i es = elim (find_where (with_id i) es) [
  | none ↦ err (with_status 404)
  | some e ↦ do
    throw_if (not (is_pending e.status)) (with_status 400)
    throw_if (not (owns e.sender_wallet c)) (with_status 403)
    throw_if (ltb now (cancel_available_at e)) (with_code 403 "CANCEL_TOO_EARLY")
    ok e
]

-- The network's part in a call of the contract: it is carried out and answered, or it is carried out and
-- the answer is lost, or it is not carried out. The contract refuses an escrow that is not locked.
pub data Network : Type 0 where
  answered : ℕ → Network
  answer_lost not_reached : Network

abbrev pub is_locked : Held → Bool
is_locked locked = true
is_locked _ = false

abbrev pub set_held : ℕ → Held → World → World
set_held k h w = record w { contract = λ j. if j == k then h else w.contract j }

pub call_contract : Held → Network → ℕ → World → Result ℕ × World
call_contract h (answered hash) k w =
    if is_locked (w.contract k) then (ok hash, set_held k h w) else (err (with_status 502), w)
call_contract h answer_lost k w =
    (err (with_status 502), if is_locked (w.contract k) then set_held k h w else w)
call_contract h not_reached k w = (err (with_status 502), w)

-- The update that follows the call.
pub record Write : Type 0 where
  pub escrow : Escrow
  pub status : Status
  pub tx_hash : ℕ

abbrev pub end_with : Write → Escrow → Escrow
end_with u e = record e { status = u.status; confirm_tx_hash = some u.tx_hash }

pub write : Write → World → World
write u w = record w { escrows = update_where (with_id u.escrow.id) (end_with u) w.escrows }

-- A handler up to its update.
abbrev pub begin : Result Escrow → Held → Status → Network → World → Result Write × World
begin checked h st n w = elim checked [
  | err e ↦ (err e, w)
  | ok r ↦
      let (called, w') = call_contract h n r.contract_escrow_id w in
      elim called [
        | err e ↦ (err e, w')
        | ok hash ↦ (ok (record { escrow = r; status = st; tx_hash = hash }), w')
      ]
]

pub begin_confirm : (ℕ → Bool) → Caller → ℕ → Network → World → Result Write × World
unfolding confirm_checks call_contract
begin_confirm registered c i n w =
    begin (confirm_checks registered c i w.escrows) paid completed n w

pub begin_cancel : ℕ → Caller → ℕ → Network → World → Result Write × World
unfolding cancel_checks call_contract
begin_cancel now c i n w = begin (cancel_checks now c i w.escrows) refunded cancelled n w

-- The rest of a handler: `update` is what the database answers to the update.
abbrev pub finish : Result (Unit {0}) → Result Write × World → Result ℕ × World
finish update (err e, w) = (err e, w)
finish update (ok u, w) = elim update [ err e ↦ (err e, w) | ok _ ↦ (ok u.tx_hash, write u w) ]

pub confirm : (ℕ → Bool) → Caller → ℕ → Network → Result (Unit {0}) → World → Result ℕ × World
unfolding begin_confirm write
confirm registered c i n update w = finish update (begin_confirm registered c i n w)

-- The end of `cancel`: `webhook` is not imported there, so that the handler throws once the row is
-- written.
abbrev pub without_webhook : Result ℕ × World → Result ℕ × World
without_webhook (err e, w) = (err e, w)
without_webhook (ok hash, w) = (err plain_error, w)

pub cancel : ℕ → Caller → ℕ → Network → Result (Unit {0}) → World → Result ℕ × World
unfolding begin_cancel write
cancel now c i n update w = without_webhook (finish update (begin_cancel now c i n w))

-- The amount released, what remains, the fee in units of 10^-11, and the net amount in the same units.
pub record Release : Type 0 where
  pub released_amount : ℕ
  pub remaining : ℕ
  pub fee : ℕ
  pub net_amount : ℕ

abbrev pub release_row : ℕ → Escrow → Escrow
release_row n e = record e { released_amount = e.released_amount + n }

pub partial_release : Caller → ℕ → ℤ → World → Result Release × World
partial_release c i (negsuc n) w = (err (with_status 400), w)
partial_release c i (pos n) w =
    if n == 0 then (err (with_status 400), w) else elim (find_where (with_id i) w.escrows) [
      | none ↦ (err (with_status 404), w)
      | some e ↦
          if not (is_pending e.status)
          then (err (with_status 400), w)
          else if not (is_wallet e.sender_wallet c.session_wallet)
          then (err (with_status 403), w)
          else if ltb (e.amount - e.released_amount) n
          then (err (with_status 400), w)
          else (
            ok (record {
              released_amount = e.released_amount + n;
              remaining = e.amount - (e.released_amount + n);
              fee = n * e.fee_bps;
              net_amount = n * 10000 - n * e.fee_bps;
            }),
            record w { escrows = update_where (with_id i) (release_row n) w.escrows },
          )
    ]

-- Only a party of the escrow is shown it.
pub get_escrow : Caller → ℕ → World → Result Escrow
get_escrow c i w = elim (find_where (with_id i) w.escrows) [
  | none ↦ err (with_status 404)
  | some e ↦
      if owns e.sender_wallet c || owns e.agent_wallet c || owns e.recipient_wallet c
      then ok e
      else err (with_status 404)
]

-- `create`: its first checks, and then the call of `ensureKycIfNeeded`, which the payment controller does
-- not export, so that the handler throws before anything is written.
pub create : (ℕ → Bool) → Bool → Option ℕ → ℕ → Caller → World → Result ℕ × World
create approved is_usdc stroops agent c w = (
  do
    throw_if (not is_usdc) (with_code 400 "UNSUPPORTED_ASSET")
    elim stroops [ none ↦ err (with_code 400 "INVALID_AMOUNT") | some n ↦ ok tt ]
    throw_if (not (approved agent)) (with_status 400)
    elim c.wallets [ [] ↦ err (with_status 404) | w ∷ ws ↦ err plain_error ],
  w,
)
