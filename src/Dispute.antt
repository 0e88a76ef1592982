-- ===== src/Dispute.antt =====
-- Disputes: backend/src/controllers/disputeResolutionController.js, over the tables disputes,
-- dispute_evidence and support_tickets. The calls of the contract are answered by the network.
pub mod Resolution
mod Examples
use cross_border_payment_app.Base.{
  ℕ, Bool, true, false, ◌&&◌, ◌||◌, not, Option, none, some, List, [], ◌∷◌, ◌++◌, leb, ◌==◌,
  if◌then◌else◌, find_where, select_where, count_where, update_where, any, Result, with_status, ok,
  err,
}

pub data Status : Type 0 where
  opened resolved_for_recipient resolved_for_sender expired : Status

pub record Dispute : Type 0 where
  pub id : ℕ
  pub contract_dispute_id : ℕ
  pub sender_wallet : ℕ
  pub recipient_wallet : ℕ
  pub amount : ℕ
  pub status : Status
  pub support_ticket_id : Option ℕ
  pub open_tx_hash : ℕ
  pub resolve_tx_hash : Option ℕ
  pub deadline_at : ℕ

pub record Evidence : Type 0 where
  pub dispute_id : ℕ
  pub uploader_id : ℕ
  pub sha256_hash : ℕ

pub data TicketStatus : Type 0 where
  other_status in_dispute closed : TicketStatus

pub record Ticket : Type 0 where
  pub id : ℕ
  pub user_id : ℕ
  pub status : TicketStatus

pub record State : Type 0 where
  pub disputes : List Dispute
  pub evidence : List Evidence
  pub tickets : List Ticket

-- The caller, with the default wallet, and whether the role is that of an administrator.
pub record Caller : Type 0 where
  pub user_id : ℕ
  pub wallet : Option ℕ
  pub is_admin : Bool

abbrev pub is_open : Status → Bool
is_open opened = true
is_open _ = false

abbrev pub with_id : ℕ → Dispute → Bool
with_id i d = d.id == i

abbrev pub of_dispute : ℕ → Evidence → Bool
of_dispute i e = e.dispute_id == i

abbrev pub owned_ticket : ℕ → ℕ → Ticket → Bool
owned_ticket i user t = t.id == i && t.user_id == user

abbrev pub set_ticket : TicketStatus → Option ℕ → List Ticket → List Ticket
set_ticket st none ts = ts
set_ticket st (some i) ts = update_where (λ t. t.id == i) (λ t. record t { status = st }) ts

abbrev pub is_party : ℕ → Dispute → Bool
is_party w d = w == d.sender_wallet || w == d.recipient_wallet

abbrev pub party : Option ℕ → Dispute → Bool
party none d = false
party (some w) d = is_party w d

pub record NewDispute : Type 0 where
  pub id : ℕ
  pub recipient_wallet : ℕ
  pub amount : ℕ
  pub support_ticket_id : Option ℕ

-- What the contract answers to an opening: its identifier, the transaction and the deadline.
pub record Opened : Type 0 where
  pub dispute_id : ℕ
  pub tx_hash : ℕ
  pub deadline : ℕ

abbrev pub ticket_fits : Option ℕ → ℕ → List Ticket → Bool
ticket_fits none user ts = true
ticket_fits (some i) user ts = any (owned_ticket i user) ts

pub open_dispute : Caller → NewDispute → Result Opened → State → Result ℕ × State
open_dispute c q called s = elim c.wallet [
  | none ↦ (err (with_status 404), s)
  | some w ↦
      if not (ticket_fits q.support_ticket_id c.user_id s.tickets)
      then (err (with_status 404), s)
      else elim called [
        | err e ↦ (err e, s)
        | ok o ↦ (
          ok q.id,
          record s {
            disputes =
                s.disputes
                ++ record {
                  id = q.id;
                  contract_dispute_id = o.dispute_id;
                  sender_wallet = w;
                  recipient_wallet = q.recipient_wallet;
                  amount = q.amount;
                  status = opened;
                  support_ticket_id = q.support_ticket_id;
                  open_tx_hash = o.tx_hash;
                  resolve_tx_hash = none;
                  deadline_at = o.deadline;
                }
                  ∷ [];
            tickets = set_ticket in_dispute q.support_ticket_id s.tickets;
          },
        )
      ]
]

abbrev pub evidence_limit : ℕ
evidence_limit = 5

-- `submitEvidenceHandler` up to its INSERT: the error, or the row that is to be written. `hash` is that of
-- the file or the CID.
pub begin_evidence : Caller → ℕ → Option ℕ → State → Result Evidence
begin_evidence c i hash s = elim (find_where (with_id i) s.disputes) [
  | none ↦ err (with_status 404)
  | some d ↦ if not (is_open d.status) then err (with_status 400) else elim c.wallet [
    | none ↦ err (with_status 404)
    | some w ↦
        if not (is_party w d)
        then err (with_status 403)
        else if leb evidence_limit (count_where (of_dispute i) s.evidence)
        then err (with_status 400)
        else elim hash [
          | none ↦ err (with_status 400)
          | some h ↦ ok (record { dispute_id = i; uploader_id = c.user_id; sha256_hash = h })
        ]
  ]
]

abbrev pub insert_evidence : Evidence → State → State
insert_evidence e s = record s { evidence = s.evidence ++ e ∷ [] }

-- The handler with nothing between its parts; the row is written before the contract is called.
pub submit_evidence_handler : Caller → ℕ → Option ℕ → Result ℕ → State → Result ℕ × State
unfolding begin_evidence
submit_evidence_handler c i hash called s = elim (begin_evidence c i hash s) [
  | err e ↦ (err e, s)
  | ok e ↦ (called, insert_evidence e s)
]

abbrev pub new_status : Bool → Status
new_status true = resolved_for_recipient
new_status false = resolved_for_sender

abbrev pub resolved_row : Status → ℕ → Dispute → Dispute
resolved_row st hash d = record d { status = st; resolve_tx_hash = some hash }

-- A resolution that the contract has made, and that is to be written.
pub record Ruling : Type 0 where
  pub dispute_id : ℕ
  pub status : Status
  pub tx_hash : ℕ
  pub ticket : Option ℕ

-- `resolve` up to its UPDATE; `has_key` says whether the arbitrator's key is configured, and `called` is
-- the answer of the contract.
pub begin_resolve : Bool → ℕ → Bool → Result ℕ → State → Result Ruling
begin_resolve has_key i release_to_recipient called s = elim (find_where (with_id i) s.disputes) [
  | none ↦ err (with_status 404)
  | some d ↦
      if not (is_open d.status)
      then err (with_status 400)
      else if not has_key
      then err (with_status 500)
      else elim called [
        | err e ↦ err e
        | ok hash ↦ ok (record {
          dispute_id = i;
          status = new_status release_to_recipient;
          tx_hash = hash;
          ticket = d.support_ticket_id;
        })
      ]
]

-- The UPDATE by the id, and that of the ticket
abbrev pub write_resolution : Ruling → State → State
write_resolution r s = record s {
  disputes = update_where (with_id r.dispute_id) (resolved_row r.status r.tx_hash) s.disputes;
  tickets = set_ticket closed r.ticket s.tickets;
}

-- The handler with nothing between its parts
pub resolve : Bool → ℕ → Bool → Result ℕ → State → Result Status × State
unfolding begin_resolve
resolve has_key i release_to_recipient called s =
    elim (begin_resolve has_key i release_to_recipient called s) [
      | err e ↦ (err e, s)
      | ok r ↦ (ok r.status, write_resolution r s)
    ]

pub get_dispute : Caller → ℕ → State → Result Dispute
get_dispute c i s = elim (find_where (with_id i) s.disputes) [
  | none ↦ err (with_status 404)
  | some d ↦ if c.is_admin || party c.wallet d then ok d else err (with_status 403)
]

pub list_evidence : Caller → ℕ → State → Result (List Evidence)
list_evidence c i s = elim (find_where (with_id i) s.disputes) [
  | none ↦ err (with_status 404)
  | some d ↦ elim c.wallet [
    | none ↦ err (with_status 404)
    | some w ↦
        if is_party w d then ok (select_where (of_dispute i) s.evidence) else err (with_status 403)
  ]
]

pub list_disputes : Caller → State → List Dispute
list_disputes c s = elim c.wallet [ none ↦ [] | some w ↦ select_where (is_party w) s.disputes ]
