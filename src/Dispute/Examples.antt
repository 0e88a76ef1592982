-- ===== src/Dispute/Examples.antt =====
-- Runs of backend/src/controllers/disputeResolutionController.js.
use cross_border_payment_app.Dispute.{
  TicketStatus, Evidence, insert_evidence, opened, resolved_for_recipient, Dispute, State, Caller,
  NewDispute, in_dispute, other_status, open_dispute, submit_evidence_handler, resolve, get_dispute,
  list_evidence, list_disputes,
}
use cross_border_payment_app.Dispute.Resolution.{System}
use cross_border_payment_app.Base.{
  ◌≡◌, refl, true, false, none, some, [], ◌∷◌, with_status, plain_error, ok, err,
}

abbrev sender : Caller
sender = record { user_id = 1; wallet = some 10; is_admin = false }

abbrev stranger : Caller
stranger = record { user_id = 3; wallet = some 30; is_admin = false }

abbrev before : State
before = record {
  disputes = [];
  evidence = [];
  tickets = record { id = 4; user_id = 1; status = other_status } ∷ [];
}

abbrev new_dispute : NewDispute
new_dispute = record { id = 5; recipient_wallet = 20; amount = 700; support_ticket_id = some 4 }

abbrev row : Dispute
row = record {
  id = 5;
  contract_dispute_id = 50;
  sender_wallet = 10;
  recipient_wallet = 20;
  amount = 700;
  status = opened;
  support_ticket_id = some 4;
  open_tx_hash = 99;
  resolve_tx_hash = none;
  deadline_at = 1000;
}

abbrev in_progress : State
in_progress = record {
  disputes = row ∷ [];
  evidence = [];
  tickets = record { id = 4; user_id = 1; status = in_dispute } ∷ [];
}

opens_one :
    open_dispute sender new_dispute
      (ok (record { dispute_id = 50; tx_hash = 99; deadline = 1000 }))
      before
    ≡ (ok 5, in_progress)
unfolding open_dispute
opens_one = refl

stranger_ticket :
    (open_dispute stranger new_dispute (err plain_error) before).0 ≡ err (with_status 404)
unfolding open_dispute
stranger_ticket = refl

stranger_evidence :
    (submit_evidence_handler stranger 5 (some 8) (ok 1) in_progress).0 ≡ err (with_status 403)
unfolding submit_evidence_handler
stranger_evidence = refl

no_arbitrator : (resolve false 5 true (ok 1) in_progress).0 ≡ err (with_status 500)
unfolding resolve
no_arbitrator = refl

stranger_reads : get_dispute stranger 5 in_progress ≡ err (with_status 403)
unfolding get_dispute
stranger_reads = refl

sender_reads : list_evidence sender 5 in_progress ≡ ok []
unfolding list_evidence
sender_reads = refl

sender_lists : list_disputes sender in_progress ≡ row ∷ []
unfolding list_disputes
sender_lists = refl

abbrev after_evidence : State
after_evidence = record in_progress {
  evidence = record { dispute_id = 5; uploader_id = 1; sha256_hash = 8 } ∷ [];
}

submitted : (submit_evidence_handler sender 5 (some 8) (ok 1) in_progress).1 ≡ after_evidence
unfolding submit_evidence_handler
submitted = refl

abbrev ended_row : Dispute
ended_row = record row { status = resolved_for_recipient; resolve_tx_hash = some 7 }

-- A submission was checked before the resolution, and is written after it.
abbrev late : Evidence
late = record { dispute_id = 5; uploader_id = 1; sha256_hash = 9 }

abbrev ended_system : System
ended_system = record {
  state = record after_evidence { disputes = ended_row ∷ [] };
  sending = late ∷ [];
  resolving = [];
}

abbrev after_late : System
after_late = record ended_system { state = insert_evidence late ended_system.state; sending = [] }

resolved_once : resolve true 5 true (ok 7) after_evidence ≡ (
  ok resolved_for_recipient,
  record ended_system.state {
    tickets = record { id = 4; user_id = 1; status = TicketStatus.closed } ∷ [];
  },
)
unfolding resolve
resolved_once = refl
