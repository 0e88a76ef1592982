-- ===== src/Escrow/Examples.antt =====
-- Runs of backend/src/controllers/agentEscrowController.js.
use cross_border_payment_app.Escrow.{
  pending, completed, Escrow, locked, World, Caller, confirm_checks, cancel_checks, call_contract,
  answered, answer_lost, Write, write, begin_confirm, begin_cancel, confirm, cancel,
  partial_release, get_escrow, create,
}
use cross_border_payment_app.Escrow.Agreement.{
  Running, Reach, here, next, confirm_begins, cancel_begins, writes_one, started, IsAgreed,
  Reach-IsAgreed,
}
use cross_border_payment_app.Escrow.Releases.{partial_release_refused}
use cross_border_payment_app.Base.{
  ℕ, ◌≡◌, refl, Bool, true, false, none, some, [], ◌∷◌, with_status, with_code, plain_error, ok,
  err, pos,
}

-- An escrow of ten units, of the sender 1, the agent 2 and the recipient 3.
abbrev ten : Escrow
ten = record {
  id = 7;
  contract_escrow_id = 70;
  sender_wallet = 1;
  recipient_wallet = 3;
  agent_wallet = 2;
  amount = 10;
  released_amount = 4;
  fee_bps = 100;
  status = pending;
  confirm_tx_hash = none;
  created_at = 1000;
  expires_at = none;
}

abbrev before : World
before = record { escrows = ten ∷ []; contract = λ j. locked }

abbrev agent : Caller
agent = record { is_agent = true; session_wallet = none; wallets = 2 ∷ [] }

abbrev sender : Caller
sender = record { is_agent = false; session_wallet = none; wallets = 1 ∷ [] }

abbrev sender_with_wallet : Caller
sender_with_wallet = record sender { session_wallet = some 1 }

abbrev all_registered : ℕ → Bool
all_registered w = true

confirm_pays : (confirm all_registered agent 7 (answered 99) (ok tt) before).0 ≡ ok 99
unfolding confirm begin_confirm confirm_checks call_contract write
confirm_pays = refl

confirm_lost : (confirm all_registered agent 7 answer_lost (ok tt) before).0 ≡ err (with_status 502)
unfolding confirm begin_confirm confirm_checks call_contract write
confirm_lost = refl

confirm_by_sender :
    (confirm all_registered sender 7 (answered 99) (ok tt) before).0 ≡ err (with_status 403)
unfolding confirm begin_confirm confirm_checks call_contract write
confirm_by_sender = refl

cancel_early :
    (cancel 173799 sender 7 (answered 99) (ok tt) before).0 ≡ err (with_code 403 "CANCEL_TOO_EARLY")
unfolding cancel begin_cancel cancel_checks call_contract write
cancel_early = refl

cancel_late : (cancel 173800 sender 7 (answered 99) (ok tt) before).0 ≡ err plain_error
unfolding cancel begin_cancel cancel_checks call_contract write
cancel_late = refl

get_escrow_other : get_escrow (record sender { wallets = 9 ∷ [] }) 7 before ≡ err (with_status 404)
unfolding get_escrow
get_escrow_other = refl

create_throws : create (λ a. true) true (some 5) 2 sender before ≡ (err plain_error, before)
unfolding create
create_throws = refl

release_more : (partial_release sender_with_wallet 7 (pos 7) before).0 ≡ err (with_status 400)
unfolding partial_release
release_more = refl

partial_release_refused_example : (partial_release sender 7 (pos 3) before).1 ≡ before
partial_release_refused_example = partial_release_refused sender 7 (pos 3) before refl

-- The agent confirms and the sender cancels at once: the contract pays, and refuses the refund.
abbrev paying : Running
paying = started (begin_confirm all_registered agent 7 (answered 99) before) []

abbrev both : Running
both = started (begin_cancel 200000 sender 7 (answered 98) paying.world) paying.writes

abbrev paid_write : Write
paid_write = record { escrow = ten; status = completed; tx_hash = 99 }

abbrev written : Running
written = record { world = write paid_write both.world; writes = [] }

both_writes : both.writes ≡ paid_write ∷ []
unfolding begin_confirm begin_cancel confirm_checks cancel_checks call_contract
both_writes = refl

race : Reach (record { world = before; writes = [] }) written
race =
    next
      (next (next here (confirm_begins all_registered agent 7 (answered 99)))
        (cancel_begins 200000 sender 7 (answered 98)))
      (writes_one [] [] paid_write both_writes)

before-IsAgreed : IsAgreed (λ i. 70) (record { world = before; writes = [] })
before-IsAgreed = record { rows = ((refl, tt), tt); waiting = tt }

Reach-IsAgreed_example : IsAgreed (λ i. 70) written
Reach-IsAgreed_example = Reach-IsAgreed (λ i. 70) race before-IsAgreed
