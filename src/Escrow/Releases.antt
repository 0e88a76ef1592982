-- ===== src/Escrow/Releases.antt =====
-- Releases, cancellations and creations of backend/src/controllers/agentEscrowController.js.
use cross_border_payment_app.Escrow.{
  Escrow, World, Caller, with_id, is_pending, cancel_checks, call_contract, answered, is_locked,
  begin_cancel, cancel, Release, partial_release, refunded,
}
use cross_border_payment_app.Base.{
  ℕ, ◌+◌, ◌*◌, ◌≤◌, ◌≡◌, refl, true, none, some, arith, find_where, Error, ℤ, ok, err, pos, negsuc,
}

-- A release that is accepted is made by the wallet that the session names, the sender's, from a pending
-- escrow; it splits into the fee and the net amount, and with what is left it makes up the escrow.
pub partial_release_splits :
    (c : Caller) (i n : ℕ) (w : World) (e : Escrow) (r : Release)
    → find_where (with_id i) w.escrows ≡ some e
    → e.fee_bps ≤ 10000
    → (partial_release c i (pos n) w).0 ≡ ok r
    → (c.session_wallet ≡ some e.sender_wallet)
      × (is_pending e.status ≡ true)
      × (r.fee + r.net_amount ≡ n * 10000)
      × (r.released_amount + r.remaining ≡ e.amount)
      × (r.released_amount ≡ e.released_amount + n)
unfolding partial_release
partial_release_splits c i n w e r found le h =
    let fee_le : n * e.fee_bps ≤ n * 10000 = grind arith in
    (ground arith, ground arith, ground arith, ground arith, ground arith)

-- A session names no wallet, so no part of an escrow is ever released.
pub partial_release_refused :
    (c : Caller) (i : ℕ) (n : ℤ) (w : World)
    → c.session_wallet ≡ none
    → (partial_release c i n w).1 ≡ w
unfolding partial_release
partial_release_refused c i (pos n) w h = ground arith
partial_release_refused c i (negsuc n) w h = refl

-- A cancelled escrow stays pending when the update of its row fails, as it does where the table has no
-- column cancelled_at: the contract has refunded the sender, the caller is given an error, and the row
-- is as it was.
pub cancel_unwritten :
    (now : ℕ) (c : Caller) (i hash : ℕ) (x : Error) (w : World) (e : Escrow)
    → cancel_checks now c i w.escrows ≡ ok e
    → is_locked (w.contract e.contract_escrow_id) ≡ true
    → let (r, w') = cancel now c i (answered hash) (err x) w in
      (r ≡ err x) × (w'.contract e.contract_escrow_id ≡ refunded) × (w'.escrows ≡ w.escrows)
unfolding cancel begin_cancel call_contract
cancel_unwritten now c i hash x w e checked l = (ground arith, ground arith, ground arith)
