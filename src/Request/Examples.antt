-- ===== src/Request/Examples.antt =====
-- Runs of the payment requests, and their theorems at concrete inputs.
use cross_border_payment_app.Request.{
  active, PaymentRequest, Table, create, get_by_id, Verify, mark_claimed, begin_claim, begin_cancel,
  claims, cancels, Status, every, list_mine,
}
use cross_border_payment_app.Request.Claiming.{
  Ledger, IsHonest, System, IsValid, Reach, here, next, claim_step, write_step, Reach-IsPaid,
}
use cross_border_payment_app.Base.{
  arith, ℕ, inr, ◌≡◌, refl, true, false, ◌&&◌, none, some, [], ◌∷◌, leb, ◌==◌, xlm, usdc, ok, json,
  rejected, pos,
}

abbrev request : ℕ → PaymentRequest
request i = record {
  id = i;
  requester_id = 4;
  requester_wallet = 40;
  amount = 500;
  asset = usdc;
  memo = none;
  expires_at = 1000;
  claimed = false;
  claimed_tx_hash = none;
  status = active;
}

abbrev table : Table
table = request 1 ∷ request 2 ∷ []

abbrev ledger : Verify
ledger hash wallet asset n = ok ((hash == 9) && leb n 500)

created :
    (create 0
      (record { id = 3; user_id = 4; amount = pos 7; asset = xlm; memo = none; wallet = none })
      table).0
    ≡ rejected 404 "Wallet not found"
unfolding create
created = refl

read : get_by_id 1000 1 table ≡ rejected 410 "Payment request has expired"
unfolding get_by_id
read = refl

first_claim : (mark_claimed ledger 5 4 1 9 table).0 ≡ json tt
unfolding mark_claimed
first_claim = refl

abbrev claimed_row : PaymentRequest
claimed_row = record (request 1) { claimed = true; claimed_tx_hash = some 9 }

abbrev pays : Ledger
pays hash wallet a n = hash == 9 && leb n 500

ledger-IsHonest : IsHonest pays ledger
ledger-IsHonest hash wallet a n h = ground arith

-- A claim and a cancellation have both been checked when the claim is written.
abbrev both : System
both = record { table = request 1 ∷ []; waiting = cancels 1 ∷ [] }

abbrev after_claim : System
after_claim = record { table = claimed_row ∷ []; waiting = cancels 1 ∷ [] }

abbrev after_both : System
after_both = record { table = record claimed_row { status = Status.cancelled } ∷ []; waiting = [] }

cancel_begun : begin_cancel 4 1 both.table ≡ inr (cancels 1)
unfolding begin_cancel
cancel_begun = refl

claim_begun : begin_claim ledger 5 4 1 9 both.table ≡ inr (claims 1 9)
unfolding begin_claim
claim_begun = refl

after_claim-IsValid : IsValid pays 1 after_claim
after_claim-IsValid = record { backed = (tt, tt); paid = (claimed_row, 9, refl, refl, refl, refl) }

overtaken : Reach pays both after_both
overtaken =
    next
      (next (next here (claim_step ledger 5 4 1 9 (claims 1 9) ledger-IsHonest claim_begun))
        (write_step [] (cancels 1 ∷ []) (claims 1 9) refl))
      (write_step [] [] (cancels 1) refl)

-- The row that was claimed is cancelled by the write that comes after, but stays claimed.
Reach-IsPaid_example : IsValid pays 1 after_both
Reach-IsPaid_example =
    Reach-IsPaid pays 1 (next here (write_step [] [] (cancels 1) refl)) after_claim-IsValid

listed :
    list_mine 5 4 every none (some (pos 1)) table
    ≡ json (record { requests = request 1 ∷ []; page = 1; limit = 1; total = 2 })
unfolding list_mine
listed = refl
