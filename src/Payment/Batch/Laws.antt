-- ===== src/Payment/Batch/Laws.antt =====
-- A batch of backend/src/controllers/paymentController.js accounts for every unit of its amounts.
use cross_border_payment_app.Payment.Batch.{
  Recipient, TxRecord, SendOutcome, sent, thrown, Context, BatchReply, classify, valid_recipients,
  settle, fee_sum,
}
use cross_border_payment_app.Base.{
  ℕ, ◌+◌, ◌≤◌, ◌≡◌, ◌≢◌, ◌⊎◌, true, false, List, [], ◌∷◌, map, arith, if◌then◌else◌, All,
}

abbrev pub payload_sum : List (ℕ × ℕ) → ℕ
payload_sum [] = 0
payload_sum (v ∷ vs) = v.1 + payload_sum vs

abbrev pub completed_sum : List TxRecord → ℕ
completed_sum [] = 0
completed_sum (t ∷ ts) = (if t.completed then t.amount else 0) + completed_sum ts

-- What the network has paid out: the submitted amounts, where the submission succeeded.
abbrev pub paid_out : SendOutcome → List (ℕ × ℕ) → ℕ
paid_out (sent hash) valid = payload_sum valid
paid_out (thrown code response) valid = 0

abbrev pub paid : (List (ℕ × ℕ) → SendOutcome) → List (ℕ × ℕ) → ℕ
paid send [] = 0
paid send (v ∷ vs) = paid_out (send (v ∷ vs)) (v ∷ vs)

-- The fees of the recipients that are submitted.
abbrev pub fees_of : Context → List Recipient → ℕ
fees_of c rs = fee_sum (map (settle true) (map (classify c) rs))

-- What the books say against what was paid out.
abbrev pub IsBooked : ℕ → ℕ → BatchReply → Type 0
IsBooked out fees b =
    (b.status_code ≡ 200 → out + b.fee_total ≡ completed_sum b.records)
    × (completed_sum b.records ≤ out + fees)
    × (b.status_code ≢ 200 → b.fee_total ≡ 0)

-- Nothing is submitted to the sender's own wallet, to a recipient that requires a memo where there is
-- none, or to one that was not found valid.
pub valid_recipients-classify :
    (c : Context) (rs : List Recipient)
    → All
        (λ v.
          (v.0 ≢ c.key)
          × (c.valid v.0 ≡ true)
          × ((c.has_memo ≡ true) ⊎ (c.memo_required v.0 ≡ false)))
        (valid_recipients (map (classify c) rs))
unfolding valid_recipients classify
valid_recipients-classify c [] = tt
valid_recipients-classify c (r ∷ rs) = ground (arith, valid_recipients-classify c rs)
