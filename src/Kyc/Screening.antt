-- ===== src/Kyc/Screening.antt =====
-- The screening of backend/src/services/amlScreening.js as the gate of a payment.
use cross_border_payment_app.Payment.{Limits, passed, aml_rescreen_for_payment}
use cross_border_payment_app.Payment.Guards.{aml_sound}
use cross_border_payment_app.Kyc.Aml.{
  Config, Payload, Tally, is_aml_configured, is_flagged_by, outcome, aml_screen, record_aml_metric,
}
use cross_border_payment_app.Base.{
  ℕ, ◌+◌, ◌≤◌, ◌≡◌, refl, inl, inr, Bool, true, false, Option, some, arith, Option-cases, ok,
}

outcome-passed :
    (c : Config) (has_wallet : Bool) (answer : Option Payload)
    → (outcome c has_wallet answer).status ≡ passed
    → (is_aml_configured c ≡ true)
      × (has_wallet ≡ true)
      × (p : Payload) × (answer ≡ some p)
      × (is_flagged_by c p ≡ false)
unfolding outcome
outcome-passed c has_wallet answer h = elim (Option-cases answer) [
  | inl e ↦ absurd (ground arith)
  | inr (p, e) ↦ (ground arith, ground arith, p, e, ground arith)
]

-- A payment of the threshold or more goes on only when a provider is configured, the wallet is known, the
-- provider has answered, and its answer flags nothing: whatever fails on the way stops the payment.
pub aml_rescreen_for_payment-aml_screen :
    (l : Limits) (c : Config) (has_wallet : Bool) (answer : Option Payload) (t : Tally)
    (usd_value : ℕ)
    → l.aml_threshold_usd ≤ usd_value
    → aml_rescreen_for_payment l (aml_screen c has_wallet answer t).0.status usd_value ≡ ok tt
    → (is_aml_configured c ≡ true)
      × (has_wallet ≡ true)
      × (p : Payload) × (answer ≡ some p)
      × (is_flagged_by c p ≡ false)
unfolding aml_screen
aml_rescreen_for_payment-aml_screen l c has_wallet answer t usd_value high h =
    elim (aml_sound l (aml_screen c has_wallet answer t).0.status usd_value h) [
      | inl low ↦ absurd (omega arith)
      | inr clear ↦ outcome-passed c has_wallet answer clear
    ]

-- The tallies of the gauge never count more wallets as screened than attempts.
pub aml_screen-coverage :
    (c : Config) (has_wallet : Bool) (answer : Option Payload) (t : Tally)
    → t.screened ≤ t.attempts
    → let t' = (aml_screen c has_wallet answer t).1 in
      (t'.screened ≤ t'.attempts) × (t'.attempts ≡ t.attempts + 1)
unfolding aml_screen record_aml_metric
aml_screen-coverage c has_wallet answer t le = (ground arith, refl)
