-- ===== src/Kyc/Examples.antt =====
-- Submissions, decisions and screenings at concrete inputs.
use cross_border_payment_app.Kyc.{
  passport, unverified, User, expired, State, verified, check_kyc_document_expiry, revoke_all,
  bulk_chain, is_complete, withdraw_kyc, Status, approve_kyc, Form, bulk_kyc_update, submit_kyc,
}
use cross_border_payment_app.Payment.{
  Limits, passed, flagged, not_screened, aml_rescreen_for_payment,
}
use cross_border_payment_app.Kyc.{pending, unverified, verified, expired}
use cross_border_payment_app.Kyc.Aml.{
  Config, Payload, Tally, elliptic, hits, analysis, no_match, high, is_aml_configured,
  parse_comply_advantage_response, parse_elliptic_response, record_aml_metric, outcome, aml_screen,
  is_flagged_by,
}
use cross_border_payment_app.Kyc.Edges.{approve_step, Moves, IsDistinct, Step-Moves}
use cross_border_payment_app.Kyc.Screening.{aml_rescreen_for_payment-aml_screen}
use cross_border_payment_app.Base.{
  ◌≡◌, refl, true, false, none, some, [], ◌∷◌, arith, ok, json, rejected,
}

abbrev user : Status → User
user st = record { id = 1; kyc_status = st; kyc_document_expiry_date = some 50; wallet = some 7 }

abbrev one_user : Status → State
one_user st = record { users = user st ∷ []; attested = [] }

abbrev form : Form
form = record {
  id_type = passport;
  id_number_length = some 8;
  date_of_birth = some 1;
  document_expiry_date = some (some 50);
  has_file = true;
}

complete : is_complete form ≡ true
unfolding is_complete
complete = refl

sent_in : submit_kyc 1 form passed (one_user expired) ≡ (json tt, one_user pending)
unfolding submit_kyc
sent_in = refl

-- The caller is told of a payment, and the submission stands.
flagged_and_stored :
    submit_kyc 1 form flagged (one_user unverified) ≡ (rejected 403 "", one_user pending)
unfolding submit_kyc
flagged_and_stored = refl

approved : (approve_kyc true 1 (one_user pending)).1.attested ≡ 7 ∷ []
unfolding approve_kyc
approved = refl

withdrawn :
    withdraw_kyc true 1 (record (one_user verified) { attested = 7 ∷ [] })
    ≡ (json tt, one_user unverified)
unfolding withdraw_kyc
withdrawn = refl

-- A bulk update verifies a user who has submitted nothing.
unseen :
    bulk_kyc_update true (λ i. true) (1 ∷ []) (one_user unverified)
    ≡ record { users = user verified ∷ []; attested = 7 ∷ [] }
unfolding bulk_kyc_update
unseen = refl

chain : bulk_chain false (λ i. true) (user verified ∷ []) (7 ∷ 8 ∷ []) ≡ 8 ∷ []
unfolding bulk_chain
chain = refl

lapsed : check_kyc_document_expiry (λ i. true) 60 (one_user verified) ≡ one_user expired
unfolding check_kyc_document_expiry
lapsed = refl

all_gone : revoke_all (λ i. true) (user expired ∷ []) (7 ∷ []) ≡ []
unfolding revoke_all
all_gone = refl

distinct : (st : Status) → IsDistinct (one_user st).users
distinct st i = ground arith

Step-Moves_example : Moves (one_user pending).users (approve_kyc true 1 (one_user pending)).1.users
Step-Moves_example = Step-Moves (distinct pending) (approve_step true 1)

abbrev config : Config
config = record {
  provider = elliptic;
  has_api_key = true;
  has_api_secret = true;
  high_risk_score = 70;
}

half_configured : is_aml_configured (record config { has_api_secret = false }) ≡ false
unfolding is_aml_configured
half_configured = refl

at_the_limit : parse_elliptic_response 70 (analysis (some 70) []) ≡ true
unfolding parse_elliptic_response
at_the_limit = refl

severe_rule : parse_elliptic_response 70 (analysis none (high ∷ [])) ≡ true
unfolding parse_elliptic_response
severe_rule = refl

no_hits : parse_comply_advantage_response (hits 0 no_match) ≡ false
unfolding parse_comply_advantage_response
no_hits = refl

abbrev tally : Tally
tally = record { attempts = 3; screened = 2 }

counted :
    record_aml_metric (record { screened = false; status = not_screened }) tally
    ≡ record { attempts = 4; screened = 2 }
unfolding record_aml_metric
counted = refl

silent_provider : (outcome config true none).screened ≡ false
unfolding outcome
silent_provider = refl

abbrev limits : Limits
limits = record {
  xlm_usd_rate = 1100000;
  kyc_threshold_usd = 10000000000000000;
  phone_threshold_usd = 1000000000000000;
  aml_threshold_usd = 100000000000000000;
  daily_send_limit = 1000000000000000000;
  fraud_daily_limit_usd = 1000000000000000000;
  fraud_window_hours = 1;
  fraud_max_tx = 5;
  fail_closed_threshold_usd = 10000000000000000;
}

abbrev low_risk : Payload
low_risk = analysis (some 10) []

goes_on :
    aml_rescreen_for_payment limits
      (aml_screen config true (some low_risk) tally).0.status
      200000000000000000
    ≡ ok tt
unfolding aml_screen aml_rescreen_for_payment
goes_on = refl

aml_rescreen_for_payment-aml_screen_example :
    (is_aml_configured config ≡ true)
    × (true ≡ true)
    × (p : Payload) × (some low_risk ≡ some p)
    × (is_flagged_by config p ≡ false)
aml_rescreen_for_payment-aml_screen_example =
    aml_rescreen_for_payment-aml_screen limits config true (some low_risk) tally 200000000000000000
      (omega arith) goes_on
