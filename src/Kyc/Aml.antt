-- ===== src/Kyc/Aml.antt =====
-- The screening of wallets: backend/src/services/amlScreening.js.
use cross_border_payment_app.Payment.{AmlStatus, passed, flagged, not_screened, error}
use cross_border_payment_app.Base.{
  ℕ, ◌+◌, Bool, true, false, ◌||◌, not, Option, none, some, List, ltb, leb, if◌then◌else◌, any,
}

-- AML_PROVIDER
pub data Provider : Type 0 where
  complyadvantage elliptic no_provider : Provider

pub record Config : Type 0 where
  pub provider : Provider
  pub has_api_key : Bool
  pub has_api_secret : Bool
  pub high_risk_score : ℕ

-- `isAmlConfigured`
unfoldable pub is_aml_configured : Config → Bool
is_aml_configured c = if not c.has_api_key then false else elim c.provider [
  | complyadvantage ↦ true
  | elliptic ↦ c.has_api_secret
  | no_provider ↦ false
]

-- FLAGGED_MATCH_STATUSES, and the rest
pub data Match : Type 0 where
  true_positive potential_match no_match : Match

-- HIGH_SEVERITIES, and the rest
pub data Severity : Type 0 where
  high critical severe lower : Severity

-- The bodies of the two providers; the score is `none` when it is no number.
pub data Payload : Type 0 where
  hits : ℕ → Match → Payload
  analysis : Option ℕ → List Severity → Payload

abbrev pub is_flagged_match : Match → Bool
is_flagged_match no_match = false
is_flagged_match _ = true

abbrev pub is_high : Severity → Bool
is_high lower = false
is_high _ = true

-- `parseComplyAdvantageResponse`: whether the wallet is flagged
unfoldable pub parse_comply_advantage_response : Payload → Bool
parse_comply_advantage_response (hits n m) = ltb 0 n || is_flagged_match m
parse_comply_advantage_response (analysis score rules) = false

-- `parseEllipticResponse`: whether the wallet is flagged
unfoldable pub parse_elliptic_response : ℕ → Payload → Bool
parse_elliptic_response high_risk (hits n m) = false
parse_elliptic_response high_risk (analysis score rules) =
    elim score [ none ↦ false | some n ↦ leb high_risk n ] || any is_high rules

-- The tallies behind the coverage gauge
pub record Tally : Type 0 where
  pub attempts : ℕ
  pub screened : ℕ

pub record Screened : Type 0 where
  pub screened : Bool
  pub status : AmlStatus

-- `recordAmlMetric`
unfoldable pub record_aml_metric : Screened → Tally → Tally
record_aml_metric r t = record {
  attempts = t.attempts + 1;
  screened = if r.screened then t.screened + 1 else t.screened;
}

abbrev pub is_flagged_by : Config → Payload → Bool
is_flagged_by c p = elim c.provider [
  | elliptic ↦ parse_elliptic_response c.high_risk_score p
  | complyadvantage ↦ parse_comply_advantage_response p
  | no_provider ↦ parse_comply_advantage_response p
]

-- What `amlScreen` finds, with the answer of the provider, if it gives one.
unfoldable pub outcome : Config → Bool → Option Payload → Screened
unfolding is_aml_configured parse_comply_advantage_response parse_elliptic_response
outcome c has_wallet answer =
    if not (is_aml_configured c)
    then record { screened = false; status = not_screened }
    else if not has_wallet
    then record { screened = false; status = error }
    else elim answer [
      | none ↦ record { screened = false; status = error }
      | some p ↦ record { screened = true; status = if is_flagged_by c p then flagged else passed }
    ]

-- `amlScreen`
unfoldable pub aml_screen : Config → Bool → Option Payload → Tally → Screened × Tally
unfolding outcome record_aml_metric
aml_screen c has_wallet answer t = let r = outcome c has_wallet answer in (r, record_aml_metric r t)
