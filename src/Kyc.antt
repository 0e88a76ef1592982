-- ===== src/Kyc.antt =====
-- The identity checks: backend/src/controllers/kycController.js, approveKYC, revokeKYC and bulkKycUpdate of
-- backend/src/controllers/adminController.js, and backend/src/jobs/kycExpiryJob.js, with the wallets that
-- are attested on the chain.
pub mod Aml
pub mod Edges
pub mod Screening
mod Examples
use cross_border_payment_app.Payment.{AmlStatus, passed, flagged, not_screened, error}
use cross_border_payment_app.Base.{
  ℕ, Bool, true, false, ◌&&◌, ◌||◌, not, Option, none, some, List, [], ◌∷◌, ltb, ◌==◌,
  if◌then◌else◌, find_where, select_where, update_where, any, Reply, json, rejected,
}

pub data Status : Type 0 where
  unverified pending verified turned_down expired : Status

-- A row of users, with the default wallet
pub record User : Type 0 where
  pub id : ℕ
  pub kyc_status : Status
  pub kyc_document_expiry_date : Option ℕ
  pub wallet : Option ℕ

-- The users, and the wallets that the contract holds as verified.
pub record State : Type 0 where
  pub users : List User
  pub attested : List ℕ

pub data IdType : Type 0 where
  national_id passport drivers_license voters_card : IdType
  unknown_id : ℕ → IdType

-- ALLOWED_ID_TYPES
abbrev pub is_allowed_id : IdType → Bool
is_allowed_id (unknown_id n) = false
is_allowed_id _ = true

-- The form: the length of the trimmed id number, the dates as `Date.parse` reads them, `none` for NaN.
pub record Form : Type 0 where
  pub id_type : IdType
  pub id_number_length : Option ℕ
  pub date_of_birth : Option ℕ
  pub document_expiry_date : Option (Option ℕ)
  pub has_file : Bool

abbrev pub is_none {ℓ} : {A : Type ℓ} → Option A → Bool
is_none none = true
is_none (some x) = false

abbrev pub too_short : Option ℕ → Bool
too_short none = true
too_short (some n) = ltb n 3

abbrev pub is_bad_date : Option (Option ℕ) → Bool
is_bad_date none = false
is_bad_date (some d) = is_none d

-- The first five checks of `submitKYC`
pub is_complete : Form → Bool
is_complete f =
    is_allowed_id f.id_type
    && not (too_short f.id_number_length)
    && not (is_none f.date_of_birth)
    && not (is_bad_date f.document_expiry_date)
    && f.has_file

abbrev pub is_verified : Status → Bool
is_verified verified = true
is_verified _ = false

abbrev pub is_pending : Status → Bool
is_pending pending = true
is_pending _ = false

abbrev pub with_id : ℕ → User → Bool
with_id i u = u.id == i

abbrev pub set_status : Status → User → User
set_status st u = record u { kyc_status = st }

abbrev pub flat : Option (Option ℕ) → Option ℕ
flat none = none
flat (some d) = d

abbrev pub submitted : Form → User → User
submitted f u = record u {
  kyc_status = pending;
  kyc_document_expiry_date = flat f.document_expiry_date;
}

abbrev pub is_flagged : AmlStatus → Bool
is_flagged flagged = true
is_flagged _ = false

abbrev pub set_users : State → List User → State
set_users s us = record s { users = us }

-- `submitKYC`, with the answer of `amlScreen` for the wallet. The row is written before the screening.
pub submit_kyc : ℕ → Form → AmlStatus → State → Reply (Unit {0}) × State
unfolding is_complete
submit_kyc i f aml s =
    if not (is_complete f) then (rejected 400 "", s) else elim (find_where (with_id i) s.users) [
      | none ↦ (rejected 404 "", s)
      | some u ↦
          if is_verified u.kyc_status || is_pending u.kyc_status then (rejected 409 "", s) else (
            if not (is_none u.wallet) && is_flagged aml then rejected 403 "" else json tt,
            set_users s (update_where (with_id i) (submitted f) s.users),
          )
    ]

-- `attestKyc` and `revokeKyc` of the contract, which may fail
abbrev pub attest_kyc : Bool → ℕ → List ℕ → List ℕ
attest_kyc works w ws = if works then w ∷ ws else ws

abbrev pub revoke_kyc : Bool → ℕ → List ℕ → List ℕ
revoke_kyc works w ws = if works then select_where (λ x. not (x == w)) ws else ws

-- The user with their wallet, by the JOIN
abbrev pub with_wallet : ℕ → User → Bool
with_wallet i u = u.id == i && not (is_none u.wallet)

abbrev pub wallet_of : User → ℕ
wallet_of u = elim u.wallet [ none ↦ 0 | some w ↦ w ]

-- `approveKYC`; `works` tells whether the contract answers.
pub approve_kyc : Bool → ℕ → State → Reply (Unit {0}) × State
approve_kyc works i s = elim (find_where (with_wallet i) s.users) [
  | none ↦ (rejected 404 "", s)
  | some u ↦
      if is_verified u.kyc_status
      then (rejected 409 "", s)
      else if not (is_pending u.kyc_status)
      then (rejected 400 "", s)
      else (
        json tt,
        record {
          users = update_where (with_id i) (set_status verified) s.users;
          attested = attest_kyc works (wallet_of u) s.attested;
        },
      )
]

-- `revokeKYC`
pub withdraw_kyc : Bool → ℕ → State → Reply (Unit {0}) × State
withdraw_kyc works i s = elim (find_where (with_wallet i) s.users) [
  | none ↦ (rejected 404 "", s)
  | some u ↦ if not (is_verified u.kyc_status) then (rejected 400 "", s) else (
    json tt,
    record {
      users = update_where (with_id i) (set_status unverified) s.users;
      attested = revoke_kyc works (wallet_of u) s.attested;
    },
  )
]

abbrev pub is_among : List ℕ → User → Bool
is_among ids u = any (λ i. i == u.id) ids

-- The calls of the contract for the users of a bulk update, with what they were before it
pub bulk_chain : Bool → (ℕ → Bool) → List User → List ℕ → List ℕ
bulk_chain approved works [] ws = ws
bulk_chain approved works (u ∷ us) ws = bulk_chain approved works us (
    if is_none u.wallet
    then ws
    else if approved
    then attest_kyc (works u.id) (wallet_of u) ws
    else if is_verified u.kyc_status
    then revoke_kyc (works u.id) (wallet_of u) ws
    else ws)

-- `bulkKycUpdate`, once the request is found to be valid
pub bulk_kyc_update : Bool → (ℕ → Bool) → List ℕ → State → State
unfolding bulk_chain
bulk_kyc_update approved works ids s = record {
  users =
      update_where (is_among ids) (set_status (if approved then verified else turned_down)) s.users;
  attested = bulk_chain approved works (select_where (is_among ids) s.users) s.attested;
}

-- `kyc_status = 'verified' AND kyc_document_expiry_date < NOW()`
abbrev pub has_lapsed : ℕ → User → Bool
has_lapsed now u =
    is_verified u.kyc_status
    && elim u.kyc_document_expiry_date [ none ↦ false | some d ↦ ltb d now ]

-- The calls of the contract for the users whose documents have expired
pub revoke_all : (ℕ → Bool) → List User → List ℕ → List ℕ
revoke_all works [] ws = ws
revoke_all works (u ∷ us) ws =
    revoke_all works us (if is_none u.wallet then ws else revoke_kyc (works u.id) (wallet_of u) ws)

-- `checkKycDocumentExpiry`, up to the reminders
pub check_kyc_document_expiry : (ℕ → Bool) → ℕ → State → State
unfolding revoke_all
check_kyc_document_expiry works now s = record {
  users = update_where (has_lapsed now) (set_status expired) s.users;
  attested = revoke_all works (select_where (has_lapsed now) s.users) s.attested;
}
