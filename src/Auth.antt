-- ===== src/Auth.antt =====
-- Accounts and their sessions: backend/src/controllers/authController.js, over the tables users,
-- totp_backup_codes, refresh_tokens and password_reset_tokens. Times are in milliseconds, and the
-- database has the clock of the server; users, texts, tokens and hashes stand as numbers.
pub mod Login
pub mod Pin
pub mod TwoFactor
pub mod Webauthn
pub mod Tokens
pub mod Passwords
pub mod Lockout
pub mod Admission
pub mod Reuse
pub mod Codes
pub mod Guesses
pub mod Resets
pub mod StepUp
mod Examples
use cross_border_payment_app.Base.{
  ℕ, suc, ◌+◌, ◌-◌, Bool, false, Option, none, some, List, [], ◌∷◌, ◌++◌, ltb, leb, ◌==◌,
  if◌then◌else◌, find_where, update_where, Result, with_status, err,
}

pub record User : Type 0 where
  pub id : ℕ
  pub email : ℕ
  pub password_hash : ℕ
  pub email_verified : Bool
  pub is_suspended : Bool
  pub totp_enabled : Bool
  pub totp_secret : Option ℕ
  pub pin_hash : Option ℕ
  pub failed_login_attempts : ℕ
  pub locked_until : Option ℕ
  pub last_failed_attempt_at : Option ℕ
  pub verification_token : Option ℕ
  pub token_expires_at : Option ℕ

pub record BackupCode : Type 0 where
  pub id : ℕ
  pub user_id : ℕ
  pub code_hash : ℕ
  pub used : Bool

pub record RefreshToken : Type 0 where
  pub id : ℕ
  pub user_id : ℕ
  pub token_hash : ℕ
  pub expires_at : ℕ
  pub family_id : ℕ
  pub revoked : Bool
  pub revoked_at : Option ℕ
  pub replaced_by : Option ℕ

pub record ResetToken : Type 0 where
  pub user_id : ℕ
  pub token_hash : ℕ
  pub expires_at : ℕ
  pub used : Bool

-- `blacklisted` gives the time until which the cache holds the hash of a refresh token as revoked.
pub record State : Type 0 where
  pub users : List User
  pub backup_codes : List BackupCode
  pub refresh_tokens : List RefreshToken
  pub reset_tokens : List ResetToken
  pub blacklisted : ℕ → ℕ

-- The libraries for passwords, hashes, TOTP codes and signed device tokens.
pub record Crypto : Type 0 where
  pub hash : ℕ → ℕ
  pub compare : ℕ → ℕ → Bool
  pub sha256 : ℕ → ℕ
  pub totp : ℕ → Option ℕ → ℕ → Bool
  pub device_user : ℕ → ℕ → Option ℕ

-- The random values that a handler draws.
pub record Fresh : Type 0 where
  pub token_id : ℕ
  pub raw : ℕ
  pub family_id : ℕ

-- What a session is made of: the user, and the refresh token in the cookie.
pub record Session : Type 0 where
  pub user_id : ℕ
  pub refresh_token : ℕ

abbrev pub with_id : ℕ → User → Bool
with_id i u = u.id == i

abbrev pub with_email : ℕ → User → Bool
with_email e u = u.email == e

abbrev pub max_failed_attempts : ℕ
max_failed_attempts = 5

abbrev pub attempt_window : ℕ
attempt_window = 900000

abbrev pub lockout_duration : ℕ
lockout_duration = 900000

abbrev pub refresh_ttl : ℕ
refresh_ttl = 2592000000

abbrev pub update_users : ℕ → (User → User) → State → State
update_users i f s = record s { users = update_where (with_id i) f s.users }

abbrev pub is_locked : ℕ → User → Bool
is_locked now u = elim u.locked_until [ none ↦ false | some t ↦ ltb now t ]

-- The count after one more failure: it starts again after a quiet window.
pub failures_after : ℕ → User → ℕ
failures_after now u = elim u.last_failed_attempt_at [
  | none ↦ 1
  | some t ↦ if ltb attempt_window (now - t) then 1 else suc u.failed_login_attempts
]

pub failed_row : ℕ → User → User
unfolding failures_after
failed_row now u =
    let n = failures_after now u in
    record u {
      failed_login_attempts = n;
      last_failed_attempt_at = some now;
      locked_until =
          if leb max_failed_attempts n then some (now + lockout_duration) else u.locked_until;
    }

abbrev pub record_failed_auth_attempt : ℕ → ℕ → State → State
record_failed_auth_attempt now i s = update_users i (failed_row now) s

abbrev pub refusal_status : ℕ → Option User → ℕ
refusal_status now none = 401
refusal_status now (some u) = if is_locked now u then 423 else 401

-- A failure is counted, and the answer tells of a lock.
pub refuse {ℓ} : {A : Type ℓ} → ℕ → ℕ → State → Result A × State
unfolding failed_row
refuse now i s =
    let s' = record_failed_auth_attempt now i s in
    (err (with_status (refusal_status now (find_where (with_id i) s'.users))), s')

abbrev pub cleared : User → User
cleared u = record u {
  failed_login_attempts = 0;
  locked_until = none;
  last_failed_attempt_at = none;
}

abbrev pub reset_attempts : ℕ → State → State
reset_attempts i s = update_users i cleared s

-- A refresh token of a family.
abbrev pub new_token : Crypto → ℕ → Fresh → ℕ → ℕ → RefreshToken
new_token c now f user family = record {
  id = f.token_id;
  user_id = user;
  token_hash = c.sha256 f.raw;
  expires_at = now + refresh_ttl;
  family_id = family;
  revoked = false;
  revoked_at = none;
  replaced_by = none;
}

abbrev pub insert_token : RefreshToken → State → State
insert_token t s = record s { refresh_tokens = s.refresh_tokens ++ t ∷ [] }
