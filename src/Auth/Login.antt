-- ===== src/Auth/Login.antt =====
-- `login` of backend/src/controllers/authController.js.
use cross_border_payment_app.Auth.{
  User, BackupCode, State, Crypto, Fresh, Session, with_email, is_locked, refuse, reset_attempts,
  new_token, insert_token,
}
use cross_border_payment_app.Base.{
  ℕ, Bool, true, false, ◌&&◌, not, Option, none, some, ◌==◌, if◌then◌else◌, find_where,
  update_where, any, Result, with_status, with_code, ok, err,
}

pub record Login : Type 0 where
  pub email : ℕ
  pub password : ℕ
  pub totp_code : Option ℕ
  pub backup_code : Option ℕ
  pub device_token : Option ℕ

abbrev pub matches : Crypto → ℕ → ℕ → BackupCode → Bool
matches c code user b = (b.user_id == user) && not b.used && c.compare code b.code_hash

abbrev pub unused : ℕ → BackupCode → Bool
unused i b = (b.id == i) && not b.used

abbrev pub use_code : BackupCode → BackupCode
use_code b = record b { used = true }

-- The update of a code that was found; another login may have used it since.
unfoldable pub consume_backup_code : ℕ → ℕ → ℕ → State → Result (Unit {0}) × State
unfolding refuse
consume_backup_code now i user s =
    if any (unused i) s.backup_codes
    then (ok tt, record s { backup_codes = update_where (unused i) use_code s.backup_codes })
    else refuse now user s

unfoldable pub check_backup_code : Crypto → ℕ → ℕ → ℕ → State → Result (Unit {0}) × State
unfolding consume_backup_code refuse
check_backup_code c now code user s = elim (find_where (matches c code user) s.backup_codes) [
  | none ↦ refuse now user s
  | some b ↦ consume_backup_code now b.id user s
]

abbrev pub is_user : ℕ → Option ℕ → Bool
is_user i none = false
is_user i (some j) = j == i

abbrev pub device_trusted : Crypto → ℕ → Option ℕ → ℕ → Bool
device_trusted c now none user = false
device_trusted c now (some d) user = is_user user (c.device_user now d)

unfoldable pub check_totp : Crypto → ℕ → Login → User → Result (Unit {0})
check_totp c now r u =
    if device_trusted c now r.device_token u.id then ok tt else elim r.totp_code [
      | none ↦ err (with_code 401 "TOTP_REQUIRED")
      | some t ↦ if c.totp now u.totp_secret t then ok tt else err (with_status 401)
    ]

unfoldable pub second_factor : Crypto → ℕ → Login → User → State → Result (Unit {0}) × State
unfolding check_backup_code check_totp
second_factor c now r u s = if not u.totp_enabled then (ok tt, s) else elim r.backup_code [
  | some code ↦ check_backup_code c now code u.id s
  | none ↦ (check_totp c now r u, s)
]

-- A lock that has expired is lifted before the password is looked at.
abbrev pub unlock : User → State → State
unlock u s = elim u.locked_until [ none ↦ s | some t ↦ reset_attempts u.id s ]

-- The session of a login: a refresh token of a new family.
abbrev pub start_session : Crypto → ℕ → Fresh → User → State → Result Session × State
start_session c now f u s = (
  ok (record { user_id = u.id; refresh_token = f.raw }),
  insert_token (new_token c now f u.id f.family_id) (reset_attempts u.id s),
)

abbrev pub admit : Crypto → ℕ → Fresh → User → Result (Unit {0}) × State → Result Session × State
admit c now f u (err e, s) = (err e, s)
admit c now f u (ok _, s) = start_session c now f u s

unfoldable pub check_credentials :
    Crypto → ℕ → Fresh → Login → User → State → Result Session × State
unfolding second_factor refuse
check_credentials c now f r u s =
    if not (c.compare r.password u.password_hash)
    then refuse now u.id s
    else if not u.email_verified
    then (err (with_status 403), s)
    else admit c now f u (second_factor c now r u s)

unfoldable pub login : Crypto → ℕ → Fresh → Login → State → Result Session × State
unfolding check_credentials
login c now f r s = elim (find_where (with_email r.email) s.users) [
  | none ↦ (err (with_status 401), s)
  | some u ↦
      if u.is_suspended
      then (err (with_code 403 "ACCOUNT_SUSPENDED"), s)
      else if is_locked now u
      then (err (with_status 423), s)
      else check_credentials c now f r u (unlock u s)
]
