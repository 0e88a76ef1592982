-- ===== src/Auth/TwoFactor.antt =====
-- The second factor of an account: `setup2FA`, `verify2FA`, `regenerateBackupCodes`, `getBackupCodeCount`
-- and `disable2FA` of backend/src/controllers/authController.js.
pub mod Secrets
mod Examples
use cross_border_payment_app.Auth.{User, BackupCode, State, Crypto, with_id, update_users}
use cross_border_payment_app.Base.{
  ℕ, Bool, true, false, ◌&&◌, not, none, some, List, [], ◌∷◌, ◌++◌, ◌==◌, if◌then◌else◌, find_where,
  select_where, count_where, Result, with_status, with_code, ok, err,
}

abbrev pub set_secret : ℕ → User → User
set_secret x u = record u { totp_secret = some x }

-- `secret` is the one that is generated.
unfoldable pub setup_2fa : ℕ → ℕ → State → Result ℕ × State
setup_2fa user secret s = elim (find_where (with_id user) s.users) [
  | none ↦ (err (with_status 404), s)
  | some u ↦
      if u.totp_enabled
      then (err (with_code 400 "TOTP_ALREADY_ENABLED"), s)
      else (ok secret, update_users user (set_secret secret) s)
]

abbrev pub of_user : ℕ → BackupCode → Bool
of_user user b = b.user_id == user

-- A code that is drawn, with the identifier of its row.
abbrev pub insert_codes : Crypto → ℕ → List (ℕ × ℕ) → List BackupCode → List BackupCode
insert_codes c user [] bs = bs
insert_codes c user ((i, code) ∷ codes) bs =
    insert_codes c user codes
      (bs ++ record { id = i; user_id = user; code_hash = c.hash code; used = false } ∷ [])

-- The codes of the user are replaced.
abbrev pub replace_codes : Crypto → ℕ → List (ℕ × ℕ) → State → State
replace_codes c user codes s = record s {
  backup_codes =
      insert_codes c user codes (select_where (λ b. not (of_user user b)) s.backup_codes);
}

abbrev pub enable : User → User
enable u = record u { totp_enabled = true }

unfoldable pub verify_2fa : Crypto → ℕ → ℕ → ℕ → List (ℕ × ℕ) → State → Result (Unit {0}) × State
verify_2fa c now user code codes s = elim (find_where (with_id user) s.users) [
  | none ↦ (err (with_status 400), s)
  | some u ↦ elim u.totp_secret [
    | none ↦ (err (with_status 400), s)
    | some x ↦
        if not (c.totp now (some x) code)
        then (err (with_status 401), s)
        else (ok tt, replace_codes c user codes (update_users user enable s))
  ]
]

unfoldable pub regenerate_backup_codes :
    Crypto → ℕ → ℕ → ℕ → List (ℕ × ℕ) → State → Result (Unit {0}) × State
regenerate_backup_codes c now user code codes s = elim (find_where (with_id user) s.users) [
  | none ↦ (err (with_status 400), s)
  | some u ↦
      if not u.totp_enabled
      then (err (with_status 400), s)
      else if not (c.totp now u.totp_secret code)
      then (err (with_status 401), s)
      else (ok tt, replace_codes c user codes s)
]

unfoldable pub get_backup_code_count : ℕ → State → ℕ
get_backup_code_count user s = count_where (λ b. of_user user b && not b.used) s.backup_codes

abbrev pub disable : User → User
disable u = record u { totp_enabled = false; totp_secret = none }

unfoldable pub disable_2fa : Crypto → ℕ → ℕ → State → Result (Unit {0}) × State
disable_2fa c user password s = elim (find_where (with_id user) s.users) [
  | none ↦ (err (with_status 401), s)
  | some u ↦
      if not (c.compare password u.password_hash)
      then (err (with_status 401), s)
      else (ok tt, update_users user disable s)
]
