-- ===== src/Auth/Examples.antt =====
-- Logins of backend/src/controllers/authController.js.
mod Sessions
use cross_border_payment_app.Auth.Guesses.{tries-guesses}
use cross_border_payment_app.Auth.Codes.{signs_in, here, next, consume_backup_code-once}
use cross_border_payment_app.Auth.Admission.{login_iff, NeedsProof}
use cross_border_payment_app.Auth.{
  User, State, Crypto, Fresh, Session, failed_row, failures_after, refuse,
}
use cross_border_payment_app.Auth.Login.{
  Login, login, check_credentials, second_factor, check_backup_code, consume_backup_code,
  check_totp,
}
use cross_border_payment_app.Auth.Lockout.{
  IsWrong, AreClose, tries, five_failures_lock, lock_expires,
}
use cross_border_payment_app.Base.{
  ◌+◌, ◌≡◌, refl, ◌↔◌, true, false, none, some, [], ◌∷◌, ◌==◌, if◌then◌else◌, with_status,
  with_code, ok, err,
}

-- Hashes are sums here, and the only valid TOTP code is 123.
abbrev crypto : Crypto
crypto = record {
  hash = λ p. p + 1000;
  compare = λ p h. p + 1000 == h;
  sha256 = λ x. x + 5000;
  totp = λ now secret code. code == 123;
  device_user = λ now d. if d == 77 then some 1 else none;
}

abbrev ada : User
ada = record {
  id = 1;
  email = 10;
  password_hash = 1042;
  email_verified = true;
  is_suspended = false;
  totp_enabled = false;
  totp_secret = none;
  pin_hash = none;
  failed_login_attempts = 0;
  locked_until = none;
  last_failed_attempt_at = none;
  verification_token = none;
  token_expires_at = none;
}

abbrev with_totp : User
with_totp = record ada { totp_enabled = true; totp_secret = some 8 }

abbrev state_of : User → State
state_of u = record {
  users = u ∷ [];
  backup_codes = record { id = 3; user_id = 1; code_hash = 1555; used = false } ∷ [];
  refresh_tokens = [];
  reset_tokens = [];
  blacklisted = λ h. 0;
}

abbrev fresh : Fresh
fresh = record { token_id = 100; raw = 200; family_id = 300 }

abbrev fresh2 : Fresh
fresh2 = record { token_id = 101; raw = 201; family_id = 301 }

abbrev right : Login
right = record {
  email = 10;
  password = 42;
  totp_code = none;
  backup_code = none;
  device_token = none;
}

abbrev wrong : Login
wrong = record right { password = 43 }

abbrev backup : Login
backup = record right { backup_code = some 555 }

abbrev session : Session
session = record { user_id = 1; refresh_token = 200 }

right_password : (login crypto 0 fresh right (state_of ada)).0 ≡ ok session
unfolding login check_credentials second_factor
right_password = refl

wrong_password : (login crypto 0 fresh wrong (state_of ada)).0 ≡ err (with_status 401)
unfolding login check_credentials refuse failed_row failures_after
wrong_password = refl

no_code_given :
    (login crypto 0 fresh right (state_of with_totp)).0 ≡ err (with_code 401 "TOTP_REQUIRED")
unfolding login check_credentials second_factor check_totp
no_code_given = refl

trusted_device :
    (login crypto 0 fresh (record right { device_token = some 77 }) (state_of with_totp)).0
    ≡ ok session
unfolding login check_credentials second_factor check_totp
trusted_device = refl

backup_twice :
    (login crypto 5 fresh2 backup (login crypto 0 fresh backup (state_of with_totp)).1).0
    ≡ err (with_status 401)
unfolding login check_credentials second_factor check_backup_code consume_backup_code refuse
    failed_row failures_after
backup_twice = refl

login_iff_example : ((login crypto 0 fresh backup (state_of with_totp)).0 ≡ ok session) ↔ (
    (false ≡ false)
    × (false ≡ false)
    × (true ≡ true)
    × (true ≡ true)
    × NeedsProof crypto 0 backup with_totp (state_of with_totp).backup_codes true)
login_iff_example = login_iff crypto 0 fresh backup (state_of with_totp) with_totp refl

-- Two logins have found the code 3; the second finds it used.
consumed : (consume_backup_code 0 3 1 (state_of with_totp)).0 ≡ ok tt
unfolding consume_backup_code
consumed = refl
