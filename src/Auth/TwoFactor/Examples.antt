-- ===== src/Auth/TwoFactor/Examples.antt =====
-- Runs of the handlers of second factors in backend/src/controllers/authController.js.
use cross_border_payment_app.Auth.TwoFactor.{
  verify_2fa, get_backup_code_count, regenerate_backup_codes, setup_2fa, disable_2fa,
}
use cross_border_payment_app.Auth.{State, User, Crypto}
use cross_border_payment_app.Base.{
  ◌+◌, ◌≡◌, refl, true, false, none, some, [], ◌∷◌, ◌==◌, with_status, with_code, ok, err,
}

-- The only valid TOTP code is 123, and the password 42 is right.
abbrev crypto : Crypto
crypto = record {
  hash = λ p. p + 1000;
  compare = λ p h. p + 1000 == h;
  sha256 = λ x. x;
  totp = λ now secret code. code == 123;
  device_user = λ now d. none;
}

abbrev ada : User
ada = record {
  id = 1;
  email = 10;
  password_hash = 1042;
  email_verified = true;
  is_suspended = false;
  totp_enabled = false;
  totp_secret = none;
  pin_hash = none;
  failed_login_attempts = 0;
  locked_until = none;
  last_failed_attempt_at = none;
  verification_token = none;
  token_expires_at = none;
}

abbrev state_of : User → State
state_of u = record {
  users = u ∷ [];
  backup_codes = record { id = 3; user_id = 1; code_hash = 1555; used = true } ∷ [];
  refresh_tokens = [];
  reset_tokens = [];
  blacklisted = λ h. 0;
}

abbrev with_secret : User
with_secret = record ada { totp_secret = some 8 }

abbrev protected : User
protected = record with_secret { totp_enabled = true }

set_up : setup_2fa 1 8 (state_of ada) ≡ (ok 8, state_of with_secret)
unfolding setup_2fa
set_up = refl

set_up_again : (setup_2fa 1 9 (state_of protected)).0 ≡ err (with_code 400 "TOTP_ALREADY_ENABLED")
unfolding setup_2fa
set_up_again = refl

counted :
    get_backup_code_count 1
      (verify_2fa crypto 0 1 123 ((5, 50) ∷ (6, 60) ∷ []) (state_of with_secret)).1
    ≡ 2
unfolding get_backup_code_count verify_2fa
counted = refl

regenerated :
    (regenerate_backup_codes crypto 0 1 124 [] (state_of protected)).0 ≡ err (with_status 401)
unfolding regenerate_backup_codes
regenerated = refl

turned_off : (disable_2fa crypto 1 42 (state_of protected)).1 ≡ state_of ada
unfolding disable_2fa
turned_off = refl
