-- ===== src/Auth/Examples/Sessions.antt =====
-- Refresh tokens, resets and PINs of backend/src/controllers/authController.js.
use cross_border_payment_app.Auth.Tokens.{
  insert_successor, claim_token, within_grace, rotate, read_token, begin_refresh, logout, refresh,
}
use cross_border_payment_app.Auth.Passwords.{forgot_password, verify_email}
use cross_border_payment_app.Auth.Pin.{
  validate_pin, require_step_up, Pin, issue_step_up_token, set_pin,
}
use cross_border_payment_app.Auth.{User, State, new_token}
use cross_border_payment_app.Auth.Login.{login, check_credentials, second_factor}
use cross_border_payment_app.Auth.Examples.{crypto, ada, state_of, fresh, fresh2, right}
use cross_border_payment_app.Base.{
  ◌≡◌, refl, true, false, none, some, [], ◌∷◌, ◌++◌, with_status, plain_error, ok, err,
}

-- A session of ada, with the token 200 of the family 300.
abbrev signed_in : State
signed_in = record (state_of ada) {
  refresh_tokens =
      record {
        id = 100;
        user_id = 1;
        token_hash = 5200;
        expires_at = 2592000000;
        family_id = 300;
        revoked = false;
        revoked_at = none;
        replaced_by = none;
      }
      ∷ [];
  reset_tokens = record { user_id = 1; token_hash = 5900; expires_at = 5000; used = false } ∷ [];
}

login_gives_token :
    (login crypto 0 fresh right (state_of ada)).1.refresh_tokens ≡ signed_in.refresh_tokens
unfolding login check_credentials second_factor
login_gives_token = refl

refresh_first : (refresh crypto true 1000 fresh2 (some 200) signed_in).0 ≡ ok 201
unfolding refresh begin_refresh read_token rotate within_grace
refresh_first = refl

refresh_unanswered : (refresh crypto false 1000 fresh2 (some 200) signed_in).0 ≡ err plain_error
unfolding refresh begin_refresh
refresh_unanswered = refl

-- Where the claim fails the successor stays beside the token.
both_live :
    (claim_token (err plain_error) 1000 fresh2 (new_token crypto 0 fresh 1 300) (
      insert_successor crypto 1000 fresh2
        (new_token crypto 0 fresh 1 300)
        signed_in)).1.refresh_tokens
    ≡ signed_in.refresh_tokens ++ new_token crypto 1000 fresh2 1 300 ∷ []
unfolding claim_token insert_successor
both_live = refl

logout_deletes : (logout crypto 1000 (some 200) signed_in).refresh_tokens ≡ []
unfolding logout
logout_deletes = refl

after_logout :
    (refresh crypto true 2000 fresh2 (some 200) (logout crypto 1000 (some 200) signed_in)).0
    ≡ err (with_status 401)
unfolding refresh begin_refresh logout
after_logout = refl

forgotten :
    (forgot_password crypto 0 800 10 signed_in).reset_tokens
    ≡ record { user_id = 1; token_hash = 5800; expires_at = 3600000; used = false } ∷ []
unfolding forgot_password
forgotten = refl

-- The PIN 1234
abbrev pin : Pin
pin = record { characters = 49 ∷ 50 ∷ 51 ∷ 52 ∷ []; text = 1234 }

abbrev with_pin : User
with_pin = record ada { pin_hash = some 2234 }

pin_is_set : (set_pin crypto 1 pin (state_of ada)).1 ≡ state_of with_pin
unfolding set_pin validate_pin
pin_is_set = refl

short_pin :
    (set_pin crypto 1 (record { characters = 49 ∷ []; text = 1 }) (state_of ada)).0
    ≡ err (with_status 400)
unfolding set_pin validate_pin
short_pin = refl

issued : issue_step_up_token 10 9 1 ≡ record { jti = 9; sub = 1; exp = 130 }
unfolding issue_step_up_token
issued = refl

step_up_accepted :
    (require_step_up 20 1 (some (record { jti = 9; sub = 1; exp = 130 })) (λ j. 0)).0 ≡ true
unfolding require_step_up
step_up_accepted = refl

-- The address of a new account is verified.
abbrev unverified : User
unverified = record ada {
  email_verified = false;
  verification_token = some 5700;
  token_expires_at = some 9000;
}

verified : (verify_email crypto 9000 (some 700) (state_of unverified)).1 ≡ state_of ada
unfolding verify_email
verified = refl
