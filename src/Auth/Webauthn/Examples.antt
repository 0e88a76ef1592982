-- ===== src/Auth/Webauthn/Examples.antt =====
-- Runs of `webauthnVerify` of backend/src/controllers/authController.js.
use cross_border_payment_app.Auth.Webauthn.Replays.{webauthn_verify-replay}
use cross_border_payment_app.Auth.{User, Crypto, Fresh}
use cross_border_payment_app.Auth.Webauthn.{
  Credential, Verified, Store, Response, Verify, webauthn_login_options, webauthn_verify,
}
use cross_border_payment_app.Base.{
  ◌+◌, ◌<◌, ◌≡◌, ◌⊎◌, refl, true, false, ◌&&◌, none, some, [], ◌∷◌, ltb, ◌==◌, if◌then◌else◌,
  with_status, ok, err,
}

abbrev crypto : Crypto
crypto = record {
  hash = λ p. p + 1000;
  compare = λ p h. p + 1000 == h;
  sha256 = λ x. x + 5000;
  totp = λ now secret code. false;
  device_user = λ now d. none;
}

-- A response answers the challenge that is its text. The authenticator counts to 8 for the challenge 33, and
-- to 9 for any other; the library throws where the counter does not increase.
abbrev verify : Verify
verify r challenge counter =
    let n = if challenge == 33 then 8 else 9 in
    if r.text == challenge && ltb counter n
    then some (record { verified = true; new_counter = n })
    else none

abbrev ada : User
ada = record {
  id = 1;
  email = 10;
  password_hash = 1042;
  email_verified = true;
  is_suspended = true;
  totp_enabled = false;
  totp_secret = none;
  pin_hash = none;
  failed_login_attempts = 0;
  locked_until = none;
  last_failed_attempt_at = none;
  verification_token = none;
  token_expires_at = none;
}

abbrev key : Credential
key = record { id = 5; user_id = 1; credential_id = 50; counter = 7 }

abbrev fresh : Fresh
fresh = record { token_id = 100; raw = 200; family_id = 300 }

abbrev before : Store
before = record {
  state = record {
    users = ada ∷ [];
    backup_codes = [];
    refresh_tokens = [];
    reset_tokens = [];
    blacklisted = λ h. 0;
  };
  credentials = key ∷ [];
  challenges = λ e. if e == 10 then some (33, 300000) else none;
}

abbrev response : Response
response = record { credential_id = 50; text = 33 }

challenged :
    (webauthn_login_options 0 10 33 (record before { challenges = λ e. none })).challenges 10
    ≡ some (33, 300000)
unfolding webauthn_login_options
challenged = refl

wrong_challenge :
    (webauthn_verify verify crypto 9 fresh 10 true (record response { text = 34 }) before).0
    ≡ err (with_status 401)
unfolding webauthn_verify
wrong_challenge = refl

too_late :
    (webauthn_verify verify crypto 300000 fresh 10 true response before).0 ≡ err (with_status 400)
unfolding webauthn_verify
too_late = refl

-- The challenge of the first is not deleted.
abbrev after_first : Store
after_first = (webauthn_verify verify crypto 9 fresh 10 false response before).1

replayed :
    (webauthn_verify verify crypto 20 fresh 10 true response after_first).0 ≡ err (with_status 401)
unfolding webauthn_verify
replayed = refl

first_accepted :
    (webauthn_verify verify crypto 9 fresh 10 false response before).0
    ≡ ok (record { user_id = 1; refresh_token = 200 })
unfolding webauthn_verify
first_accepted = refl

second_accepted :
    (webauthn_verify verify crypto 20 fresh 10 true
      (record response { text = 44 })
      (webauthn_login_options 20 10 44 after_first)).0
    ≡ ok (record { user_id = 1; refresh_token = 200 })
unfolding webauthn_verify webauthn_login_options
second_accepted = refl

webauthn_verify-replay_example :
    (v w : Verified) × (verify response 33 7 ≡ some v)
    × (verify (record response { text = 44 }) 44 v.new_counter ≡ some w)
    × (w.verified ≡ true)
    × ((w.new_counter ≡ 0) ⊎ (v.new_counter < w.new_counter))
webauthn_verify-replay_example =
    webauthn_verify-replay verify crypto 9 10 fresh false response before 33 ada key
      (record { user_id = 1; refresh_token = 200 }) refl refl refl first_accepted 20 44 fresh true
      (record response { text = 44 }) (record { user_id = 1; refresh_token = 200 }) refl
      second_accepted
