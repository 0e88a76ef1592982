-- ===== src/Auth/Webauthn.antt =====
-- `webauthnLoginOptions` and `webauthnVerify` of backend/src/controllers/authController.js. The library
-- that verifies a response is an argument; responses and challenges stand as numbers.
pub mod Replays
mod Examples
use cross_border_payment_app.Auth.{
  User, State, Crypto, Fresh, Session, with_email, new_token, insert_token,
}
use cross_border_payment_app.Base.{
  ℕ, ◌+◌, Bool, ◌&&◌, ◌||◌, not, Option, none, some, List, ltb, leb, ◌==◌, if◌then◌else◌,
  find_where, update_where, Result, with_status, ok, err,
}

pub record Credential : Type 0 where
  pub id : ℕ
  pub user_id : ℕ
  pub credential_id : ℕ
  pub counter : ℕ

-- `challenges` gives the challenge that the cache holds for an email, and until when.
pub record Store : Type 0 where
  pub state : State
  pub credentials : List Credential
  pub challenges : ℕ → Option (ℕ × ℕ)

pub record Response : Type 0 where
  pub credential_id : ℕ
  pub text : ℕ

pub record Verified : Type 0 where
  pub verified : Bool
  pub new_counter : ℕ

-- `verifyAuthenticationResponse` of a response, a challenge and a counter; nothing where it throws
abbrev pub Verify : Type 0
Verify = Response → ℕ → ℕ → Option Verified

abbrev pub challenge_ttl : ℕ
challenge_ttl = 300000

abbrev pub put : ℕ → Option (ℕ × ℕ) → Store → Store
put email ch s = record s { challenges = λ e. if e == email then ch else s.challenges e }

-- `challenge` is the one that is drawn.
unfoldable pub webauthn_login_options : ℕ → ℕ → ℕ → Store → Store
webauthn_login_options now email challenge s = put email (some (challenge, now + challenge_ttl)) s

abbrev pub live : ℕ → Option (ℕ × ℕ) → Option ℕ
live now none = none
live now (some (challenge, until)) = if ltb now until then some challenge else none

abbrev pub is_credential : ℕ → ℕ → Credential → Bool
is_credential user credential k = k.user_id == user && k.credential_id == credential

abbrev pub with_credential_id : ℕ → Credential → Bool
with_credential_id i k = k.id == i

-- A counter that does not increase is a replay, except where the authenticator counts nothing.
abbrev pub is_replay : ℕ → Verified → Bool
is_replay counter v = not v.verified || (not (v.new_counter == 0) && leb v.new_counter counter)

abbrev pub count_to : ℕ → Credential → Credential
count_to n k = record k { counter = n }

abbrev pub open_session : Crypto → ℕ → Fresh → User → State → State
open_session c now f u s = insert_token (new_token c now f u.id f.family_id) s

-- A response that has passed: the user, the credential, and the counter that is to be stored.
pub record Passed : Type 0 where
  pub user : User
  pub credential : Credential
  pub new_counter : ℕ

-- `webauthnVerify` up to its first write; another request may come after it.
unfoldable pub begin_verify : Verify → ℕ → ℕ → Response → Store → Result Passed
begin_verify verify now email r s = elim (live now (s.challenges email)) [
  | none ↦ err (with_status 400)
  | some challenge ↦ elim (find_where (with_email email) s.state.users) [
    | none ↦ err (with_status 401)
    | some u ↦ elim (find_where (is_credential u.id r.credential_id) s.credentials) [
      | none ↦ err (with_status 401)
      | some k ↦ elim (verify r challenge k.counter) [
        | none ↦ err (with_status 401)
        | some v ↦
            if is_replay k.counter v
            then err (with_status 401)
            else ok (record { user = u; credential = k; new_counter = v.new_counter })
      ]
    ]
  ]
]

-- The writes; `deleted` says whether the cache takes the challenge away, an error of which is swallowed.
unfoldable pub finish_verify :
    Crypto → ℕ → Fresh → ℕ → Bool → Passed → Store → Result Session × Store
finish_verify c now f email deleted p s =
    let s' : Store = record {
      state = open_session c now f p.user s.state;
      credentials =
          update_where (with_credential_id p.credential.id) (count_to p.new_counter) s.credentials;
      challenges = s.challenges;
    } in
    (
      ok (record { user_id = p.user.id; refresh_token = f.raw }),
      if deleted then put email none s' else s',
    )

-- `webauthnVerify`, with nothing between its parts
unfoldable pub webauthn_verify :
    Verify → Crypto → ℕ → Fresh → ℕ → Bool → Response → Store → Result Session × Store
unfolding begin_verify finish_verify
webauthn_verify verify c now f email deleted r s = elim (begin_verify verify now email r s) [
  | err e ↦ (err e, s)
  | ok p ↦ finish_verify c now f email deleted p s
]
