-- ===== src/Auth/Passwords.antt =====
-- Passwords and addresses: `forgotPassword`, `resetPassword`, `changePassword` and `verifyEmail` of
-- backend/src/controllers/authController.js.
use cross_border_payment_app.Auth.{
  User, ResetToken, State, Crypto, with_id, with_email, update_users,
}
use cross_border_payment_app.Base.{
  ℕ, ◌+◌, Bool, true, false, ◌&&◌, not, Option, none, some, [], ◌∷◌, ◌++◌, ltb, ◌==◌, if◌then◌else◌,
  find_where, select_where, update_where, Result, with_status, ok, err,
}

abbrev pub password_reset_ttl : ℕ
password_reset_ttl = 3600000

abbrev pub is_open : ℕ → ResetToken → Bool
is_open user t = (t.user_id == user) && not t.used

-- The part that runs after the answer; `raw` is the token in the mail.
unfoldable pub forgot_password : Crypto → ℕ → ℕ → ℕ → State → State
forgot_password c now raw email s = elim (find_where (with_email email) s.users) [
  | none ↦ s
  | some u ↦ record s {
    reset_tokens =
        select_where (λ t. not (is_open u.id t)) s.reset_tokens
        ++ record {
          user_id = u.id;
          token_hash = c.sha256 raw;
          expires_at = now + password_reset_ttl;
          used = false;
        }
          ∷ [];
  }
]

abbrev pub accepts : ℕ → ℕ → ResetToken → Bool
accepts now h t = t.token_hash == h && not t.used && ltb now t.expires_at

abbrev pub set_password : ℕ → User → User
set_password h u = record u { password_hash = h }

abbrev pub use_token : ResetToken → ResetToken
use_token t = record t { used = true }

-- `committed` is what the database answers to the transaction.
unfoldable pub reset_password :
    Crypto → ℕ → Option ℕ → ℕ → Result (Unit {0}) → State → Result (Unit {0}) × State
reset_password c now none password committed s = (err (with_status 400), s)
reset_password c now (some raw) password committed s =
    elim (find_where (accepts now (c.sha256 raw)) s.reset_tokens) [
      | none ↦ (err (with_status 400), s)
      | some t ↦ elim committed [
        | err e ↦ (err e, s)
        | ok _ ↦ (
          ok tt,
          record s {
            users = update_where (with_id t.user_id) (set_password (c.hash password)) s.users;
            reset_tokens = update_where (is_open t.user_id) use_token s.reset_tokens;
            refresh_tokens = select_where (λ r. not (r.user_id == t.user_id)) s.refresh_tokens;
          },
        )
      ]
    ]

-- Sessions are a table of their own; refresh tokens are left as they are.
unfoldable pub change_password : Crypto → ℕ → ℕ → ℕ → State → Result (Unit {0}) × State
change_password c user current new s = elim (find_where (with_id user) s.users) [
  | none ↦ (err (with_status 401), s)
  | some u ↦
      if not (c.compare current u.password_hash)
      then (err (with_status 401), s)
      else (ok tt, update_users user (set_password (c.hash new)) s)
]

abbrev pub with_verification : ℕ → User → Bool
with_verification h u = elim u.verification_token [ none ↦ false | some v ↦ v == h ]

-- A missing time reads as the beginning of time.
abbrev pub has_expired : ℕ → Option ℕ → Bool
has_expired now none = ltb 0 now
has_expired now (some t) = ltb t now

abbrev pub verified_row : User → User
verified_row u = record u {
  email_verified = true;
  verification_token = none;
  token_expires_at = none;
}

unfoldable pub verify_email : Crypto → ℕ → Option ℕ → State → Result (Unit {0}) × State
verify_email c now none s = (err (with_status 400), s)
verify_email c now (some raw) s = elim (find_where (with_verification (c.sha256 raw)) s.users) [
  | none ↦ (err (with_status 400), s)
  | some u ↦
      if has_expired now u.token_expires_at
      then (err (with_status 400), s)
      else (ok tt, update_users u.id verified_row s)
]
