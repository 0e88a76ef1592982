-- ===== src/Auth/Guesses.antt =====
-- Second factors of `login` in backend/src/controllers/authController.js: wrong TOTP codes
-- are not counted.
use cross_border_payment_app.Auth.Admission.{check_credentials-admit}
use mathlib.Core.Path.{subst}
use cross_border_payment_app.Auth.Lockout.{login-active, tries}
use cross_border_payment_app.Auth.{is_locked, with_email, Fresh, State, User, Crypto}
use cross_border_payment_app.Auth.Login.{login, unlock, check_totp, second_factor, Login}
use cross_border_payment_app.Base.{
  ℕ, ◌≡◌, refl, sym, ap, ◌∙◌, true, false, none, some, List, [], ◌∷◌, arith, find_where, All,
  with_status, err,
}

-- A login to the account with its password and a wrong TOTP code, from a device that is not trusted.
abbrev pub IsGuess : Crypto → ℕ → User → ℕ × Login → Type 0
IsGuess c email u (now, r) =
    (r.email ≡ email)
    × (c.compare r.password u.password_hash ≡ true)
    × (r.backup_code ≡ none)
    × (r.device_token ≡ none)
    × ((t : ℕ) × (r.totp_code ≡ some t) × (c.totp now u.totp_secret t ≡ false))

second_factor-guess :
    (c : Crypto) (email now : ℕ) (u : User) (r : Login) (s : State)
    → u.totp_enabled ≡ true
    → IsGuess c email u (now, r)
    → second_factor c now r u s ≡ (err (with_status 401), s)
unfolding second_factor check_totp
second_factor-guess c email now u r s two (same, right, no_code, no_device, (t, given, wrong)) =
    rw (second_factor, two, no_code, check_totp, no_device, given, wrong) refl

login-guess :
    (c : Crypto) (f : Fresh) (email now : ℕ) (u : User) (r : Login) (s : State)
    → find_where (with_email email) s.users ≡ some u
    → u.is_suspended ≡ false
    → u.locked_until ≡ none
    → u.email_verified ≡ true
    → u.totp_enabled ≡ true
    → IsGuess c email u (now, r)
    → login c now f r s ≡ (err (with_status 401), s)
login-guess c f email now u r s found active free verified two guess =
    let found' = subst (λ e. find_where (with_email e) s.users ≡ some u) (sym guess.0) found in
    let unlocked : is_locked now u ≡ false = ground arith in
    let kept : unlock u s ≡ s = ground arith in
    rw
      (
        login-active c now f r s u found' active unlocked,
        kept,
        check_credentials-admit c now f r u s guess.1 verified,
        second_factor-guess c email now u r s two guess,
      )
      refl

-- However many wrong TOTP codes are tried with the right password, none is counted and nothing locks: an
-- account that is not locked is as before.
pub tries-guesses :
    (c : Crypto) (f : Fresh) (email : ℕ) (u : User) (ts : List (ℕ × Login)) (s : State)
    → find_where (with_email email) s.users ≡ some u
    → u.is_suspended ≡ false
    → u.locked_until ≡ none
    → u.email_verified ≡ true
    → u.totp_enabled ≡ true
    → All (IsGuess c email u) ts
    → tries c f ts s ≡ s
unfolding tries
tries-guesses c f email u [] s found active free verified two guesses = refl
tries-guesses c f email u ((now, r) ∷ ts) s found active free verified two (guess, rest) =
    let step =
      ap (λ p. p.1) (login-guess c f email now u r s found active free verified two guess) in
    ap (tries c f ts) step ∙ tries-guesses c f email u ts s found active free verified two rest
