-- ===== src/Auth/Lockout.antt =====
-- Failed attempts and locks of backend/src/controllers/authController.js.
use cross_border_payment_app.Auth.{
  lockout_duration, failures_after, is_locked, User, State, Crypto, Fresh, Session, with_id,
  with_email, attempt_window, failed_row, refuse,
}
use cross_border_payment_app.Auth.Login.{second_factor, unlock, Login, check_credentials, login}
use mathlib.Core.Path.{subst}
use cross_border_payment_app.Base.{
  ℕ, suc, ◌+◌, ◌≤◌, ◌<◌, ◌≡◌, refl, sym, ap, ◌∙◌, true, false, none, some, List, [], ◌∷◌, arith,
  length, find_where, update_where, All, find_where-update_where, with_status, ok, err,
}

-- Logins one after the other, each with its time.
unfoldable pub tries : Crypto → Fresh → List (ℕ × Login) → State → State
unfolding login
tries c f [] s = s
tries c f ((now, r) ∷ ts) s = tries c f ts (login c now f r s).1

-- Each comes within the window after the one before.
abbrev pub AreClose : ℕ → List (ℕ × Login) → Type 0
AreClose t [] = Unit
AreClose t ((now, r) ∷ ts) = (now ≤ t + attempt_window) × AreClose now ts

abbrev pub last_time : ℕ → List (ℕ × Login) → ℕ
last_time t [] = t
last_time t ((now, r) ∷ ts) = last_time now ts

-- A login by that email with a wrong password.
abbrev pub IsWrong : Crypto → ℕ → ℕ → ℕ × Login → Type 0
IsWrong c email hash (now, r) = (r.email ≡ email) × (c.compare r.password hash ≡ false)

refuse-users {ℓ} :
    (A : Type ℓ) (now i : ℕ) (s : State)
    → (refuse {A = A} now i s).1.users ≡ update_where (with_id i) (failed_row now) s.users
unfolding refuse
refuse-users A now i s = refl

pub login-active :
    (c : Crypto) (now : ℕ) (f : Fresh) (r : Login) (s : State) (v : User)
    → find_where (with_email r.email) s.users ≡ some v
    → v.is_suspended ≡ false
    → is_locked now v ≡ false
    → login c now f r s ≡ check_credentials c now f r v (unlock v s)
unfolding login
login-active c now f r s v found active free = rw (login, found, active, free) refl

login-locked :
    (c : Crypto) (now : ℕ) (f : Fresh) (r : Login) (s : State) (v : User)
    → find_where (with_email r.email) s.users ≡ some v
    → v.is_suspended ≡ false
    → is_locked now v ≡ true
    → login c now f r s ≡ (err (with_status 423), s)
unfolding login
login-locked c now f r s v found active locked = rw (login, found, active, locked) refl

check_credentials-wrong :
    (c : Crypto) (now : ℕ) (f : Fresh) (r : Login) (s : State) (v : User)
    → c.compare r.password v.password_hash ≡ false
    → check_credentials c now f r v s ≡ refuse now v.id s
unfolding check_credentials
check_credentials-wrong c now f r s v wrong = rw (check_credentials, wrong) refl

-- What a wrong password does to an account without a lock.
login-wrong :
    (c : Crypto) (f : Fresh) (email : ℕ) (v : User) (now : ℕ) (r : Login) (s : State)
    → find_where (with_email email) s.users ≡ some v
    → v.is_suspended ≡ false
    → v.locked_until ≡ none
    → IsWrong c email v.password_hash (now, r)
    → find_where (with_email email) (login c now f r s).1.users ≡ some (failed_row now v)
unfolding failed_row
login-wrong c f email v now r s found active unlocked wrong =
    let after =
      find_where-update_where (with_email email) (with_id v.id) (failed_row now) s.users v
        (λ y. refl) found in
    let found' = subst (λ e. find_where (with_email e) s.users ≡ some v) (sym wrong.0) found in
    let free : is_locked now v ≡ false = rw unlocked refl in
    let same : unlock v s ≡ s = rw unlocked refl in
    rw
      (
        login-active c now f r s v found' active free,
        same,
        check_credentials-wrong c now f r s v wrong.1,
        refuse-users Session now v.id s,
        after,
      )
      (ground arith)

failures_after-close :
    (now t : ℕ) (u : User)
    → u.last_failed_attempt_at ≡ some t
    → now ≤ t + attempt_window
    → failures_after now u ≡ suc u.failed_login_attempts
unfolding failures_after
failures_after-close now t u last close = ground arith

check_credentials-right :
    (c : Crypto) (now : ℕ) (f : Fresh) (r : Login) (s : State) (v : User)
    → c.compare r.password v.password_hash ≡ true
    → v.email_verified ≡ true
    → v.totp_enabled ≡ false
    → (check_credentials c now f r v s).0 ≡ ok (record { user_id = v.id; refresh_token = f.raw })
unfolding check_credentials second_factor
check_credentials-right c now f r s v right verified single =
    rw (check_credentials, right, verified, second_factor, single) refl

is_locked-before :
    {now t : ℕ} (v : User) → now < t → v.locked_until ≡ some t → is_locked now v ≡ true
is_locked-before v early until = ground arith

is_locked-from :
    {now t : ℕ} (v : User) → t ≤ now → v.locked_until ≡ some t → is_locked now v ≡ false
is_locked-from v late until = ground arith

-- What failed attempts leave of an account.
abbrev pub SameAccount : User → User → Type 0
SameAccount u v =
    (v.id ≡ u.id)
    × (v.password_hash ≡ u.password_hash)
    × (v.is_suspended ≡ u.is_suspended)
    × (v.email_verified ≡ u.email_verified)
    × (v.totp_enabled ≡ u.totp_enabled)

-- The account is locked until a time.
abbrev pub IsLockedUntil : ℕ → User → ℕ → State → Type 0
IsLockedUntil email u t s =
    (v : User) × (find_where (with_email email) s.users ≡ some v)
    × (v.locked_until ≡ some t)
    × SameAccount u v

tries-lock :
    (c : Crypto) (f : Fresh) (email t : ℕ) (u : User) (ts : List (ℕ × Login)) (s : State)
    → find_where (with_email email) s.users ≡ some u
    → u.is_suspended ≡ false
    → u.locked_until ≡ none
    → u.last_failed_attempt_at ≡ some t
    → u.failed_login_attempts + length ts ≡ 5
    → u.failed_login_attempts < 5
    → All (IsWrong c email u.password_hash) ts
    → AreClose t ts
    → IsLockedUntil email u (last_time t ts + lockout_duration) (tries c f ts s)
unfolding tries failed_row
tries-lock c f email t u [] s found active unlocked last count less wrong close =
    absurd (omega arith)
tries-lock c f email t u ((now, r) ∷ []) s found active unlocked last count less wrong close =
    let n = failures_after-close now t u last close.0 in
    (
      failed_row now u,
      login-wrong c f email u now r s found active unlocked wrong.0,
      rw n (ground arith),
      (refl, refl, refl, refl, refl),
    )
tries-lock c f email t u ((now, r) ∷ (a ∷ ts)) s found active unlocked last count less wrong close =
    let n = failures_after-close now t u last close.0 in
    let few : failures_after now u < 5 = omega arith in
    tries-lock c f email now (failed_row now u) (a ∷ ts) (login c now f r s).1
      (login-wrong c f email u now r s found active unlocked wrong.0) active (ground arith) refl
      (omega arith) few wrong.1 close.1

-- Five wrong passwords, from an account that has no earlier failure.
module _ (c : Crypto) (f : Fresh) (email now : ℕ) (r : Login) (ts : List (ℕ × Login)) (s : State)
    (u : User) (found : find_where (with_email email) s.users ≡ some u)
    (active : u.is_suspended ≡ false) (unlocked : u.locked_until ≡ none)
    (clean : u.last_failed_attempt_at ≡ none) (five : length ts ≡ 4)
    (wrong : All (IsWrong c email u.password_hash) ((now, r) ∷ ts)) (close : AreClose now ts) where
  after_five :
      IsLockedUntil email u (last_time now ts + lockout_duration) (tries c f ((now, r) ∷ ts) s)
  unfolding tries failed_row failures_after
  after_five =
      let one : failures_after now u ≡ 1 = rw clean refl in
      tries-lock c f email now (failed_row now u) ts (login c now f r s).1
        (login-wrong c f email u now r s found active unlocked wrong.0) active
        (rw one (ground arith)) refl (omega arith) (omega arith) wrong.1 close

  -- After five wrong passwords, each within 15 minutes of the one before, every login to the account is
  -- answered with 423 until 15 minutes after the last, whatever the password, and changes nothing.
  pub five_failures_lock :
      (later : ℕ) (q : Login)
      → q.email ≡ email
      → later < last_time now ts + lockout_duration
      → login c later f q (tries c f ((now, r) ∷ ts) s)
        ≡ (err (with_status 423), tries c f ((now, r) ∷ ts) s)
  five_failures_lock later q same early =
      let (v, there, until, (i, h, a, e, t)) = after_five in
      let found' =
        subst (λ e. find_where (with_email e) (tries c f ((now, r) ∷ ts) s).users ≡ some v)
          (sym same) there in
      login-locked c later f q (tries c f ((now, r) ∷ ts) s) v found' (a ∙ active)
        (is_locked-before v early until)

  -- Once 15 minutes have passed after the last of five wrong passwords, the right password of an account
  -- with a verified address and no second factor is accepted again.
  pub lock_expires :
      (later : ℕ) (q : Login)
      → q.email ≡ email
      → last_time now ts + lockout_duration ≤ later
      → c.compare q.password u.password_hash ≡ true
      → u.email_verified ≡ true
      → u.totp_enabled ≡ false
      → (login c later f q (tries c f ((now, r) ∷ ts) s)).0
        ≡ ok (record { user_id = u.id; refresh_token = f.raw })
  lock_expires later q same late right verified single =
      let (v, there, until, (i, h, a, e, t)) = after_five in
      let found' =
        subst (λ e. find_where (with_email e) (tries c f ((now, r) ∷ ts) s).users ≡ some v)
          (sym same) there in
      let h' =
        λ (x : c.compare q.password u.password_hash ≡ true). (ap (c.compare q.password) h ∙ x) in
      rw
        (
          login-active c later f q (tries c f ((now, r) ∷ ts) s) v found' (a ∙ active)
              (is_locked-from v late until),
          check_credentials-right c later f q (unlock v (tries c f ((now, r) ∷ ts) s)) v (h' right)
              (e ∙ verified) (t ∙ single),
        )
        (rw i refl)
