-- ===== src/Auth/Pin.antt =====
-- PINs and the tokens that they give: `setPIN` and `verifyPIN` of
-- backend/src/controllers/authController.js, backend/src/services/pin.js, and
-- backend/src/middleware/requireStepUp.js.
use cross_border_payment_app.Auth.{
  State, Crypto, with_id, is_locked, refuse, reset_attempts, update_users,
}
use cross_border_payment_app.Base.{
  ℕ, ◌+◌, ◌-◌, max, Bool, true, false, ◌&&◌, ◌||◌, not, Option, none, some, List, [], ◌∷◌, ltb, leb,
  ◌==◌, if◌then◌else◌, length, find_where, Result, with_status, ok, err,
}

-- A PIN by the codes of its characters, with the number it stands for in hashes.
pub record Pin : Type 0 where
  pub characters : List ℕ
  pub text : ℕ

abbrev pub all_digits : List ℕ → Bool
all_digits [] = true
all_digits (c ∷ cs) = leb 48 c && leb c 57 && all_digits cs

-- `/^\d{4,6}$/`
unfoldable pub validate_pin : Pin → Bool
validate_pin p =
    all_digits p.characters && leb 4 (length p.characters) && leb (length p.characters) 6

unfoldable pub compare_pin : Crypto → Pin → ℕ → Bool
unfolding validate_pin
compare_pin c p h = if not (validate_pin p) then false else c.compare p.text h

unfoldable pub set_pin : Crypto → ℕ → Pin → State → Result (Unit {0}) × State
unfolding validate_pin
set_pin c user p s =
    if not (validate_pin p)
    then (err (with_status 400), s)
    else (ok tt, update_users user (λ u. record u { pin_hash = some (c.hash p.text) }) s)

-- The answer names the user of the step-up token that is issued.
unfoldable pub verify_pin : Crypto → ℕ → ℕ → Pin → State → Result ℕ × State
unfolding compare_pin refuse
verify_pin c now user p s = elim (find_where (with_id user) s.users) [
  | none ↦ (err (with_status 404), s)
  | some u ↦ if is_locked now u then (err (with_status 423), s) else elim u.pin_hash [
    | none ↦ (err (with_status 400), s)
    | some h ↦ if compare_pin c p h then (ok user, reset_attempts user s) else refuse now user s
  ]
]

-- A step-up token as `jwt.verify` reads it, in seconds.
pub record StepUp : Type 0 where
  pub jti : ℕ
  pub sub : ℕ
  pub exp : ℕ

abbrev pub step_up_ttl : ℕ
step_up_ttl = 120

unfoldable pub issue_step_up_token : ℕ → ℕ → ℕ → StepUp
issue_step_up_token now jti user = record { jti = jti; sub = user; exp = now + step_up_ttl }

-- `jwt.verify` refuses a token from its expiry on. `used` gives the time until which the cache holds the
-- key of a token that was used.
unfoldable pub require_step_up : ℕ → ℕ → Option StepUp → (ℕ → ℕ) → Bool × (ℕ → ℕ)
require_step_up now user none used = (false, used)
require_step_up now user (some t) used =
    if leb t.exp now || not (t.sub == user)
    then (false, used)
    else if ltb now (used t.jti)
    then (false, used)
    else (true, λ j. if j == t.jti then now + max 1 (t.exp - now) else used j)
