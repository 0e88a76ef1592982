-- ===== src/Auth/StepUp.antt =====
-- What a PIN gives: the step-up tokens of backend/src/middleware/requireStepUp.js.
use cross_border_payment_app.Auth.Admission.{refuse-err}
use cross_border_payment_app.Auth.{User, State, Crypto, with_id, is_locked}
use cross_border_payment_app.Auth.Pin.{Pin, compare_pin, verify_pin, StepUp, require_step_up}
use cross_border_payment_app.Base.{
  ℕ, ◌≡◌, refl, ◌∙◌, ◌≢◌, ◌↔◌, inl, inr, true, false, some, List, [], ◌∷◌, arith, Bool-cases,
  Option-cases, find_where, All, ok,
}

-- Requests one after the other, each with its time, its user and its token.
pub requests : List (ℕ × ℕ × StepUp) → (ℕ → ℕ) → ℕ → ℕ
unfolding require_step_up
requests [] used = used
requests ((now, user, t) ∷ qs) used = requests qs (require_step_up now user (some t) used).1

abbrev pub IsOther : ℕ → ℕ × ℕ × StepUp → Type 0
IsOther jti (now, user, t) = t.jti ≢ jti

other-used :
    (jti now user : ℕ) (t : StepUp) (used : ℕ → ℕ)
    → t.jti ≢ jti
    → (require_step_up now user (some t) used).1 jti ≡ used jti
unfolding require_step_up
other-used jti now user t used ne = ground arith

requests-used :
    (jti : ℕ) (qs : List (ℕ × ℕ × StepUp)) (used : ℕ → ℕ)
    → All (IsOther jti) qs
    → requests qs used jti ≡ used jti
unfolding requests
requests-used jti [] used os = refl
requests-used jti ((now, user, t) ∷ qs) used (ne, os) =
    requests-used jti qs (require_step_up now user (some t) used).1 os
    ∙ other-used jti now user t used ne

accepted-used :
    (now user : ℕ) (t : StepUp) (used : ℕ → ℕ)
    → (require_step_up now user (some t) used).0 ≡ true
    → (require_step_up now user (some t) used).1 t.jti ≡ t.exp
unfolding require_step_up
accepted-used now user t used ok_first = ground arith

spent-refused :
    (later user : ℕ) (t : StepUp) (used : ℕ → ℕ)
    → used t.jti ≡ t.exp
    → (require_step_up later user (some t) used).0 ≡ false
unfolding require_step_up
spent-refused later user t used spent = ground arith

-- A step-up token confirms one request: once it is accepted it is refused for ever, whatever requests
-- with other tokens come between.
pub require_step_up-once :
    (now later user rival : ℕ) (t : StepUp) (used : ℕ → ℕ) (qs : List (ℕ × ℕ × StepUp))
    → (require_step_up now user (some t) used).0 ≡ true
    → All (IsOther t.jti) qs
    → (require_step_up later rival
        (some t)
        (requests qs (require_step_up now user (some t) used).1)).0
      ≡ false
require_step_up-once now later user rival t used qs first others =
    spent-refused later rival t (requests qs (require_step_up now user (some t) used).1) (
      requests-used t.jti qs (require_step_up now user (some t) used).1 others
      ∙ accepted-used now user t used first)

-- A PIN gives a step-up token exactly when the account is there and not locked, has a PIN, and the PIN is
-- four to six digits that match it.
pub verify_pin_iff :
    (c : Crypto) (now user : ℕ) (p : Pin) (s : State) (u : User)
    → find_where (with_id user) s.users ≡ some u
    → ((verify_pin c now user p s).0 ≡ ok user)
      ↔ ((is_locked now u ≡ false) × ((h : ℕ) × (u.pin_hash ≡ some h) × (compare_pin c p h ≡ true)))
unfolding verify_pin
verify_pin_iff c now user p s u found = elim (Bool-cases (is_locked now u)) [
  | inl locked ↦ (λ h. absurd (ground arith), λ h. absurd (ground arith))
  | inr free ↦ elim (Option-cases u.pin_hash) [
    | inl unset ↦ (λ h. absurd (ground arith), λ (_, (h, g, _)). absurd (ground arith))
    | inr (h, set) ↦ elim (Bool-cases (compare_pin c p h)) [
      | inl right ↦
          (λ _. (free, (h, set, right)), λ _. rw (verify_pin, found, free, set, right) refl)
      | inr wrong ↦ (
        λ e. absurd (refuse-err now user s user (rw (verify_pin, found, free, set, wrong) at e)),
        λ (_, (g, set2, right)). absurd (ground arith),
      )
    ]
  ]
]
