-- ===== src/Auth/Admission.antt =====
-- When `login` of backend/src/controllers/authController.js lets somebody in.
use cross_border_payment_app.Auth.{
  User, BackupCode, State, Crypto, Fresh, Session, with_email, is_locked, refuse,
}
use cross_border_payment_app.Auth.Login.{
  admit, Login, matches, unused, consume_backup_code, check_backup_code, device_trusted, check_totp,
  second_factor, unlock, check_credentials, login,
}
use mathlib.Core.Path.{subst}
use cross_border_payment_app.Base.{
  ℕ, ◌≡◌, refl, sym, ap, ◌∙◌, ◌≢◌, ◌↔◌, ◌⊎◌, inl, inr, Bool, true, false, Option, none, some, List,
  arith, Bool-cases, Option-cases, find_where, find_where_sound, any_of_count, count_of_find,
  Result, ok, err,
}

pub refuse-err {ℓ} : {A : Type ℓ} (now i : ℕ) (s : State) (a : A) → (refuse now i s).0 ≢ ok a
unfolding refuse
refuse-err now i s a h = ground arith

-- A code of the user that is not used yet, where the login gives one; else a trusted device, or a valid
-- TOTP code.
abbrev pub HasProof : Crypto → ℕ → Login → User → List BackupCode → Option ℕ → Type 0
HasProof c now r u codes none =
    (device_trusted c now r.device_token u.id ≡ true)
    ⊎ ((t : ℕ) × (r.totp_code ≡ some t) × (c.totp now u.totp_secret t ≡ true))
HasProof c now r u codes (some code) =
    (b : BackupCode) × (find_where (matches c code u.id) codes ≡ some b)

abbrev pub NeedsProof : Crypto → ℕ → Login → User → List BackupCode → Bool → Type 0
NeedsProof c now r u codes false = Unit
NeedsProof c now r u codes true = HasProof c now r u codes r.backup_code

check_totp_iff :
    (c : Crypto) (now : ℕ) (r : Login) (u : User) (s : State)
    → (check_totp c now r u ≡ ok tt) ↔ HasProof c now r u s.backup_codes none
unfolding check_totp
check_totp_iff c now r u s = (λ h. passed h, λ h. proved h)
  where
    passed : check_totp c now r u ≡ ok tt → HasProof c now r u s.backup_codes none
    passed h = elim (Bool-cases (device_trusted c now r.device_token u.id)) [
      | inl d ↦ inl d
      | inr d ↦ elim (Option-cases r.totp_code) [
        | inl f ↦ absurd (ground arith)
        | inr (t, f) ↦ inr (t, f, ground arith)
      ]
    ]

    proved : HasProof c now r u s.backup_codes none → check_totp c now r u ≡ ok tt
    proved (inl d) = rw (check_totp, d) refl
    proved (inr (t, f, v)) = ground arith

check_backup_code_iff :
    (c : Crypto) (now code : ℕ) (r : Login) (u : User) (s : State)
    → ((check_backup_code c now code u.id s).0 ≡ ok tt)
      ↔ HasProof c now r u s.backup_codes (some code)
unfolding check_backup_code consume_backup_code
check_backup_code_iff c now code r u s =
    elim (Option-cases (find_where (matches c code u.id) s.backup_codes)) [
      | inl f ↦ (
        λ h. absurd (refuse-err now u.id s tt (rw (check_backup_code, f) at h)),
        λ (b, g). absurd (ground arith),
      )
      | inr (b, f) ↦
          let hit : matches c code u.id b ≡ true =
            find_where_sound (matches c code u.id) s.backup_codes b f in
          let there =
            any_of_count (unused b.id) s.backup_codes (
              count_of_find (matches c code u.id) (unused b.id) s.backup_codes b f
                (ground arith)) in
          (λ h. (b, f), λ g. rw (check_backup_code, f, consume_backup_code, there) refl)
    ]

second_factor_iff :
    (c : Crypto) (now : ℕ) (r : Login) (u : User) (s : State)
    → ((second_factor c now r u s).0 ≡ ok tt) ↔ NeedsProof c now r u s.backup_codes u.totp_enabled
unfolding second_factor
second_factor_iff c now r u s = elim (Bool-cases u.totp_enabled) [
  | inr off ↦ rw (second_factor, off) (λ h. tt, λ h. refl)
  | inl on ↦ elim (Option-cases r.backup_code) [
    | inl n ↦ rw (second_factor, on, n) (check_totp_iff c now r u s)
    | inr (code, n) ↦ rw (second_factor, on, n) (check_backup_code_iff c now code r u s)
  ]
]

abbrev session : User → Fresh → Session
session u f = record { user_id = u.id; refresh_token = f.raw }

admit_iff :
    (c : Crypto) (now : ℕ) (f : Fresh) (u : User) (p : Result (Unit {0}) × State)
    → ((admit c now f u p).0 ≡ ok (session u f)) ↔ (p.0 ≡ ok tt)
admit_iff c now f u (err e, s) = (λ h. absurd (ground arith), λ h. absurd (ground arith))
admit_iff c now f u (ok _, s) = (λ h. refl, λ h. refl)

pub check_credentials-admit :
    (c : Crypto) (now : ℕ) (f : Fresh) (r : Login) (u : User) (s : State)
    → c.compare r.password u.password_hash ≡ true
    → u.email_verified ≡ true
    → check_credentials c now f r u s ≡ admit c now f u (second_factor c now r u s)
unfolding check_credentials
check_credentials-admit c now f r u s right verified = rw (check_credentials, right, verified) refl

check_credentials_iff :
    (c : Crypto) (now : ℕ) (f : Fresh) (r : Login) (u : User) (s : State)
    → ((check_credentials c now f r u s).0 ≡ ok (session u f)) ↔ (
        (c.compare r.password u.password_hash ≡ true)
        × (u.email_verified ≡ true)
        × NeedsProof c now r u s.backup_codes u.totp_enabled)
unfolding check_credentials
check_credentials_iff c now f r u s = elim (Bool-cases (c.compare r.password u.password_hash)) [
  | inr wrong ↦ (
    λ h. absurd (refuse-err now u.id s (session u f) (rw (check_credentials, wrong) at h)),
    λ h. absurd (ground arith),
  )
  | inl right ↦ elim (Bool-cases u.email_verified) [
    | inr not_yet ↦ (λ h. absurd (ground arith), λ h. absurd (ground arith))
    | inl verified ↦
        let same = ap (λ p. p.0) (check_credentials-admit c now f r u s right verified) in
        let (out, back) = admit_iff c now f u (second_factor c now r u s) in
        let (there, proves) = second_factor_iff c now r u s in
        (λ h. (right, verified, there (out (sym same ∙ h))), λ (_, _, p). same ∙ back (proves p))
  ]
]

-- A login by the address of an account gives its session exactly when the account is neither suspended
-- nor locked, the password is right, the address is verified and, where the account has a second factor,
-- the login gives a code of the account that is not used yet, or else comes from a trusted device or with
-- a valid TOTP code.
pub login_iff :
    (c : Crypto) (now : ℕ) (f : Fresh) (r : Login) (s : State) (u : User)
    → find_where (with_email r.email) s.users ≡ some u
    → ((login c now f r s).0 ≡ ok (session u f)) ↔ (
        (u.is_suspended ≡ false)
        × (is_locked now u ≡ false)
        × (c.compare r.password u.password_hash ≡ true)
        × (u.email_verified ≡ true)
        × NeedsProof c now r u s.backup_codes u.totp_enabled)
unfolding login
login_iff c now f r s u found = elim (Bool-cases u.is_suspended) [
  | inl suspended ↦ (λ h. absurd (ground arith), λ h. absurd (ground arith))
  | inr active ↦ elim (Bool-cases (is_locked now u)) [
    | inl locked ↦ (λ h. absurd (ground arith), λ h. absurd (ground arith))
    | inr free ↦
        let same : (login c now f r s).0 ≡ (check_credentials c now f r u (unlock u s)).0 =
          rw (login, found, active, free) refl in
        let (out, back) = check_credentials_iff c now f r u (unlock u s) in
        let kept : (unlock u s).backup_codes ≡ s.backup_codes = ground arith in
        (
          λ h.
              let (right, verified, p) = out (sym same ∙ h) in
              (
                active,
                free,
                right,
                verified,
                subst (λ b. NeedsProof c now r u b u.totp_enabled) kept p,
              ),
          λ (_, _, right, verified, p).
              same
              ∙ back (
                right,
                verified,
                subst (λ b. NeedsProof c now r u b u.totp_enabled) (sym kept) p,
              ),
        )
  ]
]
