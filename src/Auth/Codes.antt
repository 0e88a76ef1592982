-- ===== src/Auth/Codes.antt =====
-- Backup codes of `login` in backend/src/controllers/authController.js are used once.
use cross_border_payment_app.Auth.{
  is_locked, with_email, refuse, User, BackupCode, State, Crypto, Fresh,
}
use cross_border_payment_app.Auth.Login.{
  unlock, matches, login, second_factor, check_backup_code, consume_backup_code, check_credentials,
  admit, Login, unused, use_code,
}
use cross_border_payment_app.Auth.Lockout.{login-active}
use cross_border_payment_app.Base.{
  ℕ, ◌≡◌, refl, ap, ◌∙◌, ◌≢◌, inl, inr, false, List, [], ◌∷◌, arith, Bool-cases, Option-cases,
  find_where, update_where, any, Result, ok, err,
}

-- A backup code that was used, or is not there
abbrev pub IsSpent : ℕ → State → Type 0
IsSpent i s = any (unused i) s.backup_codes ≡ false

spent-update :
    (i j : ℕ) (bs : List BackupCode)
    → any (unused i) bs ≡ false
    → any (unused i) (update_where (unused j) use_code bs) ≡ false
spent-update i j [] h = refl
spent-update i j (b ∷ bs) h = ground (arith, spent-update i j bs)

spent_self :
    (i : ℕ) (bs : List BackupCode) → any (unused i) (update_where (unused i) use_code bs) ≡ false
spent_self i [] = refl
spent_self i (b ∷ bs) = ground (arith, spent_self i bs)

consume-IsSpent :
    (now i j user : ℕ) (s : State) → IsSpent i s → IsSpent i (consume_backup_code now j user s).1
unfolding consume_backup_code refuse
consume-IsSpent now i j user s h = elim (Bool-cases (any (unused j) s.backup_codes)) [
  | inl e ↦ rw (consume_backup_code, e) (spent-update i j s.backup_codes h)
  | inr e ↦ rw (consume_backup_code, e) h
]

check_backup_code-IsSpent :
    (c : Crypto) (now code i user : ℕ) (s : State)
    → IsSpent i s
    → IsSpent i (check_backup_code c now code user s).1
unfolding check_backup_code refuse
check_backup_code-IsSpent c now code i user s h =
    elim (Option-cases (find_where (matches c code user) s.backup_codes)) [
      | inl f ↦ rw (check_backup_code, f) h
      | inr (b, f) ↦ rw (check_backup_code, f) (consume-IsSpent now i b.id user s h)
    ]

second_factor-IsSpent :
    (c : Crypto) (now i : ℕ) (r : Login) (u : User) (s : State)
    → IsSpent i s
    → IsSpent i (second_factor c now r u s).1
unfolding second_factor
second_factor-IsSpent c now i r u s h = elim (Bool-cases u.totp_enabled) [
  | inr off ↦ rw (second_factor, off) h
  | inl on ↦ elim (Option-cases r.backup_code) [
    | inl n ↦ rw (second_factor, on, n) h
    | inr (code, n) ↦ rw (second_factor, on, n) (check_backup_code-IsSpent c now code i u.id s h)
  ]
]

admit-IsSpent :
    (c : Crypto) (now i : ℕ) (f : Fresh) (u : User) (p : Result (Unit {0}) × State)
    → IsSpent i p.1
    → IsSpent i (admit c now f u p).1
admit-IsSpent c now i f u (err e, s) h = h
admit-IsSpent c now i f u (ok _, s) h = h

check_credentials-IsSpent :
    (c : Crypto) (now i : ℕ) (f : Fresh) (r : Login) (u : User) (s : State)
    → IsSpent i s
    → IsSpent i (check_credentials c now f r u s).1
unfolding check_credentials refuse
check_credentials-IsSpent c now i f r u s h =
    elim (Bool-cases (c.compare r.password u.password_hash)) [
      | inr wrong ↦ rw (check_credentials, wrong) h
      | inl right ↦ elim (Bool-cases u.email_verified) [
        | inr not_yet ↦ rw (check_credentials, right, not_yet) h
        | inl verified ↦
            rw (check_credentials, right, verified)
              (admit-IsSpent c now i f u (second_factor c now r u s)
                (second_factor-IsSpent c now i r u s h))
      ]
    ]

login-IsSpent :
    (c : Crypto) (now i : ℕ) (f : Fresh) (r : Login) (s : State)
    → IsSpent i s
    → IsSpent i (login c now f r s).1
unfolding login
login-IsSpent c now i f r s h = elim (Option-cases (find_where (with_email r.email) s.users)) [
  | inl missing ↦ rw (login, missing) h
  | inr (u, found) ↦ elim (Bool-cases u.is_suspended) [
    | inl suspended ↦ rw (login, found, suspended) h
    | inr active ↦ elim (Bool-cases (is_locked now u)) [
      | inl locked ↦ rw (login, found, active, locked) h
      | inr free ↦
          let kept : (unlock u s).backup_codes ≡ s.backup_codes = ground arith in
          rw (login-active c now f r s u found active free)
            (check_credentials-IsSpent c now i f r u (unlock u s) (ap (any (unused i)) kept ∙ h))
    ]
  ]
]

-- Logins, and the updates with which logins under way use the code that they have found, in any order.
pub data Step (s : State) : State → Type 0 where
  signs_in : (c : Crypto) (now : ℕ) (f : Fresh) (r : Login) → Step s (login c now f r s).1
  uses : (now i user : ℕ) → Step s (consume_backup_code now i user s).1

pub data Reach (s : State) : State → Type 0 where
  here : Reach s s
  next : {t u : State} → Reach s t → Step t u → Reach s u

Reach-IsSpent : {s t : State} (i : ℕ) → Reach s t → IsSpent i s → IsSpent i t
Reach-IsSpent i here h = h
Reach-IsSpent i (next {t} {u} r (signs_in c now f q)) h =
    login-IsSpent c now i f q t (Reach-IsSpent i r h)
Reach-IsSpent i (next {t} {u} r (uses now j user)) h =
    consume-IsSpent now i j user t (Reach-IsSpent i r h)

consumed-IsSpent :
    (now i user : ℕ) (s : State)
    → (consume_backup_code now i user s).0 ≡ ok tt
    → IsSpent i (consume_backup_code now i user s).1
unfolding consume_backup_code refuse
consumed-IsSpent now i user s h = elim (Bool-cases (any (unused i) s.backup_codes)) [
  | inl e ↦ rw (consume_backup_code, e) (spent_self i s.backup_codes)
  | inr e ↦ rw (consume_backup_code, e) e
]

consume-refused :
    (now i user : ℕ) (s : State) → IsSpent i s → (consume_backup_code now i user s).0 ≢ ok tt
unfolding consume_backup_code refuse
consume-refused now i user s spent h = ground arith

-- Where the update of a backup code lets a login through, the code lets no other login through
-- afterwards, not even one that had found it before, however logins are interleaved.
pub consume_backup_code-once :
    (now later i user rival : ℕ) (s t : State)
    → (consume_backup_code now i user s).0 ≡ ok tt
    → Reach (consume_backup_code now i user s).1 t
    → (consume_backup_code later i rival t).0 ≢ ok tt
consume_backup_code-once now later i user rival s t first r second =
    let spent = Reach-IsSpent i r (consumed-IsSpent now i user s first) in
    consume-refused later i rival t spent second
