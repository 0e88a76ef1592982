-- ===== src/Auth/TwoFactor/Secrets.antt =====
-- What the handlers of second factors in backend/src/controllers/authController.js leave of a secret, and
-- of backup codes.
use mathlib.Core.Path.{subst}
use cross_border_payment_app.Auth.{update_users, with_id, State, Crypto, User}
use cross_border_payment_app.Auth.TwoFactor.{
  set_secret, enable, disable, replace_codes, verify_2fa, setup_2fa, regenerate_backup_codes,
  disable_2fa,
}
use cross_border_payment_app.Base.{
  ℕ, ◌≡◌, refl, sym, ap, ◌∙◌, ◌⊎◌, inl, inr, true, false, some, List, arith, ◌==◌, Bool-cases,
  Option-cases, find_where, find_where_sound, find_where-update_where,
}

-- An account whose second factor is on, with its secret
abbrev pub HasSecret : ℕ → ℕ → ℕ → State → Type 0
HasSecret i x h s =
    (u : User) × (find_where (with_id i) s.users ≡ some u)
    × (u.totp_enabled ≡ true)
    × (u.totp_secret ≡ some x)
    × (u.password_hash ≡ h)

-- Requests about second factors, of any users; those that turn one off do not know the password `h`.
pub data Step (i h : ℕ) (s : State) : State → Type 0 where
  sets_up : (user secret : ℕ) → Step i h s (setup_2fa user secret s).1
  verifies :
      (c : Crypto) (now user code : ℕ) (codes : List (ℕ × ℕ))
      → Step i h s (verify_2fa c now user code codes s).1
  regenerates :
      (c : Crypto) (now user code : ℕ) (codes : List (ℕ × ℕ))
      → Step i h s (regenerate_backup_codes c now user code codes s).1
  turns_off :
      (c : Crypto) (user password : ℕ)
      → ((user == i) ≡ false) ⊎ (c.compare password h ≡ false)
      → Step i h s (disable_2fa c user password s).1

pub data Reach (i h : ℕ) (s : State) : State → Type 0 where
  here : Reach i h s s
  next : {t u : State} → Reach i h s t → Step i h t u → Reach i h s u

update-HasSecret :
    (i x h j : ℕ) (f : User → User) (s : State)
    → ((u : User) → (f u).id ≡ u.id)
    → ((u : User)
        → u.totp_enabled ≡ true
        → u.totp_secret ≡ some x
        → u.password_hash ≡ h
        → (j == i) ≡ true
        → ((f u).totp_enabled ≡ true) × ((f u).totp_secret ≡ some x) × ((f u).password_hash ≡ h))
    → HasSecret i x h s
    → HasSecret i x h (update_users j f s)
update-HasSecret i x h j f s same keeps (u, found, on, secret, hash) =
    let mine : with_id i u ≡ true = find_where_sound (with_id i) s.users u found in
    let there =
      find_where-update_where (with_id i) (with_id j) f s.users u (λ y. ap (λ k. k == i) (same y))
        found in
    elim (Bool-cases (with_id j u)) [
      | inl hit ↦
          let (a, b, c) = keeps u on secret hash (ground arith) in
          (f u, there ∙ rw hit refl, a, b, c)
      | inr miss ↦ (u, there ∙ rw miss refl, on, secret, hash)
    ]

the_same :
    (i user : ℕ) (s : State) (u w : User)
    → find_where (with_id user) s.users ≡ some u
    → find_where (with_id i) s.users ≡ some w
    → user ≡ i
    → u ≡ w
the_same i user s u w found there eq =
    let found' = subst (λ k. find_where (with_id k) s.users ≡ some u) eq found in
    let both : some u ≡ some w = sym found' ∙ there in ground (arith, both)

setup-HasSecret :
    (i x h user secret : ℕ) (s : State)
    → HasSecret i x h s
    → HasSecret i x h (setup_2fa user secret s).1
unfolding setup_2fa
setup-HasSecret i x h user secret s v = elim (Option-cases (find_where (with_id user) s.users)) [
  | inl missing ↦ rw (setup_2fa, missing) v
  | inr (u, found) ↦ elim (Bool-cases u.totp_enabled) [
    | inl on ↦ rw (setup_2fa, found, on) v
    | inr off ↦
        rw (setup_2fa, found, off)
          (elim (Bool-cases (user == i)) [
            | inl mine ↦
                let (w, there, on, _, _) = v in
                let known =
                  ap (λ z. z.totp_enabled) (the_same i user s u w found there (ground arith)) in
                absurd (ground arith)
            | inr other_user ↦
                update-HasSecret i x h user (set_secret secret) s (λ w. refl)
                  (λ w a b c hit. absurd (ground arith)) v
          ])
  ]
]

replace-HasSecret :
    (c : Crypto) (i x h user : ℕ) (codes : List (ℕ × ℕ)) (s : State)
    → HasSecret i x h s
    → HasSecret i x h (replace_codes c user codes s)
replace-HasSecret c i x h user codes s v = v

verify-HasSecret :
    (c : Crypto) (i x h now user code : ℕ) (codes : List (ℕ × ℕ)) (s : State)
    → HasSecret i x h s
    → HasSecret i x h (verify_2fa c now user code codes s).1
unfolding verify_2fa
verify-HasSecret c i x h now user code codes s v =
    elim (Option-cases (find_where (with_id user) s.users)) [
      | inl missing ↦ rw (verify_2fa, missing) v
      | inr (u, found) ↦ elim (Option-cases u.totp_secret) [
        | inl unset ↦ rw (verify_2fa, found, unset) v
        | inr (y, set) ↦ elim (Bool-cases (c.totp now (some y) code)) [
          | inr wrong ↦ rw (verify_2fa, found, set, wrong) v
          | inl right ↦
              rw (verify_2fa, found, set, right)
                (update-HasSecret i x h user enable s (λ w. refl) (λ w a b d hit. (refl, b, d)) v)
        ]
      ]
    ]

regenerate-HasSecret :
    (c : Crypto) (i x h now user code : ℕ) (codes : List (ℕ × ℕ)) (s : State)
    → HasSecret i x h s
    → HasSecret i x h (regenerate_backup_codes c now user code codes s).1
unfolding regenerate_backup_codes
regenerate-HasSecret c i x h now user code codes s v =
    elim (Option-cases (find_where (with_id user) s.users)) [
      | inl missing ↦ rw (regenerate_backup_codes, missing) v
      | inr (u, found) ↦ elim (Bool-cases u.totp_enabled) [
        | inr off ↦ rw (regenerate_backup_codes, found, off) v
        | inl on ↦ elim (Bool-cases (c.totp now u.totp_secret code)) [
          | inr wrong ↦ rw (regenerate_backup_codes, found, on, wrong) v
          | inl right ↦ rw (regenerate_backup_codes, found, on, right) v
        ]
      ]
    ]

disable-HasSecret :
    (c : Crypto) (i x h user password : ℕ) (s : State)
    → ((user == i) ≡ false) ⊎ (c.compare password h ≡ false)
    → HasSecret i x h s
    → HasSecret i x h (disable_2fa c user password s).1
unfolding disable_2fa
disable-HasSecret c i x h user password s unknown v =
    elim (Option-cases (find_where (with_id user) s.users)) [
      | inl missing ↦ rw (disable_2fa, missing) v
      | inr (u, found) ↦ elim (Bool-cases (c.compare password u.password_hash)) [
        | inr wrong ↦ rw (disable_2fa, found, wrong) v
        | inl right ↦
            rw (disable_2fa, found, right)
              (elim (Bool-cases (user == i)) [
                | inr other_user ↦
                    update-HasSecret i x h user disable s (λ w. refl)
                      (λ w a b d hit. absurd (ground arith)) v
                | inl mine ↦
                    let (w, there, _, _, hash) = v in
                    let known =
                      ap (λ z. z.password_hash)
                        (the_same i user s u w found there (ground arith)) in
                    let matches_h : c.compare password h ≡ true = rw (← hash, ← known) right in
                    absurd
                      (elim unknown [ inl differs ↦ ground arith | inr refused ↦ ground arith ])
              ])
      ]
    ]

-- Once the second factor of an account is on, requests that do not know its password neither turn it off
-- nor change its secret, whatever they are and whoever makes them.
pub Reach-HasSecret :
    (i x h : ℕ) {s t : State} → Reach i h s t → HasSecret i x h s → HasSecret i x h t
Reach-HasSecret i x h here v = v
Reach-HasSecret i x h (next {t} {u} r (sets_up user secret)) v =
    setup-HasSecret i x h user secret t (Reach-HasSecret i x h r v)
Reach-HasSecret i x h (next {t} {u} r (verifies c now user code codes)) v =
    verify-HasSecret c i x h now user code codes t (Reach-HasSecret i x h r v)
Reach-HasSecret i x h (next {t} {u} r (regenerates c now user code codes)) v =
    regenerate-HasSecret c i x h now user code codes t (Reach-HasSecret i x h r v)
Reach-HasSecret i x h (next {t} {u} r (turns_off c user password unknown)) v =
    disable-HasSecret c i x h user password t unknown (Reach-HasSecret i x h r v)
