-- ===== src/Auth/Resets.antt =====
-- What a reset of the password leaves, for backend/src/controllers/authController.js.
use cross_border_payment_app.Auth.Reuse.{refresh-rotate, rotate-claimed}
use cross_border_payment_app.Auth.Tokens.{refresh, with_hash}
use cross_border_payment_app.Auth.{
  update_users, User, State, Crypto, Fresh, ResetToken, RefreshToken, with_id,
}
use cross_border_payment_app.Auth.Passwords.{
  reset_password, change_password, accepts, is_open, use_token, set_password,
}
use cross_border_payment_app.Base.{
  ℕ, ◌≤◌, ◌≡◌, refl, ◌∙◌, inl, inr, Bool, true, false, not, none, some, List, [], ◌∷◌, arith, ◌==◌,
  if◌then◌else◌, Bool-cases, Option-cases, find_where, select_where, count_where, update_where,
  find_where_sound, All, find_where-update_where, with_status, ok, err,
}

abbrev pub of_user : ℕ → RefreshToken → Bool
of_user user t = t.user_id == user

none_left :
    (user : ℕ) (ts : List RefreshToken)
    → count_where (of_user user) (select_where (λ r. not (r.user_id == user)) ts) ≡ 0
none_left user [] = refl
none_left user (t ∷ ts) = ground (arith, none_left user ts)

-- Once the open tokens of a user are used, none of them is accepted.
refused :
    (now later h user : ℕ) (ts : List ResetToken)
    → All (λ x. x.token_hash ≡ h → x.user_id ≡ user) ts
    → find_where (accepts later h) (update_where (is_open user) use_token ts) ≡ none
refused now later h user [] one = refl
refused now later h user (t ∷ ts) (a, one) = elim (Bool-cases (t.token_hash == h)) [
  | inl e ↦
      let mine : t.user_id ≡ user = a (ground arith) in
      ground (arith, refused now later h user ts one)
  | inr e ↦ ground (arith, refused now later h user ts one)
]

reset_password-committed :
    (c : Crypto) (now raw password : ℕ) (s : State) (t : ResetToken)
    → find_where (accepts now (c.sha256 raw)) s.reset_tokens ≡ some t
    → reset_password c now (some raw) password (ok tt) s ≡ (
      ok tt,
      record s {
        users = update_where (with_id t.user_id) (set_password (c.hash password)) s.users;
        reset_tokens = update_where (is_open t.user_id) use_token s.reset_tokens;
        refresh_tokens = select_where (λ r. not (r.user_id == t.user_id)) s.refresh_tokens;
      },
    )
unfolding reset_password
reset_password-committed c now raw password s t found = rw (reset_password, found) refl

-- A reset that is carried out sets the password, leaves no refresh token of the user, and uses its token
-- up: at no later time is it accepted again, where the hash of a token is that of one user's.
pub reset_password-once :
    (c : Crypto) (now later raw password again : ℕ) (s : State) (t : ResetToken) (u : User)
    → find_where (accepts now (c.sha256 raw)) s.reset_tokens ≡ some t
    → find_where (with_id t.user_id) s.users ≡ some u
    → All (λ x. x.token_hash ≡ c.sha256 raw → x.user_id ≡ t.user_id) s.reset_tokens
    → let s' = (reset_password c now (some raw) password (ok tt) s).1 in
      (find_where (with_id t.user_id) s'.users ≡ some (set_password (c.hash password) u))
      × (count_where (of_user t.user_id) s'.refresh_tokens ≡ 0)
      × ((reset_password c later (some raw) again (ok tt) s').0 ≡ err (with_status 400))
unfolding reset_password
reset_password-once c now later raw password again s t u found owned one =
    let mine : with_id t.user_id u ≡ true = find_where_sound (with_id t.user_id) s.users u owned in
    let set =
      find_where-update_where (with_id t.user_id) (with_id t.user_id)
        (set_password (c.hash password)) s.users u (λ y. refl) owned in
    let closed = refused now later (c.sha256 raw) t.user_id s.reset_tokens one in
    rw (reset_password-committed c now raw password s t found)
      (set ∙ rw mine refl, none_left t.user_id s.refresh_tokens, rw (reset_password, closed) refl)

-- A refresh token that was issued before a change of the password still gives a new session after it.
pub refresh-change_password :
    (c : Crypto) (now raw user current new : ℕ) (f : Fresh) (s : State) (t : RefreshToken)
    (u : User)
    → s.blacklisted (c.sha256 raw) ≤ now
    → find_where (with_hash (c.sha256 raw)) s.refresh_tokens ≡ some t
    → find_where (with_id t.user_id) s.users ≡ some u
    → t.revoked ≡ false
    → u.is_suspended ≡ false
    → now ≤ t.expires_at
    → (refresh c true now f (some raw) (change_password c user current new s).1).0 ≡ ok f.raw
unfolding change_password
refresh-change_password c now raw user current new f s t u free found owned live active fits =
    elim (Option-cases (find_where (with_id user) s.users)) [
      | inl missing ↦ rw (change_password, missing) still
      | inr (v, there) ↦ elim (Bool-cases (c.compare current v.password_hash)) [
        | inr wrong ↦ rw (change_password, there, wrong) still
        | inl right ↦ rw (change_password, there, right) changed
      ]
    ]
  where
    accepted :
        (s' : State) (w : User)
        → s'.refresh_tokens ≡ s.refresh_tokens
        → s'.blacklisted ≡ s.blacklisted
        → find_where (with_id t.user_id) s'.users ≡ some w
        → w.is_suspended ≡ false
        → (refresh c true now f (some raw) s').0 ≡ ok f.raw
    accepted s' w tokens listed owned' active' =
        let found' : find_where (with_hash (c.sha256 raw)) s'.refresh_tokens ≡ some t =
          rw tokens found in
        let free' : s'.blacklisted (c.sha256 raw) ≤ now = rw listed free in
        let answer = rotate-claimed c now raw f s' t found' live in
        rw (refresh-rotate c now raw f s' t w free' found' owned' live active' fits) answer.0

    still : (refresh c true now f (some raw) s).0 ≡ ok f.raw
    still = accepted s u refl refl owned active

    changed :
        (refresh c true now f (some raw) (update_users user (set_password (c.hash new)) s)).0
        ≡ ok f.raw
    changed =
        accepted (update_users user (set_password (c.hash new)) s)
          (if with_id user u then set_password (c.hash new) u else u) refl refl
          (find_where-update_where (with_id t.user_id) (with_id user) (set_password (c.hash new))
            s.users u (λ y. refl) owned)
          (ground arith)
