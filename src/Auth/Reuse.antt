-- ===== src/Auth/Reuse.antt =====
-- A refresh token that is shown twice, for `refresh` of backend/src/controllers/authController.js, where
-- the database answers its queries: it does not at this commit, since the first is malformed.
use cross_border_payment_app.Auth.{User, RefreshToken, State, Crypto, Fresh, with_id, new_token}
use cross_border_payment_app.Auth.Tokens.{
  with_hash, within_grace, rotating, read_token, begin_refresh, live_id, claim_row,
  insert_successor, claim_token, rotate, refresh, refresh_grace,
}
use cross_border_payment_app.Base.{
  ℕ, ◌+◌, ◌≤◌, ◌≡◌, refl, ◌∙◌, true, false, some, [], ◌∷◌, ◌++◌, arith, ltb, find_where,
  any_of_count, find_where-update_where, count_of_find, find_where-append, ok,
}

-- A request that gets as far as the row of its token.
refresh-read :
    (c : Crypto) (now raw : ℕ) (f : Fresh) (s : State) (t : RefreshToken) (u : User)
    → s.blacklisted (c.sha256 raw) ≤ now
    → find_where (with_hash (c.sha256 raw)) s.refresh_tokens ≡ some t
    → find_where (with_id t.user_id) s.users ≡ some u
    → begin_refresh c true now (some raw) s ≡ read_token now t u s
unfolding begin_refresh
refresh-read c now raw f s t u free found owned =
    let free' : ltb now (s.blacklisted (c.sha256 raw)) ≡ false = ground arith in
    rw (begin_refresh, free', found, owned) refl

pub refresh-rotate :
    (c : Crypto) (now raw : ℕ) (f : Fresh) (s : State) (t : RefreshToken) (u : User)
    → s.blacklisted (c.sha256 raw) ≤ now
    → find_where (with_hash (c.sha256 raw)) s.refresh_tokens ≡ some t
    → find_where (with_id t.user_id) s.users ≡ some u
    → t.revoked ≡ false
    → u.is_suspended ≡ false
    → now ≤ t.expires_at
    → refresh c true now f (some raw) s ≡ rotate c now f t s
unfolding refresh read_token
refresh-rotate c now raw f s t u free found owned live active fits =
    let fits' : ltb t.expires_at now ≡ false = ground arith in
    let same : read_token now t u s ≡ rotating t s = rw (read_token, live, active, fits') refl in
    rw (refresh, refresh-read c now raw f s t u free found owned, same) refl

-- What a rotation of a live token leaves.
pub rotate-claimed :
    (c : Crypto) (now raw : ℕ) (f : Fresh) (s : State) (t : RefreshToken)
    → find_where (with_hash (c.sha256 raw)) s.refresh_tokens ≡ some t
    → t.revoked ≡ false
    → ((rotate c now f t s).0 ≡ ok f.raw)
      × (find_where (with_hash (c.sha256 raw)) (rotate c now f t s).1.refresh_tokens
          ≡ some (claim_row now f.raw t))
      × ((rotate c now f t s).1.users ≡ s.users)
      × ((rotate c now f t s).1.blacklisted ≡ s.blacklisted)
unfolding rotate insert_successor claim_token
rotate-claimed c now raw f s t found live =
    let new = new_token c now f t.user_id t.family_id in
    let there = find_where-append (with_hash (c.sha256 raw)) s.refresh_tokens (new ∷ []) t found in
    let hit : live_id t.id t ≡ true = ground arith in
    let one = any_of_count (live_id t.id) (s.refresh_tokens ++ new ∷ []) (
      count_of_find (with_hash (c.sha256 raw)) (live_id t.id) (s.refresh_tokens ++ new ∷ []) t there
        hit) in
    let after =
      find_where-update_where (with_hash (c.sha256 raw)) (live_id t.id) (claim_row now f.raw)
        (s.refresh_tokens ++ new ∷ []) t (λ y. refl) there in
    rw (rotate, one) (refl, after ∙ rw hit refl, refl, refl)

-- A token within its grace gives its successor again.
refresh-grace :
    (c : Crypto) (now raw next : ℕ) (f : Fresh) (s : State) (t : RefreshToken) (u : User)
    → s.blacklisted (c.sha256 raw) ≤ now
    → find_where (with_hash (c.sha256 raw)) s.refresh_tokens ≡ some t
    → find_where (with_id t.user_id) s.users ≡ some u
    → t.revoked ≡ true
    → within_grace now t ≡ some next
    → refresh c true now f (some raw) s ≡ (ok next, s)
unfolding refresh read_token
refresh-grace c now raw next f s t u free found owned gone early =
    rw (refresh, refresh-read c now raw f s t u free found owned, read_token, gone, early) refl

-- A token that is rotated, and then shown again.
module _ (c : Crypto) (now later raw : ℕ) (f g : Fresh) (s : State) (t : RefreshToken) (u : User)
    (free : s.blacklisted (c.sha256 raw) ≤ now)
    (found : find_where (with_hash (c.sha256 raw)) s.refresh_tokens ≡ some t)
    (owned : find_where (with_id t.user_id) s.users ≡ some u) (live : t.revoked ≡ false)
    (active : u.is_suspended ≡ false) (fits : now ≤ t.expires_at) (after : now ≤ later) where
  first-claimed :
      ((refresh c true now f (some raw) s).0 ≡ ok f.raw)
      × (find_where (with_hash (c.sha256 raw)) (refresh c true now f (some raw) s).1.refresh_tokens
          ≡ some (claim_row now f.raw t))
      × (find_where (with_id t.user_id) (refresh c true now f (some raw) s).1.users ≡ some u)
      × ((refresh c true now f (some raw) s).1.blacklisted (c.sha256 raw) ≤ later)
  first-claimed =
      let (answer, there, users, listed) = rotate-claimed c now raw f s t found live in
      rw (refresh-rotate c now raw f s t u free found owned live active fits)
        (answer, there, rw users owned, rw listed (omega arith))

  -- Shown once more within 20 seconds, a token that was exchanged gives the same successor, and nothing
  -- changes.
  pub refresh_again :
      later ≤ now + refresh_grace
      → refresh c true later g (some raw) (refresh c true now f (some raw) s).1
        ≡ (ok f.raw, (refresh c true now f (some raw) s).1)
  unfolding within_grace
  refresh_again early =
      let (answer, there, owner, listed) = first-claimed in
      refresh-grace c later raw f.raw g (refresh c true now f (some raw) s).1
        (claim_row now f.raw t) u listed there owner refl (ground arith)
