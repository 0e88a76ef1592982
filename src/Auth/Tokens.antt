-- ===== src/Auth/Tokens.antt =====
-- `refresh` and `logout` of backend/src/controllers/authController.js. A refresh is split where another
-- request may come between: it reads the token, inserts
-- the successor, and claims the token. The query with which it reads lacks
-- a comma at this commit, so that the database refuses it; `answered` says whether it is answered.
use cross_border_payment_app.Auth.{
  User, RefreshToken, State, Crypto, Fresh, with_id, new_token, insert_token,
}
use cross_border_payment_app.Base.{
  ℕ, ◌+◌, ◌-◌, ◌*◌, ◌/◌, Bool, true, ◌&&◌, not, Option, none, some, ltb, leb, ◌==◌, if◌then◌else◌,
  find_where, select_where, update_where, any, Result, with_status, with_code, plain_error, ok, err,
}

abbrev pub refresh_grace : ℕ
refresh_grace = 20000

abbrev pub with_hash : ℕ → RefreshToken → Bool
with_hash h t = t.token_hash == h

abbrev pub with_token_id : ℕ → RefreshToken → Bool
with_token_id i t = t.id == i

abbrev pub in_family : ℕ → RefreshToken → Bool
in_family f t = t.family_id == f

-- The successor of a token that was rotated at most 20 seconds ago.
unfoldable pub within_grace : ℕ → RefreshToken → Option ℕ
within_grace now t = elim t.revoked_at [
  | none ↦ none
  | some at_time ↦ elim t.replaced_by [
    | none ↦ none
    | some raw ↦ if leb (now - at_time) refresh_grace then some raw else none
  ]
]

abbrev pub revoked_row : ℕ → RefreshToken → RefreshToken
revoked_row now t = record t {
  revoked = true;
  replaced_by = none;
  revoked_at = elim t.revoked_at [ none ↦ some now | some before ↦ some before ];
}

unfoldable pub revoke_family_for_reuse : ℕ → RefreshToken → State → Result ℕ × State
revoke_family_for_reuse now t s = (
  err (with_status 401),
  record s {
    refresh_tokens = update_where (in_family t.family_id) (revoked_row now) s.refresh_tokens;
  },
)

-- A refresh ends with its answer, or goes on to rotate the token that it has read.
pub data Begun : Type 0 where
  done : Result ℕ → State → Begun
  rotating : RefreshToken → State → Begun

abbrev pub ended : Result ℕ × State → Begun
ended (r, s) = done r s

abbrev pub delete_where : (RefreshToken → Bool) → State → State
delete_where p s = record s { refresh_tokens = select_where (λ t. not (p t)) s.refresh_tokens }

-- What is done with the token that was read.
unfoldable pub read_token : ℕ → RefreshToken → User → State → Begun
unfolding within_grace revoke_family_for_reuse
read_token now t u s =
    if t.revoked
    then elim (within_grace now t) [
      | some raw ↦ done (ok raw) s
      | none ↦ ended (revoke_family_for_reuse now t s)
    ]
    else if u.is_suspended
    then done (err (with_code 403 "ACCOUNT_SUSPENDED")) s
    else if ltb t.expires_at now
    then done (err (with_status 401)) (delete_where (with_token_id t.id) s)
    else rotating t s

-- `raw` is the token in the cookie.
unfoldable pub begin_refresh : Crypto → Bool → ℕ → Option ℕ → State → Begun
unfolding read_token
begin_refresh c answered now none s = done (err (with_status 401)) s
begin_refresh c answered now (some raw) s =
    if ltb now (s.blacklisted (c.sha256 raw))
    then done (err (with_status 401)) s
    else if not answered
    then done (err plain_error) s
    else elim (find_where (with_hash (c.sha256 raw)) s.refresh_tokens) [
      | none ↦ done (err (with_status 401)) s
      | some t ↦ elim (find_where (with_id t.user_id) s.users) [
        | none ↦ done (err (with_status 401)) s
        | some u ↦ read_token now t u s
      ]
    ]

abbrev pub live_id : ℕ → RefreshToken → Bool
live_id i t = t.id == i && not t.revoked

abbrev pub claim_row : ℕ → ℕ → RefreshToken → RefreshToken
claim_row now raw t = record t { revoked = true; revoked_at = some now; replaced_by = some raw }

-- Another request has rotated the token first: its successor is handed out, or the family is revoked.
abbrev pub lost_race : ℕ → RefreshToken → State → Result ℕ × State
lost_race now t s = elim (find_where (with_hash t.token_hash) s.refresh_tokens) [
  | none ↦ revoke_family_for_reuse now t s
  | some w ↦ elim (within_grace now w) [
    | some raw ↦ (ok raw, s)
    | none ↦ revoke_family_for_reuse now t s
  ]
]

-- The INSERT of the successor, which other requests may see before the token is claimed
unfoldable pub insert_successor : Crypto → ℕ → Fresh → RefreshToken → State → State
insert_successor c now f t s = insert_token (new_token c now f t.user_id t.family_id) s

-- The UPDATE that claims the token where it is not yet revoked, and what follows; the loser of a race
-- deletes its successor again. `updated` is the answer of the database: where it is an error the
-- successor stays beside the token.
unfoldable pub claim_token : Result (Unit {0}) → ℕ → Fresh → RefreshToken → State → Result ℕ × State
unfolding within_grace revoke_family_for_reuse
claim_token (err e) now f t s' = (err e, s')
claim_token (ok _) now f t s' =
    if any (live_id t.id) s'.refresh_tokens
    then (
      ok f.raw,
      record s' {
        refresh_tokens = update_where (live_id t.id) (claim_row now f.raw) s'.refresh_tokens;
      },
    )
    else lost_race now t (delete_where (with_token_id f.token_id) s')

-- The two, with nothing between them, and the database answering
unfoldable pub rotate : Crypto → ℕ → Fresh → RefreshToken → State → Result ℕ × State
unfolding insert_successor claim_token
rotate c now f t s = claim_token (ok tt) now f t (insert_successor c now f t s)

abbrev pub finish : Crypto → ℕ → Fresh → Begun → Result ℕ × State
finish c now f (done r s) = (r, s)
finish c now f (rotating t s) = rotate c now f t s

unfoldable pub refresh : Crypto → Bool → ℕ → Fresh → Option ℕ → State → Result ℕ × State
unfolding begin_refresh rotate
refresh c answered now f cookie s = finish c now f (begin_refresh c answered now cookie s)

-- The cookie's family is deleted, and its token refused for as long as it would have lived.
unfoldable pub logout : Crypto → ℕ → Option ℕ → State → State
logout c now none s = s
logout c now (some raw) s =
    let h = c.sha256 raw in
    elim (find_where (with_hash h) s.refresh_tokens) [
      | none ↦ s
      | some t ↦
          let s' = delete_where (in_family t.family_id) s in
          let seconds = (t.expires_at - now) / 1000 in
          if seconds == 0 then s' else record s' {
            blacklisted = λ j. if j == h then now + seconds * 1000 else s'.blacklisted j;
          }
    ]
