-- ===== src/Idempotency.antt =====
-- Idempotency keys: backend/src/middleware/idempotency.js, over the cache of backend/src/utils/cache.js
-- and the table idempotency_keys. Times are in seconds; keys, users, hashes of bodies, and bodies of
-- responses stand as numbers.
pub mod Replays
mod Examples
use cross_border_payment_app.Base.{
  ℕ, ◌+◌, Bool, true, false, ◌&&◌, not, Option, none, some, List, ◌∷◌, ltb, leb, ◌==◌,
  if◌then◌else◌, find_where, select_where, any,
}

pub record Response : Type 0 where
  pub status_code : ℕ
  pub body : ℕ

-- The entry of the cache under `idem:payment:<key>`.
pub record Entry : Type 0 where
  pub request_hash : ℕ
  pub response : Response
  pub expires_at : ℕ

pub record Row : Type 0 where
  pub key : ℕ
  pub user_id : ℕ
  pub request_hash : ℕ
  pub response : Response
  pub created_at : ℕ

-- `cache_up` and `database_up` say whether the cache and the database answer: a failing one reads as
-- empty, and a write to it is lost.
pub record Store : Type 0 where
  pub cache_up : Bool
  pub database_up : Bool
  pub in_flight : ℕ → Option ℕ
  pub cached : ℕ → Option Entry
  pub rows : List Row

pub record Request : Type 0 where
  pub key : Option ℕ
  pub well_formed : Bool
  pub user_id : ℕ
  pub request_hash : ℕ

abbrev pub ttl_seconds : ℕ
ttl_seconds = 86400

abbrev pub in_flight_ttl : ℕ
in_flight_ttl = 30

abbrev pub put {ℓ} : {A : Type ℓ} → ℕ → A → (ℕ → A) → ℕ → A
put k v m j = if j == k then v else m j

-- `cache.get` of the marker, and of the response
abbrev pub is_in_flight : ℕ → ℕ → Store → Bool
is_in_flight now key s = elim (s.in_flight key) [ none ↦ false | some e ↦ s.cache_up && ltb now e ]

abbrev pub live : ℕ → Option Entry → Option Entry
live now none = none
live now (some e) = if ltb now e.expires_at then some e else none

abbrev pub lookup_cached : ℕ → ℕ → Store → Option Entry
lookup_cached now key s = if s.cache_up then live now (s.cached key) else none

abbrev pub is_row : ℕ → ℕ → Row → Bool
is_row key user r = (r.key == key) && (r.user_id == user)

abbrev pub lookup_row : ℕ → ℕ → Store → Option Row
lookup_row key user s = if s.database_up then find_where (is_row key user) s.rows else none

-- What the middleware does with a request: it answers 400 or 409, replays a response, or calls `next`,
-- with the key under which the response will be stored.
pub data Decision : Type 0 where
  pass : Decision
  invalid_key in_progress reused : Decision
  replay : Response → Decision
  run : ℕ → Decision

abbrev pub mark_in_flight : ℕ → ℕ → Store → Store
mark_in_flight now key s =
    if s.cache_up
    then record s { in_flight = put key (some (now + in_flight_ttl)) s.in_flight }
    else s

-- A row younger than the time to live is kept.
abbrev pub is_young : ℕ → Row → Bool
is_young now r = leb now (r.created_at + ttl_seconds)

abbrev pub purge : ℕ → Store → Store
purge now s = if s.database_up then record s { rows = select_where (is_young now) s.rows } else s

abbrev pub replay_if : Bool → Response → Decision
replay_if true r = replay r
replay_if false r = reused

-- Past the checks of the key and of the marker: the cache first, then the table.
pub decide : ℕ → ℕ → ℕ → ℕ → Store → Decision × Store
decide now key user hash s = elim (lookup_cached now key s) [
  | some e ↦ (replay_if (e.request_hash == hash) e.response, s)
  | none ↦ elim (lookup_row key user s) [
    | some r ↦ (replay_if (r.request_hash == hash) r.response, s)
    | none ↦ (run key, purge now (mark_in_flight now key s))
  ]
]

pub idempotency : ℕ → Request → Store → Decision × Store
unfolding decide
idempotency now q s = elim q.key [
  | none ↦ (pass, s)
  | some key ↦
      if q.well_formed
      then (if is_in_flight now key s
          then (in_progress, s)
          else decide now key q.user_id q.request_hash s)
      else (invalid_key, s)
]

abbrev pub clear_in_flight : ℕ → Store → Store
clear_in_flight key s = if s.cache_up then record s { in_flight = put key none s.in_flight } else s

abbrev pub cache_response : ℕ → ℕ → Entry → Store → Store
cache_response now key e s =
    if s.cache_up then record s { cached = put key (some e) s.cached } else s

-- `INSERT … ON CONFLICT (key, user_id) DO NOTHING`
abbrev pub insert_row : Row → Store → Store
insert_row r s =
    if s.database_up && not (any (is_row r.key r.user_id) s.rows)
    then record s { rows = r ∷ s.rows }
    else s

-- The wrapped `res.json`: a response below 500 is stored; the marker is cleared in any case.
pub respond : ℕ → ℕ → ℕ → ℕ → Response → Store → Store
respond now key user hash r s =
    let cleared = clear_in_flight key s in
    if ltb r.status_code 500
    then insert_row
        (record { key = key; user_id = user; request_hash = hash; response = r; created_at = now })
        (cache_response now key
          (record { request_hash = hash; response = r; expires_at = now + ttl_seconds }) cleared)
    else cleared

-- A request from beginning to end: the decision, the response that is sent by the handler or replayed,
-- and the store. The handler answers at `finished`.
pub handle : ℕ → ℕ → Response → Request → Store → Decision × Store
unfolding idempotency respond
handle now finished answer q s =
    let (d, s1) = idempotency now q s in
    elim d [
      | run key ↦ (run key, respond finished key q.user_id q.request_hash answer s1)
      | stopped ↦ (stopped, s1)
    ]
