-- ===== src/Lock.antt =====
-- The distributed lock: backend/src/utils/distributedLock.js, over the keys of Redis. Times are in
-- seconds. A key holds a value until it expires; the Lua scripts run atomically.
pub mod Ownership
pub mod Renewal
mod Examples
use cross_border_payment_app.Base.{
  ℕ, ◌+◌, Bool, true, false, ◌||◌, not, Option, none, some, List, [], ◌∷◌, ltb, ◌==◌, if◌then◌else◌,
  Error, Result, with_code, ok, err,
}

pub record Entry : Type 0 where
  pub value : ℕ
  pub expires_at : ℕ

abbrev pub Redis : Type 0
Redis = ℕ → Option Entry

-- An expired key is gone.
abbrev pub alive : ℕ → Option Entry → Option Entry
alive now none = none
alive now (some e) = if ltb now e.expires_at then some e else none

abbrev pub put : ℕ → Option Entry → Redis → Redis
put k v r j = if j == k then v else r j

-- Redis as the module sees it: not configured, failing, or answering.
pub data Client : Type 0 where
  single_instance : Client
  unavailable : Client
  connected : Redis → Client

abbrev pub lock_unavailable : Error
lock_unavailable = with_code 503 "LOCK_UNAVAILABLE"

-- `SET key value EX ttl NX`
pub acquire_lock : ℕ → ℕ → ℕ → ℕ → Bool → Client → Result Bool × Client
acquire_lock now key ttl value throw_on_error single_instance = (ok true, single_instance)
acquire_lock now key ttl value throw_on_error unavailable =
    (if throw_on_error then err lock_unavailable else ok false, unavailable)
acquire_lock now key ttl value throw_on_error (connected r) = elim (alive now (r key)) [
  | some e ↦ (ok false, connected r)
  | none ↦
      (ok true, connected (put key (some (record { value = value; expires_at = now + ttl })) r))
]

-- Whether the key holds the value: `redis.call("get", KEYS[1]) == ARGV[1]`
abbrev pub holds : ℕ → ℕ → Option Entry → Bool
holds now value o = elim (alive now o) [ none ↦ false | some e ↦ e.value == value ]

pub release_lock : ℕ → ℕ → ℕ → Client → Client
release_lock now key value single_instance = single_instance
release_lock now key value unavailable = unavailable
release_lock now key value (connected r) =
    if holds now value (r key) then connected (put key none r) else connected r

pub renew_lock : ℕ → ℕ → ℕ → ℕ → Client → Bool × Client
renew_lock now key value ttl single_instance = (true, single_instance)
renew_lock now key value ttl unavailable = (false, unavailable)
renew_lock now key value ttl (connected r) =
    if holds now value (r key)
    then (true, connected (put key (some (record { value = value; expires_at = now + ttl })) r))
    else (false, connected r)

-- The heartbeat's state: whether its timer is still set, and `lockLost`.
pub record Heartbeat : Type 0 where
  pub ticking : Bool
  pub lock_lost : Bool

-- One round of the timer: a renewal, and then `if (heartbeat) clearInterval(heartbeat)`, which stands
-- behind the test of the renewal's result.
pub tick : ℕ → ℕ → ℕ → ℕ → Heartbeat × Client → Heartbeat × Client
unfolding renew_lock
tick key value ttl now (h, c) =
    if h.ticking
    then (let (renewed, c') = renew_lock now key value ttl c in
        (record { ticking = false; lock_lost = h.lock_lost || not renewed }, c'))
    else (h, c)

-- The rounds that fall due while `fn` runs, at the given times.
pub ticks : ℕ → ℕ → ℕ → List ℕ → Heartbeat × Client → Heartbeat × Client
unfolding tick
ticks key value ttl [] s = s
ticks key value ttl (now ∷ times) s = ticks key value ttl times (tick key value ttl now s)

abbrev pub is_configured : Client → Bool
is_configured single_instance = false
is_configured _ = true

abbrev pub start : Client → Heartbeat
start c = record { ticking = is_configured c; lock_lost = false }

-- `withLock`: `fn` runs between the times, and is told of `lockLost` at its end; what it gives is left
-- out. `none` is that the lock was not acquired.
pub with_lock : ℕ → ℕ → ℕ → Bool → ℕ → List ℕ → ℕ → Client → Result (Option Heartbeat) × Client
unfolding acquire_lock ticks release_lock
with_lock key ttl value throw_on_error now times finished c =
    let (acquired, c1) = acquire_lock now key ttl value throw_on_error c in
    elim acquired [
      | err e ↦ (err e, c1)
      | ok got ↦
          if got
          then (let (h, c2) = ticks key value ttl times (start c1, c1) in
              (ok (some h), release_lock finished key value c2))
          else (ok none, c1)
    ]
