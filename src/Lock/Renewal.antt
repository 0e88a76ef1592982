-- ===== src/Lock/Renewal.antt =====
-- The heartbeat of backend/src/utils/distributedLock.js renews once.
use cross_border_payment_app.Lock.{
  Redis, alive, Client, connected, acquire_lock, Heartbeat, tick, ticks, start,
}
use cross_border_payment_app.Base.{
  ℕ, ◌+◌, ◌≤◌, ◌<◌, ◌≡◌, refl, Bool, true, false, none, List, [], ◌∷◌, arith, ok,
}

stopped :
    (key value ttl : ℕ) (times : List ℕ) (h : Heartbeat) (c : Client)
    → h.ticking ≡ false
    → ticks key value ttl times (h, c) ≡ (h, c)
unfolding ticks tick
stopped key value ttl [] h c e = refl
stopped key value ttl (now ∷ times) h c e = ground (arith, stopped key value ttl times h c e)

-- However many rounds of the heartbeat fall due, only the first of them does anything.
ticks_once :
    (key value ttl now : ℕ) (times : List ℕ) (h : Heartbeat) (c : Client)
    → ticks key value ttl (now ∷ times) (h, c) ≡ tick key value ttl now (h, c)
unfolding ticks tick
ticks_once key value ttl now times h c = ground (
  arith,
  stopped key value ttl times (tick key value ttl now (h, c)).0 (tick key value ttl now (h, c)).1,
)

-- A lock is lost without notice: when the work lasts longer than one time to live after the first
-- renewal, then at its end, however many rounds of the heartbeat fell due, another value acquires the
-- lock, although the flag says that it is not lost.
pub ticks_lost :
    (key ttl mine yours now first late : ℕ) (times : List ℕ) (t : Bool) (r : Redis)
    → alive now (r key) ≡ none
    → first < now + ttl
    → first + ttl ≤ late
    → let c = (acquire_lock now key ttl mine t (connected r)).1 in
      let (h, c') = ticks key mine ttl (first ∷ times) (start c, c) in
      (h.lock_lost ≡ false) × ((acquire_lock late key ttl yours t c').0 ≡ ok true)
unfolding acquire_lock tick
ticks_lost key ttl mine yours now first late times t r free soon long =
    let c = (acquire_lock now key ttl mine t (connected r)).1 in
    rw (ticks_once key mine ttl first times (start c) c) (ground arith, ground arith)
