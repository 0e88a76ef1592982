-- ===== src/Lock/Ownership.antt =====
-- Who holds a lock of backend/src/utils/distributedLock.js.
use cross_border_payment_app.Lock.{
  Entry, Redis, alive, connected, acquire_lock, release_lock, renew_lock,
}
use cross_border_payment_app.Base.{ℕ, ◌+◌, ◌≡◌, ◌≢◌, Bool, true, false, some, arith, leb, ok}

-- While a holder's entry is alive nobody else acquires the lock, releases it or renews it: whatever
-- another value tries, the entry stays as it is.
pub alive-excludes :
    (now key ttl mine yours : ℕ) (t : Bool) (r : Redis) (e : Entry)
    → alive now (r key) ≡ some e
    → e.value ≡ mine
    → yours ≢ mine
    → (acquire_lock now key ttl yours t (connected r) ≡ (ok false, connected r))
      × (release_lock now key yours (connected r) ≡ connected r)
      × (renew_lock now key yours ttl (connected r) ≡ (false, connected r))
unfolding acquire_lock release_lock renew_lock
alive-excludes now key ttl mine yours t r e h v ne = (ground arith, ground arith, ground arith)

-- The holder renews and releases: after a renewal the entry lasts for the whole time to live again,
-- and after a release the lock can be acquired at once by any value.
pub holder_renews_and_releases :
    (now later key ttl mine yours : ℕ) (t : Bool) (r : Redis) (e : Entry)
    → alive now (r key) ≡ some e
    → e.value ≡ mine
    → let (renewed, c) = renew_lock now key mine ttl (connected r) in
      (renewed ≡ true)
      × ((acquire_lock later key ttl yours t c).0 ≡ ok (leb (now + ttl) later))
      × ((acquire_lock now key ttl yours t (release_lock now key mine (connected r))).0 ≡ ok true)
unfolding acquire_lock release_lock renew_lock
holder_renews_and_releases now later key ttl mine yours t r e h v =
    (ground arith, ground arith, ground arith)
