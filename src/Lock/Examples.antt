-- ===== src/Lock/Examples.antt =====
-- Runs of the distributed lock, and its theorems at concrete inputs.
use cross_border_payment_app.Lock.{
  Redis, connected, unavailable, acquire_lock, ticks, start, with_lock, lock_unavailable,
}
use cross_border_payment_app.Lock.Renewal.{ticks_lost}
use cross_border_payment_app.Base.{◌≡◌, refl, true, false, none, some, [], ◌∷◌, arith, ok, err}

abbrev vacant : Redis
vacant k = none

done_in_time :
    (with_lock 1 9 7 false 0 (3 ∷ []) 5 (connected vacant)).0
    ≡ ok (some (record { ticking = false; lock_lost = false }))
unfolding with_lock
done_in_time = refl

outage : (with_lock 1 9 7 true 0 [] 5 unavailable).0 ≡ err lock_unavailable
unfolding with_lock
outage = refl

ticks_lost_example :
    let c = (acquire_lock 0 1 9 7 true (connected vacant)).1 in
    let (h, c') = ticks 1 7 9 (3 ∷ 6 ∷ 9 ∷ []) (start c, c) in
    (h.lock_lost ≡ false) × ((acquire_lock 12 1 9 8 true c').0 ≡ ok true)
ticks_lost_example =
    ticks_lost 1 9 7 8 0 3 12 (6 ∷ 9 ∷ []) true vacant refl (omega arith) (omega arith)
