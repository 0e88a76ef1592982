-- ===== src/Queue/Examples.antt =====
-- Runs of backend/src/utils/txQueue.js.
use cross_border_payment_app.Queue.Order.{enqueue-overlap}
use cross_border_payment_app.Queue.{
  Task, Queue, resolved, rejected_by_task, timed_out, run_of, enqueue, get_queue_depth,
  get_pending_tasks_total, is_backpressured,
}
use cross_border_payment_app.Base.{◌<◌, ◌≡◌, refl, true, false, [], arith}

abbrev empty : Queue
empty = record { tails = λ w. 0; wallets = []; runs = [] }

abbrev quick : Task
quick = record { wallet = 1; duration = 400; fails = false }

abbrev slow : Task
slow = record { wallet = 1; duration = 31000; fails = false }

abbrev rival : Task
rival = record { wallet = 2; duration = 5; fails = true }

second_waits :
    (enqueue 30000 10 quick (enqueue 30000 0 quick empty).1).0
    ≡ record { wallet = 1; started = 400; settled = 800; finished = 800; outcome = resolved }
unfolding enqueue run_of
second_waits = refl

others_do_not :
    (enqueue 30000 10 rival (enqueue 30000 0 quick empty).1).0
    ≡ record { wallet = 2; started = 10; settled = 15; finished = 15; outcome = rejected_by_task }
unfolding enqueue run_of
others_do_not = refl

-- The map of chains never shrinks: long after both tasks it still counts two wallets.
depth_stays : get_queue_depth (enqueue 30000 10 rival (enqueue 30000 0 quick empty).1).1 ≡ 2
unfolding enqueue run_of get_queue_depth
depth_stays = refl

nothing_pending :
    get_pending_tasks_total 1000 (enqueue 30000 10 rival (enqueue 30000 0 quick empty).1).1 ≡ 0
unfolding enqueue run_of get_pending_tasks_total
nothing_pending = refl

no_pressure :
    is_backpressured 1000 (enqueue 30000 10 rival (enqueue 30000 0 quick empty).1).1 ≡ false
unfolding enqueue run_of is_backpressured
no_pressure = refl

slow_at_work : 10 < (enqueue 30000 0 slow empty).0.finished
unfolding enqueue run_of
slow_at_work = ground arith

enqueue-overlap_example :
    let (first, q) = enqueue 30000 0 slow empty in
    (first.outcome ≡ timed_out) × ((enqueue 30000 10 quick q).0.started < first.finished)
enqueue-overlap_example =
    enqueue-overlap 30000 0 10 slow quick empty (ground arith) refl slow_at_work
