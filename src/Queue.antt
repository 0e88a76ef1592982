-- ===== src/Queue.antt =====
-- The queue of transactions: backend/src/utils/txQueue.js, in time. A task is known by how long it runs;
-- times are in milliseconds, and wallets stand as numbers.
pub mod Order
mod Examples
use cross_border_payment_app.Base.{
  ℕ, ◌+◌, min, max, Bool, List, [], ◌∷◌, ◌++◌, ltb, ◌==◌, if◌then◌else◌, length, count_where, any,
}

-- `timeout` stands for QUEUE_TIMEOUT_MS.
pub record Task : Type 0 where
  pub wallet : ℕ
  pub duration : ℕ
  pub fails : Bool

pub data Outcome : Type 0 where
  resolved rejected_by_task timed_out : Outcome

-- What became of a task: when it began, when its promise settled and how, and when its work ended.
pub record Run : Type 0 where
  pub wallet : ℕ
  pub started : ℕ
  pub settled : ℕ
  pub finished : ℕ
  pub outcome : Outcome

-- `tails` gives the time at which the chain of a wallet settles, 0 where there is none; `wallets` are the
-- keys of the map, and `runs` the tasks so far.
pub record Queue : Type 0 where
  pub tails : ℕ → ℕ
  pub wallets : List ℕ
  pub runs : List Run

abbrev pub outcome_of : ℕ → Task → Outcome
outcome_of timeout t =
    if ltb timeout t.duration then timed_out else if t.fails then rejected_by_task else resolved

abbrev pub is : ℕ → ℕ → Bool
is w v = v == w

abbrev pub add_wallet : ℕ → List ℕ → List ℕ
add_wallet w ws = if any (is w) ws then ws else w ∷ ws

-- The task begins once the chain before it has settled; its promise settles with the work or at the
-- timeout, and the work goes on.
pub run_of : ℕ → ℕ → Task → Queue → Run
run_of timeout now t q =
    let start = max now (q.tails t.wallet) in
    record {
      wallet = t.wallet;
      started = start;
      settled = start + min t.duration timeout;
      finished = start + t.duration;
      outcome = outcome_of timeout t;
    }

pub enqueue : ℕ → ℕ → Task → Queue → Run × Queue
unfolding run_of
enqueue timeout now t q =
    let r = run_of timeout now t q in
    (
      r,
      record {
        tails = λ w. if w == t.wallet then r.settled else q.tails w;
        wallets = add_wallet t.wallet q.wallets;
        runs = q.runs ++ r ∷ [];
      },
    )

pub get_queue_depth : Queue → ℕ
get_queue_depth q = length q.wallets

-- The tasks that have not settled
pub get_pending_tasks_total : ℕ → Queue → ℕ
get_pending_tasks_total now q = count_where (λ r. ltb now r.settled) q.runs

abbrev pub backpressure_threshold : ℕ
backpressure_threshold = 50

pub is_backpressured : ℕ → Queue → Bool
unfolding get_pending_tasks_total
is_backpressured now q = ltb backpressure_threshold (get_pending_tasks_total now q)
