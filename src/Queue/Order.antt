-- ===== src/Queue/Order.antt =====
-- The order of the tasks of a wallet in backend/src/utils/txQueue.js.
use mathlib.Core.Path.{subst}
use cross_border_payment_app.Queue.{timed_out, run_of, Queue, Task, Run, enqueue}
use cross_border_payment_app.Base.{
  ℕ, ◌≤◌, ◌<◌, ◌≡◌, sym, inl, inr, true, List, [], ◌∷◌, ◌++◌, arith, ◌==◌, ==_refl, Bool-cases, All,
  All-append, All-map,
}

-- Tasks that are enqueued one after the other, each with its time
pub enqueue_all : ℕ → List (ℕ × Task) → Queue → Queue
unfolding enqueue
enqueue_all timeout [] q = q
enqueue_all timeout ((now, t) ∷ ts) q = enqueue_all timeout ts (enqueue timeout now t q).1

abbrev pub HasSettled : ℕ → ℕ → Run → Type 0
HasSettled w time r = r.wallet ≡ w → r.settled ≤ time

-- Of two tasks of a wallet, the later begins when the promise of the earlier has settled.
abbrev pub AreSerial : List Run → Type 0
AreSerial [] = Unit
AreSerial (r ∷ rs) =
    All (λ later. later.wallet ≡ r.wallet → r.settled ≤ later.started) rs × AreSerial rs

pub record IsOrdered (q : Queue) : Type 0 where
  pub tails : All (λ r. r.settled ≤ q.tails r.wallet) q.runs
  pub serial : AreSerial q.runs

serial-append :
    (rs : List Run) (x : Run)
    → AreSerial rs
    → All (λ r. x.wallet ≡ r.wallet → r.settled ≤ x.started) rs
    → AreSerial (rs ++ x ∷ [])
serial-append [] x s h = (tt, tt)
serial-append (r ∷ rs) x (a, s) (b, h) = (
  All-append (λ later. later.wallet ≡ r.wallet → r.settled ≤ later.started) rs x a b,
  serial-append rs x s h,
)

enqueue-IsOrdered :
    (timeout now : ℕ) (t : Task) (q : Queue) → IsOrdered q → IsOrdered (enqueue timeout now t q).1
unfolding enqueue run_of
enqueue-IsOrdered timeout now t q v =
    let x = run_of timeout now t q in
    record {
      tails =
          All-append (λ r. r.settled ≤ (enqueue timeout now t q).1.tails r.wallet) q.runs x
            (All-map q.runs
              (λ r le. elim (Bool-cases (r.wallet == t.wallet)) [
                | inl same ↦
                    let eq : r.wallet ≡ t.wallet = ground arith in
                    let le2 : r.settled ≤ q.tails t.wallet =
                      subst (λ w. r.settled ≤ q.tails w) eq le in
                    rw same (omega arith)
                | inr differs ↦ rw differs le
              ])
              v.tails)
            (rw (==_refl t.wallet) (omega arith));
      serial = serial-append q.runs x v.serial (
          All-map q.runs
            (λ r le eq.
              let le2 : r.settled ≤ q.tails t.wallet =
                subst (λ w. r.settled ≤ q.tails w) (sym eq) le in
              omega arith)
            v.tails);
    }

-- The promises of the tasks of a wallet settle one before the next begins, in the order in which the tasks
-- are enqueued, whatever other wallets do, if that was so at the start.
pub enqueue_all-IsOrdered :
    (timeout : ℕ) (ts : List (ℕ × Task)) (q : Queue)
    → IsOrdered q
    → IsOrdered (enqueue_all timeout ts q)
unfolding enqueue_all
enqueue_all-IsOrdered timeout [] q v = v
enqueue_all-IsOrdered timeout ((now, t) ∷ ts) q v =
    enqueue_all-IsOrdered timeout ts (enqueue timeout now t q).1
      (enqueue-IsOrdered timeout now t q v)

-- A task that runs longer than the timeout is still at work when the next one of its wallet begins, where
-- that one is enqueued before it is over.
pub enqueue-overlap :
    (timeout now later : ℕ) (t u : Task) (q : Queue)
    → timeout < t.duration
    → u.wallet ≡ t.wallet
    → later < (enqueue timeout now t q).0.finished
    → let (first, q') = enqueue timeout now t q in
      (first.outcome ≡ timed_out) × ((enqueue timeout later u q').0.started < first.finished)
unfolding enqueue run_of
enqueue-overlap timeout now later t u q long same early =
    let hit : (u.wallet == t.wallet) ≡ true = ground arith in (ground arith, rw hit (omega arith))
