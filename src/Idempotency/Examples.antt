-- ===== src/Idempotency/Examples.antt =====
-- Requests with an idempotency key, and the theorems on them at concrete inputs.
use cross_border_payment_app.Idempotency.{
  Response, Store, Request, pass, reused, replay, run, idempotency, handle,
}
use cross_border_payment_app.Idempotency.Replays.{handle-replay}
use cross_border_payment_app.Base.{◌≡◌, refl, true, none, some, [], arith}

abbrev empty : Store
empty = record {
  cache_up = true;
  database_up = true;
  in_flight = λ k. none;
  cached = λ k. none;
  rows = [];
}

abbrev sent : Request
sent = record { key = some 7; well_formed = true; user_id = 1; request_hash = 55 }

abbrev created : Response
created = record { status_code = 201; body = 9 }

first_run : (handle 100 102 created sent empty).0 ≡ run 7
unfolding handle
first_run = refl

no_key : (handle 100 102 created (record sent { key = none }) empty).0 ≡ pass
unfolding handle
no_key = refl

-- A response of 500 is not stored: the request runs again.
failure_runs_again :
    (idempotency 103 sent (handle 100 102 (record { status_code = 500; body = 0 }) sent empty).1).0
    ≡ run 7
unfolding handle idempotency
failure_runs_again = refl

other_body :
    (idempotency 103 (record sent { request_hash = 56 }) (handle 100 102 created sent empty).1).0
    ≡ reused
unfolding handle idempotency
other_body = refl

running : (idempotency 100 sent empty).0 ≡ run 7
unfolding idempotency
running = refl

-- Another user is answered with the response to the first.
handle-replay_example :
    idempotency 200
      (record { key = some 7; well_formed = true; user_id = 2; request_hash = 55 })
      (handle 100 102 created sent empty).1
    ≡ (replay created, (handle 100 102 created sent empty).1)
handle-replay_example =
    handle-replay 100 102 200 created sent 7 2 55 empty refl first_run (omega arith) (omega arith)
