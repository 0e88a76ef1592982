-- ===== src/Idempotency/Replays.antt =====
-- A request that is sent again is answered again and not handled again.
use cross_border_payment_app.Idempotency.{
  Response, is_row, is_young, Store, Request, ttl_seconds, is_row, is_young, in_progress, reused,
  replay, run, idempotency, decide, respond, handle,
}
use cross_border_payment_app.Base.{
  ℕ, ◌+◌, ◌<◌, ◌≡◌, true, none, some, arith, ◌==◌, if◌then◌else◌, any-select_where,
}

-- While the cache answers, a request that was handled with an answer below 500 is not handled
-- again within 24 hours, whoever sends it: with the same body the stored answer is replayed, with
-- another body the key counts as reused; and the store stays as it is.
pub handle-replay :
    (now finished later : ℕ) (answer : Response) (q : Request) (key user hash : ℕ) (s : Store)
    → s.cache_up ≡ true
    → (handle now finished answer q s).0 ≡ run key
    → answer.status_code < 500
    → later < finished + ttl_seconds
    → let s' = (handle now finished answer q s).1 in
      let again : Request = record {
        key = some key;
        well_formed = true;
        user_id = user;
        request_hash = hash;
      } in
      idempotency later again s' ≡ (if q.request_hash == hash then replay answer else reused, s')
unfolding handle idempotency decide respond
handle-replay now finished later answer q key user hash s up ran small soon = ground arith

-- While a request is handled, within the 30 seconds of its marker in a cache that answers, another
-- request with its key is refused, and changes nothing.
pub idempotency-in_progress :
    (now later : ℕ) (q again : Request) (key : ℕ) (s : Store)
    → s.cache_up ≡ true
    → (idempotency now q s).0 ≡ run key
    → again.key ≡ some key
    → again.well_formed ≡ true
    → later < now + 30
    → idempotency later again (idempotency now q s).1 ≡ (in_progress, (idempotency now q s).1)
unfolding idempotency
idempotency-in_progress now later q again key s up ran same formed soon = ground arith

-- The store after the cache has lost all that it held.
abbrev pub flushed : Store → Store
flushed s = record s { in_flight = λ k. none; cached = λ k. none }

-- The table replaces a lost cache, for the user who sent the request: when the cache has lost all
-- that it held after a request was handled with an answer below 500, and the database answers, the
-- same request of the same user is answered with the stored response, however much later it comes,
-- as long as no other request has been handled in between.
pub handle-durable :
    (now finished later : ℕ) (answer : Response) (q : Request) (key : ℕ) (s : Store)
    → s.database_up ≡ true
    → (handle now finished answer q s).0 ≡ run key
    → answer.status_code < 500
    → (idempotency later q (flushed (handle now finished answer q s).1)).0 ≡ replay answer
unfolding handle idempotency decide respond
handle-durable now finished later answer q key s up ran small =
    ground (arith, any-select_where (is_row key q.user_id) (is_young now) s.rows)
