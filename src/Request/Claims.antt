-- ===== src/Request/Claims.antt =====
-- Which claims `markClaimed` of backend/src/controllers/paymentRequestController.js accepts, with nothing
-- between its check and its write.
use cross_border_payment_app.Request.{
  PaymentRequest, Table, with_id, is_cancelled, Verify, claim, mark_claimed,
}
use cross_border_payment_app.Base.{
  ℕ, ◌<◌, ◌≡◌, refl, ◌≢◌, ◌↔◌, true, false, some, [], ◌∷◌, arith, find_where, update_where, ok,
  json,
}

find_update_ne :
    (i j : ℕ) (f : PaymentRequest → PaymentRequest) (t : Table)
    → ((q : PaymentRequest) → (f q).id ≡ q.id)
    → i ≢ j
    → find_where (with_id j) (update_where (with_id i) f t) ≡ find_where (with_id j) t
find_update_ne i j f [] h ne = refl
find_update_ne i j f (q ∷ t) h ne = ground (arith, h q, find_update_ne i j f t h ne)

-- A claim is accepted exactly by the requester, before the expiry, for a request that is neither
-- cancelled nor claimed, with a transaction that is verified to pay its amount to its wallet.
pub mark_claimed_iff :
    (verify : Verify) (now user i hash : ℕ) (t : Table) (r : PaymentRequest)
    → find_where (with_id i) t ≡ some r
    → ((mark_claimed verify now user i hash t).0 ≡ json tt) ↔ (
        (now < r.expires_at)
        × (r.requester_id ≡ user)
        × (is_cancelled r.status ≡ false)
        × (r.claimed ≡ false)
        × (verify hash r.requester_wallet r.asset r.amount ≡ ok true))
unfolding mark_claimed
mark_claimed_iff verify now user i hash t r e = (ground arith, ground arith)

claim_leaves_others :
    (verify : Verify) (now user i j hash : ℕ) (t : Table) (q : PaymentRequest)
    → i ≢ j
    → find_where (with_id j) t ≡ some q
    → find_where (with_id j) (mark_claimed verify now user i hash t).1 ≡ some q
unfolding mark_claimed
claim_leaves_others verify now user i j hash t q ne e =
    ground (arith, find_update_ne i j (claim hash) t (λ q. refl) ne)

-- Two requests of one user and wallet for the same asset and amount, both still open, can both be
-- claimed with one transaction: once it has been accepted for the first it is accepted for the
-- second.
pub mark_claimed-twice :
    (verify : Verify) (now user i j hash : ℕ) (t : Table) (r q : PaymentRequest)
    → i ≢ j
    → find_where (with_id i) t ≡ some r
    → find_where (with_id j) t ≡ some q
    → q.requester_wallet ≡ r.requester_wallet
    → q.asset ≡ r.asset
    → q.amount ≡ r.amount
    → (now < q.expires_at)
      × (q.requester_id ≡ user)
      × (is_cancelled q.status ≡ false)
      × (q.claimed ≡ false)
    → (mark_claimed verify now user i hash t).0 ≡ json tt
    → (mark_claimed verify now user j hash (mark_claimed verify now user i hash t).1).0 ≡ json tt
mark_claimed-twice verify now user i j hash t r q ne er eq ew ea en (a, b, c, d) h =
    let verified = ((mark_claimed_iff verify now user i hash t r er).0 h).4 in
    (mark_claimed_iff verify now user j hash (mark_claimed verify now user i hash t).1 q
        (claim_leaves_others verify now user i j hash t q ne eq)).1
      (a, b, c, d, rw (ew, ea, en) verified)
