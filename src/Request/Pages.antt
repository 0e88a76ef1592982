-- ===== src/Request/Pages.antt =====
-- The list of one's payment requests: `listMine` of
-- backend/src/controllers/paymentRequestController.js.
use cross_border_payment_app.Request.{
  PaymentRequest, Table, paid, cancelled, expired, pending, Filter, every, only, invalid, page_of,
  limit_of, drop, take, is_listed, Listing, listing, list_mine,
}
use cross_border_payment_app.Base.{
  ℕ, zero, suc, ◌+◌, ◌-◌, ◌*◌, ◌≤◌, ◌≡◌, refl, Bool, true, Option, none, some, [], ◌∷◌, arith,
  length, select_where, count_where, All, ℤ, json, pos, negsuc,
}

length-take_le : (n : ℕ) (rs : Table) → length (take n rs) ≤ n
length-take_le zero rs = omega arith
length-take_le (suc n) [] = omega arith
length-take_le (suc n) (r ∷ rs) = omega (arith, length-take_le n rs)

All-take : (P : PaymentRequest → Type 0) (n : ℕ) (rs : Table) → All P rs → All P (take n rs)
All-take P zero rs h = tt
All-take P (suc n) [] h = tt
All-take P (suc n) (r ∷ rs) h = (h.0, All-take P n rs h.1)

All-drop : (P : PaymentRequest → Type 0) (n : ℕ) (rs : Table) → All P rs → All P (drop n rs)
All-drop P zero rs h = h
All-drop P (suc n) [] h = tt
All-drop P (suc n) (r ∷ rs) h = All-drop P n rs h.1

All-select : (p : PaymentRequest → Bool) (rs : Table) → All (λ r. p r ≡ true) (select_where p rs)
All-select p [] = tt
All-select p (r ∷ rs) = ground (arith, All-select p rs)

limits : (o : Option ℤ) → (1 ≤ limit_of o) × (limit_of o ≤ 50)
unfolding limit_of
limits none = omega arith
limits (some (pos zero)) = omega arith
limits (some (pos (suc n))) = omega arith
limits (some (negsuc n)) = omega arith

listing-eq :
    (now user : ℕ) (f : Filter) (page limit : Option ℤ) (t : Table) (l : Listing)
    → list_mine now user f page limit t ≡ json l
    → listing now user f page limit t ≡ l
unfolding list_mine
listing-eq now user every page limit t l h = cc
listing-eq now user (only s) page limit t l h = cc
listing-eq now user invalid page limit t l h = cc

mine :
    (now user : ℕ) (f : Filter) (r : PaymentRequest)
    → is_listed now user f r ≡ true
    → r.requester_id ≡ user
mine now user every r h = ground arith
mine now user (only s) r h = ground arith
mine now user invalid r h = cc

All-mine :
    (now user : ℕ) (f : Filter) (rs : Table)
    → All (λ r. is_listed now user f r ≡ true) rs
    → All (λ r. r.requester_id ≡ user) rs
All-mine now user f [] h = tt
All-mine now user f (r ∷ rs) h = (mine now user f r h.0, All-mine now user f rs h.1)

-- Whatever page and limit are asked for, a list holds at most 50 requests, no more than its limit,
-- and only the user's own.
pub list_mine_bounds :
    (now user : ℕ) (f : Filter) (page limit : Option ℤ) (t : Table) (l : Listing)
    → list_mine now user f page limit t ≡ json l
    → (1 ≤ l.limit)
      × (l.limit ≤ 50)
      × (length l.requests ≤ l.limit)
      × All (λ r. r.requester_id ≡ user) l.requests
list_mine_bounds now user f page limit t l h =
    let rows = select_where (is_listed now user f) t in
    rw (← listing-eq now user f page limit t l h) (
      (limits limit).0,
      (limits limit).1,
      length-take_le (limit_of limit) (drop ((page_of page - 1) * limit_of limit) rows),
      All-mine now user f _ (
          All-take _ (limit_of limit) _ (
            All-drop _ ((page_of page - 1) * limit_of limit) rows
              (All-select (is_listed now user f) t))),
    )

count_split :
    (now user : ℕ) (t : Table)
    → count_where (is_listed now user every) t
      ≡ count_where (is_listed now user (only paid)) t
        + count_where (is_listed now user (only cancelled)) t
        + count_where (is_listed now user (only expired)) t
        + count_where (is_listed now user (only pending)) t
count_split now user [] = refl
count_split now user (r ∷ t) = ground (arith, count_split now user t)

-- The four status filters divide a user's requests: the totals of their lists add up to the total of
-- the unfiltered list.
pub listing-total :
    (now user : ℕ) (page limit : Option ℤ) (t : Table)
    → (listing now user every page limit t).total
      ≡ (listing now user (only paid) page limit t).total
        + (listing now user (only cancelled) page limit t).total
        + (listing now user (only expired) page limit t).total
        + (listing now user (only pending) page limit t).total
listing-total now user page limit t = count_split now user t
