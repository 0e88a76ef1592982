-- ===== src/Request/Claiming.antt =====
-- What stays of a claimed payment request of
-- backend/src/controllers/paymentRequestController.js while its handlers are interleaved.
use mathlib.Core.Path.{subst}
use cross_border_payment_app.Request.{
  PaymentRequest, Table, with_id, NewRequest, positive, create, Verify, claim, Write, claims,
  cancels, write, begin_claim, begin_cancel, cancel_row,
}
use cross_border_payment_app.Base.{
  ℕ, ◌≡◌, refl, ◌∙◌, inl, inr, Bool, true, some, List, [], ◌∷◌, ◌++◌, arith, if◌then◌else◌,
  Bool-cases, Option-cases, find_where, find_where_sound, find_where-update_where,
  find_where-append, All, All-middle, Asset, ok,
}

-- The handlers, and those of them that have checked a request and whose UPDATE is still to come.
pub record System : Type 0 where
  pub table : Table
  pub waiting : List Write

-- Which transactions pay which amount of which asset to which wallet.
abbrev pub Ledger : Type 0
Ledger = ℕ → ℕ → Asset → ℕ → Bool

-- A verification accepts only what the network has.
abbrev pub IsHonest : Ledger → Verify → Type 0
IsHonest ledger verify =
    (hash wallet : ℕ) (a : Asset) (n : ℕ)
    → verify hash wallet a n ≡ ok true
    → ledger hash wallet a n ≡ true

-- One step: a creation, the first part of a claim or of a cancellation, or one of the writes that wait.
pub data Step (ledger : Ledger) (y : System) : System → Type 0 where
  create_step :
      (now : ℕ) (q : NewRequest) → Step ledger y (record y { table = (create now q y.table).1 })
  claim_step :
      (verify : Verify) (now user i hash : ℕ) (w : Write)
      → IsHonest ledger verify
      → begin_claim verify now user i hash y.table ≡ inr w
      → Step ledger y (record y { waiting = w ∷ y.waiting })
  cancel_step :
      (user i : ℕ) (w : Write)
      → begin_cancel user i y.table ≡ inr w
      → Step ledger y (record y { waiting = w ∷ y.waiting })
  write_step :
      (before after : List Write) (w : Write)
      → y.waiting ≡ before ++ w ∷ after
      → Step ledger y (record { table = write w y.table; waiting = before ++ after })

pub data Reach (ledger : Ledger) (y : System) : System → Type 0 where
  here : Reach ledger y y
  next : {u v : System} → Reach ledger y u → Step ledger u v → Reach ledger y v

abbrev pub Pays : Ledger → ℕ → PaymentRequest → Type 0
Pays ledger hash r = ledger hash r.requester_wallet r.asset r.amount ≡ true

-- The request is claimed, and the transaction that it names pays it.
abbrev pub IsPaid : Ledger → ℕ → Table → Type 0
IsPaid ledger i t =
    (r : PaymentRequest) × (hash : ℕ) × (find_where (with_id i) t ≡ some r)
    × (r.claimed ≡ true)
    × (r.claimed_tx_hash ≡ some hash)
    × Pays ledger hash r

-- A claim that is still to be written names a transaction that pays its request.
abbrev pub IsBacked : Ledger → Table → Write → Type 0
IsBacked ledger t (claims i hash) =
    (r : PaymentRequest) × (find_where (with_id i) t ≡ some r) × Pays ledger hash r
IsBacked ledger t (cancels i) = Unit {0}

-- A row of which the wallet, the asset and the amount stay as they are.
abbrev IsKept : Table → Table → Type 0
IsKept t u =
    (i : ℕ) (r : PaymentRequest)
    → find_where (with_id i) t ≡ some r
    → (q : PaymentRequest) × (find_where (with_id i) u ≡ some q)
      × (q.requester_wallet ≡ r.requester_wallet)
      × (q.asset ≡ r.asset)
      × (q.amount ≡ r.amount)

kept-IsBacked :
    (ledger : Ledger) (t u : Table) (w : Write)
    → IsKept t u
    → IsBacked ledger t w
    → IsBacked ledger u w
kept-IsBacked ledger t u (cancels i) kept b = tt
kept-IsBacked ledger t u (claims i hash) kept (r, e, p) =
    let (q, f, wallet, asset, amount) = kept i r e in (q, f, rw (wallet, asset, amount) p)

all_kept :
    (ledger : Ledger) (t u : Table) (ws : List Write)
    → IsKept t u
    → All (IsBacked ledger t) ws
    → All (IsBacked ledger u) ws
all_kept ledger t u [] kept b = tt
all_kept ledger t u (w ∷ ws) kept b =
    (kept-IsBacked ledger t u w kept b.0, all_kept ledger t u ws kept b.1)

create-find :
    (now i : ℕ) (q : NewRequest) (t : Table) (r : PaymentRequest)
    → find_where (with_id i) t ≡ some r
    → find_where (with_id i) (create now q t).1 ≡ some r
unfolding create
create-find now i q t r e = elim (Option-cases (positive q.amount)) [
  | inl f ↦ rw (f, create) e
  | inr (n, f) ↦ elim (Option-cases q.wallet) [
    | inl g ↦ rw (f, create, g) e
    | inr (key, g) ↦ rw (f, create, g) (find_where-append (with_id i) t _ r e)
  ]
]

-- The row of a request after a write
abbrev row_after : Write → PaymentRequest → PaymentRequest
row_after (claims j hash) r = if with_id j r then claim hash r else r
row_after (cancels j) r = if with_id j r then cancel_row r else r

write-find :
    (w : Write) (i : ℕ) (t : Table) (r : PaymentRequest)
    → find_where (with_id i) t ≡ some r
    → find_where (with_id i) (write w t) ≡ some (row_after w r)
write-find (claims j hash) i t r e =
    find_where-update_where (with_id i) (with_id j) (claim hash) t r (λ q. refl) e
write-find (cancels j) i t r e =
    find_where-update_where (with_id i) (with_id j) cancel_row t r (λ q. refl) e

write-IsKept : (w : Write) (t : Table) → IsKept t (write w t)
write-IsKept (claims j hash) t i r e = (
  row_after (claims j hash) r,
  write-find (claims j hash) i t r e,
  ground arith,
  ground arith,
  ground arith,
)
write-IsKept (cancels j) t i r e = (
  row_after (cancels j) r,
  write-find (cancels j) i t r e,
  ground arith,
  ground arith,
  ground arith,
)

write-IsPaid :
    (ledger : Ledger) (w : Write) (i : ℕ) (t : Table)
    → IsBacked ledger t w
    → IsPaid ledger i t
    → IsPaid ledger i (write w t)
write-IsPaid ledger (cancels j) i t b (r, hash, e, claimed, names, pays) = (
  row_after (cancels j) r,
  hash,
  write-find (cancels j) i t r e,
  ground arith,
  ground arith,
  elim (Bool-cases (with_id j r)) [ inl m ↦ rw m pays | inr m ↦ rw m pays ],
)
write-IsPaid ledger (claims j new) i t (q, f, p) (r, hash, e, claimed, names, pays) =
    let found = write-find (claims j new) i t r e in
    elim (Bool-cases (with_id j r)) [
      | inr other ↦ (r, hash, found ∙ rw other refl, claimed, names, pays)
      | inl mine ↦
          let own : with_id i r ≡ true = find_where_sound (with_id i) t r e in
          let same : j ≡ i = ground arith in
          let f' = subst (λ k. find_where (with_id k) t ≡ some q) same f in
          let eq : q ≡ r = cc in
          (claim new r, new, found ∙ rw mine refl, refl, refl, subst (Pays ledger new) eq p)
    ]

begin_claim-IsBacked :
    (ledger : Ledger) (verify : Verify) (now user i hash : ℕ) (t : Table) (w : Write)
    → IsHonest ledger verify
    → begin_claim verify now user i hash t ≡ inr w
    → IsBacked ledger t w
unfolding begin_claim
begin_claim-IsBacked ledger verify now user i hash t w honest h =
    elim (Option-cases (find_where (with_id i) t)) [
      | inl e ↦ absurd (ground arith)
      | inr (r, e) ↦
          let is : claims i hash ≡ w = ground arith in
          let verified : verify hash r.requester_wallet r.asset r.amount ≡ ok true = ground arith in
          subst (IsBacked ledger t) is
            (r, e, honest hash r.requester_wallet r.asset r.amount verified)
    ]

begin_cancel-IsBacked :
    (ledger : Ledger) (user i : ℕ) (t : Table) (w : Write)
    → begin_cancel user i t ≡ inr w
    → IsBacked ledger t w
unfolding begin_cancel
begin_cancel-IsBacked ledger user i t w h =
    let is : cancels i ≡ w = ground arith in subst (IsBacked ledger t) is tt

-- All claims that wait are backed, and the request is paid.
pub record IsValid (ledger : Ledger) (i : ℕ) (y : System) : Type 0 where
  pub backed : All (IsBacked ledger y.table) y.waiting
  pub paid : IsPaid ledger i y.table

Step-IsValid :
    (ledger : Ledger) {y z : System} (i : ℕ)
    → Step ledger y z
    → IsValid ledger i y
    → IsValid ledger i z
Step-IsValid ledger {y} i (create_step now q) v =
    let (r, hash, e, claimed, names, pays) = v.paid in
    record {
      backed =
          all_kept ledger y.table (create now q y.table).1 y.waiting
            (λ j p f. (p, create-find now j q y.table p f, refl, refl, refl)) v.backed;
      paid = (r, hash, create-find now i q y.table r e, claimed, names, pays);
    }
Step-IsValid ledger {y} i (claim_step verify now user j hash w honest e) v = record {
  backed = (begin_claim-IsBacked ledger verify now user j hash y.table w honest e, v.backed);
  paid = v.paid;
}
Step-IsValid ledger {y} i (cancel_step user j w e) v = record {
  backed = (begin_cancel-IsBacked ledger user j y.table w e, v.backed);
  paid = v.paid;
}
Step-IsValid ledger {y} i (write_step before after w e) v =
    let (this, rest) =
      All-middle (IsBacked ledger y.table) before after w
        (subst (All (IsBacked ledger y.table)) e v.backed) in
    record {
      backed =
          all_kept ledger y.table (write w y.table) (before ++ after) (write-IsKept w y.table) rest;
      paid = write-IsPaid ledger w i y.table this v.paid;
    }

-- However creations, claims and cancellations are interleaved, also where a write comes long after the
-- check before it: a request that is claimed with a transaction which pays it stays claimed, with that
-- transaction or another one which pays it too, if the claims that wait at the start name
-- transactions that pay, and the verifications accept only what the network has.
pub Reach-IsPaid :
    (ledger : Ledger) {y z : System} (i : ℕ)
    → Reach ledger y z
    → IsValid ledger i y
    → IsValid ledger i z
Reach-IsPaid ledger i here v = v
Reach-IsPaid ledger i (next r st) v = Step-IsValid ledger i st (Reach-IsPaid ledger i r v)
