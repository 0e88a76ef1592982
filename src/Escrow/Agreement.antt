-- ===== src/Escrow/Agreement.antt =====
-- What the database says of an escrow of backend/src/controllers/agentEscrowController.js agrees with
-- what the contract did, however the handlers are interleaved.
use cross_border_payment_app.Escrow.{
  partial_release, is_wallet, confirm_checks, cancel_checks, with_id, end_with, write, release_row,
  is_pending, Status, pending, completed, cancelled, Escrow, Held, paid, refunded, World, Caller,
  Network, answered, answer_lost, not_reached, is_locked, set_held, call_contract, Write, begin,
  begin_confirm, begin_cancel,
}
use mathlib.Core.Path.{subst}
use cross_border_payment_app.Base.{
  ℕ, ◌+◌, ◌-◌, ◌≤◌, ◌≡◌, refl, ◌≢◌, ◌⊎◌, inl, inr, Bool, true, ◌||◌, not, some, List, ◌∷◌, ◌++◌,
  arith, ltb, ◌==◌, Bool-cases, Option-cases, find_where, update_where, All, All-find, All-map,
  All-update_where, All-middle, Result, Result-cases, ℤ, ok, err, pos, negsuc,
}

-- The world, with the updates of handlers that have called the contract and not yet written.
pub record Running : Type 0 where
  pub world : World
  pub writes : List Write

abbrev pub started : Result Write × World → List Write → Running
started (err e, w) us = record { world = w; writes = us }
started (ok u, w) us = record { world = w; writes = u ∷ us }

-- Handlers run between one another: one begins, one writes, one ends without having written, or a part of
-- an escrow is released.
pub data Step (s : Running) : Running → Type 0 where
  confirm_begins :
      (registered : ℕ → Bool) (c : Caller) (i : ℕ) (n : Network)
      → Step s (started (begin_confirm registered c i n s.world) s.writes)
  cancel_begins :
      (now : ℕ) (c : Caller) (i : ℕ) (n : Network)
      → Step s (started (begin_cancel now c i n s.world) s.writes)
  writes_one :
      (us vs : List Write) (u : Write)
      → s.writes ≡ us ++ u ∷ vs
      → Step s (record { world = write u s.world; writes = us ++ vs })
  drops_one :
      (us vs : List Write) (u : Write)
      → s.writes ≡ us ++ u ∷ vs
      → Step s (record { world = s.world; writes = us ++ vs })
  releases :
      (c : Caller) (i : ℕ) (n : ℤ)
      → Step s (record { world = (partial_release c i n s.world).1; writes = s.writes })

pub data Reach (s : Running) : Running → Type 0 where
  here : Reach s s
  next : {t u : Running} → Reach s t → Step t u → Reach s u

-- What a status asks of the contract.
abbrev pub Agrees : Status → Held → Type 0
Agrees pending h = Unit {0}
Agrees completed h = h ≡ paid
Agrees cancelled h = h ≡ refunded

abbrev pub RowAgrees : (ℕ → ℕ) → World → Escrow → Type 0
RowAgrees key w e = (e.contract_escrow_id ≡ key e.id) × Agrees e.status (w.contract (key e.id))

abbrev pub WriteAgrees : (ℕ → ℕ) → World → Write → Type 0
WriteAgrees key w u = (u.status ≢ pending) × Agrees u.status (w.contract (key u.escrow.id))

-- `key` gives the escrow of the contract that a row stands for: an identifier is that of one row.
pub record IsAgreed (key : ℕ → ℕ) (s : Running) : Type 0 where
  pub rows : All (RowAgrees key s.world) s.world.escrows
  pub waiting : All (WriteAgrees key s.world) s.writes

-- A change of what is locked keeps what agrees.
Agrees-set_held :
    (st : Status) (h : Held) (j k : ℕ) (w : World)
    → is_locked (w.contract k) ≡ true
    → Agrees st (w.contract j)
    → Agrees st ((set_held k h w).contract j)
Agrees-set_held pending h j k w l a = tt
Agrees-set_held completed h j k w l a = ground arith
Agrees-set_held cancelled h j k w l a = ground arith

call-Agrees :
    (st : Status) (h : Held) (n : Network) (j k : ℕ) (w : World)
    → Agrees st (w.contract j)
    → Agrees st ((call_contract h n k w).1.contract j)
unfolding call_contract
call-Agrees st h (answered hash) j k w a = elim (Bool-cases (is_locked (w.contract k))) [
  | inl l ↦ rw l (Agrees-set_held st h j k w l a)
  | inr l ↦ rw l a
]
call-Agrees st h answer_lost j k w a = elim (Bool-cases (is_locked (w.contract k))) [
  | inl l ↦ rw l (Agrees-set_held st h j k w l a)
  | inr l ↦ rw l a
]
call-Agrees st h not_reached j k w a = a

pub call-escrows :
    (h : Held) (n : Network) (k : ℕ) (w : World) → (call_contract h n k w).1.escrows ≡ w.escrows
unfolding call_contract
call-escrows h (answered hash) k w = ground arith
call-escrows h answer_lost k w = ground arith
call-escrows h not_reached k w = refl

called :
    (h : Held) (n : Network) (k hash : ℕ) (w : World)
    → (call_contract h n k w).0 ≡ ok hash
    → (call_contract h n k w).1.contract k ≡ h
unfolding call_contract
called h (answered hash') k hash w e = ground arith
called h answer_lost k hash w e = cc
called h not_reached k hash w e = cc

pub partial_release-cases :
    (c : Caller) (i : ℕ) (n : ℤ) (w : World)
    → ((partial_release c i n w).1 ≡ w)
      ⊎ ((m : ℕ) × (e : Escrow) × (find_where (with_id i) w.escrows ≡ some e)
          × (is_pending e.status ≡ true)
          × (e.released_amount + m ≤ e.amount)
          × ((partial_release c i n w).1
              ≡ record w { escrows = update_where (with_id i) (release_row m) w.escrows }))
unfolding partial_release
partial_release-cases c i (negsuc n) w = inl refl
partial_release-cases c i (pos n) w = elim (Option-cases (find_where (with_id i) w.escrows)) [
  | inl f ↦ inl (ground arith)
  | inr (e, f) ↦
      elim (Bool-cases (
        (n == 0)
        || not (is_pending e.status)
        || not (is_wallet e.sender_wallet c.session_wallet)
        || ltb (e.amount - e.released_amount) n)) [
          | inl refused ↦ inl (ground arith)
          | inr fine ↦ inr (n, e, f, ground arith, ground arith, ground arith)
        ]
]

module _ (key : ℕ → ℕ) (h : Held) (n : Network) (k : ℕ) (w : World) where
  rows-call :
      All (RowAgrees key w) w.escrows
      → All (RowAgrees key (call_contract h n k w).1) (call_contract h n k w).1.escrows
  rows-call rows =
      rw (call-escrows h n k w)
        (All-map w.escrows (λ e a. (a.0, call-Agrees e.status h n (key e.id) k w a.1)) rows)

  waiting-call :
      (us : List Write)
      → All (WriteAgrees key w) us
      → All (WriteAgrees key (call_contract h n k w).1) us
  waiting-call us waiting =
      All-map us (λ u a. (a.0, call-Agrees u.status h n (key u.escrow.id) k w a.1)) waiting

-- A handler that begins keeps the agreement; what it goes on to write agrees with the contract, and ends
-- the escrow.
begin-IsAgreed :
    (key : ℕ → ℕ) (checked : Result Escrow) (h : Held) (st : Status) (n : Network) (s : Running)
    → ((e : Escrow) → checked ≡ ok e → e.contract_escrow_id ≡ key e.id)
    → Agrees st h
    → st ≢ pending
    → IsAgreed key s
    → IsAgreed key (started (begin checked h st n s.world) s.writes)
begin-IsAgreed key (err e) h st n s keyed a ends v = v
begin-IsAgreed key (ok e) h st n s keyed a ends v =
    let k = e.contract_escrow_id in
    let rows = rows-call key h n k s.world v.rows in
    let waiting = waiting-call key h n k s.world s.writes v.waiting in
    elim (Result-cases (call_contract h n k s.world).0) [
      | inl (hash, f) ↦
          let held = called h n k hash s.world f in
          rw (started, begin, f)
            (record { rows = rows; waiting = ((ends, rw (← keyed e refl) (rw held a)), waiting) })
      | inr (x, f) ↦ rw (started, begin, f) (record { rows = rows; waiting = waiting })
    ]

confirm_checks-keyed :
    (registered : ℕ → Bool) (c : Caller) (i : ℕ) (key : ℕ → ℕ) (w : World) (e : Escrow)
    → All (RowAgrees key w) w.escrows
    → confirm_checks registered c i w.escrows ≡ ok e
    → e.contract_escrow_id ≡ key e.id
unfolding confirm_checks
confirm_checks-keyed registered c i key w e rows h =
    (All-find (RowAgrees key w) (with_id i) w.escrows e rows (ground arith)).0

cancel_checks-keyed :
    (now : ℕ) (c : Caller) (i : ℕ) (key : ℕ → ℕ) (w : World) (e : Escrow)
    → All (RowAgrees key w) w.escrows
    → cancel_checks now c i w.escrows ≡ ok e
    → e.contract_escrow_id ≡ key e.id
unfolding cancel_checks
cancel_checks-keyed now c i key w e rows h =
    (All-find (RowAgrees key w) (with_id i) w.escrows e rows (ground arith)).0

write-IsAgreed :
    (key : ℕ → ℕ) (s : Running) (us vs : List Write) (u : Write)
    → s.writes ≡ us ++ u ∷ vs
    → IsAgreed key s
    → IsAgreed key (record { world = write u s.world; writes = us ++ vs })
unfolding write
write-IsAgreed key s us vs u e v =
    let (mine, rest) =
      All-middle (WriteAgrees key s.world) us vs u
        (subst (All (WriteAgrees key s.world)) e v.waiting) in
    record {
      rows =
          All-update_where (with_id u.escrow.id) (end_with u) s.world.escrows
            (λ x hit a. let same : x.id ≡ u.escrow.id = ground arith in (a.0, rw same mine.1))
            (λ x a. a) v.rows;
      waiting = rest;
    }

release-IsAgreed :
    (key : ℕ → ℕ) (s : Running) (c : Caller) (i : ℕ) (n : ℤ)
    → IsAgreed key s
    → IsAgreed key (record { world = (partial_release c i n s.world).1; writes = s.writes })
unfolding partial_release
release-IsAgreed key s c i n v = elim (partial_release-cases c i n s.world) [
  | inl same ↦ rw (partial_release, same) v
  | inr (m, e, found, p, left, same) ↦ rw same (record {
    rows =
        All-update_where (with_id i) (release_row m) s.world.escrows (λ x hit a. a) (λ x a. a)
          v.rows;
    waiting = v.waiting;
  })
]

Step-IsAgreed : (key : ℕ → ℕ) (s t : Running) → Step s t → IsAgreed key s → IsAgreed key t
unfolding begin_confirm begin_cancel
Step-IsAgreed key s t (confirm_begins registered c i n) v =
    begin-IsAgreed key (confirm_checks registered c i s.world.escrows) paid completed n s
      (λ e h. confirm_checks-keyed registered c i key s.world e v.rows h) refl (λ h. cc) v
Step-IsAgreed key s t (cancel_begins now c i n) v =
    begin-IsAgreed key (cancel_checks now c i s.world.escrows) refunded cancelled n s
      (λ e h. cancel_checks-keyed now c i key s.world e v.rows h) refl (λ h. cc) v
Step-IsAgreed key s t (writes_one us vs u e) v = write-IsAgreed key s us vs u e v
Step-IsAgreed key s t (drops_one us vs u e) v = record {
  rows = v.rows;
  waiting =
      (All-middle (WriteAgrees key s.world) us vs u
        (subst (All (WriteAgrees key s.world)) e v.waiting)).1;
}
Step-IsAgreed key s t (releases c i n) v = release-IsAgreed key s c i n v

-- However the handlers are interleaved, and whatever the network and the database answer, what the
-- database says of an ended escrow is what the contract did with it, and each update that is still to be
-- written ends its escrow in the way in which the contract did; if that held at the start.
pub Reach-IsAgreed : {s t : Running} (key : ℕ → ℕ) → Reach s t → IsAgreed key s → IsAgreed key t
Reach-IsAgreed key here v = v
Reach-IsAgreed key (next {t} {u} r step) v = Step-IsAgreed key t u step (Reach-IsAgreed key r v)
