-- ===== src/Sep31/Signed.antt =====
-- The secrets of the transactions of backend/src/controllers/sep31Controller.js.
use cross_border_payment_app.Sep31.{refunded, failed}
use cross_border_payment_app.Sep31.{error}
use cross_border_payment_app.Sep31.{unknown}
use cross_border_payment_app.Sep31.Callbacks.{deliver-over, deliver-again}
use mathlib.Core.Path.{subst}
use cross_border_payment_app.Sep31.{
  completed, Status, pending, or_usdc, required_fields, is_missing, updated, owned, is_bad_url,
  new_transaction, is_valid_status, Info, Caller, retry_in, validate_callback_url, Dns, Update, Url,
  over, NewTransaction, Attempt, State, Next, attempt_callback, deliver_callback,
  update_transaction_status, Transaction, violates_check, create_transaction,
}
use cross_border_payment_app.Base.{
  ℕ, ◌+◌, ◌≡◌, refl, sym, ap, ◌∙◌, ◌⊎◌, inl, inr, true, false, Option, none, some, List, [], ◌∷◌,
  Bool-cases, Option-cases, find_where, update_where, any, All, All-update_where,
}

-- The calls that write, with whatever arguments, and whatever the network does.
pub data Step (s : State) : State → Type 0 where
  create_step :
      (dns : Dns) (info : Option Info) (q : NewTransaction) (c : Caller) (ts : List Attempt)
      → Step s (create_transaction dns info q c ts s).1
  update_step :
      (user i : ℕ) (u : Update) (ts : List Attempt)
      → Step s (update_transaction_status user i u ts s).1

pub data Reach : State → Type 0 where
  start : Reach (record { transactions = []; callbacks = []; posts = [] })
  next : {s s' : State} → Reach s → Step s s' → Reach s'

-- A transaction has a secret exactly when it has a url, and its status is one of the table's.
abbrev pub IsSigned : Transaction → Type 0
IsSigned x =
    ((x.callback_url ≡ none) × (x.shared_secret ≡ none))
    ⊎ ((url : Option Url) × (secret : ℕ) × (x.callback_url ≡ some url)
        × (x.shared_secret ≡ some secret))

abbrev pub IsSound : Transaction → Type 0
IsSound x = IsSigned x × ((x.status ≡ pending) ⊎ (x.status ≡ completed))

attempt-transactions :
    (x : Transaction) (t : Attempt) (attempt : ℕ) (s : State)
    → (attempt_callback x t attempt s).1.transactions ≡ s.transactions
unfolding attempt_callback
attempt-transactions x t attempt s = elim (Option-cases x.callback_url) [
  | inl e ↦ rw (attempt_callback, e) refl
  | inr (url, e) ↦ elim (Option-cases x.shared_secret) [
    | inl f ↦ rw (attempt_callback, e, f) refl
    | inr (secret, f) ↦ elim (Bool-cases (validate_callback_url t.dns url)) [
      | inl g ↦ rw (attempt_callback, e, f, g) refl
      | inr g ↦ rw (attempt_callback, e, f, g) refl
    ]
  ]
]

Next-cases : (n : Next) → (n ≡ over) ⊎ ((delay : ℕ) × (n ≡ retry_in delay))
Next-cases over = inl refl
Next-cases (retry_in delay) = inr (delay, refl)

pub deliver-transactions :
    (x : Transaction) (ts : List Attempt) (attempt : ℕ) (s : State)
    → (deliver_callback x ts attempt s).1.transactions ≡ s.transactions
unfolding deliver_callback
deliver-transactions x [] attempt s = refl
deliver-transactions x (t ∷ ts) attempt s =
    let one = attempt-transactions x t attempt s in
    let s' = (attempt_callback x t attempt s).1 in
    elim (Next-cases (attempt_callback x t attempt s).0) [
      | inl e ↦ ap (λ z. z.1.transactions) (deliver-over x t ts attempt s e) ∙ one
      | inr (delay, e) ↦
          ap (λ z. z.1.transactions) (deliver-again x t ts attempt s delay e)
          ∙ deliver-transactions x ts (attempt + 1) s'
          ∙ one
    ]

kept_statuses :
    (st : Status)
    → is_valid_status st ≡ true
    → violates_check st ≡ false
    → (st ≡ pending) ⊎ (st ≡ completed)
unfolding is_valid_status violates_check
kept_statuses pending h v = inl refl
kept_statuses completed h v = inr refl
kept_statuses error h v = cc
kept_statuses refunded h v = cc
kept_statuses failed h v = cc
kept_statuses (unknown n) h v = cc

new-IsSound :
    (q : NewTransaction) (c : Caller) (amount receiver : ℕ)
    → IsSound (new_transaction q c amount receiver)
new-IsSound q c amount receiver = elim (Option-cases q.callback_url) [
  | inl e ↦ (inl (e, rw e refl), inl refl)
  | inr (url, e) ↦ (inr (url, c.random, e, rw e refl), inl refl)
]

create-IsSound :
    (dns : Dns) (info : Option Info) (q : NewTransaction) (c : Caller) (ts : List Attempt)
    (s : State)
    → All IsSound s.transactions
    → All IsSound (create_transaction dns info q c ts s).1.transactions
unfolding create_transaction
create-IsSound dns info q c ts s v = elim (Option-cases q.amount) [
  | inl e ↦ rw (create_transaction, e) v
  | inr (amount, e) ↦ elim (Option-cases q.receiver_account) [
    | inl f ↦ rw (create_transaction, e, f) v
    | inr (receiver, f) ↦ elim (Bool-cases (is_bad_url dns q.callback_url)) [
      | inl g ↦ rw (create_transaction, e, f, g) v
      | inr g ↦
          elim (Bool-cases
            (any (is_missing q.fields) (required_fields info (or_usdc q.asset_code)))) [
              | inl h ↦ rw (create_transaction, e, f, g, h) v
              | inr h ↦
                  let x = new_transaction q c amount receiver in
                  let rows = x ∷ s.transactions in
                  let kept = deliver-transactions x ts 1 (record s { transactions = rows }) in
                  rw (create_transaction, e, f, g, h)
                    (subst (All IsSound) (sym kept) (new-IsSound q c amount receiver, v))
            ]
    ]
  ]
]

update-IsSound :
    (user i : ℕ) (u : Update) (ts : List Attempt) (s : State)
    → All IsSound s.transactions
    → All IsSound (update_transaction_status user i u ts s).1.transactions
unfolding update_transaction_status
update-IsSound user i u ts s v = elim (Bool-cases (is_valid_status u.status)) [
  | inr e ↦ rw (update_transaction_status, e) v
  | inl e ↦ elim (Bool-cases (any (owned i user) s.transactions)) [
    | inr f ↦ rw (update_transaction_status, e, f) v
    | inl f ↦ elim (Bool-cases (violates_check u.status)) [
      | inl g ↦ rw (update_transaction_status, e, f, g) v
      | inr g ↦
          let rows = update_where (owned i user) (updated u) s.transactions in
          let s' : State = record s { transactions = rows } in
          let sound : All IsSound rows =
            All-update_where (owned i user) (updated u) s.transactions
              (λ x h b. (b.0, kept_statuses u.status e g)) (λ x b. b) v in
          elim (Option-cases (find_where (owned i user) rows)) [
            | inl h ↦ rw (update_transaction_status, e, f, g, h) sound
            | inr (x, h) ↦
                rw (update_transaction_status, e, f, g, h)
                  (subst (All IsSound) (sym (deliver-transactions x ts 1 s')) sound)
          ]
    ]
  ]
]

-- Whatever is called, in whatever order, from empty tables on, each transaction has a secret exactly
-- when it has a url for callbacks, and its status is 'pending' or 'completed', since the table refuses the
-- other two statuses of an update.
pub Reach-IsSound : {s : State} → Reach s → All IsSound s.transactions
Reach-IsSound start = tt
Reach-IsSound (next {s} r (create_step dns info q c ts)) =
    create-IsSound dns info q c ts s (Reach-IsSound r)
Reach-IsSound (next {s} r (update_step user i u ts)) =
    update-IsSound user i u ts s (Reach-IsSound r)
