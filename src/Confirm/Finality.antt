-- ===== src/Confirm/Finality.antt =====
-- Which payments the job of backend/src/jobs/transactionConfirmationJob.js settles, and how.
use cross_border_payment_app.Confirm.{pending}
use cross_border_payment_app.Confirm.{
  is_due, batch_size, has_id, first, reconcile_rows, Table, is_confirming, set_final_status,
  reconcile_transaction_confirmations, breaks,
}
use mathlib.Core.Path.{subst}
use cross_border_payment_app.Confirm.{
  not_found, has_expired, failed, completed, confirming, found, hash_of, Status, Transaction,
  Lookup, verdict,
}
use cross_border_payment_app.Base.{
  ℕ, zero, suc, ◌≤◌, ◌≡◌, refl, sym, ◌∙◌, inl, inr, Bool, true, false, Option, some, [], ◌∷◌, arith,
  ◌==◌, Bool-cases, Option-cases, find_where, select_where, count_where, All,
  find_where-update_where, All-select_where,
}

-- What may become of a row: it stays; it is completed since the network has it as successful; or it has failed,
-- since the network has it as unsuccessful, or has it not after its time.
pub data Settles (clock : ℕ → ℕ) (lookup : ℕ → Lookup) (i hash : ℕ) (expiry : Option ℕ)
    : Status → Status → Type 0 where
  stays : (a : Status) → Settles clock lookup i hash expiry a a
  succeeds : lookup hash ≡ found true → Settles clock lookup i hash expiry confirming completed
  fails : lookup hash ≡ found false → Settles clock lookup i hash expiry confirming failed
  times_out :
      lookup hash ≡ not_found
      → has_expired (clock i) expiry ≡ true
      → Settles clock lookup i hash expiry confirming failed

verdict-Settles :
    (clock : ℕ → ℕ) (lookup : ℕ → Lookup) (x : Transaction) (st : Status)
    → verdict (clock x.id) (lookup (hash_of x)) x ≡ some st
    → Settles clock lookup x.id (hash_of x) x.confirmation_expires_at confirming st
unfolding verdict
verdict-Settles clock lookup x st e = by_answer (lookup (hash_of x)) refl e
  where
    by_answer :
        (l : Lookup)
        → lookup (hash_of x) ≡ l
        → verdict (clock x.id) l x ≡ some st
        → Settles clock lookup x.id (hash_of x) x.confirmation_expires_at confirming st
    by_answer (found true) h k =
        let same : completed ≡ st = cc in
        subst (Settles clock lookup x.id (hash_of x) x.confirmation_expires_at confirming) same
          (succeeds h)
    by_answer (found false) h k =
        let same : failed ≡ st = cc in
        subst (Settles clock lookup x.id (hash_of x) x.confirmation_expires_at confirming) same
          (fails h)
    by_answer not_found h k =
        let late : has_expired (clock x.id) x.confirmation_expires_at ≡ true = ground arith in
        let same : failed ≡ st = ground arith in
        subst (Settles clock lookup x.id (hash_of x) x.confirmation_expires_at confirming) same
          (times_out h late)
    by_answer breaks h k = cc

abbrev pub with_id : ℕ → Transaction → Bool
with_id i x = x.id == i

-- The rows with the id of a given one are that one.
abbrev pub IsOnly : Transaction → Transaction → Type 0
IsOnly x r = r.id ≡ x.id → r ≡ x

none_with : (x : Transaction) (t : Table) → count_where (with_id x.id) t ≡ 0 → All (IsOnly x) t
none_with x [] h = tt
none_with x (r ∷ t) h = (λ e. absurd (ground arith), none_with x t (ground arith))

find_where-IsOnly :
    (x : Transaction) (t : Table)
    → find_where (with_id x.id) t ≡ some x
    → count_where (with_id x.id) t ≤ 1
    → All (IsOnly x) t
find_where-IsOnly x [] h once = tt
find_where-IsOnly x (r ∷ t) h once = elim (Bool-cases (with_id x.id r)) [
  | inl e ↦ let same : r ≡ x = ground arith in (λ k. same, none_with x t (ground arith))
  | inr e ↦ (λ k. absurd (ground arith), find_where-IsOnly x t (ground arith) (ground arith))
]

All-first : (x : Transaction) (n : ℕ) (t : Table) → All (IsOnly x) t → All (IsOnly x) (first n t)
All-first x zero t qs = tt
All-first x (suc n) [] qs = tt
All-first x (suc n) (r ∷ t) (q, qs) = (q, All-first x n t qs)

-- The row of a transaction, as the job has left it so far.
abbrev pub IsSettled : (ℕ → ℕ) → (ℕ → Lookup) → Transaction → Table → Type 0
IsSettled clock lookup x t =
    (y : Transaction) × (find_where (with_id x.id) t ≡ some y)
    × (y.id ≡ x.id)
    × (y.tx_hash ≡ x.tx_hash)
    × Settles clock lookup x.id (hash_of x) x.confirmation_expires_at x.status y.status

was_confirming :
    {clock : ℕ → ℕ} {lookup : ℕ → Lookup} {i hash : ℕ} {expiry : Option ℕ} {a b : Status}
    → Settles clock lookup i hash expiry a b
    → is_confirming b ≡ true
    → a ≡ confirming
was_confirming (stays confirming) h = refl
was_confirming (stays pending) h = cc
was_confirming (stays completed) h = cc
was_confirming (stays failed) h = cc
was_confirming (succeeds e) h = cc
was_confirming (fails e) h = cc
was_confirming (times_out e f) h = cc

set-IsSettled :
    (clock : ℕ → ℕ) (lookup : ℕ → Lookup) (x r : Transaction) (st : Status) (t : Table)
    → IsOnly x r
    → verdict (clock r.id) (lookup (hash_of r)) r ≡ some st
    → IsSettled clock lookup x t
    → IsSettled clock lookup x (set_final_status r.id st t)
unfolding set_final_status
set-IsSettled clock lookup x r st t only v (y, e, same_id, same_hash, settles) =
    let moved =
      find_where-update_where (with_id x.id) (has_id r.id) (λ z. record z { status = st }) t y
        (λ z. refl) e in
    elim (Bool-cases (has_id r.id y)) [
      | inr h ↦ (y, moved ∙ rw h refl, same_id, same_hash, settles)
      | inl h ↦
          let is_x : r ≡ x = only (ground arith) in
          let now_confirming : is_confirming y.status ≡ true = ground arith in
          let before : x.status ≡ confirming = was_confirming settles now_confirming in
          let it : verdict (clock x.id) (lookup (hash_of x)) x ≡ some st =
            subst (λ z. verdict (clock z.id) (lookup (hash_of z)) z ≡ some st) is_x v in
          (
            record y { status = st },
            moved ∙ rw h refl,
            same_id,
            same_hash,
            subst (λ a. Settles clock lookup x.id (hash_of x) x.confirmation_expires_at a st)
                (sym before) (verdict-Settles clock lookup x st it),
          )
    ]

rows-IsSettled :
    (clock : ℕ → ℕ) (lookup : ℕ → Lookup) (x : Transaction) (rs t : Table)
    → All (IsOnly x) rs
    → IsSettled clock lookup x t
    → IsSettled clock lookup x (reconcile_rows clock lookup rs t)
unfolding reconcile_rows
rows-IsSettled clock lookup x [] t qs v = v
rows-IsSettled clock lookup x (r ∷ rs) t (q, qs) v =
    elim (Option-cases (verdict (clock r.id) (lookup (hash_of r)) r)) [
      | inl e ↦ rw (reconcile_rows, e) (rows-IsSettled clock lookup x rs t qs v)
      | inr (st, e) ↦
          rw (reconcile_rows, e)
            (rows-IsSettled clock lookup x rs (set_final_status r.id st t) qs
              (set-IsSettled clock lookup x r st t q e v))
    ]

-- A run of the job leaves each payment as it is, but for one that is confirming: it is completed only where
-- the network has it as successful, and fails only where the network has it as unsuccessful, or has it
-- not and its time is over. No payment with another status is changed.
pub reconcile_transaction_confirmations-IsSettled :
    (clock : ℕ → ℕ) (lookup : ℕ → Lookup) (x : Transaction) (t : Table)
    → find_where (with_id x.id) t ≡ some x
    → count_where (with_id x.id) t ≤ 1
    → IsSettled clock lookup x (reconcile_transaction_confirmations clock lookup t)
unfolding reconcile_transaction_confirmations
reconcile_transaction_confirmations-IsSettled clock lookup x t e once =
    let all = find_where-IsOnly x t e once in
    rows-IsSettled clock lookup x (first batch_size (select_where is_due t)) t
      (All-first x batch_size (select_where is_due t) (All-select_where (IsOnly x) is_due t all))
      (x, e, refl, refl, stays x.status)
