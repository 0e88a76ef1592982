-- ===== src/Contacts/Unique.antt =====
-- The table of contacts under the calls of backend/src/controllers/contactsController.js.
use cross_border_payment_app.Contacts.Csv.{split_csv_lines, is_empty}
use cross_border_payment_app.Contacts.Import.{
  import_lines, Summary, import_rows, import_contacts, validate_rows, validate_row, Columns,
  columns_of, data_lines, is_duplicate, max_import_rows, RowError,
}
use mathlib.Core.Path.{subst}
use cross_border_payment_app.Contacts.{merged, add_contact, is_for, Table, Contact}
use cross_border_payment_app.Contacts.Import.{Row, contact_of, insert_rows}
use cross_border_payment_app.Base.{
  ℕ, suc, ◌+◌, ◌≤◌, ◌≡◌, refl, ◌⊎◌, inl, inr, Bool, true, false, not, some, List, [], ◌∷◌, arith,
  ltb, Bool-cases, Option-cases, length, select_where, count_where, update_where, any,
  count-update_where, Reply, same_text_iff, json, rejected, forwarded,
}

-- The count of the contacts of a user for a wallet
abbrev pub times : ℕ → List ℕ → Table → ℕ
times user wallet t = count_where (is_for user wallet) t

-- At most one contact for each user and wallet
abbrev pub IsUnique : Table → Type 0
IsUnique t = (user : ℕ) (wallet : List ℕ) → times user wallet t ≤ 1

none_for : (p : Contact → Bool) (t : Table) → any p t ≡ false → count_where p t ≡ 0
none_for p [] h = refl
none_for p (c ∷ t) h = ground (arith, none_for p t)

new-IsUnique :
    (c : Contact) (t : Table)
    → any (is_for c.user_id c.wallet_address) t ≡ false
    → IsUnique t
    → IsUnique (c ∷ t)
new-IsUnique c t h v user wallet = elim (Bool-cases (is_for user wallet c)) [
  | inr e ↦ ground (arith, v user wallet)
  | inl e ↦
      let user_same : c.user_id ≡ user = ground arith in
      let wallet_same : c.wallet_address ≡ wallet =
        (same_text_iff c.wallet_address wallet).0 (ground arith) in
      let absent : times user wallet t ≡ 0 =
        subst (λ w. times user w t ≡ 0) wallet_same
          (subst (λ u. times u c.wallet_address t ≡ 0) user_same
            (none_for (is_for c.user_id c.wallet_address) t h)) in
      ground (arith, absent)
]

insert-IsUnique :
    (ids : ℕ → ℕ) (k user : ℕ) (rs : List Row) (t t' : Table)
    → insert_rows ids k user rs t ≡ some t'
    → IsUnique t
    → IsUnique t'
unfolding insert_rows
insert-IsUnique ids k user [] t t' e v = let same : t ≡ t' = cc in subst IsUnique same v
insert-IsUnique ids k user (r ∷ rs) t t' e v = elim (Bool-cases (any (is_for user r.address) t)) [
  | inl f ↦ absurd (ground arith)
  | inr f ↦
      insert-IsUnique ids (suc k) user rs (contact_of ids k user r ∷ t) t' (ground arith)
        (new-IsUnique (contact_of ids k user r) t f v)
]

count_split :
    (p : Row → Bool) (rs : List Row)
    → length (select_where (λ r. not (p r)) rs) + count_where p rs ≡ length rs
count_split p [] = refl
count_split p (r ∷ rs) = ground (arith, count_split p rs)

length-insert_rows :
    (ids : ℕ → ℕ) (k user : ℕ) (rs : List Row) (t t' : Table)
    → insert_rows ids k user rs t ≡ some t'
    → length t' ≡ length t + length rs
unfolding insert_rows
length-insert_rows ids k user [] t t' e = let same : t ≡ t' = cc in ground arith
length-insert_rows ids k user (r ∷ rs) t t' e = elim (Bool-cases (any (is_for user r.address) t)) [
  | inl f ↦ absurd (ground arith)
  | inr f ↦
      let rest =
        length-insert_rows ids (suc k) user rs (contact_of ids k user r ∷ t) t' (ground arith) in
      omega arith
]

Row-cases : (r : RowError ⊎ Row) → ((x : RowError) × (r ≡ inl x)) ⊎ ((y : Row) × (r ≡ inr y))
Row-cases (inl x) = inl (x, refl)
Row-cases (inr y) = inr (y, refl)

validated_all :
    (is_key : List ℕ → Bool) (cols : Columns) (n : ℕ) (lines : List (List ℕ))
    → let (errors, rows) = validate_rows is_key cols n lines in
      length errors + length rows ≡ length lines
unfolding validate_rows
validated_all is_key cols n [] = refl
validated_all is_key cols n (line ∷ lines) =
    let rest = validated_all is_key cols (suc n) lines in
    elim (Row-cases (validate_row is_key cols line)) [
      | inl (x, e) ↦ rw (validate_rows, e) (omega arith)
      | inr (r, e) ↦ rw (validate_rows, e) (omega arith)
    ]

abbrev pub is_json : Reply Summary → Bool
is_json (json m) = true
is_json (rejected status code) = false
is_json (forwarded e) = false

-- What an import comes to: nothing, with an error; or everything, with each row of the file counted as
-- imported, as a duplicate or as failed.
abbrev pub IsComplete : ℕ → Reply Summary × Table → Table → Type 0
IsComplete rows (reply, t') t =
    ((t' ≡ t) × (is_json reply ≡ false))
    ⊎ ((m : Summary) × (reply ≡ json m)
        × (m.imported + m.skipped_duplicates + m.failed ≡ rows)
        × (length t' ≡ length t + m.imported)
        × (IsUnique t → IsUnique t'))

import_rows-IsComplete :
    (ids : ℕ → ℕ) (user : ℕ) (errors : List (ℕ × RowError)) (rows : List Row) (t : Table)
    → IsComplete (length errors + length rows) (import_rows ids user errors rows t) t
unfolding import_rows
import_rows-IsComplete ids user errors rows t =
    let to_insert = select_where (λ r. not (is_duplicate user t r)) rows in
    elim (Option-cases (insert_rows ids 0 user to_insert t)) [
      | inl e ↦ rw (import_rows, e) (inl (refl, refl))
      | inr (t', e) ↦
          rw (import_rows, e)
            (inr (
              record {
                imported = length to_insert;
                skipped_duplicates = count_where (is_duplicate user t) rows;
                failed = length errors;
                errors = errors;
              },
              refl,
              (let split = count_split (is_duplicate user t) rows in omega arith),
              length-insert_rows ids 0 user to_insert t t' e,
              insert-IsUnique ids 0 user to_insert t t' e,
            ))
    ]

import_lines-IsComplete :
    (is_key : List ℕ → Bool) (ids : ℕ → ℕ) (user : ℕ) (header : List ℕ) (rest : List (List ℕ))
    (t : Table)
    → IsComplete (length (data_lines rest)) (import_lines is_key ids user header rest t) t
import_lines-IsComplete is_key ids user header rest t = elim (Option-cases (columns_of header)) [
  | inl g ↦ rw (import_lines, g) (inl (refl, refl))
  | inr (cols, g) ↦ elim (Bool-cases (is_empty (data_lines rest))) [
    | inl h ↦ rw (import_lines, g, h) (inl (refl, refl))
    | inr h ↦ elim (Bool-cases (ltb max_import_rows (length (data_lines rest)))) [
      | inl i ↦ rw (import_lines, g, h, i) (inl (refl, refl))
      | inr i ↦
          let checked = validate_rows is_key cols 2 (data_lines rest) in
          rw (import_lines, g, h, i)
            (subst (λ n. IsComplete n (import_rows ids user checked.0 checked.1 t) t)
              (validated_all is_key cols 2 (data_lines rest))
              (import_rows-IsComplete ids user checked.0 checked.1 t))
    ]
  ]
]

-- Each import is complete or changes nothing: the reply is an error and the table is as it was, or each line
-- of the file after the header that is not blank is counted as imported, skipped or failed, the table
-- has grown by those imported, and has one row at most for each user and wallet if it had before.
pub import_contacts-IsComplete :
    (is_key : List ℕ → Bool) (ids : ℕ → ℕ) (user : ℕ) (header : List ℕ) (rest : List (List ℕ))
    (text : List ℕ) (t : Table)
    → split_csv_lines text ≡ header ∷ rest
    → IsComplete (length (data_lines rest)) (import_contacts is_key ids user (some text) t) t
unfolding import_contacts
import_contacts-IsComplete is_key ids user header rest text t e =
    elim (Bool-cases (is_empty rest)) [
      | inl f ↦ rw (import_contacts, e, f) (inl (refl, refl))
      | inr f ↦ rw (import_contacts, e, f) (import_lines-IsComplete is_key ids user header rest t)
    ]

count_added :
    (user : ℕ) (wallet : List ℕ) (c : Contact) (t : Table)
    → times user wallet (update_where (is_for c.user_id c.wallet_address) (merged c) t)
      ≡ times user wallet t
count_added user wallet c t =
    count-update_where (is_for user wallet) (is_for c.user_id c.wallet_address) (merged c) t
      (λ x. refl)

-- A contact that is added, anew or over the one that is there, leaves at most one for each user and wallet.
pub add_contact-IsUnique : (c : Contact) (t : Table) → IsUnique t → IsUnique (add_contact c t).1
unfolding add_contact
add_contact-IsUnique c t v = elim (Bool-cases (any (is_for c.user_id c.wallet_address) t)) [
  | inl e ↦ rw (add_contact, e) (λ user wallet. rw (count_added user wallet c t) (v user wallet))
  | inr e ↦ rw (add_contact, e) (new-IsUnique c t e v)
]
