-- ===== src/Contacts/Import.antt =====
-- `importContacts` of backend/src/controllers/contactsController.js, from the lines of the file on.
use cross_border_payment_app.Contacts.{is_for, Contact, Table}
use cross_border_payment_app.Escrow.Amounts.{trim}
use cross_border_payment_app.Contacts.Csv.{split_csv_lines, parse_csv_fields, is_empty}
use cross_border_payment_app.Base.{
  ℕ, zero, suc, ◌+◌, ◌⊎◌, inl, inr, Bool, false, ◌&&◌, not, Option, none, some, List, [], ◌∷◌, map,
  ltb, leb, ◌==◌, if◌then◌else◌, length, select_where, count_where, any, plain_error, Reply,
  same_text, json, rejected, forwarded,
}

-- `toLowerCase` on the letters of ASCII, and the mark at the beginning of a file
abbrev pub lower : ℕ → ℕ
lower c = if leb 65 c && leb c 90 then c + 32 else c

abbrev pub strip_mark : List ℕ → List ℕ
strip_mark [] = []
strip_mark (c ∷ cs) = if c == 65279 then cs else c ∷ cs

-- `headers.indexOf(name)`
unfoldable pub index_of : List ℕ → List (List ℕ) → Option ℕ
index_of name [] = none
index_of name (h ∷ hs) =
    let rest = index_of name hs in
    if same_text h name then some 0 else elim rest [ none ↦ none | some i ↦ some (suc i) ]

-- `fields[i] || ""`
abbrev pub field_at : ℕ → List (List ℕ) → List ℕ
field_at i [] = []
field_at zero (f ∷ fs) = f
field_at (suc i) (f ∷ fs) = field_at i fs

-- "name", "address" and "email"
abbrev pub name_header : List ℕ
name_header = 110 ∷ 97 ∷ 109 ∷ 101 ∷ []

abbrev pub address_header : List ℕ
address_header = 97 ∷ 100 ∷ 100 ∷ 114 ∷ 101 ∷ 115 ∷ 115 ∷ []

abbrev pub email_header : List ℕ
email_header = 101 ∷ 109 ∷ 97 ∷ 105 ∷ 108 ∷ []

pub record Columns : Type 0 where
  pub name : ℕ
  pub address : ℕ
  pub email : Option ℕ

pub data RowError : Type 0 where
  name_required name_too_long address_required invalid_address : RowError

-- A row that is valid, and a row that is not, by its number in the file
pub record Row : Type 0 where
  pub name : List ℕ
  pub address : List ℕ
  pub email : Option (List ℕ)

-- MAX_IMPORT_ROWS and MAX_NAME_LENGTH
abbrev pub max_import_rows : ℕ
max_import_rows = 500

abbrev pub max_name_length : ℕ
max_name_length = 100

abbrev pub or_null : List ℕ → Option (List ℕ)
or_null [] = none
or_null (c ∷ cs) = some (c ∷ cs)

abbrev pub email_of : Option ℕ → List (List ℕ) → List ℕ
email_of none fields = []
email_of (some i) fields = trim (field_at i fields)

-- One row of phase 1; `is_key` is `StrKey.isValidEd25519PublicKey`.
unfoldable pub validate_row : (List ℕ → Bool) → Columns → List ℕ → RowError ⊎ Row
validate_row is_key cols line =
    let fields = parse_csv_fields line in
    let name = trim (field_at cols.name fields) in
    let address = trim (field_at cols.address fields) in
    let email = email_of cols.email fields in
    if is_empty name
    then inl name_required
    else if ltb max_name_length (length name)
    then inl name_too_long
    else if is_empty address
    then inl address_required
    else if not (is_key address)
    then inl invalid_address
    else inr (record { name = name; address = address; email = or_null email })

-- Phase 1: the errors with the numbers of their rows, and the valid rows
unfoldable pub validate_rows :
    (List ℕ → Bool) → Columns → ℕ → List (List ℕ) → List (ℕ × RowError) × List Row
unfolding validate_row
validate_rows is_key cols n [] = ([], [])
validate_rows is_key cols n (line ∷ lines) =
    let (errors, rows) = validate_rows is_key cols (suc n) lines in
    elim (validate_row is_key cols line) [
      | inl e ↦ ((n, e) ∷ errors, rows)
      | inr r ↦ (errors, r ∷ rows)
    ]

-- Phase 2: a row whose address the user has already is a duplicate.
abbrev pub is_duplicate : ℕ → Table → Row → Bool
is_duplicate user t r = any (is_for user r.address) t

abbrev pub contact_of : (ℕ → ℕ) → ℕ → ℕ → Row → Contact
contact_of ids k user r = record {
  id = ids k;
  user_id = user;
  name = r.name;
  wallet_address = r.address;
  notes = r.email;
  memo_required = false;
  default_memo = none;
  tags = [];
}

-- Phase 3: the inserts of the transaction; `none` when one of them violates the constraint.
unfoldable pub insert_rows : (ℕ → ℕ) → ℕ → ℕ → List Row → Table → Option Table
insert_rows ids k user [] t = some t
insert_rows ids k user (r ∷ rs) t =
    let done = insert_rows ids (suc k) user rs (contact_of ids k user r ∷ t) in
    if any (is_for user r.address) t then none else done

pub record Summary : Type 0 where
  pub imported : ℕ
  pub skipped_duplicates : ℕ
  pub failed : ℕ
  pub errors : List (ℕ × RowError)

-- Phases 2 and 3, and the reply
unfoldable pub import_rows :
    (ℕ → ℕ) → ℕ → List (ℕ × RowError) → List Row → Table → Reply Summary × Table
unfolding insert_rows
import_rows ids user errors rows t =
    let to_insert = select_where (λ r. not (is_duplicate user t r)) rows in
    elim (insert_rows ids 0 user to_insert t) [
      | none ↦ (forwarded plain_error, t)
      | some t' ↦ (
        json (record {
          imported = length to_insert;
          skipped_duplicates = count_where (is_duplicate user t) rows;
          failed = length errors;
          errors = errors;
        }),
        t',
      )
    ]

abbrev pub is_blank : List ℕ → Bool
is_blank line = is_empty (trim line)

-- The lines after the header, without the blank ones
abbrev pub data_lines : List (List ℕ) → List (List ℕ)
data_lines lines = select_where (λ l. not (is_blank l)) lines

-- The columns of a header
unfoldable pub columns_of : List ℕ → Option Columns
unfolding index_of
columns_of line =
    let headers = parse_csv_fields (map lower (strip_mark line)) in
    elim (index_of name_header headers) [
      | none ↦ none
      | some n ↦ elim (index_of address_header headers) [
        | none ↦ none
        | some a ↦ some (record { name = n; address = a; email = index_of email_header headers })
      ]
    ]

-- A file that has a header and at least one line
abbrev pub import_lines :
    (List ℕ → Bool) → (ℕ → ℕ) → ℕ → List ℕ → List (List ℕ) → Table → Reply Summary × Table
import_lines is_key ids user header rest t = elim (columns_of header) [
  | none ↦ (rejected 400 "", t)
  | some cols ↦
      let rows = data_lines rest in
      if is_empty rows
      then (rejected 400 "", t)
      else if ltb max_import_rows (length rows)
      then (rejected 400 "", t)
      else let (errors, valid) = validate_rows is_key cols 2 rows in
        import_rows ids user errors valid t
]

-- `importContacts`, with the text of the file, if there is one
unfoldable pub import_contacts :
    (List ℕ → Bool) → (ℕ → ℕ) → ℕ → Option (List ℕ) → Table → Reply Summary × Table
unfolding columns_of validate_rows import_rows
import_contacts is_key ids user none t = (rejected 400 "", t)
import_contacts is_key ids user (some text) t = elim (split_csv_lines text) [
  | [] ↦ (rejected 400 "", t)
  | header ∷ rest ↦
      if is_empty rest then (rejected 400 "", t) else import_lines is_key ids user header rest t
]
