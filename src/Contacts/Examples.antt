-- ===== src/Contacts/Examples.antt =====
-- Lines of CSV, and the address book.
use cross_border_payment_app.Contacts.{Contact, delete_contact, get_contacts, add_contact}
use cross_border_payment_app.Contacts.Csv.{
  split_csv_lines, split_step, split_loop, field_step, field_loop, parse_csv_fields, begin,
}
use cross_border_payment_app.Contacts.Quoting.{print_line, parse_csv_fields-print_line}
use cross_border_payment_app.Contacts.Import.{
  Columns, index_of, name_header, address_header, validate_row, validate_rows, columns_of,
  insert_rows, import_rows, import_contacts, data_lines, invalid_address,
}
use cross_border_payment_app.Contacts.Unique.{import_contacts-IsComplete, IsComplete}
use cross_border_payment_app.Escrow.Amounts.{trim}
use cross_border_payment_app.Base.{
  ℕ, ◌+◌, ◌≡◌, refl, inl, Bool, true, false, none, some, List, [], ◌∷◌, ◌++◌, map, length,
  plain_error, json, forwarded,
}

-- The text `"a,b"`, with its quotes
abbrev quoted : List ℕ
quoted = 34 ∷ 97 ∷ 44 ∷ 98 ∷ 34 ∷ []

one_field : parse_csv_fields quoted ≡ trim (97 ∷ 44 ∷ 98 ∷ []) ∷ []
unfolding parse_csv_fields
one_field = refl

-- The quotes are gone from the lines of a file, so that the comma within them parts two fields.
quotes_lost : split_csv_lines quoted ≡ (97 ∷ 44 ∷ 98 ∷ []) ∷ []
unfolding split_csv_lines
quotes_lost = refl

crlf : (split_loop (97 ∷ 13 ∷ 10 ∷ 98 ∷ []) begin).done ≡ (97 ∷ []) ∷ []
unfolding split_loop
crlf = refl

a_comma : (field_step 44 [] begin).done ≡ trim [] ∷ []
unfolding field_step
a_comma = refl

a_letter : (split_step 97 [] begin).current ≡ 97 ∷ []
unfolding split_step
a_letter = refl

looped : (field_loop (97 ∷ 98 ∷ []) begin).current ≡ 97 ∷ 98 ∷ []
unfolding field_loop
looped = refl

second : index_of (98 ∷ []) ((97 ∷ []) ∷ (98 ∷ []) ∷ []) ≡ some 1
unfolding index_of
second = refl

-- Each text that is not empty is taken for a key.
abbrev is_key : List ℕ → Bool
is_key [] = false
is_key (c ∷ cs) = true

abbrev ids : ℕ → ℕ
ids k = 10 + k

-- "name,address" and "b,k", on two lines
abbrev file : List ℕ
file = name_header ++ 44 ∷ address_header ++ 10 ∷ 98 ∷ 44 ∷ 107 ∷ []

abbrev contact : Contact
contact = record {
  id = 10;
  user_id = 9;
  name = 98 ∷ [];
  wallet_address = 107 ∷ [];
  notes = none;
  memo_required = false;
  default_memo = none;
  tags = [];
}

abbrev columns : Columns
columns = record { name = 0; address = 1; email = none }

found_columns : columns_of (name_header ++ 44 ∷ address_header) ≡ some columns
unfolding columns_of parse_csv_fields trim
found_columns = refl

no_key : validate_row (λ k. false) columns (98 ∷ 44 ∷ 107 ∷ []) ≡ inl invalid_address
unfolding validate_row parse_csv_fields trim
no_key = refl

numbered :
    (validate_rows (λ k. false) columns 2 ((98 ∷ 44 ∷ 107 ∷ []) ∷ [])).0 ≡ (2, invalid_address) ∷ []
unfolding validate_rows parse_csv_fields trim
numbered = refl

imported : (import_contacts is_key ids 9 (some file) []).1 ≡ contact ∷ []
unfolding import_contacts split_csv_lines columns_of parse_csv_fields validate_rows import_rows trim
imported = refl

-- The same address on two lines makes the whole import fail.
same_twice :
    (import_contacts is_key ids 9 (some (file ++ 10 ∷ 99 ∷ 44 ∷ 107 ∷ [])) []).0
    ≡ forwarded plain_error
unfolding import_contacts split_csv_lines columns_of parse_csv_fields validate_rows import_rows trim
same_twice = refl

skipped :
    (import_rows ids 9 []
      (record { name = 98 ∷ []; address = 107 ∷ []; email = none } ∷ [])
      (contact ∷ [])).1
    ≡ contact ∷ []
unfolding import_rows
skipped = refl

clash :
    insert_rows ids 0 9 (record { name = []; address = 107 ∷ []; email = none } ∷ []) (contact ∷ [])
    ≡ none
unfolding insert_rows
clash = refl

updated :
    add_contact (record contact { id = 11; name = 99 ∷ [] }) (contact ∷ [])
    ≡ (false, record contact { name = 99 ∷ [] } ∷ [])
unfolding add_contact
updated = refl

removed : delete_contact 9 10 (contact ∷ []) ≡ (json tt, [])
unfolding delete_contact
removed = refl

tagged : get_contacts 9 (some 3) (contact ∷ []) ≡ json []
unfolding get_contacts
tagged = refl

parse_csv_fields-print_line_example :
    parse_csv_fields (print_line (97 ∷ 34 ∷ 44 ∷ []) ((98 ∷ []) ∷ []))
    ≡ trim (97 ∷ 34 ∷ 44 ∷ []) ∷ map trim ((98 ∷ []) ∷ [])
parse_csv_fields-print_line_example =
    parse_csv_fields-print_line (97 ∷ 34 ∷ 44 ∷ []) ((98 ∷ []) ∷ [])

two_lines : split_csv_lines file ≡ (name_header ++ 44 ∷ address_header) ∷ (98 ∷ 44 ∷ 107 ∷ []) ∷ []
unfolding split_csv_lines
two_lines = refl

import_contacts-IsComplete_example :
    IsComplete
      (length (data_lines ((98 ∷ 44 ∷ 107 ∷ []) ∷ [])))
      (import_contacts is_key ids 9 (some file) [])
      []
import_contacts-IsComplete_example =
    import_contacts-IsComplete is_key ids 9 (name_header ++ 44 ∷ address_header)
      ((98 ∷ 44 ∷ 107 ∷ []) ∷ []) file [] two_lines
