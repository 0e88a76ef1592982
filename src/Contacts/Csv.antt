-- ===== src/Contacts/Csv.antt =====
-- The two parsers in `importContacts` of backend/src/controllers/contactsController.js. A character is its
-- code: 34 is the quote, 44 the comma, 10 and 13 end lines.
use cross_border_payment_app.Escrow.Amounts.{trim}
use cross_border_payment_app.Base.{
  ℕ, Bool, true, false, ◌&&◌, ◌||◌, not, List, [], ◌∷◌, ◌++◌, reverse, ◌==◌, if◌then◌else◌,
}

-- The variables of a loop: what is finished, in order; `current`, `inQuotes`, and whether the next
-- character is passed over, as `i++` has it.
pub record Scan : Type 0 where
  pub done : List (List ℕ)
  pub current : List ℕ
  pub in_quotes : Bool
  pub skip : Bool

abbrev pub begin : Scan
begin = record { done = []; current = []; in_quotes = false; skip = false }

-- `text[i + 1] === c`
abbrev pub next_is : ℕ → List ℕ → Bool
next_is c [] = false
next_is c (d ∷ ds) = d == c

-- A quote: two of them within quotes stand for one, any other begins or ends the quotes.
abbrev pub quote : List ℕ → Scan → Scan
quote rest s =
    if s.in_quotes && next_is 34 rest
    then record s { current = s.current ++ 34 ∷ []; skip = true }
    else record s { in_quotes = not s.in_quotes }

abbrev pub add : ℕ → Scan → Scan
add c s = record s { current = s.current ++ c ∷ [] }

-- `lines.push(current); current = ""`
abbrev pub push : List ℕ → Scan → Scan
push line s = record s { done = s.done ++ line ∷ []; current = [] }

-- One round of `splitCsvLines`
unfoldable pub split_step : ℕ → List ℕ → Scan → Scan
split_step c rest s =
    if s.skip
    then record s { skip = false }
    else if c == 34
    then quote rest s
    else if (c == 10 || (c == 13 && next_is 10 rest)) && not s.in_quotes
    then record (push s.current s) { skip = c == 13 }
    else if c == 13 && not s.in_quotes
    then push s.current s
    else add c s

unfoldable pub split_loop : List ℕ → Scan → Scan
unfolding split_step
split_loop [] s = s
split_loop (c ∷ cs) s = split_loop cs (split_step c cs s)

-- `text.endsWith("\n")`
abbrev pub ends_line : List ℕ → Bool
ends_line cs = next_is 10 (reverse cs)

abbrev pub is_empty {ℓ} : {A : Type ℓ} → List A → Bool
is_empty [] = true
is_empty (x ∷ xs) = false

-- `splitCsvLines`
unfoldable pub split_csv_lines : List ℕ → List (List ℕ)
unfolding split_loop
split_csv_lines text =
    let s = split_loop text begin in
    if not (is_empty s.current) || ends_line text then s.done ++ s.current ∷ [] else s.done

-- One round of `parseCsvFields`
unfoldable pub field_step : ℕ → List ℕ → Scan → Scan
field_step c rest s =
    if s.skip
    then record s { skip = false }
    else if c == 34
    then quote rest s
    else if c == 44 && not s.in_quotes
    then push (trim s.current) s
    else add c s

unfoldable pub field_loop : List ℕ → Scan → Scan
unfolding field_step
field_loop [] s = s
field_loop (c ∷ cs) s = field_loop cs (field_step c cs s)

-- `parseCsvFields`
unfoldable pub parse_csv_fields : List ℕ → List (List ℕ)
unfolding field_loop
parse_csv_fields line = let s = field_loop line begin in s.done ++ trim s.current ∷ []
