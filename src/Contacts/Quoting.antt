-- ===== src/Contacts/Quoting.antt =====
-- Fields that are quoted come back from `parseCsvFields` of
use cross_border_payment_app.Escrow.Amounts.{trim}
-- backend/src/controllers/contactsController.js.
use cross_border_payment_app.Contacts.Csv.{parse_csv_fields, field_step, Scan, field_loop}
use cross_border_payment_app.Base.{
  ℕ, ◌≡◌, refl, sym, ap, ◌∙◌, inl, inr, Bool, true, false, List, [], ◌∷◌, ◌++◌, map, arith, ◌==◌,
  if◌then◌else◌, Bool-cases,
}

-- A field as RFC 4180 has it: within quotes, and each quote of it doubled.
abbrev pub escape : List ℕ → List ℕ
escape [] = []
escape (c ∷ cs) = let rest = escape cs in if c == 34 then 34 ∷ 34 ∷ rest else c ∷ rest

abbrev pub print_field : List ℕ → List ℕ
print_field f = 34 ∷ escape f ++ 34 ∷ []

abbrev pub print_more : List (List ℕ) → List ℕ
print_more [] = []
print_more (f ∷ fs) = 44 ∷ 34 ∷ escape f ++ 34 ∷ print_more fs

-- A line of a field and more fields, with commas between them
abbrev pub print_line : List ℕ → List (List ℕ) → List ℕ
print_line f fs = 34 ∷ escape f ++ 34 ∷ print_more fs

abbrev scan : List (List ℕ) → List ℕ → Bool → Scan
scan done current quoted = record {
  done = done;
  current = current;
  in_quotes = quoted;
  skip = false;
}

assoc_cons : (xs : List ℕ) (c : ℕ) (cs : List ℕ) → (xs ++ c ∷ []) ++ cs ≡ xs ++ c ∷ cs
assoc_cons [] c cs = refl
assoc_cons (x ∷ xs) c cs = ap (λ z. x ∷ z) (assoc_cons xs c cs)

append_nil : (xs : List ℕ) → xs ++ [] ≡ xs
append_nil [] = refl
append_nil (x ∷ xs) = ap (λ z. x ∷ z) (append_nil xs)

ordinary :
    (c : ℕ) (rest : List ℕ) (done : List (List ℕ)) (current : List ℕ)
    → (c == 34) ≡ false
    → field_step c rest (scan done current true) ≡ scan done (current ++ c ∷ []) true
unfolding field_step
ordinary c rest done current e = elim (Bool-cases (c == 44)) [
  | inl f ↦ rw (field_step, e, f) refl
  | inr f ↦ rw (field_step, e, f) refl
]

loop-escape :
    (f rest : List ℕ) (done : List (List ℕ)) (current : List ℕ)
    → field_loop (escape f ++ 34 ∷ rest) (scan done current true)
      ≡ field_loop (34 ∷ rest) (scan done (current ++ f) true)
unfolding field_loop
loop-escape [] rest done current =
    ap (λ z. field_loop (34 ∷ rest) (scan done z true)) (sym (append_nil current))
loop-escape (c ∷ cs) rest done current = elim (Bool-cases (c == 34)) [
  | inl e ↦
      let same : c ≡ 34 = ground arith in
      rw (e, same)
        (loop-escape cs rest done (current ++ 34 ∷ [])
          ∙ ap (λ z. field_loop (34 ∷ rest) (scan done z true)) (assoc_cons current 34 cs))
  | inr e ↦
      let tail = escape cs ++ 34 ∷ rest in
      let printed : escape (c ∷ cs) ++ 34 ∷ rest ≡ c ∷ tail = rw e refl in
      ap (λ z. field_loop z (scan done current true)) printed
      ∙ ap (field_loop tail) (ordinary c tail done current e)
      ∙ loop-escape cs rest done (current ++ c ∷ [])
      ∙ ap (λ z. field_loop (34 ∷ rest) (scan done z true)) (assoc_cons current c cs)
]

-- What a scan gives when its line ends
abbrev finish : Scan → List (List ℕ)
finish s = s.done ++ trim s.current ∷ []

append_assoc_list :
    (xs : List (List ℕ)) (y : List ℕ) (ys : List (List ℕ)) → (xs ++ y ∷ []) ++ ys ≡ xs ++ y ∷ ys
append_assoc_list [] y ys = refl
append_assoc_list (x ∷ xs) y ys = ap (λ z. x ∷ z) (append_assoc_list xs y ys)

finish-loop :
    (f : List ℕ) (fs done : List (List ℕ))
    → finish (field_loop (escape f ++ 34 ∷ print_more fs) (scan done [] true))
      ≡ done ++ trim f ∷ map trim fs
unfolding field_loop
finish-loop f [] done = ap finish (loop-escape f [] done [])
finish-loop f (g ∷ fs) done =
    ap finish (loop-escape f (print_more (g ∷ fs)) done [])
    ∙ finish-loop g fs (done ++ trim f ∷ [])
    ∙ append_assoc_list done (trim f) (trim g ∷ map trim fs)

-- A line whose fields are quoted, with their quotes doubled, is parsed into its fields, whatever commas and
-- quotes they hold, but for the spaces around them.
pub parse_csv_fields-print_line :
    (f : List ℕ) (fs : List (List ℕ)) → parse_csv_fields (print_line f fs) ≡ trim f ∷ map trim fs
unfolding parse_csv_fields
parse_csv_fields-print_line f fs = finish-loop f fs []
