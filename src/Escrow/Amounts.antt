-- ===== src/Escrow/Amounts.antt =====
-- `amountToStroops` of backend/src/controllers/agentEscrowController.js: decimal texts, by the codes of
-- their characters, as units of 10^-7.
pub mod Printing
mod Examples
use cross_border_payment_app.Base.{
  ℕ, zero, suc, ◌+◌, ◌-◌, ◌*◌, Bool, true, false, ◌&&◌, ◌||◌, not, Option, none, some, List, [],
  ◌∷◌, ◌++◌, reverse, leb, ◌==◌, if◌then◌else◌, length,
}

-- The characters that `trim` removes.
abbrev pub is_space : ℕ → Bool
is_space c =
    (leb 9 c && leb c 13)
    || c == 32
    || c == 160
    || c == 5760
    || (leb 8192 c && leb c 8202)
    || c == 8232
    || c == 8233
    || c == 8239
    || c == 8287
    || c == 12288
    || c == 65279

abbrev pub is_digit : ℕ → Bool
is_digit c = leb 48 c && leb c 57

unfoldable pub trim_start : List ℕ → List ℕ
trim_start [] = []
trim_start (c ∷ cs) = let rest = trim_start cs in if is_space c then rest else c ∷ cs

unfoldable pub trim : List ℕ → List ℕ
unfolding trim_start
trim cs = reverse (trim_start (reverse (trim_start cs)))

-- The digits at the front, and what follows them.
pub span_digits : List ℕ → List ℕ × List ℕ
span_digits [] = ([], [])
span_digits (c ∷ cs) =
    let (ds, rest) = span_digits cs in if is_digit c then (c ∷ ds, rest) else ([], c ∷ cs)

abbrev pub is_empty : List ℕ → Bool
is_empty [] = true
is_empty (c ∷ cs) = false

-- `/^\d+(\.\d{1,7})?$/`, with the two parts of `split(".")`; a missing fraction is "".
abbrev pub fraction_of : List ℕ → List ℕ → Option (List ℕ × List ℕ)
fraction_of whole [] = some (whole, [])
fraction_of whole (c ∷ cs) =
    let (ds, rest) = span_digits cs in
    if (c == 46) && not (is_empty ds) && leb (length ds) 7 && is_empty rest
    then some (whole, ds)
    else none

pub match_decimal : List ℕ → Option (List ℕ × List ℕ)
unfolding span_digits
match_decimal cs =
    let (whole, rest) = span_digits cs in if is_empty whole then none else fraction_of whole rest

-- `BigInt` of a text of digits
pub big_int : ℕ → List ℕ → ℕ
big_int n [] = n
big_int n (c ∷ cs) = big_int (n * 10 + (c - 48)) cs

abbrev pub take : ℕ → List ℕ → List ℕ
take zero cs = []
take (suc n) [] = []
take (suc n) (c ∷ cs) = c ∷ take n cs

abbrev pub seven_zeros : List ℕ
seven_zeros = 48 ∷ 48 ∷ 48 ∷ 48 ∷ 48 ∷ 48 ∷ 48 ∷ []

pub amount_to_stroops : List ℕ → Option ℕ
unfolding trim match_decimal big_int
amount_to_stroops cs = elim (match_decimal (trim cs)) [
  | none ↦ none
  | some (whole, fraction) ↦
      let stroops = big_int 0 whole * 10000000 + big_int 0 (take 7 (fraction ++ seven_zeros)) in
      if stroops == 0 then none else some stroops
]
