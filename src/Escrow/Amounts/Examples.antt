-- ===== src/Escrow/Amounts/Examples.antt =====
-- Texts of amounts, as backend/src/controllers/agentEscrowController.js reads them.
use cross_border_payment_app.Escrow.Amounts.{
  trim_start, trim, span_digits, match_decimal, big_int, amount_to_stroops,
}
use cross_border_payment_app.Escrow.Amounts.Printing.{print, amount_to_stroops-print}
use cross_border_payment_app.Base.{◌≡◌, refl, none, some, [], ◌∷◌, arith}

-- " 1.5 " is one unit and a half.
spaced : amount_to_stroops (32 ∷ 49 ∷ 46 ∷ 53 ∷ 32 ∷ []) ≡ some 15000000
unfolding amount_to_stroops match_decimal big_int trim trim_start span_digits
spaced = refl

-- "1." is refused.
no_fraction : amount_to_stroops (49 ∷ 46 ∷ []) ≡ none
unfolding amount_to_stroops match_decimal big_int trim trim_start span_digits
no_fraction = refl

-- "1.2345678" is refused.
eight_digits : amount_to_stroops (49 ∷ 46 ∷ 50 ∷ 51 ∷ 52 ∷ 53 ∷ 54 ∷ 55 ∷ 56 ∷ 57 ∷ []) ≡ none
unfolding amount_to_stroops match_decimal big_int trim trim_start span_digits
eight_digits = refl

amount_to_stroops-print_example : amount_to_stroops (print 2 123456789) ≡ some 123456789
amount_to_stroops-print_example =
    amount_to_stroops-print 2 123456789 (ground arith) (ground arith) (ground arith)
