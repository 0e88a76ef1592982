-- ===== src/Escrow/Amounts/Printing.antt =====
-- A text that `amountToStroops` reads back.
use cross_border_payment_app.Escrow.Amounts.{
  is_space, trim_start, trim, is_empty, match_decimal, take, seven_zeros, amount_to_stroops,
  is_digit, span_digits, big_int,
}
use mathlib.Core.Path.{subst}
use mathlib.Core.List.{reverse-cons, reverse-reverse, append-nil}
use native.Mathlib.Nat.{pow-suc}
use cross_border_payment_app.Base.{
  ℕ, zero, suc, ◌+◌, ◌-◌, ◌*◌, ◌/◌, ◌%◌, ◌^◌, ◌<◌, ◌≡◌, refl, ap, ◌∙◌, true, false, some, List, [],
  ◌∷◌, ◌++◌, reverse, arith, length, length-append, All, All-append,
}

abbrev pub digit : ℕ → ℕ
digit n = 48 + n % 10

-- The last `k` digits of a number.
pub last_digits : ℕ → ℕ → List ℕ
last_digits zero n = []
last_digits (suc k) n = last_digits k (n / 10) ++ digit n ∷ []

-- A number of units, printed with `k` digits before the point and seven after it.
pub print : ℕ → ℕ → List ℕ
unfolding last_digits
print k n = last_digits k (n / 10000000) ++ 46 ∷ last_digits 7 n

abbrev AllDigits : List ℕ → Type 0
AllDigits cs = All (λ c. is_digit c ≡ true) cs

last_digits-AllDigits : (k n : ℕ) → AllDigits (last_digits k n)
unfolding last_digits
last_digits-AllDigits zero n = tt
last_digits-AllDigits (suc k) n =
    All-append (λ c. is_digit c ≡ true) (last_digits k (n / 10)) (digit n)
      (last_digits-AllDigits k (n / 10)) (ground arith)

length-last_digits : (k n : ℕ) → length (last_digits k n) ≡ k
unfolding last_digits
length-last_digits zero n = refl
length-last_digits (suc k) n = omega (arith, length-append {0}, length-last_digits k (n / 10))

big_int-append : (a c : ℕ) (cs : List ℕ) → big_int a (cs ++ c ∷ []) ≡ big_int a cs * 10 + (c - 48)
unfolding big_int
big_int-append a c [] = refl
big_int-append a c (d ∷ cs) = big_int-append (a * 10 + (d - 48)) c cs

-- The last digits of a number, read, leave a multiple of a power of ten.
big_int-last_digits :
    (k n : ℕ)
    → ((t : ℕ) × (n ≡ t * 10 ^ k + big_int 0 (last_digits k n)))
      × (big_int 0 (last_digits k n) < 10 ^ k)
unfolding big_int last_digits
big_int-last_digits zero n = ((n, omega arith), omega arith)
big_int-last_digits (suc k) n =
    let ((t, e), lt) = big_int-last_digits k (n / 10) in
    let step = big_int-append 0 (digit n) (last_digits k (n / 10)) in
    rw (pow-suc 10 k, step) ((t, grind arith), omega arith)

big_int-all_digits : (k n : ℕ) → n < 10 ^ k → big_int 0 (last_digits k n) ≡ n
unfolding big_int last_digits
big_int-all_digits zero n h = omega arith
big_int-all_digits (suc k) n h =
    let below : n < 10 ^ k * 10 = rw (← pow-suc 10 k) h in
    omega (
      arith,
      big_int-append 0 (digit n) (last_digits k (n / 10)),
      big_int-all_digits k (n / 10) (omega arith),
    )

-- Digits are read up to what is not one.
span_digits-append :
    (ds rest : List ℕ)
    → AllDigits ds
    → span_digits rest ≡ ([], rest)
    → span_digits (ds ++ rest) ≡ (ds, rest)
unfolding span_digits
span_digits-append [] rest d h = h
span_digits-append (c ∷ ds) rest d h = ground (arith, span_digits-append ds rest d.1 h)

abbrev AllPlain : List ℕ → Type 0
AllPlain cs = All (λ c. is_space c ≡ false) cs

AllPlain-digits : (cs rest : List ℕ) → AllDigits cs → AllPlain rest → AllPlain (cs ++ rest)
AllPlain-digits [] rest d p = p
AllPlain-digits (c ∷ cs) rest d p = (ground arith, AllPlain-digits cs rest d.1 p)

AllPlain-reverse : (cs : List ℕ) → AllPlain cs → AllPlain (reverse cs)
AllPlain-reverse [] d = tt
AllPlain-reverse (c ∷ cs) d =
    rw (reverse-cons c cs)
      (All-append (λ c. is_space c ≡ false) (reverse cs) c (AllPlain-reverse cs d.1) d.0)

AllPlain-trim_start : (cs : List ℕ) → AllPlain cs → trim_start cs ≡ cs
unfolding trim_start
AllPlain-trim_start [] d = refl
AllPlain-trim_start (c ∷ cs) d = ground arith

AllPlain-trim : (cs : List ℕ) → AllPlain cs → trim cs ≡ cs
unfolding trim
AllPlain-trim cs p =
    rw
      (
        AllPlain-trim_start cs p,
        AllPlain-trim_start (reverse cs) (AllPlain-reverse cs p),
        reverse-reverse cs,
      )
      refl

print-AllPlain : (k n : ℕ) → AllPlain (print k n)
unfolding print
print-AllPlain k n =
    let seven : AllPlain (last_digits 7 n ++ []) =
      AllPlain-digits (last_digits 7 n) [] (last_digits-AllDigits 7 n) tt in
    AllPlain-digits (last_digits k (n / 10000000)) (46 ∷ last_digits 7 n)
      (last_digits-AllDigits k (n / 10000000))
      (ground arith, subst AllPlain (append-nil (last_digits 7 n)) seven)

not_empty : (cs : List ℕ) → 0 < length cs → is_empty cs ≡ false
not_empty [] h = absurd (omega arith)
not_empty (c ∷ cs) h = refl

match_decimal-digits :
    (whole fraction : List ℕ)
    → AllDigits whole
    → AllDigits fraction
    → 0 < length whole
    → length fraction ≡ 7
    → match_decimal (whole ++ 46 ∷ fraction) ≡ some (whole, fraction)
unfolding match_decimal
match_decimal-digits whole fraction dw df nw nf =
    let all : span_digits (fraction ++ []) ≡ (fraction, []) =
      span_digits-append fraction [] df (unfold span_digits in refl) in
    let all' = rw (append-nil fraction) at all in
    let front =
      span_digits-append whole (46 ∷ fraction) dw (unfold span_digits in (ground arith)) in
    let some_whole = not_empty whole nw in
    let some_fraction = not_empty fraction (omega arith) in
    rw (front, some_whole, all', some_fraction, nf) refl

take_append : (cs zs : List ℕ) → take (length cs) (cs ++ zs) ≡ cs
take_append [] zs = refl
take_append (c ∷ cs) zs = ap (λ ds. c ∷ ds) (take_append cs zs)

take_seven : (cs : List ℕ) → length cs ≡ 7 → take 7 (cs ++ seven_zeros) ≡ cs
take_seven cs h = rw (← h) (take_append cs seven_zeros)

printed : print 2 123456789 ≡ 49 ∷ 50 ∷ 46 ∷ 51 ∷ 52 ∷ 53 ∷ 54 ∷ 55 ∷ 56 ∷ 57 ∷ []
unfolding print last_digits
printed = refl

amount_to_stroops-parts :
    (cs whole fraction : List ℕ) (n : ℕ)
    → match_decimal (trim cs) ≡ some (whole, fraction)
    → length fraction ≡ 7
    → big_int 0 whole * 10000000 + big_int 0 fraction ≡ n
    → 0 < n
    → amount_to_stroops cs ≡ some n
unfolding amount_to_stroops
amount_to_stroops-parts cs whole fraction n parts seven value positive =
    rw (amount_to_stroops, parts, take_seven fraction seven, value) (ground arith)

-- A positive number of units, printed with as many digits before the point as it needs and seven after
-- it, is read back.
pub amount_to_stroops-print :
    (k n : ℕ) → 0 < k → 0 < n → n / 10000000 < 10 ^ k → amount_to_stroops (print k n) ≡ some n
unfolding print
amount_to_stroops-print k n some_digit positive fits =
    let whole = last_digits k (n / 10000000) in
    let fraction = last_digits 7 n in
    let parts =
      match_decimal-digits whole fraction (last_digits-AllDigits k (n / 10000000))
        (last_digits-AllDigits 7 n) (omega (arith, length-last_digits k (n / 10000000)))
        (length-last_digits 7 n) in
    let ((t, e), lt) = big_int-last_digits 7 n in
    let plain = AllPlain-trim (print k n) (print-AllPlain k n) in
    amount_to_stroops-parts (print k n) whole fraction n (ap match_decimal plain ∙ parts)
      (length-last_digits 7 n) (omega (arith, big_int-all_digits k (n / 10000000) fits)) positive
