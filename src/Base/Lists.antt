-- ===== src/Base/Lists.antt =====
-- Lists measured by native numbers, and tables: a table of the database is the list of its rows.
use Prim.Native.Nat.{ℕ, suc, ◌+◌, ◌≤◌}
use mathlib.Core.Path.{◌≡◌, refl, subst}
use mathlib.Core.Bool.{Bool, true, false}
use mathlib.Core.Option.{Option, none, some}
use mathlib.Core.List.{List, [], ◌∷◌, ◌++◌}
use native.Mathlib.Omega.{arith}
use cross_border_payment_app.Base.Tests.{if◌then◌else◌, Bool-cases}
use mathlib.Core.Logic.{inl, inr}

module _ {ℓ} {A : Type ℓ} where
  abbrev pub length : List A → ℕ
  length [] = 0
  length (x ∷ xs) = suc (length xs)

  -- `SELECT … WHERE p LIMIT 1`, in the order of the list
  abbrev pub find_where : (A → Bool) → List A → Option A
  find_where p [] = none
  find_where p (x ∷ xs) = if p x then some x else find_where p xs

  -- `SELECT … WHERE p`
  abbrev pub select_where : (A → Bool) → List A → List A
  select_where p [] = []
  select_where p (x ∷ xs) = let rest = select_where p xs in if p x then x ∷ rest else rest

  -- `SELECT COUNT(*) … WHERE p`
  abbrev pub count_where : (A → Bool) → List A → ℕ
  count_where p [] = 0
  count_where p (x ∷ xs) = (if p x then 1 else 0) + count_where p xs

  -- `UPDATE … SET f WHERE p`
  abbrev pub update_where : (A → Bool) → (A → A) → List A → List A
  update_where p f [] = []
  update_where p f (x ∷ xs) = (if p x then f x else x) ∷ update_where p f xs

  abbrev pub any : (A → Bool) → List A → Bool
  any p [] = false
  any p (x ∷ xs) = if p x then true else any p xs

  pub length-append : (xs ys : List A) → length (xs ++ ys) ≡ length xs + length ys
  length-append [] ys = omega arith
  length-append (x ∷ xs) ys = omega (arith, length-append xs ys)

  -- What is found passes the test.
  pub find_where_sound :
      (p : A → Bool) (xs : List A) (x : A) → find_where p xs ≡ some x → p x ≡ true
  find_where_sound p [] x h = cc
  find_where_sound p (y ∷ xs) x h = ground (arith, find_where_sound p xs x)

module _ {ℓ κ} {A : Type ℓ} where
  abbrev pub All : (A → Type κ) → List A → Type κ
  All P [] = Unit
  All P (x ∷ xs) = P x × All P xs

module _ {ℓ} {A : Type ℓ} where
  pub count-append :
      (p : A → Bool) (xs ys : List A)
      → count_where p (xs ++ ys) ≡ count_where p xs + count_where p ys
  count-append p [] ys = omega arith
  count-append p (x ∷ xs) ys = omega (arith, count-append p xs ys)

  pub any_of_count : (p : A → Bool) (xs : List A) → 1 ≤ count_where p xs → any p xs ≡ true
  any_of_count p [] h = absurd (omega arith)
  any_of_count p (x ∷ xs) h = ground (arith, any_of_count p xs)

  -- A selection has nothing that passes a test when the list has not.
  pub any-select_where :
      (p q : A → Bool) (xs : List A) → find_where p xs ≡ none → any p (select_where q xs) ≡ false
  any-select_where p q [] h = refl
  any-select_where p q (x ∷ xs) h = ground (arith, any-select_where p q xs)

  -- Two updates under a test that the first of them keeps are one.
  pub update_where-update_where :
      (p : A → Bool) (f g : A → A) (xs : List A)
      → ((x : A) → p (g x) ≡ p x)
      → update_where p f (update_where p g xs) ≡ update_where p (λ x. f (g x)) xs
  update_where-update_where p f g [] h = refl
  update_where-update_where p f g (x ∷ xs) h =
      ground (arith, h x, update_where-update_where p f g xs h)

  pub count-update_where :
      (p q : A → Bool) (f : A → A) (xs : List A)
      → ((x : A) → p (f x) ≡ p x)
      → count_where p (update_where q f xs) ≡ count_where p xs
  count-update_where p q f [] h = refl
  count-update_where p q f (x ∷ xs) h = ground (arith, h x, count-update_where p q f xs h)

  -- An update that keeps the test `p` does not change which row passes it first.
  pub find_where-update_where :
      (p q : A → Bool) (f : A → A) (xs : List A) (x : A)
      → ((y : A) → p (f y) ≡ p y)
      → find_where p xs ≡ some x
      → find_where p (update_where q f xs) ≡ some (if q x then f x else x)
  find_where-update_where p q f [] x h e = cc
  find_where-update_where p q f (y ∷ xs) x h e =
      ground (arith, h y, find_where-update_where p q f xs x h)

  pub count_of_find :
      (p q : A → Bool) (xs : List A) (x : A)
      → find_where p xs ≡ some x
      → q x ≡ true
      → 1 ≤ count_where q xs
  count_of_find p q [] x h e = cc
  count_of_find p q (y ∷ xs) x h e = ground (arith, count_of_find p q xs x)

module _ {ℓ κ} {A : Type ℓ} where
  pub All-find :
      (P : A → Type κ) (p : A → Bool) (xs : List A) (x : A)
      → All P xs
      → find_where p xs ≡ some x
      → P x
  All-find P p (y ∷ xs) x (a, qs) h = elim (Bool-cases (p y)) [
    | inl e ↦ let eq : y ≡ x = ground arith in subst P eq a
    | inr e ↦ All-find P p xs x qs (ground arith)
  ]
  All-find P p [] x qs h = absurd (ground arith)

  pub All-append : (P : A → Type κ) (xs : List A) (x : A) → All P xs → P x → All P (xs ++ x ∷ [])
  All-append P [] x qs b = (b, tt)
  All-append P (y ∷ xs) x (a, qs) b = (a, All-append P xs x qs b)

  -- Where only one element passes the test `q`, and it is the one that `p` finds first, an update under `q`
  -- changes that one.
  pub All-update :
      {P Q : A → Type κ} (p q : A → Bool) (f : A → A) (xs : List A) (x : A)
      → find_where p xs ≡ some x
      → q x ≡ true
      → count_where q xs ≤ 1
      → ((y : A) → q y ≡ false → P y → Q y)
      → Q (f x)
      → All P xs
      → All Q (update_where q f xs)
  All-update {P} {Q} p q f [] x h hq once other this qs = tt
  All-update {P} {Q} p q f (y ∷ xs) x h hq once other this (a, qs) = elim (Bool-cases (p y)) [
    | inl e ↦
        let eq : x ≡ y = ground arith in
        let qy : q y ≡ true = rw⁻¹ eq hq in
        let none_left : count_where q xs ≡ 0 = ground arith in
        (rw qy (subst (λ z. Q (f z)) eq this), untouched xs none_left qs)
    | inr e ↦
        let rest : find_where p xs ≡ some x = ground arith in
        let qy : q y ≡ false = ground (arith, count_of_find p q xs x rest hq) in
        (rw qy (other y qy a), All-update p q f xs x rest hq (ground arith) other this qs)
  ]
    where
      untouched : (ys : List A) → count_where q ys ≡ 0 → All P ys → All Q (update_where q f ys)
      untouched [] h0 bs = tt
      untouched (z ∷ ys) h0 (b, bs) =
          let qz : q z ≡ false = ground arith in
          (rw qz (other z qz b), untouched ys (ground arith) bs)

  pub All-map : {P Q : A → Type κ} (xs : List A) → ((x : A) → P x → Q x) → All P xs → All Q xs
  All-map [] f qs = tt
  All-map (x ∷ xs) f (a, qs) = (f x a, All-map xs f qs)

  -- An update of the rows that pass a test, where all rows are changed or kept to fit.
  pub All-update_where :
      {P Q : A → Type κ} (p : A → Bool) (f : A → A) (xs : List A)
      → ((x : A) → p x ≡ true → P x → Q (f x))
      → ((x : A) → P x → Q x)
      → All P xs
      → All Q (update_where p f xs)
  All-update_where p f [] changed kept qs = tt
  All-update_where p f (x ∷ xs) changed kept (a, qs) = elim (Bool-cases (p x)) [
    | inl e ↦ rw e (changed x e a, All-update_where p f xs changed kept qs)
    | inr e ↦ rw e (kept x a, All-update_where p f xs changed kept qs)
  ]

  -- What holds of a list holds of it without one of its elements, and of that element.
  pub All-middle :
      (P : A → Type κ) (xs ys : List A) (x : A) → All P (xs ++ x ∷ ys) → P x × All P (xs ++ ys)
  All-middle P [] ys x (a, qs) = (a, qs)
  All-middle P (z ∷ xs) ys x (a, qs) = let (b, rest) = All-middle P xs ys x qs in (b, (a, rest))

module _ {ℓ} {A : Type ℓ} where
  pub count-select_where :
      (p q : A → Bool) (xs : List A) → count_where p (select_where q xs) ≤ count_where p xs
  count-select_where p q [] = omega arith
  count-select_where p q (x ∷ xs) = ground (arith, count-select_where p q xs)

  -- An update that makes no row pass a test does not raise its count.
  pub count-update_where_le :
      (p q : A → Bool) (f : A → A) (xs : List A)
      → ((x : A) → p x ≡ false → p (f x) ≡ false)
      → count_where p (update_where q f xs) ≤ count_where p xs
  count-update_where_le p q f [] h = omega arith
  count-update_where_le p q f (x ∷ xs) h = ground (arith, h x, count-update_where_le p q f xs h)

  -- An update that makes the rows it changes fail a test leaves none that both pass it.
  pub count-update_where_none :
      (p q : A → Bool) (f : A → A) (xs : List A)
      → ((x : A) → p x ≡ true → q x ≡ true)
      → ((x : A) → p (f x) ≡ false)
      → count_where p (update_where q f xs) ≡ 0
  count-update_where_none p q f [] covers fails = refl
  count-update_where_none p q f (x ∷ xs) covers fails =
      ground (arith, covers x, fails x, count-update_where_none p q f xs covers fails)

  pub count-append_le :
      (p : A → Bool) (xs : List A) (x : A) → count_where p (xs ++ x ∷ []) ≤ suc (count_where p xs)
  count-append_le p [] x = ground arith
  count-append_le p (y ∷ xs) x = omega (arith, count-append_le p xs x)

  pub find_where-append :
      (p : A → Bool) (xs ys : List A) (x : A)
      → find_where p xs ≡ some x
      → find_where p (xs ++ ys) ≡ some x
  find_where-append p [] ys x h = cc
  find_where-append p (y ∷ xs) ys x h = ground (arith, find_where-append p xs ys x)

module _ {ℓ κ} {A : Type ℓ} where
  pub All-select_where :
      (P : A → Type κ) (q : A → Bool) (xs : List A) → All P xs → All P (select_where q xs)
  All-select_where P q [] qs = tt
  All-select_where P q (x ∷ xs) (a, qs) = elim (Bool-cases (q x)) [
    | inl e ↦ rw e (a, All-select_where P q xs qs)
    | inr e ↦ rw e (All-select_where P q xs qs)
  ]

module _ {ℓ} {A : Type ℓ} where
  pub select_where-append :
      (q : A → Bool) (xs : List A) (x : A)
      → q x ≡ false
      → select_where q (xs ++ x ∷ []) ≡ select_where q xs
  select_where-append q [] x h = ground arith
  select_where-append q (y ∷ xs) x h = ground (arith, select_where-append q xs x h)

  pub count_where_le :
      (p q : A → Bool) (xs : List A)
      → ((x : A) → p x ≡ true → q x ≡ true)
      → count_where p xs ≤ count_where q xs
  count_where_le p q [] h = omega arith
  count_where_le p q (x ∷ xs) h = ground (arith, h x, count_where_le p q xs h)
