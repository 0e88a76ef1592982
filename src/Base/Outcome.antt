-- ===== src/Base/Outcome.antt =====
-- Exceptions as values. An `Error` object of the source carries an optional HTTP status and, in its
-- payload, an optional code; the message is for people and is not kept.
use Prim.Native.Nat.{ℕ}
use Prim.Native.String.{String}
use mathlib.Core.Path.{◌≡◌, refl}
use mathlib.Core.Bool.{Bool, true, false}
use mathlib.Core.Logic.{◌⊎◌, inl, inr}
use mathlib.Core.Option.{Option, none, some}

pub record Error : Type 0 where
  pub status : Option ℕ
  pub code : Option String

-- What an `async` function comes to.
pub data Result {ℓ} (T : Type ℓ) : Type ℓ where
  err : Error → Result T
  ok : T → Result T

-- `if (test) throw e`
abbrev pub throw_if : Bool → Error → Result (Unit {0})
throw_if true e = err e
throw_if false e = ok tt

abbrev pub with_status : ℕ → Error
with_status n = record { status = some n; code = none }

abbrev pub with_code : ℕ → String → Error
with_code n c = record { status = some n; code = some c }

-- `new Error(message)`, with no status
abbrev pub plain_error : Error
plain_error = record { status = none; code = none }

infixl 5 ◌>>◌ ◌>>=◌
-- A call whose result is not used, and one whose result is.
abbrev pub ◌>>◌ {κ} : {S : Type κ} → Result (Unit {0}) → Result S → Result S
err e >> next = err e
ok tt >> next = next

abbrev pub ◌>>=◌ {κ ℓ} : {S : Type κ} {T : Type ℓ} → Result S → (S → Result T) → Result T
err e >>= next = err e
ok x >>= next = next x

-- A chain that gives a result has given one at its first call.
pub >>=-eq-ok {κ ℓ} :
    {S : Type κ} {T : Type ℓ} (r : Result S) (next : S → Result T) {t : T}
    → (r >>= next) ≡ ok t
    → (x : S) × (r ≡ ok x) × (next x ≡ ok t)
>>=-eq-ok (err e) next given = cc
>>=-eq-ok (ok x) next given = (x, refl, given)

pub >>-eq-ok {κ} :
    {S : Type κ} (r : Result (Unit {0})) (next : Result S) {t : S}
    → (r >> next) ≡ ok t
    → (r ≡ ok tt) × (next ≡ ok t)
>>-eq-ok (err e) next given = cc
>>-eq-ok (ok tt) next given = (refl, given)

pub ok-injective {ℓ} : {A : Type ℓ} {a b : A} → ok a ≡ ok b → a ≡ b
ok-injective h = cc

pub Result-cases {ℓ} :
    {A : Type ℓ} (r : Result A) → ((a : A) × (r ≡ ok a)) ⊎ ((e : Error) × (r ≡ err e))
Result-cases (ok a) = inl (a, refl)
Result-cases (err e) = inr (e, refl)

-- What an Express handler sends: a body, an error status with its code, or `next(err)`.
pub data Reply {ℓ} (A : Type ℓ) : Type ℓ where
  json : A → Reply A
  rejected : ℕ → String → Reply A
  forwarded : Error → Reply A
