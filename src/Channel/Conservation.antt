-- ===== src/Channel/Conservation.antt =====
-- The balances of a channel of backend/src/services/paymentChannel.js under every sequence of calls.
use mathlib.Core.Path.{subst}
use cross_border_payment_app.Channel.{
  parts, Channel, Store, is_open_of, OpenRequest, open_channel, spendable, pay, transact,
  Settlement, settlement_of, close_row, close_channel,
}
use cross_border_payment_app.Base.{
  ℕ, ◌+◌, ◌*◌, ◌%◌, ◌≤◌, ◌<◌, ◌≡◌, ◌≢◌, refl, ap, if◌then◌else◌, inl, inr, true, false, some, List,
  [], ◌∷◌, ◌++◌, arith, ◌==◌, Bool-cases, Option-cases, find_where, count_where, update_where, All,
  count-append, Result, Result-cases, ℤ, ok, err, pos, negsuc,
}

-- The two balances of a channel add up to its funding, or exceed it by at most `k` units.
abbrev pub IsBalanced : ℕ → Channel → Type 0
IsBalanced k c =
    (c.funding_amount ≤ c.sender_balance + c.recipient_balance)
    × (c.sender_balance + c.recipient_balance ≤ c.funding_amount + k)

-- An amount that leaves exactly half a unit is rounded up on both sides.
abbrev pub half_of : ℕ → ℕ
half_of n = if n % parts == 5000000000000 then 1 else 0

abbrev pub half_of_amount : ℤ → ℕ
half_of_amount (pos n) = half_of n
half_of_amount (negsuc n) = 0

pay-IsBalanced :
    (k n : ℕ) (c : Channel)
    → n ≤ c.sender_balance * parts
    → IsBalanced k c
    → IsBalanced (k + half_of n) (pay n c)
pay-IsBalanced k n c le h = elim (Bool-cases (n % parts == 5000000000000)) [
  | inl e ↦ let q : n % parts ≡ 5000000000000 = ground arith in rw e (omega arith, omega arith)
  | inr e ↦
      let q : n % parts ≢ 5000000000000 = (λ x. ground arith) in
      rw e (ground (arith, q), ground (arith, q))
]

more-IsBalanced :
    (k h : ℕ) (cs : List Channel) → All (IsBalanced k) cs → All (IsBalanced (k + h)) cs
more-IsBalanced k h [] v = tt
more-IsBalanced k h (c ∷ cs) v = ((v.0.0, omega (arith, v.0.1)), more-IsBalanced k h cs v.1)

-- The identifiers are distinct and below the next one.
abbrev pub IsFresh : ℕ → List Channel → Type 0
IsFresh n [] = Unit {0}
IsFresh n (c ∷ cs) = (c.id < n) × (count_where (λ d. d.id == c.id) cs ≡ 0) × IsFresh n cs

-- The channels are balanced but for at most `k` units, and the identifiers distinct and used.
pub record IsValid (k : ℕ) (s : Store) : Type 0 where
  pub balanced : All (IsBalanced k) s.channels
  pub fresh : IsFresh s.next_id s.channels

count_update :
    (i j : ℕ) (f : Channel → Channel) (cs : List Channel)
    → ((c : Channel) → (f c).id ≡ c.id)
    → count_where (λ d. d.id == j) (update_where (λ d. d.id == i) f cs)
      ≡ count_where (λ d. d.id == j) cs
count_update i j f [] h = refl
count_update i j f (c ∷ cs) h = ground (arith, h c, count_update i j f cs h)

IsFresh-update :
    (n i : ℕ) (f : Channel → Channel) (cs : List Channel)
    → ((c : Channel) → (f c).id ≡ c.id)
    → IsFresh n cs
    → IsFresh n (update_where (λ d. d.id == i) f cs)
IsFresh-update n i f [] h k = tt
IsFresh-update n i f (c ∷ cs) h k = elim (Bool-cases (c.id == i)) [
  | inl e ↦ rw (e, h c) (k.0, rw (count_update i c.id f cs h) k.1, IsFresh-update n i f cs h k.2)
  | inr e ↦ rw e (k.0, rw (count_update i c.id f cs h) k.1, IsFresh-update n i f cs h k.2)
]

count_below : (n : ℕ) (cs : List Channel) → IsFresh n cs → count_where (λ d. d.id == n) cs ≡ 0
count_below n [] h = refl
count_below n (c ∷ cs) h = ground (arith, count_below n cs h.2)

IsFresh-append :
    (n : ℕ) (c : Channel) (cs : List Channel)
    → c.id ≡ n
    → IsFresh n cs
    → IsFresh (n + 1) (cs ++ c ∷ [])
IsFresh-append n c [] e h = (omega arith, refl, tt)
IsFresh-append n c (d ∷ cs) e h = (
  omega arith,
  rw (count-append (λ x. x.id == d.id) cs (c ∷ [])) (ground (arith, h.0)),
  IsFresh-append n c cs e h.2,
)

IsBalanced-append :
    (k : ℕ) (c : Channel) (cs : List Channel)
    → All (IsBalanced k) cs
    → IsBalanced k c
    → All (IsBalanced k) (cs ++ c ∷ [])
IsBalanced-append k c [] h b = (b, tt)
IsBalanced-append k c (d ∷ cs) h b = (h.0, IsBalanced-append k c cs h.1 b)

-- With distinct identifiers a payment touches the one row that was locked.
IsBalanced-absent :
    (k i n : ℕ) (cs : List Channel)
    → count_where (λ d. d.id == i) cs ≡ 0
    → All (IsBalanced k) cs
    → All (IsBalanced k) (update_where (λ d. d.id == i) (pay n) cs)
IsBalanced-absent k i n [] e h = tt
IsBalanced-absent k i n (c ∷ cs) e h = ground (arith, IsBalanced-absent k i n cs (ground arith) h.1)

find_count :
    (i u : ℕ) (c : Channel) (cs : List Channel)
    → find_where (is_open_of i u) cs ≡ some c
    → 1 ≤ count_where (λ d. d.id == i) cs
find_count i u c [] e = cc
find_count i u c (d ∷ cs) e = ground (arith, find_count i u c cs)

find_head :
    (i u : ℕ) (c d : Channel) (cs : List Channel)
    → find_where (is_open_of i u) (d ∷ cs) ≡ some c
    → (d.id == i) ≡ true
    → count_where (λ x. x.id == i) cs ≡ 0
    → d ≡ c
find_head i u c d cs e h k = ground (arith, find_count i u c cs)

find_tail :
    (i u : ℕ) (c d : Channel) (cs : List Channel)
    → find_where (is_open_of i u) (d ∷ cs) ≡ some c
    → (d.id == i) ≡ false
    → find_where (is_open_of i u) cs ≡ some c
find_tail i u c d cs e h = ground arith

IsBalanced-pay :
    (k m i u n : ℕ) (c : Channel) (cs : List Channel)
    → IsFresh m cs
    → All (IsBalanced k) cs
    → find_where (is_open_of i u) cs ≡ some c
    → n ≤ c.sender_balance * parts
    → All (IsBalanced (k + half_of n)) (update_where (λ d. d.id == i) (pay n) cs)
IsBalanced-pay k m i u n c [] f h e le = tt
IsBalanced-pay k m i u n c (d ∷ cs) f h e le = elim (Bool-cases (d.id == i)) [
  | inl same ↦
      let gone : count_where (λ x. x.id == i) cs ≡ 0 =
        (let eq : d.id ≡ i = ground arith in rw eq at f.1) in
      let head = find_head i u c d cs e same gone in
      let le' : n ≤ d.sender_balance * parts = rw head le in
      rw same (
        pay-IsBalanced k n d le' h.0,
        IsBalanced-absent (k + half_of n) i n cs gone (more-IsBalanced k (half_of n) cs h.1),
      )
  | inr ne ↦ rw ne (
    (h.0.0, omega (arith, h.0.1)),
    IsBalanced-pay k m i u n c cs f.2 h.1 (find_tail i u c d cs e ne) le,
  )
]

IsBalanced-close :
    (k i hash : ℕ) (cs : List Channel)
    → All (IsBalanced k) cs
    → All (IsBalanced k) (update_where (λ d. d.id == i) (close_row hash) cs)
IsBalanced-close k i hash [] h = tt
IsBalanced-close k i hash (c ∷ cs) h = ground (arith, IsBalanced-close k i hash cs h.1)

open_channel-IsValid :
    (k : ℕ) (net : Result (Unit {0})) (now timeout : ℕ) (r : OpenRequest) (s : Store)
    → IsValid k s
    → IsValid k (open_channel net now timeout r s).1
unfolding open_channel
open_channel-IsValid k (err e) now timeout r s v = v
open_channel-IsValid k (ok _) now timeout r s v = record {
  balanced = IsBalanced-append k _ s.channels v.balanced (omega arith, omega arith);
  fresh = IsFresh-append s.next_id _ s.channels refl v.fresh;
}

spendable_le :
    (a : ℤ) (balance n : ℕ)
    → spendable a balance ≡ some n
    → (n ≤ balance * parts) × (half_of_amount a ≡ half_of n)
unfolding spendable
spendable_le (pos m) balance n h =
    let same : m ≡ n = ground arith in (ground arith, ap half_of same)
spendable_le (negsuc m) balance n h = cc

more-IsValid : (k h : ℕ) (s : Store) → IsValid k s → IsValid (k + h) s
more-IsValid k h s v = record {
  balanced = more-IsBalanced k h s.channels v.balanced;
  fresh = v.fresh;
}

transact-IsValid :
    (k i u : ℕ) (a : ℤ) (s : Store)
    → IsValid k s
    → IsValid (k + half_of_amount a) (transact i u a s).1
unfolding transact
transact-IsValid k i u a s v = elim (Option-cases (find_where (is_open_of i u) s.channels)) [
  | inl e ↦ rw (e, transact) (more-IsValid k (half_of_amount a) s v)
  | inr (c, e) ↦ elim (Option-cases (spendable a c.sender_balance)) [
    | inl f ↦ rw (e, transact, f) (more-IsValid k (half_of_amount a) s v)
    | inr (n, f) ↦
        let (enough, same) = spendable_le a c.sender_balance n f in
        rw (e, transact, f, same)
          (record {
            balanced = IsBalanced-pay k s.next_id i u n c s.channels v.fresh v.balanced e enough;
            fresh = IsFresh-update s.next_id i (pay n) s.channels (λ c. refl) v.fresh;
          })
  ]
]

close_channel-IsValid :
    (k : ℕ) (submit : Settlement → Result ℕ) (written : Result (Unit {0})) (i u : ℕ) (s : Store)
    → IsValid k s
    → IsValid k (close_channel submit written i u s).1
unfolding close_channel
close_channel-IsValid k submit written i u s v =
    elim (Option-cases (find_where (is_open_of i u) s.channels)) [
      | inl e ↦ rw (e, close_channel) v
      | inr (c, e) ↦ elim (Result-cases (submit (settlement_of c))) [
        | inl (hash, f) ↦ elim (Result-cases written) [
          | inr (x, g) ↦ rw (e, close_channel, f, g) v
          | inl (_, g) ↦
              rw (e, close_channel, f, g)
                (record {
                  balanced = IsBalanced-close k i hash s.channels v.balanced;
                  fresh =
                      IsFresh-update s.next_id i (close_row hash) s.channels (λ c. refl) v.fresh;
                })
        ]
        | inr (x, f) ↦ rw (e, close_channel, f) v
      ]
    ]

-- One call on the store, with whatever the network answers.
pub data Step (s : Store) : Store → Type 0 where
  open_step :
      (net : Result (Unit {0})) (now timeout : ℕ) (r : OpenRequest)
      → Step s (open_channel net now timeout r s).1
  transact_step : (i u : ℕ) (a : ℤ) → Step s (transact i u a s).1
  close_step :
      (submit : Settlement → Result ℕ) (written : Result (Unit {0})) (i u : ℕ)
      → Step s (close_channel submit written i u s).1

pub data Reach (s : Store) : Store → Type 0 where
  here : Reach s s
  next : {t u : Store} → Reach s t → Step t u → Reach s u

-- How many of the payments were of an amount that leaves half a unit.
pub halves_of : {s t : Store} → Step s t → ℕ
halves_of (open_step net now timeout r) = 0
halves_of (transact_step i u a) = half_of_amount a
halves_of (close_step submit written i u) = 0

pub halves : {s t : Store} → Reach s t → ℕ
unfolding halves_of
halves here = 0
halves (next r st) = halves r + halves_of st

Step-IsValid : {s t : Store} (k : ℕ) (st : Step s t) → IsValid k s → IsValid (k + halves_of st) t
unfolding halves_of
Step-IsValid {s} k (open_step net now timeout r) v =
    open_channel-IsValid (k + 0) net now timeout r s (more-IsValid k 0 s v)
Step-IsValid {s} k (transact_step i u a) v = transact-IsValid k i u a s v
Step-IsValid {s} k (close_step submit written i u) v =
    close_channel-IsValid (k + 0) submit written i u s (more-IsValid k 0 s v)

-- Whatever calls are made, in whatever order and with whatever answers of the network and the
-- database, no identifier is used twice, and the two balances of every channel never add up to less
-- than its funding; they add up to exactly that as long as no payment's amount leaves half a unit of
-- 10^-7, and each payment that does, which is rounded up on both sides, adds at most one unit; if that
-- held at the start.
pub Reach-IsValid : {s t : Store} (k : ℕ) (r : Reach s t) → IsValid k s → IsValid (k + halves r) t
unfolding halves
Reach-IsValid {s} k here v = more-IsValid k 0 s v
Reach-IsValid k (next {t} {u} r st) v =
    subst (λ n. IsValid n u) (omega arith) (Step-IsValid (k + halves r) st (Reach-IsValid k r v))
