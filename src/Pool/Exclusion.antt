-- ===== src/Pool/Exclusion.antt =====
-- No channel account of backend/src/services/channelAccountPool.js is held twice.
use mathlib.Core.Path.{subst}
use cross_border_payment_app.Pool.{
  free_row, can_take, insert_accounts, release, take_row, with_id, try_acquire, Round, with_address,
  Account,
}
use cross_border_payment_app.Base.{
  ℕ, suc, ◌+◌, ◌≤◌, ◌<◌, ◌≡◌, refl, ap, ◌∙◌, inl, inr, Bool, true, false, ◌&&◌, Option, none, some,
  List, [], ◌∷◌, ◌++◌, arith, ◌==◌, Bool-cases, Option-cases, find_where, count_where, update_where,
  find_where_sound, count-append, count-update_where, count-update_where_le, count_where_le,
}

abbrev pub free_at : ℕ → Account → Bool
free_at x a = a.stellar_address == x && a.is_available

abbrev pub is : ℕ → ℕ → Bool
is x y = y == x

-- The pool, with the addresses that callers hold.
pub record Held : Type 0 where
  pub pool : List Account
  pub holders : List ℕ

abbrev pub hold : Option ℕ → List ℕ → List ℕ
hold none hs = hs
hold (some x) hs = x ∷ hs

-- Callers take accounts in a round of their waits, and release those that they hold; new ones are added.
pub data Step (s : Held) : Held → Type 0 where
  takes :
      (r : Round)
      → Step s (record {
        pool = (try_acquire r s.pool).1;
        holders = hold (try_acquire r s.pool).0 s.holders;
      })
  releases :
      (us vs : List ℕ) (x : ℕ)
      → s.holders ≡ us ++ x ∷ vs
      → Step s (record { pool = release x s.pool; holders = us ++ vs })
  funds :
      (i x : ℕ)
      → count_where (with_address x) s.pool ≡ 0
      → Step s (record { pool = insert_accounts 1 ((i, x) ∷ []) s.pool; holders = s.holders })

pub data Reach (s : Held) : Held → Type 0 where
  here : Reach s s
  next : {t u : Held} → Reach s t → Step t u → Reach s u

-- An address is that of one account, which is free, or held once, or neither.
abbrev pub IsExclusive : Held → Type 0
IsExclusive s =
    (x : ℕ)
    → (count_where (is x) s.holders + count_where (free_at x) s.pool
        ≤ count_where (with_address x) s.pool)
      × (count_where (with_address x) s.pool ≤ 1)

take-free :
    (x i : ℕ) (pool : List Account) (a : Account) (p : Account → Bool)
    → find_where p pool ≡ some a
    → a.id ≡ i
    → a.stellar_address ≡ x
    → a.is_available ≡ true
    → count_where (free_at x) (update_where (with_id i) take_row pool)
      < count_where (free_at x) pool
take-free x i [] a p found e f g = absurd (ground arith)
take-free x i (b ∷ pool) a p found e f g =
    let fewer = count-update_where_le (free_at x) (with_id i) take_row pool (λ y h. ground arith) in
    elim (Bool-cases (p b)) [
      | inl h ↦ let same : b ≡ a = ground arith in ground arith
      | inr h ↦ ground (arith, take-free x i pool a p)
    ]

-- A round that takes a row, and gives its address where it can be read
takes-IsExclusive :
    (s : Held) (r : Round)
    → IsExclusive s
    → IsExclusive (record {
      pool = (try_acquire r s.pool).1;
      holders = hold (try_acquire r s.pool).0 s.holders;
    })
unfolding try_acquire
takes-IsExclusive s r v x = elim (Bool-cases r.answered) [
  | inr down ↦ rw (try_acquire, down) (v x)
  | inl up ↦ elim (Option-cases (find_where (can_take r) s.pool)) [
    | inl nothing ↦ rw (try_acquire, up, nothing) (v x)
    | inr (a, found) ↦
        let rows = count-update_where (with_address x) (with_id a.id) take_row s.pool (λ y. refl) in
        let fewer =
          count-update_where_le (free_at x) (with_id a.id) take_row s.pool (λ y h. ground arith) in
        let (sum, single) = v x in
        let free = find_where_sound (can_take r) s.pool a found in
        elim (Bool-cases a.readable) [
          | inr lost ↦ rw (try_acquire, up, found, lost) (omega arith, omega arith)
          | inl known ↦
              rw (try_acquire, up, found, known)
                (elim (Bool-cases (a.stellar_address == x)) [
                  | inl mine ↦
                      let one =
                        take-free x a.id s.pool a (can_take r) found refl (ground arith)
                          (ground arith) in
                      (ground arith, omega arith)
                  | inr not_mine ↦ (ground arith, omega arith)
                ])
        ]
  ]
]

release-other :
    (x y : ℕ) (pool : List Account)
    → (y == x) ≡ false
    → count_where (free_at x) (release y pool) ≡ count_where (free_at x) pool
unfolding release
release-other x y [] ne = refl
release-other x y (a ∷ pool) ne = ground (arith, release-other x y pool ne)

releases-IsExclusive :
    (s : Held) (us vs : List ℕ) (y : ℕ)
    → s.holders ≡ us ++ y ∷ vs
    → IsExclusive s
    → IsExclusive (record { pool = release y s.pool; holders = us ++ vs })
unfolding release
releases-IsExclusive s us vs y e v x =
    let (sum, single) = v x in
    let rows = count-update_where (with_address x) (with_address y) free_row s.pool (λ z. refl) in
    let free_le =
      count_where_le (free_at x) (with_address x) (release y s.pool) (λ z h. ground arith) in
    let held = ap (count_where (is x)) e ∙ count-append (is x) us (y ∷ vs) in
    let left = count-append (is x) us vs in
    elim (Bool-cases (y == x)) [
      | inl mine ↦
          let one : count_where (is x) (y ∷ vs) ≡ suc (count_where (is x) vs) = ground arith in
          (omega arith, omega arith)
      | inr not_mine ↦
          let none_less : count_where (is x) (y ∷ vs) ≡ count_where (is x) vs = ground arith in
          let same = release-other x y s.pool not_mine in (omega arith, omega arith)
    ]

funds-IsExclusive :
    (s : Held) (i y : ℕ)
    → count_where (with_address y) s.pool ≡ 0
    → IsExclusive s
    → IsExclusive (record { pool = insert_accounts 1 ((i, y) ∷ []) s.pool; holders = s.holders })
funds-IsExclusive s i y new v x =
    let (sum, single) = v x in
    let a : Account = record {
      id = i;
      stellar_address = y;
      readable = true;
      is_available = true;
    } in
    let free = count-append (free_at x) s.pool (a ∷ []) in
    let rows = count-append (with_address x) s.pool (a ∷ []) in
    elim (Bool-cases (y == x)) [
      | inl mine ↦
          let eq : y ≡ x = ground arith in
          let gone : count_where (with_address x) s.pool ≡ 0 =
            subst (λ z. count_where (with_address z) s.pool ≡ 0) eq new in
          let one_free : count_where (free_at x) (a ∷ []) ≡ 1 = ground arith in
          let one_row : count_where (with_address x) (a ∷ []) ≡ 1 = ground arith in
          (omega arith, omega arith)
      | inr not_mine ↦
          let no_free : count_where (free_at x) (a ∷ []) ≡ 0 = ground arith in
          let no_row : count_where (with_address x) (a ∷ []) ≡ 0 = ground arith in
          (omega arith, omega arith)
    ]

Step-IsExclusive : (s t : Held) → Step s t → IsExclusive s → IsExclusive t
Step-IsExclusive s t (takes r) v = takes-IsExclusive s r v
Step-IsExclusive s t (releases us vs y e) v = releases-IsExclusive s us vs y e v
Step-IsExclusive s t (funds i y new) v = funds-IsExclusive s i y new v

-- However callers take and release accounts and new ones are added, an account is never held twice, nor
-- free while it is held, if that was so at the start.
pub Reach-IsExclusive : {s t : Held} → Reach s t → IsExclusive s → IsExclusive t
Reach-IsExclusive here v = v
Reach-IsExclusive (next {t} {u} r step) v = Step-IsExclusive t u step (Reach-IsExclusive r v)

-- An account whose secret cannot be read is given to nobody by the round that takes it, and is not
-- available any more.
pub try_acquire-lost :
    (r : Round) (pool : List Account) (a : Account)
    → r.answered ≡ true
    → find_where (can_take r) pool ≡ some a
    → a.readable ≡ false
    → let (found, pool2) = try_acquire r pool in
      (found ≡ none)
      × (count_where (λ b. b.is_available) pool2 < count_where (λ b. b.is_available) pool)
unfolding try_acquire
try_acquire-lost r pool a up found unreadable =
    rw (try_acquire, up, found, unreadable) (refl, fewer pool found)
  where
    fewer :
        (rest : List Account)
        → find_where (can_take r) rest ≡ some a
        → count_where (λ b. b.is_available) (update_where (with_id a.id) take_row rest)
          < count_where (λ b. b.is_available) rest
    fewer [] h = absurd (ground arith)
    fewer (b ∷ rest) h =
        let le =
          count-update_where_le (λ c. c.is_available) (with_id a.id) take_row rest
            (λ y h. ground arith) in
        elim (Bool-cases (can_take r b)) [
          | inl hit ↦ let same : b ≡ a = ground arith in ground arith
          | inr miss ↦ ground (arith, fewer rest)
        ]
