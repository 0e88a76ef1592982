-- ===== src/Loyalty/Once.antt =====
-- How often a payment's points are minted by backend/src/jobs/loyaltyMintJob.js.
use cross_border_payment_app.Loyalty.{
  Job, Mint, State, Events, runs, Config, with_id, is_pending, is_claimable, process_slot,
  enqueue_mint, new_job,
}
use cross_border_payment_app.Loyalty.Effects.{
  Ending, stuck, given_up, done, again, ended, add_if, mint_of, effect, is_reliable,
  process_slot-cases,
}
use cross_border_payment_app.Base.{
  ℕ, ◌+◌, ◌*◌, ◌≤◌, ◌<◌, ◌≡◌, refl, sym, ◌∙◌, inl, inr, Bool, true, false, some, List, [], ◌∷◌,
  arith, ◌==◌, if◌then◌else◌, ==_refl, Bool-cases, find_where, count_where, any, find_where_sound,
  All, count-append, any_of_count, count-update_where, count_of_find, All-find, All-append,
  All-update, Asset,
}

-- The calls that write to the queue, from an empty one. In a trusted run every slot is reliable.
pub data Reach (trusted : Bool) (c : Config) : State → Type 0 where
  start :
      (tx : ℕ → Bool)
      → Reach trusted c (record { jobs = []; tx_completed = tx; mints = []; loyalty_points = [] })
  slot_step :
      {s : State} (e : Events)
      → Reach trusted c s
      → (trusted ≡ true → is_reliable e ≡ true)
      → Reach trusted c (process_slot c (runs e) s)
  enqueue_step :
      {s : State} (id user wallet amount : ℕ) (asset : Asset)
      → Reach trusted c s
      → Reach trusted c (enqueue_mint id user wallet amount asset s)
  tx_step :
      {s : State} (tx : ℕ → Bool)
      → Reach trusted c s
      → Reach trusted c (record s { tx_completed = tx })

abbrev pub is_mint_of : ℕ → Mint → Bool
is_mint_of i m = m.job_id == i

abbrev pub times_minted : ℕ → State → ℕ
times_minted i s = count_where (is_mint_of i) s.mints

abbrev pub limit : Bool → ℕ
limit trusted = if trusted then 1 else 3

-- What a job that can be claimed again says of its mints so far.
abbrev pub IsFresh : Bool → State → Job → Type 0
IsFresh trusted s j =
    is_pending j.status ≡ true
    → (2 * times_minted j.id s ≤ j.retry_count)
      × (j.retry_count ≤ 4)
      × (trusted ≡ true → times_minted j.id s ≡ 0)

pub record IsValid (trusted : Bool) (s : State) : Type 0 where
  pub unique : (i : ℕ) → count_where (with_id i) s.jobs ≤ 1
  pub absent : (i : ℕ) → count_where (with_id i) s.jobs ≡ 0 → times_minted i s ≡ 0
  pub bounded : (i : ℕ) → times_minted i s ≤ limit trusted
  pub fresh : All (IsFresh trusted s) s.jobs
  pub recorded : trusted ≡ true → s.loyalty_points ≡ s.mints

ended-id : (i : ℕ) (e : Ending) (j : Job) → with_id i (ended e j) ≡ with_id i j
ended-id i stuck j = refl
ended-id i done j = refl
ended-id i again j = refl
ended-id i given_up j = refl

pending_again : (e : Ending) (j : Job) → is_pending (ended e j).status ≡ true → e ≡ again
pending_again stuck j h = cc
pending_again done j h = cc
pending_again again j h = refl
pending_again given_up j h = cc

-- A mint counts for its own job only.
count-add_if :
    (i : ℕ) (on : Bool) (j : Job) (points : ℕ) (ms : List Mint)
    → (count_where (is_mint_of i) (add_if on (mint_of j points) ms)
        ≤ count_where (is_mint_of i) ms + 1)
      × (with_id i j ≡ false
          → count_where (is_mint_of i) (add_if on (mint_of j points) ms)
            ≡ count_where (is_mint_of i) ms)
      × (on ≡ false
          → count_where (is_mint_of i) (add_if on (mint_of j points) ms)
            ≡ count_where (is_mint_of i) ms)
count-add_if i false j points ms = ground arith
count-add_if i true j points ms = ground arith

module _ (trusted : Bool) (s : State) (j : Job) (e : Ending) (on rec : Bool) (points : ℕ)
    (found : find_where (is_claimable s.tx_completed) s.jobs ≡ some j)
    (retried : e ≡ again → j.retry_count < 3)
    (reliable : trusted ≡ true → (rec ≡ on) × (on ≡ true → e ≡ done)) (v : IsValid trusted s) where
  mine :
      (2 * times_minted j.id s ≤ j.retry_count)
      × (j.retry_count ≤ 4)
      × (trusted ≡ true → times_minted j.id s ≡ 0)
  mine =
      All-find (IsFresh trusted s) (is_claimable s.tx_completed) s.jobs j v.fresh found
        (ground (arith, find_where_sound (is_claimable s.tx_completed) s.jobs j found))

  effect-bounded : (i : ℕ) → times_minted i (effect j e on rec points s) ≤ limit trusted
  effect-bounded i = elim (Bool-cases (with_id i j)) [
    | inl same ↦
        let eq : j.id ≡ i = ground arith in
        let m = mine in
        rw⁻¹ eq (ground (arith, count-add_if j.id on j points s.mints, m.0, m.1, m.2))
    | inr ne ↦ rw ((count-add_if i on j points s.mints).1 ne) (v.bounded i)
  ]

  effect-mine : IsFresh trusted (effect j e on rec points s) (ended e j)
  effect-mine h =
      let eq = pending_again e j h in
      let m = mine in
      let few = retried eq in
      let quiet : trusted ≡ true → on ≡ false = λ t. ground (arith, (reliable t).1) in
      let (c, _, same) = count-add_if j.id on j points s.mints in
      rw eq (ground arith, ground arith, λ t. same (quiet t) ∙ m.2 t)

  effect-absent :
      (i : ℕ) → count_where (with_id i) s.jobs ≡ 0 → times_minted i (effect j e on rec points s) ≡ 0
  effect-absent i h = elim (Bool-cases (with_id i j)) [
    | inl same ↦ absurd (
        ground (arith, count_of_find (is_claimable s.tx_completed) (with_id i) s.jobs j found same))
    | inr ne ↦ (count-add_if i on j points s.mints).1 ne ∙ v.absent i h
  ]

  kept_count :
      (i : ℕ)
      → count_where (with_id i) (effect j e on rec points s).jobs ≡ count_where (with_id i) s.jobs
  kept_count i = count-update_where (with_id i) (with_id j.id) (ended e) s.jobs (ended-id i e)

  effect-others :
      (x : Job)
      → with_id j.id x ≡ false
      → IsFresh trusted s x
      → IsFresh trusted (effect j e on rec points s) x
  effect-others x ne f h =
      let same = (count-add_if x.id on j points s.mints).1 (ground arith) in rw same (f h)

  effect-recorded :
      trusted ≡ true
      → (effect j e on rec points s).loyalty_points ≡ (effect j e on rec points s).mints
  effect-recorded t = rw ((reliable t).0, v.recorded t) refl

  effect-IsValid : IsValid trusted (effect j e on rec points s)
  effect-IsValid = record {
    unique = λ i. rw (kept_count i) (v.unique i);
    absent = λ i h. effect-absent i (sym (kept_count i) ∙ h);
    bounded = effect-bounded;
    fresh =
        All-update (is_claimable s.tx_completed) (with_id j.id) (ended e) s.jobs j found
          (==_refl j.id) (v.unique j.id) effect-others effect-mine v.fresh;
    recorded = effect-recorded;
  }

slot-IsValid :
    (trusted : Bool) (c : Config) (ev : Events) (s : State)
    → (trusted ≡ true → is_reliable ev ≡ true)
    → IsValid trusted s
    → IsValid trusted (process_slot c (runs ev) s)
slot-IsValid trusted c ev s trust v = elim (process_slot-cases c ev s) [
  | inl same ↦ rw same v
  | inr (j, found, (e, on, rec, points, eq, retried, reliable)) ↦
      rw eq (effect-IsValid trusted s j e on rec points found retried (λ t. reliable (trust t)) v)
]

enqueue-IsValid :
    (trusted : Bool) (s : State) (id user wallet amount : ℕ) (asset : Asset)
    → IsValid trusted s
    → IsValid trusted (enqueue_mint id user wallet amount asset s)
unfolding enqueue_mint
enqueue-IsValid trusted s id user wallet amount asset v =
    elim (Bool-cases (any (with_id id) s.jobs)) [
      | inl f ↦ rw f v
      | inr f ↦
          let none_yet : count_where (with_id id) s.jobs ≡ 0 =
            ground (arith, any_of_count (with_id id) s.jobs) in
          let fresh_job = new_job id user wallet amount asset in
          rw f (record {
            unique =
                λ i. ground (arith, v.unique i, count-append (with_id i) s.jobs (fresh_job ∷ []));
            absent =
                λ i h. ground (arith, v.absent i, count-append (with_id i) s.jobs (fresh_job ∷ []));
            bounded = v.bounded;
            fresh =
                All-append (IsFresh trusted s) s.jobs _ v.fresh
                  (λ h. ground (arith, v.absent id none_yet));
            recorded = v.recorded;
          })
    ]

Reach-IsValid : (trusted : Bool) (c : Config) {s : State} → Reach trusted c s → IsValid trusted s
Reach-IsValid trusted c (start tx) = record {
  unique = λ i. omega arith;
  absent = λ i h. refl;
  bounded = λ i. ground arith;
  fresh = tt;
  recorded = λ t. refl;
}
Reach-IsValid trusted c (slot_step {s} e r trust) =
    slot-IsValid trusted c e s trust (Reach-IsValid trusted c r)
Reach-IsValid trusted c (enqueue_step {s} id user wallet amount asset r) =
    enqueue-IsValid trusted s id user wallet amount asset (Reach-IsValid trusted c r)
Reach-IsValid trusted c (tx_step {s} tx r) =
    let v = Reach-IsValid trusted c r in
    record {
      unique = v.unique;
      absent = v.absent;
      bounded = v.bounded;
      fresh = v.fresh;
      recorded = v.recorded;
    }

-- From an empty queue on, whatever the contract and the database do, and however often a payment
-- is enqueued, its points are minted at most three times.
pub minted_at_most_three_times :
    {s : State} (c : Config) (i : ℕ) → Reach false c s → times_minted i s ≤ 3
minted_at_most_three_times c i r = (Reach-IsValid false c r).bounded i

-- From an empty queue on, as long as the contract mints nothing when it throws and no write after
-- a mint fails, a payment's points are minted at most once, and the ledger of the points holds the
-- mints of the chain.
pub minted_at_most_once :
    {s : State} (c : Config) (i : ℕ)
    → Reach true c s
    → (times_minted i s ≤ 1) × (s.loyalty_points ≡ s.mints)
minted_at_most_once c i r = let v = Reach-IsValid true c r in (v.bounded i, v.recorded refl)
