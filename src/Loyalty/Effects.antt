-- ===== src/Loyalty/Effects.antt =====
-- What a slot of backend/src/jobs/loyaltyMintJob.js does to the queue, the chain and the ledger.
use cross_border_payment_app.Loyalty.{
  MintOutcome, mint_job, process_job, process_slot, runs, Config, one, estimate_xlm_equivalent,
  is_claimable, claim_next_job, minted, not_configured, thrown, Job, Mint, State, MintOutcome,
  mint_job, process_job, process_slot, runs, Config, one, estimate_xlm_equivalent, is_claimable,
  claim_next_job, minted, not_configured, thrown, Events, with_id, claim, complete, requeue, fail,
  mint_failed,
}
use cross_border_payment_app.Base.{
  ℕ, ◌/◌, ◌<◌, ◌≡◌, refl, sym, ◌⊎◌, inl, inr, Bool, true, false, ◌&&◌, not, some, List, ◌∷◌, arith,
  ltb, Bool-cases, Option-cases, find_where, update_where, update_where-update_where,
}

-- How a job leaves its slot: still 'processing', 'completed', 'pending' again, or 'failed'.
pub data Ending : Type 0 where
  stuck done again given_up : Ending

abbrev pub ended : Ending → Job → Job
ended stuck j = claim j
ended done j = complete (claim j)
ended again j = requeue (claim j)
ended given_up j = fail (claim j)

abbrev pub add_if : Bool → Mint → List Mint → List Mint
add_if true m ms = m ∷ ms
add_if false m ms = ms

abbrev pub mint_of : Job → ℕ → Mint
mint_of j points = record { job_id = j.id; wallet = j.sender_wallet; points = points }

abbrev pub effect : Job → Ending → Bool → Bool → ℕ → State → State
effect j e on recorded points s = record {
  jobs = update_where (with_id j.id) (ended e) s.jobs;
  tx_completed = s.tx_completed;
  mints = add_if on (mint_of j points) s.mints;
  loyalty_points = add_if recorded (mint_of j points) s.loyalty_points;
}

-- The contract tells the truth when it throws, and no write after a mint fails.
abbrev pub is_reliable : Events → Bool
is_reliable e =
    not e.update_fails
    && not e.insert_fails
    && elim e.mint [ minted ↦ true | not_configured ↦ true | thrown on ↦ not on ]

abbrev pub IsEffect : Events → State → Job → State → Type 0
IsEffect ev s j s' =
    (e : Ending) × (on : Bool) × (recorded : Bool) × (points : ℕ) × (s'
      ≡ effect j e on recorded points s)
    × (e ≡ again → j.retry_count < 3)
    × (is_reliable ev ≡ true → (recorded ≡ on) × (on ≡ true → e ≡ done))

-- What the `catch` finds: the job claimed, or completed as well.
abbrev pub before : Bool → Ending
before false = stuck
before true = done

over-requeue :
    (b : Bool) (i : ℕ) (xs : List Job)
    → update_where (with_id i) requeue (update_where (with_id i) (ended (before b)) xs)
      ≡ update_where (with_id i) (ended again) xs
over-requeue false i xs = update_where-update_where (with_id i) requeue claim xs (λ x. refl)
over-requeue true i xs = update_where-update_where (with_id i) requeue (ended done) xs (λ x. refl)

over-fail :
    (b : Bool) (i : ℕ) (xs : List Job)
    → update_where (with_id i) fail (update_where (with_id i) (ended (before b)) xs)
      ≡ update_where (with_id i) (ended given_up) xs
over-fail false i xs = update_where-update_where (with_id i) fail claim xs (λ x. refl)
over-fail true i xs = update_where-update_where (with_id i) fail (ended done) xs (λ x. refl)

over-complete :
    (i : ℕ) (xs : List Job)
    → update_where (with_id i) complete (update_where (with_id i) claim xs)
      ≡ update_where (with_id i) (ended done) xs
over-complete i xs = update_where-update_where (with_id i) complete claim xs (λ x. refl)

mint_failed-IsEffect :
    (ev : Events) (j : Job) (b on : Bool) (points : ℕ) (s : State)
    → (is_reliable ev ≡ true → on ≡ false)
    → IsEffect ev s j (mint_failed ev.requeue_fails j (effect j (before b) on false points s))
unfolding mint_failed
mint_failed-IsEffect ev j b on points s quiet = elim (Bool-cases ev.requeue_fails) [
  | inl f ↦ (
    before b,
    on,
    false,
    points,
    rw f refl,
    λ h. absurd (ground arith),
    λ r. (sym (quiet r), λ h. absurd (grind arith)),
  )
  | inr f ↦ elim (Bool-cases (ltb j.retry_count 3)) [
    | inl g ↦ (
      again,
      on,
      false,
      points,
      rw (f, g, over-requeue b j.id s.jobs) refl,
      λ h. ground arith,
      λ r. (sym (quiet r), λ h. absurd (grind arith)),
    )
    | inr g ↦ (
      given_up,
      on,
      false,
      points,
      rw (f, g, over-fail b j.id s.jobs) refl,
      λ h. cc,
      λ r. (sym (quiet r), λ h. absurd (grind arith)),
    )
  ]
]

-- The claimed state is an effect too.
abbrev pub claimed : Job → ℕ → State → State
claimed j points s = effect j stuck false false points s

moved :
    {t u : State} (ev : Events) (s : State) (j : Job)
    → t ≡ u
    → IsEffect ev s j u
    → IsEffect ev s j t
moved ev s j e h = rw e h

MintOutcome-cases :
    (m : MintOutcome) → (m ≡ minted) ⊎ ((m ≡ not_configured) ⊎ ((on : Bool) × (m ≡ thrown on)))
MintOutcome-cases minted = inl refl
MintOutcome-cases not_configured = inr (inl refl)
MintOutcome-cases (thrown on) = inr (inr (on, refl))

mint_job-IsEffect :
    (ev : Events) (j : Job) (points : ℕ) (s : State)
    → IsEffect ev s j (mint_job ev j points (claimed j points s))
unfolding mint_job
mint_job-IsEffect ev j points s = elim (MintOutcome-cases ev.mint) [
  | inl m ↦ elim (Bool-cases ev.update_fails) [
    | inl u ↦
        moved ev s j (rw (m, u) refl)
          (mint_failed-IsEffect ev j false true points s (λ r. absurd (ground arith)))
    | inr u ↦ elim (Bool-cases ev.insert_fails) [
      | inl i ↦
          moved ev s j (rw (m, u, i, over-complete j.id s.jobs) refl)
            (mint_failed-IsEffect ev j true true points s (λ r. absurd (ground arith)))
      | inr i ↦ (
        done,
        true,
        true,
        points,
        rw (m, u, i, over-complete j.id s.jobs) refl,
        λ h. cc,
        λ r. (refl, λ h. refl),
      )
    ]
  ]
  | inr (inl m) ↦ elim (Bool-cases ev.update_fails) [
    | inl u ↦
        moved ev s j (rw (m, u) refl) (mint_failed-IsEffect ev j false false points s (λ r. refl))
    | inr u ↦ (
      done,
      false,
      false,
      points,
      rw (m, u, over-complete j.id s.jobs) refl,
      λ h. cc,
      λ r. (refl, λ h. refl),
    )
  ]
  | inr (inr (on, m)) ↦ elim (Bool-cases on) [
    | inl o ↦
        moved ev s j (rw (m, o) refl)
          (mint_failed-IsEffect ev j false true points s (λ r. absurd (ground arith)))
    | inr o ↦
        moved ev s j (rw (m, o) refl) (mint_failed-IsEffect ev j false false points s (λ r. refl))
  ]
]

process_job-IsEffect :
    (c : Config) (ev : Events) (j : Job) (s : State)
    → IsEffect ev s j (process_job c ev j (claimed j 0 s))
unfolding process_job
process_job-IsEffect c ev j s =
    let x = estimate_xlm_equivalent c j.amount j.asset in
    elim (Bool-cases (ltb x c.min_payment)) [
      | inl f ↦ elim (Bool-cases ev.update_fails) [
        | inl u ↦ (stuck, false, false, 0, rw (f, u) refl, λ h. cc, λ r. (refl, λ h. cc))
        | inr u ↦ (
          done,
          false,
          false,
          0,
          rw (f, u, over-complete j.id s.jobs) refl,
          λ h. cc,
          λ r. (refl, λ h. refl),
        )
      ]
      | inr f ↦ moved ev s j (rw f refl) (mint_job-IsEffect ev j (x / one) s)
    ]

-- A slot leaves everything as it is, or works on the oldest job that can be claimed.
pub process_slot-cases :
    (c : Config) (ev : Events) (s : State)
    → (process_slot c (runs ev) s ≡ s)
      ⊎ ((j : Job) × (find_where (is_claimable s.tx_completed) s.jobs ≡ some j)
          × IsEffect ev s j (process_slot c (runs ev) s))
unfolding process_slot claim_next_job
process_slot-cases c ev s = elim (Option-cases (find_where (is_claimable s.tx_completed) s.jobs)) [
  | inl f ↦ inl (rw (process_slot, claim_next_job, f) refl)
  | inr (j, f) ↦ inr (
    j,
    f,
    moved ev s j (rw (process_slot, claim_next_job, f) refl) (process_job-IsEffect c ev j s),
  )
]
