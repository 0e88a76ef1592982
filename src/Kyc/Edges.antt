-- ===== src/Kyc/Edges.antt =====
-- How the identity status of a user may change.
use mathlib.Core.Path.{subst}
use cross_border_payment_app.Kyc.{
  submitted, set_status, with_id, User, is_complete, with_wallet, has_lapsed,
  check_kyc_document_expiry, withdraw_kyc, expired, approve_kyc, turned_down, submit_kyc, pending,
  verified, unverified, Form, is_pending, is_verified, Status, State,
}
use cross_border_payment_app.Payment.{AmlStatus}
use cross_border_payment_app.Base.{
  ℕ, ◌≤◌, ◌≡◌, refl, sym, inl, inr, Bool, true, false, ◌||◌, some, List, [], ◌∷◌, arith, Bool-cases,
  Option-cases, find_where, count_where, update_where, find_where_sound, count_of_find,
  count-update_where_none,
}

-- The calls that write, but for the bulk update, with whatever answers of the contract and of the screening
pub data Step (s : State) : State → Type 0 where
  submit_step : (i : ℕ) (f : Form) (aml : AmlStatus) → Step s (submit_kyc i f aml s).1
  approve_step : (works : Bool) (i : ℕ) → Step s (approve_kyc works i s).1
  withdraw_step : (works : Bool) (i : ℕ) → Step s (withdraw_kyc works i s).1
  expiry_step : (works : ℕ → Bool) (now : ℕ) → Step s (check_kyc_document_expiry works now s)

-- The edges of the state machine: submission, approval, revocation and expiry, and staying as it is
pub data Edge : Status → Status → Type 0 where
  stays : (a : Status) → Edge a a
  submits_new : Edge unverified pending
  submits_again : Edge turned_down pending
  renews : Edge expired pending
  approves : Edge pending verified
  revokes : Edge verified unverified
  expires : Edge verified expired

submitted-Edge : (a : Status) → (is_verified a || is_pending a) ≡ false → Edge a pending
submitted-Edge unverified h = submits_new
submitted-Edge turned_down h = submits_again
submitted-Edge expired h = renews
submitted-Edge verified h = cc
submitted-Edge pending h = cc

is_pending-Edge : (a : Status) → is_pending a ≡ true → Edge a verified
is_pending-Edge pending h = approves
is_pending-Edge unverified h = cc
is_pending-Edge turned_down h = cc
is_pending-Edge expired h = cc
is_pending-Edge verified h = cc

is_verified-Edge : (a b : Status) → is_verified a ≡ true → Edge verified b → Edge a b
is_verified-Edge verified b h e = e
is_verified-Edge pending b h e = cc
is_verified-Edge unverified b h e = cc
is_verified-Edge turned_down b h e = cc
is_verified-Edge expired b h e = cc

-- The status of each user moves along an edge from one table to the other, where the users stand in the same
-- order.
pub data Moves : List User → List User → Type 0 where
  done : Moves [] []
  more :
      {u v : User} {us vs : List User}
      → u.id ≡ v.id
      → Edge u.kyc_status v.kyc_status
      → Moves us vs
      → Moves (u ∷ us) (v ∷ vs)

rests : (us : List User) → Moves us us
rests [] = done
rests (u ∷ us) = more refl (stays u.kyc_status) (rests us)

-- An update under a test moves the users that pass it along an edge.
updates :
    (p : User → Bool) (f : User → User) (us : List User)
    → ((u : User) → (f u).id ≡ u.id)
    → ((u : User) → p u ≡ true → Edge u.kyc_status (f u).kyc_status)
    → Moves us (update_where p f us)
updates p f [] same edge = done
updates p f (u ∷ us) same edge = elim (Bool-cases (p u)) [
  | inl e ↦ rw e (more (sym (same u)) (edge u e) (updates p f us same edge))
  | inr e ↦ rw e (more refl (stays u.kyc_status) (updates p f us same edge))
]

-- No two users have the same id.
abbrev pub IsDistinct : List User → Type 0
IsDistinct us = (i : ℕ) → count_where (with_id i) us ≤ 1

untouched :
    (p : User → Bool) (f : User → User) (us : List User)
    → count_where p us ≡ 0
    → update_where p f us ≡ us
untouched p f [] h = refl
untouched p f (u ∷ us) h = ground (arith, untouched p f us)

-- An update of the one user that is found moves that one.
updates_one :
    (p q : User → Bool) (f : User → User) (us : List User) (u : User)
    → find_where q us ≡ some u
    → p u ≡ true
    → count_where p us ≤ 1
    → ((v : User) → (f v).id ≡ v.id)
    → Edge u.kyc_status (f u).kyc_status
    → Moves us (update_where p f us)
updates_one p q f [] u found pu once same edge = done
updates_one p q f (v ∷ us) u found pu once same edge = elim (Bool-cases (q v)) [
  | inl e ↦
      let it : u ≡ v = ground arith in
      let pv : p v ≡ true = subst (λ x. p x ≡ true) it pu in
      let none_left : count_where p us ≡ 0 = ground arith in
      let head_edge : Edge v.kyc_status (f v).kyc_status =
        subst (λ x. Edge x.kyc_status (f x).kyc_status) it edge in
      rw (pv, untouched p f us none_left) (more (sym (same v)) head_edge (rests us))
  | inr e ↦
      let rest : find_where q us ≡ some u = ground arith in
      let pv : p v ≡ false = ground (arith, count_of_find q p us u rest pu) in
      rw pv
        (more refl (stays v.kyc_status) (updates_one p q f us u rest pu (ground arith) same edge))
]

submit-Moves :
    (i : ℕ) (f : Form) (aml : AmlStatus) (s : State)
    → IsDistinct s.users
    → Moves s.users (submit_kyc i f aml s).1.users
unfolding submit_kyc
submit-Moves i f aml s distinct = elim (Bool-cases (is_complete f)) [
  | inr e ↦ rw (submit_kyc, e) (rests s.users)
  | inl e ↦ elim (Option-cases (find_where (with_id i) s.users)) [
    | inl g ↦ rw (submit_kyc, e, g) (rests s.users)
    | inr (u, g) ↦ elim (Bool-cases (is_verified u.kyc_status || is_pending u.kyc_status)) [
      | inl h ↦ rw (submit_kyc, e, g, h) (rests s.users)
      | inr h ↦
          rw (submit_kyc, e, g, h)
            (updates_one (with_id i) (with_id i) (submitted f) s.users u g
              (find_where_sound (with_id i) s.users u g) (distinct i) (λ v. refl)
              (submitted-Edge u.kyc_status h))
    ]
  ]
]

has_it : (i : ℕ) (u : User) → with_wallet i u ≡ true → with_id i u ≡ true
has_it i u h = ground arith

approve-Moves :
    (works : Bool) (i : ℕ) (s : State)
    → IsDistinct s.users
    → Moves s.users (approve_kyc works i s).1.users
unfolding approve_kyc
approve-Moves works i s distinct = elim (Option-cases (find_where (with_wallet i) s.users)) [
  | inl g ↦ rw (approve_kyc, g) (rests s.users)
  | inr (u, g) ↦ elim (Bool-cases (is_verified u.kyc_status)) [
    | inl h ↦ rw (approve_kyc, g, h) (rests s.users)
    | inr h ↦ elim (Bool-cases (is_pending u.kyc_status)) [
      | inr k ↦ rw (approve_kyc, g, h, k) (rests s.users)
      | inl k ↦
          rw (approve_kyc, g, h, k)
            (updates_one (with_id i) (with_wallet i) (set_status verified) s.users u g
              (has_it i u (find_where_sound (with_wallet i) s.users u g)) (distinct i) (λ v. refl)
              (is_pending-Edge u.kyc_status k))
    ]
  ]
]

withdraw-Moves :
    (works : Bool) (i : ℕ) (s : State)
    → IsDistinct s.users
    → Moves s.users (withdraw_kyc works i s).1.users
unfolding withdraw_kyc
withdraw-Moves works i s distinct = elim (Option-cases (find_where (with_wallet i) s.users)) [
  | inl g ↦ rw (withdraw_kyc, g) (rests s.users)
  | inr (u, g) ↦ elim (Bool-cases (is_verified u.kyc_status)) [
    | inr h ↦ rw (withdraw_kyc, g, h) (rests s.users)
    | inl h ↦
        rw (withdraw_kyc, g, h)
          (updates_one (with_id i) (with_wallet i) (set_status unverified) s.users u g
            (has_it i u (find_where_sound (with_wallet i) s.users u g)) (distinct i) (λ v. refl)
            (is_verified-Edge u.kyc_status unverified h revokes))
  ]
]

expiry-Moves :
    (works : ℕ → Bool) (now : ℕ) (s : State)
    → Moves s.users (check_kyc_document_expiry works now s).users
unfolding check_kyc_document_expiry
expiry-Moves works now s =
    updates (has_lapsed now) (set_status expired) s.users (λ u. refl)
      (λ u h. is_verified-Edge u.kyc_status expired (ground arith) expires)

-- With each call but a bulk update, whatever the contract and the screening answer, each user's status stays
-- or moves along an edge: to 'pending' by a submission, but not from 'verified'; from 'pending' to
-- 'verified' by an approval; and from 'verified' to 'unverified' or 'expired'.
pub Step-Moves : {s s' : State} → IsDistinct s.users → Step s s' → Moves s.users s'.users
Step-Moves {s} distinct (submit_step i f aml) = submit-Moves i f aml s distinct
Step-Moves {s} distinct (approve_step works i) = approve-Moves works i s distinct
Step-Moves {s} distinct (withdraw_step works i) = withdraw-Moves works i s distinct
Step-Moves {s} distinct (expiry_step works now) = expiry-Moves works now s

-- After a run of the expiry job no user is verified with a document that has expired by then.
pub check_kyc_document_expiry-cleared :
    (works : ℕ → Bool) (now : ℕ) (s : State)
    → count_where (has_lapsed now) (check_kyc_document_expiry works now s).users ≡ 0
unfolding check_kyc_document_expiry
check_kyc_document_expiry-cleared works now s =
    count-update_where_none (has_lapsed now) (has_lapsed now) (set_status expired) s.users
      (λ u h. h) (λ u. refl)
