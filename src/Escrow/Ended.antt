-- ===== src/Escrow/Ended.antt =====
-- What stays fixed of an ended escrow, however the handlers of
-- backend/src/controllers/agentEscrowController.js are interleaved.
use cross_border_payment_app.Escrow.Agreement.{
  partial_release-cases, Reach-IsAgreed, Step, Reach, here, next, confirm_begins, cancel_begins,
  writes_one, drops_one, releases, call-escrows, WriteAgrees, Agrees, started, RowAgrees, IsAgreed,
  Running,
}
use cross_border_payment_app.Escrow.{
  release_row, refunded, cancel_checks, paid, confirm_checks, pending, completed, cancelled,
  call_contract, end_with, begin, Write, with_id, Network, World, begin_cancel, Held, Escrow,
  begin_confirm, write, Status,
}
use mathlib.Core.Path.{subst}
use cross_border_payment_app.Base.{
  ℕ, ◌≡◌, refl, ◌∙◌, ◌≢◌, inl, inr, some, List, arith, if◌then◌else◌, Bool-cases, find_where, All,
  find_where-update_where, All-find, All-middle, Result, Result-cases, ok, err,
}

-- An escrow that has ended, in the database
abbrev pub HasEnded : ℕ → Status → World → Type 0
HasEnded i st w = (e : Escrow) × (find_where (with_id i) w.escrows ≡ some e) × (e.status ≡ st)

same_end : (a b : Status) (h : Held) → a ≢ pending → b ≢ pending → Agrees a h → Agrees b h → a ≡ b
same_end pending b h na nb x y = absurd (na refl)
same_end completed pending h na nb x y = absurd (nb refl)
same_end cancelled pending h na nb x y = absurd (nb refl)
same_end completed completed h na nb x y = refl
same_end cancelled cancelled h na nb x y = refl
same_end completed cancelled h na nb x y = absurd (ground arith)
same_end cancelled completed h na nb x y = absurd (ground arith)

write-HasEnded :
    (key : ℕ → ℕ) (i : ℕ) (st : Status) (w : World) (u : Write)
    → st ≢ pending
    → All (RowAgrees key w) w.escrows
    → WriteAgrees key w u
    → HasEnded i st w
    → HasEnded i st (write u w)
unfolding write
write-HasEnded key i st w u ended rows mine (e, found, s) =
    let hit = with_id u.escrow.id e in
    let agrees = All-find (RowAgrees key w) (with_id i) w.escrows e rows found in
    let there =
      find_where-update_where (with_id i) (with_id u.escrow.id) (end_with u) w.escrows e (λ y. refl)
        found in
    elim (Bool-cases hit) [
      | inl h ↦
          let same : u.escrow.id ≡ e.id = ground arith in
          (
            end_with u e,
            there ∙ rw h refl,
            same_end u.status st (w.contract (key e.id)) mine.0 ended (rw same at (mine.1))
                (rw s at (agrees.1)),
          )
      | inr h ↦ (e, there ∙ rw h refl, s)
    ]

begin-escrows :
    (checked : Result Escrow) (h : Held) (st : Status) (n : Network) (w : World) (us : List Write)
    → (started (begin checked h st n w) us).world.escrows ≡ w.escrows
begin-escrows (err e) h st n w us = refl
begin-escrows (ok e) h st n w us =
    let same = call-escrows h n e.contract_escrow_id w in
    elim (Result-cases (call_contract h n e.contract_escrow_id w).0) [
      | inl (hash, f) ↦ rw (started, begin, f) same
      | inr (x, f) ↦ rw (started, begin, f) same
    ]

Step-HasEnded :
    (key : ℕ → ℕ) (i : ℕ) (st : Status) (s t : Running)
    → st ≢ pending
    → Step s t
    → IsAgreed key s
    → HasEnded i st s.world
    → HasEnded i st t.world
unfolding begin_confirm begin_cancel
Step-HasEnded key i st s t ended (confirm_begins registered c j n) v h =
    rw
      (begin-escrows (confirm_checks registered c j s.world.escrows) paid completed n s.world
        s.writes)
      h
Step-HasEnded key i st s t ended (cancel_begins now c j n) v h =
    rw (begin-escrows (cancel_checks now c j s.world.escrows) refunded cancelled n s.world s.writes)
      h
Step-HasEnded key i st s t ended (writes_one us vs u e) v h =
    write-HasEnded key i st s.world u ended v.rows
      (All-middle (WriteAgrees key s.world) us vs u
        (subst (All (WriteAgrees key s.world)) e v.waiting)).0
      h
Step-HasEnded key i st s t ended (drops_one us vs u e) v h = h
Step-HasEnded key i st s t ended (releases c j n) v (e, found, x) =
    elim (partial_release-cases c j n s.world) [
      | inl same ↦ rw same (e, found, x)
      | inr (m, d, _, p, left, same) ↦ rw same (
        (if with_id j e then release_row m e else e),
        find_where-update_where (with_id i) (with_id j) (release_row m) s.world.escrows e
            (λ y. refl) found,
        ground arith,
      )
    ]

-- An escrow that has ended stays as it ended, however the handlers are interleaved and whatever the
-- network and the database answer, where the database agreed with the contract at the start.
pub Reach-HasEnded :
    {s t : Running} (key : ℕ → ℕ) (i : ℕ) (st : Status)
    → Reach s t
    → IsAgreed key s
    → st ≢ pending
    → HasEnded i st s.world
    → HasEnded i st t.world
Reach-HasEnded key i st here v ended h = h
Reach-HasEnded key i st (next {t} {u} r step) v ended h =
    Step-HasEnded key i st t u ended step (Reach-IsAgreed key r v)
      (Reach-HasEnded key i st r v ended h)
