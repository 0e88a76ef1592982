-- ===== src/Dispute/Resolution.antt =====
-- Evidence and ends of the disputes of backend/src/controllers/disputeResolutionController.js, with the
-- handlers interleaved: a write may come long after the check before it.
use cross_border_payment_app.Dispute.{
  Evidence, evidence_limit, is_party, of_dispute, is_open, Opened, with_id, NewDispute, Dispute,
  Caller, State, Ruling, begin_evidence, insert_evidence, submit_evidence_handler, begin_resolve,
  write_resolution, open_dispute,
}
use cross_border_payment_app.Base.{
  ℕ, suc, ◌+◌, ◌<◌, ◌≡◌, refl, Bool, true, false, Option, some, List, [], ◌∷◌, ◌++◌, arith, leb,
  ◌==◌, find_where, count_where, All, count-append, Error, Result, ok, err,
}

-- The state, and the rows of evidence and the resolutions that handlers are about to write.
pub record System : Type 0 where
  pub state : State
  pub sending : List Evidence
  pub resolving : List Ruling

-- One step, with whatever the contract answers.
pub data Step (y : System) : System → Type 0 where
  opens :
      (c : Caller) (q : NewDispute) (called : Result Opened)
      → Step y (record y { state = (open_dispute c q called y.state).1 })
  submits :
      (c : Caller) (i : ℕ) (hash : Option ℕ) (e : Evidence)
      → begin_evidence c i hash y.state ≡ ok e
      → Step y (record y { sending = e ∷ y.sending })
  inserts :
      (before after : List Evidence) (e : Evidence)
      → y.sending ≡ before ++ e ∷ after
      → Step y (record y { state = insert_evidence e y.state; sending = before ++ after })
  resolves :
      (has_key : Bool) (i : ℕ) (release_to_recipient : Bool) (called : Result ℕ) (r : Ruling)
      → begin_resolve has_key i release_to_recipient called y.state ≡ ok r
      → Step y (record y { resolving = r ∷ y.resolving })
  writes :
      (before after : List Ruling) (r : Ruling)
      → y.resolving ≡ before ++ r ∷ after
      → Step y (record y { state = write_resolution r y.state; resolving = before ++ after })

pub data Reach (y : System) : System → Type 0 where
  here : Reach y y
  next : {t u : System} → Reach y t → Step t u → Reach y u

abbrev pub is_for : ℕ → Ruling → Bool
is_for i r = r.dispute_id == i

-- The row of a dispute that is no longer open, with no resolution of it still to be written, and how much
-- evidence there is for it, written or about to be.
pub record IsResolved (i n : ℕ) (d : Dispute) (y : System) : Type 0 where
  pub found : find_where (with_id i) y.state.disputes ≡ some d
  pub ended : is_open d.status ≡ false
  pub none_waiting : All (λ r. is_for i r ≡ false) y.resolving
  pub evidence :
      count_where (of_dispute i) y.state.evidence + count_where (of_dispute i) y.sending ≡ n

-- Evidence is recorded even where the contract then refuses it: the caller is given the error, and the
-- piece counts towards the limit.
pub submit_evidence-unanchored :
    (c : Caller) (i w h : ℕ) (e : Error) (s : State) (d : Dispute)
    → find_where (with_id i) s.disputes ≡ some d
    → is_open d.status ≡ true
    → c.wallet ≡ some w
    → is_party w d ≡ true
    → count_where (of_dispute i) s.evidence < 5
    → let (r, t) = submit_evidence_handler c i (some h) (err e) s in
      (r ≡ err e)
      × (count_where (of_dispute i) t.evidence ≡ suc (count_where (of_dispute i) s.evidence))
unfolding submit_evidence_handler begin_evidence
submit_evidence-unanchored c i w h e s d found opened_still mine is few =
    let new : Evidence = record { dispute_id = i; uploader_id = c.user_id; sha256_hash = h } in
    let all = count-append (of_dispute i) s.evidence (new ∷ []) in
    let one : count_where (of_dispute i) (new ∷ []) ≡ 1 = ground arith in
    let room : leb evidence_limit (count_where (of_dispute i) s.evidence) ≡ false = ground arith in
    rw (submit_evidence_handler, found, opened_still, mine, is, room) (refl, omega arith)
