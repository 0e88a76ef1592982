-- ===== src/Channel/Lifecycle.antt =====
-- A channel of backend/src/services/paymentChannel.js pays while it is open, and settles once.
use mathlib.Core.Path.{subst}
use cross_border_payment_app.Channel.{
  Channel, Store, is_open, is_open_of, OpenRequest, open_channel, spendable, pay, transact,
  Settlement, pay_recipient, closing_tx, settlement_of, close_row, close_channel,
}
use cross_border_payment_app.Channel.Conservation.{
  IsFresh, IsValid, open_step, transact_step, close_step, Reach, here, next,
}
use cross_border_payment_app.Base.{
  ℕ, ◌+◌, ◌≤◌, ◌<◌, ◌≡◌, refl, ◌⊎◌, inl, inr, ◌&&◌, none, some, List, [], ◌∷◌, arith, ltb, ◌==◌,
  Bool-cases, Option-cases, find_where, count_where, update_where, count-append, Result,
  with_status, Result-cases, ℤ, ok, err,
}

-- A successful close submitted what the recipient is owed, never more than the funding; with nothing
-- owed it submitted the closing transaction, which is valid only from its time on.
pub close_channel-settlement :
    (submit : Settlement → Result ℕ) (written : Result (Unit {0})) (i u hash : ℕ) (s t : Store)
    (c : Channel)
    → find_where (is_open_of i u) s.channels ≡ some c
    → c.sender_balance + c.recipient_balance ≡ c.funding_amount
    → close_channel submit written i u s ≡ (ok hash, t)
    → ((n : ℕ) × (0 < n)
        × (n ≤ c.funding_amount)
        × (submit (pay_recipient c.recipient_public_key c.asset n) ≡ ok hash))
      ⊎ ((c.recipient_balance ≡ 0) × (submit (closing_tx c.closing_min_time) ≡ ok hash))
unfolding close_channel settlement_of
close_channel-settlement submit written i u hash s t c e bal h =
    elim (Bool-cases (ltb 0 c.recipient_balance)) [
      | inl p ↦ inl (c.recipient_balance, ground arith, omega arith, ground arith)
      | inr p ↦ inr (ground arith, ground arith)
    ]

-- No row of the identifier is open.
abbrev NoneOpen : ℕ → List Channel → Type 0
NoneOpen i cs = count_where (λ d. (d.id == i) && is_open d.status) cs ≡ 0

none_found : (i u : ℕ) (cs : List Channel) → NoneOpen i cs → find_where (is_open_of i u) cs ≡ none
none_found i u [] h = refl
none_found i u (c ∷ cs) h = ground (arith, none_found i u cs)

none_closed :
    (i hash : ℕ) (cs : List Channel)
    → NoneOpen i (update_where (λ d. d.id == i) (close_row hash) cs)
none_closed i hash [] = refl
none_closed i hash (c ∷ cs) = ground (arith, none_closed i hash cs)

none_pay :
    (i j n : ℕ) (cs : List Channel)
    → NoneOpen i cs
    → NoneOpen i (update_where (λ d. d.id == j) (pay n) cs)
none_pay i j n [] h = refl
none_pay i j n (c ∷ cs) h = ground (arith, none_pay i j n cs)

none_close :
    (i j hash : ℕ) (cs : List Channel)
    → NoneOpen i cs
    → NoneOpen i (update_where (λ d. d.id == j) (close_row hash) cs)
none_close i j hash [] h = refl
none_close i j hash (c ∷ cs) h = ground (arith, none_close i j hash cs)

id_below :
    (n i u : ℕ) (c : Channel) (cs : List Channel)
    → IsFresh n cs
    → find_where (is_open_of i u) cs ≡ some c
    → i < n
id_below n i u c [] f e = cc
id_below n i u c (d ∷ cs) f e = ground (arith, id_below n i u c cs f.2, f.0)

-- The identifier is taken, and none of its rows is open.
record IsSettled (i : ℕ) (s : Store) : Type 0 where
  taken : i < s.next_id
  none_open : NoneOpen i s.channels

open_channel-IsSettled :
    (net : Result (Unit {0})) (now timeout i : ℕ) (r : OpenRequest) (s : Store)
    → IsSettled i s
    → IsSettled i (open_channel net now timeout r s).1
unfolding open_channel
open_channel-IsSettled (err e) now timeout i r s v = v
open_channel-IsSettled (ok _) now timeout i r s v = record {
  taken = omega (arith, v.taken);
  none_open =
      rw (count-append (λ d. (d.id == i) && is_open d.status) s.channels _)
        (ground (arith, v.taken, v.none_open));
}

transact-IsSettled :
    (i j u : ℕ) (a : ℤ) (s : Store) → IsSettled i s → IsSettled i (transact j u a s).1
unfolding transact
transact-IsSettled i j u a s v = elim (Option-cases (find_where (is_open_of j u) s.channels)) [
  | inl e ↦ rw (e, transact) v
  | inr (c, e) ↦ elim (Option-cases (spendable a c.sender_balance)) [
    | inl f ↦ rw (e, transact, f) v
    | inr (n, f) ↦
        rw (e, transact, f)
          (record { taken = v.taken; none_open = none_pay i j n s.channels v.none_open })
  ]
]

close_channel-IsSettled :
    (submit : Settlement → Result ℕ) (written : Result (Unit {0})) (i j u : ℕ) (s : Store)
    → IsSettled i s
    → IsSettled i (close_channel submit written j u s).1
unfolding close_channel
close_channel-IsSettled submit written i j u s v =
    elim (Option-cases (find_where (is_open_of j u) s.channels)) [
      | inl e ↦ rw (e, close_channel) v
      | inr (c, e) ↦ elim (Result-cases (submit (settlement_of c))) [
        | inl (hash, f) ↦ elim (Result-cases written) [
          | inr (x, g) ↦ rw (e, close_channel, f, g) v
          | inl (_, g) ↦
              rw (e, close_channel, f, g)
                (record { taken = v.taken; none_open = none_close i j hash s.channels v.none_open })
        ]
        | inr (x, f) ↦ rw (e, close_channel, f) v
      ]
    ]

Reach-IsSettled : {s t : Store} (i : ℕ) → Reach s t → IsSettled i s → IsSettled i t
Reach-IsSettled i here v = v
Reach-IsSettled i (next {t} r (open_step net now timeout q)) v =
    open_channel-IsSettled net now timeout i q t (Reach-IsSettled i r v)
Reach-IsSettled i (next {t} r (transact_step j u a)) v =
    transact-IsSettled i j u a t (Reach-IsSettled i r v)
Reach-IsSettled i (next {t} r (close_step submit written j u)) v =
    close_channel-IsSettled submit written i j u t (Reach-IsSettled i r v)

-- A successful close has found an open channel, and closed its row.
close_channel-eq-ok :
    (submit : Settlement → Result ℕ) (written : Result (Unit {0})) (i u hash : ℕ) (s t : Store)
    → close_channel submit written i u s ≡ (ok hash, t)
    → (c : Channel) × (find_where (is_open_of i u) s.channels ≡ some c)
      × (record s { channels = update_where (λ d. d.id == i) (close_row hash) s.channels } ≡ t)
unfolding close_channel
close_channel-eq-ok submit written i u hash s t h =
    elim (Option-cases (find_where (is_open_of i u) s.channels)) [
      | inl e ↦ ground arith
      | inr (c, e) ↦ (c, e, ground arith)
    ]

closed-IsSettled :
    (k : ℕ) (submit : Settlement → Result ℕ) (written : Result (Unit {0})) (i u hash : ℕ)
    (s t : Store)
    → IsValid k s
    → close_channel submit written i u s ≡ (ok hash, t)
    → IsSettled i t
closed-IsSettled k submit written i u hash s t v h =
    let (c, e, same) = close_channel-eq-ok submit written i u hash s t h in
    subst (IsSettled i) same (record {
      taken = id_below s.next_id i u c s.channels v.fresh e;
      none_open = none_closed i hash s.channels;
    })

-- After a close that was answered with success, and whatever calls come between, every further payment
-- on the channel and every further close of it is answered with 404 and changes nothing.
pub close_channel-final :
    (k : ℕ) (submit again : Settlement → Result ℕ) (written written_again : Result (Unit {0}))
    (i u w hash : ℕ) (a : ℤ) (s t v : Store)
    → IsValid k s
    → close_channel submit written i u s ≡ (ok hash, t)
    → Reach t v
    → (transact i w a v ≡ (err (with_status 404), v))
      × (close_channel again written_again i w v ≡ (err (with_status 404), v))
unfolding transact close_channel
close_channel-final k submit again written written_again i u w hash a s t v valid h r =
    let settled = Reach-IsSettled i r (closed-IsSettled k submit written i u hash s t valid h) in
    let missing = none_found i w v.channels settled.none_open in
    (rw (missing, transact), rw (missing, close_channel))
