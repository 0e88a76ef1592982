-- ===== src/Webhook/Kept.antt =====
-- Neither a delivery nor a retry of backend/src/services/webhook.js touches the table of webhooks.
use cross_border_payment_app.Webhook.{
  with_id, has_id, is_failed, of_user, Event, Attempt, Cipher, Webhook, Order, Delivery, Status,
  State, posted, new_log, failed, delivered, create_log, update_log, https_post, is_secure,
  attempt_delivery, deliver_with_retry, active_secrets, subscribed, fan_out, deliver, replied,
  retry_delivery, retry,
}
use cross_border_payment_app.Webhook.Attempts.{Check-cases, Outcome-cases, Next-cases}
use cross_border_payment_app.Webhook.Deliveries.{deliver-over, deliver-again, deliver-waits}
use cross_border_payment_app.Ssrf.{Entry, Host, validate_outbound_url}
use cross_border_payment_app.Base.{
  ℕ, ◌+◌, ◌≡◌, refl, ap, ◌∙◌, inl, inr, Bool, true, false, ◌&&◌, Option, none, some, List, [], ◌∷◌,
  arith, if◌then◌else◌, Bool-cases, Option-cases, find_where, select_where, any, Result, ok, err,
}

create_log-webhooks :
    (t : Attempt) (d : Delivery) (s : State) → (create_log t d s).1.webhooks ≡ s.webhooks
unfolding create_log
create_log-webhooks t d s = ground arith

update_log-webhooks :
    (t : Attempt) (o : Option ℕ) (st : Status) (s : State)
    → (update_log t o st s).webhooks ≡ s.webhooks
unfolding update_log
update_log-webhooks t none st s = refl
update_log-webhooks t (some i) st s = ground arith

posted-webhooks :
    (b : Bool) (ip : Host) (o : Order) (attempt : ℕ) (s : State)
    → (if b then posted ip o attempt s else s).webhooks ≡ s.webhooks
posted-webhooks true ip o attempt s = refl
posted-webhooks false ip o attempt s = refl

-- An attempt writes to the log alone.
attempt-webhooks :
    (entries : List Entry) (o : Order) (t : Attempt) (attempt : ℕ) (s : State)
    → (attempt_delivery entries o t attempt s).1.webhooks ≡ s.webhooks
unfolding attempt_delivery
attempt-webhooks entries o t attempt s =
    let d = new_log o t attempt in
    let logged = create_log t d s in
    let made = create_log-webhooks t d s in
    elim (Check-cases (validate_outbound_url entries t.dns o.url)) [
      | inl (r, e) ↦
          rw (attempt_delivery, e) (update_log-webhooks t logged.0 failed logged.1 ∙ made)
      | inr (ip, agent, e) ↦
          let sent =
            if is_secure o.url then posted agent.lookup_ip o attempt logged.1 else logged.1 in
          let kept = posted-webhooks (is_secure o.url) agent.lookup_ip o attempt logged.1 ∙ made in
          elim (Outcome-cases (https_post (is_secure o.url) t.answer)) [
            | inl f ↦
                rw (attempt_delivery, e, f) (update_log-webhooks t logged.0 delivered sent ∙ kept)
            | inr (inl f) ↦
                rw (attempt_delivery, e, f) (update_log-webhooks t logged.0 failed sent ∙ kept)
            | inr (inr f) ↦ rw (attempt_delivery, e, f) kept
          ]
    ]

deliver-webhooks :
    (entries : List Entry) (o : Order) (ts : List Attempt) (attempt : ℕ) (s : State)
    → (deliver_with_retry entries o ts attempt s).1.webhooks ≡ s.webhooks
unfolding deliver_with_retry
deliver-webhooks entries o [] attempt s = refl
deliver-webhooks entries o (t ∷ ts) attempt s =
    let one = attempt-webhooks entries o t attempt s in
    elim (Next-cases (attempt_delivery entries o t attempt s).0) [
      | inl e ↦ rw (deliver-over entries o t ts attempt s e) one
      | inr (inl e) ↦ rw (deliver-waits entries o t ts attempt s e) one
      | inr (inr (delay, e)) ↦ rw (deliver-again entries o t ts attempt s delay e) (
          deliver-webhooks entries o ts (attempt + 1) (attempt_delivery entries o t attempt s).1
          ∙ one)
    ]

fan_out-webhooks :
    (entries : List Entry) (c : Cipher) (now : ℕ) (runs : ℕ → List Attempt) (event : Event)
    (ws : List Webhook) (s : State)
    → (fan_out entries c now runs event ws s).1.webhooks ≡ s.webhooks
unfolding fan_out
fan_out-webhooks entries c now runs event [] s = refl
fan_out-webhooks entries c now runs event (w ∷ ws) s =
    elim (Option-cases (active_secrets c now w)) [
      | inl e ↦ rw (fan_out, e) refl
      | inr (secrets, e) ↦
          let o : Order = record {
            webhook_id = w.id;
            url = w.url;
            secrets = secrets;
            event = event;
          } in
          rw (fan_out, e)
            (fan_out-webhooks entries c now runs event ws
                (deliver_with_retry entries o (runs w.id) 0 s).1
              ∙ deliver-webhooks entries o (runs w.id) 0 s)
    ]

pub deliver-kept :
    (entries : List Entry) (c : Cipher) (now : ℕ) (runs : ℕ → List Attempt) (user : Option ℕ)
    (event : Event) (s : State)
    → (deliver entries c now runs user event s).1.webhooks ≡ s.webhooks
unfolding deliver
deliver-kept entries c now runs none event s = ground arith
deliver-kept entries c now runs (some user) event s = ground (
  arith,
  fan_out-webhooks entries c now runs event (select_where (subscribed event user) s.webhooks) s,
)

retry_delivery-kept :
    (entries : List Entry) (c : Cipher) (now : ℕ) (ts : List Attempt) (i : ℕ) (s : State)
    → (retry_delivery entries c now ts i s).1.webhooks ≡ s.webhooks
unfolding retry_delivery
retry_delivery-kept entries c now ts i s =
    elim (Option-cases (find_where (λ d. has_id i d && is_failed d.status) s.deliveries)) [
      | inl e ↦ rw (retry_delivery, e) refl
      | inr (d, e) ↦ elim (Option-cases (find_where (with_id d.webhook_id) s.webhooks)) [
        | inl f ↦ rw (retry_delivery, e, f) refl
        | inr (w, f) ↦ elim (Option-cases (active_secrets c now w)) [
          | inl g ↦ rw (retry_delivery, e, f, g) refl
          | inr (secrets, g) ↦
              let o : Order = record {
                webhook_id = w.id;
                url = w.url;
                secrets = secrets;
                event = d.event_type;
              } in
              rw (retry_delivery, e, f, g) (deliver-webhooks entries o ts 0 s)
        ]
      ]
    ]

replied-kept : (p : Result (Unit {0}) × State) → (replied p).1 ≡ p.1
replied-kept (err e, s) = refl
replied-kept (ok x, s) = refl

pub retry-kept :
    (entries : List Entry) (c : Cipher) (now : ℕ) (ts : List Attempt) (user i : ℕ) (s : State)
    → (retry entries c now ts user i s).1.webhooks ≡ s.webhooks
unfolding retry
retry-kept entries c now ts user i s =
    elim (Bool-cases (any (λ d. has_id i d && of_user user d s.webhooks) s.deliveries)) [
      | inr e ↦ rw (retry, e) refl
      | inl e ↦
          rw (retry, e)
            (ap (λ x. x.webhooks) (replied-kept (retry_delivery entries c now ts i s))
              ∙ retry_delivery-kept entries c now ts i s)
    ]
