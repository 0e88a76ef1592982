-- ===== src/Webhook.antt =====
-- The webhooks of backend/src/controllers/webhookController.js, their deliveries in
-- backend/src/services/webhook.js, and the signatures of backend/src/utils/webhookSignature.js.
pub mod Attempts
pub mod Deliveries
pub mod Vetted
pub mod Handlers
pub mod Signature
pub mod Rotation
pub mod Kept
pub mod Registered
mod Examples
use cross_border_payment_app.Ssrf.{
  Url, Dns, Entry, Check, refused, accepted, Agent, Host, validate_outbound_url, is_https,
}
use cross_border_payment_app.Base.{
  ℕ, ◌+◌, ◌-◌, ◌*◌, ◌^◌, Bool, true, false, ◌&&◌, Option, none, some, List, [], ◌∷◌, ltb, leb, ◌==◌,
  if◌then◌else◌, find_where, select_where, update_where, any, Result, plain_error, Reply, ok, err,
  json, rejected, forwarded,
}

-- WEBHOOK_EVENTS, and any other name
pub data Event : Type 0 where
  payment_sent payment_received payment_failed : Event
  escrow_cancelled claimable_expired claimable_expiring_soon : Event
  unknown : ℕ → Event

pub is_valid_event : Event → Bool
is_valid_event (unknown n) = false
is_valid_event _ = true

-- A row of webhooks. The url is what `new URL` makes of the text; the secrets are encrypted.
pub record Webhook : Type 0 where
  pub id : ℕ
  pub user_id : ℕ
  pub url : Option Url
  pub secret : ℕ
  pub previous_secret : Option ℕ
  pub previous_secret_expires_at : Option ℕ
  pub events : List Event
  pub active : Bool

pub data Status : Type 0 where
  pending delivered failed : Status

-- A row of webhook_deliveries
pub record Delivery : Type 0 where
  pub id : ℕ
  pub webhook_id : ℕ
  pub event_type : Event
  pub target_url : Option Url
  pub status : Status
  pub attempt : ℕ
  pub max_attempts : ℕ

-- A request that left the server: where it went, and the secrets its body is signed with.
pub record Post : Type 0 where
  pub ip : Host
  pub secrets : List ℕ
  pub attempt : ℕ

pub record State : Type 0 where
  pub webhooks : List Webhook
  pub deliveries : List Delivery
  pub posts : List Post

-- `encryptSecret` and `decryptSecret`; `none` when the latter throws.
pub record Cipher : Type 0 where
  pub encrypt : ℕ → ℕ
  pub decrypt : ℕ → Option ℕ

-- MAX_ATTEMPTS
abbrev pub max_attempts : ℕ
max_attempts = 3

-- What comes back from `https.request`: a status, an error, or nothing at all.
pub data Answer : Type 0 where
  responds : ℕ → Answer
  breaks : Answer
  hangs : Answer

-- A promise
pub data Outcome : Type 0 where
  resolves rejects unsettled : Outcome

-- `httpsPost` resolves for a status from 200 to 299; a redirect is an error as any other status is. For a
-- URL that is not for https its agent is one for http, with which `https.request` throws.
pub https_post : Bool → Answer → Outcome
https_post false answer = rejects
https_post true (responds status) = if leb 200 status && ltb status 300 then resolves else rejects
https_post true breaks = rejects
https_post true hangs = unsettled

-- What the world does during one attempt. A new row of the log has the given id.
pub record Attempt : Type 0 where
  pub dns : Dns
  pub answer : Answer
  pub log_id : ℕ
  pub create_fails : Bool
  pub update_fails : Bool

abbrev pub has_id : ℕ → Delivery → Bool
has_id i d = d.id == i

-- `safeCreateDeliveryLog`: the id of the row, or null.
pub create_log : Attempt → Delivery → State → Option ℕ × State
create_log t d s =
    if t.create_fails then (none, s) else (some d.id, record s { deliveries = d ∷ s.deliveries })

-- `safeUpdateDeliveryLog`
pub update_log : Attempt → Option ℕ → Status → State → State
update_log t none status s = s
update_log t (some i) status s = if t.update_fails then s else record s {
  deliveries = update_where (has_id i) (λ d. record d { status = status }) s.deliveries;
}

-- The arguments that stay the same from one attempt to the next.
pub record Order : Type 0 where
  pub webhook_id : ℕ
  pub url : Option Url
  pub secrets : List ℕ
  pub event : Event

abbrev pub new_log : Order → Attempt → ℕ → Delivery
new_log o t attempt = record {
  id = t.log_id;
  webhook_id = o.webhook_id;
  event_type = o.event;
  target_url = o.url;
  status = pending;
  attempt = attempt + 1;
  max_attempts = max_attempts;
}

-- What an attempt comes to: nothing more is done, a timer is set, in milliseconds, or it waits for an
-- answer that never comes.
pub data Next : Type 0 where
  over : Next
  retry_in : ℕ → Next
  waits : Next

abbrev pub is_secure : Option Url → Bool
is_secure none = false
is_secure (some u) = is_https u.protocol

abbrev pub posted : Host → Order → ℕ → State → State
posted ip o attempt s = record s {
  posts = record { ip = ip; secrets = o.secrets; attempt = attempt } ∷ s.posts;
}

-- One call of `deliverWithRetry`, up to the timer.
pub attempt_delivery : List Entry → Order → Attempt → ℕ → State → Next × State
unfolding create_log update_log https_post
attempt_delivery entries o t attempt s = elim (validate_outbound_url entries t.dns o.url) [
  | refused reason ↦
      let (blocked_id, logged) = create_log t (new_log o t attempt) s in
      (over, update_log t blocked_id failed logged)
  | accepted ip agent ↦
      let (delivery_id, logged) = create_log t (new_log o t attempt) s in
      let sent = if is_secure o.url then posted agent.lookup_ip o attempt logged else logged in
      elim (https_post (is_secure o.url) t.answer) [
        | resolves ↦ (over, update_log t delivery_id delivered sent)
        | rejects ↦ (
          if ltb attempt (max_attempts - 1) then retry_in (2 ^ attempt * 1000) else over,
          update_log t delivery_id failed sent,
        )
        | unsettled ↦ (waits, sent)
      ]
]

-- All of a delivery: its attempts in order, each with what the world does then. The first component
-- tells whether it is over, and not waiting for a timer or an answer.
unfoldable pub deliver_with_retry : List Entry → Order → List Attempt → ℕ → State → Bool × State
unfolding attempt_delivery
deliver_with_retry entries o [] attempt s = (false, s)
deliver_with_retry entries o (t ∷ ts) attempt s =
    let (next, s') = attempt_delivery entries o t attempt s in
    elim next [
      | over ↦ (true, s')
      | waits ↦ (false, s')
      | retry_in delay ↦ deliver_with_retry entries o ts (attempt + 1) s'
    ]

-- `activeSecrets`; `none` when a secret cannot be decrypted.
pub active_secrets : Cipher → ℕ → Webhook → Option (List ℕ)
active_secrets c now w = elim (c.decrypt w.secret) [
  | none ↦ none
  | some current ↦ elim w.previous_secret [
    | none ↦ some (current ∷ [])
    | some old ↦ elim w.previous_secret_expires_at [
      | none ↦ some (current ∷ [])
      | some expiry ↦
          if ltb now expiry
          then elim (c.decrypt old) [ none ↦ none | some p ↦ some (current ∷ p ∷ []) ]
          else some (current ∷ [])
    ]
  ]
]

abbrev pub same_event : Event → Event → Bool
same_event payment_sent payment_sent = true
same_event payment_received payment_received = true
same_event payment_failed payment_failed = true
same_event escrow_cancelled escrow_cancelled = true
same_event claimable_expired claimable_expired = true
same_event claimable_expiring_soon claimable_expiring_soon = true
same_event (unknown m) (unknown n) = m == n
same_event _ _ = false

-- `WHERE active = true AND user_id = $2 AND $1 = ANY(events)`
abbrev pub subscribed : Event → ℕ → Webhook → Bool
subscribed event user w = w.active && w.user_id == user && any (same_event event) w.events

-- The deliveries to the subscribers, with the attempts of each by its id, one subscriber after the other.
-- Secrets that cannot be decrypted end the loop with an error.
unfoldable pub fan_out :
    List Entry
    → Cipher
    → ℕ
    → (ℕ → List Attempt)
    → Event
    → List Webhook
    → State
    → Result (Unit {0}) × State
unfolding active_secrets deliver_with_retry
fan_out entries c now runs event [] s = (ok tt, s)
fan_out entries c now runs event (w ∷ ws) s = elim (active_secrets c now w) [
  | none ↦ (err plain_error, s)
  | some secrets ↦
      let o : Order = record { webhook_id = w.id; url = w.url; secrets = secrets; event = event } in
      fan_out entries c now runs event ws (deliver_with_retry entries o (runs w.id) 0 s).1
]

-- `deliver`. The query names `userId`, which is declared nowhere in the module: `user_id` is what the name
-- stands for, and `none` that the name has no meaning, so that the call throws.
unfoldable pub deliver :
    List Entry
    → Cipher
    → ℕ
    → (ℕ → List Attempt)
    → Option ℕ
    → Event
    → State
    → Result (Unit {0}) × State
unfolding is_valid_event fan_out
deliver entries c now runs user_id event s =
    if is_valid_event event
    then elim user_id [
      | none ↦ (err plain_error, s)
      | some user ↦
          fan_out entries c now runs event (select_where (subscribed event user) s.webhooks) s
    ]
    else (err plain_error, s)

abbrev pub with_id : ℕ → Webhook → Bool
with_id i w = w.id == i

abbrev pub owned : ℕ → ℕ → Webhook → Bool
owned i user w = w.id == i && w.user_id == user

abbrev pub is_failed : Status → Bool
is_failed failed = true
is_failed pending = false
is_failed delivered = false

-- `retryDelivery`: the failed delivery, joined with its webhook.
pub retry_delivery : List Entry → Cipher → ℕ → List Attempt → ℕ → State → Result (Unit {0}) × State
unfolding active_secrets deliver_with_retry
retry_delivery entries c now ts i s =
    elim (find_where (λ d. has_id i d && is_failed d.status) s.deliveries) [
      | none ↦ (err plain_error, s)
      | some d ↦ elim (find_where (with_id d.webhook_id) s.webhooks) [
        | none ↦ (err plain_error, s)
        | some w ↦ elim (active_secrets c now w) [
          | none ↦ (err plain_error, s)
          | some secrets ↦
              let o : Order = record {
                webhook_id = w.id;
                url = w.url;
                secrets = secrets;
                event = d.event_type;
              } in
              (ok tt, (deliver_with_retry entries o ts 0 s).1)
        ]
      ]
    ]

abbrev pub of_user : ℕ → Delivery → List Webhook → Bool
of_user user d ws = any (owned d.webhook_id user) ws

-- `catch (err) { next(err) }`
abbrev pub replied : Result (Unit {0}) × State → Reply (Unit {0}) × State
replied (err e, s) = (forwarded e, s)
replied (ok x, s) = (json tt, s)

-- `retry`
pub retry : List Entry → Cipher → ℕ → List Attempt → ℕ → ℕ → State → Reply (Unit {0}) × State
unfolding retry_delivery
retry entries c now ts user i s =
    if any (λ d. has_id i d && of_user user d s.webhooks) s.deliveries
    then replied (retry_delivery entries c now ts i s)
    else (rejected 404 "", s)
