-- ===== src/Webhook/Handlers.antt =====
-- The handlers of backend/src/controllers/webhookController.js that read and write the table of webhooks.
use cross_border_payment_app.Webhook.{
  with_id, is_valid_event, owned, of_user, Delivery, Cipher, Event, Webhook, State,
}
use cross_border_payment_app.Ssrf.{
  Url, Dns, Entry, refused, accepted, validate_outbound_url, is_https,
}
use cross_border_payment_app.Base.{
  ℕ, zero, suc, ◌+◌, ◌*◌, String, Bool, true, ◌&&◌, not, Option, none, some, List, [], ◌∷◌, map,
  ◌==◌, if◌then◌else◌, find_where, select_where, update_where, any, Reply, json, rejected,
}

-- `validateWebhookUrl`: null when the address may be used.
unfoldable pub validate_webhook_url : List Entry → Dns → Option Url → Option (ℕ × String)
validate_webhook_url entries dns none = some (400, "")
validate_webhook_url entries dns (some url) =
    if not (is_https url.protocol)
    then some (400, "")
    else elim (validate_outbound_url entries dns (some url)) [
      | refused reason ↦ some (400, "SSRF_BLOCKED")
      | accepted ip agent ↦ none
    ]

-- Some event is not one of the catalogue.
abbrev pub has_invalid : List Event → Bool
has_invalid es = any (λ e. not (is_valid_event e)) es

abbrev pub or_empty : Option (List Event) → List Event
or_empty none = []
or_empty (some es) = es

-- What the caller is given: the row, and the secret in plain text, once.
pub record Issued : Type 0 where
  pub webhook : Webhook
  pub secret : ℕ

abbrev pub with_webhooks : State → List Webhook → State
with_webhooks s ws = record s { webhooks = ws }

abbrev pub new_webhook : Cipher → ℕ → ℕ → ℕ → Option Url → List Event → Webhook
new_webhook c plain i user url events = record {
  id = i;
  user_id = user;
  url = url;
  secret = c.encrypt plain;
  previous_secret = none;
  previous_secret_expires_at = none;
  events = events;
  active = true;
}

-- `create`, with the random secret and the id of the new row
unfoldable pub create :
    List Entry
    → Dns
    → Cipher
    → ℕ
    → ℕ
    → ℕ
    → Option Url
    → Option (List Event)
    → State
    → Reply Issued × State
create entries dns c plain i user url events s = elim (validate_webhook_url entries dns url) [
  | some (status, code) ↦ (rejected status code, s)
  | none ↦
      if has_invalid (or_empty events)
      then (rejected 400 "", s)
      else let w = new_webhook c plain i user url (or_empty events) in
        (json (record { webhook = w; secret = plain }), with_webhooks s (w ∷ s.webhooks))
]

-- The hours of the overlap, in milliseconds, as WEBHOOK_SECRET_ROTATION_OVERLAP_HOURS has them.
abbrev pub hours : ℕ → ℕ
hours n = n * 3600000

abbrev pub rotated : Cipher → ℕ → ℕ → ℕ → Webhook → Webhook → Webhook
rotated c overlap_hours now plain old w = record w {
  secret = c.encrypt plain;
  previous_secret = some old.secret;
  previous_secret_expires_at = some (now + hours overlap_hours);
}

-- `rotateSecret`
unfoldable pub rotate_secret : Cipher → ℕ → ℕ → ℕ → ℕ → ℕ → State → Reply ℕ × State
rotate_secret c overlap_hours now plain user i s = elim (find_where (owned i user) s.webhooks) [
  | none ↦ (rejected 404 "", s)
  | some old ↦ (
    json plain,
    with_webhooks s (update_where (with_id i) (rotated c overlap_hours now plain old) s.webhooks),
  )
]

-- The fields of the body of an update; `none` for `undefined`.
pub record Changes : Type 0 where
  pub url : Option (Option Url)
  pub events : Option (List Event)
  pub active : Option Bool

-- `COALESCE(new, old)`
abbrev pub coalesce {ℓ} : {A : Type ℓ} → Option A → A → A
coalesce none x = x
coalesce (some y) x = y

abbrev pub changed : Changes → Webhook → Webhook
changed q w = record w {
  url = coalesce q.url w.url;
  events = coalesce q.events w.events;
  active = coalesce q.active w.active;
}

-- `if (url !== undefined) { const urlError = ... }`
abbrev pub url_error : List Entry → Dns → Option (Option Url) → Option (ℕ × String)
url_error entries dns none = none
url_error entries dns (some url) = validate_webhook_url entries dns url

-- `update`
unfoldable pub update : List Entry → Dns → ℕ → ℕ → Changes → State → Reply (Option Webhook) × State
update entries dns user i q s =
    if not (any (owned i user) s.webhooks)
    then (rejected 404 "", s)
    else elim (url_error entries dns q.url) [
      | some (status, code) ↦ (rejected status code, s)
      | none ↦
          if has_invalid (or_empty q.events)
          then (rejected 400 "", s)
          else let ws = update_where (owned i user) (changed q) s.webhooks in
            (json (find_where (owned i user) ws), with_webhooks s ws)
    ]

-- What `list` shows of a secret: its first four characters, given by `prefix`, or none of them.
pub data Masked : Type 0 where
  starts : ℕ → Masked
  hidden : Masked

pub record Shown : Type 0 where
  pub id : ℕ
  pub url : Option Url
  pub events : List Event
  pub active : Bool
  pub secret_masked : Masked

abbrev pub mask : Cipher → (ℕ → ℕ) → Webhook → Masked
mask c prefix w = elim (c.decrypt w.secret) [ none ↦ hidden | some plain ↦ starts (prefix plain) ]

abbrev pub show : Cipher → (ℕ → ℕ) → Webhook → Shown
show c prefix w = record {
  id = w.id;
  url = w.url;
  events = w.events;
  active = w.active;
  secret_masked = mask c prefix w;
}

abbrev pub is_of : ℕ → Webhook → Bool
is_of user w = w.user_id == user

-- `list`; the newest row stands first in the table.
unfoldable pub list : Cipher → (ℕ → ℕ) → ℕ → State → Reply (List Shown)
list c prefix user s = json (map (show c prefix) (select_where (is_of user) s.webhooks))

abbrev pub is_wanted : Option ℕ → Delivery → Bool
is_wanted none d = true
is_wanted (some i) d = d.webhook_id == i

abbrev pub first {ℓ} : {A : Type ℓ} → ℕ → List A → List A
first zero xs = []
first (suc n) [] = []
first (suc n) (x ∷ xs) = x ∷ first n xs

-- `listDeliveries`
unfoldable pub list_deliveries : ℕ → Option ℕ → State → Reply (List Delivery)
list_deliveries user webhook_id s = json (
    first 100
      (select_where (λ d. of_user user d s.webhooks && is_wanted webhook_id d) s.deliveries))
