-- ===== src/Webhook/Registered.antt =====
-- What holds of the webhooks that backend/src/controllers/webhookController.js registers.
use cross_border_payment_app.Webhook.Kept.{deliver-kept, retry-kept}
use cross_border_payment_app.Webhook.{
  with_id, owned, Event, Attempt, Cipher, Webhook, State, deliver, retry,
}
use cross_border_payment_app.Ssrf.{Url, Dns, Entry, is_https}
use cross_border_payment_app.Webhook.Handlers.{
  rotated, or_empty, has_invalid, validate_webhook_url, create, rotate_secret, Changes, changed,
  update, url_error,
}
use cross_border_payment_app.Base.{
  ℕ, ◌≡◌, refl, inl, inr, true, Option, none, some, List, [], arith, Bool-cases, Option-cases,
  find_where, any, All, All-update_where,
}

-- The calls that write, with whatever arguments, and whatever the network and the database do.
pub data Step (entries : List Entry) (c : Cipher) (s : State) : State → Type 0 where
  create_step :
      (dns : Dns) (plain i user : ℕ) (url : Option Url) (events : Option (List Event))
      → Step entries c s (create entries dns c plain i user url events s).1
  update_step :
      (dns : Dns) (user i : ℕ) (q : Changes) → Step entries c s (update entries dns user i q s).1
  rotate_step :
      (overlap now plain user i : ℕ)
      → Step entries c s (rotate_secret c overlap now plain user i s).1
  deliver_step :
      (now : ℕ) (runs : ℕ → List Attempt) (user_id : Option ℕ) (event : Event)
      → Step entries c s (deliver entries c now runs user_id event s).1
  retry_step :
      (now : ℕ) (ts : List Attempt) (user i : ℕ)
      → Step entries c s (retry entries c now ts user i s).1

pub data Reach (entries : List Entry) (c : Cipher) : State → Type 0 where
  start : Reach entries c (record { webhooks = []; deliveries = []; posts = [] })
  next : {s s' : State} → Reach entries c s → Step entries c s s' → Reach entries c s'

-- The url of a webhook is one for https.
abbrev pub IsSecure : Webhook → Type 0
IsSecure w = (u : Url) × (w.url ≡ some u) × (is_https u.protocol ≡ true)

-- All urls are for https.
abbrev pub AllSecure : State → Type 0
AllSecure s = All IsSecure s.webhooks

validated :
    (entries : List Entry) (dns : Dns) (url : Option Url)
    → validate_webhook_url entries dns url ≡ none
    → (u : Url) × (url ≡ some u) × (is_https u.protocol ≡ true)
unfolding validate_webhook_url
validated entries dns none h = cc
validated entries dns (some u) h = elim (Bool-cases (is_https u.protocol)) [
  | inl e ↦ (u, refl, e)
  | inr e ↦ absurd (ground arith)
]

create-AllSecure :
    (entries : List Entry) (dns : Dns) (c : Cipher) (plain i user : ℕ) (url : Option Url)
    (events : Option (List Event)) (s : State)
    → AllSecure s
    → AllSecure (create entries dns c plain i user url events s).1
unfolding create
create-AllSecure entries dns c plain i user url events s a =
    elim (Option-cases (validate_webhook_url entries dns url)) [
      | inl e ↦ elim (Bool-cases (has_invalid (or_empty events))) [
        | inl f ↦ rw (create, e, f) a
        | inr f ↦ rw (create, e, f) (validated entries dns url e, a)
      ]
      | inr (r, e) ↦ rw (create, e) a
    ]

changed-IsSecure :
    (entries : List Entry) (dns : Dns) (q : Changes) (w : Webhook)
    → url_error entries dns q.url ≡ none
    → IsSecure w
    → IsSecure (changed q w)
changed-IsSecure entries dns q w e safe = elim (Option-cases q.url) [
  | inl f ↦ rw f safe
  | inr (url, f) ↦ rw f (validated entries dns url (ground arith))
]

update-AllSecure :
    (entries : List Entry) (dns : Dns) (user i : ℕ) (q : Changes) (s : State)
    → AllSecure s
    → AllSecure (update entries dns user i q s).1
unfolding update
update-AllSecure entries dns user i q s a = elim (Bool-cases (any (owned i user) s.webhooks)) [
  | inr f ↦ rw (update, f) a
  | inl f ↦ elim (Option-cases (url_error entries dns q.url)) [
    | inr (r, e) ↦ rw (update, f, e) a
    | inl e ↦ elim (Bool-cases (has_invalid (or_empty q.events))) [
      | inl g ↦ rw (update, f, e, g) a
      | inr g ↦
          let safe =
            All-update_where (owned i user) (changed q) s.webhooks
              (λ w h b. changed-IsSecure entries dns q w e b) (λ w b. b) a in
          rw (update, f, e, g) safe
    ]
  ]
]

rotate-AllSecure :
    (c : Cipher) (overlap now plain user i : ℕ) (s : State)
    → AllSecure s
    → AllSecure (rotate_secret c overlap now plain user i s).1
unfolding rotate_secret
rotate-AllSecure c overlap now plain user i s a =
    elim (Option-cases (find_where (owned i user) s.webhooks)) [
      | inl e ↦ rw (rotate_secret, e) a
      | inr (w, e) ↦
          let safe =
            All-update_where {Q = IsSecure} (with_id i) (rotated c overlap now plain w) s.webhooks
              (λ v h b. b) (λ v b. b) a in
          rw (rotate_secret, e) safe
    ]

-- Whatever is called, in whatever order, from empty tables on, each webhook stands with a URL for https,
-- since a new or a changed one is refused when it is not, and neither a delivery nor a retry nor a
-- rotation touches it.
pub Reach-IsSecure :
    (entries : List Entry) (c : Cipher) {s : State} → Reach entries c s → All IsSecure s.webhooks
Reach-IsSecure entries c start = tt
Reach-IsSecure entries c (next {s} r (create_step dns plain i user url events)) =
    create-AllSecure entries dns c plain i user url events s (Reach-IsSecure entries c r)
Reach-IsSecure entries c (next {s} r (update_step dns user i q)) =
    update-AllSecure entries dns user i q s (Reach-IsSecure entries c r)
Reach-IsSecure entries c (next {s} r (rotate_step overlap now plain user i)) =
    rotate-AllSecure c overlap now plain user i s (Reach-IsSecure entries c r)
Reach-IsSecure entries c (next {s} r (deliver_step now runs user event)) =
    rw (deliver-kept entries c now runs user event s) (Reach-IsSecure entries c r)
Reach-IsSecure entries c (next {s} r (retry_step now ts user i)) =
    rw (retry-kept entries c now ts user i s) (Reach-IsSecure entries c r)
