-- ===== src/Webhook/Examples.antt =====
-- Deliveries, rotations and registrations at concrete inputs.
use cross_border_payment_app.Webhook.{
  is_secure, resolves, rejects, waits, hangs, max_attempts, responds, Delivery, delivered, unknown,
  owned, failed, pending, retry_in, payment_sent, Order, Status, retry, update_log, deliver, Cipher,
  Attempt, Post, create_log, Webhook, attempt_delivery, deliver_with_retry, retry_delivery, State,
  active_secrets, is_valid_event, https_post,
}
use cross_border_payment_app.Ssrf.{validate_outbound_url, dotted, text, Url, Dns, http, https}
use cross_border_payment_app.Webhook.Handlers.{
  create, rotate_secret, update, list, list_deliveries, hours, validate_webhook_url, Changes,
}
use cross_border_payment_app.Webhook.Signature.{build_signature_header, verify_signature}
use cross_border_payment_app.Webhook.Rotation.{rotate_secret-verify_signature}
use cross_border_payment_app.Webhook.Deliveries.{deliver_with_retry-sends, sends}
use cross_border_payment_app.Webhook.Attempts.{is_answered}
use cross_border_payment_app.Webhook.Vetted.{deliver_with_retry-IsVetted, IsVetted}
use cross_border_payment_app.Webhook.Registered.{
  next, Reach, start, create_step, deliver_step, IsSecure, Reach-IsSecure,
}
use cross_border_payment_app.Base.{
  ℕ, ◌+◌, ◌-◌, ◌*◌, ◌≤◌, ◌<◌, ◌≡◌, refl, true, false, none, some, List, [], ◌∷◌, arith, ◌==◌,
  if◌then◌else◌, length, find_where, All, plain_error, err, json, rejected,
}

-- The name "a.b", which stands for 8.8.8.8
abbrev url : Url
url = record { protocol = https; hostname = text (97 ∷ 46 ∷ 98 ∷ []) }

abbrev dns : Dns
dns = record {
  lookup = λ h. some (dotted 8 8 8 8);
  resolve4 = λ h. some (dotted 8 8 8 8 ∷ []);
  resolve6 = λ h. none;
}

abbrev answered : ℕ → ℕ → Attempt
answered log_id status = record {
  dns = dns;
  answer = responds status;
  log_id = log_id;
  create_fails = false;
  update_fails = false;
}

abbrev order : Order
order = record { webhook_id = 1; url = some url; secrets = 7 ∷ []; event = payment_sent }

abbrev empty : State
empty = record { webhooks = []; deliveries = []; posts = [] }

abbrev post_at : ℕ → Post
post_at attempt = record { ip = dotted 8 8 8 8; secrets = 7 ∷ []; attempt = attempt }

abbrev row : ℕ → Status → ℕ → Delivery
row i status attempt = record {
  id = i;
  webhook_id = 1;
  event_type = payment_sent;
  target_url = some url;
  status = status;
  attempt = attempt;
  max_attempts = 3;
}

abbrev two_tries : List Attempt
two_tries = answered 1 500 ∷ answered 2 200 ∷ answered 3 200 ∷ []

-- A failure, a success, and nothing more.
sent_twice : deliver_with_retry [] order two_tries 0 empty ≡ (
  true,
  record {
    webhooks = [];
    deliveries = row 2 delivered 2 ∷ row 1 failed 1 ∷ [];
    posts = post_at 1 ∷ post_at 0 ∷ [];
  },
)
unfolding deliver_with_retry validate_outbound_url
sent_twice = refl

redirects_fail :
    (https_post true (responds 302) ≡ rejects) × (https_post true (responds 204) ≡ resolves)
unfolding https_post
redirects_fail = (refl, refl)

-- A request for a URL that is not for https is never sent.
abbrev plain_order : Order
plain_order = record order { url = some (record url { protocol = http }) }

plain_not_sent : (deliver_with_retry [] plain_order two_tries 0 empty).1.posts ≡ []
unfolding deliver_with_retry validate_outbound_url
plain_not_sent = refl

unanswered :
    (attempt_delivery [] order (record (answered 1 0) { answer = hangs }) 0 empty).0 ≡ waits
unfolding attempt_delivery validate_outbound_url
unanswered = refl

first_delay : (attempt_delivery [] order (answered 1 500) 1 empty).0 ≡ retry_in 2000
unfolding attempt_delivery validate_outbound_url
first_delay = refl

log_kept : update_log (answered 1 200) none failed empty ≡ empty
unfolding update_log
log_kept = refl

log_made : (create_log (answered 1 200) (row 1 pending 1) empty).0 ≡ some 1
unfolding create_log
log_made = refl

-- A cipher that adds one
abbrev cipher : Cipher
cipher = record { encrypt = λ n. n + 1; decrypt = λ n. if n == 0 then none else some (n - 1) }

inverse : (x : ℕ) → cipher.decrypt (cipher.encrypt x) ≡ some x
inverse x = ground arith

abbrev webhook : Webhook
webhook = record {
  id = 1;
  user_id = 9;
  url = some url;
  secret = 8;
  previous_secret = none;
  previous_secret_expires_at = none;
  events = payment_sent ∷ [];
  active = true;
}

abbrev one_webhook : State
one_webhook = record { webhooks = webhook ∷ []; deliveries = row 5 failed 3 ∷ []; posts = [] }

created :
    (create [] dns cipher 7 1 9 (some url) (some (payment_sent ∷ [])) empty).1.webhooks
    ≡ webhook ∷ []
unfolding create validate_webhook_url validate_outbound_url is_valid_event
created = refl

not_a_url : validate_webhook_url [] dns none ≡ some (400, "")
unfolding validate_webhook_url
not_a_url = refl

known : is_valid_event (unknown 3) ≡ false
unfolding is_valid_event
known = refl

-- The name `userId` has no meaning in the module.
thrown_away :
    deliver [] cipher 0 (λ i. two_tries) none payment_sent one_webhook
    ≡ (err plain_error, one_webhook)
unfolding deliver
thrown_away = refl

-- If it stood for the user, the subscriber would be sent the event.
would_be_sent :
    (deliver [] cipher 0 (λ i. two_tries) (some 9) payment_sent one_webhook).1.posts
    ≡ post_at 1 ∷ post_at 0 ∷ []
unfolding deliver validate_outbound_url
would_be_sent = refl

one_secret : active_secrets cipher 0 webhook ≡ some (7 ∷ [])
unfolding active_secrets
one_secret = refl

retried : (retry [] cipher 0 two_tries 9 5 one_webhook).1.posts ≡ post_at 1 ∷ post_at 0 ∷ []
unfolding retry validate_outbound_url
retried = refl

fails_alone : (retry_delivery [] cipher 0 [] 6 one_webhook).0 ≡ err plain_error
unfolding retry_delivery
fails_alone = refl

not_theirs : (retry [] cipher 0 two_tries 8 5 one_webhook).0 ≡ rejected 404 ""
unfolding retry
not_theirs = refl

abbrev off : Changes
off = record { url = none; events = none; active = some false }

switched_off :
    (update [] dns 9 1 off one_webhook).1.webhooks ≡ record webhook { active = false } ∷ []
unfolding update
switched_off = refl

shown : list cipher (λ n. n) 8 one_webhook ≡ json []
unfolding list
shown = refl

deliveries_shown : list_deliveries 9 (some 1) one_webhook ≡ json (row 5 failed 3 ∷ [])
unfolding list_deliveries
deliveries_shown = refl

-- A digest for the examples
abbrev digest : ℕ → ℕ → ℕ
digest secret payload = secret * 1000 + payload

header_of_two : build_signature_header digest (3 ∷ 0 ∷ 7 ∷ []) 5 ≡ 3005 ∷ 7005 ∷ []
unfolding build_signature_header
header_of_two = refl

header_checked : verify_signature digest 5 (3005 ∷ 7005 ∷ []) (8 ∷ []) ≡ false
unfolding verify_signature
header_checked = refl

rotate_secret-verify_signature_example :
    let s' = (rotate_secret cipher 24 100 3 9 1 one_webhook).1 in
    (w' : Webhook) × (find_where (owned 1 9) s'.webhooks ≡ some w')
    × (secrets : List ℕ) × (active_secrets cipher 200 w' ≡ some secrets)
    × (200 < 100 + hours 24
        → let header = build_signature_header digest secrets 5 in
          (verify_signature digest 5 header (7 ∷ []) ≡ true)
          × (verify_signature digest 5 header (3 ∷ []) ≡ true))
    × (100 + hours 24 ≤ 200 → secrets ≡ 3 ∷ [])
rotate_secret-verify_signature_example =
    rotate_secret-verify_signature cipher digest 24 100 3 7 9 1 5 200 one_webhook webhook inverse
      refl refl (λ h. cc) (λ h. cc)

deliver_with_retry-sends_example :
    (length (deliver_with_retry [] order two_tries 0 empty).1.posts
      ≡ length empty.posts + sends [] order.url max_attempts two_tries)
    × (max_attempts ≤ length two_tries
        → All (λ t. is_answered t.answer ≡ true) two_tries
        → (deliver_with_retry [] order two_tries 0 empty).0 ≡ true)
    × (is_secure order.url ≡ false
        → (deliver_with_retry [] order two_tries 0 empty).1.posts ≡ empty.posts)
deliver_with_retry-sends_example = deliver_with_retry-sends [] order two_tries empty

deliver_with_retry-IsVetted_example :
    All (IsVetted [] order two_tries) (deliver_with_retry [] order two_tries 0 empty).1.posts
deliver_with_retry-IsVetted_example = deliver_with_retry-IsVetted [] order two_tries empty refl

abbrev registered : State
registered = (create [] dns cipher 7 1 9 (some url) (some (payment_sent ∷ [])) empty).1

abbrev after_deliver : State
after_deliver = (deliver [] cipher 0 (λ i. two_tries) (some 9) payment_sent registered).1

reached : Reach [] cipher after_deliver
reached =
    next (next start (create_step dns 7 1 9 (some url) (some (payment_sent ∷ []))))
      (deliver_step 0 (λ i. two_tries) (some 9) payment_sent)

Reach-IsSecure_example : All IsSecure after_deliver.webhooks
Reach-IsSecure_example = Reach-IsSecure [] cipher reached
