-- ===== src/Webhook/Rotation.antt =====
-- The two secrets of a webhook around a rotation: backend/src/controllers/webhookController.js,
-- backend/src/services/webhook.js and backend/src/utils/webhookSignature.js together.
use cross_border_payment_app.Webhook.{with_id, owned, Webhook, State, active_secrets, Cipher}
use cross_border_payment_app.Webhook.Handlers.{hours, rotated, rotate_secret}
use cross_border_payment_app.Webhook.Signature.{build_signature_header, verify_signature}
use cross_border_payment_app.Base.{
  ℕ, ◌+◌, ◌≤◌, ◌<◌, ◌≡◌, refl, ◌∙◌, ◌≢◌, true, false, some, List, [], ◌∷◌, arith, ltb, ◌==◌,
  if◌then◌else◌, find_where, find_where_sound, find_where-update_where,
}

-- A header of two digests is verified with either secret.
two_digests :
    (sign : ℕ → ℕ → ℕ) (payload new old : ℕ)
    → new ≢ 0
    → old ≢ 0
    → let header = build_signature_header sign (new ∷ old ∷ []) payload in
      (verify_signature sign payload header (old ∷ []) ≡ true)
      × (verify_signature sign payload header (new ∷ []) ≡ true)
unfolding build_signature_header verify_signature
two_digests sign payload new old hn ho =
    let en : (new == 0) ≡ false = ground arith in
    let eo : (old == 0) ≡ false = ground arith in (ground arith, ground arith)

-- The secrets of a webhook that has been rotated.
secrets-rotated :
    (c : Cipher) (overlap now plain t old : ℕ) (w : Webhook)
    → ((x : ℕ) → c.decrypt (c.encrypt x) ≡ some x)
    → c.decrypt w.secret ≡ some old
    → active_secrets c t (rotated c overlap now plain w w)
      ≡ some (if ltb t (now + hours overlap) then plain ∷ old ∷ [] else plain ∷ [])
unfolding active_secrets
secrets-rotated c overlap now plain t old w inverse e = ground (arith, inverse plain)

found :
    (c : Cipher) (overlap now plain user i : ℕ) (s : State) (w : Webhook)
    → find_where (owned i user) s.webhooks ≡ some w
    → let s' = (rotate_secret c overlap now plain user i s).1 in
      find_where (owned i user) s'.webhooks ≡ some (rotated c overlap now plain w w)
unfolding rotate_secret
found c overlap now plain user i s w e =
    let mine = find_where_sound (owned i user) s.webhooks w e in
    let it : with_id i w ≡ true = ground arith in
    let eq =
      find_where-update_where (owned i user) (with_id i) (rotated c overlap now plain w) s.webhooks
        w (λ y. refl) e in
    rw (rotate_secret, e) (eq ∙ rw it refl)

-- A rotation does not break a receiver: until the overlap is over, a delivery signed with the active
-- secrets of the rotated webhook is verified with the old secret alone and with the new one alone;
-- afterwards it is signed with the new one only. Encryption can be undone, and no secret is empty.
pub rotate_secret-verify_signature :
    (c : Cipher) (sign : ℕ → ℕ → ℕ) (overlap now plain old user i payload t : ℕ) (s : State)
    (w : Webhook)
    → ((x : ℕ) → c.decrypt (c.encrypt x) ≡ some x)
    → find_where (owned i user) s.webhooks ≡ some w
    → c.decrypt w.secret ≡ some old
    → plain ≢ 0
    → old ≢ 0
    → let s' = (rotate_secret c overlap now plain user i s).1 in
      (w' : Webhook) × (find_where (owned i user) s'.webhooks ≡ some w')
      × (secrets : List ℕ) × (active_secrets c t w' ≡ some secrets)
      × (t < now + hours overlap
          → let header = build_signature_header sign secrets payload in
            (verify_signature sign payload header (old ∷ []) ≡ true)
            × (verify_signature sign payload header (plain ∷ []) ≡ true))
      × (now + hours overlap ≤ t → secrets ≡ plain ∷ [])
rotate_secret-verify_signature c sign overlap now plain old user i payload t s w inverse e d hp ho =
    (
      rotated c overlap now plain w w,
      found c overlap now plain user i s w e,
      (if ltb t (now + hours overlap) then plain ∷ old ∷ [] else plain ∷ []),
      secrets-rotated c overlap now plain t old w inverse d,
      λ before.
          let yet : ltb t (now + hours overlap) ≡ true = ground arith in
          rw yet (two_digests sign payload plain old hp ho),
      λ after. ground arith,
    )

-- A second rotation ends the first secret at once: whatever the time, deliveries are then signed with
-- the third secret, and perhaps the second, but no more with the first.
pub rotate_secret-rotate_secret :
    (c : Cipher) (overlap now later second third user i t : ℕ) (s : State) (w : Webhook)
    → ((x : ℕ) → c.decrypt (c.encrypt x) ≡ some x)
    → find_where (owned i user) s.webhooks ≡ some w
    → let s' = (rotate_secret c overlap now second user i s).1 in
      let s'' = (rotate_secret c overlap later third user i s').1 in
      (w'' : Webhook) × (find_where (owned i user) s''.webhooks ≡ some w'')
      × (active_secrets c t w''
          ≡ some (if ltb t (later + hours overlap) then third ∷ second ∷ [] else third ∷ []))
rotate_secret-rotate_secret c overlap now later second third user i t s w inverse e =
    let w' = rotated c overlap now second w w in
    let s' = (rotate_secret c overlap now second user i s).1 in
    (
      rotated c overlap later third w' w',
      found c overlap later third user i s' w' (found c overlap now second user i s w e),
      secrets-rotated c overlap later third t second w' inverse (inverse second),
    )
