-- ===== src/Webhook/Deliveries.antt =====
-- How often `deliverWithRetry` of backend/src/services/webhook.js sends a delivery.
use cross_border_payment_app.Webhook.Attempts.{
  is_accepted, is_answered, answered-settles, Outcome-cases, request_of, attempt_delivery-cases,
  Next-cases,
}
use cross_border_payment_app.Webhook.{
  resolves, rejects, unsettled, Post, max_attempts, deliver_with_retry, retry_in, over, waits,
  is_secure, https_post, State, attempt_delivery, Attempt, Order,
}
use cross_border_payment_app.Ssrf.{Url, Entry, Host, validate_outbound_url}
use cross_border_payment_app.Base.{
  ℕ, zero, suc, ◌+◌, ◌*◌, ◌^◌, ◌≤◌, ◌≡◌, refl, ◌∙◌, inl, inr, true, false, not, Option, List, [],
  ◌∷◌, ◌++◌, arith, ltb, if◌then◌else◌, Bool-cases, length, All,
}

-- The requests of a delivery, by its attempts, for a URL that is for https or is not: one at each attempt
-- for https, until the address is refused, the promise of the request resolves or is never settled, or
-- the given number is reached.
abbrev pub sends : List Entry → Option Url → ℕ → List Attempt → ℕ
sends entries url zero ts = 0
sends entries url (suc n) [] = 0
sends entries url (suc n) (t ∷ ts) =
    let more = sends entries url n ts in
    let one = if is_secure url then 1 else 0 in
    if not (is_accepted (validate_outbound_url entries t.dns url))
    then 0
    else elim (https_post (is_secure url) t.answer) [
      | resolves ↦ one
      | unsettled ↦ one
      | rejects ↦ one + more
    ]

no_attempts :
    (entries : List Entry) (o : Order) (attempt : ℕ) (s : State)
    → length (deliver_with_retry entries o [] attempt s).1.posts ≡ length s.posts + 0
unfolding deliver_with_retry
no_attempts entries o attempt s = omega arith

module _ (entries : List Entry) (o : Order) (t : Attempt) (ts : List Attempt) (attempt : ℕ)
    (s : State) where
  pub deliver-over :
      (attempt_delivery entries o t attempt s).0 ≡ over
      → deliver_with_retry entries o (t ∷ ts) attempt s
        ≡ (true, (attempt_delivery entries o t attempt s).1)
  unfolding deliver_with_retry
  deliver-over e = rw (deliver_with_retry, e) refl

  pub deliver-again :
      (delay : ℕ)
      → (attempt_delivery entries o t attempt s).0 ≡ retry_in delay
      → deliver_with_retry entries o (t ∷ ts) attempt s
        ≡ deliver_with_retry entries o ts (attempt + 1) (attempt_delivery entries o t attempt s).1
  unfolding deliver_with_retry
  deliver-again delay e = rw (deliver_with_retry, e) refl

  pub deliver-waits :
      (attempt_delivery entries o t attempt s).0 ≡ waits
      → deliver_with_retry entries o (t ∷ ts) attempt s
        ≡ (false, (attempt_delivery entries o t attempt s).1)
  unfolding deliver_with_retry
  deliver-waits e = rw (deliver_with_retry, e) refl

-- One request at most, and one exactly for https
length-request :
    (o : Order) (attempt : ℕ) (ip : Host) (posts : List Post)
    → length (request_of o attempt ip ++ posts) ≡ length posts + (if is_secure o.url then 1 else 0)
length-request o attempt ip posts = elim (Bool-cases (is_secure o.url)) [
  | inl e ↦ rw e (omega arith)
  | inr e ↦ rw e (omega arith)
]

-- The rest of a delivery does not change what stands in front of it.
pub length-deliver :
    (entries : List Entry) (o : Order) (ts : List Attempt) (attempt n : ℕ) (s : State)
    → attempt + n ≡ max_attempts
    → 1 ≤ n
    → (length (deliver_with_retry entries o ts attempt s).1.posts
        ≡ length s.posts + sends entries o.url n ts)
      × (n ≤ length ts
          → All (λ t. is_answered t.answer ≡ true) ts
          → (deliver_with_retry entries o ts attempt s).0 ≡ true)
length-deliver entries o ts attempt zero s sum le = absurd (omega arith)
length-deliver entries o [] attempt (suc n) s sum le =
    (no_attempts entries o attempt s, λ h k. absurd (omega arith))
length-deliver entries o (t ∷ ts) attempt (suc n) s sum le =
    elim (attempt_delivery-cases entries o t attempt s) [
      | inl (r, e, same) ↦
          rw (deliver-over entries o t ts attempt s e, r, same) (omega arith, λ h k. refl)
      | inr (ip, agent, a, sent, ends, hung, goes_on, gives_up) ↦
          let one = length-request o attempt agent.lookup_ip s.posts in
          elim (Outcome-cases (https_post (is_secure o.url) t.answer)) [
            | inl f ↦
                rw (deliver-over entries o t ts attempt s (ends f), a, f, sent) (one, λ h k. refl)
            | inr (inr f) ↦
                rw (deliver-waits entries o t ts attempt s (hung f), a, f, sent)
                  (one, λ h k. absurd (answered-settles (is_secure o.url) t.answer k.0 f))
            | inr (inl f) ↦ elim (Bool-cases (ltb attempt 2)) [
              | inl few ↦
                  let (counted, finished) =
                    length-deliver entries o ts (attempt + 1) n
                      (attempt_delivery entries o t attempt s).1 (omega arith) (ground arith) in
                  let set = goes_on f (ground arith) in
                  rw (deliver-again entries o t ts attempt s (2 ^ attempt * 1000) set, a, f)
                    (rw (counted, sent) (omega (arith, one)), λ h k. finished (omega arith) k.1)
              | inr many ↦
                  let none_left : n ≡ 0 = ground arith in
                  let set = gives_up f (ground arith) in
                  rw (deliver-over entries o t ts attempt s set, a, f, sent, none_left)
                    (omega (arith, one), λ h k. refl)
            ]
          ]
    ]

posts-insecure :
    (entries : List Entry) (o : Order) (ts : List Attempt) (attempt : ℕ) (s : State)
    → is_secure o.url ≡ false
    → (deliver_with_retry entries o ts attempt s).1.posts ≡ s.posts
unfolding deliver_with_retry
posts-insecure entries o [] attempt s h = refl
posts-insecure entries o (t ∷ ts) attempt s h =
    let same : (attempt_delivery entries o t attempt s).1.posts ≡ s.posts =
      elim (attempt_delivery-cases entries o t attempt s) [
        | inl (r, e, kept) ↦ kept
        | inr (ip, agent, a, sent, ends, hung, goes_on, gives_up) ↦ sent ∙ rw h refl
      ] in
    elim (Next-cases (attempt_delivery entries o t attempt s).0) [
      | inl e ↦ rw (deliver-over entries o t ts attempt s e) same
      | inr (inl e) ↦ rw (deliver-waits entries o t ts attempt s e) same
      | inr (inr (delay, e)) ↦ rw (deliver-again entries o t ts attempt s delay e) (
          posts-insecure entries o ts (attempt + 1) (attempt_delivery entries o t attempt s).1 h
          ∙ same)
    ]

-- A delivery to a URL for https sends a request at each attempt, until the address is refused, an answer
-- has a status of success, no answer comes, or three have been sent; one to any other URL sends none.
-- With three attempts or more it is over at the end, if no receiver leaves a request without an answer.
pub deliver_with_retry-sends :
    (entries : List Entry) (o : Order) (ts : List Attempt) (s : State)
    → (length (deliver_with_retry entries o ts 0 s).1.posts
        ≡ length s.posts + sends entries o.url max_attempts ts)
      × (max_attempts ≤ length ts
          → All (λ t. is_answered t.answer ≡ true) ts
          → (deliver_with_retry entries o ts 0 s).0 ≡ true)
      × (is_secure o.url ≡ false → (deliver_with_retry entries o ts 0 s).1.posts ≡ s.posts)
deliver_with_retry-sends entries o ts s =
    let (counted, finished) = length-deliver entries o ts 0 max_attempts s refl (omega arith) in
    (counted, finished, posts-insecure entries o ts 0 s)
