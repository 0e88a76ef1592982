-- ===== src/Webhook/Attempts.antt =====
-- What one attempt of `deliverWithRetry` of backend/src/services/webhook.js comes to.
use cross_border_payment_app.Webhook.{
  Answer, responds, breaks, hangs, Outcome, resolves, rejects, unsettled, Next, Post, delivered,
  posted, failed, retry_in, new_log, over, waits, is_secure, https_post, Delivery, State, Status,
  create_log, update_log, attempt_delivery, Attempt, Order,
}
use cross_border_payment_app.Ssrf.{
  Reason, Entry, Check, refused, accepted, Agent, Host, validate_outbound_url,
}
use cross_border_payment_app.Base.{
  ℕ, ◌*◌, ◌^◌, ◌≤◌, ◌<◌, ◌≡◌, refl, ◌∙◌, ◌≢◌, ◌⊎◌, inl, inr, Bool, true, false, Option, none, some,
  List, [], ◌∷◌, ◌++◌, arith, if◌then◌else◌, Bool-cases,
}

pub Check-cases :
    (k : Check)
    → ((r : Reason) × (k ≡ refused r)) ⊎ ((ip : Host) × (agent : Agent) × (k ≡ accepted ip agent))
Check-cases (refused r) = inl (r, refl)
Check-cases (accepted ip agent) = inr (ip, agent, refl)

abbrev pub is_accepted : Check → Bool
is_accepted (refused r) = false
is_accepted (accepted ip agent) = true

-- No receiver leaves a request without an answer.
abbrev pub is_answered : Answer → Bool
is_answered (responds status) = true
is_answered breaks = true
is_answered hangs = false

pub answered-settles :
    (secure : Bool) (a : Answer) → is_answered a ≡ true → https_post secure a ≢ unsettled
unfolding https_post
answered-settles false (responds status) h e = cc
answered-settles false breaks h e = cc
answered-settles false hangs h e = cc
answered-settles true (responds status) h e = absurd (ground arith)
answered-settles true breaks h e = cc
answered-settles true hangs h e = cc

pub Outcome-cases : (o : Outcome) → (o ≡ resolves) ⊎ ((o ≡ rejects) ⊎ (o ≡ unsettled))
Outcome-cases resolves = inl refl
Outcome-cases rejects = inr (inl refl)
Outcome-cases unsettled = inr (inr refl)

posts-create_log : (t : Attempt) (d : Delivery) (s : State) → (create_log t d s).1.posts ≡ s.posts
unfolding create_log
posts-create_log t d s = ground arith

posts-update_log :
    (t : Attempt) (o : Option ℕ) (st : Status) (s : State) → (update_log t o st s).posts ≡ s.posts
unfolding update_log
posts-update_log t none st s = refl
posts-update_log t (some i) st s = ground arith

-- The request of an attempt, if it makes one
abbrev pub request_of : Order → ℕ → Host → List Post
request_of o attempt ip =
    if is_secure o.url then record { ip = ip; secrets = o.secrets; attempt = attempt } ∷ [] else []

-- What one attempt comes to and sends.
abbrev pub IsAttempt : List Entry → Order → Attempt → ℕ → State → Type 0
IsAttempt entries o t attempt s =
    let (next, s') = attempt_delivery entries o t attempt s in
    ((is_accepted (validate_outbound_url entries t.dns o.url) ≡ false)
      × (next ≡ over)
      × (s'.posts ≡ s.posts))
    ⊎ ((ip : Host) × (agent : Agent) × (validate_outbound_url entries t.dns o.url
          ≡ accepted ip agent)
        × (s'.posts ≡ request_of o attempt agent.lookup_ip ++ s.posts)
        × (https_post (is_secure o.url) t.answer ≡ resolves → next ≡ over)
        × (https_post (is_secure o.url) t.answer ≡ unsettled → next ≡ waits)
        × (https_post (is_secure o.url) t.answer ≡ rejects
            → attempt < 2
            → next ≡ retry_in (2 ^ attempt * 1000))
        × (https_post (is_secure o.url) t.answer ≡ rejects → 2 ≤ attempt → next ≡ over))

sent_posts :
    (o : Order) (attempt : ℕ) (ip : Host) (s : State)
    → (if is_secure o.url then posted ip o attempt s else s).posts
      ≡ request_of o attempt ip ++ s.posts
sent_posts o attempt ip s = elim (Bool-cases (is_secure o.url)) [
  | inl e ↦ rw e refl
  | inr e ↦ rw e refl
]

pub attempt_delivery-cases :
    (entries : List Entry) (o : Order) (t : Attempt) (attempt : ℕ) (s : State)
    → IsAttempt entries o t attempt s
unfolding attempt_delivery
attempt_delivery-cases entries o t attempt s =
    let d = new_log o t attempt in
    let logged = create_log t d s in
    let made = posts-create_log t d s in
    elim (Check-cases (validate_outbound_url entries t.dns o.url)) [
      | inl (r, e) ↦ inl (
        rw (attempt_delivery, e) refl,
        rw (attempt_delivery, e) refl,
        rw (attempt_delivery, e) (posts-update_log t logged.0 failed logged.1 ∙ made),
      )
      | inr (ip, agent, e) ↦
          let sent =
            if is_secure o.url then posted agent.lookup_ip o attempt logged.1 else logged.1 in
          let posts = sent_posts o attempt agent.lookup_ip logged.1 in
          elim (Outcome-cases (https_post (is_secure o.url) t.answer)) [
            | inl f ↦ inr (
              ip,
              agent,
              e,
              rw (attempt_delivery, e, f, posts-update_log t logged.0 delivered sent, posts, made)
                  refl,
              λ h. rw (attempt_delivery, e, f) refl,
              λ h. absurd (ground arith),
              λ h. absurd (ground arith),
              λ h. absurd (ground arith),
            )
            | inr (inl f) ↦ inr (
              ip,
              agent,
              e,
              rw (attempt_delivery, e, f, posts-update_log t logged.0 failed sent, posts, made)
                  refl,
              λ h. absurd (ground arith),
              λ h. absurd (ground arith),
              λ h lt. rw (attempt_delivery, e, f) (ground arith),
              λ h le. rw (attempt_delivery, e, f) (ground arith),
            )
            | inr (inr f) ↦ inr (
              ip,
              agent,
              e,
              rw (attempt_delivery, e, f, posts, made) refl,
              λ h. absurd (ground arith),
              λ h. rw (attempt_delivery, e, f) refl,
              λ h. absurd (ground arith),
              λ h. absurd (ground arith),
            )
          ]
    ]

pub Next-cases : (n : Next) → (n ≡ over) ⊎ ((n ≡ waits) ⊎ ((delay : ℕ) × (n ≡ retry_in delay)))
Next-cases over = inl refl
Next-cases waits = inr (inl refl)
Next-cases (retry_in delay) = inr (inr (delay, refl))
