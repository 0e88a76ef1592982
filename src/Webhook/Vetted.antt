-- ===== src/Webhook/Vetted.antt =====
-- Where `deliverWithRetry` of backend/src/services/webhook.js sends a delivery.
use cross_border_payment_app.Ssrf.Vetting.{MayReach, addresses, validate_outbound_url_iff}
use mathlib.Core.List.{Memᴰ}
use mathlib.Core.Path.{subst}
use cross_border_payment_app.Webhook.{
  Post, deliver_with_retry, State, attempt_delivery, Attempt, Order,
}
use cross_border_payment_app.Webhook.Attempts.{request_of, attempt_delivery-cases, Next-cases}
use cross_border_payment_app.Webhook.Deliveries.{deliver-over, deliver-again, deliver-waits}
use cross_border_payment_app.Ssrf.{
  is_https, create_pinned_agent, Dns, Url, Entry, accepted, Agent, Host, validate_outbound_url,
}
use cross_border_payment_app.Base.{
  ℕ, ◌+◌, ◌≡◌, refl, sym, ap, ◌∙◌, ◌≢◌, inl, inr, true, Option, none, some, List, [], ◌∷◌, ◌++◌,
  arith, Bool-cases, Option-cases, All,
}

-- A request is for a URL for https, and goes to an address that the host of the URL stands for at one of the
-- attempts, and that `isPrivateIp` does not count as private or that is in an allowed network.
abbrev pub IsVetted : List Entry → Order → List Attempt → Post → Type 0
IsVetted entries o ts p =
    (t : Attempt) × (u : Url) × Memᴰ t ts
    × (o.url ≡ some u)
    × (is_https u.protocol ≡ true)
    × Memᴰ p.ip (addresses t.dns u.hostname)
    × MayReach entries p.ip

head_reach :
    (entries : List Entry) (xs : List Host) (ip : Host) (rest : List Host)
    → xs ≡ ip ∷ rest
    → All (MayReach entries) xs
    → Memᴰ ip xs × MayReach entries ip
head_reach entries [] ip rest e qs = absurd (ground arith)
head_reach entries (x ∷ xs) ip rest e (q, qs) =
    let eq : ip ≡ x = cc in (Memᴰ.head eq, subst (MayReach entries) (sym eq) q)

none_refused :
    (entries : List Entry) (dns : Dns) (url : Option Url) (ip : Host) (agent : Agent)
    → url ≡ none
    → validate_outbound_url entries dns url ≢ accepted ip agent
unfolding validate_outbound_url
none_refused entries dns url ip agent e h = ground arith

agent-ip :
    (u : Url) (ip : Host) (agent : Agent)
    → agent ≡ create_pinned_agent u.hostname ip (is_https u.protocol)
    → agent.lookup_ip ≡ ip
unfolding create_pinned_agent
agent-ip u ip agent e = cc

attempt_delivery-IsVetted :
    (entries : List Entry) (o : Order) (all : List Attempt) (t : Attempt) (attempt : ℕ) (s : State)
    → Memᴰ t all
    → All (IsVetted entries o all) s.posts
    → All (IsVetted entries o all) (attempt_delivery entries o t attempt s).1.posts
attempt_delivery-IsVetted entries o all t attempt s m qs =
    elim (attempt_delivery-cases entries o t attempt s) [
      | inl (r, e, same) ↦ subst (All (IsVetted entries o all)) (sym same) qs
      | inr (ip, agent, a, sent, ends, hung, goes_on, gives_up) ↦ elim (Option-cases o.url) [
        | inl e ↦ absurd (none_refused entries t.dns o.url ip agent e a)
        | inr (u, e) ↦
            let (scheme, rest, first, pinned, reach) =
              (validate_outbound_url_iff entries t.dns u ip agent).0
                (subst (λ x. validate_outbound_url entries t.dns x ≡ accepted ip agent) e a) in
            let (member, safe) =
              head_reach entries (addresses t.dns u.hostname) ip rest first reach in
            let here : agent.lookup_ip ≡ ip = agent-ip u ip agent pinned in
            elim (Bool-cases (is_https u.protocol)) [
              | inr plain ↦
                  let no_request : request_of o attempt agent.lookup_ip ≡ [] = rw (e, plain) refl in
                  subst (All (IsVetted entries o all))
                    (sym (sent ∙ ap (λ x. x ++ s.posts) no_request)) qs
              | inl secure ↦
                  let one : request_of o attempt agent.lookup_ip
                      ≡ record { ip = agent.lookup_ip; secrets = o.secrets; attempt = attempt }
                        ∷ [] =
                    rw (e, secure) refl in
                  subst (All (IsVetted entries o all)) (sym (sent ∙ ap (λ x. x ++ s.posts) one)) (
                    (
                      t,
                      u,
                      m,
                      e,
                      secure,
                      subst (λ x. Memᴰ x (addresses t.dns u.hostname)) (sym here) member,
                      subst (MayReach entries) (sym here) safe,
                    ),
                    qs,
                  )
            ]
      ]
    ]

deliver-IsVetted :
    (entries : List Entry) (o : Order) (all ts : List Attempt) (attempt : ℕ) (s : State)
    → ((t : Attempt) → Memᴰ t ts → Memᴰ t all)
    → All (IsVetted entries o all) s.posts
    → All (IsVetted entries o all) (deliver_with_retry entries o ts attempt s).1.posts
unfolding deliver_with_retry
deliver-IsVetted entries o all [] attempt s sub qs = qs
deliver-IsVetted entries o all (t ∷ ts) attempt s sub qs =
    let one = attempt_delivery-IsVetted entries o all t attempt s (sub t (Memᴰ.head refl)) qs in
    elim (Next-cases (attempt_delivery entries o t attempt s).0) [
      | inl e ↦
          subst (λ z. All (IsVetted entries o all) z.1.posts)
            (sym (deliver-over entries o t ts attempt s e)) one
      | inr (inl e) ↦
          subst (λ z. All (IsVetted entries o all) z.1.posts)
            (sym (deliver-waits entries o t ts attempt s e)) one
      | inr (inr (delay, e)) ↦
          subst (λ z. All (IsVetted entries o all) z.1.posts)
            (sym (deliver-again entries o t ts attempt s delay e))
            (deliver-IsVetted entries o all ts (attempt + 1)
              (attempt_delivery entries o t attempt s).1 (λ x m. sub x (Memᴰ.tail m)) one)
    ]

-- Whatever the DNS and the receivers answer from attempt to attempt, each request of a delivery is for a
-- URL for https and goes to an address that its host stood for at one of the attempts, which is in an
-- allowed network or one that `isPrivateIp` does not count as private.
pub deliver_with_retry-IsVetted :
    (entries : List Entry) (o : Order) (ts : List Attempt) (s : State)
    → s.posts ≡ []
    → All (IsVetted entries o ts) (deliver_with_retry entries o ts 0 s).1.posts
deliver_with_retry-IsVetted entries o ts s e =
    deliver-IsVetted entries o ts ts 0 s (λ t m. m) (subst (All (IsVetted entries o ts)) (sym e) tt)
