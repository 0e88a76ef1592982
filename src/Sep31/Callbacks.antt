-- ===== src/Sep31/Callbacks.antt =====
-- How often `deliverCallback` of backend/src/services/sep31CallbackService.js calls a receiver.
use cross_border_payment_app.Sep31.{
  requested, retry_in, is_success, over, attempt_callback, max_attempts, validate_callback_url,
  Attempt, State, Url, deliver_callback, Transaction,
}
use cross_border_payment_app.Base.{
  ℕ, zero, suc, ◌+◌, ◌*◌, ◌^◌, ◌≤◌, ◌<◌, ◌≡◌, refl, ap, ◌⊎◌, inl, inr, true, false, ◌&&◌, not,
  Option, some, List, [], ◌∷◌, arith, ltb, if◌then◌else◌, Bool-cases, length,
}

-- The requests of a callback that has a url and a secret, by its attempts: one at each, until the url is
-- not public, an answer has a status of success, or the given number is reached.
abbrev pub sends : Option Url → ℕ → List Attempt → ℕ
sends url zero ts = 0
sends url (suc n) [] = 0
sends url (suc n) (t ∷ ts) =
    let more = sends url n ts in
    if not (validate_callback_url t.dns url)
    then 0
    else if is_success t.http_status
    then 1
    else 1 + more

module _ (x : Transaction) (t : Attempt) (ts : List Attempt) (attempt : ℕ) (s : State) where
  pub deliver-over :
      (attempt_callback x t attempt s).0 ≡ over
      → deliver_callback x (t ∷ ts) attempt s ≡ (true, (attempt_callback x t attempt s).1)
  unfolding deliver_callback
  deliver-over e = rw (deliver_callback, e) refl

  pub deliver-again :
      (delay : ℕ)
      → (attempt_callback x t attempt s).0 ≡ retry_in delay
      → deliver_callback x (t ∷ ts) attempt s
        ≡ deliver_callback x ts (attempt + 1) (attempt_callback x t attempt s).1
  unfolding deliver_callback
  deliver-again delay e = rw (deliver_callback, e) refl

  -- The three ways an attempt at a callback with a url and a secret comes out.
  attempt-refused :
      (url : Option Url) (secret : ℕ)
      → x.callback_url ≡ some url
      → x.shared_secret ≡ some secret
      → validate_callback_url t.dns url ≡ false
      → attempt_callback x t attempt s ≡ (over, s)
  unfolding attempt_callback
  attempt-refused url secret eu es e = rw (attempt_callback, eu, es, e) refl

  attempt-again :
      (url : Option Url) (secret : ℕ)
      → x.callback_url ≡ some url
      → x.shared_secret ≡ some secret
      → validate_callback_url t.dns url ≡ true
      → is_success t.http_status ≡ false
      → attempt < max_attempts
      → attempt_callback x t attempt s
        ≡ (retry_in (2 ^ attempt * 1000), requested x secret t attempt s)
  unfolding attempt_callback
  attempt-again url secret eu es e f lt =
      let few : ltb attempt max_attempts ≡ true = ground arith in
      rw (attempt_callback, eu, es, e, f, few) refl

  attempt-last :
      (url : Option Url) (secret : ℕ)
      → x.callback_url ≡ some url
      → x.shared_secret ≡ some secret
      → validate_callback_url t.dns url ≡ true
      → (is_success t.http_status ≡ true) ⊎ (max_attempts ≤ attempt)
      → attempt_callback x t attempt s ≡ (over, requested x secret t attempt s)
  unfolding attempt_callback
  attempt-last url secret eu es e (inl f) = rw (attempt_callback, eu, es, e, f) refl
  attempt-last url secret eu es e (inr le) =
      let many : (not (is_success t.http_status) && ltb attempt max_attempts) ≡ false =
        ground arith in
      rw (attempt_callback, eu, es, e, many) refl

no_attempts :
    (x : Transaction) (attempt : ℕ) (s : State)
    → length (deliver_callback x [] attempt s).1.posts ≡ length s.posts + 0
unfolding deliver_callback
no_attempts x attempt s = omega arith

length-deliver :
    (x : Transaction) (url : Option Url) (secret : ℕ) (ts : List Attempt) (attempt n : ℕ)
    (s : State)
    → x.callback_url ≡ some url
    → x.shared_secret ≡ some secret
    → attempt + n ≡ max_attempts + 1
    → 1 ≤ n
    → (length (deliver_callback x ts attempt s).1.posts ≡ length s.posts + sends url n ts)
      × (n ≤ length ts → (deliver_callback x ts attempt s).0 ≡ true)
length-deliver x url secret ts attempt zero s eu es sum le = absurd (omega arith)
length-deliver x url secret [] attempt (suc n) s eu es sum le =
    (no_attempts x attempt s, λ h. absurd (omega arith))
length-deliver x url secret (t ∷ ts) attempt (suc n) s eu es sum le =
    elim (Bool-cases (validate_callback_url t.dns url)) [
      | inr bad ↦
          let came = attempt-refused x t ts attempt s url secret eu es bad in
          let stop = deliver-over x t ts attempt s (ap (λ z. z.0) came) in
          rw (stop, came, bad) (omega arith, λ h. refl)
      | inl good ↦ elim (Bool-cases (is_success t.http_status)) [
        | inl f ↦
            let came = attempt-last x t ts attempt s url secret eu es good (inl f) in
            rw (deliver-over x t ts attempt s (ap (λ z. z.0) came), came, good, f)
              (omega arith, λ h. refl)
        | inr f ↦ elim (Bool-cases (ltb attempt max_attempts)) [
          | inl few ↦
              let came = attempt-again x t ts attempt s url secret eu es good f (ground arith) in
              let (counted, finished) =
                length-deliver x url secret ts (attempt + 1) n (requested x secret t attempt s) eu
                  es (omega arith) (ground arith) in
              rw
                (
                  deliver-again x t ts attempt s (2 ^ attempt * 1000) (ap (λ z. z.0) came),
                  came,
                  good,
                  f,
                )
                (rw counted (omega arith), λ h. finished (omega arith))
          | inr many ↦
              let last : max_attempts ≤ attempt = ground arith in
              let none_left : n ≡ 0 = ground arith in
              let came = attempt-last x t ts attempt s url secret eu es good (inr last) in
              rw (deliver-over x t ts attempt s (ap (λ z. z.0) came), came, good, f, none_left)
                (omega arith, λ h. refl)
        ]
      ]
    ]

-- A callback with a url and a secret is sent at each attempt, until an answer has a status of success, or
-- the url is found not to be public, or five requests have been sent, and then it is over: with five
-- attempts or more it always ends.
pub deliver_callback-sends :
    (x : Transaction) (url : Option Url) (secret : ℕ) (ts : List Attempt) (s : State)
    → x.callback_url ≡ some url
    → x.shared_secret ≡ some secret
    → (length (deliver_callback x ts 1 s).1.posts ≡ length s.posts + sends url max_attempts ts)
      × (max_attempts ≤ length ts → (deliver_callback x ts 1 s).0 ≡ true)
deliver_callback-sends x url secret ts s eu es =
    length-deliver x url secret ts 1 max_attempts s eu es refl (omega arith)
