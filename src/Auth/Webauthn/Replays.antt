-- ===== src/Auth/Webauthn/Replays.antt =====
-- What an accepted response of WebAuthn leaves, for backend/src/controllers/authController.js.
use mathlib.Core.Path.{subst}
use cross_border_payment_app.Auth.{with_email}
use cross_border_payment_app.Auth.Webauthn.{
  count_to, with_credential_id, webauthn_login_options, Passed, begin_verify, finish_verify,
  webauthn_verify, is_replay, is_credential, live, Verified, Credential, Store, Response, Verify,
}
use cross_border_payment_app.Auth.{User, Fresh, Crypto, Session}
use cross_border_payment_app.Base.{
  ◌==◌, ℕ, ◌<◌, ◌≡◌, refl, sym, ◌∙◌, ◌⊎◌, inl, inr, Bool, true, false, some, arith, ==_refl,
  Bool-cases, Option-cases, find_where, find_where-update_where, Result-cases, ok-injective, ok,
}

-- What a response that passes has shown.
passed :
    (verify : Verify) (now email : ℕ) (r : Response) (s : Store) (challenge : ℕ) (u : User)
    (k : Credential) (p : Passed)
    → live now (s.challenges email) ≡ some challenge
    → find_where (with_email email) s.state.users ≡ some u
    → find_where (is_credential u.id r.credential_id) s.credentials ≡ some k
    → begin_verify verify now email r s ≡ ok p
    → (v : Verified) × (verify r challenge k.counter ≡ some v)
      × (is_replay k.counter v ≡ false)
      × (p ≡ record { user = u; credential = k; new_counter = v.new_counter })
unfolding begin_verify
passed verify now email r s challenge u k p challenged known registered h =
    elim (Option-cases (verify r challenge k.counter)) [
      | inl e ↦ absurd (ground arith)
      | inr (v, e) ↦ elim (Bool-cases (is_replay k.counter v)) [
        | inl replayed ↦ absurd (ground (arith, replayed))
        | inr fresh ↦ (
          v,
          e,
          fresh,
          ok-injective (sym h ∙ rw (begin_verify, challenged, known, registered, e, fresh) refl),
        )
      ]
    ]

counter_grows :
    (n : ℕ) (w : Verified) → is_replay n w ≡ false → (w.new_counter ≡ 0) ⊎ (n < w.new_counter)
counter_grows n w h = elim (Bool-cases (w.new_counter == 0)) [
  | inl e ↦ inl (ground arith)
  | inr e ↦ inr (ground arith)
]

-- An answer of the whole handler
answered :
    (verify : Verify) (c : Crypto) (now email : ℕ) (f : Fresh) (deleted : Bool) (r : Response)
    (s : Store) (x : Session)
    → (webauthn_verify verify c now f email deleted r s).0 ≡ ok x
    → (p : Passed) × (begin_verify verify now email r s ≡ ok p)
      × ((webauthn_verify verify c now f email deleted r s).1
          ≡ (finish_verify c now f email deleted p s).1)
unfolding webauthn_verify
answered verify c now email f deleted r s x h =
    elim (Result-cases (begin_verify verify now email r s)) [
      | inl (p, e) ↦ (p, e, rw (webauthn_verify, e) refl)
      | inr (y, e) ↦ absurd (ground arith)
    ]

-- A response that is accepted, of the user `u` with the credential `k`
module _ (verify : Verify) (c : Crypto) (now email : ℕ) (f : Fresh) (deleted : Bool) (r : Response)
    (s : Store) (challenge : ℕ) (u : User) (k : Credential) (x : Session)
    (challenged : live now (s.challenges email) ≡ some challenge)
    (known : find_where (with_email email) s.state.users ≡ some u)
    (registered : find_where (is_credential u.id r.credential_id) s.credentials ≡ some k)
    (accepted : (webauthn_verify verify c now f email deleted r s).0 ≡ ok x) where
  -- The row of the credential has the counter of the response, whether the challenge is deleted or not.
  counted :
      (v : Verified) × (verify r challenge k.counter ≡ some v)
      × (find_where
            (is_credential u.id r.credential_id)
            (webauthn_verify verify c now f email deleted r s).1.credentials
          ≡ some (count_to v.new_counter k))
      × ((webauthn_verify verify c now f email deleted r s).1.state.users ≡ s.state.users)
  unfolding finish_verify
  counted =
      let (p, begun, same) = answered verify c now email f deleted r s x accepted in
      let (v, e, fresh, is) =
        passed verify now email r s challenge u k p challenged known registered begun in
      let hit : with_credential_id k.id k ≡ true = ==_refl k.id in
      let there =
        find_where-update_where (is_credential u.id r.credential_id) (with_credential_id k.id)
          (count_to v.new_counter) s.credentials k (λ y. refl) registered in
      rw (same, is)
        (
          v,
          e,
          elim (Bool-cases deleted) [
            | inl d ↦ rw (d, finish_verify) (there ∙ rw hit refl)
            | inr d ↦ rw (d, finish_verify) (there ∙ rw hit refl)
          ],
          elim (Bool-cases deleted) [
            | inl d ↦ rw (d, finish_verify) refl
            | inr d ↦ rw (d, finish_verify) refl
          ],
        )

  -- Of two responses of one credential, the second of which is handled once the first is accepted, and
  -- answers a challenge drawn in between, the second is accepted only if the library verifies it
  -- against the counter of the first, and its own is greater or 0, whether the cache had deleted the
  -- challenge of the first or not.
  pub webauthn_verify-replay :
      (later again : ℕ) (g : Fresh) (deleted_again : Bool) (q : Response) (y : Session)
      → q.credential_id ≡ r.credential_id
      → (webauthn_verify verify c later g email deleted_again q (
          webauthn_login_options later email again
            (webauthn_verify verify c now f email deleted r s).1)).0
        ≡ ok y
      → (v w : Verified) × (verify r challenge k.counter ≡ some v)
        × (verify q again v.new_counter ≡ some w)
        × (w.verified ≡ true)
        × ((w.new_counter ≡ 0) ⊎ (v.new_counter < w.new_counter))
  unfolding webauthn_login_options
  webauthn_verify-replay later again g deleted_again q y same accepted_again =
      let s' = (webauthn_verify verify c now f email deleted r s).1 in
      let (v, e, there, users) = counted in
      let t = webauthn_login_options later email again s' in
      let there' : find_where (is_credential u.id q.credential_id) t.credentials
          ≡ some (count_to v.new_counter k) =
        subst
          (λ i. find_where (is_credential u.id i) s'.credentials ≡ some (count_to v.new_counter k))
          (sym same) there in
      let challenged' : live later (t.challenges email) ≡ some again =
        rw (==_refl email) (ground arith) in
      let known' : find_where (with_email email) t.state.users ≡ some u = rw users known in
      let (p, begun, kept) = answered verify c later email g deleted_again q t y accepted_again in
      let (w, a, fresh, is) =
        passed verify later email q t again u (count_to v.new_counter k) p challenged' known' there'
          begun in
      let shown : w.verified ≡ true = ground (arith, fresh) in
      (v, w, e, a, shown, counter_grows v.new_counter w fresh)
