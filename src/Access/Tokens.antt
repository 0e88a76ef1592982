-- ===== src/Access/Tokens.antt =====
-- The tokens of backend/src/middleware/csrf.js and the families of refresh tokens they are bound to.
use mathlib.Core.Path.{subst}
use cross_border_payment_app.Access.{
  has_hash, passes, CsrfRequest, RefreshRow, CsrfToken, sign_csrf_token, verify_csrf,
  verify_csrf_token,
}
use cross_border_payment_app.Base.{
  ℕ, ◌≡◌, refl, sym, ◌≢◌, ◌↔◌, inl, inr, true, Option, some, List, arith, ◌==◌, Option-cases,
  find_where,
}

-- A token is valid for a family exactly when it was signed for that family: `hmac` gives no empty digest, and
-- not the same one for two families, and the nonce is not empty.
pub verify_csrf_token-sign_csrf_token :
    (hmac : ℕ → ℕ → ℕ) (family other_family nonce : ℕ)
    → ((f n : ℕ) → hmac f n ≢ 0)
    → ((f g n : ℕ) → hmac f n ≡ hmac g n → f ≡ g)
    → nonce ≢ 0
    → (verify_csrf_token hmac (some (sign_csrf_token hmac family nonce)) other_family ≡ true)
      ↔ (family ≡ other_family)
unfolding verify_csrf_token sign_csrf_token
verify_csrf_token-sign_csrf_token hmac family other_family nonce full free text =
    let not_empty = full family nonce in
    (λ h. free family other_family nonce (ground arith), λ e. ground arith)

-- A request with a token for a family passes exactly when the header repeats the cookie, and the cookie of
-- the refresh token stands in the table with that same family.
pub verify_csrf_iff :
    (hmac : ℕ → ℕ → ℕ) (parts : ℕ → Option CsrfToken) (hash : ℕ → ℕ) (rows : List RefreshRow)
    (cookie header refresh family nonce : ℕ)
    → ((f n : ℕ) → hmac f n ≢ 0)
    → ((f g n : ℕ) → hmac f n ≡ hmac g n → f ≡ g)
    → nonce ≢ 0
    → parts cookie ≡ some (sign_csrf_token hmac family nonce)
    → let r : CsrfRequest = record {
      cookie = some cookie;
      header = some header;
      refresh = some refresh;
    } in
      (verify_csrf hmac parts hash rows r ≡ passes tt) ↔ (
        (cookie ≡ header)
        × (row : RefreshRow) × (find_where (has_hash (hash refresh)) rows ≡ some row)
        × (row.1 ≡ family))
unfolding verify_csrf
verify_csrf_iff hmac parts hash rows cookie header refresh family nonce full free text e =
    elim (Option-cases (find_where (has_hash (hash refresh)) rows)) [
      | inl f ↦ (λ h. absurd (ground arith), λ (s, row, g, k). absurd (ground arith))
      | inr ((h', fam), f) ↦
          let bound = verify_csrf_token-sign_csrf_token hmac family fam nonce full free text in
          (
            λ h.
                let ok_token : verify_csrf_token hmac (parts cookie) fam ≡ true = ground arith in
                let mine : verify_csrf_token hmac (some (sign_csrf_token hmac family nonce)) fam
                    ≡ true =
                  subst (λ z. verify_csrf_token hmac z fam ≡ true) e ok_token in
                (ground arith, (h', fam), f, sym (bound.0 mine)),
            λ (s, row, g, k).
                let fam_same : family ≡ fam = ground arith in
                let mine : verify_csrf_token hmac (parts cookie) fam ≡ true =
                  subst (λ z. verify_csrf_token hmac z fam ≡ true) (sym e) (bound.1 fam_same) in
                let same : (cookie == header) ≡ true = ground arith in
                rw (verify_csrf, same, f, mine) refl,
          )
    ]
