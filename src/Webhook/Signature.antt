-- ===== src/Webhook/Signature.antt =====
-- The header of backend/src/utils/webhookSignature.js. A text is a number here, 0 the empty one; the
-- digest of HMAC-SHA256 is a parameter, and a header is the list of its digests.
use cross_border_payment_app.Base.{ℕ, Bool, false, not, List, [], ◌∷◌, map, ◌==◌, select_where, any}

-- `secrets.filter(Boolean)`
abbrev pub is_text : ℕ → Bool
is_text n = not (n == 0)

-- `buildSignatureHeader`
unfoldable pub build_signature_header : (ℕ → ℕ → ℕ) → List ℕ → ℕ → List ℕ
build_signature_header sign secrets payload =
    map (λ secret. sign secret payload) (select_where is_text secrets)

-- `verifySignature`. The empty header is the empty text.
unfoldable pub verify_signature : (ℕ → ℕ → ℕ) → ℕ → List ℕ → List ℕ → Bool
verify_signature sign payload [] secrets = false
verify_signature sign payload (h ∷ hs) secrets =
    any (λ secret. any (λ sig. sig == sign secret payload) (h ∷ hs)) (select_where is_text secrets)
