-- ===== src/Access/Examples.antt =====
-- Requests that are let in and turned away.
use cross_border_payment_app.Access.{
  has_id, has_hash, RefreshRow, User, is_admin_or_owner, CsrfRequest, sign_csrf_token,
  geo_restriction, verify_csrf, parse_entry, Caller, Entry, in_subnet, Origin, auth_middleware,
  CsrfToken, verify_csrf_token, Verified, Role, parse_allowlist, client_ip, is_admin, Payload,
  ip_allowlist, plain_role, expired, valid, admin, owned_by, passes, answers,
}
use cross_border_payment_app.Access.Admission.{IsAdmitted, caller_of, is_admin-auth_middleware}
use cross_border_payment_app.Access.Tokens.{verify_csrf_iff}
use cross_border_payment_app.Base.{
  ℕ, suc, ◌≡◌, refl, ◌≢◌, ◌↔◌, true, false, Option, none, some, [], ◌∷◌, arith, ◌==◌, if◌then◌else◌,
  find_where,
}

-- The token says that user 1 is an administrator.
abbrev payload : Payload
payload = record { user_id = 1; role = some admin; jti = some 5 }

abbrev verify : ℕ → Verified
verify token = if token == 7 then valid payload else expired

abbrev user : Role → User
user r = record { id = 1; is_suspended = false; role = r }

role_of_database :
    auth_middleware verify [] (user (plain_role 2) ∷ []) (some 7)
    ≡ passes (record { user_id = 1; role = plain_role 2 })
unfolding auth_middleware
role_of_database = refl

revoked : auth_middleware verify (5 ∷ []) (user admin ∷ []) (some 7) ≡ answers 401
unfolding auth_middleware
revoked = refl

suspended :
    auth_middleware verify [] (record (user admin) { is_suspended = true } ∷ []) (some 7)
    ≡ answers 403
unfolding auth_middleware
suspended = refl

not_admin : is_admin (some (record { user_id = 1; role = plain_role 2 })) ≡ answers 403
unfolding is_admin
not_admin = refl

not_owner :
    is_admin_or_owner (some (owned_by 3)) (some (record { user_id = 1; role = plain_role 2 }))
    ≡ answers 403
unfolding is_admin_or_owner
not_owner = refl

abbrev origin : Origin
origin = record { ip = none; trust_proxy = false; ips = none; forwarded_for = some 44 }

-- Without a trusted proxy the header is not read.
header_unread : client_ip origin ≡ none
unfolding client_ip
header_unread = refl

fails_closed : geo_restriction (λ i. none) [] origin ≡ answers 451
unfolding geo_restriction client_ip
fails_closed = refl

sanctioned : geo_restriction (λ i. some 8) (8 ∷ []) (record origin { ip = some 3 }) ≡ answers 451
unfolding geo_restriction client_ip
sanctioned = refl

-- 10.0.0.0/8
abbrev ten : Entry
ten = record { family = some false; net = 167772160; prefix = some (some 8) }

too_wide : parse_entry (record ten { prefix = some (some 33) }) ≡ none
unfolding parse_entry
too_wide = refl

one_kept :
    parse_allowlist (record ten { family = none } ∷ ten ∷ [])
    ≡ record { is_ipv6 = false; net = 167772160; prefix = 8 } ∷ []
unfolding parse_allowlist
one_kept = refl

inside : ip_allowlist true (some (ten ∷ [])) (some (false, 167772161)) ≡ passes tt
unfolding ip_allowlist
inside = refl

within :
    in_subnet (false, 167772161) (record { is_ipv6 = true; net = 167772160; prefix = 8 }) ≡ false
unfolding in_subnet
within = refl

unset_in_production : ip_allowlist true none (some (false, 1)) ≡ answers 403
unfolding ip_allowlist
unset_in_production = refl

-- A digest for the examples
abbrev hmac : ℕ → ℕ → ℕ
hmac family nonce = suc family

full : (f n : ℕ) → hmac f n ≢ 0
full f n h = absurd (omega arith)

free : (f g n : ℕ) → hmac f n ≡ hmac g n → f ≡ g
free f g n h = omega arith

abbrev parts : ℕ → Option CsrfToken
parts n = if n == 50 then some (3, 5) else none

other_session :
    verify_csrf hmac parts
      (λ n. n)
      ((60, 9) ∷ [])
      (record { cookie = some 50; header = some 50; refresh = some 60 })
    ≡ answers 403
unfolding verify_csrf
other_session = refl

token_checked : verify_csrf_token hmac (some (3, 5)) 4 ≡ true
unfolding verify_csrf_token
token_checked = refl

made : sign_csrf_token hmac 4 3 ≡ (3, 5)
unfolding sign_csrf_token
made = refl

let_in : is_admin (caller_of (auth_middleware verify [] (user admin ∷ []) (some 7))) ≡ passes tt
unfolding is_admin auth_middleware
let_in = refl

is_admin-auth_middleware_example :
    (c : Caller) × (u : User) × IsAdmitted verify [] (user admin ∷ []) (some 7) c
    × (find_where (has_id c.user_id) (user admin ∷ []) ≡ some u)
    × (u.role ≡ admin)
    × (u.is_suspended ≡ false)
is_admin-auth_middleware_example =
    is_admin-auth_middleware verify [] (user admin ∷ []) (some 7) let_in

abbrev fifty : ℕ
fifty = 50

same_parts : parts 50 ≡ some (sign_csrf_token hmac 4 3)
unfolding sign_csrf_token
same_parts = refl

verify_csrf_iff_example :
    let r : CsrfRequest = record { cookie = some 50; header = some 50; refresh = some 60 } in
    (verify_csrf hmac parts (λ n. n) ((60, 4) ∷ []) r ≡ passes tt) ↔ (
      (fifty ≡ fifty)
      × (row : RefreshRow) × (find_where (has_hash 60) ((60, 4) ∷ []) ≡ some row)
      × (row.1 ≡ 4))
verify_csrf_iff_example =
    verify_csrf_iff hmac parts (λ n. n) ((60, 4) ∷ []) 50 50 60 4 3 full free (λ h. cc) same_parts
