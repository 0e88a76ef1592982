-- ===== src/Access.antt =====
-- Who a request comes from and what it may do: the middleware of backend/src/middleware/auth.js,
-- isAdmin.js, isAdminOrOwner.js, geoRestriction.js, ipAllowlist.js and csrf.js.
pub mod Admission
pub mod Tokens
mod Examples
use cross_border_payment_app.Base.{
  ℕ, ◌-◌, ◌/◌, ◌^◌, Bool, true, false, ◌&&◌, ◌||◌, not, Option, none, some, List, [], ◌∷◌, ltb,
  ◌==◌, if◌then◌else◌, find_where, any,
}

pub data Role : Type 0 where
  admin : Role
  plain_role : ℕ → Role

-- What middleware does with a request: it passes it on, with what it adds, or answers.
pub data Outcome {ℓ} (A : Type ℓ) : Type ℓ where
  passes : A → Outcome A
  answers : ℕ → Outcome A

-- What `jwt.verify` finds in a token.
pub record Payload : Type 0 where
  pub user_id : ℕ
  pub role : Option Role
  pub jti : Option ℕ

-- `jwt.verify` gives the payload or throws.
pub data Verified : Type 0 where
  valid : Payload → Verified
  expired bad : Verified

-- A row of users
pub record User : Type 0 where
  pub id : ℕ
  pub is_suspended : Bool
  pub role : Role

-- The caller, as `req.user` has it.
pub record Caller : Type 0 where
  pub user_id : ℕ
  pub role : Role

abbrev pub has_id : ℕ → User → Bool
has_id i u = u.id == i

-- A token without a jti is not looked up.
abbrev pub is_revoked : List ℕ → Option ℕ → Bool
is_revoked blacklist none = false
is_revoked blacklist (some j) = any (λ k. k == j) blacklist

-- `authMiddleware`: the token of the header, if any, the blacklist and the table of users
pub auth_middleware : (ℕ → Verified) → List ℕ → List User → Option ℕ → Outcome Caller
auth_middleware verify blacklist users none = answers 401
auth_middleware verify blacklist users (some token) = elim (verify token) [
  | expired ↦ answers 401
  | bad ↦ answers 401
  | valid p ↦
      if is_revoked blacklist p.jti
      then answers 401
      else elim (find_where (has_id p.user_id) users) [
        | none ↦ answers 401
        | some u ↦
            if u.is_suspended
            then answers 403
            else passes (record { user_id = p.user_id; role = u.role })
      ]
]

abbrev pub is_admin_role : Role → Bool
is_admin_role admin = true
is_admin_role (plain_role n) = false

-- `isAdmin`, without a caller where no `authMiddleware` stands before it
pub is_admin : Option Caller → Outcome (Unit {0})
is_admin none = answers 403
is_admin (some c) = if is_admin_role c.role then passes tt else answers 403

-- What the loader of a resource gives: its owner, nothing, or an error.
pub data Loaded : Type 0 where
  owned_by : ℕ → Loaded
  missing throws : Loaded

-- `isAdminOrOwner`; an error that is passed on is answered with 500.
pub is_admin_or_owner : Option Loaded → Option Caller → Outcome (Unit {0})
is_admin_or_owner loader none = answers 401
is_admin_or_owner loader (some c) = if is_admin_role c.role then passes tt else elim loader [
  | none ↦ passes tt
  | some resource ↦ elim resource [
    | missing ↦ answers 404
    | throws ↦ answers 500
    | owned_by user ↦ if user == c.user_id then passes tt else answers 403
  ]
]

-- What a request shows of its origin: `req.ip`, whether `trust proxy` is set, and the first addresses of
-- `req.ips` and of the header X-Forwarded-For.
pub record Origin : Type 0 where
  pub ip : Option ℕ
  pub trust_proxy : Bool
  pub ips : Option ℕ
  pub forwarded_for : Option ℕ

abbrev pub or_else : Option ℕ → Option ℕ → Option ℕ
or_else none y = y
or_else (some x) y = some x

-- The address that is looked up
pub client_ip : Origin → Option ℕ
client_ip o = elim o.ip [
  | some i ↦ some i
  | none ↦ if o.trust_proxy then or_else o.ips o.forwarded_for else none
]

-- `geoRestriction`, with the countries of `geoip.lookup`
pub geo_restriction : (ℕ → Option ℕ) → List ℕ → Origin → Outcome (Unit {0})
unfolding client_ip
geo_restriction country blocked o = elim (client_ip o) [
  | none ↦ answers 451
  | some ip ↦ elim (country ip) [
    | none ↦ passes tt
    | some c ↦ if any (λ b. b == c) blocked then answers 451 else passes tt
  ]
]

-- An entry of ADMIN_IP_ALLOWLIST: whether `isIP` knows its address and as of which family, and the number
-- after the '/'. `none` is a prefix that is no number or is negative.
pub record Entry : Type 0 where
  pub family : Option Bool
  pub net : ℕ
  pub prefix : Option (Option ℕ)

-- A subnet of the list: of the newer family or not
pub record Subnet : Type 0 where
  pub is_ipv6 : Bool
  pub net : ℕ
  pub prefix : ℕ

abbrev pub widest : Bool → ℕ
widest true = 128
widest false = 32

abbrev pub prefix_or : ℕ → Option (Option ℕ) → Option ℕ
prefix_or most none = some most
prefix_or most (some n) = n

-- One entry of `parseAllowlist`
pub parse_entry : Entry → Option Subnet
parse_entry e = elim e.family [
  | none ↦ none
  | some six ↦ elim (prefix_or (widest six) e.prefix) [
    | none ↦ none
    | some n ↦
        if ltb (widest six) n
        then none
        else some (record { is_ipv6 = six; net = e.net; prefix = n })
  ]
]

-- `parseAllowlist`
pub parse_allowlist : List Entry → List Subnet
unfolding parse_entry
parse_allowlist [] = []
parse_allowlist (e ∷ es) =
    let rest = parse_allowlist es in elim (parse_entry e) [ none ↦ rest | some s ↦ s ∷ rest ]

-- The address of a request, after `normaliseIp`: of the newer family or not
abbrev pub Address : Type 0
Address = Bool × ℕ

abbrev pub same_bool : Bool → Bool → Bool
same_bool true b = b
same_bool false b = not b

-- `list.check`: the first bits are those of the subnet.
pub in_subnet : Address → Subnet → Bool
in_subnet (six, ip) s =
    let block = 2 ^ (widest s.is_ipv6 - s.prefix) in
    same_bool six s.is_ipv6 && ip / block == s.net / block

-- `buildIpAllowlist` and its middleware; no list when the variable is unset or blank, no address when
-- `isIP` does not know it.
pub ip_allowlist : Bool → Option (List Entry) → Option Address → Outcome (Unit {0})
unfolding parse_allowlist in_subnet
ip_allowlist production none address = if production then answers 403 else passes tt
ip_allowlist production (some entries) none = answers 403
ip_allowlist production (some entries) (some a) =
    if any (in_subnet a) (parse_allowlist entries) then passes tt else answers 403

-- A csrf_token: "<nonce>.<mac>", with 0 for the empty text
abbrev pub CsrfToken : Type 0
CsrfToken = ℕ × ℕ

-- `signCsrfToken`, with HMAC-SHA256 as a parameter
pub sign_csrf_token : (ℕ → ℕ → ℕ) → ℕ → ℕ → CsrfToken
sign_csrf_token hmac family nonce = (nonce, hmac family nonce)

-- `verifyCsrfToken`; `none` for a text that has not two parts.
pub verify_csrf_token : (ℕ → ℕ → ℕ) → Option CsrfToken → ℕ → Bool
unfolding sign_csrf_token
verify_csrf_token hmac none family = false
verify_csrf_token hmac (some (nonce, mac)) family =
    if nonce == 0 || mac == 0 then false else mac == (sign_csrf_token hmac family nonce).1

-- A row of refresh_tokens: the hash of the token, and its family
abbrev pub RefreshRow : Type 0
RefreshRow = ℕ × ℕ

abbrev pub has_hash : ℕ → RefreshRow → Bool
has_hash h (hash, family) = hash == h

-- The texts of the cookie and of the header, and the cookie of the refresh token.
pub record CsrfRequest : Type 0 where
  pub cookie : Option ℕ
  pub header : Option ℕ
  pub refresh : Option ℕ

-- `verifyCsrf`; `parts` takes a text apart at its dot, and `hash` is SHA-256.
pub verify_csrf :
    (ℕ → ℕ → ℕ)
    → (ℕ → Option CsrfToken)
    → (ℕ → ℕ)
    → List RefreshRow
    → CsrfRequest
    → Outcome (Unit {0})
unfolding verify_csrf_token
verify_csrf hmac parts hash rows r = elim r.cookie [
  | none ↦ answers 403
  | some cookie ↦ elim r.header [
    | none ↦ answers 403
    | some header ↦ elim r.refresh [
      | none ↦ answers 403
      | some refresh ↦
          if not (cookie == header)
          then answers 403
          else elim (find_where (has_hash (hash refresh)) rows) [
            | none ↦ answers 403
            | some (h, family) ↦
                if verify_csrf_token hmac (parts cookie) family then passes tt else answers 403
          ]
    ]
  ]
]
