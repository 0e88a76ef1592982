-- ===== src/Access/Admission.antt =====
-- Whom the middleware of backend/src/middleware lets through.
use mathlib.Core.Path.{subst}
use cross_border_payment_app.Access.{plain_role, missing, throws}
use cross_border_payment_app.Access.{
  bad, answers, owned_by, has_id, expired, is_revoked, admin, passes, auth_middleware, valid,
  Caller, is_admin_role, Payload, User, Loaded, is_admin_or_owner, is_admin, Outcome, Role,
  Verified,
}
use cross_border_payment_app.Base.{
  ℕ, ◌≡◌, refl, sym, ap, ◌∙◌, ◌↔◌, ◌⊎◌, inl, inr, true, false, Option, none, some, List, arith,
  Bool-cases, Option-cases, find_where,
}

-- What the database and the token must say for a caller to be let in.
abbrev pub IsAdmitted : (ℕ → Verified) → List ℕ → List User → Option ℕ → Caller → Type 0
IsAdmitted verify blacklist users header c =
    (token : ℕ) × (p : Payload) × (u : User) × (header ≡ some token)
    × (verify token ≡ valid p)
    × (is_revoked blacklist p.jti ≡ false)
    × (find_where (has_id p.user_id) users ≡ some u)
    × (u.is_suspended ≡ false)
    × (c ≡ record { user_id = p.user_id; role = u.role })

Verified-cases : (v : Verified) → ((p : Payload) × (v ≡ valid p)) ⊎ ((v ≡ expired) ⊎ (v ≡ bad))
Verified-cases (valid p) = inl (p, refl)
Verified-cases expired = inr (inl refl)
Verified-cases bad = inr (inr refl)

module _ (verify : ℕ → Verified) (blacklist : List ℕ) (users : List User) (c : Caller) where
  admitted :
      (header : Option ℕ)
      → auth_middleware verify blacklist users header ≡ passes c
      → IsAdmitted verify blacklist users header c
  unfolding auth_middleware
  admitted none h = absurd (ground arith)
  admitted (some token) h = elim (Verified-cases (verify token)) [
    | inr (inl e) ↦ absurd (ground arith)
    | inr (inr e) ↦ absurd (ground arith)
    | inl (p, e) ↦ elim (Bool-cases (is_revoked blacklist p.jti)) [
      | inl f ↦ absurd (ground arith)
      | inr f ↦ elim (Option-cases (find_where (has_id p.user_id) users)) [
        | inl g ↦ absurd (ground arith)
        | inr (u, g) ↦ elim (Bool-cases u.is_suspended) [
          | inl i ↦ absurd (ground arith)
          | inr i ↦ (token, p, u, refl, e, f, g, i, ground arith)
        ]
      ]
    ]
  ]

  admits :
      (header : Option ℕ)
      → IsAdmitted verify blacklist users header c
      → auth_middleware verify blacklist users header ≡ passes c
  unfolding auth_middleware
  admits none (token, p, u, e, v, f, g, i, same) = absurd (ground arith)
  admits (some t) (token, p, u, e, v, f, g, i, same) =
      let this : verify t ≡ valid p = ground arith in
      rw (auth_middleware, this, f, g, i) (ap passes (sym same))

-- A request is let in exactly with a token that is verified and not revoked, of a user that the database has
-- and that is not suspended; the role of the caller is the one in the database, whatever the token says.
pub auth_middleware_iff :
    (verify : ℕ → Verified) (blacklist : List ℕ) (users : List User) (header : Option ℕ)
    (c : Caller)
    → (auth_middleware verify blacklist users header ≡ passes c)
      ↔ IsAdmitted verify blacklist users header c
auth_middleware_iff verify blacklist users header c =
    (admitted verify blacklist users c header, admits verify blacklist users c header)

-- `authMiddleware` before `isAdmin`, as the routes of the administration have them
abbrev pub caller_of : Outcome Caller → Option Caller
caller_of (passes c) = some c
caller_of (answers n) = none

admin_role : (r : Role) → is_admin_role r ≡ true → r ≡ admin
admin_role admin h = refl
admin_role (plain_role n) h = cc

-- Behind `authMiddleware` and `isAdmin` stands only who is an administrator in the database, and who is not
-- suspended there.
pub is_admin-auth_middleware :
    (verify : ℕ → Verified) (blacklist : List ℕ) (users : List User) (header : Option ℕ)
    → is_admin (caller_of (auth_middleware verify blacklist users header)) ≡ passes tt
    → (c : Caller) × (u : User) × IsAdmitted verify blacklist users header c
      × (find_where (has_id c.user_id) users ≡ some u)
      × (u.role ≡ admin)
      × (u.is_suspended ≡ false)
unfolding is_admin
is_admin-auth_middleware verify blacklist users header h =
    elim (Outcome-cases (auth_middleware verify blacklist users header)) [
      | inr (n, e) ↦ absurd (ground arith)
      | inl (c, e) ↦
          let in_db = (auth_middleware_iff verify blacklist users header c).0 e in
          let (token, p, u, te, v, f, g, i, same) = in_db in
          let id_same : c.user_id ≡ p.user_id = ap (λ z. z.user_id) same in
          let role_same : c.role ≡ u.role = ap (λ z. z.role) same in
          let is_one : is_admin_role c.role ≡ true = ground arith in
          (
            c,
            u,
            in_db,
            subst (λ n. find_where (has_id n) users ≡ some u) (sym id_same) g,
            sym role_same ∙ admin_role c.role is_one,
            i,
          )
    ]
  where
    Outcome-cases :
        (o : Outcome Caller) → ((x : Caller) × (o ≡ passes x)) ⊎ ((n : ℕ) × (o ≡ answers n))
    Outcome-cases (passes x) = inl (x, refl)
    Outcome-cases (answers n) = inr (n, refl)

admin_passes :
    (resource : Loaded) (c : Caller)
    → is_admin_role c.role ≡ true
    → is_admin_or_owner (some resource) (some c) ≡ passes tt
unfolding is_admin_or_owner
admin_passes resource c e = rw (is_admin_or_owner, e) refl

owner_passes : (c : Caller) → is_admin_or_owner (some (owned_by c.user_id)) (some c) ≡ passes tt
unfolding is_admin_or_owner
owner_passes c = ground arith

who_passes :
    (resource : Loaded) (c : Caller)
    → is_admin_or_owner (some resource) (some c) ≡ passes tt
    → (is_admin_role c.role ≡ true) ⊎ (resource ≡ owned_by c.user_id)
unfolding is_admin_or_owner
who_passes resource c h = elim (Bool-cases (is_admin_role c.role)) [
  | inl e ↦ inl e
  | inr e ↦ inr (loaded resource e h)
]
  where
    loaded :
        (resource : Loaded)
        → is_admin_role c.role ≡ false
        → is_admin_or_owner (some resource) (some c) ≡ passes tt
        → resource ≡ owned_by c.user_id
    loaded (owned_by user) e k = ground arith
    loaded missing e k = absurd (ground arith)
    loaded throws e k = absurd (ground arith)

-- With a loader, `isAdminOrOwner` lets through exactly the administrators and the owner of the resource.
pub is_admin_or_owner_iff :
    (resource : Loaded) (c : Caller)
    → (is_admin_or_owner (some resource) (some c) ≡ passes tt)
      ↔ ((is_admin_role c.role ≡ true) ⊎ (resource ≡ owned_by c.user_id))
is_admin_or_owner_iff resource c = (who_passes resource c, back)
  where
    back :
        (is_admin_role c.role ≡ true) ⊎ (resource ≡ owned_by c.user_id)
        → is_admin_or_owner (some resource) (some c) ≡ passes tt
    back (inl e) = admin_passes resource c e
    back (inr e) =
        subst (λ r. is_admin_or_owner (some r) (some c) ≡ passes tt) (sym e) (owner_passes c)
