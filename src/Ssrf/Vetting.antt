-- ===== src/Ssrf/Vetting.antt =====
-- Where a request may go that `validateOutboundUrl` of backend/src/utils/ssrf.js has accepted.
use cross_border_payment_app.Ssrf.{
  is_dotted, has_blocked_suffix, validate_public_url, is_allowed_scheme, validate_outbound_url,
  is_https, parse_allowed_cidrs, create_pinned_agent, is_allowlisted, vet, is_private_ip,
  is_blocked, resolve_all_ips, Agent, Protocol, Host, dotted, text, Url, Dns, Entry, accepted,
}
use cross_border_payment_app.Base.{
  ◌≡◌, refl, sym, ◌∙◌, ◌↔◌, ◌⊎◌, inl, inr, true, false, ◌&&◌, some, List, [], ◌∷◌, arith,
  Bool-cases, Option-cases, any, All,
}

-- The addresses that a host name stands for.
abbrev pub addresses : Dns → Host → List Host
addresses dns (dotted a b c d) = dotted a b c d ∷ []
addresses dns (text cs) = resolve_all_ips dns (text cs)

-- An address that may be reached: one that `isPrivateIp` does not count as private, which some private
-- addresses of version 6 are among, or one in a network that is allowed.
abbrev pub MayReach : List Entry → Host → Type 0
MayReach entries ip =
    (is_private_ip ip ≡ false) ⊎ (is_allowlisted ip (parse_allowed_cidrs entries) ≡ true)

may_reach :
    (entries : List Entry) (ip : Host)
    → is_blocked (parse_allowed_cidrs entries) ip ≡ false
    → MayReach entries ip
may_reach entries ip h = elim (Bool-cases (is_private_ip ip)) [
  | inl p ↦ inr (ground arith)
  | inr p ↦ inl p
]

blocked :
    (entries : List Entry) (ip : Host)
    → MayReach entries ip
    → is_blocked (parse_allowed_cidrs entries) ip ≡ false
blocked entries ip (inl p) = ground arith
blocked entries ip (inr p) = ground arith

all-MayReach :
    (entries : List Entry) (ips : List Host)
    → any (is_blocked (parse_allowed_cidrs entries)) ips ≡ false
    → All (MayReach entries) ips
all-MayReach entries [] h = tt
all-MayReach entries (ip ∷ ips) h =
    (may_reach entries ip (ground arith), all-MayReach entries ips (ground arith))

none_blocked :
    (entries : List Entry) (ips : List Host)
    → All (MayReach entries) ips
    → any (is_blocked (parse_allowed_cidrs entries)) ips ≡ false
none_blocked entries [] qs = refl
none_blocked entries (ip ∷ ips) (q, qs) = rw (blocked entries ip q) (none_blocked entries ips qs)

vet_iff :
    (entries : List Entry) (url : Url) (ips : List Host) (ip : Host) (agent : Agent)
    → (vet (parse_allowed_cidrs entries) url ips ≡ accepted ip agent) ↔ (
        (rest : List Host) × (ips ≡ ip ∷ rest)
        × (agent ≡ create_pinned_agent url.hostname ip (is_https url.protocol))
        × All (MayReach entries) ips)
vet_iff entries url [] ip agent =
    (λ h. absurd (ground arith), λ (rest, e, ag, qs). absurd (ground arith))
vet_iff entries url (i ∷ ips) ip agent =
    elim (Bool-cases (any (is_blocked (parse_allowed_cidrs entries)) (i ∷ ips))) [
      | inl e ↦ (
        λ h. absurd (ground arith),
        λ (rest, eq, ag, qs). absurd (ground (arith, none_blocked entries (i ∷ ips) qs)),
      )
      | inr e ↦
          (λ h. (ips, cc, cc, all-MayReach entries (i ∷ ips) e), λ (rest, eq, ag, qs). ground arith)
    ]

as_vet :
    (entries : List Entry) (dns : Dns) (protocol : Protocol) (host : Host)
    → is_allowed_scheme protocol ≡ true
    → let url : Url = record { protocol = protocol; hostname = host } in
      validate_outbound_url entries dns (some url)
      ≡ vet (parse_allowed_cidrs entries) url (addresses dns host)
unfolding validate_outbound_url
as_vet entries dns protocol (dotted a b c d) h =
    elim (Bool-cases (is_blocked (parse_allowed_cidrs entries) (dotted a b c d))) [
      | inl e ↦ rw (h, e) refl
      | inr e ↦ rw (h, e) refl
    ]
as_vet entries dns protocol (text cs) h = rw h refl

-- A URL is accepted, pinned to an address, exactly when its scheme is http or https, that address is the
-- first that the host stands for, and each of them is in an allowed network or one that `isPrivateIp`
-- does not count as private; the agent connects to that address, and shows the name of the host when
-- the scheme is https.
pub validate_outbound_url_iff :
    (entries : List Entry) (dns : Dns) (url : Url) (ip : Host) (agent : Agent)
    → (validate_outbound_url entries dns (some url) ≡ accepted ip agent) ↔ (
        (is_allowed_scheme url.protocol ≡ true)
        × (rest : List Host) × (addresses dns url.hostname ≡ ip ∷ rest)
        × (agent ≡ create_pinned_agent url.hostname ip (is_https url.protocol))
        × All (MayReach entries) (addresses dns url.hostname))
unfolding validate_outbound_url
validate_outbound_url_iff entries dns url ip agent =
    elim (Bool-cases (is_allowed_scheme url.protocol)) [
      | inl e ↦
          let same = as_vet entries dns url.protocol url.hostname e in
          let (there, back) = vet_iff entries url (addresses dns url.hostname) ip agent in
          (
            λ h. let (rest, first, ag, qs) = there (sym same ∙ h) in (e, rest, first, ag, qs),
            λ (f, rest, first, ag, qs). same ∙ back (rest, first, ag, qs),
          )
      | inr e ↦ (λ h. absurd (ground arith), λ (f, rest, first, ag, qs). absurd (ground arith))
    ]

-- A URL that `validatePublicUrl` accepts is one for https, with a host that is no private address and
-- has none of the blocked suffixes, and the address that the host resolves to is not private.
pub validate_public_url_iff :
    (dns : Dns) (url : Url)
    → (validate_public_url dns (some url) ≡ true) ↔ (
        (is_https url.protocol ≡ true)
        × (has_blocked_suffix url.hostname ≡ false)
        × (is_dotted url.hostname && is_private_ip url.hostname ≡ false)
        × (ip : Host) × (dns.lookup url.hostname ≡ some ip)
        × (is_private_ip ip ≡ false))
unfolding validate_public_url
validate_public_url_iff dns url = elim (Option-cases (dns.lookup url.hostname)) [
  | inl e ↦ (λ h. absurd (ground arith), λ (a, b, c, ip, f, g). absurd (ground arith))
  | inr (ip, e) ↦ (
    λ h. (ground arith, ground arith, ground arith, ip, e, ground arith),
    λ (a, b, c, i, f, g). ground arith,
  )
]
