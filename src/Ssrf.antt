-- ===== src/Ssrf.antt =====
-- The addresses that outgoing requests may reach: `isPrivateIp` and `validatePublicUrl` of
-- backend/src/utils/ssrfValidator.js, all of backend/src/utils/ssrf.js, and
-- backend/src/utils/pinnedAgent.js. `new URL` and the answers of the DNS are parameters.
pub mod Ranges
pub mod Vetting
mod Examples
use cross_border_payment_app.Base.{
  ℕ, ◌+◌, ◌-◌, ◌*◌, ◌%◌, ◌^◌, Bool, true, false, ◌&&◌, ◌||◌, not, Option, none, some, List, [], ◌∷◌,
  ◌++◌, reverse, ◌==◌, if◌then◌else◌, any, same_text,
}

-- An address or the name of a host: a text that matches /^\d{1,3}(\.\d{1,3}){3}$/ by its four
-- numbers, any other by the codes of its characters.
pub data Host : Type 0 where
  dotted : ℕ → ℕ → ℕ → ℕ → Host
  text : List ℕ → Host

abbrev pub two_32 : ℕ
two_32 = 4294967296

-- `(acc << 8) + octet`, up to multiples of 2^32, which `>>> 0` and `&` do not see
abbrev pub push_octet : ℕ → ℕ → ℕ
push_octet acc octet = (acc * 256) % two_32 + octet

pub ip_to_int : ℕ → ℕ → ℕ → ℕ → ℕ
ip_to_int a b c d = push_octet (push_octet (push_octet (push_octet 0 a) b) c) d % two_32

-- A network and a mask, which is a run of ones before a run of zeros.
pub record Cidr : Type 0 where
  pub net : ℕ
  pub mask : ℕ

-- `n & mask` of 32-bit numbers, for such a mask: it clears the bits below 2^32 - mask.
abbrev pub bit_and : ℕ → ℕ → ℕ
bit_and n mask = n - n % (two_32 - mask)

abbrev pub cidr : ℕ → ℕ → Cidr
cidr net mask = record { net = net; mask = mask }

abbrev pub blocked_cidrs : List Cidr
blocked_cidrs =
    cidr 0x0a000000 0xff000000
    ∷ cidr 0xac100000 0xfff00000
    ∷ cidr 0xc0a80000 0xffff0000
    ∷ cidr 0x7f000000 0xff000000
    ∷ cidr 0xa9fe0000 0xffff0000
    ∷ cidr 0x64400000 0xffc00000
    ∷ cidr 0x00000000 0xff000000
    ∷ cidr 0xe0000000 0xf0000000
    ∷ cidr 0xf0000000 0xf0000000
    ∷ []

abbrev pub in_cidr : ℕ → Cidr → Bool
in_cidr n r = bit_and n r.mask == bit_and r.net r.mask

-- `cs.startsWith(prefix)`
abbrev pub starts_with : List ℕ → List ℕ → Bool
starts_with cs [] = true
starts_with [] (p ∷ ps) = false
starts_with (c ∷ cs) (p ∷ ps) = c == p && starts_with cs ps

abbrev pub ends_with : List ℕ → List ℕ → Bool
ends_with cs suffix = starts_with (reverse cs) (reverse suffix)

-- '::1', 'fe80', 'fc' and 'fd'
abbrev pub loopback_6 : List ℕ
loopback_6 = 58 ∷ 58 ∷ 49 ∷ []

abbrev pub fe80 : List ℕ
fe80 = 102 ∷ 101 ∷ 56 ∷ 48 ∷ []

abbrev pub fc : List ℕ
fc = 102 ∷ 99 ∷ []

abbrev pub fd : List ℕ
fd = 102 ∷ 100 ∷ []

unfoldable pub is_private_ip : Host → Bool
unfolding ip_to_int
is_private_ip (dotted a b c d) = any (in_cidr (ip_to_int a b c d)) blocked_cidrs
is_private_ip (text cs) =
    same_text cs loopback_6 || starts_with cs fe80 || starts_with cs fc || starts_with cs fd

-- The schemes: 'https:', 'http:' and the rest.
pub data Protocol : Type 0 where
  https http : Protocol
  scheme : ℕ → Protocol

-- What `new URL` makes of a text, when it does not throw.
pub record Url : Type 0 where
  pub protocol : Protocol
  pub hostname : Host

-- The answers of the DNS at one moment; `none` when the call throws.
pub record Dns : Type 0 where
  pub lookup : Host → Option Host
  pub resolve4 : Host → Option (List Host)
  pub resolve6 : Host → Option (List Host)

abbrev pub is_https : Protocol → Bool
is_https https = true
is_https http = false
is_https (scheme n) = false

-- ALLOWED_SCHEMES
abbrev pub is_allowed_scheme : Protocol → Bool
is_allowed_scheme https = true
is_allowed_scheme http = true
is_allowed_scheme (scheme n) = false

-- '.local', '.internal' and 'localhost'
abbrev pub blocked_hostname_suffixes : List (List ℕ)
blocked_hostname_suffixes =
    (46 ∷ 108 ∷ 111 ∷ 99 ∷ 97 ∷ 108 ∷ [])
    ∷ (46 ∷ 105 ∷ 110 ∷ 116 ∷ 101 ∷ 114 ∷ 110 ∷ 97 ∷ 108 ∷ [])
    ∷ (108 ∷ 111 ∷ 99 ∷ 97 ∷ 108 ∷ 104 ∷ 111 ∷ 115 ∷ 116 ∷ [])
    ∷ []

-- The host names of a URL are in lower case already, so `toLowerCase` leaves them as they are.
pub has_blocked_suffix : Host → Bool
has_blocked_suffix (dotted a b c d) = false
has_blocked_suffix (text cs) = any (λ s. same_text cs s || ends_with cs s) blocked_hostname_suffixes

abbrev pub is_dotted : Host → Bool
is_dotted (dotted a b c d) = true
is_dotted (text cs) = false

-- `dns.lookup` succeeds, with an address that is not private.
abbrev pub resolves_to_public : Dns → Host → Bool
resolves_to_public dns host = elim (dns.lookup host) [
  | none ↦ false
  | some address ↦ not (is_private_ip address)
]

-- `validatePublicUrl` of utils/ssrf.js
unfoldable pub validate_public_url : Dns → Option Url → Bool
unfolding is_private_ip has_blocked_suffix
validate_public_url dns none = false
validate_public_url dns (some url) =
    if not (is_https url.protocol)
    then false
    else if has_blocked_suffix url.hostname
    then false
    else if is_dotted url.hostname && is_private_ip url.hostname
    then false
    else resolves_to_public dns url.hostname

-- One entry of WEBHOOK_ALLOWED_CIDRS: four numbers, and the number after the '/', 32 without one.
pub record Entry : Type 0 where
  pub octets : ℕ × (ℕ × (ℕ × ℕ))
  pub prefix : ℕ

-- `prefix === 0 ? 0 : (~0 << (32 - prefix)) >>> 0`, where a shift counts modulo 32
abbrev pub mask_of : ℕ → ℕ
mask_of prefix = if prefix == 0 then 0 else two_32 - 2 ^ ((32 + 31 * prefix) % 32)

pub parse_allowed_cidrs : List Entry → List Cidr
unfolding ip_to_int
parse_allowed_cidrs [] = []
parse_allowed_cidrs (e ∷ es) =
    let (a, (b, (c, d))) = e.octets in
    cidr (bit_and (ip_to_int a b c d) (mask_of e.prefix)) (mask_of e.prefix)
    ∷ parse_allowed_cidrs es

pub is_allowlisted : Host → List Cidr → Bool
unfolding ip_to_int
is_allowlisted (dotted a b c d) cidrs = any (λ r. bit_and (ip_to_int a b c d) r.mask == r.net) cidrs
is_allowlisted (text cs) cidrs = false

-- `createPinnedAgent`: what its `lookup` answers, and the name it shows in the TLS handshake.
pub record Agent : Type 0 where
  pub lookup_ip : Host
  pub servername : Option Host

unfoldable pub create_pinned_agent : Host → Host → Bool → Agent
create_pinned_agent hostname ip secure = record {
  lookup_ip = ip;
  servername = if secure then some hostname else none;
}

-- `try { results.push(...await call) } catch {}`
abbrev pub answers : Option (List Host) → List Host
answers none = []
answers (some ips) = ips

-- The addresses of both families, in that order; a lookup that throws gives none.
pub resolve_all_ips : Dns → Host → List Host
resolve_all_ips dns host = answers (dns.resolve4 host) ++ answers (dns.resolve6 host)

pub data Reason : Type 0 where
  invalid_format scheme_not_allowed ssrf_blocked unresolved : Reason

-- `{ valid: false, error }` or `{ valid: true, pinnedIp, agent }`
pub data Check : Type 0 where
  refused : Reason → Check
  accepted : Host → Agent → Check

abbrev pub is_blocked : List Cidr → Host → Bool
is_blocked cidrs ip = is_private_ip ip && not (is_allowlisted ip cidrs)

-- The addresses of a name that is not an address itself.
abbrev pub vet : List Cidr → Url → List Host → Check
vet cidrs url [] = refused unresolved
vet cidrs url (ip ∷ ips) =
    if any (is_blocked cidrs) (ip ∷ ips)
    then refused ssrf_blocked
    else accepted ip (create_pinned_agent url.hostname ip (is_https url.protocol))

unfoldable pub validate_outbound_url : List Entry → Dns → Option Url → Check
unfolding parse_allowed_cidrs resolve_all_ips create_pinned_agent is_private_ip is_allowlisted
validate_outbound_url entries dns none = refused invalid_format
validate_outbound_url entries dns (some url) =
    let cidrs = parse_allowed_cidrs entries in
    if not (is_allowed_scheme url.protocol)
    then refused scheme_not_allowed
    else if is_dotted url.hostname
    then if is_blocked cidrs url.hostname
      then refused ssrf_blocked
      else accepted url.hostname
          (create_pinned_agent url.hostname url.hostname (is_https url.protocol))
    else vet cidrs url (resolve_all_ips dns url.hostname)
