-- ===== src/Ssrf/Examples.antt =====
-- Addresses, and URLs that are accepted and refused.
use cross_border_payment_app.Ssrf.{
  Host, dotted, text, Url, Dns, Entry, https, refused, accepted, is_private_ip, ip_to_int,
  is_allowlisted, parse_allowed_cidrs, validate_public_url, validate_outbound_url,
  create_pinned_agent, resolve_all_ips, has_blocked_suffix, ssrf_blocked, is_allowed_scheme,
  is_https,
}
use cross_border_payment_app.Ssrf.Ranges.{is_reserved, is_private_ip-is_reserved}
use cross_border_payment_app.Ssrf.Vetting.{validate_outbound_url_iff, MayReach, addresses}
use cross_border_payment_app.Base.{
  ◌≡◌, refl, ◌↔◌, true, false, none, some, List, [], ◌∷◌, arith, All,
}

number : ip_to_int 192 168 1 2 ≡ 3232235778
unfolding ip_to_int
number = refl

inside : is_private_ip (dotted 172 31 255 1) ≡ true
unfolding is_private_ip
inside = refl

outside : is_private_ip (dotted 172 32 0 1) ≡ false
unfolding is_private_ip
outside = refl

-- fe90::1 is link-local too, but only the prefix fe80 is looked for.
abbrev fe90 : Host
fe90 = text (102 ∷ 101 ∷ 57 ∷ 48 ∷ 58 ∷ 58 ∷ 49 ∷ [])

link_local_missed : is_private_ip fe90 ≡ false
unfolding is_private_ip
link_local_missed = refl

-- ::ffff:7f00:1 is 127.0.0.1 in the form of the newer addresses.
abbrev mapped : Host
mapped = text (58 ∷ 58 ∷ 102 ∷ 102 ∷ 102 ∷ 102 ∷ 58 ∷ 55 ∷ 102 ∷ 48 ∷ 48 ∷ 58 ∷ 49 ∷ [])

mapped_missed : is_private_ip mapped ≡ false
unfolding is_private_ip
mapped_missed = refl

-- The name "a.b"
abbrev name : Host
name = text (97 ∷ 46 ∷ 98 ∷ [])

-- The name "localhost"
abbrev local_name : Host
local_name = text (108 ∷ 111 ∷ 99 ∷ 97 ∷ 108 ∷ 104 ∷ 111 ∷ 115 ∷ 116 ∷ [])

suffix : has_blocked_suffix local_name ≡ true
unfolding has_blocked_suffix
suffix = refl

abbrev answering : List Host → Dns
answering ips = record {
  lookup = λ h. some (dotted 8 8 8 8);
  resolve4 = λ h. some ips;
  resolve6 = λ h. none;
}

abbrev url_of : Host → Url
url_of h = record { protocol = https; hostname = h }

both : resolve_all_ips (answering (dotted 8 8 8 8 ∷ [])) name ≡ dotted 8 8 8 8 ∷ []
unfolding resolve_all_ips
both = refl

good : validate_public_url (answering []) (some (url_of name)) ≡ true
unfolding validate_public_url
good = refl

rebound :
    validate_outbound_url []
      (answering (dotted 8 8 8 8 ∷ dotted 10 0 0 1 ∷ []))
      (some (url_of name))
    ≡ refused ssrf_blocked
unfolding validate_outbound_url
rebound = refl

-- 10.0.0.0/8
abbrev ten_net : Entry
ten_net = record { octets = (10, (0, (0, 0))); prefix = 8 }

listed : is_allowlisted (dotted 10 1 2 3) (parse_allowed_cidrs (ten_net ∷ [])) ≡ true
unfolding is_allowlisted parse_allowed_cidrs
listed = refl

allowed :
    validate_outbound_url
      (ten_net ∷ [])
      (answering (dotted 8 8 8 8 ∷ dotted 10 0 0 1 ∷ []))
      (some (url_of name))
    ≡ accepted (dotted 8 8 8 8) (create_pinned_agent name (dotted 8 8 8 8) true)
unfolding validate_outbound_url
allowed = refl

is_private_ip-is_reserved_example : is_private_ip (dotted 172 16 0 1) ≡ is_reserved 172 16
is_private_ip-is_reserved_example =
    is_private_ip-is_reserved 172 16 0 1 (omega arith) (omega arith) (omega arith) (omega arith)

validate_outbound_url_iff_example :
    let dns = answering (dotted 8 8 8 8 ∷ []) in
    let agent = create_pinned_agent name (dotted 8 8 8 8) true in
    (validate_outbound_url [] dns (some (url_of name)) ≡ accepted (dotted 8 8 8 8) agent) ↔ (
      (is_allowed_scheme https ≡ true)
      × (rest : List Host) × (addresses dns name ≡ dotted 8 8 8 8 ∷ rest)
      × (agent ≡ create_pinned_agent name (dotted 8 8 8 8) (is_https https))
      × All (MayReach []) (addresses dns name))
validate_outbound_url_iff_example =
    validate_outbound_url_iff [] (answering (dotted 8 8 8 8 ∷ [])) (url_of name) (dotted 8 8 8 8)
      (create_pinned_agent name (dotted 8 8 8 8) true)
