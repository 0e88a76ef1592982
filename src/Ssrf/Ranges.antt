-- ===== src/Ssrf/Ranges.antt =====
-- The ranges of `isPrivateIp` of backend/src/utils/ssrfValidator.js, by the octets of an address.
use cross_border_payment_app.Ssrf.{dotted, is_private_ip, cidr, in_cidr, ip_to_int}
use cross_border_payment_app.Base.{
  ℕ, ◌+◌, ◌*◌, ◌<◌, ◌≡◌, refl, Bool, true, false, ◌&&◌, ◌||◌, [], ◌∷◌, arith, leb, ◌==◌, any,
}

abbrev pub between : ℕ → ℕ → ℕ → Bool
between low high n = leb low n && leb n high

-- The reserved ranges as their RFCs write them: by the first two octets.
abbrev pub is_reserved : ℕ → ℕ → Bool
is_reserved a b =
    a == 10
    || (a == 172 && between 16 31 b)
    || (a == 192 && b == 168)
    || a == 127
    || (a == 169 && b == 254)
    || (a == 100 && between 64 127 b)
    || a == 0
    || leb 224 a

-- An address as a number
abbrev packed : ℕ → ℕ → ℕ → ℕ → ℕ
packed a b c d = a * 16777216 + b * 65536 + c * 256 + d

value : (a b c d : ℕ) → a < 256 → b < 256 → c < 256 → d < 256 → ip_to_int a b c d ≡ packed a b c d
unfolding ip_to_int
value a b c d ha hb hc hd = omega arith

-- Each range, for an address with octets below 256.
module _ (a b c d : ℕ) (ha : a < 256) (hb : b < 256) (hc : c < 256) (hd : d < 256) where
  ten : in_cidr (packed a b c d) (cidr 0x0a000000 0xff000000) ≡ (a == 10)
  ten = ground arith

  sixteen : in_cidr (packed a b c d) (cidr 0xac100000 0xfff00000) ≡ (a == 172 && between 16 31 b)
  sixteen = ground arith

  private : in_cidr (packed a b c d) (cidr 0xc0a80000 0xffff0000) ≡ (a == 192 && b == 168)
  private = ground arith

  loopback : in_cidr (packed a b c d) (cidr 0x7f000000 0xff000000) ≡ (a == 127)
  loopback = ground arith

  link_local : in_cidr (packed a b c d) (cidr 0xa9fe0000 0xffff0000) ≡ (a == 169 && b == 254)
  link_local = ground arith

  shared : in_cidr (packed a b c d) (cidr 0x64400000 0xffc00000) ≡ (a == 100 && between 64 127 b)
  shared = ground arith

  this_net : in_cidr (packed a b c d) (cidr 0x00000000 0xff000000) ≡ (a == 0)
  this_net = ground arith

  multicast : in_cidr (packed a b c d) (cidr 0xe0000000 0xf0000000) ≡ (between 224 239 a)
  multicast = ground arith

  future : in_cidr (packed a b c d) (cidr 0xf0000000 0xf0000000) ≡ (leb 240 a)
  future = ground arith

-- The blocks above 224 are next to each other.
join :
    (p1 p2 p3 p4 p5 p6 p7 : Bool) (a : ℕ)
    → any (λ x. x) (p1 ∷ p2 ∷ p3 ∷ p4 ∷ p5 ∷ p6 ∷ p7 ∷ between 224 239 a ∷ leb 240 a ∷ [])
      ≡ (p1 || p2 || p3 || p4 || p5 || p6 || p7 || leb 224 a)
join true p2 p3 p4 p5 p6 p7 a = refl
join false true p3 p4 p5 p6 p7 a = refl
join false false true p4 p5 p6 p7 a = refl
join false false false true p5 p6 p7 a = refl
join false false false false true p6 p7 a = refl
join false false false false false true p7 a = refl
join false false false false false false true a = refl
join false false false false false false false a = ground arith

-- For an address whose four numbers are below 256, the test by masks is the test by the first two
-- octets: 10.x, 172.16-31.x, 192.168.x, 127.x, 169.254.x, 100.64-127.x, 0.x, and all from 224 on.
pub is_private_ip-is_reserved :
    (a b c d : ℕ)
    → a < 256
    → b < 256
    → c < 256
    → d < 256
    → is_private_ip (dotted a b c d) ≡ is_reserved a b
unfolding is_private_ip
is_private_ip-is_reserved a b c d ha hb hc hd =
    rw
      (
        value a b c d ha hb hc hd,
        ten a b c d ha hb hc hd,
        sixteen a b c d ha hb hc hd,
        private a b c d ha hb hc hd,
        loopback a b c d ha hb hc hd,
        link_local a b c d ha hb hc hd,
        shared a b c d ha hb hc hd,
        this_net a b c d ha hb hc hd,
        multicast a b c d ha hb hc hd,
        future a b c d ha hb hc hd,
      )
      (join (a == 10) (a == 172 && between 16 31 b) (a == 192 && b == 168) (a == 127)
        (a == 169 && b == 254) (a == 100 && between 64 127 b) (a == 0) a)
