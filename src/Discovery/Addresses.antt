-- ===== src/Discovery/Addresses.antt =====
-- `IpAddr` and `SocketAddr` of the standard library. An address is the number of its bits. Flow and
-- scope of IPv6 are left out: discovery binds and announces on IPv4, and makes its addresses by
-- `SocketAddr::new`, which sets both to 0.
use ink_hole.Base.{
  ltb, nat_eq, Eq, nat_eq_instance, int_eq_instance, option_eq_instance, Text, text_eq_instance, ℕ,
  ◌/◌, ◌^◌, ◌≡◌, ◌↔◌, Bool, true, false, ◌&&◌, ◌||◌, Option, some, arith,
}

pub data IpAddr : Type 0 where
  v4 : (bits : ℕ) → IpAddr
  v6 : (bits : ℕ) → IpAddr

pub record SocketAddr : Type 0 where
  pub ip : IpAddr
  pub port : ℕ

abbrev pub ip_eq : IpAddr → IpAddr → Bool
ip_eq (v4 a) (v4 b) = nat_eq a b
ip_eq (v6 a) (v6 b) = nat_eq a b
ip_eq (v4 a) (v6 b) = false
ip_eq (v6 a) (v4 b) = false

pub ip_eq_iff : (a b : IpAddr) → (ip_eq a b ≡ true) ↔ (a ≡ b)
ip_eq_iff (v4 a) (v4 b) = ground arith
ip_eq_iff (v6 a) (v6 b) = ground arith
ip_eq_iff (v4 a) (v6 b) = (λ h. cc, λ h. cc)
ip_eq_iff (v6 a) (v4 b) = (λ h. cc, λ h. cc)

instance abbrev pub ip_eq_instance : Eq IpAddr
ip_eq_instance = record { beq = ip_eq; beq_iff = ip_eq_iff }

abbrev pub socket_eq : SocketAddr → SocketAddr → Bool
socket_eq a b = ip_eq a.ip b.ip && nat_eq a.port b.port

pub socket_eq_iff : (a b : SocketAddr) → (socket_eq a b ≡ true) ↔ (a ≡ b)
socket_eq_iff a b = ground (arith, ip_eq_iff a.ip b.ip)

instance abbrev pub socket_eq_instance : Eq SocketAddr
socket_eq_instance = record { beq = socket_eq; beq_iff = socket_eq_iff }

abbrev pub is_ipv4 : IpAddr → Bool
is_ipv4 (v4 bits) = true
is_ipv4 (v6 bits) = false

abbrev pub is_unspecified : IpAddr → Bool
is_unspecified (v4 bits) = nat_eq bits 0
is_unspecified (v6 bits) = nat_eq bits 0

-- 224.0.0.0/4.
abbrev pub is_multicast_v4 : ℕ → Bool
is_multicast_v4 bits = nat_eq (bits / 2 ^ 28) 0xe

-- 255.255.255.255.
abbrev pub broadcast : ℕ
broadcast = 0xffff_ffff

-- `<` on addresses: IPv4 first, then by the bits; a socket's by the port last.
abbrev pub ip_lt : IpAddr → IpAddr → Bool
ip_lt (v4 a) (v4 b) = ltb a b
ip_lt (v4 a) (v6 b) = true
ip_lt (v6 a) (v4 b) = false
ip_lt (v6 a) (v6 b) = ltb a b

abbrev pub socket_lt : SocketAddr → SocketAddr → Bool
socket_lt a b = ip_lt a.ip b.ip || (ip_eq a.ip b.ip && ltb a.port b.port)

-- `Display` and `FromStr` of addresses, which the standard library keeps inverse to each other.
pub record AddressTexts : Type 0 where
  pub to_string : IpAddr → Text
  pub parse : Text → Option IpAddr
  pub parse-to_string : (ip : IpAddr) → parse (to_string ip) ≡ some ip

module _ (texts : AddressTexts) where
  pub to_string-inj : (a b : IpAddr) → texts.to_string a ≡ texts.to_string b → a ≡ b
  to_string-inj a b h = cc (texts.parse-to_string a, texts.parse-to_string b)
