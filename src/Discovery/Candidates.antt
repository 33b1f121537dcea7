-- ===== src/Discovery/Candidates.antt =====
-- What may be probed: the candidates of discovery.rs, and how a resolved mDNS service gives them.
pub mod Usable
use ink_hole.Base.{
  ltb, if◌then◌else◌, Eq, ◌==◌, nat_eq_instance, int_eq_instance, option_eq_instance, keep, Text,
  codes, text_eq_iff, text_eq_instance, ℕ, ◌≡◌, ◌↔◌, Bool, true, not, ◌&&◌, ◌||◌, Option, none,
  some, List, [], ◌∷◌, map, arith, lookup, sort_by, to_ascii_lowercase,
}
use ink_hole.Protocol.Hex.{valid_blake3, valid_instance_id}
use ink_hole.Discovery.Addresses.{
  IpAddr, v4, SocketAddr, socket_eq_instance, socket_eq_iff, is_multicast_v4, broadcast,
}

pub record CandidateKey : Type 0 where
  pub instance_id : Text
  pub address : SocketAddr
  pub fingerprint : Text

abbrev pub key_eq : CandidateKey → CandidateKey → Bool
key_eq a b =
    a.instance_id == b.instance_id && a.address == b.address && a.fingerprint == b.fingerprint

pub key_eq_iff : (a b : CandidateKey) → (key_eq a b ≡ true) ↔ (a ≡ b)
key_eq_iff a b = ground (
  arith,
  text_eq_iff a.instance_id b.instance_id,
  socket_eq_iff a.address b.address,
  text_eq_iff a.fingerprint b.fingerprint,
)

instance abbrev pub key_eq_instance : Eq CandidateKey
key_eq_instance = record { beq = key_eq; beq_iff = key_eq_iff }

pub record Candidate : Type 0 where
  pub key : CandidateKey
  pub service_name : Text
  pub announce_reply_port : Option ℕ

-- What the crate mdns_sd tells of a service it has resolved.
pub record ResolvedService : Type 0 where
  pub ty_domain : Text
  pub fullname : Text
  pub port : ℕ
  pub properties : List (Text × Text)
  pub addresses_v4 : List ℕ

abbrev pub mdns_service_type : Text
mdns_service_type = codes "_inkhole._udp.local."

abbrev pub mdns_transport : Text
mdns_transport = codes "quic"

abbrev pub mdns_hash : Text
mdns_hash = codes "blake3"

-- `LAN_DISCOVERY_PROTOCOL_VERSION.to_string()`.
abbrev version_text : Text
version_text = codes "5"

-- `str::ends_with` for a text.
unfoldable pub ends_with_text : Text → Text → Bool
ends_with_text [] suffix = [] == suffix
ends_with_text (c ∷ s) suffix = c ∷ s == suffix || ends_with_text s suffix

unfoldable pub is_foreign_service : ResolvedService → Bool
unfolding ends_with_text
is_foreign_service service =
    not (to_ascii_lowercase service.ty_domain == to_ascii_lowercase mdns_service_type)
    || service.fullname == []
    || not (ends_with_text (to_ascii_lowercase service.fullname) mdns_service_type)
    || service.port == 0

-- The `?` on an `Option`.
infixl 5 ◌>>=◌
abbrev pub ◌>>=◌ {ℓ κ} : {A : Type ℓ} {B : Type κ} → Option A → (A → Option B) → Option B
none >>= next = none
some a >>= next = next a

abbrev pub is_usable_v4 : ℕ → Bool
is_usable_v4 address =
    not (address == 0) && not (is_multicast_v4 address) && not (address == broadcast)

abbrev pub mdns_candidate : ResolvedService → Text → Text → ℕ → Candidate
mdns_candidate service instance_id fingerprint address = record {
  key = record {
    instance_id = instance_id;
    address = record { ip = v4 address; port = service.port };
    fingerprint = fingerprint;
  };
  service_name = service.fullname;
  announce_reply_port = none;
}

unfoldable pub usable_candidates : ResolvedService → Text → Text → List Candidate
usable_candidates service instance_id fingerprint =
    map (mdns_candidate service instance_id fingerprint)
      (keep is_usable_v4 (sort_by ltb service.addresses_v4))

abbrev pub mdns_texts_refused : Text → Text → Text → Text → Text → Bool
mdns_texts_refused version instance_id fingerprint transport hash =
    not (version == version_text)
    || not (valid_instance_id instance_id)
    || not (valid_blake3 fingerprint)
    || not (transport == mdns_transport)
    || not (hash == mdns_hash)

-- What follows the first test.
unfoldable pub property_candidates : ResolvedService → Option (List Candidate)
property_candidates service = do
  let property = lookup service.properties
  version ← property (codes "version")
  instance_id ← property (codes "instance_id")
  fingerprint ← property (codes "fingerprint")
  transport ← property (codes "transport")
  hash ← property (codes "hash")
  if mdns_texts_refused version instance_id fingerprint transport hash
      then none
      else some (usable_candidates service instance_id fingerprint)

unfoldable pub mdns_candidates : ResolvedService → Option (List Candidate)
mdns_candidates service = if is_foreign_service service then none else property_candidates service
