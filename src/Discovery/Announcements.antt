-- ===== src/Discovery/Announcements.antt =====
-- The datagrams of discovery.rs by which a device makes itself known and says goodbye.
pub mod RoundTrip
use ink_hole.Base.{
  ltb, if◌then◌else◌, ◌==◌, nat_eq_instance, length, int_eq_instance, option_eq_instance, Text,
  codes, text_eq_instance, ℕ, ◌<◌, ◌≡◌, Bool, not, ◌||◌, Option, none, some, List, [],
}
use ink_hole.Errors.{Result, ok, err, CoreError, protocol, plain, refuse_if, ◌>>=◌, ◌>>◌}
use ink_hole.Protocol.Hex.{valid_blake3, valid_instance_id}
use ink_hole.Protocol.Probes.{lan_discovery_protocol_version}
use ink_hole.Discovery.Config.{UdpDiscoveryConfig}

abbrev pub udp_discovery_magic : Text
udp_discovery_magic = codes "inkhole-lan-v1"

abbrev pub max_udp_packet : ℕ
max_udp_packet = 2048

pub record UdpAnnouncement : Type 0 where
  pub magic : Text
  pub version : ℕ
  pub instance_id : Text
  pub port : ℕ
  pub fingerprint : Text
  pub reply : Bool
  pub bye : Bool

-- What serde_json does with announcements whose numbers are of type `u16`.
pub record AnnouncementJson : Type 0 where
  pub to_vec : UdpAnnouncement → Result (List ℕ)
  pub from_slice : List ℕ → Option UdpAnnouncement
  pub from_slice-to_vec :
      (a : UdpAnnouncement) (payload : List ℕ)
      → a.version < 65536
      → a.port < 65536
      → to_vec a ≡ ok payload
      → from_slice payload ≡ some a
  pub from_slice-nil : from_slice [] ≡ none

unfoldable pub announcement_of : UdpDiscoveryConfig → Bool → Bool → UdpAnnouncement
announcement_of config reply bye = record {
  magic = udp_discovery_magic;
  version = lan_discovery_protocol_version;
  instance_id = config.instance_id;
  port = config.quic_port;
  fingerprint = config.certificate_fingerprint;
  reply = reply;
  bye = bye;
}

abbrev is_foreign : UdpAnnouncement → Bool
is_foreign decoded =
    not (decoded.magic == udp_discovery_magic)
    || not (decoded.version == lan_discovery_protocol_version)
    || not (valid_instance_id decoded.instance_id)
    || decoded.port == 0
    || not (valid_blake3 decoded.fingerprint)

-- The tests on what was decoded.
unfoldable pub checked_announcement : Option UdpAnnouncement → Option UdpAnnouncement
checked_announcement none = none
checked_announcement (some decoded) = if is_foreign decoded then none else some decoded

module _ (json : AnnouncementJson) where
  unfoldable pub encode_announcement : UdpDiscoveryConfig → Bool → Bool → Result (List ℕ)
  encode_announcement config reply bye = do
    payload ← json.to_vec (announcement_of config reply bye)
    refuse_if (ltb max_udp_packet (length payload))
        (protocol (plain "UDP discovery announcement is too large"))
    ok payload

  unfoldable pub decode_announcement : List ℕ → Option UdpAnnouncement
  decode_announcement payload =
      if length payload == 0 || ltb max_udp_packet (length payload)
      then none
      else checked_announcement (json.from_slice payload)
