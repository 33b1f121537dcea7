-- ===== src/Discovery/Announcements/RoundTrip.antt =====
-- What one device announces by discovery.rs is what the others decode.
use ink_hole.Base.{
  ltb, nat_eq, nat_eq_instance, beq_self, length, int_eq_instance, option_eq_instance, text_eq_iff,
  text_eq_instance, ℕ, ◌<◌, ◌≡◌, refl, subst, Bool, true, false, Option, none, some, List, [], ◌∷◌,
  arith,
}
use ink_hole.Errors.{ok, >>=-eq-ok, refuse-eq-ok, ok-inj}
use ink_hole.Protocol.Hex.{valid_blake3, valid_instance_id}
use ink_hole.Protocol.Probes.{lan_discovery_protocol_version}
use ink_hole.Discovery.Config.{UdpDiscoveryConfig, validate_config}
use ink_hole.Discovery.Config.Normal.{IsNormal, validate_config-IsNormal}
use ink_hole.Discovery.Announcements.{
  UdpAnnouncement, AnnouncementJson, udp_discovery_magic, max_udp_packet, announcement_of,
  is_foreign, checked_announcement, encode_announcement, decode_announcement,
}

own-not_foreign :
    (config : UdpDiscoveryConfig) (reply bye : Bool)
    → IsNormal config
    → is_foreign (announcement_of config reply bye) ≡ false
unfolding announcement_of
own-not_foreign config reply bye n =
    ground (arith, n.has_instance, n.has_port, n.has_fingerprint, beq_self udp_discovery_magic)

module _ (json : AnnouncementJson) where
  payload-nonempty :
      (a : UdpAnnouncement) (payload : List ℕ)
      → json.from_slice payload ≡ some a
      → nat_eq (length payload) 0 ≡ false
  payload-nonempty a [] h = absurd (ground (arith, json.from_slice-nil))
  payload-nonempty a (x ∷ payload) h = ground arith

  encode_announcement-cases :
      (config : UdpDiscoveryConfig) (reply bye : Bool) (payload : List ℕ)
      → encode_announcement json config reply bye ≡ ok payload
      → (json.to_vec (announcement_of config reply bye) ≡ ok payload)
        × (ltb max_udp_packet (length payload) ≡ false)
  unfolding encode_announcement
  encode_announcement-cases config reply bye payload h =
      let (encoded, made, h1) = >>=-eq-ok (json.to_vec (announcement_of config reply bye)) _ h in
      let (fits, e) = refuse-eq-ok (ltb max_udp_packet (length encoded)) _ _ h1 in
      let same = ok-inj e in
      (
        subst (λ p. json.to_vec (announcement_of config reply bye) ≡ ok p) same made,
        subst (λ p. ltb max_udp_packet (length p) ≡ false) same fits,
      )

  -- What a device announces with a config that passed the check, with a port of type `u16`, the devices
  -- that get the datagram decode as that very announcement, whether it is an answer or a goodbye.
  pub decode_announcement-encode_announcement :
      (given config : UdpDiscoveryConfig) (reply bye : Bool) (payload : List ℕ)
      → validate_config given ≡ ok config
      → config.quic_port < 65536
      → encode_announcement json config reply bye ≡ ok payload
      → decode_announcement json payload ≡ some (announcement_of config reply bye)
  unfolding decode_announcement checked_announcement announcement_of
  decode_announcement-encode_announcement given config reply bye payload checked port h =
      let a = announcement_of config reply bye in
      let (made, fits) = encode_announcement-cases config reply bye payload h in
      let decoded : json.from_slice payload ≡ some a =
        json.from_slice-to_vec a payload (omega arith) port made in
      rw
        (
          payload-nonempty a payload decoded,
          fits,
          decoded,
          checked_announcement,
          own-not_foreign config reply bye (validate_config-IsNormal given config checked),
        )
        refl

pub record IsGenuine (a : UdpAnnouncement) : Type 0 where
  pub magic_is : a.magic ≡ udp_discovery_magic
  pub version_is : a.version ≡ lan_discovery_protocol_version
  pub has_instance : valid_instance_id a.instance_id ≡ true
  pub has_port : nat_eq a.port 0 ≡ false
  pub has_fingerprint : valid_blake3 a.fingerprint ≡ true

foreign-IsGenuine : (a : UdpAnnouncement) → is_foreign a ≡ false → IsGenuine a
foreign-IsGenuine a h = record {
  magic_is = (text_eq_iff a.magic udp_discovery_magic).0 (ground arith);
  version_is = ground arith;
  has_instance = ground arith;
  has_port = ground arith;
  has_fingerprint = ground arith;
}

checked_announcement-IsGenuine :
    (o : Option UdpAnnouncement) (a : UdpAnnouncement)
    → checked_announcement o ≡ some a
    → IsGenuine a
unfolding checked_announcement
checked_announcement-IsGenuine none a h = cc
checked_announcement-IsGenuine (some b) a h = foreign-IsGenuine a (ground arith)

-- Whatever bytes a datagram has: what is decoded of it bears the magic and the version of this protocol,
-- a valid instance id and fingerprint, and a port that is not 0.
pub decode_announcement-IsGenuine :
    (json : AnnouncementJson) (payload : List ℕ) (a : UdpAnnouncement)
    → decode_announcement json payload ≡ some a
    → IsGenuine a
unfolding decode_announcement
decode_announcement-IsGenuine json payload a h =
    checked_announcement-IsGenuine (json.from_slice payload) a (ground arith)
