-- ===== src/Discovery/Registry/Publishing.antt =====
-- What discovery.rs publishes of the table of peers: the list depends on the content of the table
-- alone, and what is not published anew has not changed.
use ink_hole.Base.{
  nat_eq_instance, int_eq_instance, option_eq_instance, Text, text_lt, text_lt_irrefl,
  text_lt_trans, text_eq, text_eq_iff, text_eq_instance, ℕ, ◌≡◌, refl, ap, ◌↔◌, Bool, true, false,
  ◌||◌, List, map, arith, text_lt_total, lookup, sort_by, listed_unique, map-insert_same,
  texts_eq_iff,
}
use ink_hole.Errors.{Result}
use ink_hole.Discovery.Addresses.{IpAddr, AddressTexts}
use ink_hole.Discovery.Announcements.{UdpAnnouncement}
use ink_hole.Discovery.Candidates.{Candidate}
use ink_hole.Discovery.Registry.{
  Records, PeerRecord, DiscoveredPeer, VerifiedPeer, ProbeOutcome, peer_eq, refreshed_peer,
  refreshed, with_failure, apply_probe_outcome, demote_goodbye, before_peer, snapshot_of,
}
use ink_hole.Discovery.Registry.Outcomes.{
  Change, unchanged, joined, renewed, failed, evicted, apply_probe_outcome-Change, Farewell,
  ignored, demoted, demote_goodbye-Farewell,
}
use ink_hole.Discovery.Registry.Upkeep.{IsFiled, IsWellKept}

pub peer_eq_iff : (a b : DiscoveredPeer) → (peer_eq a b ≡ true) ↔ (a ≡ b)
peer_eq_iff a b = ground (
  arith,
  text_eq_iff a.instance_id b.instance_id,
  text_eq_iff a.name b.name,
  text_eq_iff a.host b.host,
  texts_eq_iff a.hosts b.hosts,
  texts_eq_iff a.capabilities b.capabilities,
  text_eq_iff a.fingerprint b.fingerprint,
  text_eq_iff a.public_key b.public_key,
  text_eq_iff a.service_name b.service_name,
)

abbrev peers : Records → List DiscoveredPeer
peers records = map (λ (entry : Text × PeerRecord). entry.1.peer) records

module _ (to_lowercase : Text → Text) where
  before_peer_trans :
      (a b c : DiscoveredPeer)
      → before_peer to_lowercase a b ≡ true
      → before_peer to_lowercase b c ≡ true
      → before_peer to_lowercase a c ≡ true
  before_peer_trans a b c h k = ground (
    arith,
    text_lt_trans (to_lowercase a.name) (to_lowercase b.name) (to_lowercase c.name),
    text_lt_trans a.instance_id b.instance_id c.instance_id,
    text_eq_iff (to_lowercase a.name) (to_lowercase b.name),
    text_eq_iff (to_lowercase b.name) (to_lowercase c.name),
    text_eq_iff (to_lowercase a.name) (to_lowercase c.name),
  )

  text_lt_asym : (s t : Text) → text_lt s t ≡ true → text_lt t s ≡ false
  text_lt_asym s t h = ground (arith, text_lt_trans s t s, text_lt_irrefl s)

  before_peer_asym :
      (a b : DiscoveredPeer)
      → before_peer to_lowercase a b ≡ true
      → before_peer to_lowercase b a ≡ false
  before_peer_asym a b h = ground (
    arith,
    text_lt_asym (to_lowercase a.name) (to_lowercase b.name),
    text_lt_asym a.instance_id b.instance_id,
    text_lt_irrefl (to_lowercase a.name),
    text_eq_iff (to_lowercase a.name) (to_lowercase b.name),
    text_eq_iff (to_lowercase b.name) (to_lowercase a.name),
  )

  told :
      (p q : Text × PeerRecord)
      → text_eq p.0 q.0 ≡ false
      → IsFiled p
      → IsFiled q
      → (before_peer to_lowercase p.1.peer q.1.peer || before_peer to_lowercase q.1.peer p.1.peer)
        ≡ true
  told p q apart f g = ground (
    arith,
    f.named,
    g.named,
    text_lt_total (to_lowercase p.1.peer.name) (to_lowercase q.1.peer.name),
    text_lt_total p.1.peer.instance_id q.1.peer.instance_id,
    text_eq_iff (to_lowercase p.1.peer.name) (to_lowercase q.1.peer.name),
    text_eq_iff (to_lowercase q.1.peer.name) (to_lowercase p.1.peer.name),
    text_eq_iff p.0 q.0,
  )

  -- Two well kept tables with the same records under the same keys are published as the same list, in
  -- whatever order the hash map goes through them.
  pub snapshot_of_unique :
      (records others : Records)
      → IsWellKept records
      → IsWellKept others
      → ((id : Text) → lookup records id ≡ lookup others id)
      → snapshot_of to_lowercase records ≡ snapshot_of to_lowercase others
  unfolding snapshot_of
  snapshot_of_unique records others k l same =
      listed_unique (before_peer to_lowercase) before_peer_trans before_peer_asym
        (λ (r : PeerRecord). r.peer) IsFiled told records others k.unique l.unique k.filed l.filed
        same

  module _ (texts : AddressTexts) where
    Change-snapshot :
        (records : Records) (candidate : Candidate) (max_failures now : ℕ)
        {result : Result VerifiedPeer} {after : Records × Bool}
        → Change texts records candidate max_failures now result after
        → after.1 ≡ false
        → peers after.0 ≡ peers records
    unfolding refreshed with_failure
    Change-snapshot records candidate max_failures now unchanged h = refl
    Change-snapshot records candidate max_failures now (joined verified missing room) h = cc
    Change-snapshot records candidate max_failures now (renewed verified r found same) h =
        map-insert_same (λ (r : PeerRecord). r.peer) records verified.instance_id r
          (refreshed texts r verified now) found
          ((peer_eq_iff (refreshed_peer texts r.peer verified) r.peer).0 (ground arith))
    Change-snapshot records candidate max_failures now (failed error r _ found own left) h =
        map-insert_same (λ (r : PeerRecord). r.peer) records candidate.key.instance_id r
          (with_failure r candidate.key.address) found refl
    Change-snapshot records candidate max_failures now (evicted error r _ found own all_failed) h =
        cc

    -- Where `apply_probe_outcome` reports no change, the list of peers that is published is the same as
    -- before.
    pub apply_probe_outcome-snapshot :
        (records : Records) (outcome : ProbeOutcome) (max_failures now : ℕ)
        → (apply_probe_outcome texts records outcome max_failures now).1 ≡ false
        → snapshot_of to_lowercase (apply_probe_outcome texts records outcome max_failures now).0
          ≡ snapshot_of to_lowercase records
    unfolding snapshot_of
    apply_probe_outcome-snapshot records outcome max_failures now h =
        ap (sort_by (before_peer to_lowercase)) (
          Change-snapshot records outcome.candidate max_failures now
            (apply_probe_outcome-Change texts records outcome max_failures now) h)

    Farewell-snapshot :
        (records : Records) (goodbye : UdpAnnouncement) (sender_ip : IpAddr)
        {after : Records × List Candidate}
        → Farewell texts records goodbye sender_ip after
        → peers after.0 ≡ peers records
    Farewell-snapshot records goodbye sender_ip ignored = refl
    Farewell-snapshot records goodbye sender_ip (demoted r found known) =
        map-insert_same (λ (r : PeerRecord). r.peer) records goodbye.instance_id r
          (record r { farewelled = true }) found refl

    -- A goodbye, which anyone can forge, changes nothing in the list of peers that is published.
    pub snapshot_of-demote_goodbye :
        (records : Records) (goodbye : UdpAnnouncement) (sender_ip : IpAddr)
        → snapshot_of to_lowercase (demote_goodbye texts records goodbye sender_ip).0
          ≡ snapshot_of to_lowercase records
    unfolding snapshot_of
    snapshot_of-demote_goodbye records goodbye sender_ip = ap (sort_by (before_peer to_lowercase)) (
        Farewell-snapshot records goodbye sender_ip
          (demote_goodbye-Farewell texts records goodbye sender_ip))
