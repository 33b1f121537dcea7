-- ===== src/Discovery/Registry.antt =====
-- The table of verified peers in discovery.rs: what the outcome of a probe and a goodbye do to it, and
-- what is published of it. Instants are numbers of one unit.
pub mod Joining
pub mod Publishing
pub mod Eviction
pub mod Upkeep
pub mod Outcomes
use ink_hole.Base.{
  ltb, leb, if◌then◌else◌, ◌==◌, nat_eq_instance, length, all, contains, int_eq_instance,
  option_eq_instance, Text, text_lt, text_eq_instance, ℕ, ◌+◌, Bool, true, false, not, ◌&&◌, ◌||◌,
  Option, none, some, List, [], ◌∷◌, ◌++◌, map, lookup, insert, remove, sort_by, texts_eq,
}
use ink_hole.Errors.{CoreError, Result, ok, err, cancelled}
use ink_hole.Discovery.Addresses.{IpAddr, SocketAddr, socket_eq_instance, AddressTexts}
use ink_hole.Discovery.Announcements.{UdpAnnouncement}
use ink_hole.Discovery.Candidates.{CandidateKey, Candidate}

abbrev pub max_discovered_peers : ℕ
max_discovered_peers = 256

pub record DiscoveredPeer : Type 0 where
  pub instance_id : Text
  pub name : Text
  pub host : Text
  pub hosts : List Text
  pub port : ℕ
  pub capabilities : List Text
  pub fingerprint : Text
  pub public_key : Text
  pub service_name : Text

-- `VerifiedPeer` of transport.rs: a peer that answered a probe as it has to.
pub record VerifiedPeer : Type 0 where
  pub address : SocketAddr
  pub instance_id : Text
  pub name : Text
  pub capabilities : List Text
  pub public_key : Text
  pub certificate_fingerprint : Text

pub record ProbeOutcome : Type 0 where
  pub candidate : Candidate
  pub result : Result VerifiedPeer

pub record PeerRecord : Type 0 where
  pub peer : DiscoveredPeer
  pub last_verified : ℕ
  pub failures : List (SocketAddr × ℕ)
  pub farewelled : Bool

abbrev pub Records : Type 0
Records = List (Text × PeerRecord)

-- `PartialEq` of `DiscoveredPeer`.
abbrev pub peer_eq : DiscoveredPeer → DiscoveredPeer → Bool
peer_eq a b =
    a.instance_id == b.instance_id
    && a.name == b.name
    && a.host == b.host
    && texts_eq a.hosts b.hosts
    && a.port == b.port
    && texts_eq a.capabilities b.capabilities
    && a.fingerprint == b.fingerprint
    && a.public_key == b.public_key
    && a.service_name == b.service_name

-- A failure counter of type `u8`, counted on: `saturating_add(1)`.
abbrev pub counted : Option ℕ → ℕ
counted none = 1
counted (some n) = if ltb n 255 then n + 1 else 255

-- A failure counter, 0 where there is none.
abbrev pub count_of : Option ℕ → ℕ
count_of none = 0
count_of (some n) = n

abbrev pub is_cancelled : CoreError → Bool
is_cancelled cancelled = true
is_cancelled _ = false

abbrev pub hosts_with : List Text → Text → List Text
hosts_with hosts host = if contains hosts host then hosts else sort_by text_lt (hosts ++ host ∷ [])

abbrev pub is_other_identity : DiscoveredPeer → VerifiedPeer → Bool
is_other_identity peer verified =
    not (peer.fingerprint == verified.certificate_fingerprint)
    || not (peer.public_key == verified.public_key)

-- Whether a host's counter passes the test. A host that is no address does.
abbrev pub host_failed : (ℕ → Bool) → PeerRecord → Option IpAddr → Bool
host_failed test r none = true
host_failed test r (some ip) =
    test (count_of (lookup r.failures (record { ip = ip; port = r.peer.port })))

abbrev pub failure_test : PeerRecord → (max_failures : ℕ) → ℕ → Bool
failure_test r max_failures n = if r.farewelled then ltb 0 n else leb max_failures n

unfoldable pub with_failure : PeerRecord → SocketAddr → PeerRecord
with_failure r address = record r {
  failures = insert r.failures address (counted (lookup r.failures address));
}

abbrev candidate_at : DiscoveredPeer → IpAddr → Candidate
candidate_at peer ip = record {
  key = record {
    instance_id = peer.instance_id;
    address = record { ip = ip; port = peer.port };
    fingerprint = peer.fingerprint;
  };
  service_name = peer.service_name;
  announce_reply_port = none;
}

abbrev with_parsed : DiscoveredPeer → Option IpAddr → List Candidate → List Candidate
with_parsed peer none rest = rest
with_parsed peer (some ip) rest = candidate_at peer ip ∷ rest

abbrev hosts_or : List Text → Text → List Text
hosts_or [] host = host ∷ []
hosts_or (x ∷ xs) host = x ∷ xs

module _ (texts : AddressTexts) where
  abbrev pub host_text : SocketAddr → Text
  host_text address = texts.to_string address.ip

  unfoldable pub refreshed_peer : DiscoveredPeer → VerifiedPeer → DiscoveredPeer
  refreshed_peer peer verified = record peer {
    hosts = hosts_with peer.hosts (host_text verified.address);
    host = host_text verified.address;
    port = verified.address.port;
    name = verified.name;
    capabilities = verified.capabilities;
  }

  unfoldable pub refreshed : PeerRecord → VerifiedPeer → (now : ℕ) → PeerRecord
  refreshed r verified now = record {
    peer = refreshed_peer r.peer verified;
    last_verified = now;
    failures = remove r.failures verified.address;
    farewelled = false;
  }

  unfoldable pub new_record : Candidate → VerifiedPeer → (now : ℕ) → PeerRecord
  new_record candidate verified now = record {
    peer = record {
      instance_id = verified.instance_id;
      name = verified.name;
      host = host_text verified.address;
      hosts = host_text verified.address ∷ [];
      port = verified.address.port;
      capabilities = verified.capabilities;
      fingerprint = verified.certificate_fingerprint;
      public_key = verified.public_key;
      service_name = candidate.service_name;
    };
    last_verified = now;
    failures = [];
    farewelled = false;
  }

  -- A probe that succeeded, with the record of the same instance id if there is one.
  unfoldable pub apply_verified :
      Records → Candidate → VerifiedPeer → (now : ℕ) → Option PeerRecord → Records × Bool
  apply_verified records candidate verified now none =
      if leb max_discovered_peers (length records)
      then (records, false)
      else (insert records verified.instance_id (new_record candidate verified now), true)
  apply_verified records candidate verified now (some r) =
      if is_other_identity r.peer verified then (records, false) else (
        insert records verified.instance_id (refreshed r verified now),
        not (peer_eq (refreshed_peer r.peer verified) r.peer),
      )

  unfoldable pub all_hosts_failed : PeerRecord → (max_failures : ℕ) → Bool
  all_hosts_failed r max_failures =
      all (λ host. host_failed (failure_test r max_failures) r (texts.parse host)) r.peer.hosts

  -- That a failed candidate is an address of this record.
  abbrev pub is_of_record : CandidateKey → PeerRecord → Bool
  is_of_record key r =
      r.peer.fingerprint == key.fingerprint
      && r.peer.port == key.address.port
      && contains r.peer.hosts (host_text key.address)

  unfoldable pub apply_failure :
      Records → CandidateKey → (max_failures : ℕ) → Option PeerRecord → Records × Bool
  apply_failure records key max_failures none = (records, false)
  apply_failure records key max_failures (some r) =
      let s = with_failure r key.address in
      if is_of_record key r
      then if all_hosts_failed s max_failures
        then (remove records key.instance_id, true)
        else (insert records key.instance_id s, false)
      else (records, false)

  unfoldable pub apply_result :
      Records → Candidate → (max_failures now : ℕ) → Result VerifiedPeer → Records × Bool
  apply_result records candidate max_failures now (ok verified) =
      apply_verified records candidate verified now (lookup records verified.instance_id)
  apply_result records candidate max_failures now (err error) =
      if is_cancelled error
      then (records, false)
      else apply_failure records candidate.key max_failures
          (lookup records candidate.key.instance_id)

  -- The table after the outcome of a probe, and whether what is published changes.
  unfoldable pub apply_probe_outcome :
      Records → ProbeOutcome → (max_failures now : ℕ) → Records × Bool
  apply_probe_outcome records outcome max_failures now =
      apply_result records outcome.candidate max_failures now outcome.result

  unfoldable pub host_candidates : DiscoveredPeer → List Text → List Candidate
  host_candidates peer [] = []
  host_candidates peer (host ∷ hosts) =
      with_parsed peer (texts.parse host) (host_candidates peer hosts)

  unfoldable pub record_candidates : PeerRecord → List Candidate
  record_candidates r = host_candidates r.peer (hosts_or r.peer.hosts r.peer.host)

  abbrev pub is_stranger : PeerRecord → UdpAnnouncement → IpAddr → Bool
  is_stranger r goodbye sender_ip =
      not (r.peer.fingerprint == goodbye.fingerprint)
      || not (r.peer.port == goodbye.port)
      || not (contains r.peer.hosts (texts.to_string sender_ip))

  unfoldable pub demote_record :
      Records → UdpAnnouncement → IpAddr → Option PeerRecord → Records × List Candidate
  demote_record records goodbye sender_ip none = (records, [])
  demote_record records goodbye sender_ip (some r) =
      if is_stranger r goodbye sender_ip then (records, []) else (
        insert records goodbye.instance_id (record r { farewelled = true }),
        record_candidates (record r { farewelled = true }),
      )

  -- The table after a goodbye, and whom to probe at once.
  unfoldable pub demote_goodbye : Records → UdpAnnouncement → IpAddr → Records × List Candidate
  demote_goodbye records goodbye sender_ip =
      demote_record records goodbye sender_ip (lookup records goodbye.instance_id)

-- `to_lowercase` is that of `str`.
module _ (to_lowercase : Text → Text) where
  abbrev pub before_peer : DiscoveredPeer → DiscoveredPeer → Bool
  before_peer left right =
      text_lt (to_lowercase left.name) (to_lowercase right.name)
      || (to_lowercase left.name == to_lowercase right.name
          && text_lt left.instance_id right.instance_id)

  -- The list that `publish_snapshot` sends and hands to the callback.
  unfoldable pub snapshot_of : Records → List DiscoveredPeer
  snapshot_of records =
      sort_by before_peer (map (λ (entry : Text × PeerRecord). entry.1.peer) records)
