-- ===== src/Discovery/Registry/Upkeep.antt =====
-- What holds of the table of peers in discovery.rs whatever is done to it.
use ink_hole.Base.{
  nat_eq_instance, beq_self, length, All, contains, int_eq_instance, option_eq_instance, keep,
  length-keep-le, Text, text_lt, text_eq, text_eq_instance, ℕ, ◌≤◌, ◌<◌, ◌≡◌, refl, Bool, true,
  Option, none, some, List, [], ◌∷◌, ◌++◌, arith, if_elim, any-append, distinct, All-keep, lookup,
  insert, other_than, keys, length-insert_old, length-insert_new, distinct-insert, distinct-keep,
  All-insert, All-lookup, contains-sort_by,
}
use ink_hole.Errors.{Result}
use ink_hole.Discovery.Addresses.{IpAddr, SocketAddr, socket_eq_instance, AddressTexts}
use ink_hole.Discovery.Announcements.{UdpAnnouncement}
use ink_hole.Discovery.Candidates.{Candidate}
use ink_hole.Discovery.Registry.{
  Records, PeerRecord, VerifiedPeer, ProbeOutcome, max_discovered_peers, counted, refreshed_peer,
  refreshed, new_record, with_failure, host_text, hosts_with, apply_probe_outcome, demote_goodbye,
}
use ink_hole.Discovery.Registry.Outcomes.{
  Change, unchanged, joined, renewed, failed, evicted, apply_probe_outcome-Change, Farewell,
  ignored, demoted, demote_goodbye-Farewell,
}

abbrev pub IsCounter : SocketAddr × ℕ → Type 0
IsCounter entry = entry.1 ≤ 255

-- A record under its key.
pub record IsFiled (entry : Text × PeerRecord) : Type 0 where
  pub named : entry.1.peer.instance_id ≡ entry.0
  pub host_listed : contains entry.1.peer.hosts entry.1.peer.host ≡ true
  pub counters : All IsCounter entry.1.failures

pub record IsWellKept (records : Records) : Type 0 where
  pub bound : length records ≤ max_discovered_peers
  pub unique : distinct (keys records) ≡ true
  pub filed : All IsFiled records

pub nil-IsWellKept : IsWellKept []
nil-IsWellKept = record { bound = omega arith; unique = refl; filed = tt }

counted-IsCounter : (t : List (SocketAddr × ℕ)) (a : SocketAddr) → counted (lookup t a) ≤ 255
counted-IsCounter t a = counted_le (lookup t a)
  where
    counted_le : (o : Option ℕ) → counted o ≤ 255
    counted_le none = omega arith
    counted_le (some n) = ground arith

insert_old :
    (records : Records) (id : Text) (r s : PeerRecord)
    → IsWellKept records
    → lookup records id ≡ some r
    → IsFiled (id, s)
    → IsWellKept (insert records id s)
insert_old records id r s k found f = record {
  bound = ground (arith, length-insert_old records id s r found, k.bound);
  unique = distinct-insert records id s k.unique;
  filed = All-insert IsFiled records id s k.filed f;
}

insert_new :
    (records : Records) (id : Text) (s : PeerRecord)
    → IsWellKept records
    → length records < max_discovered_peers
    → lookup records id ≡ none
    → IsFiled (id, s)
    → IsWellKept (insert records id s)
insert_new records id s k room missing f = record {
  bound = ground (arith, length-insert_new records id s missing);
  unique = distinct-insert records id s k.unique;
  filed = All-insert IsFiled records id s k.filed f;
}

-- Dropping records keeps the table well kept.
pub keep-IsWellKept :
    (p : Text × PeerRecord → Bool) (records : Records)
    → IsWellKept records
    → IsWellKept (keep p records)
keep-IsWellKept p records k = record {
  bound = omega (arith, length-keep-le p records, k.bound);
  unique = distinct-keep p records k.unique;
  filed = All-keep IsFiled p records k.filed;
}

module _ (texts : AddressTexts) where
  hosts_with-contains :
      (hosts : List Text) (host : Text) → contains (hosts_with hosts host) host ≡ true
  hosts_with-contains hosts host =
      if_elim (λ hs. contains hs host ≡ true) (contains hosts host) (λ h. h)
        (λ _. ground (
          arith,
          contains-sort_by text_lt (hosts ++ host ∷ []) host,
          any-append (λ x. text_eq x host) hosts (host ∷ []),
          beq_self host,
        ))

  refreshed-IsFiled :
      (id : Text) (r : PeerRecord) (verified : VerifiedPeer) (now : ℕ)
      → IsFiled (id, r)
      → IsFiled (id, refreshed texts r verified now)
  unfolding refreshed refreshed_peer
  refreshed-IsFiled id r verified now f = record {
    named = f.named;
    host_listed = hosts_with-contains r.peer.hosts (host_text texts verified.address);
    counters = All-keep IsCounter (other_than verified.address) r.failures f.counters;
  }

  new_record-IsFiled :
      (candidate : Candidate) (verified : VerifiedPeer) (now : ℕ)
      → IsFiled (verified.instance_id, new_record texts candidate verified now)
  unfolding new_record
  new_record-IsFiled candidate verified now = record {
    named = refl;
    host_listed = ground (arith, beq_self (host_text texts verified.address));
    counters = tt;
  }

  with_failure-IsFiled :
      (id : Text) (r : PeerRecord) (address : SocketAddr)
      → IsFiled (id, r)
      → IsFiled (id, with_failure r address)
  unfolding with_failure
  with_failure-IsFiled id r address f = record {
    named = f.named;
    host_listed = f.host_listed;
    counters =
        All-insert IsCounter r.failures address (counted (lookup r.failures address)) f.counters
          (counted-IsCounter r.failures address);
  }

  farewelled-IsFiled :
      (id : Text) (r : PeerRecord) → IsFiled (id, r) → IsFiled (id, record r { farewelled = true })
  farewelled-IsFiled id r f = record {
    named = f.named;
    host_listed = f.host_listed;
    counters = f.counters;
  }

  Change-IsWellKept :
      (records : Records) (candidate : Candidate) (max_failures now : ℕ)
      {result : Result VerifiedPeer} {after : Records × Bool}
      → IsWellKept records
      → Change texts records candidate max_failures now result after
      → IsWellKept after.0
  Change-IsWellKept records candidate max_failures now k unchanged = k
  Change-IsWellKept records candidate max_failures now k (joined verified missing room) =
      insert_new records verified.instance_id (new_record texts candidate verified now) k room
        missing (new_record-IsFiled candidate verified now)
  Change-IsWellKept records candidate max_failures now k (renewed verified r found same) =
      insert_old records verified.instance_id r (refreshed texts r verified now) k found (
        refreshed-IsFiled verified.instance_id r verified now
          (All-lookup IsFiled records verified.instance_id r k.filed found))
  Change-IsWellKept records candidate max_failures now k (failed error r _ found own left) =
      insert_old records candidate.key.instance_id r (with_failure r candidate.key.address) k found
        (with_failure-IsFiled candidate.key.instance_id r candidate.key.address
          (All-lookup IsFiled records candidate.key.instance_id r k.filed found))
  Change-IsWellKept records candidate max_failures now k (evicted error r _ found own all_failed) =
      keep-IsWellKept (other_than candidate.key.instance_id) records k

  pub apply_probe_outcome-IsWellKept :
      (records : Records) (outcome : ProbeOutcome) (max_failures now : ℕ)
      → IsWellKept records
      → IsWellKept (apply_probe_outcome texts records outcome max_failures now).0
  apply_probe_outcome-IsWellKept records outcome max_failures now k =
      Change-IsWellKept records outcome.candidate max_failures now k
        (apply_probe_outcome-Change texts records outcome max_failures now)

  Farewell-IsWellKept :
      (records : Records) (goodbye : UdpAnnouncement) (sender_ip : IpAddr)
      {after : Records × List Candidate}
      → IsWellKept records
      → Farewell texts records goodbye sender_ip after
      → IsWellKept after.0
  Farewell-IsWellKept records goodbye sender_ip k ignored = k
  Farewell-IsWellKept records goodbye sender_ip k (demoted r found known) =
      insert_old records goodbye.instance_id r (record r { farewelled = true }) k found
        (farewelled-IsFiled goodbye.instance_id r
          (All-lookup IsFiled records goodbye.instance_id r k.filed found))

  pub demote_goodbye-IsWellKept :
      (records : Records) (goodbye : UdpAnnouncement) (sender_ip : IpAddr)
      → IsWellKept records
      → IsWellKept (demote_goodbye texts records goodbye sender_ip).0
  demote_goodbye-IsWellKept records goodbye sender_ip k =
      Farewell-IsWellKept records goodbye sender_ip k
        (demote_goodbye-Farewell texts records goodbye sender_ip)
