-- ===== src/Tests/Peers.antt =====
-- Runs of the table of peers of discovery.rs, and of what it takes from a service.
use ink_hole.Base.{
  nat_eq_instance, All, int_eq_instance, option_eq_instance, Text, codes, utf8, bytes, len, text_eq,
  text_eq_iff, text_eq_instance, ℕ, ◌≡◌, refl, ap, ◌≢◌, false, none, some, [], ◌∷◌, arith, lookup,
  insert_by, sort_by,
}
use ink_hole.Errors.{err, protocol, plain}
use ink_hole.Protocol.Hex.{valid_blake3, valid_instance_id}
use ink_hole.Discovery.Addresses.{v4, v6, SocketAddr}
use ink_hole.Discovery.Candidates.{
  Candidate, ResolvedService, mdns_candidates, property_candidates, usable_candidates,
  is_foreign_service, ends_with_text,
}
use ink_hole.Discovery.Candidates.Usable.{IsUsable, mdns_candidates-IsUsable}
use ink_hole.Discovery.Registry.{
  Records, PeerRecord, ProbeOutcome, apply_probe_outcome, apply_result, apply_failure, with_failure,
  all_hosts_failed, snapshot_of,
}
use ink_hole.Discovery.Registry.Upkeep.{IsWellKept}
use ink_hole.Discovery.Registry.Eviction.{apply_probe_outcome-spared}
use ink_hole.Discovery.Registry.Publishing.{snapshot_of_unique}
use ink_hole.Tests.Instances.{address_text, texts}
use ink_hole.Tests.Discovery.{at_port, here_id, print, there_id}

abbrev candidate : Candidate
candidate = record {
  key = record { instance_id = there_id; address = at_port 9 4433; fingerprint = print };
  service_name = codes "udp-v4";
  announce_reply_port = none;
}

-- A peer with two addresses that has failed twice at one of them.
abbrev shaky : PeerRecord
shaky = record {
  peer = record {
    instance_id = there_id;
    name = codes "Bob";
    host = address_text (v4 9);
    hosts = address_text (v4 8) ∷ address_text (v4 9) ∷ [];
    port = 4433;
    capabilities = [];
    fingerprint = print;
    public_key = codes "key";
    service_name = codes "udp-v4";
  };
  last_verified = 2;
  failures = (at_port 9 4433, 2) ∷ [];
  farewelled = false;
}

abbrev failed_probe : ProbeOutcome
failed_probe = record {
  candidate = candidate;
  result = err (protocol (plain "peer probe timed out"));
}

abbrev bits_of : SocketAddr → ℕ
bits_of address = elim address.ip [ v4 bits ↦ bits | v6 bits ↦ 0 ]

other_address : at_port 9 4433 ≢ at_port 8 4433
other_address h = let same : ◌≡◌ {A = ℕ} 9 8 = ap bits_of h in absurd (omega arith)

apply_probe_outcome-spared_example :
    lookup (apply_probe_outcome texts ((there_id, shaky) ∷ []) failed_probe 3 5).0 there_id ≢ none
unfolding text_eq
apply_probe_outcome-spared_example =
    apply_probe_outcome-spared texts ((there_id, shaky) ∷ []) failed_probe 3 5 there_id shaky (v4 8)
      refl refl other_address refl

-- The same peer, with too many failures at the other address.
abbrev dying : PeerRecord
dying = record shaky { failures = (at_port 8 4433, 3) ∷ (at_port 9 4433, 2) ∷ [] }

dropped :
    lookup (apply_probe_outcome texts ((there_id, dying) ∷ []) failed_probe 3 5).0 there_id ≡ none
unfolding apply_probe_outcome apply_result apply_failure all_hosts_failed with_failure text_eq
dropped = refl

abbrev other_peer : PeerRecord
other_peer = record shaky {
  peer = record shaky.peer { instance_id = here_id; name = codes "Alice" };
}

abbrev table : Records
table = (there_id, shaky) ∷ (here_id, other_peer) ∷ []

abbrev turned : Records
turned = (here_id, other_peer) ∷ (there_id, shaky) ∷ []

table-IsWellKept : IsWellKept table
unfolding text_eq
table-IsWellKept = record {
  bound = omega arith;
  unique = refl;
  filed = (
    record { named = refl; host_listed = refl; counters = (omega arith, tt) },
    (record { named = refl; host_listed = refl; counters = (omega arith, tt) }, tt),
  );
}

turned-IsWellKept : IsWellKept turned
unfolding text_eq
turned-IsWellKept = record {
  bound = omega arith;
  unique = refl;
  filed = (
    record { named = refl; host_listed = refl; counters = (omega arith, tt) },
    (record { named = refl; host_listed = refl; counters = (omega arith, tt) }, tt),
  );
}

abbrev first_of : Text → ℕ
first_of [] = 0
first_of (c ∷ s) = c

ids_differ : here_id ≢ there_id
ids_differ h = let same : ◌≡◌ {A = ℕ} 97 98 = ap first_of h in absurd (omega arith)

same_content : (id : Text) → lookup table id ≡ lookup turned id
same_content id = ground (arith, text_eq_iff here_id id, text_eq_iff there_id id, ids_differ)

snapshot_of_unique_example : snapshot_of (λ s. s) table ≡ snapshot_of (λ s. s) turned
snapshot_of_unique_example =
    snapshot_of_unique (λ s. s) table turned table-IsWellKept turned-IsWellKept same_content

abbrev service : ResolvedService
service = record {
  ty_domain = codes "_INKHOLE._udp.local.";
  fullname = codes "bob._inkhole._udp.local.";
  port = 4433;
  properties =
      (codes "version", codes "5")
      ∷ (codes "instance_id", there_id)
      ∷ (codes "fingerprint", print)
      ∷ (codes "transport", codes "quic")
      ∷ (codes "hash", codes "blake3")
      ∷ [];
  addresses_v4 = 9 ∷ 0 ∷ 0xe000_0001 ∷ 8 ∷ [];
}

abbrev found : ℕ → Candidate
found bits = record {
  key = record { instance_id = there_id; address = at_port bits 4433; fingerprint = print };
  service_name = codes "bob._inkhole._udp.local.";
  announce_reply_port = none;
}

mdns_found : mdns_candidates service ≡ some (found 8 ∷ found 9 ∷ [])
unfolding mdns_candidates is_foreign_service ends_with_text property_candidates usable_candidates
    sort_by insert_by valid_instance_id valid_blake3 len bytes utf8 text_eq
mdns_found = refl

mdns_candidates-IsUsable_example : All (IsUsable service) (found 8 ∷ found 9 ∷ [])
mdns_candidates-IsUsable_example =
    mdns_candidates-IsUsable service (found 8 ∷ found 9 ∷ []) mdns_found
