-- ===== src/Discovery/Registry/Outcomes.antt =====
-- The cases of `apply_probe_outcome` and of `demote_goodbye` in discovery.rs, each with its conditions.
use ink_hole.Base.{
  leb, nat_eq_instance, length, int_eq_instance, option_eq_instance, text_eq_instance, ℕ, ◌<◌, ◌≡◌,
  refl, Bool, true, false, not, Option, none, some, List, [], arith, if_elim, lookup, insert,
  remove,
}
use ink_hole.Errors.{CoreError, Result, ok, err}
use ink_hole.Discovery.Addresses.{IpAddr, AddressTexts}
use ink_hole.Discovery.Announcements.{UdpAnnouncement}
use ink_hole.Discovery.Candidates.{Candidate}
use ink_hole.Discovery.Registry.{
  Records, PeerRecord, VerifiedPeer, ProbeOutcome, max_discovered_peers, peer_eq, refreshed_peer,
  refreshed, new_record, apply_verified, is_other_identity, all_hosts_failed, with_failure,
  is_of_record, apply_failure, is_cancelled, apply_result, apply_probe_outcome, record_candidates,
  demote_record, is_stranger, demote_goodbye,
}

module _ (texts : AddressTexts) (records : Records) where
  pub data Change (candidate : Candidate) (max_failures now : ℕ)
      : Result VerifiedPeer → Records × Bool → Type 0 where
    unchanged :
        {result : Result VerifiedPeer} → Change candidate max_failures now result (records, false)
    joined :
        (verified : VerifiedPeer)
        → lookup records verified.instance_id ≡ none
        → length records < max_discovered_peers
        → Change candidate max_failures now
            (ok verified)
            (insert records verified.instance_id (new_record texts candidate verified now), true)
    renewed :
        (verified : VerifiedPeer) (r : PeerRecord)
        → lookup records verified.instance_id ≡ some r
        → is_other_identity r.peer verified ≡ false
        → Change candidate max_failures now (ok verified) (
          insert records verified.instance_id (refreshed texts r verified now),
          not (peer_eq (refreshed_peer texts r.peer verified) r.peer),
        )
    failed :
        (error : CoreError) (r : PeerRecord)
        → is_cancelled error ≡ false
        → lookup records candidate.key.instance_id ≡ some r
        → is_of_record texts candidate.key r ≡ true
        → all_hosts_failed texts (with_failure r candidate.key.address) max_failures ≡ false
        → Change candidate max_failures now
            (err error)
            (insert records candidate.key.instance_id (with_failure r candidate.key.address), false)
    evicted :
        (error : CoreError) (r : PeerRecord)
        → is_cancelled error ≡ false
        → lookup records candidate.key.instance_id ≡ some r
        → is_of_record texts candidate.key r ≡ true
        → all_hosts_failed texts (with_failure r candidate.key.address) max_failures ≡ true
        → Change candidate max_failures now
            (err error)
            (remove records candidate.key.instance_id, true)

  module _ (candidate : Candidate) (max_failures now : ℕ) where
    verified-Change :
        (verified : VerifiedPeer) (found : Option PeerRecord)
        → lookup records verified.instance_id ≡ found
        → Change candidate max_failures now
            (ok verified)
            (apply_verified texts records candidate verified now found)
    unfolding apply_verified
    verified-Change verified none h =
        if_elim (Change candidate max_failures now (ok verified))
          (leb max_discovered_peers (length records)) (λ _. unchanged)
          (λ room. joined verified h (ground arith))
    verified-Change verified (some r) h =
        if_elim (Change candidate max_failures now (ok verified))
          (is_other_identity r.peer verified) (λ _. unchanged) (λ same. renewed verified r h same)

    failure-Change :
        (error : CoreError) (found : Option PeerRecord)
        → is_cancelled error ≡ false
        → lookup records candidate.key.instance_id ≡ found
        → Change candidate max_failures now
            (err error)
            (apply_failure texts records candidate.key max_failures found)
    unfolding apply_failure
    failure-Change error none c h = unchanged
    failure-Change error (some r) c h =
        if_elim (Change candidate max_failures now (err error)) (is_of_record texts candidate.key r)
          (λ own.
            if_elim (Change candidate max_failures now (err error))
              (all_hosts_failed texts (with_failure r candidate.key.address) max_failures)
              (λ all. evicted error r c h own all) (λ some_left. failed error r c h own some_left))
          (λ _. unchanged)

    result-Change :
        (result : Result VerifiedPeer)
        → Change candidate max_failures now result
            (apply_result texts records candidate max_failures now result)
    unfolding apply_result
    result-Change (ok verified) =
        verified-Change verified (lookup records verified.instance_id) refl
    result-Change (err error) =
        if_elim (Change candidate max_failures now (err error)) (is_cancelled error)
          (λ _. unchanged)
          (λ c. failure-Change error (lookup records candidate.key.instance_id) c refl)

  pub apply_probe_outcome-Change :
      (outcome : ProbeOutcome) (max_failures now : ℕ)
      → Change outcome.candidate max_failures now outcome.result
          (apply_probe_outcome texts records outcome max_failures now)
  unfolding apply_probe_outcome
  apply_probe_outcome-Change outcome max_failures now =
      result-Change outcome.candidate max_failures now outcome.result

  pub data Farewell (goodbye : UdpAnnouncement) (sender_ip : IpAddr)
      : Records × List Candidate → Type 0 where
    ignored : Farewell goodbye sender_ip (records, [])
    demoted :
        (r : PeerRecord)
        → lookup records goodbye.instance_id ≡ some r
        → is_stranger texts r goodbye sender_ip ≡ false
        → Farewell goodbye sender_ip (
          insert records goodbye.instance_id (record r { farewelled = true }),
          record_candidates texts (record r { farewelled = true }),
        )

  demote_record-Farewell :
      (goodbye : UdpAnnouncement) (sender_ip : IpAddr) (found : Option PeerRecord)
      → lookup records goodbye.instance_id ≡ found
      → Farewell goodbye sender_ip (demote_record texts records goodbye sender_ip found)
  unfolding demote_record
  demote_record-Farewell goodbye sender_ip none h = ignored
  demote_record-Farewell goodbye sender_ip (some r) h =
      if_elim (Farewell goodbye sender_ip) (is_stranger texts r goodbye sender_ip) (λ _. ignored)
        (λ known. demoted r h known)

  pub demote_goodbye-Farewell :
      (goodbye : UdpAnnouncement) (sender_ip : IpAddr)
      → Farewell goodbye sender_ip (demote_goodbye texts records goodbye sender_ip)
  unfolding demote_goodbye
  demote_goodbye-Farewell goodbye sender_ip =
      demote_record-Farewell goodbye sender_ip (lookup records goodbye.instance_id) refl
