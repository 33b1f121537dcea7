-- ===== src/Discovery/Registry/Joining.antt =====
-- How a peer comes into the table of discovery.rs.
use ink_hole.Base.{
  nat_eq_instance, int_eq_instance, option_eq_instance, Text, text_eq_iff, text_eq_instance, ℕ, ◌≡◌,
  refl, sym, ap, Bool, none, some, arith, lookup, insert, lookup-insert, lookup-remove,
}
use ink_hole.Errors.{Result, ok}
use ink_hole.Discovery.Addresses.{AddressTexts}
use ink_hole.Discovery.Candidates.{Candidate}
use ink_hole.Discovery.Registry.{
  Records, PeerRecord, VerifiedPeer, ProbeOutcome, new_record, apply_probe_outcome,
}
use ink_hole.Discovery.Registry.Outcomes.{
  Change, unchanged, joined, renewed, failed, evicted, apply_probe_outcome-Change,
}

-- That a probe ended with a verified peer of this instance id, which the record then has as its own.
pub record Vouches (result : Result VerifiedPeer) (id : Text) (s : PeerRecord) : Type 0 where
  pub verified : VerifiedPeer
  pub accepted : result ≡ ok verified
  pub named : verified.instance_id ≡ id
  pub fingerprint_is : s.peer.fingerprint ≡ verified.certificate_fingerprint
  pub public_key_is : s.peer.public_key ≡ verified.public_key

module _ (texts : AddressTexts) where
  -- An entry under a key where another one was changed.
  not_new :
      (records : Records) (k id : Text) (q t s : PeerRecord)
      → lookup records k ≡ some q
      → lookup records id ≡ none
      → lookup (insert records k t) id ≡ some s
      → ⊥
  not_new records k id q t s old missing found =
      ground (arith, lookup-insert records k id t, text_eq_iff k id)

  Change-Vouches :
      (records : Records) (candidate : Candidate) (max_failures now : ℕ) (id : Text)
      (s : PeerRecord) {result : Result VerifiedPeer} {after : Records × Bool}
      → lookup records id ≡ none
      → lookup after.0 id ≡ some s
      → Change texts records candidate max_failures now result after
      → Vouches result id s
  unfolding new_record
  Change-Vouches records candidate max_failures now id s missing found unchanged =
      absurd (ground arith)
  Change-Vouches records candidate max_failures now id s missing found (joined verified _ room) =
      let t : PeerRecord = new_record texts candidate verified now in
      let there = lookup-insert records verified.instance_id id t in
      let same : t ≡ s = ground (arith, there) in
      record {
        verified = verified;
        accepted = refl;
        named = ground (arith, there, text_eq_iff verified.instance_id id);
        fingerprint_is = ap (λ (r : PeerRecord). r.peer.fingerprint) (sym same);
        public_key_is = ap (λ (r : PeerRecord). r.peer.public_key) (sym same);
      }
  Change-Vouches records candidate max_failures now id s missing found
        (renewed verified q old same) =
      absurd (not_new records verified.instance_id id q _ s old missing found)
  Change-Vouches records candidate max_failures now id s missing found
        (failed error q _ old own left) =
      absurd (not_new records candidate.key.instance_id id q _ s old missing found)
  Change-Vouches records candidate max_failures now id s missing found
        (evicted error q _ old own all_failed) =
      absurd (ground (arith, lookup-remove records candidate.key.instance_id id))

  -- A peer that was not in the table comes into it by the outcome of a probe only if the probe verified
  -- a peer of this instance id, and with the fingerprint and the public key that were verified.
  pub apply_probe_outcome-Vouches :
      (records : Records) (outcome : ProbeOutcome) (max_failures now : ℕ) (id : Text)
      (s : PeerRecord)
      → lookup records id ≡ none
      → lookup (apply_probe_outcome texts records outcome max_failures now).0 id ≡ some s
      → Vouches outcome.result id s
  apply_probe_outcome-Vouches records outcome max_failures now id s missing found =
      Change-Vouches records outcome.candidate max_failures now id s missing found
        (apply_probe_outcome-Change texts records outcome max_failures now)
