-- ===== src/Discovery/Registry/Eviction.antt =====
-- How a peer enters the table of discovery.rs, keeps its identity there, and leaves it.
use ink_hole.Base.{
  nat_eq_instance, contains, int_eq_instance, option_eq_instance, Text, text_eq_iff,
  text_eq_instance, ℕ, ◌≡◌, refl, subst, ◌≢◌, Bool, true, false, none, some, arith, lookup, insert,
  remove, lookup-insert, lookup-remove, all-contains,
}
use ink_hole.Errors.{CoreError, Result, err}
use ink_hole.Discovery.Addresses.{
  IpAddr, SocketAddr, socket_eq_instance, socket_eq_iff, AddressTexts,
}
use ink_hole.Discovery.Candidates.{Candidate}
use ink_hole.Discovery.Registry.{
  Records, PeerRecord, VerifiedPeer, ProbeOutcome, count_of, counted, refreshed_peer, refreshed,
  new_record, is_cancelled, failure_test, all_hosts_failed, with_failure, is_of_record,
  apply_probe_outcome,
}
use ink_hole.Discovery.Registry.Outcomes.{
  Change, unchanged, joined, renewed, failed, evicted, apply_probe_outcome-Change,
}

-- The identity of a record.
abbrev pub Pins : PeerRecord → PeerRecord → Type 0
Pins r s = (s.peer.fingerprint ≡ r.peer.fingerprint) × (s.peer.public_key ≡ r.peer.public_key)

-- Of the record under a key after a change of the record under this or another key.
inserted-Pins :
    (records : Records) (k id : Text) (q r s t : PeerRecord)
    → lookup records k ≡ some q
    → Pins q t
    → lookup records id ≡ some r
    → lookup (insert records k t) id ≡ some s
    → Pins r s
inserted-Pins records k id q r s t old pins found after =
    ground (arith, lookup-insert records k id t, text_eq_iff k id)

removed-Pins :
    (records : Records) (k id : Text) (r s : PeerRecord)
    → lookup records id ≡ some r
    → lookup (remove records k) id ≡ some s
    → Pins r s
removed-Pins records k id r s found after = ground (arith, lookup-remove records k id)

module _ (texts : AddressTexts) where
  refreshed-Pins :
      (r : PeerRecord) (verified : VerifiedPeer) (now : ℕ) → Pins r (refreshed texts r verified now)
  unfolding refreshed refreshed_peer
  refreshed-Pins r verified now = (refl, refl)

  with_failure-Pins : (r : PeerRecord) (address : SocketAddr) → Pins r (with_failure r address)
  unfolding with_failure
  with_failure-Pins r address = (refl, refl)

  Change-Pins :
      (records : Records) (candidate : Candidate) (max_failures now : ℕ) (id : Text)
      (r s : PeerRecord) {result : Result VerifiedPeer} {after : Records × Bool}
      → lookup records id ≡ some r
      → lookup after.0 id ≡ some s
      → Change texts records candidate max_failures now result after
      → Pins r s
  Change-Pins records candidate max_failures now id r s found kept unchanged = ground arith
  Change-Pins records candidate max_failures now id r s found kept (joined verified missing room) =
      ground (
        arith,
        lookup-insert records verified.instance_id id (new_record texts candidate verified now),
        text_eq_iff verified.instance_id id,
      )
  Change-Pins records candidate max_failures now id r s found kept (renewed verified q old same) =
      inserted-Pins records verified.instance_id id q r s (refreshed texts q verified now) old
        (refreshed-Pins q verified now) found kept
  Change-Pins records candidate max_failures now id r s found kept (failed error q _ old own left) =
      inserted-Pins records candidate.key.instance_id id q r s
        (with_failure q candidate.key.address) old (with_failure-Pins q candidate.key.address) found
        kept
  Change-Pins records candidate max_failures now id r s found kept
        (evicted error q _ old own all_failed) =
      removed-Pins records candidate.key.instance_id id r s found kept

  -- Whatever the outcome of a probe, a peer that is in the table before and after it has the same
  -- certificate fingerprint and the same public key as before.
  pub apply_probe_outcome-Pins :
      (records : Records) (outcome : ProbeOutcome) (max_failures now : ℕ) (id : Text)
      (r s : PeerRecord)
      → lookup records id ≡ some r
      → lookup (apply_probe_outcome texts records outcome max_failures now).0 id ≡ some s
      → Pins r s
  apply_probe_outcome-Pins records outcome max_failures now id r s found kept =
      Change-Pins records outcome.candidate max_failures now id r s found kept
        (apply_probe_outcome-Change texts records outcome max_failures now)

  -- That a failed probe shows every host of the peer to have failed.
  pub record Expels (outcome : ProbeOutcome) (max_failures : ℕ) (id : Text) (r : PeerRecord)
      : Type 0 where
    pub error : CoreError
    pub refused : outcome.result ≡ err error
    pub completed : is_cancelled error ≡ false
    pub named : outcome.candidate.key.instance_id ≡ id
    pub own : is_of_record texts outcome.candidate.key r ≡ true
    pub all_failed :
        all_hosts_failed texts (with_failure r outcome.candidate.key.address) max_failures ≡ true

  kept_in :
      (records : Records) (k id : Text) (t r : PeerRecord)
      → lookup records id ≡ some r
      → lookup (insert records k t) id ≡ none
      → ⊥
  kept_in records k id t r found gone = ground (arith, lookup-insert records k id t)

  Change-Expels :
      (records : Records) (candidate : Candidate) (max_failures now : ℕ) (id : Text)
      (r : PeerRecord) {result : Result VerifiedPeer} {after : Records × Bool}
      → lookup records id ≡ some r
      → lookup after.0 id ≡ none
      → Change texts records candidate max_failures now result after
      → Expels (record { candidate = candidate; result = result }) max_failures id r
  Change-Expels records candidate max_failures now id r found gone unchanged = absurd (ground arith)
  Change-Expels records candidate max_failures now id r found gone (joined verified missing room) =
      absurd (kept_in records verified.instance_id id _ r found gone)
  Change-Expels records candidate max_failures now id r found gone (renewed verified q old same) =
      absurd (kept_in records verified.instance_id id _ r found gone)
  Change-Expels records candidate max_failures now id r found gone (failed error q _ old own left) =
      absurd (kept_in records candidate.key.instance_id id _ r found gone)
  Change-Expels records candidate max_failures now id r found gone
        (evicted error q c old own all_failed) =
      let same = lookup-remove records candidate.key.instance_id id in
      let named : candidate.key.instance_id ≡ id =
        ground (arith, same, text_eq_iff candidate.key.instance_id id) in
      let q≡r : q ≡ r = ground (arith, named) in
      record {
        error = error;
        refused = refl;
        completed = c;
        named = named;
        own = subst (λ x. is_of_record texts candidate.key x ≡ true) q≡r own;
        all_failed =
            subst
              (λ x.
                all_hosts_failed texts (with_failure x candidate.key.address) max_failures ≡ true)
              q≡r all_failed;
      }

  -- A peer leaves the table by the outcome of a probe only if that probe was of an address of this
  -- very peer, came to its end and failed, and if with this failure every host of the peer has failed:
  -- often enough, or once where the peer is said to have gone.
  pub apply_probe_outcome-Expels :
      (records : Records) (outcome : ProbeOutcome) (max_failures now : ℕ) (id : Text)
      (r : PeerRecord)
      → lookup records id ≡ some r
      → lookup (apply_probe_outcome texts records outcome max_failures now).0 id ≡ none
      → Expels outcome max_failures id r
  apply_probe_outcome-Expels records outcome max_failures now id r found gone =
      Change-Expels records outcome.candidate max_failures now id r found gone
        (apply_probe_outcome-Change texts records outcome max_failures now)

  -- The failures counted at an address of a peer.
  abbrev pub failures_at : PeerRecord → IpAddr → ℕ
  failures_at r ip = count_of (lookup r.failures (record { ip = ip; port = r.peer.port }))

  spared :
      (r : PeerRecord) (address : SocketAddr) (max_failures : ℕ) (ip : IpAddr)
      → contains r.peer.hosts (texts.to_string ip) ≡ true
      → address ≢ record { ip = ip; port = r.peer.port }
      → failure_test r max_failures (failures_at r ip) ≡ false
      → all_hosts_failed texts (with_failure r address) max_failures ≡ false
  unfolding all_hosts_failed with_failure
  spared r address max_failures ip listed other healthy =
      all-contains _ r.peer.hosts (texts.to_string ip) listed (
        rw (texts.parse-to_string ip) (
          ground (
            arith,
            lookup-insert r.failures address (record { ip = ip; port = r.peer.port })
                (counted (lookup r.failures address)),
            socket_eq_iff address (record { ip = ip; port = r.peer.port }),
          )))

  -- A peer with an address at which it has not failed too often (not at all, if it is said to have
  -- gone) stays in the table when a probe of another address fails or succeeds.
  pub apply_probe_outcome-spared :
      (records : Records) (outcome : ProbeOutcome) (max_failures now : ℕ) (id : Text)
      (r : PeerRecord) (ip : IpAddr)
      → lookup records id ≡ some r
      → contains r.peer.hosts (texts.to_string ip) ≡ true
      → outcome.candidate.key.address ≢ record { ip = ip; port = r.peer.port }
      → failure_test r max_failures (failures_at r ip) ≡ false
      → lookup (apply_probe_outcome texts records outcome max_failures now).0 id ≢ none
  apply_probe_outcome-spared records outcome max_failures now id r ip found listed other healthy
        gone =
      let e = apply_probe_outcome-Expels records outcome max_failures now id r found gone in
      let kept = spared r outcome.candidate.key.address max_failures ip listed other healthy in
      absurd (ground (arith, e.all_failed, kept))
