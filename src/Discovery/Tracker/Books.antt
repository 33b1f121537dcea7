-- ===== src/Discovery/Tracker/Books.antt =====
-- The books of `ProbeTracker` in discovery.rs agree with the probes in flight.
use ink_hole.Base.{
  leb, nat_eq, nat_eq_iff, Bool-cases, ◌==◌, nat_eq_instance, beq_self, length, contains,
  int_eq_instance, option_eq_instance, keep, length-keep-le, text_eq_instance, ℕ, ◌≤◌, ◌≡◌, refl,
  ap, inl, inr, true, false, not, ◌||◌, some, List, [], ◌∷◌, map, arith, if_elim, distinct, lookup,
  other_than, remove, keys, distinct-keep, contains-missing, remove-missing,
}
use ink_hole.Discovery.Candidates.{CandidateKey, key_eq_instance, key_eq_iff, Candidate}
use ink_hole.Discovery.Config.{UdpDiscoveryTimings}
use ink_hole.Discovery.Tracker.{
  Probes, ProbeTracker, TaskIds, max_pending_probes, new_tracker, is_within, spawned, release,
  release_lost, forget_attempt, schedule_probe, schedule_all, retry_all,
}

abbrev pub probe_keys : Probes → List CandidateKey
probe_keys probes = map (λ (entry : ℕ × Candidate). entry.1.key) probes

abbrev pub probe_owners : Probes → List (ℕ × CandidateKey)
probe_owners probes = map (λ (entry : ℕ × Candidate). (entry.0, entry.1.key)) probes

pub record IsBooked (tracker : ProbeTracker) : Type 0 where
  pub limit : length tracker.probes ≤ max_pending_probes
  pub tasks_differ : distinct (keys tracker.probes) ≡ true
  pub keys_differ : distinct (probe_keys tracker.probes) ≡ true
  pub pending_is : tracker.pending ≡ probe_keys tracker.probes
  pub owners_are : tracker.owners ≡ probe_owners tracker.probes

pub new_tracker-IsBooked : IsBooked new_tracker
new_tracker-IsBooked = record {
  limit = omega arith;
  tasks_differ = refl;
  keys_differ = refl;
  pending_is = refl;
  owners_are = refl;
}

forget_attempt-IsBooked :
    (tracker : ProbeTracker) (key : CandidateKey)
    → IsBooked tracker
    → IsBooked (forget_attempt tracker key)
unfolding forget_attempt
forget_attempt-IsBooked tracker key b = record {
  limit = b.limit;
  tasks_differ = b.tasks_differ;
  keys_differ = b.keys_differ;
  pending_is = b.pending_is;
  owners_are = b.owners_are;
}

owners-remove :
    (probes : Probes) (task : ℕ)
    → remove (probe_owners probes) task ≡ probe_owners (remove probes task)
owners-remove [] task = refl
owners-remove (x ∷ probes) task = ground (arith, owners-remove probes task)

lookup-owners :
    (probes : Probes) (task : ℕ) (candidate : Candidate)
    → lookup probes task ≡ some candidate
    → lookup (probe_owners probes) task ≡ some candidate.key
lookup-owners [] task candidate h = cc
lookup-owners (x ∷ probes) task candidate h = ground (arith, lookup-owners probes task candidate)

contains-probe_keys-remove :
    (probes : Probes) (task : ℕ) (k : CandidateKey)
    → contains (probe_keys probes) k ≡ false
    → contains (probe_keys (remove probes task)) k ≡ false
contains-probe_keys-remove [] task k h = refl
contains-probe_keys-remove (x ∷ probes) task k h =
    ground (arith, contains-probe_keys-remove probes task k)

distinct-probe_keys-remove :
    (probes : Probes) (task : ℕ)
    → distinct (probe_keys probes) ≡ true
    → distinct (probe_keys (remove probes task)) ≡ true
distinct-probe_keys-remove [] task h = refl
distinct-probe_keys-remove (x ∷ probes) task h =
    ground (
      arith,
      distinct-probe_keys-remove probes task,
      contains-probe_keys-remove probes task x.1.key,
    )

keep-missing :
    (ks : List CandidateKey) (k : CandidateKey)
    → contains ks k ≡ false
    → keep (λ key. not (key == k)) ks ≡ ks
keep-missing [] k h = refl
keep-missing (x ∷ ks) k h = ground (arith, keep-missing ks k)

contains-of_lookup :
    (probes : Probes) (task : ℕ) (candidate : Candidate)
    → lookup probes task ≡ some candidate
    → contains (probe_keys probes) candidate.key ≡ true
contains-of_lookup [] task candidate h = cc
contains-of_lookup (x ∷ probes) task candidate h =
    ground (arith, contains-of_lookup probes task candidate, beq_self candidate.key)

-- The key of a probe is the key of no other one.
pending-remove :
    (probes : Probes) (task : ℕ) (candidate : Candidate)
    → distinct (keys probes) ≡ true
    → distinct (probe_keys probes) ≡ true
    → lookup probes task ≡ some candidate
    → keep (λ key. not (key == candidate.key)) (probe_keys probes) ≡ probe_keys (remove probes task)
pending-remove [] task candidate d c h = cc
pending-remove ((i, w) ∷ probes) task candidate d c h = elim (Bool-cases (nat_eq i task)) [
  | inl same ↦ ground (
    arith,
    remove-missing probes task,
    keep-missing (probe_keys probes) candidate.key,
    beq_self candidate.key,
    nat_eq_iff i task,
  )
  | inr apart ↦ ground (
    arith,
    pending-remove probes task candidate,
    contains-of_lookup probes task candidate,
    key_eq_iff w.key candidate.key,
  )
]

-- A probe that ends releases its slot and its key, and no other's.
pub release-IsBooked :
    (tracker : ProbeTracker) (task : ℕ) (candidate : Candidate)
    → IsBooked tracker
    → lookup tracker.probes task ≡ some candidate
    → IsBooked (release tracker task candidate)
unfolding release
release-IsBooked tracker task candidate b h = record {
  limit = omega (arith, b.limit, length-keep-le (other_than task) tracker.probes);
  tasks_differ = distinct-keep (other_than task) tracker.probes b.tasks_differ;
  keys_differ = distinct-probe_keys-remove tracker.probes task b.keys_differ;
  pending_is =
      rw b.pending_is (pending-remove tracker.probes task candidate b.tasks_differ b.keys_differ h);
  owners_are = rw b.owners_are (owners-remove tracker.probes task);
}

-- A probe that is lost is released just as one that ended is.
pub release_lost-release :
    (tracker : ProbeTracker) (task : ℕ) (candidate : Candidate)
    → IsBooked tracker
    → lookup tracker.probes task ≡ some candidate
    → release_lost tracker task ≡ release tracker task candidate
unfolding release_lost release
release_lost-release tracker task candidate b h =
    ground (arith, b.owners_are, lookup-owners tracker.probes task candidate)

module _ (ids : TaskIds) (timings : UdpDiscoveryTimings) (now : ℕ) where
  spawned-IsBooked :
      (tracker : ProbeTracker) (candidate : Candidate)
      → IsBooked tracker
      → (leb max_pending_probes (length tracker.probes) || contains tracker.pending candidate.key)
        ≡ false
      → IsBooked (spawned tracker candidate (ids.new_id tracker.probes) now)
  unfolding spawned
  spawned-IsBooked tracker candidate b h = record {
    limit = ground arith;
    tasks_differ = ground (
      arith,
      b.tasks_differ,
      contains-missing tracker.probes (ids.new_id tracker.probes) (ids.new_id-fresh tracker.probes),
    );
    keys_differ = ground (arith, b.keys_differ, b.pending_is);
    pending_is = ap (◌∷◌ candidate.key) b.pending_is;
    owners_are = ap (◌∷◌ (ids.new_id tracker.probes, candidate.key)) b.owners_are;
  }

  pub schedule_probe-IsBooked :
      (tracker : ProbeTracker) (candidate : Candidate)
      → IsBooked tracker
      → IsBooked (schedule_probe ids timings now tracker candidate)
  unfolding schedule_probe
  schedule_probe-IsBooked tracker candidate b =
      if_elim IsBooked
        (leb max_pending_probes (length tracker.probes) || contains tracker.pending candidate.key)
        (λ _. b)
        (λ free.
          if_elim IsBooked
            (is_within (lookup tracker.last_attempt candidate.key) now timings.min_probe_interval)
            (λ _. b) (λ _. spawned-IsBooked tracker candidate b free))

  pub schedule_all-IsBooked :
      (tracker : ProbeTracker) (candidates : List Candidate)
      → IsBooked tracker
      → IsBooked (schedule_all ids timings now tracker candidates)
  unfolding schedule_all
  schedule_all-IsBooked tracker [] b = b
  schedule_all-IsBooked tracker (c ∷ candidates) b =
      schedule_all-IsBooked (schedule_probe ids timings now tracker c) candidates
        (schedule_probe-IsBooked tracker c b)

  pub retry_all-IsBooked :
      (tracker : ProbeTracker) (candidates : List Candidate)
      → IsBooked tracker
      → IsBooked (retry_all ids timings now tracker candidates)
  unfolding retry_all
  retry_all-IsBooked tracker [] b = b
  retry_all-IsBooked tracker (c ∷ candidates) b =
      let forgotten = forget_attempt tracker c.key in
      retry_all-IsBooked (schedule_probe ids timings now forgotten c) candidates
        (schedule_probe-IsBooked forgotten c (forget_attempt-IsBooked tracker c.key b))
