-- ===== src/Discovery/Tracker.antt =====
-- `ProbeTracker` and `schedule_probe` of discovery.rs: the probes in flight and the books on them. The
-- set of tasks is the list of their ids, each with its candidate.
pub mod Books
use ink_hole.Base.{
  ltb, leb, if◌then◌else◌, ◌==◌, nat_eq_instance, length, contains, int_eq_instance,
  option_eq_instance, keep, text_eq_instance, ℕ, ◌-◌, ◌≡◌, Bool, false, not, ◌||◌, Option, none,
  some, List, [], ◌∷◌, lookup, insert, remove,
}
use ink_hole.Discovery.Candidates.{CandidateKey, key_eq_instance, Candidate}
use ink_hole.Discovery.Config.{UdpDiscoveryTimings}

abbrev pub max_pending_probes : ℕ
max_pending_probes = 16

abbrev pub Probes : Type 0
Probes = List (ℕ × Candidate)

pub record ProbeTracker : Type 0 where
  pub probes : Probes
  pub pending : List CandidateKey
  pub owners : List (ℕ × CandidateKey)
  pub last_attempt : List (CandidateKey × ℕ)

abbrev pub new_tracker : ProbeTracker
new_tracker = record { probes = []; pending = []; owners = []; last_attempt = [] }

-- How tokio names a task that is spawned: by an id that no running task has.
pub record TaskIds : Type 0 where
  pub new_id : Probes → ℕ
  pub new_id-fresh : (probes : Probes) → lookup probes (new_id probes) ≡ none

-- `is_some_and(|last| now.duration_since(*last) < interval)`.
abbrev pub is_within : Option ℕ → (now interval : ℕ) → Bool
is_within none now interval = false
is_within (some last) now interval = ltb (now - last) interval

-- A probe of this candidate has begun.
unfoldable pub spawned : ProbeTracker → Candidate → (task now : ℕ) → ProbeTracker
spawned tracker candidate task now = record {
  probes = (task, candidate) ∷ tracker.probes;
  pending = candidate.key ∷ tracker.pending;
  owners = (task, candidate.key) ∷ tracker.owners;
  last_attempt = insert tracker.last_attempt candidate.key now;
}

-- A probe has come to its end: its slot is free again.
unfoldable pub release : ProbeTracker → (task : ℕ) → Candidate → ProbeTracker
release tracker task candidate = record tracker {
  probes = remove tracker.probes task;
  owners = remove tracker.owners task;
  pending = keep (λ key. not (key == candidate.key)) tracker.pending;
}

abbrev without_key : List CandidateKey → Option CandidateKey → List CandidateKey
without_key pending none = pending
without_key pending (some k) = keep (λ key. not (key == k)) pending

-- A probe that panicked or was aborted: its candidate is found by its owner.
unfoldable pub release_lost : ProbeTracker → (task : ℕ) → ProbeTracker
release_lost tracker task = record tracker {
  probes = remove tracker.probes task;
  owners = remove tracker.owners task;
  pending = without_key tracker.pending (lookup tracker.owners task);
}

-- `last_attempt.remove(&candidate.key)`.
unfoldable pub forget_attempt : ProbeTracker → CandidateKey → ProbeTracker
forget_attempt tracker key = record tracker { last_attempt = remove tracker.last_attempt key }

module _ (ids : TaskIds) (timings : UdpDiscoveryTimings) (now : ℕ) where
  unfoldable pub schedule_probe : ProbeTracker → Candidate → ProbeTracker
  schedule_probe tracker candidate =
      if leb max_pending_probes (length tracker.probes) || contains tracker.pending candidate.key
      then tracker
      else if is_within (lookup tracker.last_attempt candidate.key) now timings.min_probe_interval
      then tracker
      else spawned tracker candidate (ids.new_id tracker.probes) now

  unfoldable pub schedule_all : ProbeTracker → List Candidate → ProbeTracker
  schedule_all tracker [] = tracker
  schedule_all tracker (candidate ∷ candidates) =
      schedule_all (schedule_probe tracker candidate) candidates

  -- The same after their last attempts are forgotten, one by one.
  unfoldable pub retry_all : ProbeTracker → List Candidate → ProbeTracker
  unfolding forget_attempt
  retry_all tracker [] = tracker
  retry_all tracker (candidate ∷ candidates) =
      retry_all (schedule_probe (forget_attempt tracker candidate.key) candidate) candidates
