-- ===== src/Discovery/Loop/Soundness/Step.antt =====
-- That every turn of the loop of `run_discovery` in discovery.rs keeps what holds of its state.
use ink_hole.Base.{
  ◌==◌, nat_eq_instance, length, int_eq_instance, option_eq_instance, keep, text_eq_instance, ℕ,
  ◌≤◌, ◌<◌, ◌≡◌, refl, sym, ap, subst, ◌∙◌, Bool, true, false, not, Option, none, some, List, [],
  arith, if_elim, lookup, keep_all,
}
use ink_hole.Errors.{Result}
use ink_hole.Discovery.Addresses.{ip_eq_instance}
use ink_hole.Discovery.Candidates.{Candidate, mdns_candidates}
use ink_hole.Discovery.Registry.{VerifiedPeer, ProbeOutcome, apply_probe_outcome, snapshot_of}
use ink_hole.Discovery.Registry.Upkeep.{IsWellKept, keep-IsWellKept, apply_probe_outcome-IsWellKept}
use ink_hole.Discovery.Registry.Publishing.{apply_probe_outcome-snapshot}
use ink_hole.Discovery.Tracker.Books.{
  IsBooked, release-IsBooked, release_lost-release, schedule_all-IsBooked,
}
use ink_hole.Discovery.Handlers.{
  Discovery, Action, Task, max_udp_error_streak, publish, on_burst, on_change, on_outcome, on_probe,
  on_liveness, is_fresh, on_prune,
}
use ink_hole.Discovery.Loop.{
  Event, cancel, announce_tick, burst_tick, refresh, liveness_tick, prune_tick, mdns_closed,
  receive_failed, hint, datagram, resolved, removed, probe_ended, is_enabled, handle, step,
}
use ink_hole.Discovery.Loop.Soundness.{
  IsSound, Keeps, on_datagram-IsSound, on_hint-IsSound, on_refresh-IsSound, on_removed-IsSound,
  on_resolved-IsSound, on_udp_error-IsSound, with_tracker,
}

module _ (task : Task) (now : ℕ) where
  -- The table may change where the change is published, or does not show.
  on_change-IsSound :
      (changed : Bool) (state : Discovery) (back : List Action)
      → IsWellKept state.records
      → IsBooked state.tracker
      → (changed ≡ false → state.published ≡ snapshot_of task.to_lowercase state.records)
      → state.udp_error_streak < max_udp_error_streak
      → state.burst_remaining ≤ task.config.timings.refresh_burst
      → IsSound task (on_change task now changed state back).0
  unfolding on_change publish
  on_change-IsSound false state back k b same streak burst = record {
    kept = k;
    booked = b;
    shown = same refl;
    streak = streak;
    burst = burst;
  }
  on_change-IsSound true state back k b same streak burst = record {
    kept = k;
    booked = b;
    shown = refl;
    streak = streak;
    burst = burst;
  }

  on_outcome-IsSound :
      (state : Discovery) (id : ℕ) (candidate : Candidate) (result : Result VerifiedPeer)
      → IsSound task state
      → lookup state.tracker.probes id ≡ some candidate
      → IsSound task (on_outcome task now state id candidate result).0
  unfolding on_outcome
  on_outcome-IsSound state id candidate result s running =
      let outcome : ProbeOutcome = record { candidate = candidate; result = result } in
      let limit = task.config.timings.max_failures in
      on_change-IsSound (apply_probe_outcome task.texts state.records outcome limit now).1 _ _
        (apply_probe_outcome-IsWellKept task.texts state.records outcome limit now s.kept)
        (release-IsBooked state.tracker id candidate s.booked running)
        (λ same.
          s.shown
          ∙ sym (
              apply_probe_outcome-snapshot task.to_lowercase task.texts state.records outcome limit
                now same))
        s.streak s.burst

  on_probe-IsSound :
      (state : Discovery) (id : ℕ) (found : Option Candidate)
      (result : Option (Result VerifiedPeer))
      → IsSound task state
      → lookup state.tracker.probes id ≡ found
      → IsSound task (on_probe task now state id found result).0
  unfolding on_probe
  on_probe-IsSound state id none result s h = s
  on_probe-IsSound state id (some candidate) none s h = with_tracker task now state _ s (
      subst IsBooked (sym (release_lost-release state.tracker id candidate s.booked h))
        (release-IsBooked state.tracker id candidate s.booked h))
  on_probe-IsSound state id (some candidate) (some result) s h =
      on_outcome-IsSound state id candidate result s h

  on_liveness-IsSound :
      (state : Discovery) → IsSound task state → IsSound task (on_liveness task now state).0
  unfolding on_liveness
  on_liveness-IsSound state s =
      with_tracker task now state _ s
        (schedule_all-IsBooked task.ids task.config.timings now state.tracker _ s.booked)

  on_prune-IsSound :
      (state : Discovery) → IsSound task state → IsSound task (on_prune task now state).0
  unfolding on_prune
  on_prune-IsSound state s =
      let fresh = keep (is_fresh task now) state.records in
      on_change-IsSound (not (length fresh == length state.records)) _ []
        (keep-IsWellKept (is_fresh task now) state.records s.kept)
        (record {
          limit = s.booked.limit;
          tasks_differ = s.booked.tasks_differ;
          keys_differ = s.booked.keys_differ;
          pending_is = s.booked.pending_is;
          owners_are = s.booked.owners_are;
        })
        (λ same.
          s.shown
          ∙ ap (snapshot_of task.to_lowercase)
              (sym (keep_all (is_fresh task now) state.records (ground arith))))
        s.streak s.burst

  handle-IsSound :
      (state : Discovery) (event : Event)
      → IsSound task state
      → IsSound task (handle task state now event).0
  unfolding handle on_burst
  handle-IsSound state cancel s = s
  handle-IsSound state announce_tick s = s
  handle-IsSound state burst_tick s = record {
    kept = s.kept;
    booked = s.booked;
    shown = s.shown;
    streak = s.streak;
    burst = omega (arith, s.burst);
  }
  handle-IsSound state refresh s = on_refresh-IsSound task now state s
  handle-IsSound state liveness_tick s = on_liveness-IsSound state s
  handle-IsSound state prune_tick s = on_prune-IsSound state s
  handle-IsSound state mdns_closed s = record {
    kept = s.kept;
    booked = s.booked;
    shown = s.shown;
    streak = s.streak;
    burst = s.burst;
  }
  handle-IsSound state (receive_failed kind) s = on_udp_error-IsSound task now state s
  handle-IsSound state (hint ip) s = on_hint-IsSound task now state ip s
  handle-IsSound state (datagram payload sender) s =
      on_datagram-IsSound task now state payload sender s
  handle-IsSound state (resolved service) s =
      on_resolved-IsSound task now state service.fullname (mdns_candidates service) s
  handle-IsSound state (removed service_name) s = on_removed-IsSound task now state service_name s
  handle-IsSound state (probe_ended id result) s =
      on_probe-IsSound state id (lookup state.tracker.probes id) result s refl

  pub step-IsSound :
      (state : Discovery) (event : Event)
      → IsSound task state
      → IsSound task (step task state now event).0
  unfolding step
  step-IsSound state event s =
      if_elim (Keeps task now) (is_enabled task state event) (λ _. handle-IsSound state event s)
        (λ _. s)
