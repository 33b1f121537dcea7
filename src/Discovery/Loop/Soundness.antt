-- ===== src/Discovery/Loop/Soundness.antt =====
-- What holds of the state of `run_discovery` in discovery.rs after any events.
pub mod Step
use ink_hole.Base.{
  leb, ◌==◌, nat_eq_instance, int_eq_instance, option_eq_instance, Text, text_eq_instance, ℕ, ◌≤◌,
  ◌<◌, ◌≡◌, refl, sym, ◌∙◌, Bool, Option, none, some, List, arith, if_elim, lookup, sort_by,
}
use ink_hole.Errors.{Result}
use ink_hole.Discovery.Addresses.{IpAddr, ip_eq_instance, SocketAddr}
use ink_hole.Discovery.Announcements.{UdpAnnouncement, decode_announcement}
use ink_hole.Discovery.Candidates.{Candidate, mdns_candidates}
use ink_hole.Discovery.Registry.{VerifiedPeer, ProbeOutcome, apply_probe_outcome, snapshot_of}
use ink_hole.Discovery.Registry.Upkeep.{
  IsWellKept, nil-IsWellKept, keep-IsWellKept, apply_probe_outcome-IsWellKept,
  demote_goodbye-IsWellKept,
}
use ink_hole.Discovery.Registry.Publishing.{
  apply_probe_outcome-snapshot, snapshot_of-demote_goodbye,
}
use ink_hole.Discovery.Tracker.{ProbeTracker, is_within}
use ink_hole.Discovery.Tracker.Books.{
  IsBooked, new_tracker-IsBooked, release-IsBooked, release_lost-release, schedule_all-IsBooked,
  retry_all-IsBooked,
}
use ink_hole.Discovery.Handlers.{
  Discovery, Action, Task, max_udp_error_streak, beacon_min_interval, swept, start, publish, beacon,
  on_hint, on_refresh, on_burst, on_goodbye, on_announcement, on_decoded, on_datagram, on_udp_error,
  on_resolved, on_removed, on_change, on_outcome, on_probe, on_liveness, is_fresh, on_prune,
}
use ink_hole.Discovery.Loop.{
  Event, cancel, announce_tick, burst_tick, refresh, liveness_tick, prune_tick, mdns_closed,
  receive_failed, hint, datagram, resolved, removed, probe_ended, is_enabled, handle, step,
}

pub record IsSound (task : Task) (state : Discovery) : Type 0 where
  pub kept : IsWellKept state.records
  pub booked : IsBooked state.tracker
  pub shown : state.published ≡ snapshot_of task.to_lowercase state.records
  pub streak : state.udp_error_streak < max_udp_error_streak
  pub burst : state.burst_remaining ≤ task.config.timings.refresh_burst

pub start-IsSound : (task : Task) (has_mdns : Bool) → IsSound task (start has_mdns)
unfolding snapshot_of sort_by
start-IsSound task has_mdns = record {
  kept = nil-IsWellKept;
  booked = new_tracker-IsBooked;
  shown = refl;
  streak = omega arith;
  burst = omega arith;
}

module _ (task : Task) (now : ℕ) where
  abbrev pub Keeps : Discovery × List Action → Type 0
  Keeps r = IsSound task r.0

  -- What a branch that schedules probes alone has to show.
  pub with_tracker :
      (state : Discovery) (tracker : ProbeTracker)
      → IsSound task state
      → IsBooked tracker
      → IsSound task (record state { tracker = tracker })
  with_tracker state tracker s b = record {
    kept = s.kept;
    booked = b;
    shown = s.shown;
    streak = s.streak;
    burst = s.burst;
  }

  beacon-IsSound :
      (state : Discovery) (ip : IpAddr)
      → IsSound task state
      → IsSound task (beacon task now state ip).0
  unfolding beacon
  beacon-IsSound state ip s =
      if_elim Keeps (is_within (lookup (swept task now state.beaconed) ip) now beacon_min_interval)
        (λ _. record {
          kept = s.kept;
          booked = s.booked;
          shown = s.shown;
          streak = s.streak;
          burst = s.burst;
        })
        (λ _. record {
          kept = s.kept;
          booked = s.booked;
          shown = s.shown;
          streak = s.streak;
          burst = s.burst;
        })

  pub on_hint-IsSound :
      (state : Discovery) (ip : IpAddr)
      → IsSound task state
      → IsSound task (on_hint task now state ip).0
  unfolding on_hint
  on_hint-IsSound state ip s = if_elim Keeps _ (λ _. s) (λ _. beacon-IsSound state ip s)

  pub on_refresh-IsSound :
      (state : Discovery) → IsSound task state → IsSound task (on_refresh task now state).0
  unfolding on_refresh
  on_refresh-IsSound state s = record {
    kept = s.kept;
    booked = retry_all-IsBooked task.ids task.config.timings now state.tracker _ s.booked;
    shown = s.shown;
    streak = s.streak;
    burst =
        if_elim (λ n. n ≤ task.config.timings.refresh_burst) task.has_socket (λ _. omega arith)
          (λ _. s.burst);
  }

  on_goodbye-IsSound :
      (state : Discovery) (decoded : UdpAnnouncement) (sender : SocketAddr)
      → IsSound task state
      → IsSound task (on_goodbye task now state decoded sender).0
  unfolding on_goodbye
  on_goodbye-IsSound state decoded sender s = record {
    kept = demote_goodbye-IsWellKept task.texts state.records decoded sender.ip s.kept;
    booked = retry_all-IsBooked task.ids task.config.timings now state.tracker _ s.booked;
    shown =
        s.shown
        ∙ sym (
            snapshot_of-demote_goodbye task.to_lowercase task.texts state.records decoded
              sender.ip);
    streak = s.streak;
    burst = s.burst;
  }

  on_announcement-IsSound :
      (state : Discovery) (decoded : UdpAnnouncement) (sender : SocketAddr)
      → IsSound task state
      → IsSound task (on_announcement task now state decoded sender).0
  unfolding on_announcement
  on_announcement-IsSound state decoded sender s =
      with_tracker state _ s
        (schedule_all-IsBooked task.ids task.config.timings now state.tracker _ s.booked)

  on_decoded-IsSound :
      (state : Discovery) (decoded : Option UdpAnnouncement) (sender : SocketAddr)
      → IsSound task state
      → IsSound task (on_decoded task now state decoded sender).0
  unfolding on_decoded
  on_decoded-IsSound state none sender s = s
  on_decoded-IsSound state (some decoded) sender s =
      if_elim Keeps (decoded.instance_id == task.config.instance_id) (λ _. s)
        (λ _.
          if_elim Keeps decoded.bye (λ _. on_goodbye-IsSound state decoded sender s)
            (λ _. on_announcement-IsSound state decoded sender s))

  pub on_datagram-IsSound :
      (state : Discovery) (payload : List ℕ) (sender : SocketAddr)
      → IsSound task state
      → IsSound task (on_datagram task now state payload sender).0
  unfolding on_datagram
  on_datagram-IsSound state payload sender s =
      on_decoded-IsSound (record state { udp_error_streak = 0 })
        (decode_announcement task.json payload) sender
        (record {
          kept = s.kept;
          booked = s.booked;
          shown = s.shown;
          streak = omega arith;
          burst = s.burst;
        })

  pub on_udp_error-IsSound :
      (state : Discovery) → IsSound task state → IsSound task (on_udp_error task now state).0
  unfolding on_udp_error
  on_udp_error-IsSound state s =
      if_elim Keeps (leb max_udp_error_streak _)
        (λ _. record {
          kept = s.kept;
          booked = s.booked;
          shown = s.shown;
          streak = omega arith;
          burst = s.burst;
        })
        (λ few. record {
          kept = s.kept;
          booked = s.booked;
          shown = s.shown;
          streak = ground arith;
          burst = s.burst;
        })

  pub on_resolved-IsSound :
      (state : Discovery) (name : Text) (candidates : Option (List Candidate))
      → IsSound task state
      → IsSound task (on_resolved task now state name candidates).0
  unfolding on_resolved
  on_resolved-IsSound state name none s = s
  on_resolved-IsSound state name (some candidates) s = record {
    kept = s.kept;
    booked = schedule_all-IsBooked task.ids task.config.timings now state.tracker _ s.booked;
    shown = s.shown;
    streak = s.streak;
    burst = s.burst;
  }

  pub on_removed-IsSound :
      (state : Discovery) (name : Text)
      → IsSound task state
      → IsSound task (on_removed task now state name).0
  unfolding on_removed
  on_removed-IsSound state name s = record {
    kept = s.kept;
    booked = retry_all-IsBooked task.ids task.config.timings now state.tracker _ s.booked;
    shown = s.shown;
    streak = s.streak;
    burst = s.burst;
  }
