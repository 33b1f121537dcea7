-- ===== src/Discovery/Loop/Liveness.antt =====
-- What becomes of the peers of discovery.rs that answer no longer, and of the published list.
use ink_hole.Base.{
  leb, Option-cases, ◌==◌, nat_eq_instance, All, int_eq_instance, option_eq_instance, keep, Text,
  text_eq_instance, ℕ, ◌+◌, ◌≤◌, ◌≡◌, refl, ap, subst, ◌∙◌, inl, inr, Bool, true, false, not, ◌&&◌,
  ◌||◌, Option, none, some, List, [], ◌∷◌, arith, if_elim, All-keep, lookup, other_than, All-insert,
  All-lookup, sort_by,
}
use ink_hole.Errors.{CoreError, Result, ok, err}
use ink_hole.Discovery.Addresses.{IpAddr, ip_eq_instance, SocketAddr}
use ink_hole.Discovery.Announcements.{UdpAnnouncement, decode_announcement}
use ink_hole.Discovery.Candidates.{Candidate, mdns_candidates}
use ink_hole.Discovery.Registry.{Records, PeerRecord, VerifiedPeer, with_failure, snapshot_of}
use ink_hole.Discovery.Registry.Outcomes.{
  Change, unchanged, failed, evicted, apply_probe_outcome-Change, Farewell, ignored, demoted,
  demote_goodbye-Farewell,
}
use ink_hole.Discovery.Tracker.{is_within}
use ink_hole.Discovery.Handlers.{
  Discovery, Action, Task, beacon_min_interval, max_udp_error_streak, swept, start, publish, beacon,
  on_hint, on_refresh, on_burst, on_goodbye, on_announcement, on_decoded, on_datagram, on_udp_error,
  on_resolved, on_removed, on_change, on_outcome, on_probe, on_liveness, is_fresh, on_prune,
}
use ink_hole.Discovery.Loop.{
  Event, cancel, announce_tick, burst_tick, refresh, liveness_tick, prune_tick, mdns_closed,
  receive_failed, hint, datagram, resolved, removed, probe_ended, is_enabled, handle, step, Leads,
  here, onward, any_event, run, loop_end, finish, is_nil, is_failure,
}
use ink_hole.Discovery.Loop.Soundness.{IsSound, start-IsSound}
use ink_hole.Discovery.Loop.Soundness.Step.{step-IsSound}

-- No probe that verified a peer.
abbrev pub is_quiet : Event → Bool
is_quiet (probe_ended id (some (ok verified))) = false
is_quiet _ = true

-- Last verified at this time or before.
abbrev pub IsSeenBy : ℕ → Text × PeerRecord → Type 0
IsSeenBy time entry = entry.1.last_verified ≤ time

module _ (task : Task) (now time : ℕ) where
  abbrev Seen : Discovery × List Action → Type 0
  Seen r = All (IsSeenBy time) r.0.records

  Farewell-Seen :
      (records : Records) (goodbye : UdpAnnouncement) (sender_ip : IpAddr)
      {after : Records × List Candidate}
      → All (IsSeenBy time) records
      → Farewell task.texts records goodbye sender_ip after
      → All (IsSeenBy time) after.0
  Farewell-Seen records goodbye sender_ip h ignored = h
  Farewell-Seen records goodbye sender_ip h (demoted r found known) =
      All-insert (IsSeenBy time) records goodbye.instance_id (record r { farewelled = true }) h
        (All-lookup (IsSeenBy time) records goodbye.instance_id r h found)

  Change-Seen :
      (records : Records) (candidate : Candidate) (max_failures : ℕ) (error : CoreError)
      {result : Result VerifiedPeer} {after : Records × Bool}
      → result ≡ err error
      → All (IsSeenBy time) records
      → Change task.texts records candidate max_failures now result after
      → All (IsSeenBy time) after.0
  unfolding with_failure
  Change-Seen records candidate max_failures error e h unchanged = h
  Change-Seen records candidate max_failures error e h (Change.joined verified _ _) = cc
  Change-Seen records candidate max_failures error e h (Change.renewed verified r _ _) = cc
  Change-Seen records candidate max_failures error e h (failed _ r _ found _ _) =
      All-insert (IsSeenBy time) records candidate.key.instance_id
        (with_failure r candidate.key.address) h
        (All-lookup (IsSeenBy time) records candidate.key.instance_id r h found)
  Change-Seen records candidate max_failures error e h (evicted _ r _ _ _ _) =
      All-keep (IsSeenBy time) (other_than candidate.key.instance_id) records h

  on_hint-Seen :
      (state : Discovery) (ip : IpAddr)
      → All (IsSeenBy time) state.records
      → Seen (on_hint task now state ip)
  unfolding on_hint beacon
  on_hint-Seen state ip h =
      if_elim Seen (not task.has_socket || _) (λ _. h)
        (λ _.
          if_elim Seen
            (is_within (lookup (swept task now state.beaconed) ip) now beacon_min_interval) (λ _. h)
            (λ _. h))

  on_decoded-Seen :
      (state : Discovery) (decoded : Option UdpAnnouncement) (sender : SocketAddr)
      → All (IsSeenBy time) state.records
      → Seen (on_decoded task now state decoded sender)
  unfolding on_decoded on_goodbye on_announcement
  on_decoded-Seen state none sender h = h
  on_decoded-Seen state (some decoded) sender h =
      if_elim Seen (decoded.instance_id == task.config.instance_id) (λ _. h)
        (λ _.
          if_elim Seen decoded.bye
            (λ _.
              Farewell-Seen state.records decoded sender.ip h
                (demote_goodbye-Farewell task.texts state.records decoded sender.ip))
            (λ _. h))

  on_resolved-Seen :
      (state : Discovery) (name : Text) (candidates : Option (List Candidate))
      → All (IsSeenBy time) state.records
      → Seen (on_resolved task now state name candidates)
  unfolding on_resolved
  on_resolved-Seen state name none h = h
  on_resolved-Seen state name (some candidates) h = h

  on_change-Seen :
      (changed : Bool) (state : Discovery) (back : List Action)
      → All (IsSeenBy time) state.records
      → Seen (on_change task now changed state back)
  unfolding on_change publish
  on_change-Seen false state back h = h
  on_change-Seen true state back h = h

  on_probe-Seen :
      (state : Discovery) (k : ℕ) (found : Option Candidate) (result : Option (Result VerifiedPeer))
      → is_quiet (probe_ended k result) ≡ true
      → All (IsSeenBy time) state.records
      → Seen (on_probe task now state k found result)
  unfolding on_probe on_outcome
  on_probe-Seen state k none result q h = h
  on_probe-Seen state k (some candidate) none q h = h
  on_probe-Seen state k (some candidate) (some (ok verified)) q h = cc
  on_probe-Seen state k (some candidate) (some (err error)) q h = on_change-Seen _ _ _ (
      Change-Seen state.records candidate task.config.timings.max_failures error refl h (
        apply_probe_outcome-Change task.texts state.records
          (record { candidate = candidate; result = err error }) task.config.timings.max_failures
          now))

  handle-Seen :
      (state : Discovery) (event : Event)
      → is_quiet event ≡ true
      → All (IsSeenBy time) state.records
      → Seen (handle task state now event)
  unfolding handle on_burst on_refresh on_liveness on_removed on_datagram on_udp_error on_prune
  handle-Seen state cancel q h = h
  handle-Seen state announce_tick q h = h
  handle-Seen state burst_tick q h = h
  handle-Seen state refresh q h = h
  handle-Seen state liveness_tick q h = h
  handle-Seen state prune_tick q h =
      on_change-Seen _ _ [] (All-keep (IsSeenBy time) (is_fresh task now) state.records h)
  handle-Seen state mdns_closed q h = h
  handle-Seen state (receive_failed kind) q h =
      if_elim Seen (leb max_udp_error_streak _) (λ _. h) (λ _. h)
  handle-Seen state (hint ip) q h = on_hint-Seen state ip h
  handle-Seen state (datagram payload sender) q h =
      on_decoded-Seen (record state { udp_error_streak = 0 })
        (decode_announcement task.json payload) sender h
  handle-Seen state (resolved service) q h =
      on_resolved-Seen state service.fullname (mdns_candidates service) h
  handle-Seen state (removed service_name) q h = h
  handle-Seen state (probe_ended k result) q h =
      on_probe-Seen state k (lookup state.tracker.probes k) result q h

  step-Seen :
      (state : Discovery) (event : Event)
      → is_quiet event ≡ true
      → All (IsSeenBy time) state.records
      → Seen (step task state now event)
  unfolding step
  step-Seen state event q h =
      if_elim Seen (is_enabled task state event) (λ _. handle-Seen state event q h) (λ _. h)

  -- Those last seen long ago are all dropped.
  keep-stale :
      (records : Records)
      → time + task.config.timings.stale_after ≤ now
      → All (IsSeenBy time) records
      → keep (is_fresh task now) records ≡ []
  keep-stale [] late h = refl
  keep-stale (x ∷ records) late h = ground (arith, keep-stale records late h.1)

  on_change-nil :
      (changed : Bool) (s : Discovery) (back : List Action)
      → s.records ≡ []
      → (on_change task now changed s back).0.records ≡ []
  unfolding on_change publish
  on_change-nil false s back e = e
  on_change-nil true s back e = e

  prune-stale :
      (state : Discovery)
      → time + task.config.timings.stale_after ≤ now
      → All (IsSeenBy time) state.records
      → (step task state now prune_tick).0.records ≡ []
  unfolding step is_enabled handle on_prune
  prune-stale state late h = on_change-nil _ _ [] (keep-stale state.records late h)

module _ (task : Task) where
  Leads-Seen :
      (time : ℕ) {state last : Discovery}
      → All (IsSeenBy time) state.records
      → Leads task is_quiet state last
      → All (IsSeenBy time) last.records
  Leads-Seen time h (here e) = subst (λ s. All (IsSeenBy time) s.records) e h
  Leads-Seen time {state} h (onward now event q on rest) =
      Leads-Seen time (step-Seen task now time state event q h) rest

  Leads-IsSound :
      (test : Event → Bool) {state last : Discovery}
      → IsSound task state
      → Leads task test state last
      → IsSound task last
  Leads-IsSound test s (here e) = subst (IsSound task) e s
  Leads-IsSound test {state} s (onward now event q on rest) =
      Leads-IsSound test (step-IsSound task now state event s) rest

  -- Whatever datagrams, mDNS events, failures of the socket and outcomes of probes the loop meets: in
  -- every state that it comes to, the table holds at most 256 peers, each once and under its own
  -- instance id, at most 16 probes are in flight, no two of one candidate, exactly theirs are the
  -- candidates held back and the owners on record, and the list that is published is the sorted list of
  -- the peers in the table.
  pub reached-IsSound :
      (has_mdns : Bool) {last : Discovery}
      → Leads task any_event (start has_mdns) last
      → IsSound task last
  reached-IsSound has_mdns path = Leads-IsSound any_event (start-IsSound task has_mdns) path

  -- When no probe verifies anyone any more, the table is empty and so is what is published at the
  -- first tick for stale peers that is `stale_after` or more behind the last verification, whatever
  -- else has happened in the meantime.
  pub prune_empties :
      (time now : ℕ) {state last : Discovery}
      → IsSound task state
      → All (IsSeenBy time) state.records
      → Leads task is_quiet state last
      → time + task.config.timings.stale_after ≤ now
      → ((step task last now prune_tick).0.records ≡ [])
        × ((step task last now prune_tick).0.published ≡ [])
  unfolding snapshot_of sort_by
  prune_empties time now {last = last} s h path late =
      let emptied = prune-stale task now time last late (Leads-Seen time h path) in
      let sound = step-IsSound task now last prune_tick (Leads-IsSound is_quiet s path) in
      (emptied, sound.shown ∙ ap (snapshot_of task.to_lowercase) emptied)

  finish-shown :
      (state : Discovery) (now : ℕ) (result : Result (Unit {0}))
      → state.published ≡ snapshot_of task.to_lowercase state.records
      → (finish task state now result).0.published
        ≡ snapshot_of task.to_lowercase (finish task state now result).0.records
  unfolding finish publish
  finish-shown state now result h =
      if_elim
        (λ (r : Discovery × List Action). r.0.published ≡ snapshot_of task.to_lowercase r.0.records)
        (is_failure result && not (is_nil state.records)) (λ _. refl) (λ _. h)

  run_shown :
      (state : Discovery) (events : List (ℕ × Event))
      → IsSound task state
      → (run task state events).0.published
        ≡ snapshot_of task.to_lowercase (run task state events).0.records
  unfolding run
  run_shown state [] s = s.shown
  run_shown state ((now, event) ∷ events) s = elim (Option-cases (loop_end task event)) [
    | inl on ↦
        rw (on, run)
          (run_shown (step task state now event).0 events (step-IsSound task now state event s))
    | inr (result, ended) ↦ rw (ended, run) (finish-shown state now result s.shown)
  ]

  -- Whatever the loop meets, and however it ends, what it has published last is the sorted list of the
  -- peers that it still has in its table.
  pub run_published :
      (has_mdns : Bool) (events : List (ℕ × Event))
      → (run task (start has_mdns) events).0.published
        ≡ snapshot_of task.to_lowercase (run task (start has_mdns) events).0.records
  run_published has_mdns events = run_shown (start has_mdns) events (start-IsSound task has_mdns)
