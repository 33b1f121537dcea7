-- ===== src/Discovery/Loop.antt =====
-- The loop `run_discovery` of discovery.rs: which branch an event takes, and how the loop ends.
pub mod Soundness
pub mod Refinement
pub mod Liveness
use ink_hole.Base.{
  ltb, if◌then◌else◌, nat_eq_instance, int_eq_instance, option_eq_instance, Text, text_eq_instance,
  ℕ, ◌≡◌, Bool, true, false, not, ◌&&◌, Option, none, some, List, [], ◌∷◌, ◌++◌, lookup,
}
use ink_hole.Errors.{CoreError, Result, ok, err, ErrorKind, io, not_connected}
use ink_hole.Discovery.Addresses.{IpAddr, SocketAddr}
use ink_hole.Discovery.Candidates.{ResolvedService, mdns_candidates}
use ink_hole.Discovery.Registry.{VerifiedPeer}
use ink_hole.Discovery.Tracker.{new_tracker}
use ink_hole.Discovery.Handlers.{
  Discovery, Action, Task, send_to_targets, publish, on_hint, on_refresh, on_burst, on_datagram,
  on_udp_error, on_resolved, on_removed, on_probe, on_liveness, on_prune,
}

-- What `select!` may wake up for.
pub data Event : Type 0 where
  cancel announce_tick burst_tick refresh liveness_tick prune_tick mdns_closed : Event
  receive_failed : (kind : ErrorKind) → Event
  hint : (ip : IpAddr) → Event
  datagram : (payload : List ℕ) (sender : SocketAddr) → Event
  resolved : (service : ResolvedService) → Event
  removed : (service_name : Text) → Event
  probe_ended : (id : ℕ) (result : Option (Result VerifiedPeer)) → Event

abbrev is_nil {ℓ} : {A : Type ℓ} → List A → Bool
is_nil [] = true
is_nil (x ∷ xs) = false

abbrev is_failure : Result (Unit {0}) → Bool
is_failure (ok done) = false
is_failure (err e) = true

module _ (task : Task) where
  -- The conditions of the branches.
  unfoldable pub is_enabled : Discovery → Event → Bool
  is_enabled state cancel = true
  is_enabled state announce_tick = task.has_socket
  is_enabled state burst_tick = task.has_socket && ltb 0 state.burst_remaining
  is_enabled state refresh = true
  is_enabled state liveness_tick = not (is_nil state.records)
  is_enabled state prune_tick = true
  is_enabled state mdns_closed = state.mdns_event_stream_open
  is_enabled state (receive_failed kind) = task.has_socket
  is_enabled state (hint ip) = true
  is_enabled state (datagram payload sender) = task.has_socket
  is_enabled state (resolved service) = state.mdns_event_stream_open
  is_enabled state (removed service_name) = state.mdns_event_stream_open
  is_enabled state (probe_ended id result) = not (is_nil state.tracker.probes)

  -- With what the loop is left, if this event ends it.
  unfoldable pub loop_end : Event → Option (Result (Unit {0}))
  loop_end cancel = some (ok tt)
  loop_end (receive_failed not_connected) =
      if task.has_socket then some (err (io not_connected)) else none
  loop_end _ = none

  -- The branches of the events that do not end the loop.
  unfoldable pub handle : Discovery → (now : ℕ) → Event → Discovery × List Action
  handle state now cancel = (state, [])
  handle state now announce_tick = (state, send_to_targets task.announcement task.config.targets)
  handle state now burst_tick = on_burst task now state
  handle state now refresh = on_refresh task now state
  handle state now liveness_tick = on_liveness task now state
  handle state now prune_tick = on_prune task now state
  handle state now mdns_closed = (record state { mdns_event_stream_open = false }, [])
  handle state now (receive_failed kind) = on_udp_error task now state
  handle state now (hint ip) = on_hint task now state ip
  handle state now (datagram payload sender) = on_datagram task now state payload sender
  handle state now (resolved service) =
      on_resolved task now state service.fullname (mdns_candidates service)
  handle state now (removed service_name) = on_removed task now state service_name
  handle state now (probe_ended id result) =
      on_probe task now state id (lookup state.tracker.probes id) result

  -- One turn of the loop. A branch whose condition does not hold is not taken.
  unfoldable pub step : Discovery → (now : ℕ) → Event → Discovery × List Action
  step state now event = if is_enabled state event then handle state now event else (state, [])

  -- What follows the loop: `ok tt` where it was cancelled, an error where the socket was lost.
  unfoldable pub finish : Discovery → (now : ℕ) → Result (Unit {0}) → Discovery × List Action
  finish state now result =
      let cleared =
        if is_failure result && not (is_nil state.records)
        then publish task now (record state { records = [] })
        else (state, []) in
      (
        record cleared.0 { tracker = record cleared.0.tracker { probes = [] } },
        cleared.1
            ++ (if task.has_socket then send_to_targets task.goodbye task.config.targets else []),
      )

  -- The loop over what happens and when, from a state to the end of the events or its own.
  unfoldable pub run : Discovery → List (ℕ × Event) → Discovery × List Action
  unfolding step loop_end finish
  run state [] = (state, [])
  run state ((now, event) ∷ events) = elim (loop_end event) [
    | some result ↦ finish state now result
    | none ↦
        let (next, actions) = step state now event in
        let (last, later) = run next events in (last, actions ++ later)
  ]

-- From one state of the loop to another by events that pass a test and do not end it.
module _ (task : Task) (test : Event → Bool) where
  pub data Leads : Discovery → Discovery → Type 0 where
    here : {state last : Discovery} → state ≡ last → Leads state last
    onward :
        {state last : Discovery} (now : ℕ) (event : Event)
        → test event ≡ true
        → loop_end task event ≡ none
        → Leads (step task state now event).0 last
        → Leads state last

abbrev pub any_event : Event → Bool
any_event event = true
