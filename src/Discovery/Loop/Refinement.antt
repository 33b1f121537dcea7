-- ===== src/Discovery/Loop/Refinement.antt =====
-- The loop of discovery.rs as a directory of identities: seen at one instance id, each step is one of
-- four moves.
use ink_hole.Base.{
  leb, ◌==◌, nat_eq_instance, int_eq_instance, option_eq_instance, Text, text_eq_iff,
  text_eq_instance, ℕ, ◌-◌, ◌≤◌, ◌≡◌, refl, sym, subst, Bool, true, false, not, ◌||◌, Option, none,
  some, List, arith, if_elim, distinct, lookup, insert, keys, lookup-insert, passed, lookup-keep,
}
use ink_hole.Errors.{CoreError, Result, ok, err}
use ink_hole.Discovery.Addresses.{IpAddr, ip_eq_instance, SocketAddr}
use ink_hole.Discovery.Announcements.{UdpAnnouncement, decode_announcement}
use ink_hole.Discovery.Candidates.{Candidate, mdns_candidates}
use ink_hole.Discovery.Registry.{
  Records, PeerRecord, VerifiedPeer, is_cancelled, apply_probe_outcome,
}
use ink_hole.Discovery.Registry.Outcomes.{Farewell, ignored, demoted, demote_goodbye-Farewell}
use ink_hole.Discovery.Registry.Eviction.{apply_probe_outcome-Pins, apply_probe_outcome-Expels}
use ink_hole.Discovery.Registry.Joining.{apply_probe_outcome-Vouches}
use ink_hole.Discovery.Tracker.{is_within}
use ink_hole.Discovery.Handlers.{
  Discovery, Action, Task, beacon_min_interval, max_udp_error_streak, swept, publish, beacon,
  on_hint, on_refresh, on_burst, on_goodbye, on_announcement, on_decoded, on_datagram, on_udp_error,
  on_resolved, on_removed, on_change, on_outcome, on_probe, on_liveness, is_fresh, on_prune,
}
use ink_hole.Discovery.Loop.{
  Event, cancel, announce_tick, burst_tick, refresh, liveness_tick, prune_tick, mdns_closed,
  receive_failed, hint, datagram, resolved, removed, probe_ended, is_enabled, handle, step,
}
use ink_hole.Discovery.Loop.Soundness.{IsSound}

abbrev pub Identity : Type 0
Identity = Text × Text

abbrev pub identity_of : Option PeerRecord → Option Identity
identity_of none = none
identity_of (some r) = some (r.peer.fingerprint, r.peer.public_key)

-- The directory: the fingerprint and the public key of each peer that is in the table.
abbrev pub directory : Records → Text → Option Identity
directory records id = identity_of (lookup records id)

pub data Move (task : Task) (now : ℕ) (state : Discovery) (event : Event) (id : Text)
    : Option Identity → Option Identity → Type 0 where
  stays : {view after : Option Identity} → after ≡ view → Move task now state event id view after
  learns :
      {view after : Option Identity} (k : ℕ) (verified : VerifiedPeer)
      → event ≡ probe_ended k (some (ok verified))
      → verified.instance_id ≡ id
      → view ≡ none
      → after ≡ some (verified.certificate_fingerprint, verified.public_key)
      → Move task now state event id view after
  fails :
      {view after : Option Identity} (k : ℕ) (error : CoreError) (candidate : Candidate)
      → event ≡ probe_ended k (some (err error))
      → is_cancelled error ≡ false
      → lookup state.tracker.probes k ≡ some candidate
      → candidate.key.instance_id ≡ id
      → after ≡ none
      → Move task now state event id view after
  expires :
      {view after : Option Identity} (r : PeerRecord)
      → event ≡ prune_tick
      → lookup state.records id ≡ some r
      → task.config.timings.stale_after ≤ now - r.last_verified
      → after ≡ none
      → Move task now state event id view after

demoted-directory :
    (records : Records) (k id : Text) (r : PeerRecord)
    → lookup records k ≡ some r
    → directory (insert records k (record r { farewelled = true })) id ≡ directory records id
demoted-directory records k id r found =
    ground (arith, lookup-insert records k id (record r { farewelled = true }), text_eq_iff k id)

module _ (task : Task) (now : ℕ) where
  goodbye_stays :
      (records : Records) (goodbye : UdpAnnouncement) (sender_ip : IpAddr) (id : Text)
      {after : Records × List Candidate}
      → Farewell task.texts records goodbye sender_ip after
      → directory after.0 id ≡ directory records id
  goodbye_stays records goodbye sender_ip id ignored = refl
  goodbye_stays records goodbye sender_ip id (demoted r found known) =
      demoted-directory records goodbye.instance_id id r found

  module _ (event : Event) (id : Text) where
    -- That a turn leaves the directory alone.
    abbrev Stays : Discovery → Discovery × List Action → Type 0
    Stays state r = directory r.0.records id ≡ directory state.records id

    on_hint-Stays : (state : Discovery) (ip : IpAddr) → Stays state (on_hint task now state ip)
    unfolding on_hint beacon
    on_hint-Stays state ip =
        if_elim (Stays state) (not task.has_socket || _) (λ _. refl)
          (λ _.
            if_elim (Stays state)
              (is_within (lookup (swept task now state.beaconed) ip) now beacon_min_interval)
              (λ _. refl) (λ _. refl))

    on_decoded-Stays :
        (state : Discovery) (decoded : Option UdpAnnouncement) (sender : SocketAddr)
        → Stays state (on_decoded task now state decoded sender)
    unfolding on_decoded on_goodbye on_announcement
    on_decoded-Stays state none sender = refl
    on_decoded-Stays state (some decoded) sender =
        if_elim (Stays state) (decoded.instance_id == task.config.instance_id) (λ _. refl)
          (λ _.
            if_elim (Stays state) decoded.bye
              (λ _.
                goodbye_stays state.records decoded sender.ip id
                  (demote_goodbye-Farewell task.texts state.records decoded sender.ip))
              (λ _. refl))

    on_udp_error-Stays : (state : Discovery) → Stays state (on_udp_error task now state)
    unfolding on_udp_error
    on_udp_error-Stays state =
        if_elim (Stays state) (leb max_udp_error_streak _) (λ _. refl) (λ _. refl)

    on_resolved-Stays :
        (state : Discovery) (name : Text) (candidates : Option (List Candidate))
        → Stays state (on_resolved task now state name candidates)
    unfolding on_resolved
    on_resolved-Stays state name none = refl
    on_resolved-Stays state name (some candidates) = refl

    on_change-records :
        (changed : Bool) (state : Discovery) (back : List Action)
        → (on_change task now changed state back).0.records ≡ state.records
    unfolding on_change publish
    on_change-records false state back = refl
    on_change-records true state back = refl

    abbrev Moves : Discovery → Discovery × List Action → Type 0
    Moves state r =
        Move task now state event id (directory state.records id) (directory r.0.records id)

    -- The four cases of what a probe does at an instance id.
    outcome_moves :
        (state : Discovery) (k : ℕ) (candidate : Candidate) (result : Result VerifiedPeer)
        (before after : Option PeerRecord)
        → event ≡ probe_ended k (some result)
        → lookup state.tracker.probes k ≡ some candidate
        → lookup state.records id ≡ before
        → lookup
            (apply_probe_outcome task.texts state.records
              (record { candidate = candidate; result = result })
              task.config.timings.max_failures
              now).0
            id
          ≡ after
        → Move task now state event id (identity_of before) (identity_of after)
    outcome_moves state k candidate result none none e running b a = stays refl
    outcome_moves state k candidate result none (some s) e running b a =
        let v = apply_probe_outcome-Vouches task.texts state.records _ _ now id s b a in
        learns k v.verified (ground (arith, v.accepted)) v.named refl
          (ground (arith, v.fingerprint_is, v.public_key_is))
    outcome_moves state k candidate result (some r) (some s) e running b a =
        let (fingerprint, public_key) =
          apply_probe_outcome-Pins task.texts state.records _ _ now id r s b a in
        stays (ground (arith, fingerprint, public_key))
    outcome_moves state k candidate result (some r) none e running b a =
        let x = apply_probe_outcome-Expels task.texts state.records _ _ now id r b a in
        fails k x.error candidate (ground (arith, x.refused)) x.completed running x.named refl

    on_probe-Moves :
        (state : Discovery) (k : ℕ) (found : Option Candidate)
        (result : Option (Result VerifiedPeer))
        → event ≡ probe_ended k result
        → lookup state.tracker.probes k ≡ found
        → Moves state (on_probe task now state k found result)
    unfolding on_probe on_outcome
    on_probe-Moves state k none result e running = stays refl
    on_probe-Moves state k (some candidate) none e running = stays refl
    on_probe-Moves state k (some candidate) (some result) e running =
        subst
          (λ records.
            Move task now state event id (directory state.records id) (directory records id))
          (sym (on_change-records _ _ _))
          (outcome_moves state k candidate result _ _ e running refl refl)

    passed-Moves :
        (state : Discovery) (found : Option PeerRecord)
        → event ≡ prune_tick
        → lookup state.records id ≡ found
        → Move task now state event id
            (identity_of found)
            (identity_of (passed (is_fresh task now) id found))
    passed-Moves state none e at = stays refl
    passed-Moves state (some r) e at =
        if_elim (λ o. Move task now state event id (identity_of (some r)) (identity_of o))
          (is_fresh task now (id, r)) (λ _. stays refl)
          (λ stale. expires r e at (ground (arith, stale)) refl)

    on_prune-Moves :
        (state : Discovery)
        → distinct (keys state.records) ≡ true
        → event ≡ prune_tick
        → Moves state (on_prune task now state)
    unfolding on_prune
    on_prune-Moves state d e =
        subst
          (λ records.
            Move task now state event id (directory state.records id) (directory records id))
          (sym (on_change-records _ _ _))
          (subst (λ o. Move task now state event id (directory state.records id) (identity_of o))
            (sym (lookup-keep (is_fresh task now) state.records id d))
            (passed-Moves state (lookup state.records id) e refl))

  handle-Moves :
      (state : Discovery) (event : Event) (id : Text)
      → IsSound task state
      → Moves event id state (handle task state now event)
  unfolding handle on_burst on_refresh on_liveness on_removed on_datagram
  handle-Moves state cancel id s = stays refl
  handle-Moves state announce_tick id s = stays refl
  handle-Moves state burst_tick id s = stays refl
  handle-Moves state refresh id s = stays refl
  handle-Moves state liveness_tick id s = stays refl
  handle-Moves state prune_tick id s = on_prune-Moves prune_tick id state s.kept.unique refl
  handle-Moves state mdns_closed id s = stays refl
  handle-Moves state (receive_failed kind) id s =
      stays (on_udp_error-Stays (receive_failed kind) id state)
  handle-Moves state (hint ip) id s = stays (on_hint-Stays (hint ip) id state ip)
  handle-Moves state (datagram payload sender) id s = stays (
      on_decoded-Stays (datagram payload sender) id (record state { udp_error_streak = 0 })
        (decode_announcement task.json payload) sender)
  handle-Moves state (resolved service) id s =
      stays
        (on_resolved-Stays (resolved service) id state service.fullname (mdns_candidates service))
  handle-Moves state (removed service_name) id s = stays refl
  handle-Moves state (probe_ended k result) id s =
      on_probe-Moves (probe_ended k result) id state k (lookup state.tracker.probes k) result refl
        refl

  -- Each turn of the loop, from a sound state, is at each instance id one of four moves: nothing changes
  -- there; a peer that was not there comes in because a probe verified it; a peer leaves because a probe
  -- of it came to its end and failed; or a peer leaves at the prune tick, and its last verification is
  -- then at least as long ago as peers may stay without one. So no
  -- datagram and no mDNS event, forged or not, puts a peer in, takes it out, or changes its keys.
  pub step_refines :
      (state : Discovery) (event : Event) (id : Text)
      → IsSound task state
      → Move task now state event id
          (directory state.records id)
          (directory (step task state now event).0.records id)
  unfolding step
  step_refines state event id s =
      if_elim (Moves event id state) (is_enabled task state event)
        (λ _. handle-Moves state event id s) (λ _. stays refl)
