-- ===== src/Discovery/Handlers.antt =====
-- The branches of the loop `run_discovery` in discovery.rs: the state it keeps, and what each event
-- does to it, sends and publishes.
use ink_hole.Base.{
  ltb, leb, if◌then◌else◌, ◌==◌, nat_eq_instance, length, any, contains, int_eq_instance,
  option_eq_instance, keep, Text, codes, text_eq_instance, ℕ, ◌+◌, ◌-◌, ◌*◌, ◌^◌, Bool, true, false,
  not, ◌||◌, Option, none, some, List, [], ◌∷◌, ◌++◌, map, lookup, insert, remove,
}
use ink_hole.Errors.{Result, ok, err}
use ink_hole.Discovery.Addresses.{
  IpAddr, ip_eq_instance, SocketAddr, socket_eq_instance, AddressTexts,
}
use ink_hole.Discovery.Announcements.{UdpAnnouncement, AnnouncementJson, decode_announcement}
use ink_hole.Discovery.Config.{UdpDiscoveryConfig}
use ink_hole.Discovery.Candidates.{CandidateKey, key_eq_instance, Candidate}
use ink_hole.Discovery.Registry.{
  Records, PeerRecord, DiscoveredPeer, VerifiedPeer, apply_probe_outcome, record_candidates,
  demote_goodbye, snapshot_of,
}
use ink_hole.Discovery.Tracker.{
  ProbeTracker, TaskIds, new_tracker, is_within, release, release_lost, schedule_all, retry_all,
}

abbrev pub max_udp_error_streak : ℕ
max_udp_error_streak = 50

-- 20 seconds.
abbrev pub beacon_min_interval : ℕ
beacon_min_interval = 20_000_000_000

-- The variables of the loop. `published` is what the watch channel holds.
pub record Discovery : Type 0 where
  pub records : Records
  pub tracker : ProbeTracker
  pub udp_error_streak : ℕ
  pub mdns_services : List (Text × List CandidateKey)
  pub mdns_event_stream_open : Bool
  pub beaconed : List (IpAddr × ℕ)
  pub burst_remaining : ℕ
  pub published : List DiscoveredPeer

pub data Action : Type 0 where
  sends : (payload : List ℕ) (target : SocketAddr) → Action
  publishes : (peers : List DiscoveredPeer) → Action
  -- `UDP_ERROR_BACKOFF`.
  backs_off : Action

-- What the loop is given: the checked config, whether it has a socket, the encoded announcements, and
-- what it uses of other code.
pub record Task : Type 0 where
  pub config : UdpDiscoveryConfig
  pub has_socket : Bool
  pub announcement : List ℕ
  pub reply : List ℕ
  pub goodbye : List ℕ
  pub texts : AddressTexts
  pub ids : TaskIds
  pub json : AnnouncementJson
  pub to_lowercase : Text → Text

abbrev pub send_to_targets : List ℕ → List SocketAddr → List Action
send_to_targets payload targets = map (sends payload) targets

abbrev pub start : Bool → Discovery
start has_mdns = record {
  records = [];
  tracker = new_tracker;
  udp_error_streak = 0;
  mdns_services = [];
  mdns_event_stream_open = has_mdns;
  beaconed = [];
  burst_remaining = 0;
  published = [];
}

module _ (task : Task) (now : ℕ) where
  abbrev pub schedule : ProbeTracker → List Candidate → ProbeTracker
  schedule = schedule_all task.ids task.config.timings now

  abbrev pub retry : ProbeTracker → List Candidate → ProbeTracker
  retry = retry_all task.ids task.config.timings now

  -- `records.values().flat_map(record_candidates)`.
  unfoldable pub all_candidates : Records → List Candidate
  all_candidates [] = []
  all_candidates ((id, r) ∷ records) = record_candidates task.texts r ++ all_candidates records

  -- `publish_snapshot`.
  unfoldable pub publish : Discovery → Discovery × List Action
  publish state =
      let peers = snapshot_of task.to_lowercase state.records in
      (record state { published = peers }, publishes peers ∷ [])

  abbrev knows_host : Records → Text → Bool
  knows_host records host =
      any (λ (entry : Text × PeerRecord). contains entry.1.peer.hosts host) records

  abbrev is_recent : IpAddr × ℕ → Bool
  is_recent entry = ltb (now - entry.1) beacon_min_interval

  abbrev pub swept : List (IpAddr × ℕ) → List (IpAddr × ℕ)
  swept beaconed = if ltb 512 (length beaconed) then keep is_recent beaconed else beaconed

  unfoldable pub beacon : Discovery → IpAddr → Discovery × List Action
  beacon state ip =
      let beaconed = swept state.beaconed in
      if is_within (lookup beaconed ip) now beacon_min_interval
      then (record state { beaconed = beaconed }, [])
      else (
        record state { beaconed = insert beaconed ip now },
        send_to_targets task.announcement
            (record { ip = ip; port = task.config.bind_address.port } ∷ []),
      )

  unfoldable pub on_hint : Discovery → IpAddr → Discovery × List Action
  on_hint state ip =
      if not task.has_socket || knows_host state.records (task.texts.to_string ip)
      then (state, [])
      else beacon state ip

  unfoldable pub on_refresh : Discovery → Discovery × List Action
  on_refresh state = (
    record state {
      burst_remaining =
          if task.has_socket then task.config.timings.refresh_burst else state.burst_remaining;
      tracker = retry state.tracker (all_candidates state.records);
    },
    [],
  )

  unfoldable pub on_burst : Discovery → Discovery × List Action
  on_burst state = (
    record state { burst_remaining = state.burst_remaining - 1 },
    send_to_targets task.announcement task.config.targets,
  )

  unfoldable pub on_goodbye : Discovery → UdpAnnouncement → SocketAddr → Discovery × List Action
  on_goodbye state decoded sender =
      let (records, candidates) = demote_goodbye task.texts state.records decoded sender.ip in
      (record state { records = records; tracker = retry state.tracker candidates }, [])

  abbrev udp_candidate : UdpAnnouncement → SocketAddr → Candidate
  udp_candidate decoded sender = record {
    key = record {
      instance_id = decoded.instance_id;
      address = record { ip = sender.ip; port = decoded.port };
      fingerprint = decoded.fingerprint;
    };
    service_name = codes "udp-v4";
    announce_reply_port = some sender.port;
  }

  unfoldable pub on_announcement :
      Discovery → UdpAnnouncement → SocketAddr → Discovery × List Action
  on_announcement state decoded sender = (
    record state { tracker = schedule state.tracker (udp_candidate decoded sender ∷ []) },
    if decoded.reply then [] else send_to_targets task.reply (sender ∷ []),
  )

  unfoldable pub on_decoded :
      Discovery → Option UdpAnnouncement → SocketAddr → Discovery × List Action
  on_decoded state none sender = (state, [])
  on_decoded state (some decoded) sender =
      if decoded.instance_id == task.config.instance_id
      then (state, [])
      else if decoded.bye
      then on_goodbye state decoded sender
      else on_announcement state decoded sender

  -- `payload` is what the buffer of 2,049 bytes took of the datagram.
  unfoldable pub on_datagram : Discovery → (payload : List ℕ) → SocketAddr → Discovery × List Action
  on_datagram state payload sender =
      on_decoded (record state { udp_error_streak = 0 }) (decode_announcement task.json payload)
        sender

  -- An error of the socket that is not `NotConnected`. The streak is an `u32`.
  unfoldable pub on_udp_error : Discovery → Discovery × List Action
  on_udp_error state =
      let streak =
        if ltb state.udp_error_streak (2 ^ 32 - 1)
        then state.udp_error_streak + 1
        else 2 ^ 32 - 1 in
      if leb max_udp_error_streak streak
      then (record state { udp_error_streak = 0 }, backs_off ∷ [])
      else (record state { udp_error_streak = streak }, [])

  abbrev is_other : Candidate → Bool
  is_other candidate = not (candidate.key.instance_id == task.config.instance_id)

  -- The keys of a hash set into which these go one by one.
  unfoldable pub key_set : List Candidate → List CandidateKey
  key_set [] = []
  key_set (c ∷ cs) = let rest = key_set cs in if contains rest c.key then rest else c.key ∷ rest

  abbrev services_with :
      List (Text × List CandidateKey) → Text → List CandidateKey → List (Text × List CandidateKey)
  services_with services name [] = remove services name
  services_with services name (k ∷ ks) = insert services name (k ∷ ks)

  unfoldable pub on_resolved : Discovery → Text → Option (List Candidate) → Discovery × List Action
  on_resolved state name none = (state, [])
  on_resolved state name (some candidates) =
      let others = keep is_other candidates in
      (
        record state {
          tracker = schedule state.tracker others;
          mdns_services = services_with state.mdns_services name (key_set others);
        },
        [],
      )

  abbrev is_of_service : Text → Text × PeerRecord → Bool
  is_of_service name entry = entry.1.peer.service_name == name

  abbrev keys_of : Option (List CandidateKey) → List CandidateKey
  keys_of none = []
  keys_of (some ks) = ks

  -- `extend` of a hash set.
  unfoldable pub extended : List CandidateKey → List Candidate → List CandidateKey
  extended ks [] = ks
  extended ks (c ∷ cs) = extended (if contains ks c.key then ks else c.key ∷ ks) cs

  abbrev removed_candidate : Text → CandidateKey → Candidate
  removed_candidate name key = record { key = key; service_name = name; announce_reply_port = none }

  unfoldable pub on_removed : Discovery → Text → Discovery × List Action
  on_removed state name =
      let of_service = all_candidates (keep (is_of_service name) state.records) in
      let candidates = extended (keys_of (lookup state.mdns_services name)) of_service in
      (
        record state {
          mdns_services = remove state.mdns_services name;
          tracker = retry state.tracker (map (removed_candidate name) candidates);
        },
        [],
      )

  -- The address of a peer that was verified and is not in the table.
  abbrev newly_verified_ip : Records → Result VerifiedPeer → Option IpAddr
  newly_verified_ip records (err error) = none
  newly_verified_ip records (ok verified) = elim (lookup records verified.instance_id) [
    | none ↦ some verified.address.ip
    | some r ↦ none
  ]

  abbrev reply_port : Candidate → ℕ
  reply_port candidate = elim candidate.announce_reply_port [
    | none ↦ task.config.bind_address.port
    | some port ↦ port
  ]

  abbrev announce_back : Option IpAddr → ℕ → List Action
  announce_back none port = []
  announce_back (some ip) port =
      if task.has_socket
      then send_to_targets task.announcement (record { ip = ip; port = port } ∷ [])
      else []

  -- What follows a change of the table.
  unfoldable pub on_change : Bool → Discovery → List Action → Discovery × List Action
  unfolding publish
  on_change false state back = (state, [])
  on_change true state back = ((publish state).0, (publish state).1 ++ back)

  unfoldable pub on_outcome :
      Discovery → (id : ℕ) → Candidate → Result VerifiedPeer → Discovery × List Action
  on_outcome state id candidate result =
      let applied =
        apply_probe_outcome task.texts state.records
          (record { candidate = candidate; result = result }) task.config.timings.max_failures
          now in
      on_change applied.1
        (record state { records = applied.0; tracker = release state.tracker id candidate })
        (announce_back (newly_verified_ip state.records result) (reply_port candidate))

  -- A probe task has ended, with a result unless it panicked or was aborted. The set of tasks knows it.
  unfoldable pub on_probe :
      Discovery
      → (id : ℕ) → Option Candidate
      → Option (Result VerifiedPeer)
      → Discovery × List Action
  on_probe state id none result = (state, [])
  on_probe state id (some candidate) none =
      (record state { tracker = release_lost state.tracker id }, [])
  on_probe state id (some candidate) (some result) = on_outcome state id candidate result

  unfoldable pub on_liveness : Discovery → Discovery × List Action
  on_liveness state =
      (record state { tracker = schedule state.tracker (all_candidates state.records) }, [])

  abbrev pub is_fresh : Text × PeerRecord → Bool
  is_fresh entry = ltb (now - entry.1.last_verified) task.config.timings.stale_after

  abbrev pub is_remembered : CandidateKey × ℕ → Bool
  is_remembered entry = ltb (now - entry.1) (task.config.timings.stale_after * 2)

  unfoldable pub on_prune : Discovery → Discovery × List Action
  on_prune state =
      let pruned = record state {
        records = keep is_fresh state.records;
        tracker = record state.tracker {
          last_attempt = keep is_remembered state.tracker.last_attempt;
        };
      } in
      on_change (not (length pruned.records == length state.records)) pruned []
