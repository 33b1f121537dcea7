-- ===== src/Tests/Discovery.antt =====
-- Discovery at concrete inputs: one device hears of another one, verifies it, is told that it goes, and
-- drops it in the end.
use ink_hole.Base.{
  nat_eq_instance, All, int_eq_instance, option_eq_instance, Text, codes, utf8, bytes, len, text_eq,
  text_eq_instance, ℕ, ◌≡◌, refl, ◌≢◌, Bool, true, false, none, some, List, [], ◌∷◌, ◌++◌, arith,
  trim_end, trim_step, trim, trim_start, is_whitespace, lookup, insert_by, sort_by, trim_step,
}
use ink_hole.Errors.{ok}
use ink_hole.Protocol.Hex.{valid_blake3, valid_instance_id}
use ink_hole.Discovery.Addresses.{v4, SocketAddr}
use ink_hole.Discovery.Announcements.{
  checked_announcement, announcement_of, encode_announcement, decode_announcement,
}
use ink_hole.Discovery.Announcements.RoundTrip.{decode_announcement-encode_announcement}
use ink_hole.Discovery.Config.{
  UdpDiscoveryConfig, default_timings, normal_targets, trimmed_config, check_config, check_targets,
  validate_config, dedup,
}
use ink_hole.Discovery.Config.Normal.{IsNormal, validate_config-IsNormal}
use ink_hole.Discovery.Registry.{
  VerifiedPeer, new_record, apply_probe_outcome, apply_result, apply_verified, snapshot_of,
}
use ink_hole.Discovery.Tracker.{schedule_probe, schedule_all, spawned}
use ink_hole.Discovery.Handlers.{
  Discovery, Task, start, on_datagram, on_decoded, on_announcement, on_probe, on_outcome, on_change,
  publish,
}
use ink_hole.Discovery.Loop.{
  Event, datagram, probe_ended, prune_tick, cancel, is_enabled, handle, step, loop_end, Leads,
  onward, here, any_event, run,
}
use ink_hole.Discovery.Loop.Soundness.{IsSound, start-IsSound}
use ink_hole.Discovery.Loop.Soundness.Step.{step-IsSound}
use ink_hole.Discovery.Loop.Refinement.{Move, directory, step_refines}
use ink_hole.Discovery.Loop.Liveness.{
  IsSeenBy, is_quiet, reached-IsSound, prune_empties, run_published,
}
use ink_hole.Tests.Instances.{ids, json, put, texts, times}

abbrev pub at_port : ℕ → ℕ → SocketAddr
at_port bits port = record { ip = v4 bits; port = port }

abbrev pub here_id : Text
here_id = times 32 b'a'

abbrev pub there_id : Text
there_id = times 32 b'b'

abbrev pub print : Text
print = times 64 b'c'

abbrev given : UdpDiscoveryConfig
given = record {
  enable_udp = true;
  enable_mdns = false;
  bind_address = at_port 0 41301;
  targets = at_port 7 9 ∷ at_port 5 9 ∷ at_port 7 9 ∷ [];
  instance_id = codes " " ++ here_id;
  quic_port = 443;
  certificate_fingerprint = print;
  shared_secret = [];
  timings = default_timings;
}

abbrev config : UdpDiscoveryConfig
config = record given { instance_id = here_id; targets = at_port 5 9 ∷ at_port 7 9 ∷ [] }

given_ok : validate_config given ≡ ok config
unfolding validate_config trimmed_config check_config check_targets normal_targets dedup sort_by
    insert_by valid_instance_id valid_blake3 len bytes utf8 text_eq trim trim_start trim_end
    trim_step is_whitespace
given_ok = refl

validate_config-IsNormal_example : IsNormal config
validate_config-IsNormal_example = validate_config-IsNormal given config given_ok

abbrev payload : List ℕ
payload = put (record {
  magic = codes "inkhole-lan-v1";
  version = 5;
  instance_id = here_id;
  port = 443;
  fingerprint = print;
  reply = false;
  bye = false;
})

encoded : encode_announcement json config false false ≡ ok payload
unfolding encode_announcement announcement_of
encoded = refl

decode_announcement-encode_announcement_example :
    decode_announcement json payload ≡ some (announcement_of config false false)
decode_announcement-encode_announcement_example =
    decode_announcement-encode_announcement json given config false false payload given_ok
      (omega arith) encoded

abbrev task : Task
task = record {
  config = config;
  has_socket = true;
  announcement = payload;
  reply = [];
  goodbye = [];
  texts = texts;
  ids = ids;
  json = json;
  to_lowercase = λ s. s;
}

abbrev hello : Bool → List ℕ
hello bye = put (record {
  magic = codes "inkhole-lan-v1";
  version = 5;
  instance_id = there_id;
  port = 4433;
  fingerprint = print;
  reply = false;
  bye = bye;
})

abbrev verified : VerifiedPeer
verified = record {
  address = at_port 9 4433;
  instance_id = there_id;
  name = codes "Bob";
  capabilities = [];
  public_key = codes "key";
  certificate_fingerprint = print;
}

abbrev heard : Event
heard = datagram (hello false) (at_port 9 41301)

abbrev answered : Event
answered = probe_ended 0 (some (ok verified))

abbrev leaves : Event
leaves = datagram (hello true) (at_port 9 41301)

abbrev probing : Discovery
probing = (step task (start false) 1 heard).0

abbrev known : Discovery
known = (step task probing 2 answered).0

abbrev leaving : Discovery
leaving = (step task known 3 leaves).0

probe_began : lookup probing.tracker.probes 0 ≢ none
unfolding step is_enabled handle on_datagram on_decoded on_announcement decode_announcement
    checked_announcement schedule_all schedule_probe spawned valid_instance_id valid_blake3 len
    bytes utf8 text_eq
probe_began h = cc

enlisted : directory known.records there_id ≡ some (print, codes "key")
unfolding step is_enabled handle on_datagram on_decoded on_announcement decode_announcement
    checked_announcement schedule_all schedule_probe spawned valid_instance_id valid_blake3 len
    bytes utf8 text_eq on_probe on_outcome on_change publish apply_probe_outcome apply_result
    apply_verified new_record
enlisted = refl

probing-IsSound : IsSound task probing
probing-IsSound = step-IsSound task 1 (start false) heard (start-IsSound task false)

known-IsSound : IsSound task known
known-IsSound = step-IsSound task 2 probing answered probing-IsSound

path : Leads task any_event (start false) leaving
unfolding loop_end
path =
    onward 1 heard refl refl (onward 2 answered refl refl (onward 3 leaves refl refl (here refl)))

reached-IsSound_example : IsSound task leaving
reached-IsSound_example = reached-IsSound task false path

step_refines_example :
    Move task 2 probing answered there_id
      (directory probing.records there_id)
      (directory known.records there_id)
step_refines_example = step_refines task 2 probing answered there_id probing-IsSound

quiet_path : Leads task is_quiet known leaving
unfolding loop_end
quiet_path = onward 3 leaves refl refl (here refl)

seen : All (IsSeenBy 2) known.records
unfolding step is_enabled handle on_datagram on_decoded on_announcement decode_announcement
    checked_announcement schedule_all schedule_probe spawned valid_instance_id valid_blake3 len
    bytes utf8 text_eq on_probe on_outcome on_change publish apply_probe_outcome apply_result
    apply_verified new_record
seen = (omega arith, tt)

abbrev late : ℕ
late = 12_000_000_002

prune_empties_example :
    ((step task leaving late prune_tick).0.records ≡ [])
    × ((step task leaving late prune_tick).0.published ≡ [])
prune_empties_example = prune_empties task 2 late known-IsSound seen quiet_path (omega arith)

abbrev events : List (ℕ × Event)
events = (1, heard) ∷ (2, answered) ∷ (3, leaves) ∷ (4, cancel) ∷ []

run_published_example :
    (run task (start false) events).0.published
    ≡ snapshot_of (λ s. s) (run task (start false) events).0.records
run_published_example = run_published task false events
