-- ===== src/Discovery/Config.antt =====
-- The settings of discovery in discovery.rs, and their check. Times are in nanoseconds. The callback
-- for the peers is left out: what it is given is what is published.
pub mod Normal
use ink_hole.Base.{
  if◌then◌else◌, ◌==◌, nat_eq_instance, any, int_eq_instance, option_eq_instance, Text,
  text_eq_instance, ℕ, ◌*◌, Bool, not, ◌&&◌, ◌||◌, List, [], ◌∷◌, trim, sort_by, to_ascii_lowercase,
}
use ink_hole.Errors.{Result, ok, err, invalid_request, invalid_identity, plain, refuse_if, ◌>>◌}
use ink_hole.Protocol.Hex.{valid_blake3, valid_instance_id}
use ink_hole.Discovery.Addresses.{
  IpAddr, v4, SocketAddr, socket_lt, socket_eq_instance, is_ipv4, is_unspecified, broadcast,
}

abbrev pub udp_discovery_port : ℕ
udp_discovery_port = 41301

pub record UdpDiscoveryTimings : Type 0 where
  pub announce_interval : ℕ
  pub refresh_burst_gap : ℕ
  pub refresh_burst : ℕ
  pub probe_timeout : ℕ
  pub min_probe_interval : ℕ
  pub liveness_interval : ℕ
  pub prune_interval : ℕ
  pub stale_after : ℕ
  pub max_failures : ℕ

abbrev seconds : ℕ → ℕ
seconds n = n * 1_000_000_000

abbrev pub default_timings : UdpDiscoveryTimings
default_timings = record {
  announce_interval = seconds 2;
  refresh_burst_gap = 150_000_000;
  refresh_burst = 5;
  probe_timeout = 1_500_000_000;
  min_probe_interval = seconds 1;
  liveness_interval = seconds 4;
  prune_interval = seconds 1;
  stale_after = seconds 12;
  max_failures = 3;
}

pub record UdpDiscoveryConfig : Type 0 where
  pub enable_udp : Bool
  pub enable_mdns : Bool
  pub bind_address : SocketAddr
  pub targets : List SocketAddr
  pub instance_id : Text
  pub quic_port : ℕ
  pub certificate_fingerprint : Text
  pub shared_secret : Text
  pub timings : UdpDiscoveryTimings

-- `Vec::dedup`.
unfoldable pub dedup : List SocketAddr → List SocketAddr
dedup [] = []
dedup (x ∷ []) = x ∷ []
dedup (x ∷ y ∷ ys) = let rest = dedup (y ∷ ys) in if x == y then rest else x ∷ rest

abbrev pub is_bad_target : SocketAddr → Bool
is_bad_target target = not (is_ipv4 target.ip) || target.port == 0 || is_unspecified target.ip

abbrev pub or_broadcast : List SocketAddr → List SocketAddr
or_broadcast [] = record { ip = v4 broadcast; port = udp_discovery_port } ∷ []
or_broadcast (x ∷ xs) = x ∷ xs

unfoldable pub normal_targets : List SocketAddr → List SocketAddr
normal_targets targets = dedup (sort_by socket_lt (or_broadcast targets))

abbrev pub has_zero : UdpDiscoveryTimings → Bool
has_zero timings =
    timings.announce_interval == 0
    || timings.refresh_burst_gap == 0
    || timings.probe_timeout == 0
    || timings.min_probe_interval == 0
    || timings.liveness_interval == 0
    || timings.prune_interval == 0
    || timings.stale_after == 0
    || timings.refresh_burst == 0
    || timings.max_failures == 0

-- The block under `if config.enable_udp`.
unfoldable pub check_targets : UdpDiscoveryConfig → Result UdpDiscoveryConfig
check_targets config =
    if config.enable_udp
    then refuse_if (any is_bad_target config.targets)
        (invalid_request (plain "invalid IPv4 UDP discovery target"))
      >> ok (record config { targets = normal_targets config.targets })
    else ok config

unfoldable pub trimmed_config : UdpDiscoveryConfig → UdpDiscoveryConfig
trimmed_config config = record config {
  instance_id = to_ascii_lowercase (trim config.instance_id);
  certificate_fingerprint = to_ascii_lowercase (trim config.certificate_fingerprint);
}

-- The checks on a config with both texts trimmed.
unfoldable pub check_config : UdpDiscoveryConfig → Result UdpDiscoveryConfig
check_config config = do
  refuse_if (not config.enable_udp && not config.enable_mdns)
      (invalid_request (plain "at least one LAN discovery transport must be enabled"))
  refuse_if (config.enable_udp && not (is_ipv4 config.bind_address.ip))
      (invalid_request (plain "UDP discovery currently requires an IPv4 bind address"))
  refuse_if (not (valid_instance_id config.instance_id))
      (invalid_identity (plain "invalid discovery instance id"))
  refuse_if (config.quic_port == 0) (invalid_request (plain "invalid discovery QUIC port"))
  refuse_if (not (valid_blake3 config.certificate_fingerprint))
      (invalid_identity (plain "invalid discovery certificate fingerprint"))
  refuse_if (has_zero config.timings)
      (invalid_request (plain "invalid LAN discovery timing configuration"))
  check_targets config

-- The config that is left behind where the check succeeds.
unfoldable pub validate_config : UdpDiscoveryConfig → Result UdpDiscoveryConfig
validate_config config = check_config (trimmed_config config)
