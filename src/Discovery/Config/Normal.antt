-- ===== src/Discovery/Config/Normal.antt =====
-- What a config of discovery.rs is once it has been checked.
use ink_hole.Base.{
  nat_eq, Bool-cases, nat_eq_instance, any, int_eq_instance, option_eq_instance, text_eq_instance,
  ℕ, ◌≡◌, refl, ap, subst, ◌∙◌, inl, inr, Bool, true, false, not, ◌&&◌, ◌||◌, List, [], ◌∷◌, arith,
  if_elim, insert_by, sort_by,
}
use ink_hole.Errors.{ok, invalid_request, plain, refuse-eq-ok, ok-inj}
use ink_hole.Protocol.Hex.{valid_blake3, valid_instance_id}
use ink_hole.Discovery.Addresses.{
  IpAddr, v4, v6, SocketAddr, socket_eq, socket_eq_iff, socket_lt, socket_eq_instance, is_ipv4,
}
use ink_hole.Discovery.Config.{
  UdpDiscoveryConfig, dedup, is_bad_target, or_broadcast, normal_targets, has_zero, check_targets,
  trimmed_config, check_config, validate_config,
}

-- Each element before the next.
abbrev pub ascending : List SocketAddr → Bool
ascending [] = true
ascending (x ∷ []) = true
ascending (x ∷ y ∷ ys) = socket_lt x y && ascending (y ∷ ys)

-- Each element not behind the next.
abbrev sorted : List SocketAddr → Bool
sorted [] = true
sorted (x ∷ []) = true
sorted (x ∷ y ∷ ys) = not (socket_lt y x) && sorted (y ∷ ys)

socket_lt_asym : (a b : SocketAddr) → socket_lt a b ≡ true → socket_lt b a ≡ false
socket_lt_asym a b h = asym a.ip b.ip a.port b.port h
  where
    asym :
        (i j : IpAddr) (p q : ℕ)
        → socket_lt (record { ip = i; port = p }) (record { ip = j; port = q }) ≡ true
        → socket_lt (record { ip = j; port = q }) (record { ip = i; port = p }) ≡ false
    asym (v4 x) (v4 y) p q h = ground arith
    asym (v4 x) (v6 y) p q h = ground arith
    asym (v6 x) (v4 y) p q h = ground arith
    asym (v6 x) (v6 y) p q h = ground arith

socket_lt_total :
    (a b : SocketAddr) → socket_lt b a ≡ false → socket_eq a b ≡ false → socket_lt a b ≡ true
socket_lt_total a b h k = total a.ip b.ip a.port b.port h k
  where
    total :
        (i j : IpAddr) (p q : ℕ)
        → socket_lt (record { ip = j; port = q }) (record { ip = i; port = p }) ≡ false
        → socket_eq (record { ip = i; port = p }) (record { ip = j; port = q }) ≡ false
        → socket_lt (record { ip = i; port = p }) (record { ip = j; port = q }) ≡ true
    total (v4 x) (v4 y) p q h k = ground arith
    total (v4 x) (v6 y) p q h k = ground arith
    total (v6 x) (v4 y) p q h k = ground arith
    total (v6 x) (v6 y) p q h k = ground arith

sorted-insert_by :
    (x : SocketAddr) (ys : List SocketAddr)
    → sorted ys ≡ true
    → sorted (insert_by socket_lt x ys) ≡ true
unfolding insert_by
sorted-insert_by x [] h = refl
sorted-insert_by x (y ∷ []) h = ground (arith, socket_lt_asym y x)
sorted-insert_by x (y ∷ z ∷ zs) h = ground (arith, sorted-insert_by x (z ∷ zs), socket_lt_asym y x)

sorted-sort_by : (xs : List SocketAddr) → sorted (sort_by socket_lt xs) ≡ true
unfolding sort_by
sorted-sort_by [] = refl
sorted-sort_by (x ∷ xs) = sorted-insert_by x (sort_by socket_lt xs) (sorted-sort_by xs)

-- `dedup` leaves the first element first.
dedup_head :
    (x : SocketAddr) (xs : List SocketAddr) → (rest : List SocketAddr) × (dedup (x ∷ xs) ≡ x ∷ rest)
unfolding dedup
dedup_head x [] = ([], refl)
dedup_head x (y ∷ ys) =
    let (rest, e) = dedup_head y ys in
    elim (Bool-cases (socket_eq x y)) [
      | inl same ↦ (rest, ground (arith, e, socket_eq_iff x y))
      | inr apart ↦ (dedup (y ∷ ys), ground arith)
    ]

ascending-dedup : (xs : List SocketAddr) → sorted xs ≡ true → ascending (dedup xs) ≡ true
unfolding dedup
ascending-dedup [] h = refl
ascending-dedup (x ∷ []) h = refl
ascending-dedup (x ∷ y ∷ ys) h =
    let (rest, e) = dedup_head y ys in
    let later = ascending-dedup (y ∷ ys) (ground arith) in
    if_elim (λ zs. ascending zs ≡ true) (socket_eq x y) (λ _. later)
      (λ apart. ground (arith, e, later, socket_lt_total x y))

any-insert_by :
    (p : SocketAddr → Bool) (x : SocketAddr) (ys : List SocketAddr)
    → any p (insert_by socket_lt x ys) ≡ (p x || any p ys)
unfolding insert_by
any-insert_by p x [] = refl
any-insert_by p x (y ∷ ys) = ground (arith, any-insert_by p x ys)

any-sort_by :
    (p : SocketAddr → Bool) (xs : List SocketAddr) → any p (sort_by socket_lt xs) ≡ any p xs
unfolding sort_by
any-sort_by p [] = refl
any-sort_by p (x ∷ xs) = ground (arith, any-insert_by p x (sort_by socket_lt xs), any-sort_by p xs)

any-dedup :
    (p : SocketAddr → Bool) (xs : List SocketAddr) → any p xs ≡ false → any p (dedup xs) ≡ false
unfolding dedup
any-dedup p [] h = refl
any-dedup p (x ∷ []) h = h
any-dedup p (x ∷ y ∷ ys) h = ground (arith, any-dedup p (y ∷ ys))

abbrev pub is_usable_list : List SocketAddr → Bool
is_usable_list [] = false
is_usable_list (x ∷ xs) = not (any is_bad_target (x ∷ xs)) && ascending (x ∷ xs)

usable_of :
    (xs rest : List SocketAddr) (x : SocketAddr)
    → xs ≡ x ∷ rest
    → any is_bad_target xs ≡ false
    → ascending xs ≡ true
    → is_usable_list xs ≡ true
usable_of xs rest x e h k = ground (arith, e)

sort_by-nonempty :
    (x : SocketAddr) (ys : List SocketAddr)
    → (y : SocketAddr) × (rest : List SocketAddr) × (insert_by socket_lt x ys ≡ y ∷ rest)
unfolding insert_by
sort_by-nonempty x [] = (x, [], refl)
sort_by-nonempty x (y ∷ ys) =
    if_elim (λ zs. (z : SocketAddr) × (rest : List SocketAddr) × (zs ≡ z ∷ rest)) (socket_lt y x)
      (λ _. (y, insert_by socket_lt x ys, refl)) (λ _. (x, y ∷ ys, refl))

usable_dedup :
    (xs : List SocketAddr)
    → any is_bad_target xs ≡ false
    → ((y : SocketAddr) × (rest : List SocketAddr) × (sort_by socket_lt xs ≡ y ∷ rest))
    → is_usable_list (dedup (sort_by socket_lt xs)) ≡ true
usable_dedup xs h (y, rest, e) =
    let (after, e2) = dedup_head y rest in
    usable_of (dedup (sort_by socket_lt xs)) after y (ap dedup e ∙ e2)
      (any-dedup is_bad_target (sort_by socket_lt xs) (any-sort_by is_bad_target xs ∙ h))
      (ascending-dedup (sort_by socket_lt xs) (sorted-sort_by xs))

normal_targets-usable :
    (xs : List SocketAddr)
    → any is_bad_target xs ≡ false
    → is_usable_list (normal_targets xs) ≡ true
unfolding normal_targets sort_by
normal_targets-usable [] h = usable_dedup (or_broadcast []) refl (sort_by-nonempty _ [])
normal_targets-usable (x ∷ xs) h =
    usable_dedup (x ∷ xs) h (sort_by-nonempty x (sort_by socket_lt xs))

-- A config that is fit to run discovery with.
pub record IsNormal (config : UdpDiscoveryConfig) : Type 0 where
  pub has_transport : (config.enable_udp || config.enable_mdns) ≡ true
  pub binds_v4 : (not config.enable_udp || is_ipv4 config.bind_address.ip) ≡ true
  pub has_instance : valid_instance_id config.instance_id ≡ true
  pub has_port : nat_eq config.quic_port 0 ≡ false
  pub has_fingerprint : valid_blake3 config.certificate_fingerprint ≡ true
  pub timings_positive : has_zero config.timings ≡ false
  pub has_targets : (not config.enable_udp || is_usable_list config.targets) ≡ true

checked-IsNormal :
    (config : UdpDiscoveryConfig)
    → (not config.enable_udp && not config.enable_mdns) ≡ false
    → (config.enable_udp && not (is_ipv4 config.bind_address.ip)) ≡ false
    → not (valid_instance_id config.instance_id) ≡ false
    → nat_eq config.quic_port 0 ≡ false
    → not (valid_blake3 config.certificate_fingerprint) ≡ false
    → has_zero config.timings ≡ false
    → (not config.enable_udp || is_usable_list config.targets) ≡ true
    → IsNormal config
checked-IsNormal config a b c d e f g = record {
  has_transport = ground arith;
  binds_v4 = ground arith;
  has_instance = ground arith;
  has_port = d;
  has_fingerprint = ground arith;
  timings_positive = f;
  has_targets = g;
}

check_targets-cases :
    (config checked : UdpDiscoveryConfig)
    → check_targets config ≡ ok checked
    → (targets : List SocketAddr) × (record config { targets = targets } ≡ checked)
      × ((not config.enable_udp || is_usable_list targets) ≡ true)
unfolding check_targets
check_targets-cases config checked h = elim (Bool-cases config.enable_udp) [
  | inl udp ↦
      let (good, e) =
        refuse-eq-ok (any is_bad_target config.targets)
          (invalid_request (plain "invalid IPv4 UDP discovery target"))
          (ok (record config { targets = normal_targets config.targets })) {a = checked}
          (ground (arith, udp)) in
      (
        normal_targets config.targets,
        ok-inj e,
        ground (arith, normal_targets-usable config.targets good),
      )
  | inr no_udp ↦ (config.targets, ok-inj (ground (arith, no_udp)), ground arith)
]

check_config-IsNormal :
    (config checked : UdpDiscoveryConfig) → check_config config ≡ ok checked → IsNormal checked
unfolding check_config
check_config-IsNormal config checked h =
    let (a, h1) = refuse-eq-ok (not config.enable_udp && not config.enable_mdns) _ _ h in
    let (b, h2) = refuse-eq-ok (config.enable_udp && not (is_ipv4 config.bind_address.ip)) _ _ h1 in
    let (c, h3) = refuse-eq-ok (not (valid_instance_id config.instance_id)) _ _ h2 in
    let (d, h4) = refuse-eq-ok (nat_eq config.quic_port 0) _ _ h3 in
    let (e, h5) = refuse-eq-ok (not (valid_blake3 config.certificate_fingerprint)) _ _ h4 in
    let (f, h6) = refuse-eq-ok (has_zero config.timings) _ _ h5 in
    let (targets, same, usable) = check_targets-cases config checked h6 in
    subst IsNormal same (checked-IsNormal (record config { targets = targets }) a b c d e f usable)

-- A config that passes the check has a transport, an IPv4 address to bind where it uses UDP, a valid
-- instance id, port and fingerprint, no time or count of 0, and, where it uses UDP, at least one target,
-- all of them IPv4 addresses that can be sent to, in ascending order and each once.
pub validate_config-IsNormal :
    (config checked : UdpDiscoveryConfig) → validate_config config ≡ ok checked → IsNormal checked
unfolding validate_config
validate_config-IsNormal config checked h = check_config-IsNormal (trimmed_config config) checked h
