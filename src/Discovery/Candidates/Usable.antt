-- ===== src/Discovery/Candidates/Usable.antt =====
-- Which candidates a resolved mDNS service gives in discovery.rs.
use ink_hole.Base.{
  ltb, nat_eq, if◌then◌else◌, Bool-cases, ◌==◌, nat_eq_instance, beq_self, All, contains,
  int_eq_instance, option_eq_instance, keep, Text, codes, text_eq_instance, ℕ, ◌≡◌, refl, subst,
  inl, inr, Bool, true, false, not, ◌&&◌, Option, none, some, List, [], ◌∷◌, map, arith, if_elim,
  lookup, sort_by, contains-sort_by,
}
use ink_hole.Protocol.Hex.{valid_blake3, valid_instance_id}
use ink_hole.Discovery.Addresses.{IpAddr, v4, SocketAddr, is_multicast_v4, broadcast}
use ink_hole.Discovery.Candidates.{
  ◌>>=◌, Candidate, ResolvedService, is_foreign_service, is_usable_v4, mdns_candidate,
  usable_candidates, mdns_texts_refused, property_candidates, mdns_candidates,
}

-- An address of one host that the service was announced for.
abbrev pub is_host_ip : ResolvedService → IpAddr → Bool
is_host_ip service (v4 bits) =
    contains service.addresses_v4 bits
    && not (bits == 0)
    && not (is_multicast_v4 bits)
    && not (bits == broadcast)
is_host_ip service (IpAddr.v6 bits) = false

abbrev pub is_host_address : ResolvedService → SocketAddr → Bool
is_host_address service address =
    address.port == service.port && not (address.port == 0) && is_host_ip service address.ip

pub record IsUsable (service : ResolvedService) (candidate : Candidate) : Type 0 where
  pub has_instance : valid_instance_id candidate.key.instance_id ≡ true
  pub has_fingerprint : valid_blake3 candidate.key.fingerprint ≡ true
  pub address_ok : is_host_address service candidate.key.address ≡ true
  pub service_is : candidate.service_name ≡ service.fullname

module _ (service : ResolvedService) (id fingerprint : Text)
    (has_instance : valid_instance_id id ≡ true) (has_fingerprint : valid_blake3 fingerprint ≡ true)
    (has_port : nat_eq service.port 0 ≡ false) where
  mapped-IsUsable :
      (addresses : List ℕ)
      → ((a : ℕ) → contains addresses a ≡ true → contains service.addresses_v4 a ≡ true)
      → All
          (IsUsable service)
          (map (mdns_candidate service id fingerprint) (keep is_usable_v4 addresses))
  mapped-IsUsable [] h = tt
  mapped-IsUsable (a ∷ addresses) h =
      if_elim (λ xs. All (IsUsable service) (map (mdns_candidate service id fingerprint) xs))
        (is_usable_v4 a)
        (λ usable. (
          record {
            has_instance = has_instance;
            has_fingerprint = has_fingerprint;
            address_ok = ground (arith, h a (ground (arith, beq_self a)));
            service_is = refl;
          },
          mapped-IsUsable addresses (λ b m. h b (ground arith)),
        ))
        (λ _. mapped-IsUsable addresses (λ b m. h b (ground arith)))

  usable_candidates-IsUsable : All (IsUsable service) (usable_candidates service id fingerprint)
  unfolding usable_candidates
  usable_candidates-IsUsable =
      mapped-IsUsable (sort_by ltb service.addresses_v4)
        (λ a m. ground (arith, contains-sort_by ltb service.addresses_v4 a))

checked_candidates :
    (service : ResolvedService) (version id fingerprint transport hash : Text) (cs : List Candidate)
    → nat_eq service.port 0 ≡ false
    → (if mdns_texts_refused version id fingerprint transport hash
        then none
        else some (usable_candidates service id fingerprint))
      ≡ some cs
    → All (IsUsable service) cs
checked_candidates service version id fingerprint transport hash cs port h =
    elim (Bool-cases (mdns_texts_refused version id fingerprint transport hash)) [
      | inl refused ↦ absurd (ground (arith, refused))
      | inr fine ↦
          subst (All (IsUsable service)) (ground (arith, fine))
            (usable_candidates-IsUsable service id fingerprint (ground arith) (ground arith) port)
    ]

property_candidates-IsUsable :
    (service : ResolvedService) (cs : List Candidate)
    → nat_eq service.port 0 ≡ false
    → property_candidates service ≡ some cs
    → All (IsUsable service) cs
unfolding property_candidates
property_candidates-IsUsable service cs port h =
    let property = lookup service.properties in
    found (property (codes "version")) (property (codes "instance_id"))
      (property (codes "fingerprint")) (property (codes "transport")) (property (codes "hash")) h
  where
    found :
        (v i f t h : Option Text)
        → (do
          version ← v
          id ← i
          fingerprint ← f
          transport ← t
          hash ← h
          if mdns_texts_refused version id fingerprint transport hash
              then none
              else some (usable_candidates service id fingerprint))
          ≡ some cs
        → All (IsUsable service) cs
    found none i f t h e = cc
    found (some v) none f t h e = cc
    found (some v) (some i) none t h e = cc
    found (some v) (some i) (some f) none h e = cc
    found (some v) (some i) (some f) (some t) none e = cc
    found (some v) (some i) (some f) (some t) (some h) e =
        checked_candidates service v i f t h cs port e

-- Every candidate that a resolved mDNS service gives has a valid instance id and fingerprint, bears the
-- name of the service, and has an address of it: with the port of the service, which is not 0, and one of
-- its IPv4 addresses, none of them unspecified, multicast or broadcast.
pub mdns_candidates-IsUsable :
    (service : ResolvedService) (cs : List Candidate)
    → mdns_candidates service ≡ some cs
    → All (IsUsable service) cs
unfolding mdns_candidates is_foreign_service
mdns_candidates-IsUsable service cs h = elim (Bool-cases (is_foreign_service service)) [
  | inl foreign ↦ absurd (ground (arith, foreign))
  | inr own ↦ property_candidates-IsUsable service cs (ground arith) (ground (arith, own))
]
