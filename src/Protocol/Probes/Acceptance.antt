-- ===== src/Protocol/Probes/Acceptance.antt =====
-- Which responses to a probe are accepted.
use ink_hole.Base.{
  nat_eq_instance, length, all, int_eq_instance, option_eq_instance, Text, len, text_eq,
  text_eq_iff, text_eq_instance, ℕ, ◌≤◌, ◌≡◌, refl, ap, subst, ◌∙◌, Bool, true, false, not, Option,
  none, some, List, [], arith, trim, texts_eq, texts_eq_iff,
}
use ink_hole.Errors.{Result, ok, >>=-eq-ok, refuse_if-eq-ok, then-eq-ok, ok-inj}
use ink_hole.Protocol.Hex.{valid_blake3, valid_instance_id}
use ink_hole.Protocol.Capabilities.{max_capabilities, max_identity_field, normalize_capabilities}
use ink_hole.Protocol.Capabilities.Order.{ascending}
use ink_hole.Protocol.Capabilities.Canonical.{
  clean, normalize_capabilities_id_iff, normalize_capabilities_idem,
}
use ink_hole.Identity.{validate_metadata, summary, validate_metadata-IsPresentable}
use ink_hole.Protocol.Signatures.{
  DeviceSummary, Signatures, IsSigned, check_signature-eq-ok, check_signature-IsSigned,
}
use ink_hole.Protocol.Probes.{
  PeerProbeRequest, PeerProbeResponse, SignableProbe, validate_probe, unsigned, probe_signing_bytes,
  check_probe_fields, check_capabilities, check_fingerprint, validate_response, refused,
  peer_probe_response_type, is_another_instance,
}

-- What the fields of a response are, given the request and what discovery announced.
pub record Answers (request : PeerProbeRequest) (expected_instance_id : Option Text)
    (expected_fingerprint : Text) (response : PeerProbeResponse) : Type 0 where
  pub same_version : response.protocol_version ≡ request.protocol_version
  pub same_nonce : response.nonce ≡ request.nonce
  pub valid_instance : valid_instance_id response.instance_id ≡ true
  pub same_instance :
      (expected : Text) → expected_instance_id ≡ some expected → response.instance_id ≡ expected
  pub name_trimmed : trim response.peer_name ≡ response.peer_name
  pub name_visible : text_eq response.peer_name [] ≡ false
  pub few_capabilities : length response.capabilities ≤ max_capabilities
  pub clean_capabilities : all clean response.capabilities ≡ true
  pub capabilities_ascending : ascending response.capabilities ≡ true
  pub same_fingerprint : response.certificate_fingerprint ≡ expected_fingerprint

same_instance_of :
    (o : Option Text) (id expected : Text)
    → is_another_instance o id ≡ false
    → o ≡ some expected
    → id ≡ expected
same_instance_of none id expected h e = cc
same_instance_of (some t) id expected h e = ground (arith, text_eq_iff id t)

fields_of :
    (request : PeerProbeRequest) (expected : Option Text) (response : PeerProbeResponse)
    → check_probe_fields request expected response ≡ ok tt
    → (response.protocol_version ≡ request.protocol_version)
      × (response.nonce ≡ request.nonce)
      × (valid_instance_id response.instance_id ≡ true)
      × (is_another_instance expected response.instance_id ≡ false)
      × (trim response.peer_name ≡ response.peer_name)
      × (text_eq response.peer_name [] ≡ false)
unfolding check_probe_fields
fields_of request expected response h = (
  ground arith,
  ground (arith, text_eq_iff response.nonce request.nonce),
  ground arith,
  ground arith,
  ground (arith, text_eq_iff (trim response.peer_name) response.peer_name),
  ground arith,
)

same_fingerprints : (a b : Text) → check_fingerprint a b ≡ ok tt → a ≡ b
unfolding check_fingerprint
same_fingerprints a b h = ground (arith, text_eq_iff a b)

accepted_fingerprint : (a : Text) → valid_blake3 a ≡ true → check_fingerprint a a ≡ ok tt
unfolding check_fingerprint
accepted_fingerprint a h = ground (arith, text_eq_iff a a)

abbrev answer : PeerProbeRequest → DeviceSummary → Text → List Text → Text → PeerProbeResponse
answer request identity fingerprint normalized signature = record {
  frame_type = peer_probe_response_type;
  protocol_version = request.protocol_version;
  nonce = request.nonce;
  instance_id = identity.instance_id;
  peer_name = identity.name;
  capabilities = normalized;
  public_key = identity.public_key;
  certificate_fingerprint = fingerprint;
  signature = signature;
}

-- The fields of a response made by `unsigned` pass.
fields_made :
    (request : PeerProbeRequest) (response : PeerProbeResponse) (id : Text)
    → response.frame_type ≡ peer_probe_response_type
    → response.protocol_version ≡ request.protocol_version
    → response.nonce ≡ request.nonce
    → response.instance_id ≡ id
    → valid_instance_id id ≡ true
    → trim response.peer_name ≡ response.peer_name
    → text_eq response.peer_name [] ≡ false
    → len response.peer_name ≤ max_identity_field
    → check_probe_fields request (some id) response ≡ ok tt
unfolding check_probe_fields
fields_made request response id t v n i j trimmed visible bound = ground (
  arith,
  text_eq_iff response.frame_type peer_probe_response_type,
  text_eq_iff response.nonce request.nonce,
  text_eq_iff response.instance_id id,
  text_eq_iff (trim response.peer_name) response.peer_name,
)

check_capabilities-eq-ok :
    (cs : List Text)
    → check_capabilities cs ≡ ok tt
    → (length cs ≤ max_capabilities) × (all clean cs ≡ true) × (ascending cs ≡ true)
unfolding check_capabilities
check_capabilities-eq-ok cs h =
    let (normalized, n, h1) = >>=-eq-ok (normalize_capabilities cs) _ h in
    let same =
      (texts_eq_iff normalized cs).0
        (not_false (texts_eq normalized cs) (refuse_if-eq-ok _ _ h1)) in
    (normalize_capabilities_id_iff cs).0 (n ∙ ap ok same)
  where
    not_false : (b : Bool) → not b ≡ false → b ≡ true
    not_false true h = refl
    not_false false h = cc

check_capabilities_normal :
    (cs : List Text) → normalize_capabilities cs ≡ ok cs → check_capabilities cs ≡ ok tt
unfolding check_capabilities
check_capabilities_normal cs h = rw (h, (texts_eq_iff cs cs).1 refl)

module _ (to_vec : SignableProbe → Result (List ℕ)) (signatures : Signatures) where
  -- An accepted response answers this very probe, by its nonce; is from the announced device, by
  -- the fingerprint of its certificate and, where one is expected, its instance id; describes it
  -- canonically; and is signed, in all these fields, by the key that it names.
  pub validate_response_sound :
      (response : PeerProbeResponse) (request : PeerProbeRequest)
      (expected_instance_id : Option Text) (expected_fingerprint : Text)
      → validate_response to_vec signatures response request expected_instance_id
          expected_fingerprint
        ≡ ok tt
      → Answers request expected_instance_id expected_fingerprint response
        × (message : List ℕ) × (probe_signing_bytes to_vec signatures response ≡ ok message)
        × IsSigned signatures response.public_key response.signature message
  unfolding validate_response
  validate_response_sound response request expected_instance_id expected_fingerprint h =
      let (_, h1) = then-eq-ok (validate_probe request) _ h in
      let (fields, h2) =
        then-eq-ok (check_probe_fields request expected_instance_id response) _ h1 in
      let (capabilities, h3) = then-eq-ok (check_capabilities response.capabilities) _ h2 in
      let (fingerprint, h4) =
        then-eq-ok (check_fingerprint response.certificate_fingerprint expected_fingerprint) _ h3 in
      let (message, made, by) =
        check_signature-eq-ok signatures refused _ _ _ response.public_key response.signature
          (probe_signing_bytes to_vec signatures response) h4 in
      let (few, tidy, order) = check_capabilities-eq-ok response.capabilities capabilities in
      let (version, nonce, instance, this, trimmed, visible) =
        fields_of request expected_instance_id response fields in
      (
        record {
          same_version = version;
          same_nonce = nonce;
          valid_instance = instance;
          same_instance = λ expected e.
              same_instance_of expected_instance_id response.instance_id expected this e;
          name_trimmed = trimmed;
          name_visible = visible;
          few_capabilities = few;
          clean_capabilities = tidy;
          capabilities_ascending = order;
          same_fingerprint =
              same_fingerprints response.certificate_fingerprint expected_fingerprint fingerprint;
        },
        message,
        made,
        by,
      )

  response_accepted :
      (request : PeerProbeRequest) (identity : DeviceSummary) (fingerprint signature : Text)
      (capabilities : List Text) (response : PeerProbeResponse) (message : List ℕ)
      → unsigned request identity fingerprint capabilities ≡ ok response
      → valid_instance_id identity.instance_id ≡ true
      → (trim identity.name ≡ identity.name)
        × (text_eq identity.name [] ≡ false)
        × (len identity.name ≤ max_identity_field)
      → valid_blake3 fingerprint ≡ true
      → probe_signing_bytes to_vec signatures (record response { signature = signature })
        ≡ ok message
      → IsSigned signatures identity.public_key signature message
      → validate_response to_vec signatures
          (record response { signature = signature })
          request
          (some identity.instance_id)
          fingerprint
        ≡ ok tt
  unfolding validate_response unsigned
  response_accepted request identity fingerprint signature capabilities response message h i n f
        made signed =
      let (v, h1) = then-eq-ok (validate_probe request) _ h in
      let (normalized, normal, e) = >>=-eq-ok (normalize_capabilities capabilities) _ h1 in
      subst
        (λ r.
          probe_signing_bytes to_vec signatures (record r { signature = signature }) ≡ ok message
          → validate_response to_vec signatures (record r { signature = signature }) request
              (some identity.instance_id) fingerprint
            ≡ ok tt)
        (ok-inj e)
        (λ bytes.
          rw
            (
              v,
              fields_made request (answer request identity fingerprint normalized signature)
                  identity.instance_id refl refl refl refl i n.0 n.1 n.2,
              check_capabilities_normal normalized
                  (normalize_capabilities_idem capabilities normalized normal),
              accepted_fingerprint fingerprint f,
              bytes,
            )
            (check_signature-IsSigned signatures refused _ _ _ identity.public_key signature message
              signed))
        made

  -- A response made for a probe by a device whose names were accepted when its identity was made, and
  -- signed with its key, is accepted by the peer that sent the probe, if it expects this instance and
  -- fingerprint.
  pub validate_response-unsigned :
      (requested : Option Text) (fresh peer_name id name key : Text) (request : PeerProbeRequest)
      (fingerprint signature : Text) (capabilities : List Text) (response : PeerProbeResponse)
      (message : List ℕ)
      → validate_metadata requested fresh peer_name ≡ ok (id, name)
      → unsigned request (summary id name key) fingerprint capabilities ≡ ok response
      → valid_blake3 fingerprint ≡ true
      → probe_signing_bytes to_vec signatures (record response { signature = signature })
        ≡ ok message
      → IsSigned signatures key signature message
      → validate_response to_vec signatures
          (record response { signature = signature })
          request
          (some id)
          fingerprint
        ≡ ok tt
  unfolding summary
  validate_response-unsigned requested fresh peer_name id name key request fingerprint signature
        capabilities response message v h f made signed =
      let p = validate_metadata-IsPresentable requested fresh peer_name id name key v in
      response_accepted request (summary id name key) fingerprint signature capabilities response
        message h p.has_instance (p.name_trimmed, p.name_visible, p.name_bound) f made signed
