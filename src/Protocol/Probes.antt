-- ===== src/Protocol/Probes.antt =====
-- `PeerProbeRequest` and `PeerProbeResponse` of protocol.rs: by these a peer shows, without the
-- shared secret, that it holds the key and the certificate that discovery announced.
pub mod Separation
pub mod Acceptance
use ink_hole.Base.{
  ltb, ◌==◌, nat_eq_instance, int_eq_instance, option_eq_instance, Text, codes, len,
  text_eq_instance, ℕ, String, Bool, false, not, ◌||◌, Option, none, some, List, [], ◌∷◌, ◌++◌,
  trim, texts_eq,
}
use ink_hole.Errors.{
  CoreError, Result, ok, err, invalid_identity, fingerprint_mismatch, plain, with_number, refuse_if,
  ◌>>=◌, ◌>>◌,
}
use ink_hole.Protocol.Hex.{valid_blake3, valid_instance_id, valid_hex_nonce}
use ink_hole.Protocol.Capabilities.{max_identity_field, normalize_capabilities}
use ink_hole.Protocol.Signatures.{DeviceSummary, Signatures, check_signature}

abbrev pub lan_discovery_protocol_version : ℕ
lan_discovery_protocol_version = 5

abbrev pub peer_probe_request_type : Text
peer_probe_request_type = codes "peer_probe"

abbrev pub peer_probe_response_type : Text
peer_probe_response_type = codes "peer_probe_response"

abbrev pub probe_nonce_bytes : ℕ
probe_nonce_bytes = 32

-- The domain ends in a NUL byte.
abbrev pub probe_signature_domain : List ℕ
probe_signature_domain = codes "inkhole/quic/peer-probe/v2" ++ 0 ∷ []

pub record PeerProbeRequest : Type 0 where
  pub frame_type : Text
  pub protocol_version : ℕ
  pub nonce : Text

pub record PeerProbeResponse : Type 0 where
  pub frame_type : Text
  pub protocol_version : ℕ
  pub nonce : Text
  pub instance_id : Text
  pub peer_name : Text
  pub capabilities : List Text
  pub public_key : Text
  pub certificate_fingerprint : Text
  pub signature : Text

-- What is signed: all but the type and the signature.
pub record SignableProbe : Type 0 where
  pub protocol_version : ℕ
  pub nonce : Text
  pub instance_id : Text
  pub peer_name : Text
  pub capabilities : List Text
  pub public_key : Text
  pub certificate_fingerprint : Text

abbrev refused : String → CoreError
refused message = invalid_identity (plain message)

valid_probe_nonce : Text → Bool
valid_probe_nonce value = valid_hex_nonce value probe_nonce_bytes

-- The argument is the text of 32 random bytes.
unfoldable pub new_probe : Text → PeerProbeRequest
new_probe nonce = record {
  frame_type = peer_probe_request_type;
  protocol_version = lan_discovery_protocol_version;
  nonce = nonce;
}

unfoldable pub validate_probe : PeerProbeRequest → Result (Unit {0})
unfolding valid_probe_nonce
validate_probe request = do
  refuse_if (not (request.frame_type == peer_probe_request_type))
      (refused "invalid peer probe frame type")
  refuse_if (not (request.protocol_version == lan_discovery_protocol_version)) (
      invalid_identity
        (with_number "unsupported peer probe protocol version {}" request.protocol_version))
  refuse_if (not (valid_probe_nonce request.nonce)) (refused "invalid peer probe nonce")

-- `PeerProbeResponse::unsigned`.
unfoldable pub unsigned :
    PeerProbeRequest → DeviceSummary → Text → List Text → Result PeerProbeResponse
unsigned request identity certificate_fingerprint capabilities = do
  validate_probe request
  normalized ← normalize_capabilities capabilities
  ok (record {
    frame_type = peer_probe_response_type;
    protocol_version = request.protocol_version;
    nonce = request.nonce;
    instance_id = identity.instance_id;
    peer_name = identity.name;
    capabilities = normalized;
    public_key = identity.public_key;
    certificate_fingerprint = certificate_fingerprint;
    signature = [];
  })

unfoldable pub signable_probe : PeerProbeResponse → SignableProbe
signable_probe response = record {
  protocol_version = response.protocol_version;
  nonce = response.nonce;
  instance_id = response.instance_id;
  peer_name = response.peer_name;
  capabilities = response.capabilities;
  public_key = response.public_key;
  certificate_fingerprint = response.certificate_fingerprint;
}

-- The test on an expected instance id, if there is one.
abbrev is_another_instance : Option Text → Text → Bool
is_another_instance none instance_id = false
is_another_instance (some expected) instance_id =
    not (valid_instance_id expected) || not (instance_id == expected)

-- The tests of `validate` before the capabilities.
unfoldable pub check_probe_fields :
    PeerProbeRequest → Option Text → PeerProbeResponse → Result (Unit {0})
check_probe_fields request expected_instance_id response = do
  refuse_if (not (response.frame_type == peer_probe_response_type))
      (refused "invalid peer probe response type")
  refuse_if
      (not (response.protocol_version == request.protocol_version)
        || not (response.nonce == request.nonce))
      (refused "peer probe challenge mismatch")
  refuse_if (not (valid_instance_id response.instance_id)) (refused "invalid peer instance id")
  refuse_if (is_another_instance expected_instance_id response.instance_id)
      (refused "peer instance id mismatch")
  refuse_if
      (not (trim response.peer_name == response.peer_name)
        || response.peer_name == []
        || ltb max_identity_field (len response.peer_name))
      (refused "invalid peer name")

unfoldable pub check_capabilities : List Text → Result (Unit {0})
check_capabilities capabilities = do
  normalized ← normalize_capabilities capabilities
  refuse_if (not (texts_eq normalized capabilities)) (refused "peer capabilities are not canonical")

unfoldable pub check_fingerprint : Text → Text → Result (Unit {0})
check_fingerprint certificate_fingerprint expected_fingerprint =
    refuse_if
      (not (valid_blake3 certificate_fingerprint)
        || not (valid_blake3 expected_fingerprint)
        || not (certificate_fingerprint == expected_fingerprint))
      fingerprint_mismatch

-- `to_vec` is serde_json's.
module _ (to_vec : SignableProbe → Result (List ℕ)) (signatures : Signatures) where
  unfoldable pub probe_signing_bytes : PeerProbeResponse → Result (List ℕ)
  unfolding signable_probe
  probe_signing_bytes response = do
    encoded ← to_vec (signable_probe response)
    ok (probe_signature_domain ++ encoded)

  -- `PeerProbeResponse::validate`.
  unfoldable pub validate_response :
      PeerProbeResponse → PeerProbeRequest → Option Text → Text → Result (Unit {0})
  validate_response response request expected_instance_id expected_fingerprint = do
    validate_probe request
    check_probe_fields request expected_instance_id response
    check_capabilities response.capabilities
    check_fingerprint response.certificate_fingerprint expected_fingerprint
    check_signature signatures refused "invalid peer public key" "invalid peer probe signature"
        "peer probe signature verification failed" response.public_key response.signature
        (probe_signing_bytes response)
