-- ===== src/Tests/Signed.antt =====
-- Runs of offers, probes and capabilities of protocol.rs.
use ink_hole.Base.{
  nat_eq_instance, length, pos, int_eq_instance, option_eq_instance, Text, codes, len, text_lt, has,
  text_eq, text_eq_instance, ℕ, zero, suc, ◌≡◌, refl, ◌↔◌, Bool, true, some, List, [], ◌∷◌, ◌++◌,
  trim_end, trim_step, trim, trim_start, is_whitespace, trim_step,
}
use ink_hole.Errors.{Result, ok}
use ink_hole.Protocol.Hex.{valid_blake3, valid_instance_id, valid_hex_nonce}
use ink_hole.Protocol.Authentication.{quic_protocol_version}
use ink_hole.Protocol.Capabilities.{
  normalize_capabilities, trim_all, sort, insert, dedup, push_distinct,
}
use ink_hole.Protocol.Manifest.{folder_v1, FolderManifest, validate}
use ink_hole.Identity.{validate_metadata, summary}
use ink_hole.Protocol.Signatures.{DeviceSummary, Signatures, check_signature, IsSigned, array_of}
use ink_hole.Protocol.Offers.{
  TransferOffer, SignableOffer, offer_signature_domain, signable_offer, offer_signing_bytes,
  check_offer_fields, validate_transfer, digest, validate_offer,
}
use ink_hole.Protocol.Offers.Acceptance.{HasFields, validate_transfer_iff, validate_offer_iff}
use ink_hole.Protocol.Probes.{
  PeerProbeRequest, PeerProbeResponse, SignableProbe, new_probe, validate_probe, unsigned,
  probe_signing_bytes, probe_signature_domain, validate_response,
}
use ink_hole.Protocol.Probes.Acceptance.{
  Answers, validate_response_sound, validate_response-unsigned,
}

abbrev capabilities : List Text
capabilities = codes " relay" ∷ codes "folder" ∷ codes "relay" ∷ []

abbrev canonical : List Text
canonical = codes "folder" ∷ codes "relay" ∷ []

normalized : normalize_capabilities capabilities ≡ ok canonical
unfolding normalize_capabilities trim_all sort insert dedup push_distinct trim trim_start trim_end
    trim_step is_whitespace len text_eq text_lt
normalized = refl

-- A text is its own decoding here, and a signature repeats the length of the message.
abbrev signatures : Signatures
signatures = record {
  base64_decode = λ text. some text;
  from_bytes = λ key. true;
  verify = λ key message signature. has (length message) signature;
}

abbrev repeat : ℕ → ℕ → Text
repeat zero c = []
repeat (suc n) c = c ∷ repeat n c

abbrev sender : DeviceSummary
sender = record {
  instance_id = codes "0123456789abcdef0123456789abcdef";
  name = codes "Laptop";
  public_key = repeat 32 b'k';
}

abbrev hash : Text
hash = codes "0123456789abcdef0123456789abcdef0123456789abcdef0123456789abcdef"

abbrev offer : TransferOffer
offer = record {
  protocol_version = quic_protocol_version;
  transfer_id = codes "id";
  filename = codes "one.jpg";
  kind = folder_v1;
  size = 0;
  modified_ms = pos 5;
  blake3 = hash;
  sender = sender;
  signature = repeat 64 23;
}

abbrev offer_json : SignableOffer → Result (List ℕ)
offer_json o = ok (o.size ∷ [])

abbrev parse_str : Text → Bool
parse_str text = true

validate_transfer_iff_example :
    (validate_transfer parse_str offer_json signatures offer ≡ ok tt) ↔ (
      HasFields parse_str offer_json signatures offer
      × (message : List ℕ) × (offer_signing_bytes parse_str offer_json signatures offer
          ≡ ok message)
      × IsSigned signatures offer.sender.public_key offer.signature message)
validate_transfer_iff_example = validate_transfer_iff parse_str offer_json signatures offer

-- It is indeed accepted.
offer_accepted : validate_transfer parse_str offer_json signatures offer ≡ ok tt
unfolding validate_transfer check_offer_fields check_signature array_of offer_signing_bytes
    valid_blake3 valid_instance_id trim trim_start trim_end trim_step is_whitespace len text_eq
offer_accepted = refl

abbrev empty_folder : FolderManifest
empty_folder = record { version = 1; entries = [] }

abbrev nfc : Text → Text
nfc s = s

abbrev to_lowercase : ℕ → Text
to_lowercase c = c ∷ []

abbrev manifest_json : FolderManifest → Result (List ℕ)
manifest_json m = ok (7 ∷ [])

abbrev hash_hex : List ℕ → Text
hash_hex bs = hash

validate_offer_iff_example :
    (validate_offer nfc to_lowercase manifest_json hash_hex empty_folder offer ≡ ok tt) ↔ (
      (folder_v1 ≡ folder_v1)
      × (validate nfc to_lowercase empty_folder ≡ ok 0)
      × (digest nfc to_lowercase manifest_json hash_hex empty_folder ≡ ok hash))
validate_offer_iff_example =
    validate_offer_iff nfc to_lowercase manifest_json hash_hex empty_folder offer

abbrev probe : PeerProbeRequest
probe = new_probe hash

abbrev response : PeerProbeResponse
response = record {
  frame_type = codes "peer_probe_response";
  protocol_version = 5;
  nonce = hash;
  instance_id = sender.instance_id;
  peer_name = sender.name;
  capabilities = canonical;
  public_key = sender.public_key;
  certificate_fingerprint = hash;
  signature = [];
}

abbrev signed : PeerProbeResponse
signed = record response { signature = repeat 64 28 }

abbrev probe_json : SignableProbe → Result (List ℕ)
probe_json p = ok (7 ∷ [])

response_made : unsigned probe sender hash capabilities ≡ ok response
unfolding unsigned new_probe validate_probe normalize_capabilities trim_all sort insert dedup
    push_distinct trim trim_start trim_end trim_step is_whitespace len text_eq text_lt
    valid_hex_nonce
response_made = refl

abbrev message : List ℕ
message = probe_signature_domain ++ 7 ∷ []

message_made : probe_signing_bytes probe_json signatures signed ≡ ok message
unfolding probe_signing_bytes
message_made = refl

response-IsSigned : IsSigned signatures sender.public_key (repeat 64 28) message
response-IsSigned = record {
  key = repeat 32 b'k';
  signed = repeat 64 28;
  key_decoded = refl;
  signature_decoded = refl;
  key_length = refl;
  signature_length = refl;
  key_valid = refl;
  verified = refl;
}

names_accepted :
    validate_metadata (some sender.instance_id) [] (codes " Laptop ")
    ≡ ok (sender.instance_id, sender.name)
unfolding validate_metadata valid_instance_id trim trim_start trim_end trim_step is_whitespace len
    text_eq
names_accepted = refl

validate_response-unsigned_example :
    validate_response probe_json signatures signed probe (some sender.instance_id) hash ≡ ok tt
unfolding valid_blake3 len summary
validate_response-unsigned_example =
    validate_response-unsigned probe_json signatures (some sender.instance_id) [] (codes " Laptop ")
      sender.instance_id sender.name sender.public_key probe hash (repeat 64 28) capabilities
      response message names_accepted response_made refl message_made response-IsSigned

validate_response_sound_example :
    Answers probe (some sender.instance_id) hash signed
    × (m : List ℕ) × (probe_signing_bytes probe_json signatures signed ≡ ok m)
    × IsSigned signatures signed.public_key signed.signature m
validate_response_sound_example =
    validate_response_sound probe_json signatures signed probe (some sender.instance_id) hash
      validate_response-unsigned_example

offer_bytes :
    offer_signing_bytes parse_str offer_json signatures offer
    ≡ ok (offer_signature_domain ++ 0 ∷ [])
unfolding offer_signing_bytes signable_offer
offer_bytes = refl
