-- ===== src/Protocol/Offers.antt =====
-- `TransferOffer` of protocol.rs, and the match of a folder's manifest with an offer.
pub mod Acceptance
use ink_hole.Base.{
  ltb, ◌==◌, nat_eq_instance, ℤ, is_negative, int_eq_instance, option_eq_instance, Text, codes, len,
  text_eq_instance, ℕ, String, Bool, true, false, not, ◌||◌, List, [], ◌∷◌, ◌++◌, trim,
}
use ink_hole.Errors.{
  CoreError, Result, ok, err, invalid_transfer, plain, with_number, refuse_if, ◌>>=◌, ◌>>◌,
}
use ink_hole.Protocol.Hex.{valid_blake3, valid_instance_id}
use ink_hole.Protocol.Authentication.{quic_protocol_version}
use ink_hole.Protocol.Manifest.{
  TransferKind, file, folder_v1, FolderManifest, max_file_size, validate,
}
use ink_hole.Protocol.Signatures.{DeviceSummary, Signatures, check_signature}

pub record TransferOffer : Type 0 where
  pub protocol_version : ℕ
  pub transfer_id : Text
  pub filename : Text
  pub kind : TransferKind
  pub size : ℕ
  pub modified_ms : ℤ
  pub blake3 : Text
  pub sender : DeviceSummary
  pub signature : Text

-- What is signed: all but the signature.
pub record SignableOffer : Type 0 where
  pub protocol_version : ℕ
  pub transfer_id : Text
  pub filename : Text
  pub kind : TransferKind
  pub size : ℕ
  pub modified_ms : ℤ
  pub blake3 : Text
  pub sender : DeviceSummary

-- The domain ends in a NUL byte.
abbrev pub offer_signature_domain : List ℕ
offer_signature_domain = codes "inkhole/quic/offer/v2" ++ 0 ∷ []

abbrev pub folder_manifest_domain : List ℕ
folder_manifest_domain = codes "inkhole/quic/folder-manifest/v1" ++ 0 ∷ []

abbrev refused : String → CoreError
refused message = invalid_transfer (plain message)

unfoldable pub signable_offer : TransferOffer → SignableOffer
signable_offer offer = record {
  protocol_version = offer.protocol_version;
  transfer_id = offer.transfer_id;
  filename = offer.filename;
  kind = offer.kind;
  size = offer.size;
  modified_ms = offer.modified_ms;
  blake3 = offer.blake3;
  sender = offer.sender;
}

-- `TransferOffer::new`; the id and the digest are given as the texts that the code makes of them.
unfoldable pub new_offer : Text → Text → ℕ → ℤ → Text → DeviceSummary → TransferOffer
new_offer transfer_id filename size modified_ms digest sender = record {
  protocol_version = quic_protocol_version;
  transfer_id = transfer_id;
  filename = filename;
  kind = file;
  size = size;
  modified_ms = modified_ms;
  blake3 = digest;
  sender = sender;
  signature = [];
}

-- `parse_str` is `Uuid::parse_str`, reduced to whether it succeeds, and `to_vec` is serde_json's.
module _ (parse_str : Text → Bool) (to_vec : SignableOffer → Result (List ℕ))
    (signatures : Signatures) where
  unfoldable pub offer_signing_bytes : TransferOffer → Result (List ℕ)
  unfolding signable_offer
  offer_signing_bytes offer = do
    encoded ← to_vec (signable_offer offer)
    ok (offer_signature_domain ++ encoded)

  -- The tests before the signature.
  unfoldable pub check_offer_fields : TransferOffer → Result (Unit {0})
  check_offer_fields offer = do
    refuse_if (not (offer.protocol_version == quic_protocol_version)) (
        invalid_transfer
          (with_number "unsupported QUIC protocol version {}" offer.protocol_version))
    refuse_if (not (parse_str offer.transfer_id)) (refused "invalid transfer_id")
    refuse_if (ltb 4096 (len offer.filename)) (refused "filename is too long")
    refuse_if (ltb max_file_size offer.size) (refused "file is too large")
    refuse_if (is_negative offer.modified_ms) (refused "modified_ms cannot be negative")
    refuse_if (not (valid_blake3 offer.blake3)) (refused "invalid BLAKE3 digest")
    refuse_if (not (valid_instance_id offer.sender.instance_id))
        (refused "invalid sender instance id")
    refuse_if (trim offer.sender.name == [] || ltb 255 (len offer.sender.name))
        (refused "invalid sender name")

  -- `TransferOffer::validate`.
  unfoldable pub validate_transfer : TransferOffer → Result (Unit {0})
  validate_transfer offer = do
    check_offer_fields offer
    check_signature signatures refused "invalid sender public key" "invalid offer signature"
        "offer signature verification failed" offer.sender.public_key offer.signature
        (offer_signing_bytes offer)

abbrev is_folder : TransferKind → Bool
is_folder file = false
is_folder folder_v1 = true

-- `hash_hex` is the hexadecimal text of the BLAKE3 hash.
module _ (nfc : Text → Text) (to_lowercase : ℕ → Text)
    (manifest_json : FolderManifest → Result (List ℕ)) (hash_hex : List ℕ → Text) where
  unfoldable pub digest : FolderManifest → Result Text
  digest manifest = do
    _ ← validate nfc to_lowercase manifest
    encoded ← manifest_json manifest
    ok (hash_hex (folder_manifest_domain ++ encoded))

  -- `FolderManifest::validate_offer`: the tests of one condition, in their order.
  unfoldable pub validate_offer : FolderManifest → TransferOffer → Result (Unit {0})
  validate_offer manifest offer = do
    let mismatch = refused "folder manifest does not match its offer"
    refuse_if (not (is_folder offer.kind)) mismatch
    size ← validate nfc to_lowercase manifest
    refuse_if (not (size == offer.size)) mismatch
    hash ← digest manifest
    refuse_if (not (hash == offer.blake3)) mismatch
