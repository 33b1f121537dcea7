-- ===== src/Protocol/Offers/Acceptance.antt =====
-- Which offers are accepted, and what an accepted one binds its sender to.
use ink_hole.Base.{
  ◌==◌, nat_eq_instance, is_negative, int_eq_instance, option_eq_instance, Text, len, text_eq,
  text_eq_iff, text_eq_instance, ℕ, ◌≤◌, ◌≡◌, refl, ap, ◌∙◌, ◌↔◌, Bool, true, false, not, List, [],
  arith, trim,
}
use ink_hole.Errors.{Result, ok, >>=-eq-ok, refuse-eq-ok, refuse_if-eq-ok, then-eq-ok}
use ink_hole.Protocol.Hex.{valid_blake3, valid_instance_id}
use ink_hole.Protocol.Authentication.{quic_protocol_version}
use ink_hole.Protocol.Manifest.{
  TransferKind, file, folder_v1, FolderManifest, max_file_size, validate,
}
use ink_hole.Protocol.Signatures.{
  Signatures, IsSigned, check_signature-eq-ok, check_signature-IsSigned,
}
use ink_hole.Protocol.Offers.{
  TransferOffer, SignableOffer, offer_signing_bytes, check_offer_fields, validate_transfer, digest,
  validate_offer, is_folder, refused,
}

module _ (parse_str : Text → Bool) (to_vec : SignableOffer → Result (List ℕ))
    (signatures : Signatures) where
  -- What the fields of an acceptable offer satisfy.
  pub record HasFields (offer : TransferOffer) : Type 0 where
    pub version : offer.protocol_version ≡ quic_protocol_version
    pub has_id : parse_str offer.transfer_id ≡ true
    pub filename_bound : len offer.filename ≤ 4096
    pub size_bound : offer.size ≤ max_file_size
    pub modified_natural : is_negative offer.modified_ms ≡ false
    pub has_digest : valid_blake3 offer.blake3 ≡ true
    pub has_instance : valid_instance_id offer.sender.instance_id ≡ true
    pub name_visible : text_eq (trim offer.sender.name) [] ≡ false
    pub name_bound : len offer.sender.name ≤ 255

  fields-HasFields :
      (offer : TransferOffer)
      → check_offer_fields parse_str to_vec signatures offer ≡ ok tt
      → HasFields offer
  unfolding check_offer_fields
  fields-HasFields offer h = record {
    version = ground arith;
    has_id = ground arith;
    filename_bound = ground arith;
    size_bound = ground arith;
    modified_natural = ground arith;
    has_digest = ground arith;
    has_instance = ground arith;
    name_visible = ground arith;
    name_bound = ground arith;
  }

  HasFields-fields :
      (offer : TransferOffer)
      → HasFields offer
      → check_offer_fields parse_str to_vec signatures offer ≡ ok tt
  unfolding check_offer_fields
  HasFields-fields offer f = ground (
    arith, f.version, f.has_id, f.filename_bound, f.size_bound, f.modified_natural, f.has_digest,
    f.has_instance, f.name_visible, f.name_bound,
  )

  -- An offer is accepted exactly if its fields are within their bounds and its signature is one of
  -- all its other fields by the key that it names.
  pub validate_transfer_iff :
      (offer : TransferOffer)
      → (validate_transfer parse_str to_vec signatures offer ≡ ok tt) ↔ (
          HasFields offer
          × (message : List ℕ) × (offer_signing_bytes parse_str to_vec signatures offer
              ≡ ok message)
          × IsSigned signatures offer.sender.public_key offer.signature message)
  unfolding validate_transfer
  validate_transfer_iff offer = (
    λ h.
        let (fields, signed) =
          then-eq-ok (check_offer_fields parse_str to_vec signatures offer) _ h in
        let (message, made, by) =
          check_signature-eq-ok signatures refused _ _ _ offer.sender.public_key offer.signature
            (offer_signing_bytes parse_str to_vec signatures offer) signed in
        (fields-HasFields offer fields, message, made, by),
    λ (fields, message, made, signed).
        rw (HasFields-fields offer fields, made)
          (check_signature-IsSigned signatures refused _ _ _ offer.sender.public_key offer.signature
            message signed),
  )

folder_kind : (kind : TransferKind) → not (is_folder kind) ≡ false → kind ≡ folder_v1
folder_kind file h = cc
folder_kind folder_v1 h = refl

size_of : (m n : ℕ) → not (m == n) ≡ false → m ≡ n
size_of m n h = ground arith

hash_of : (s t : Text) → not (s == t) ≡ false → s ≡ t
hash_of s t h = (text_eq_iff s t).0 (ground arith)

same_number : (n : ℕ) → (n == n) ≡ true
same_number n = ground arith

same_text : (s : Text) → (s == s) ≡ true
same_text s = (text_eq_iff s s).1 refl

module _ (nfc : Text → Text) (to_lowercase : ℕ → Text)
    (manifest_json : FolderManifest → Result (List ℕ)) (hash_hex : List ℕ → Text) where
  -- A manifest matches an offer exactly if the offer is of a folder, the manifest is valid and has
  -- the offered size, and its digest is the offered one.
  pub validate_offer_iff :
      (manifest : FolderManifest) (offer : TransferOffer)
      → (validate_offer nfc to_lowercase manifest_json hash_hex manifest offer ≡ ok tt) ↔ (
          (offer.kind ≡ folder_v1)
          × (validate nfc to_lowercase manifest ≡ ok offer.size)
          × (digest nfc to_lowercase manifest_json hash_hex manifest ≡ ok offer.blake3))
  unfolding validate_offer
  validate_offer_iff manifest offer = (
    λ h.
        let (kind, h1) = refuse-eq-ok (not (is_folder offer.kind)) _ _ h in
        let (size, valid, h2) = >>=-eq-ok (validate nfc to_lowercase manifest) _ h1 in
        let (same_size, h3) = refuse-eq-ok (not (size == offer.size)) _ _ h2 in
        let (hash, hashed, h4) =
          >>=-eq-ok (digest nfc to_lowercase manifest_json hash_hex manifest) _ h3 in
        let same_hash = refuse_if-eq-ok (not (hash == offer.blake3)) _ h4 in
        (
          folder_kind offer.kind kind,
          valid ∙ ap ok (size_of size offer.size same_size),
          hashed ∙ ap ok (hash_of hash offer.blake3 same_hash),
        ),
    λ (kind, valid, hashed).
        rw (kind, valid, same_number offer.size, hashed, same_text offer.blake3),
  )
