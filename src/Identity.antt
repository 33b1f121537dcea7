-- ===== src/Identity.antt =====
-- rust/crates/inkhole-core/src/identity.rs: the names under which a device appears to its peers.
use ink_hole.Base.{
  ltb, ◌==◌, nat_eq_instance, int_eq_instance, option_eq_instance, Text, len, text_eq,
  text_eq_instance, ◌≤◌, ◌≡◌, subst, true, false, not, ◌||◌, Option, none, some, [], arith, trim,
  trim-trim,
}
use ink_hole.Errors.{Result, ok, invalid_identity, plain, refuse_if, ◌>>◌, refuse-eq-ok, ok-inj}
use ink_hole.Protocol.Hex.{valid_instance_id}
use ink_hole.Protocol.Capabilities.{max_identity_field}
use ink_hole.Protocol.Signatures.{DeviceSummary}

abbrev requested_or : Option Text → Text → Text
requested_or none fresh = fresh
requested_or (some requested) fresh = requested

-- `fresh` is the text of a new UUID without hyphens.
unfoldable pub validate_metadata : Option Text → (fresh : Text) → Text → Result (Text × Text)
validate_metadata requested_instance_id fresh peer_name = do
  let instance_id = requested_or requested_instance_id fresh
  refuse_if (not (valid_instance_id instance_id)) (invalid_identity (plain "invalid instance id"))
  refuse_if (trim peer_name == [] || ltb 255 (len (trim peer_name)))
      (invalid_identity (plain "invalid peer name"))
  ok (instance_id, trim peer_name)

-- `summary` of an identity with these names and this key in base64.
unfoldable pub summary : Text → Text → Text → DeviceSummary
summary instance_id peer_name public_key = record {
  instance_id = instance_id;
  name = peer_name;
  public_key = public_key;
}

-- That the other peers take the names of a device.
pub record IsPresentable (identity : DeviceSummary) : Type 0 where
  pub has_instance : valid_instance_id identity.instance_id ≡ true
  pub name_trimmed : trim identity.name ≡ identity.name
  pub name_visible : text_eq identity.name [] ≡ false
  pub name_bound : len identity.name ≤ max_identity_field

presentable :
    (id name key : Text)
    → not (valid_instance_id id) ≡ false
    → (trim name == [] || ltb 255 (len (trim name))) ≡ false
    → IsPresentable (summary id (trim name) key)
unfolding summary
presentable id name key h k = record {
  has_instance = ground arith;
  name_trimmed = trim-trim name;
  name_visible = ground arith;
  name_bound = ground arith;
}

-- The names that a new identity is given are such that other peers take its responses to their probes.
pub validate_metadata-IsPresentable :
    (requested : Option Text) (fresh peer_name id name key : Text)
    → validate_metadata requested fresh peer_name ≡ ok (id, name)
    → IsPresentable (summary id name key)
unfolding validate_metadata
validate_metadata-IsPresentable requested fresh peer_name id name key h =
    let (instance, h1) =
      refuse-eq-ok (not (valid_instance_id (requested_or requested fresh))) _ _ h in
    let (named, e) = refuse-eq-ok (trim peer_name == [] || ltb 255 (len (trim peer_name))) _ _ h1 in
    subst (λ r. IsPresentable (summary r.0 r.1 key)) (ok-inj e)
      (presentable (requested_or requested fresh) peer_name key instance named)
