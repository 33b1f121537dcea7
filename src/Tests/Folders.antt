-- ===== src/Tests/Folders.antt =====
-- Runs of the validation of folder manifests of protocol.rs.
use ink_hole.Base.{
  nat_eq_instance, length, pos, int_eq_instance, option_eq_instance, Text, codes, len, text_lt,
  starts_with, ends_with, split, rsplit_once, text_eq, text_eq_instance, ℕ, ◌≤◌, ◌≡◌, refl, ◌↔◌, [],
  ◌∷◌,
}
use mathlib.Core.List.{flat_map}
use ink_hole.Errors.{ok, err, invalid_transfer, plain}
use ink_hole.Protocol.Hex.{valid_blake3}
use ink_hole.Protocol.Names.{is_forbidden, windows_reserved_name}
use ink_hole.Protocol.Paths.{validate_folder_relative_path}
use ink_hole.Protocol.Manifest.{
  FolderManifest, FolderEntry, file, directory, validate, check_entries, check_entry,
  check_metadata, canonical_folder_path, folder_ancestors, max_folder_entries,
}
use ink_hole.Protocol.Manifest.Spec.{validate_iff, IsTree, rev_onto, total}

-- Names in the example are their own normal forms.
abbrev nfc : Text → Text
nfc s = s

abbrev to_lowercase : ℕ → Text
to_lowercase c = c ∷ []

abbrev album : FolderEntry
album = record {
  path = codes "album";
  kind = directory;
  size = 0;
  modified_ms = pos 5;
  blake3 = [];
}

abbrev photo : FolderEntry
photo = record {
  path = codes "album/one";
  kind = file;
  size = 12;
  modified_ms = pos 6;
  blake3 = codes "0123456789abcdef0123456789abcdef0123456789abcdef0123456789abcdef";
}

abbrev manifest : FolderManifest
manifest = record { version = 1; entries = album ∷ photo ∷ [] }

abbrev orphaned : FolderManifest
orphaned = record { version = 1; entries = photo ∷ [] }

manifest_valid : validate nfc to_lowercase manifest ≡ ok 12
unfolding validate check_entries check_entry check_metadata canonical_folder_path folder_ancestors
    validate_folder_relative_path valid_blake3 is_forbidden windows_reserved_name text_eq text_lt
    split starts_with ends_with len rsplit_once flat_map
manifest_valid = refl

orphan_refused :
    validate nfc to_lowercase orphaned
    ≡ err (invalid_transfer (plain "folder manifest is missing a parent directory"))
unfolding validate check_entries check_entry check_metadata canonical_folder_path folder_ancestors
    validate_folder_relative_path valid_blake3 is_forbidden windows_reserved_name text_eq text_lt
    split starts_with ends_with len rsplit_once flat_map
orphan_refused = refl

validate_iff_example : (validate nfc to_lowercase manifest ≡ ok 12) ↔ (
    (manifest.version ≡ 1)
    × (length manifest.entries ≤ max_folder_entries)
    × IsTree nfc to_lowercase (rev_onto manifest.entries [])
    × (12 ≡ total (rev_onto manifest.entries [])))
validate_iff_example = validate_iff nfc to_lowercase manifest 12
