-- ===== src/Protocol/Manifest.antt =====
-- `FolderManifest` of protocol.rs and its validation.
pub mod Spec
pub mod Tree
pub mod Order
use mathlib.Core.List.{flat_map}
use ink_hole.Base.{
  ltb, nat_eq, if◌then◌else◌, ◌==◌, nat_eq_instance, length, any, contains, ℤ, is_negative,
  int_eq_instance, checked_add, option_eq_instance, Text, text_lt, rsplit_once, text_eq_instance, ℕ,
  ◌^◌, String, Bool, false, not, ◌||◌, Option, none, some, List, [], ◌∷◌, map,
}
use ink_hole.Errors.{
  CoreError, Result, ok, invalid_transfer, plain, with_number, refuse_if, or_fail, ◌>>=◌, ◌>>◌,
}
use ink_hole.Protocol.Hex.{valid_blake3}
use ink_hole.Protocol.Paths.{validate_folder_relative_path}

pub data TransferKind : Type 0 where
  file folder_v1 : TransferKind

pub data FolderEntryKind : Type 0 where
  file directory : FolderEntryKind

pub record FolderEntry : Type 0 where
  pub path : Text
  pub kind : FolderEntryKind
  pub size : ℕ
  pub modified_ms : ℤ
  pub blake3 : Text

pub record FolderManifest : Type 0 where
  pub version : ℕ
  pub entries : List FolderEntry

abbrev pub max_file_size : ℕ
max_file_size = 2 ^ 40

abbrev pub max_folder_entries : ℕ
max_folder_entries = 100_000

-- `match_indices('/')`: what stands before each separator.
unfoldable pub folder_ancestors : Text → List Text
folder_ancestors [] = []
folder_ancestors (c ∷ s) =
    let rest = map (◌∷◌ c) (folder_ancestors s) in if nat_eq c b'/' then [] ∷ rest else rest

-- What the loop of `validate` carries from entry to entry.
pub record Progress : Type 0 where
  pub previous_path : Option Text
  pub canonical_paths : List Text
  pub file_paths : List Text
  pub total_size : ℕ

abbrev pub start : Progress
start = record { previous_path = none; canonical_paths = []; file_paths = []; total_size = 0 }

abbrev transfer_error : String → CoreError
transfer_error message = invalid_transfer (plain message)

abbrev is_unsorted : Option Text → Text → Bool
is_unsorted none path = false
is_unsorted (some previous) path = not (text_lt previous path)

abbrev is_orphan : Option (Text × Text) → List Text → Bool
is_orphan none canonical_paths = false
is_orphan (some (parent, _)) canonical_paths = not (contains canonical_paths parent)

-- The `match entry.kind`.
unfoldable pub check_metadata : FolderEntryKind → FolderEntry → Text → Progress → Result Progress
check_metadata file entry canonical progress = do
  refuse_if (ltb max_file_size entry.size || not (valid_blake3 entry.blake3))
      (transfer_error "invalid folder file metadata")
  total_size ←
      or_fail (checked_add progress.total_size entry.size) (transfer_error "folder size overflow")
  refuse_if (ltb max_file_size total_size) (transfer_error "folder is too large")
  ok (record progress { total_size = total_size; file_paths = canonical ∷ progress.file_paths })
check_metadata directory entry canonical progress = do
  refuse_if (not (entry.size == 0) || not (entry.blake3 == []))
      (transfer_error "invalid folder directory metadata")
  ok progress

-- `nfc` is `UnicodeNormalization::nfc`, and `to_lowercase` is `char::to_lowercase`.
module _ (nfc : Text → Text) (to_lowercase : ℕ → Text) where
  unfoldable pub canonical_folder_path : Text → Text
  canonical_folder_path path = flat_map to_lowercase (nfc path)

  -- The body of the loop.
  unfoldable pub check_entry : Progress → FolderEntry → Result Progress
  unfolding check_metadata
  check_entry progress entry = do
    let canonical = canonical_folder_path entry.path
    validate_folder_relative_path entry.path
    refuse_if (is_unsorted progress.previous_path entry.path)
        (transfer_error "folder manifest paths are not strictly sorted")
    refuse_if (is_orphan (rsplit_once b'/' canonical) progress.canonical_paths)
        (transfer_error "folder manifest is missing a parent directory")
    refuse_if (contains progress.canonical_paths canonical)
        (transfer_error "folder contains a cross-platform duplicate path")
    refuse_if (any (contains progress.file_paths) (folder_ancestors canonical))
        (transfer_error "folder entry is nested below a file")
    refuse_if (is_negative entry.modified_ms)
        (transfer_error "folder entry modified_ms cannot be negative")
    check_metadata entry.kind entry canonical (record progress {
      previous_path = some entry.path;
      canonical_paths = canonical ∷ progress.canonical_paths;
    })

  unfoldable pub check_entries : Progress → List FolderEntry → Result Progress
  check_entries progress [] = ok progress
  check_entries progress (entry ∷ entries) = do
    next ← check_entry progress entry
    check_entries next entries

  unfoldable pub validate : FolderManifest → Result ℕ
  validate manifest = do
    refuse_if (not (manifest.version == 1))
        (invalid_transfer (with_number "unsupported folder manifest version {}" manifest.version))
    refuse_if (ltb max_folder_entries (length manifest.entries))
        (transfer_error "folder contains too many entries")
    progress ← check_entries start manifest.entries
    ok progress.total_size
