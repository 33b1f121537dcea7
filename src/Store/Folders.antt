-- ===== src/Store/Folders.antt =====
-- The folders of `TransferStore` in state.rs: what it reads and writes on disk for a transfer of a
-- folder. The commit lock makes each operation one step. Failures of the operating system other than
-- missing files are left out, as are times of modification.
pub mod Written
pub mod Prepare
pub mod Finalize
pub mod Files
pub mod Resumed
pub mod Standing
pub mod Loop
pub mod Checkpoint
pub mod Delivery
pub mod Kept
pub mod Outcome
use ink_hole.Base.{
  ◌==◌, nat_eq_instance, int_eq_instance, option_eq_instance, Text, text_eq_instance, ℕ, Bool, true,
  false, not, ◌&&◌, Option, none, some, List, [], ◌∷◌,
}
use ink_hole.Errors.{
  CoreError, Result, ok, err, io, not_found, digest_mismatch, refuse_if, or_fail, ◌>>=◌, ◌>>◌,
}
use ink_hole.Protocol.Paths.{validate_folder_relative_path}
use ink_hole.Protocol.Manifest.{FolderEntryKind, file, directory, FolderEntry, FolderManifest}
use ink_hole.Protocol.Offers.{TransferOffer}
use ink_hole.Store.Destination.{unique_destination, validate_destination_name}
use ink_hole.Store.Disk.{
  StoredOffer, CommitRecord, DoneRecord, CompletedTransfer, stored_offer, ensure_same_offer,
  receipt_of, completed_of,
}
use ink_hole.Store.Tree.{
  Item, regular, folder, special, Tree, bad, Step, ensure_safe_parent_directories,
  create_manifest_directories, validate_folder_contents,
}

-- What stands under a name in the root: a directory, a file or other link, or a link to nothing.
pub data Place : Type 0 where
  tree_at : Tree → Place
  other dangling : Place

pub record FolderDisk : Type 0 where
  pub inbox : Text → Option Place
  pub staging : Option Place
  pub metadata : Option StoredOffer
  pub manifest : Option FolderManifest
  pub commit : Option CommitRecord
  pub done : Option DoneRecord

abbrev pub place_exists : Option Place → Bool
place_exists none = false
place_exists (some (tree_at tree)) = true
place_exists (some other) = true
place_exists (some dangling) = false

-- The tree below a path, if that is a directory.
abbrev pub tree_of : Option Place → Option Tree
tree_of (some (tree_at tree)) = some tree
tree_of (some other) = none
tree_of (some dangling) = none
tree_of none = none

abbrev pub kind_is : FolderEntryKind → FolderEntryKind → Bool
kind_is file file = true
kind_is directory directory = true
kind_is file directory = false
kind_is directory file = false

abbrev pub entry_eq : FolderEntry → FolderEntry → Bool
entry_eq a b =
    a.path == b.path
    && kind_is a.kind b.kind
    && a.size == b.size
    && a.modified_ms == b.modified_ms
    && a.blake3 == b.blake3

abbrev pub entries_eq : List FolderEntry → List FolderEntry → Bool
entries_eq [] [] = true
entries_eq (a ∷ left) (b ∷ right) = entry_eq a b && entries_eq left right
entries_eq [] (b ∷ right) = false
entries_eq (a ∷ left) [] = false

-- `PartialEq` of `FolderManifest`.
abbrev pub manifest_eq : FolderManifest → FolderManifest → Bool
manifest_eq a b = a.version == b.version && entries_eq a.entries b.entries

abbrev pub is_other_manifest : FolderManifest → Option FolderManifest → Bool
is_other_manifest expected none = true
is_other_manifest expected (some actual) = not (manifest_eq actual expected)

unfoldable pub ensure_same_manifest : FolderManifest → Option FolderManifest → Result (Unit {0})
ensure_same_manifest expected actual =
    refuse_if (is_other_manifest expected actual)
      (bad "transfer_id was reused with a different folder manifest")

abbrev pub folder_done : StoredOffer → Text → FolderManifest → DoneRecord
folder_done offer destination manifest = record {
  offer = offer;
  destination = destination;
  receipt = receipt_of offer;
  manifest = some manifest;
}

module _ (hash_hex : List ℕ → Text) (nfc : Text → Text) (to_lowercase : ℕ → Text) where
  unfoldable pub contents_at : FolderDisk → Text → FolderManifest → Result (Unit {0})
  contents_at disk name manifest =
      validate_folder_contents hash_hex nfc to_lowercase (tree_of (disk.inbox name)) manifest
