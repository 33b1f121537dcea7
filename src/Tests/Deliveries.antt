-- ===== src/Tests/Deliveries.antt =====
-- Transfers of a folder at concrete inputs: one that broke off, and one that is complete.
use ink_hole.Base.{
  if◌then◌else◌, ◌==◌, nat_eq_instance, All, pos, int_eq_instance, option_eq_instance, Text, codes,
  utf8, bytes, len, text_lt, starts_with, ends_with, split, rsplit_once, text_eq, text_eq_instance,
  ℕ, zero, suc, ◌≡◌, refl, ◌≢◌, true, Option, none, some, List, [], ◌∷◌, distinct, lookup, keys,
}
use mathlib.Core.List.{flat_map}
use ink_hole.Errors.{ok, not_found, CoreError}
use ink_hole.Protocol.Hex.{valid_blake3}
use ink_hole.Protocol.Names.{is_forbidden, windows_reserved_name}
use ink_hole.Protocol.Filenames.{safe_filename}
use ink_hole.Protocol.Paths.{validate_folder_relative_path}
use ink_hole.Protocol.Manifest.{
  file, directory, folder_v1, FolderEntry, FolderManifest, folder_ancestors, check_metadata,
  canonical_folder_path, check_entry, check_entries, validate,
}
use ink_hole.Protocol.Offers.{TransferOffer}
use ink_hole.Store.Destination.{unique_destination, split_extension}
use ink_hole.Store.Disk.{CompletedTransfer, stored_offer, completed_of, ensure_same_offer}
use ink_hole.Store.Tree.{
  regular, folder, Tree, make_dir, make_dirs, ensure_safe_parent_directories,
  create_entry_directory, create_manifest_directories, expected_from, check_item, check_items,
  walk_from, walk_folder, validate_folder_contents,
}
use ink_hole.Store.Tree.Contents.{walk_folder-ne-none}
use ink_hole.Store.Tree.Manifested.{StandsIn}
use ink_hole.Store.Folders.{
  FolderDisk, Place, tree_at, other, folder_done, ensure_same_manifest, contents_at,
}
use ink_hole.Store.Folders.Prepare.{
  resume, complete, files_of, ensure_directory, metadata_checks, check_file, visit_file,
  check_files, take_up_folder, with_metadata, with_folder_commit, with_folder_done, prepare_folder,
}
use ink_hole.Store.Folders.Finalize.{
  staged_tree, folder_commit_of, place_folder, folder_record_done, conclude_folder, finalize_tree,
  finalize_folder,
}
use ink_hole.Store.Folders.Files.{receive_file}
use ink_hole.Store.Folders.Resumed.{receive_file_completes}
use ink_hole.Store.Folders.Standing.{IsComplete}
use ink_hole.Transport.Folders.{handle_folder}
use ink_hole.Transport.FolderReceipts.{FolderAnswers, handle_folder-FolderAnswers}
use ink_hole.Store.Folders.Kept.{finalize_folder_keeps}
use ink_hole.Store.Folders.Loop.{IsCheckpoint}
use ink_hole.Store.Folders.Checkpoint.{prepare_folder-IsCheckpoint}
use ink_hole.Store.Folders.Delivery.{finalize_folder_delivers, prepare_folder-finalize_folder}

abbrev nfc : Text → Text
nfc s = s

abbrev to_lowercase : ℕ → Text
to_lowercase c = c ∷ []

abbrev repeated : ℕ → ℕ → Text
repeated zero c = []
repeated (suc n) c = c ∷ repeated n c

abbrev first_hash : Text
first_hash = repeated 64 b'a'

abbrev second_hash : Text
second_hash = repeated 64 b'b'

abbrev hash_hex : List ℕ → Text
hash_hex contents =
    if contents == 7 ∷ 8 ∷ []
    then first_hash
    else if contents == 1 ∷ 2 ∷ 3 ∷ []
    then second_hash
    else []

abbrev dir_entry : FolderEntry
dir_entry = record {
  path = codes "d";
  kind = directory;
  size = 0;
  modified_ms = pos 5;
  blake3 = [];
}

abbrev first : FolderEntry
first = record {
  path = codes "d/1";
  kind = file;
  size = 2;
  modified_ms = pos 5;
  blake3 = first_hash;
}

abbrev second : FolderEntry
second = record {
  path = codes "d/2";
  kind = file;
  size = 3;
  modified_ms = pos 5;
  blake3 = second_hash;
}

abbrev manifest : FolderManifest
manifest = record { version = 1; entries = dir_entry ∷ first ∷ second ∷ [] }

abbrev offer : TransferOffer
offer = record {
  protocol_version = 2;
  transfer_id = codes "id";
  filename = codes "pics";
  kind = folder_v1;
  size = 5;
  modified_ms = pos 5;
  blake3 = first_hash;
  sender = record { instance_id = codes "a"; name = codes "b"; public_key = codes "c" };
  signature = [];
}

abbrev begun : Tree
begun =
    (codes "d", folder) ∷ (codes "d/1", regular (7 ∷ 8 ∷ [])) ∷ (codes "d/2", regular (1 ∷ [])) ∷ []

abbrev whole : Tree
whole =
    (codes "d", folder)
    ∷ (codes "d/1", regular (7 ∷ 8 ∷ []))
    ∷ (codes "d/2", regular (1 ∷ 2 ∷ 3 ∷ []))
    ∷ []

-- Something else has the name already.
abbrev inbox : Text → Option Place
inbox name = if name == codes "old" then some other else none

abbrev disk_with : Tree → FolderDisk
disk_with tree = record {
  inbox = inbox;
  staging = some (tree_at tree);
  metadata = some (stored_offer offer);
  manifest = some manifest;
  commit = none;
  done = none;
}

manifest_valid : validate nfc to_lowercase manifest ≡ ok 5
unfolding validate check_entries check_entry check_metadata canonical_folder_path folder_ancestors
    validate_folder_relative_path valid_blake3 is_forbidden windows_reserved_name text_eq text_lt
    split starts_with ends_with len bytes utf8 rsplit_once flat_map
manifest_valid = refl

abbrev resumed : FolderDisk
resumed = disk_with begun

taken_up :
    prepare_folder hash_hex nfc to_lowercase offer manifest (ok tt) (disk_with begun)
    ≡ (ok (resume 1 1 2), resumed)
unfolding prepare_folder with_folder_done with_folder_commit with_metadata take_up_folder
    ensure_directory check_files visit_file check_file ensure_safe_parent_directories make_dirs
    make_dir stored_offer safe_filename folder_ancestors validate_folder_relative_path is_forbidden
    windows_reserved_name text_eq split starts_with ends_with rsplit_once metadata_checks
    ensure_same_offer ensure_same_manifest len
taken_up = refl

prepare_folder-IsCheckpoint_example :
    (tree : Tree) × (resumed.staging ≡ some (tree_at tree))
    × IsCheckpoint hash_hex (files_of manifest) 1 1 2 tree
prepare_folder-IsCheckpoint_example =
    prepare_folder-IsCheckpoint nfc to_lowercase hash_hex offer manifest 5 (ok tt) (disk_with begun)
      resumed 1 1 2 manifest_valid taken_up

whole_distinct : distinct (keys whole) ≡ true
unfolding text_eq
whole_distinct = refl

contents_valid : validate_folder_contents hash_hex nfc to_lowercase (some whole) manifest ≡ ok tt
unfolding validate_folder_contents walk_folder walk_from check_items check_item expected_from
    validate check_entries check_entry check_metadata canonical_folder_path folder_ancestors
    validate_folder_relative_path valid_blake3 is_forbidden windows_reserved_name text_eq text_lt
    split starts_with ends_with len bytes utf8 rsplit_once flat_map
contents_valid = refl

walk_folder-ne-none_example : walk_folder hash_hex whole (expected_from [] manifest.entries) ≢ none
walk_folder-ne-none_example =
    walk_folder-ne-none hash_hex (expected_from [] manifest.entries) whole whole_distinct

abbrev done : FolderDisk
done = record {
  inbox = λ name. if name == codes "pics" then some (tree_at whole) else inbox name;
  staging = none;
  metadata = none;
  manifest = none;
  commit = none;
  done = some (folder_done (stored_offer offer) (codes "pics") manifest);
}

abbrev completed : CompletedTransfer
completed = completed_of (stored_offer offer) (codes "pics")

finalized :
    finalize_folder hash_hex nfc to_lowercase offer manifest (ok tt) (disk_with whole)
    ≡ (ok completed, done)
unfolding finalize_folder finalize_tree conclude_folder folder_record_done place_folder
    folder_commit_of contents_at staged_tree unique_destination split_extension
    create_manifest_directories create_entry_directory ensure_safe_parent_directories make_dirs
    make_dir validate_folder_contents walk_folder walk_from check_items check_item expected_from
    validate check_entries check_entry check_metadata canonical_folder_path folder_ancestors
    validate_folder_relative_path valid_blake3 is_forbidden windows_reserved_name text_eq text_lt
    split starts_with ends_with len bytes utf8 rsplit_once flat_map stored_offer safe_filename
finalized = refl

placed : done.inbox completed.destination ≡ some (tree_at whole)
unfolding text_eq
placed = refl

finalize_folder_delivers_example :
    All (StandsIn nfc to_lowercase hash_hex whole) manifest.entries
    × (done.done ≡ some (folder_done (stored_offer offer) (codes "pics") manifest))
finalize_folder_delivers_example =
    finalize_folder_delivers hash_hex nfc to_lowercase offer manifest (ok tt) (disk_with whole) done
      completed whole finalized placed whole_distinct

old_stands : inbox (codes "old") ≡ some other
unfolding text_eq
old_stands = refl

finalize_folder_keeps_example :
    (finalize_folder hash_hex nfc to_lowercase offer manifest (ok tt) (disk_with whole)).1.inbox
      (codes "old")
    ≡ inbox (codes "old")
unfolding text_eq
finalize_folder_keeps_example =
    finalize_folder_keeps hash_hex nfc to_lowercase offer manifest (ok tt) (disk_with whole)
      (codes "old") refl

prepare_folder-finalize_folder_example :
    prepare_folder hash_hex nfc to_lowercase offer manifest (ok tt) done
    ≡ (ok (complete completed), done)
prepare_folder-finalize_folder_example =
    prepare_folder-finalize_folder hash_hex nfc to_lowercase offer manifest (ok tt)
      (disk_with whole) done completed finalized

abbrev resumed_tree : Tree
resumed_tree = (codes "d", folder) ∷ (codes "d/2", regular (1 ∷ [])) ∷ []

abbrev reads : List (List ℕ)
reads = (2 ∷ []) ∷ (3 ∷ []) ∷ []

resumed_path : validate_folder_relative_path second.path ≡ ok tt
unfolding validate_folder_relative_path is_forbidden windows_reserved_name text_eq split starts_with
    ends_with len bytes utf8 rsplit_once
resumed_path = refl

receive_file_completes_example :
    ((receive_file hash_hex not_found resumed_tree second 1 1 5 reads).0 ≡ ok tt)
    × IsComplete hash_hex (receive_file hash_hex not_found resumed_tree second 1 1 5 reads).1 second
    × (lookup (receive_file hash_hex not_found resumed_tree second 1 1 5 reads).1 (codes "d")
        ≡ lookup resumed_tree (codes "d"))
unfolding folder_ancestors text_eq
receive_file_completes_example =
    receive_file_completes hash_hex not_found resumed_tree second 1 5 (1 ∷ []) reads (codes "d")
      refl resumed_path (refl, tt) refl (refl, (refl, tt)) refl refl refl

abbrev to_string : CoreError → Text
to_string e = codes "error"

handle_folder-FolderAnswers_example :
    FolderAnswers hash_hex not_found to_string nfc to_lowercase manifest
      (handle_folder hash_hex not_found to_string nfc to_lowercase offer manifest
        (ok tt)
        (ok tt)
        reads
        resumed).result
      (handle_folder hash_hex not_found to_string nfc to_lowercase offer manifest
        (ok tt)
        (ok tt)
        reads
        resumed).responses
      (handle_folder hash_hex not_found to_string nfc to_lowercase offer manifest
        (ok tt)
        (ok tt)
        reads
        resumed).disk
handle_folder-FolderAnswers_example =
    handle_folder-FolderAnswers hash_hex not_found to_string nfc to_lowercase manifest offer (ok tt)
      (ok tt) reads resumed
