-- ===== src/Store/Folders/Prepare.antt =====
-- `prepare_folder` of state.rs, over what is on disk.
use ink_hole.Base.{
  ltb, if◌then◌else◌, ◌==◌, nat_eq_instance, length, int_eq_instance, checked_add,
  option_eq_instance, keep, Text, text_eq_instance, ℕ, ◌+◌, Bool, not, Option, none, some, List, [],
  ◌∷◌, lookup, remove,
}
use ink_hole.Errors.{Result, ok, err, or_fail, ◌>>=◌, ◌>>◌}
use ink_hole.Protocol.Manifest.{file, FolderEntry, FolderManifest}
use ink_hole.Protocol.Offers.{TransferOffer}
use ink_hole.Store.Destination.{validate_destination_name}
use ink_hole.Store.Disk.{
  StoredOffer, CommitRecord, DoneRecord, CompletedTransfer, stored_offer, ensure_same_offer,
  completed_of,
}
use ink_hole.Store.Tree.{
  Item, regular, folder, special, Tree, bad, Step, ensure_safe_parent_directories,
}
use ink_hole.Store.Folders.{
  Place, tree_at, other, dangling, FolderDisk, place_exists, kind_is, ensure_same_manifest,
  folder_done, contents_at,
}

pub data PrepareFolderOutcome : Type 0 where
  resume : (file_index offset completed : ℕ) → PrepareFolderOutcome
  complete : CompletedTransfer → PrepareFolderOutcome

abbrev pub is_file_entry : FolderEntry → Bool
is_file_entry e = kind_is e.kind file

-- `manifest.entries.iter().filter(is a file)`.
abbrev pub files_of : FolderManifest → List FolderEntry
files_of manifest = keep is_file_entry manifest.entries

-- `ensure_directory`, for the directory that a transfer is staged in.
unfoldable pub ensure_directory : Option Place → Result Tree
ensure_directory none = ok []
ensure_directory (some (tree_at tree)) = ok tree
ensure_directory (some other) = err (bad "folder checkpoint root is not a directory")
ensure_directory (some dangling) = err (bad "folder checkpoint root is not a directory")

-- A file that is complete is counted, and the loop goes on.
abbrev pub add_up :
    Option ℕ
    → Tree
    → (ℕ → Tree → Result PrepareFolderOutcome × Tree)
    → Result PrepareFolderOutcome × Tree
add_up none tree next = (err (bad "folder checkpoint size overflow"), tree)
add_up (some sum) tree next = next sum tree

-- Otherwise the transfer goes on with it.
abbrev pub go_on :
    Result (Option ℕ) × Tree
    → (file_index completed size : ℕ) → (ℕ → Tree → Result PrepareFolderOutcome × Tree)
    → Result PrepareFolderOutcome × Tree
go_on (err e, tree) file_index completed size next = (err e, tree)
go_on (ok (some offset), tree) file_index completed size next =
    (ok (resume file_index offset completed), tree)
go_on (ok none, tree) file_index completed size next = add_up (checked_add completed size) tree next

abbrev pub with_staging :
    FolderDisk → Result PrepareFolderOutcome × Tree → Result PrepareFolderOutcome × FolderDisk
with_staging disk (outcome, tree) = (outcome, record disk { staging = some (tree_at tree) })

-- The checks of metadata that stand.
unfoldable pub metadata_checks :
    StoredOffer → StoredOffer → FolderManifest → FolderDisk → Result (Unit {0})
metadata_checks expected stored manifest disk = do
  ensure_same_offer expected stored
  found ← or_fail disk.manifest (bad "folder transfer manifest is missing")
  ensure_same_manifest manifest (some found)

unfoldable pub commit_manifest : CommitRecord → Result FolderManifest
commit_manifest commit = do
  validate_destination_name commit.destination
  or_fail commit.manifest (bad "folder commit manifest is missing")

unfoldable pub commit_checks : StoredOffer → FolderManifest → CommitRecord → Result (Unit {0})
commit_checks expected manifest commit = do
  ensure_same_offer expected commit.offer
  ensure_same_manifest manifest commit.manifest

module _ (hash_hex : List ℕ → Text) where
  -- A turn of the loop of `prepare_folder`, from what stands under the path of the entry on: where to go
  -- on with this file, or nothing if it is there as a whole.
  unfoldable pub check_file : Option Item → Tree → FolderEntry → Result (Option ℕ) × Tree
  check_file none tree entry = (ok (some 0), tree)
  check_file (some folder) tree entry =
      (err (bad "folder checkpoint contains a non-regular file"), tree)
  check_file (some special) tree entry =
      (err (bad "folder checkpoint contains a non-regular file"), tree)
  check_file (some (regular contents)) tree entry =
      if ltb entry.size (length contents)
      then (err (bad "folder checkpoint file is larger than declared"), tree)
      else if ltb (length contents) entry.size
      then (ok (some (length contents)), tree)
      else if not (hash_hex contents == entry.blake3)
      then (ok (some 0), remove tree entry.path)
      else (ok none, tree)

  -- The file of an entry, after its parents have been made.
  unfoldable pub visit_file : FolderEntry → Step → Result (Option ℕ) × Tree
  unfolding check_file
  visit_file entry (err e, tree) = (err e, tree)
  visit_file entry (ok done, tree) = check_file (lookup tree entry.path) tree entry

  -- The loop of `prepare_folder` over the files, with their index and what is complete.
  unfoldable pub check_files :
      List FolderEntry → (file_index completed : ℕ) → Tree → Result PrepareFolderOutcome × Tree
  unfolding visit_file
  check_files [] file_index completed tree = (ok (resume file_index 0 completed), tree)
  check_files (entry ∷ entries) file_index completed tree =
      go_on (visit_file entry (ensure_safe_parent_directories tree entry.path)) file_index completed
        entry.size (λ sum next. check_files entries (file_index + 1) sum next)

  -- From the staging directory on.
  unfoldable pub take_up_folder :
      FolderManifest → FolderDisk → Result PrepareFolderOutcome × FolderDisk
  take_up_folder manifest disk = elim (ensure_directory disk.staging) [
    | err e ↦ (err e, disk)
    | ok tree ↦ with_staging disk (check_files (files_of manifest) 0 0 tree)
  ]

  -- From the metadata on, which are the argument.
  unfoldable pub with_metadata :
      Option StoredOffer
      → StoredOffer
      → FolderManifest
      → FolderDisk
      → Result PrepareFolderOutcome × FolderDisk
  unfolding take_up_folder
  with_metadata none expected manifest disk =
      take_up_folder manifest
        (record disk { staging = none; metadata = some expected; manifest = some manifest })
  with_metadata (some stored) expected manifest disk =
      elim (metadata_checks expected stored manifest disk) [
        | err e ↦ (err e, disk)
        | ok _ ↦ take_up_folder manifest disk
      ]

  module _ (nfc : Text → Text) (to_lowercase : ℕ → Text) where
    unfoldable pub validate_completed_folder :
        DoneRecord → FolderDisk → Result (Option CompletedTransfer)
    validate_completed_folder done disk = do
      validate_destination_name done.destination
      manifest ← or_fail done.manifest (bad "completed folder manifest is missing")
      if place_exists (disk.inbox done.destination)
          then (do
            contents_at hash_hex nfc to_lowercase disk done.destination manifest
            ok (some (record { receipt = done.receipt; destination = done.destination })))
          else ok none

    -- The end of `recover_folder_commit`, after the check of the destination.
    unfoldable pub folder_recovered :
        Result (Unit {0})
        → CommitRecord
        → FolderManifest
        → FolderDisk
        → Result (Option CompletedTransfer) × FolderDisk
    folder_recovered (err e) commit manifest disk = (err e, disk)
    folder_recovered (ok _) commit manifest disk = (
      ok (some (completed_of commit.offer commit.destination)),
      record disk {
        done = some (folder_done commit.offer commit.destination manifest);
        staging = none;
        metadata = none;
        manifest = none;
        commit = none;
      },
    )

    unfoldable pub recover_folder_commit :
        CommitRecord → FolderDisk → Result (Option CompletedTransfer) × FolderDisk
    unfolding folder_recovered
    recover_folder_commit commit disk = elim (commit_manifest commit) [
      | err e ↦ (err e, disk)
      | ok manifest ↦
          if place_exists (disk.inbox commit.destination)
          then folder_recovered
              (contents_at hash_hex nfc to_lowercase disk commit.destination manifest) commit
              manifest disk
          else (ok none, disk)
    ]

    unfoldable pub after_folder_recovery :
        Result (Option CompletedTransfer)
        → StoredOffer
        → FolderManifest
        → FolderDisk
        → Result PrepareFolderOutcome × FolderDisk
    unfolding with_metadata
    after_folder_recovery (err e) expected manifest disk = (err e, disk)
    after_folder_recovery (ok (some completed)) expected manifest disk =
        (ok (complete completed), disk)
    after_folder_recovery (ok none) expected manifest disk =
        with_metadata disk.metadata expected manifest disk

    -- From the commit record on, which is the argument.
    unfoldable pub with_folder_commit :
        Option CommitRecord
        → StoredOffer
        → FolderManifest
        → FolderDisk
        → Result PrepareFolderOutcome × FolderDisk
    unfolding after_folder_recovery
    with_folder_commit none expected manifest disk =
        with_metadata disk.metadata expected manifest disk
    with_folder_commit (some commit) expected manifest disk =
        elim (commit_checks expected manifest commit) [
          | err e ↦ (err e, disk)
          | ok _ ↦
              let (result, next) = recover_folder_commit commit disk in
              after_folder_recovery result expected manifest next
        ]

    unfoldable pub done_checks :
        StoredOffer → FolderManifest → DoneRecord → FolderDisk → Result (Option CompletedTransfer)
    done_checks expected manifest done disk = do
      ensure_same_offer expected done.offer
      ensure_same_manifest manifest done.manifest
      validate_completed_folder done disk

    -- From the record of a completed transfer on, which is the argument.
    unfoldable pub with_folder_done :
        Option DoneRecord
        → StoredOffer
        → FolderManifest
        → FolderDisk
        → Result PrepareFolderOutcome × FolderDisk
    unfolding with_folder_commit
    with_folder_done none expected manifest disk =
        with_folder_commit disk.commit expected manifest disk
    with_folder_done (some done) expected manifest disk =
        elim (done_checks expected manifest done disk) [
          | err e ↦ (err e, disk)
          | ok (some completed) ↦ (ok (complete completed), disk)
          | ok none ↦ with_folder_commit disk.commit expected manifest (record disk { done = none })
        ]

    -- `prepare_folder`; `validated` is what the checks of the offer and of its manifest return.
    unfoldable pub prepare_folder :
        TransferOffer
        → FolderManifest
        → (validated : Result (Unit {0})) → FolderDisk
        → Result PrepareFolderOutcome × FolderDisk
    unfolding with_folder_done
    prepare_folder offer manifest validated disk = elim validated [
      | err e ↦ (err e, disk)
      | ok _ ↦ with_folder_done disk.done (stored_offer offer) manifest disk
    ]
