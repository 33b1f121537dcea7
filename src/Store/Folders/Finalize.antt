-- ===== src/Store/Folders/Finalize.antt =====
-- `finalize_folder` of state.rs, over what is on disk.
use ink_hole.Base.{
  if◌then◌else◌, ◌==◌, nat_eq_instance, int_eq_instance, option_eq_instance, Text, text_eq_instance,
  ℕ, Option, none, some, List,
}
use ink_hole.Errors.{Result, ok, err, io, not_found, ◌>>=◌, ◌>>◌}
use ink_hole.Protocol.Manifest.{FolderManifest}
use ink_hole.Protocol.Offers.{TransferOffer}
use ink_hole.Store.Destination.{unique_destination, validate_destination_name}
use ink_hole.Store.Disk.{
  StoredOffer, CommitRecord, CompletedTransfer, stored_offer, ensure_same_offer, completed_of,
}
use ink_hole.Store.Tree.{Tree, bad, Step, create_manifest_directories, validate_folder_contents}
use ink_hole.Store.Folders.{
  Place, tree_at, other, dangling, FolderDisk, place_exists, ensure_same_manifest, folder_done,
  contents_at,
}

-- `ensure_directory_exists`, for a directory that was staged.
unfoldable pub staged_tree : Option Place → Result Tree
staged_tree none = err (io not_found)
staged_tree (some (tree_at tree)) = ok tree
staged_tree (some other) = err (bad "folder path contains a non-directory component")
staged_tree (some dangling) = err (bad "folder path contains a non-directory component")

abbrev pub put_place : (Text → Option Place) → Text → Place → Text → Option Place
put_place inbox at place name = if name == at then some place else inbox name

module _ (hash_hex : List ℕ → Text) (nfc : Text → Text) (to_lowercase : ℕ → Text) where
  -- The commit record: the one that stands, or a new one, which is written.
  unfoldable pub folder_commit_of : StoredOffer → FolderManifest → FolderDisk → Result CommitRecord
  folder_commit_of stored manifest disk = elim disk.commit [
    | some found ↦ do
      ensure_same_offer stored found.offer
      ensure_same_manifest manifest found.manifest
      validate_destination_name found.destination
      ok found
    | none ↦ do
      destination ← unique_destination (λ name. place_exists (disk.inbox name)) stored.filename
      ok (record { offer = stored; destination = destination; manifest = some manifest })
  ]

  -- The rename, unless the destination exists.
  unfoldable pub place_folder : CommitRecord → Tree → FolderDisk → FolderDisk
  place_folder commit tree disk =
      if place_exists (disk.inbox commit.destination)
      then record disk { commit = some commit }
      else record disk {
        commit = some commit;
        staging = none;
        inbox = put_place disk.inbox commit.destination (tree_at tree);
      }

  -- The end of `finalize_folder`, after the check of the destination.
  unfoldable pub folder_record_done :
      Result (Unit {0})
      → StoredOffer
      → FolderManifest
      → CommitRecord
      → FolderDisk
      → Result CompletedTransfer × FolderDisk
  folder_record_done (err e) stored manifest commit disk = (err e, disk)
  folder_record_done (ok _) stored manifest commit disk = (
    ok (completed_of stored commit.destination),
    record disk {
      done = some (folder_done stored commit.destination manifest);
      metadata = none;
      manifest = none;
      commit = none;
    },
  )

  unfoldable pub conclude_folder :
      Result CommitRecord
      → StoredOffer
      → FolderManifest
      → Tree
      → FolderDisk
      → Result CompletedTransfer × FolderDisk
  unfolding folder_record_done
  conclude_folder (err e) stored manifest tree disk = (err e, disk)
  conclude_folder (ok commit) stored manifest tree disk =
      let placed = place_folder commit tree disk in
      folder_record_done (contents_at hash_hex nfc to_lowercase placed commit.destination manifest)
        stored manifest commit placed

  -- From the staged tree on, with its directories made.
  unfoldable pub finalize_tree :
      TransferOffer → FolderManifest → Step → FolderDisk → Result CompletedTransfer × FolderDisk
  unfolding conclude_folder
  finalize_tree offer manifest (err e, tree) disk =
      (err e, record disk { staging = some (tree_at tree) })
  finalize_tree offer manifest (ok done, tree) disk =
      let staged = record disk { staging = some (tree_at tree) } in
      elim (validate_folder_contents hash_hex nfc to_lowercase (some tree) manifest) [
        | err e ↦ (err e, staged)
        | ok _ ↦
            conclude_folder (folder_commit_of (stored_offer offer) manifest staged)
              (stored_offer offer) manifest tree staged
      ]

  -- `finalize_folder`; `validated` is what the check of the manifest against the offer returns.
  unfoldable pub finalize_folder :
      TransferOffer
      → FolderManifest
      → (validated : Result (Unit {0})) → FolderDisk
      → Result CompletedTransfer × FolderDisk
  unfolding finalize_tree
  finalize_folder offer manifest validated disk = elim (validated >> staged_tree disk.staging) [
    | err e ↦ (err e, disk)
    | ok tree ↦
        finalize_tree offer manifest (create_manifest_directories tree manifest.entries) disk
  ]
