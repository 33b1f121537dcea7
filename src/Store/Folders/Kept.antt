-- ===== src/Store/Folders/Kept.antt =====
-- What `finalize_folder` of state.rs leaves alone.
use ink_hole.Base.{
  nat_eq_instance, int_eq_instance, option_eq_instance, Text, text_eq_iff, text_eq_instance, ℕ, ◌≡◌,
  refl, ap, ◌∙◌, inl, inr, true, Option, some, List, arith, if_elim, passed,
}
use ink_hole.Errors.{Result, ok, err, Result-cases}
use ink_hole.Protocol.Manifest.{FolderManifest}
use ink_hole.Protocol.Offers.{TransferOffer}
use ink_hole.Store.Disk.{StoredOffer, CommitRecord, stored_offer}
use ink_hole.Store.Tree.{Tree, Step, validate_folder_contents, create_manifest_directories}
use ink_hole.Store.Folders.{FolderDisk, Place, tree_at, place_exists, contents_at}
use ink_hole.Store.Folders.Finalize.{
  staged_tree, place_folder, folder_record_done, conclude_folder, finalize_tree, finalize_folder,
}

module _ (hash_hex : List ℕ → Text) (nfc : Text → Text) (to_lowercase : ℕ → Text) where
  -- What stood in the root stands there still.
  abbrev pub Keeps : FolderDisk → FolderDisk → Text → Type 0
  Keeps disk after name = place_exists (disk.inbox name) ≡ true → after.inbox name ≡ disk.inbox name

  place_folder-Keeps :
      (commit : CommitRecord) (tree : Tree) (disk : FolderDisk) (name : Text)
      → Keeps disk (place_folder hash_hex nfc to_lowercase commit tree disk) name
  unfolding place_folder
  place_folder-Keeps commit tree disk name =
      if_elim (λ (d : FolderDisk). Keeps disk d name) (place_exists (disk.inbox commit.destination))
        (λ _ stands. refl)
        (λ free stands. ground (arith, free, stands, text_eq_iff name commit.destination))

  record_done-inbox :
      (checked : Result (Unit {0})) (stored : StoredOffer) (manifest : FolderManifest)
      (commit : CommitRecord) (disk : FolderDisk)
      → (folder_record_done hash_hex nfc to_lowercase checked stored manifest commit disk).1.inbox
        ≡ disk.inbox
  unfolding folder_record_done
  record_done-inbox (err e) stored manifest commit disk = refl
  record_done-inbox (ok done) stored manifest commit disk = refl

  conclude_folder-Keeps :
      (stored : StoredOffer) (manifest : FolderManifest) (tree : Tree) (disk : FolderDisk)
      (name : Text) (commit : Result CommitRecord)
      → Keeps disk
          (conclude_folder hash_hex nfc to_lowercase commit stored manifest tree disk).1
          name
  unfolding conclude_folder
  conclude_folder-Keeps stored manifest tree disk name (err e) = λ stands. refl
  conclude_folder-Keeps stored manifest tree disk name (ok commit) = λ stands.
      ap (λ (inbox : Text → Option Place). inbox name)
        (record_done-inbox
          (contents_at hash_hex nfc to_lowercase
            (place_folder hash_hex nfc to_lowercase commit tree disk) commit.destination manifest)
          stored manifest commit (place_folder hash_hex nfc to_lowercase commit tree disk))
      ∙ place_folder-Keeps commit tree disk name stands

  finalize_tree-Keeps :
      (offer : TransferOffer) (manifest : FolderManifest) (made : Step) (disk : FolderDisk)
      (name : Text)
      → Keeps disk (finalize_tree hash_hex nfc to_lowercase offer manifest made disk).1 name
  unfolding finalize_tree
  finalize_tree-Keeps offer manifest (err e, tree) disk name = λ stands. refl
  finalize_tree-Keeps offer manifest (ok done, tree) disk name =
      elim (Result-cases
        (validate_folder_contents hash_hex nfc to_lowercase (some tree) manifest)) [
          | inl (e, refused) ↦ rw (refused, finalize_tree) (λ stands. refl)
          | inr (done, passed) ↦
              rw (passed, finalize_tree)
                (conclude_folder-Keeps (stored_offer offer) manifest tree
                  (record disk { staging = some (tree_at tree) }) name _)
        ]

  -- Whatever stands in the root under any name before `finalize_folder`, a file, a directory or a link that
  -- leads somewhere, stands there unchanged afterwards, whether it succeeds or fails.
  pub finalize_folder_keeps :
      (offer : TransferOffer) (manifest : FolderManifest) (validated : Result (Unit {0}))
      (disk : FolderDisk) (name : Text)
      → place_exists (disk.inbox name) ≡ true
      → (finalize_folder hash_hex nfc to_lowercase offer manifest validated disk).1.inbox name
        ≡ disk.inbox name
  unfolding finalize_folder
  finalize_folder_keeps offer manifest (err e) disk name stands = refl
  finalize_folder_keeps offer manifest (ok tt) disk name stands =
      elim (Result-cases (staged_tree disk.staging)) [
        | inl (e, refused) ↦ rw (refused, finalize_folder) refl
        | inr (tree, there) ↦
            rw (there, finalize_folder)
              (finalize_tree-Keeps offer manifest
                (create_manifest_directories tree manifest.entries) disk name stands)
      ]
