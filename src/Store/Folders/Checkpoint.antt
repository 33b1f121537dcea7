-- ===== src/Store/Folders/Checkpoint.antt =====
-- Where `prepare_folder` of state.rs takes a folder up.
use ink_hole.Base.{
  nat_eq_instance, int_eq_instance, option_eq_instance, keep, Text, text_eq_instance, ℕ, ◌≡◌, refl,
  subst, inl, inr, Bool, Option, none, some, List, [], ◌∷◌, if_elim, All-keep, passed,
}
use ink_hole.Errors.{Result, ok, err, Result-cases}
use ink_hole.Protocol.Manifest.{FolderEntry, FolderManifest, validate}
use ink_hole.Protocol.Manifest.Order.{IsOrdered, validate-IsOrdered}
use ink_hole.Protocol.Offers.{TransferOffer}
use ink_hole.Store.Disk.{StoredOffer, CommitRecord, DoneRecord, CompletedTransfer, stored_offer}
use ink_hole.Store.Tree.{Tree}
use ink_hole.Store.Tree.Manifested.{DiffersFrom, Precedes-differs}
use ink_hole.Store.Folders.{FolderDisk, tree_at}
use ink_hole.Store.Folders.Prepare.{
  PrepareFolderOutcome, resume, complete, is_file_entry, files_of, ensure_directory, check_files,
  take_up_folder, with_staging, metadata_checks, with_metadata, after_folder_recovery,
  commit_checks, recover_folder_commit, with_folder_commit, done_checks, with_folder_done,
  prepare_folder,
}
use ink_hole.Store.Folders.Loop.{Apart, IsCheckpoint, check_files-IsCheckpoint}

Apart-keep : (p : FolderEntry → Bool) (es : List FolderEntry) → Apart es → Apart (keep p es)
Apart-keep p [] a = tt
Apart-keep p (e ∷ es) a =
    if_elim Apart (p e) (λ _. (All-keep (DiffersFrom e.path) p es a.0, Apart-keep p es a.1))
      (λ _. Apart-keep p es a.1)

module _ (nfc : Text → Text) (to_lowercase : ℕ → Text) where
  IsOrdered-Apart : (es : List FolderEntry) → IsOrdered nfc to_lowercase es → Apart es
  IsOrdered-Apart [] o = tt
  IsOrdered-Apart (e ∷ es) o = (Precedes-differs nfc to_lowercase e es o.0, IsOrdered-Apart es o.1)

  -- The files of a manifest that was accepted have different paths.
  files_of-Apart :
      (manifest : FolderManifest) (size : ℕ)
      → validate nfc to_lowercase manifest ≡ ok size
      → Apart (files_of manifest)
  files_of-Apart manifest size h =
      Apart-keep is_file_entry manifest.entries
        (IsOrdered-Apart manifest.entries (validate-IsOrdered nfc to_lowercase manifest size h))

  module _ (hash_hex : List ℕ → Text) (manifest : FolderManifest)
      (apart : Apart (files_of manifest)) where
    -- What is said of a result that has the transfer go on.
    abbrev Resumes : Result PrepareFolderOutcome × FolderDisk → Type 0
    Resumes (ok (resume fi off comp), after) =
        (tree : Tree) × (after.staging ≡ some (tree_at tree))
        × IsCheckpoint hash_hex (files_of manifest) fi off comp tree
    Resumes (ok (complete done), after) = Unit
    Resumes (err e, after) = Unit

    with_staging-Resumes :
        (disk : FolderDisk) (r : Result PrepareFolderOutcome × Tree)
        → ((fi off comp : ℕ)
            → r.0 ≡ ok (resume fi off comp)
            → IsCheckpoint hash_hex (files_of manifest) fi off comp r.1)
        → Resumes (with_staging disk r)
    with_staging-Resumes disk (ok (resume fi off comp), tree) h = (tree, refl, h fi off comp refl)
    with_staging-Resumes disk (ok (complete done), tree) h = tt
    with_staging-Resumes disk (err e, tree) h = tt

    take_up_folder-Resumes : (disk : FolderDisk) → Resumes (take_up_folder hash_hex manifest disk)
    unfolding take_up_folder
    take_up_folder-Resumes disk = elim (Result-cases (ensure_directory disk.staging)) [
      | inl (e, refused) ↦ rw (refused, take_up_folder) tt
      | inr (tree, there) ↦
          rw (there, take_up_folder)
            (with_staging-Resumes disk (check_files hash_hex (files_of manifest) 0 0 tree)
              (λ fi off comp.
                check_files-IsCheckpoint hash_hex (files_of manifest) fi off comp tree apart))
    ]

    with_metadata-Resumes :
        (metadata : Option StoredOffer) (expected : StoredOffer) (disk : FolderDisk)
        → Resumes (with_metadata hash_hex metadata expected manifest disk)
    unfolding with_metadata
    with_metadata-Resumes none expected disk =
        take_up_folder-Resumes
          (record disk { staging = none; metadata = some expected; manifest = some manifest })
    with_metadata-Resumes (some stored) expected disk =
        elim (Result-cases (metadata_checks expected stored manifest disk)) [
          | inl (e, refused) ↦ rw (refused, with_metadata) tt
          | inr (done, passed) ↦ rw (passed, with_metadata) (take_up_folder-Resumes disk)
        ]

    after_folder_recovery-Resumes :
        (found : Result (Option CompletedTransfer)) (expected : StoredOffer) (disk : FolderDisk)
        → Resumes (after_folder_recovery hash_hex nfc to_lowercase found expected manifest disk)
    unfolding after_folder_recovery
    after_folder_recovery-Resumes (err e) expected disk = tt
    after_folder_recovery-Resumes (ok (some done)) expected disk = tt
    after_folder_recovery-Resumes (ok none) expected disk =
        with_metadata-Resumes disk.metadata expected disk

    with_folder_commit-Resumes :
        (commit : Option CommitRecord) (expected : StoredOffer) (disk : FolderDisk)
        → Resumes (with_folder_commit hash_hex nfc to_lowercase commit expected manifest disk)
    unfolding with_folder_commit
    with_folder_commit-Resumes none expected disk =
        with_metadata-Resumes disk.metadata expected disk
    with_folder_commit-Resumes (some commit) expected disk =
        elim (Result-cases (commit_checks expected manifest commit)) [
          | inl (e, refused) ↦ rw (refused, with_folder_commit) tt
          | inr (done, passed) ↦
              rw (passed, with_folder_commit)
                (after_folder_recovery-Resumes
                  (recover_folder_commit hash_hex nfc to_lowercase commit disk).0 expected
                  (recover_folder_commit hash_hex nfc to_lowercase commit disk).1)
        ]

    with_folder_done-Resumes :
        (done : Option DoneRecord) (expected : StoredOffer) (disk : FolderDisk)
        → Resumes (with_folder_done hash_hex nfc to_lowercase done expected manifest disk)
    unfolding with_folder_done
    with_folder_done-Resumes none expected disk =
        with_folder_commit-Resumes disk.commit expected disk
    with_folder_done-Resumes (some done) expected disk =
        elim (Result-cases (done_checks hash_hex nfc to_lowercase expected manifest done disk)) [
          | inl (e, refused) ↦ rw (refused, with_folder_done) tt
          | inr (some completed, passed) ↦ rw (passed, with_folder_done) tt
          | inr (none, passed) ↦
              rw (passed, with_folder_done)
                (with_folder_commit-Resumes disk.commit expected (record disk { done = none }))
        ]

    prepare_folder-Resumes :
        (offer : TransferOffer) (validated : Result (Unit {0})) (disk : FolderDisk)
        → Resumes (prepare_folder hash_hex nfc to_lowercase offer manifest validated disk)
    unfolding prepare_folder
    prepare_folder-Resumes offer (err e) disk = tt
    prepare_folder-Resumes offer (ok done) disk =
        with_folder_done-Resumes disk.done (stored_offer offer) disk

  -- Where `prepare_folder` has a folder with an accepted manifest go on, whatever was on disk before: all
  -- the files before that one are staged as a whole, with the sizes and the digests of the manifest, their
  -- sizes are what is reported as completed, and of that file, if there is one left, as much is staged as
  -- the offset says, and less than all of it.
  pub prepare_folder-IsCheckpoint :
      (hash_hex : List ℕ → Text) (offer : TransferOffer) (manifest : FolderManifest) (size : ℕ)
      (validated : Result (Unit {0})) (disk after : FolderDisk) (fi off comp : ℕ)
      → validate nfc to_lowercase manifest ≡ ok size
      → prepare_folder hash_hex nfc to_lowercase offer manifest validated disk
        ≡ (ok (resume fi off comp), after)
      → (tree : Tree) × (after.staging ≡ some (tree_at tree))
        × IsCheckpoint hash_hex (files_of manifest) fi off comp tree
  prepare_folder-IsCheckpoint hash_hex offer manifest size validated disk after fi off comp valid
        h =
      subst (Resumes hash_hex manifest (files_of-Apart manifest size valid)) h (
        prepare_folder-Resumes hash_hex manifest (files_of-Apart manifest size valid) offer
          validated disk)
