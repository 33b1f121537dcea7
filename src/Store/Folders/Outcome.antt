-- ===== src/Store/Folders/Outcome.antt =====
-- What stands on disk when `prepare_folder` of state.rs says that a folder is complete.
use ink_hole.Base.{
  Bool-cases, nat_eq_instance, int_eq_iff, int_eq_instance, checked_add, option_eq_instance, Text,
  text_eq_iff, text_eq_instance, ℕ, ◌+◌, ◌≡◌, refl, sym, subst, inl, inr, Bool, true, false, not,
  Option, none, some, List, [], ◌∷◌, arith, if_elim, passed,
}
use ink_hole.Errors.{
  Result, ok, err, Result-cases, refuse_if-eq-ok, then-eq-ok, >>=-eq-ok, or_fail-eq-ok, ok-inj,
  or_fail,
}
use ink_hole.Protocol.Manifest.{FolderEntryKind, file, directory, FolderEntry, FolderManifest}
use ink_hole.Protocol.Offers.{TransferOffer}
use ink_hole.Store.Destination.{validate_destination_name}
use ink_hole.Store.Disk.{
  StoredOffer, CommitRecord, DoneRecord, CompletedTransfer, stored_offer, ensure_same_offer,
}
use ink_hole.Store.Tree.{Tree, bad, ensure_safe_parent_directories}
use ink_hole.Store.Prepare.Outcome.{found_is, nothing_found}
use ink_hole.Store.Folders.{
  FolderDisk, place_exists, kind_is, entry_eq, entries_eq, manifest_eq, ensure_same_manifest,
  contents_at,
}
use ink_hole.Store.Folders.Prepare.{
  PrepareFolderOutcome, resume, complete, add_up, go_on, with_staging, visit_file, take_up_folder,
  with_metadata, metadata_checks, ensure_directory, check_files, files_of, commit_manifest,
  commit_checks, validate_completed_folder, folder_recovered, recover_folder_commit,
  after_folder_recovery, with_folder_commit, done_checks, with_folder_done, prepare_folder,
}

kind_is_sound : (a b : FolderEntryKind) → kind_is a b ≡ true → a ≡ b
kind_is_sound file file h = refl
kind_is_sound directory directory h = refl
kind_is_sound file directory h = cc
kind_is_sound directory file h = cc

entry_eq_sound : (a b : FolderEntry) → entry_eq a b ≡ true → a ≡ b
entry_eq_sound a b h = ground (
  arith,
  text_eq_iff a.path b.path,
  kind_is_sound a.kind b.kind,
  int_eq_iff a.modified_ms b.modified_ms,
  text_eq_iff a.blake3 b.blake3,
)

entries_eq_sound : (left right : List FolderEntry) → entries_eq left right ≡ true → left ≡ right
entries_eq_sound [] [] h = refl
entries_eq_sound (a ∷ left) (b ∷ right) h =
    let first = entry_eq_sound a b (ground arith) in
    let rest = entries_eq_sound left right (ground arith) in rw (first, rest) refl
entries_eq_sound [] (b ∷ right) h = cc
entries_eq_sound (a ∷ left) [] h = cc

manifest_eq_sound : (a b : FolderManifest) → manifest_eq a b ≡ true → a ≡ b
manifest_eq_sound a b h = ground (arith, entries_eq_sound a.entries b.entries)

same_manifest_is :
    (expected found : FolderManifest)
    → ensure_same_manifest expected (some found) ≡ ok tt
    → found ≡ expected
unfolding ensure_same_manifest
same_manifest_is expected found h =
    manifest_eq_sound found expected
      (not_false (manifest_eq found expected) (refuse_if-eq-ok _ _ h))
  where
    not_false : (b : Bool) → not b ≡ false → b ≡ true
    not_false true e = refl
    not_false false e = cc

commit_manifest_is :
    (commit : CommitRecord) (m : FolderManifest)
    → commit_manifest commit ≡ ok m
    → commit.manifest ≡ some m
unfolding commit_manifest
commit_manifest_is commit m h =
    let (_, named) = then-eq-ok (validate_destination_name commit.destination) _ h in
    or_fail-eq-ok commit.manifest _ named

-- A manifest on record that passes for the offered one is that one.
recorded_is :
    (manifest m : FolderManifest) (recorded : Option FolderManifest)
    → ensure_same_manifest manifest recorded ≡ ok tt
    → recorded ≡ some m
    → m ≡ manifest
recorded_is manifest m recorded same named =
    same_manifest_is manifest m
      (subst (λ (o : Option FolderManifest). ensure_same_manifest manifest o ≡ ok tt) named same)

module _ (hash_hex : List ℕ → Text) (nfc : Text → Text) (to_lowercase : ℕ → Text) where
  -- That a folder as in the manifest stands where a transfer was completed.
  abbrev pub FolderStands : FolderManifest → CompletedTransfer → FolderDisk → Type 0
  FolderStands manifest done disk =
      contents_at hash_hex nfc to_lowercase disk done.destination manifest ≡ ok tt

  abbrev pub IsFolderPrepared : FolderManifest → Result PrepareFolderOutcome × FolderDisk → Type 0
  IsFolderPrepared manifest (err e, disk) = Unit
  IsFolderPrepared manifest (ok (complete done), disk) = FolderStands manifest done disk
  IsFolderPrepared manifest (ok (resume file_index offset completed), disk) = Unit

  -- The loop over the files never says that the folder is complete.
  abbrev GoesOn : Result PrepareFolderOutcome × Tree → Type 0
  GoesOn (err e, tree) = Unit
  GoesOn (ok (resume file_index offset completed), tree) = Unit
  GoesOn (ok (complete done), tree) = ⊥

  go_on-GoesOn :
      (seen : Result (Option ℕ) × Tree) (file_index completed size : ℕ)
      (next : ℕ → Tree → Result PrepareFolderOutcome × Tree)
      → ((sum : ℕ) (tree : Tree) → GoesOn (next sum tree))
      → GoesOn (go_on seen file_index completed size next)
  go_on-GoesOn (err e, tree) file_index completed size next later = tt
  go_on-GoesOn (ok (some offset), tree) file_index completed size next later = tt
  go_on-GoesOn (ok none, tree) file_index completed size next later =
      summed (checked_add completed size)
    where
      summed : (sum : Option ℕ) → GoesOn (add_up sum tree next)
      summed none = tt
      summed (some sum) = later sum tree

  check_files-GoesOn :
      (entries : List FolderEntry) (file_index completed : ℕ) (tree : Tree)
      → GoesOn (check_files hash_hex entries file_index completed tree)
  unfolding check_files
  check_files-GoesOn [] file_index completed tree = tt
  check_files-GoesOn (entry ∷ entries) file_index completed tree =
      go_on-GoesOn (visit_file hash_hex entry (ensure_safe_parent_directories tree entry.path))
        file_index completed entry.size _
        (λ sum next. check_files-GoesOn entries (file_index + 1) sum next)

  with_staging-IsFolderPrepared :
      (manifest : FolderManifest) (disk : FolderDisk) (r : Result PrepareFolderOutcome × Tree)
      → GoesOn r
      → IsFolderPrepared manifest (with_staging disk r)
  with_staging-IsFolderPrepared manifest disk (err e, tree) g = tt
  with_staging-IsFolderPrepared manifest disk (ok (resume i o c), tree) g = tt
  with_staging-IsFolderPrepared manifest disk (ok (complete done), tree) g = absurd g

  take_up_folder-IsFolderPrepared :
      (manifest : FolderManifest) (disk : FolderDisk)
      → IsFolderPrepared manifest (take_up_folder hash_hex manifest disk)
  unfolding take_up_folder
  take_up_folder-IsFolderPrepared manifest disk =
      elim (Result-cases (ensure_directory disk.staging)) [
        | inl (e, refused) ↦ rw (refused, take_up_folder) tt
        | inr (tree, there) ↦
            rw (there, take_up_folder)
              (with_staging-IsFolderPrepared manifest disk _
                (check_files-GoesOn (files_of manifest) 0 0 tree))
      ]

  with_metadata-IsFolderPrepared :
      (metadata : Option StoredOffer) (expected : StoredOffer) (manifest : FolderManifest)
      (disk : FolderDisk)
      → IsFolderPrepared manifest (with_metadata hash_hex metadata expected manifest disk)
  unfolding with_metadata
  with_metadata-IsFolderPrepared none expected manifest disk =
      take_up_folder-IsFolderPrepared manifest
        (record disk { staging = none; metadata = some expected; manifest = some manifest })
  with_metadata-IsFolderPrepared (some stored) expected manifest disk =
      elim (Result-cases (metadata_checks expected stored manifest disk)) [
        | inl (e, refused) ↦ rw (refused, with_metadata) tt
        | inr (done, passed) ↦
            rw (passed, with_metadata) (take_up_folder-IsFolderPrepared manifest disk)
      ]

  recovered-IsFolderPrepared :
      (checked : Result (Unit {0})) (commit : CommitRecord) (expected : StoredOffer)
      (manifest : FolderManifest) (disk : FolderDisk)
      → contents_at hash_hex nfc to_lowercase disk commit.destination manifest ≡ checked
      → IsFolderPrepared manifest (
          after_folder_recovery hash_hex nfc to_lowercase
            (folder_recovered hash_hex nfc to_lowercase checked commit manifest disk).0
            expected
            manifest
            (folder_recovered hash_hex nfc to_lowercase checked commit manifest disk).1)
  unfolding folder_recovered after_folder_recovery contents_at
  recovered-IsFolderPrepared (err e) commit expected manifest disk h = tt
  recovered-IsFolderPrepared (ok done) commit expected manifest disk h = h

  recover_folder_commit-IsFolderPrepared :
      (commit : CommitRecord) (expected : StoredOffer) (manifest : FolderManifest)
      (disk : FolderDisk)
      → ensure_same_manifest manifest commit.manifest ≡ ok tt
      → IsFolderPrepared manifest (
          after_folder_recovery hash_hex nfc to_lowercase
            (recover_folder_commit hash_hex nfc to_lowercase commit disk).0
            expected
            manifest
            (recover_folder_commit hash_hex nfc to_lowercase commit disk).1)
  unfolding recover_folder_commit after_folder_recovery
  recover_folder_commit-IsFolderPrepared commit expected manifest disk same =
      elim (Result-cases (commit_manifest commit)) [
        | inl (e, refused) ↦ rw (refused, recover_folder_commit) tt
        | inr (m, passed) ↦
            let is =
              recorded_is manifest m commit.manifest same (commit_manifest_is commit m passed) in
            rw (passed, recover_folder_commit)
              (if_elim
                (λ (r : Result (Option CompletedTransfer) × FolderDisk).
                  IsFolderPrepared manifest
                    (after_folder_recovery hash_hex nfc to_lowercase r.0 expected manifest r.1))
                (place_exists (disk.inbox commit.destination))
                (λ there.
                  subst
                    (λ (x : FolderManifest). IsFolderPrepared manifest (
                      after_folder_recovery hash_hex nfc to_lowercase
                        (folder_recovered hash_hex nfc to_lowercase
                          (contents_at hash_hex nfc to_lowercase disk commit.destination x) commit x
                          disk).0
                        expected manifest
                        (folder_recovered hash_hex nfc to_lowercase
                          (contents_at hash_hex nfc to_lowercase disk commit.destination x) commit x
                          disk).1))
                    (sym is) (recovered-IsFolderPrepared _ commit expected manifest disk refl))
                (λ gone. with_metadata-IsFolderPrepared disk.metadata expected manifest disk))
      ]

  with_folder_commit-IsFolderPrepared :
      (commit : Option CommitRecord) (expected : StoredOffer) (manifest : FolderManifest)
      (disk : FolderDisk)
      → IsFolderPrepared manifest
          (with_folder_commit hash_hex nfc to_lowercase commit expected manifest disk)
  unfolding with_folder_commit commit_checks
  with_folder_commit-IsFolderPrepared none expected manifest disk =
      with_metadata-IsFolderPrepared disk.metadata expected manifest disk
  with_folder_commit-IsFolderPrepared (some commit) expected manifest disk =
      elim (Result-cases (commit_checks expected manifest commit)) [
        | inl (e, refused) ↦ rw (refused, with_folder_commit) tt
        | inr (done, passed) ↦
            let (_, same) = then-eq-ok (ensure_same_offer expected commit.offer) _ passed in
            rw (passed, with_folder_commit)
              (recover_folder_commit-IsFolderPrepared commit expected manifest disk same)
      ]

  done_checks-FolderStands :
      (expected : StoredOffer) (manifest : FolderManifest) (done : DoneRecord) (disk : FolderDisk)
      (completed : CompletedTransfer)
      → done_checks hash_hex nfc to_lowercase expected manifest done disk ≡ ok (some completed)
      → FolderStands manifest completed disk
  unfolding done_checks validate_completed_folder
  done_checks-FolderStands expected manifest done disk completed h =
      let (_, h1) = then-eq-ok (ensure_same_offer expected done.offer) _ h in
      let (same, h2) = then-eq-ok (ensure_same_manifest manifest done.manifest) _ h1 in
      let (_, h3) = then-eq-ok (validate_destination_name done.destination) _ h2 in
      let (m, named, h4) =
        >>=-eq-ok (or_fail done.manifest (bad "completed folder manifest is missing")) _ h3 in
      let is = recorded_is manifest m done.manifest same (or_fail-eq-ok done.manifest _ named) in
      elim (Bool-cases (place_exists (disk.inbox done.destination))) [
        | inl there ↦
            let (whole, found) =
              then-eq-ok (contents_at hash_hex nfc to_lowercase disk done.destination m) _
                (rw there at h4) in
            subst (λ (c : CompletedTransfer). FolderStands manifest c disk)
              (found_is (ok-inj found))
              (subst
                (λ (x : FolderManifest).
                  contents_at hash_hex nfc to_lowercase disk done.destination x ≡ ok tt)
                is whole)
        | inr gone ↦ absurd (nothing_found (ok-inj (rw gone at h4)))
      ]

  with_folder_done-IsFolderPrepared :
      (done : Option DoneRecord) (expected : StoredOffer) (manifest : FolderManifest)
      (disk : FolderDisk)
      → IsFolderPrepared manifest
          (with_folder_done hash_hex nfc to_lowercase done expected manifest disk)
  unfolding with_folder_done
  with_folder_done-IsFolderPrepared none expected manifest disk =
      with_folder_commit-IsFolderPrepared disk.commit expected manifest disk
  with_folder_done-IsFolderPrepared (some done) expected manifest disk =
      elim (Result-cases (done_checks hash_hex nfc to_lowercase expected manifest done disk)) [
        | inl (e, refused) ↦ rw (refused, with_folder_done) tt
        | inr (some completed, passed) ↦
            rw (passed, with_folder_done)
              (done_checks-FolderStands expected manifest done disk completed passed)
        | inr (none, passed) ↦
            rw (passed, with_folder_done)
              (with_folder_commit-IsFolderPrepared disk.commit expected manifest
                (record disk { done = none }))
      ]

  -- When `prepare_folder` says that a transfer is complete, a directory that passes the check against the
  -- offered manifest stands in the root, under the name that is returned.
  pub prepare_folder-IsFolderPrepared :
      (offer : TransferOffer) (manifest : FolderManifest) (validated : Result (Unit {0}))
      (disk : FolderDisk)
      → IsFolderPrepared manifest
          (prepare_folder hash_hex nfc to_lowercase offer manifest validated disk)
  unfolding prepare_folder
  prepare_folder-IsFolderPrepared offer manifest (err e) disk = tt
  prepare_folder-IsFolderPrepared offer manifest (ok done) disk =
      with_folder_done-IsFolderPrepared disk.done (stored_offer offer) manifest disk
