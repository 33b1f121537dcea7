-- ===== src/Store/Folders/Delivery.antt =====
-- What `finalize_folder` of state.rs delivers, and that it can be asked again.
use ink_hole.Base.{
  Option-cases, nat_eq_instance, beq_self, All, int_eq_instance, option_eq_instance, Text,
  text_eq_instance, ℕ, ◌≡◌, refl, sym, ap, subst, inl, inr, true, none, some, List, [], ◌∷◌, arith,
  if_elim, distinct, keys, passed,
}
use ink_hole.Errors.{Result, ok, err, ok-inj, >>=-eq-ok, then-eq-ok, Result-cases}
use ink_hole.Protocol.Manifest.{FolderEntryKind, file, directory, FolderEntry, FolderManifest}
use ink_hole.Protocol.Offers.{TransferOffer}
use ink_hole.Protocol.Filenames.{safe_filename}
use ink_hole.Store.Destination.Naming.{unique_destination-valid}
use ink_hole.Store.Destination.{validate_destination_name, unique_destination}
use ink_hole.Store.Disk.{
  ensure_same_offer, StoredOffer, CommitRecord, DoneRecord, CompletedTransfer, stored_offer,
  completed_of,
}
use ink_hole.Store.Replay.{same_offer}
use ink_hole.Store.Tree.{Tree, Step, validate_folder_contents}
use ink_hole.Store.Tree.Manifested.{StandsIn, validate_folder_contents-StandsIn}
use ink_hole.Store.Folders.{
  FolderDisk, tree_at, place_exists, tree_of, kind_is, entries_eq, ensure_same_manifest,
  folder_done, contents_at,
}
use ink_hole.Store.Folders.Prepare.{
  complete, validate_completed_folder, done_checks, with_folder_done, prepare_folder,
}
use ink_hole.Store.Folders.Finalize.{
  staged_tree, folder_commit_of, place_folder, folder_record_done, conclude_folder, finalize_tree,
  finalize_folder,
}

kind_is_self : (k : FolderEntryKind) → kind_is k k ≡ true
kind_is_self file = refl
kind_is_self directory = refl

entries_eq_self : (es : List FolderEntry) → entries_eq es es ≡ true
entries_eq_self [] = refl
entries_eq_self (e ∷ es) = ground (
  arith,
  entries_eq_self es,
  beq_self e.path,
  kind_is_self e.kind,
  beq_self e.size,
  beq_self e.modified_ms,
  beq_self e.blake3,
)

pub same_manifest :
    (manifest : FolderManifest) → ensure_same_manifest manifest (some manifest) ≡ ok tt
unfolding ensure_same_manifest
same_manifest manifest = ground (arith, entries_eq_self manifest.entries, beq_self manifest.version)

module _ (hash_hex : List ℕ → Text) (nfc : Text → Text) (to_lowercase : ℕ → Text) where
  -- A transfer of a folder that is done: what is returned and recorded, and the folder in its place.
  pub record IsDelivered (offer : TransferOffer) (manifest : FolderManifest)
      (completed : CompletedTransfer) (disk : FolderDisk) : Type 0 where
    pub completed_is : completed ≡ completed_of (stored_offer offer) completed.destination
    pub recorded :
        disk.done ≡ some (folder_done (stored_offer offer) completed.destination manifest)
    pub closed : disk.commit ≡ none
    pub placed : place_exists (disk.inbox completed.destination) ≡ true
    pub named : validate_destination_name completed.destination ≡ ok tt
    pub whole : contents_at hash_hex nfc to_lowercase disk completed.destination manifest ≡ ok tt

  abbrev Delivers : TransferOffer → FolderManifest → Result CompletedTransfer × FolderDisk → Type 0
  Delivers offer manifest (err e, after) = Unit
  Delivers offer manifest (ok completed, after) = IsDelivered offer manifest completed after

  place_folder-exists :
      (commit : CommitRecord) (tree : Tree) (disk : FolderDisk)
      → place_exists
          ((place_folder hash_hex nfc to_lowercase commit tree disk).inbox commit.destination)
        ≡ true
  unfolding place_folder
  place_folder-exists commit tree disk =
      if_elim (λ (d : FolderDisk). place_exists (d.inbox commit.destination) ≡ true)
        (place_exists (disk.inbox commit.destination)) (λ there. there)
        (λ _. ground (arith, beq_self commit.destination))

  record_done-Delivers :
      (offer : TransferOffer) (manifest : FolderManifest) (commit : CommitRecord)
      (disk : FolderDisk) (checked : Result (Unit {0}))
      → contents_at hash_hex nfc to_lowercase disk commit.destination manifest ≡ checked
      → place_exists (disk.inbox commit.destination) ≡ true
      → validate_destination_name commit.destination ≡ ok tt
      → Delivers offer manifest (
          folder_record_done hash_hex nfc to_lowercase checked
            (stored_offer offer)
            manifest
            commit
            disk)
  unfolding folder_record_done contents_at
  record_done-Delivers offer manifest commit disk (err e) h there valid = tt
  record_done-Delivers offer manifest commit disk (ok tt) h there valid = record {
    completed_is = refl;
    recorded = refl;
    closed = refl;
    placed = there;
    named = valid;
    whole = h;
  }

  folder_commit_of-valid :
      (offer : TransferOffer) (manifest : FolderManifest) (disk : FolderDisk)
      (commit : CommitRecord)
      → folder_commit_of hash_hex nfc to_lowercase (stored_offer offer) manifest disk ≡ ok commit
      → validate_destination_name commit.destination ≡ ok tt
  unfolding folder_commit_of stored_offer
  folder_commit_of-valid offer manifest disk commit h = elim (Option-cases disk.commit) [
    | inl fresh ↦
        let (name, chosen, made) =
          >>=-eq-ok
            (unique_destination (λ name. place_exists (disk.inbox name))
              (safe_filename offer.filename))
            _ (rw (fresh, folder_commit_of) at h) in
        subst (λ (c : CommitRecord). validate_destination_name c.destination ≡ ok tt) (ok-inj made)
          (unique_destination-valid (λ name. place_exists (disk.inbox name)) offer.filename name
            chosen)
    | inr (found, there) ↦
        let (_, h1) =
          then-eq-ok (ensure_same_offer (stored_offer offer) found.offer) _
            (rw (there, folder_commit_of) at h) in
        let (_, h2) = then-eq-ok (ensure_same_manifest manifest found.manifest) _ h1 in
        let (valid, same) = then-eq-ok (validate_destination_name found.destination) _ h2 in
        subst (λ (c : CommitRecord). validate_destination_name c.destination ≡ ok tt) (ok-inj same)
          valid
  ]

  conclude_folder-Delivers :
      (offer : TransferOffer) (manifest : FolderManifest) (tree : Tree) (disk : FolderDisk)
      (commit : Result CommitRecord)
      → ((c : CommitRecord) → commit ≡ ok c → validate_destination_name c.destination ≡ ok tt)
      → Delivers offer manifest
          (conclude_folder hash_hex nfc to_lowercase commit (stored_offer offer) manifest tree disk)
  unfolding conclude_folder
  conclude_folder-Delivers offer manifest tree disk (err e) valid = tt
  conclude_folder-Delivers offer manifest tree disk (ok commit) valid =
      record_done-Delivers offer manifest commit
        (place_folder hash_hex nfc to_lowercase commit tree disk) _ refl
        (place_folder-exists commit tree disk) (valid commit refl)

  finalize_tree-Delivers :
      (offer : TransferOffer) (manifest : FolderManifest) (made : Step) (disk : FolderDisk)
      → Delivers offer manifest (finalize_tree hash_hex nfc to_lowercase offer manifest made disk)
  unfolding finalize_tree
  finalize_tree-Delivers offer manifest (err e, tree) disk = tt
  finalize_tree-Delivers offer manifest (ok done, tree) disk =
      elim (Result-cases
        (validate_folder_contents hash_hex nfc to_lowercase (some tree) manifest)) [
          | inl (e, refused) ↦ rw (refused, finalize_tree) tt
          | inr (done, passed) ↦
              rw (passed, finalize_tree)
                (conclude_folder-Delivers offer manifest tree
                  (record disk { staging = some (tree_at tree) })
                  (folder_commit_of hash_hex nfc to_lowercase (stored_offer offer) manifest
                    (record disk { staging = some (tree_at tree) }))
                  (folder_commit_of-valid offer manifest
                    (record disk { staging = some (tree_at tree) })))
        ]

  finalize_folder-Delivers :
      (offer : TransferOffer) (manifest : FolderManifest) (validated : Result (Unit {0}))
      (disk : FolderDisk)
      → Delivers offer manifest
          (finalize_folder hash_hex nfc to_lowercase offer manifest validated disk)
  unfolding finalize_folder
  finalize_folder-Delivers offer manifest (err e) disk = tt
  finalize_folder-Delivers offer manifest (ok tt) disk =
      elim (Result-cases (staged_tree disk.staging)) [
        | inl (e, refused) ↦ rw (refused, finalize_folder) tt
        | inr (tree, there) ↦
            rw (there, finalize_folder) (finalize_tree-Delivers offer manifest _ disk)
      ]

  -- When `finalize_folder` succeeds, the receipt that it returns and records is that of the offer, no
  -- commit is left open, and under the name that it returns stands a folder that passes the check against
  -- the manifest.
  pub finalize_folder-IsDelivered :
      (offer : TransferOffer) (manifest : FolderManifest) (validated : Result (Unit {0}))
      (disk after : FolderDisk) (completed : CompletedTransfer)
      → finalize_folder hash_hex nfc to_lowercase offer manifest validated disk
        ≡ (ok completed, after)
      → IsDelivered offer manifest completed after
  finalize_folder-IsDelivered offer manifest validated disk after completed h =
      subst (Delivers offer manifest) h (finalize_folder-Delivers offer manifest validated disk)

  -- When `finalize_folder` succeeds, and the directory that then stands under the name it returns lists no
  -- path twice, every entry of the manifest stands in it: each directory, and each file with the size and
  -- the digest of the manifest; and the record of the transfer says that it is done, with the receipt of
  -- the offer.
  pub finalize_folder_delivers :
      (offer : TransferOffer) (manifest : FolderManifest) (validated : Result (Unit {0}))
      (disk after : FolderDisk) (completed : CompletedTransfer) (tree : Tree)
      → finalize_folder hash_hex nfc to_lowercase offer manifest validated disk
        ≡ (ok completed, after)
      → after.inbox completed.destination ≡ some (tree_at tree)
      → distinct (keys tree) ≡ true
      → All (StandsIn nfc to_lowercase hash_hex tree) manifest.entries
        × (after.done ≡ some (folder_done (stored_offer offer) completed.destination manifest))
  unfolding contents_at
  finalize_folder_delivers offer manifest validated disk after completed tree h there d =
      let delivered = finalize_folder-IsDelivered offer manifest validated disk after completed h in
      (
        validate_folder_contents-StandsIn nfc to_lowercase hash_hex tree manifest d (
            subst
              (λ o. validate_folder_contents hash_hex nfc to_lowercase (tree_of o) manifest ≡ ok tt)
              there delivered.whole),
        delivered.recorded,
      )

  delivered-done_checks :
      (offer : TransferOffer) (manifest : FolderManifest) (completed : CompletedTransfer)
      (disk : FolderDisk)
      → IsDelivered offer manifest completed disk
      → done_checks hash_hex nfc to_lowercase
          (stored_offer offer)
          manifest
          (folder_done (stored_offer offer) completed.destination manifest)
          disk
        ≡ ok (some completed)
  unfolding done_checks validate_completed_folder
  delivered-done_checks offer manifest completed disk d =
      rw (same_offer (stored_offer offer), same_manifest manifest, d.named, d.placed, d.whole)
        (ap (λ (c : CompletedTransfer). ok (some c)) (sym d.completed_is))

  done_answers :
      (done : DoneRecord) (expected : StoredOffer) (manifest : FolderManifest) (disk : FolderDisk)
      (completed : CompletedTransfer)
      → done_checks hash_hex nfc to_lowercase expected manifest done disk ≡ ok (some completed)
      → with_folder_done hash_hex nfc to_lowercase (some done) expected manifest disk
        ≡ (ok (complete completed), disk)
  unfolding with_folder_done
  done_answers done expected manifest disk completed h = rw (h, with_folder_done) refl

  -- After `finalize_folder` has succeeded, the same offer with the same manifest, if it passes the checks
  -- again, is answered as completed, with the receipt and the place that were returned before, and nothing
  -- on disk changes.
  pub prepare_folder-finalize_folder :
      (offer : TransferOffer) (manifest : FolderManifest) (validated : Result (Unit {0}))
      (disk after : FolderDisk) (completed : CompletedTransfer)
      → finalize_folder hash_hex nfc to_lowercase offer manifest validated disk
        ≡ (ok completed, after)
      → prepare_folder hash_hex nfc to_lowercase offer manifest (ok tt) after
        ≡ (ok (complete completed), after)
  unfolding prepare_folder
  prepare_folder-finalize_folder offer manifest validated disk after completed h =
      let d = finalize_folder-IsDelivered offer manifest validated disk after completed h in
      subst
        (λ done.
          with_folder_done hash_hex nfc to_lowercase done (stored_offer offer) manifest after
          ≡ (ok (complete completed), after))
        (sym d.recorded)
        (done_answers (folder_done (stored_offer offer) completed.destination manifest)
          (stored_offer offer) manifest after completed
          (delivered-done_checks offer manifest completed after d))
