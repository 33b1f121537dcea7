-- ===== src/Store/Files.antt =====
-- What finalizing a transfer does to the files in the root.
use ink_hole.Base.{
  Bool-cases, Option-cases, ◌==◌, nat_eq_instance, length, int_eq_instance, option_eq_instance,
  Text, text_eq_iff, text_eq_instance, ℕ, ◌≡◌, refl, sym, ap, subst, ◌∙◌, inl, inr, Bool, true,
  false, not, Option, none, some, List, arith, if_elim,
}
use ink_hole.Errors.{Result, ok, err, ok-inj, >>=-eq-ok, then-eq-ok}
use ink_hole.Protocol.Filenames.{safe_filename}
use ink_hole.Store.Destination.{validate_destination_name, unique_destination}
use ink_hole.Store.Destination.Naming.{unique_destination-valid}
use ink_hole.Protocol.Offers.{TransferOffer}
use ink_hole.Store.Disk.{
  ensure_same_offer, StoredOffer, CommitRecord, CompletedTransfer, Node, regular, dangling, special,
  Disk, stored_offer, try_exists, put, completed_of, done_of,
}
use ink_hole.Store.Finalize.{
  commit_of, ensure_file_destination, place, record_done, conclude, finalize_part, finalize_from,
  finalize,
}

clash : (b : Bool) → b ≡ true → b ≡ false → ⊥
clash b h k = cc

module _ (hash_hex : List ℕ → Text) where
  put-other :
      (disk : Disk) (destination name : Text) (node : Node)
      → try_exists disk destination ≡ false
      → try_exists disk name ≡ true
      → put disk.inbox destination node name ≡ disk.inbox name
  put-other disk destination name node free taken = elim (Bool-cases (name == destination)) [
    | inl same ↦ absurd (
        clash (try_exists disk name) taken
          (ap (try_exists disk) ((text_eq_iff name destination).0 same) ∙ free))
    | inr apart ↦ rw apart
  ]

  place-inbox :
      (commit : CommitRecord) (contents : List ℕ) (disk : Disk) (name : Text)
      → try_exists disk name ≡ true
      → (place hash_hex commit contents disk).inbox name ≡ disk.inbox name
  unfolding place
  place-inbox commit contents disk name taken =
      if_elim (λ (d : Disk). d.inbox name ≡ disk.inbox name) (try_exists disk commit.destination)
        (λ _. refl) (λ free. put-other disk commit.destination name (regular contents) free taken)

  record_done-inbox :
      (r : Result (Unit {0})) (stored : StoredOffer) (commit : CommitRecord) (disk : Disk)
      → (record_done hash_hex r stored commit disk).1.inbox ≡ disk.inbox
  unfolding record_done
  record_done-inbox (err e) stored commit disk = refl
  record_done-inbox (ok u) stored commit disk = refl

  conclude-inbox :
      (r : Result CommitRecord) (stored : StoredOffer) (contents : List ℕ) (disk : Disk)
      (name : Text)
      → try_exists disk name ≡ true
      → (conclude hash_hex r stored contents disk).1.inbox name ≡ disk.inbox name
  unfolding conclude
  conclude-inbox (err e) stored contents disk name taken = refl
  conclude-inbox (ok commit) stored contents disk name taken =
      ap (λ inbox. inbox name)
        (record_done-inbox _ stored commit (place hash_hex commit contents disk))
      ∙ place-inbox commit contents disk name taken

  finalize_part-inbox :
      (offer : TransferOffer) (contents : List ℕ) (disk : Disk) (name : Text)
      → try_exists disk name ≡ true
      → (finalize_part hash_hex offer contents disk).1.inbox name ≡ disk.inbox name
  unfolding finalize_part
  finalize_part-inbox offer contents disk name taken =
      if_elim (λ (r : Result CompletedTransfer × Disk). r.1.inbox name ≡ disk.inbox name)
        (not (length contents == offer.size)) (λ _. refl)
        (λ _.
          if_elim (λ (r : Result CompletedTransfer × Disk). r.1.inbox name ≡ disk.inbox name)
            (not (hash_hex contents == offer.blake3)) (λ _. refl)
            (λ _. conclude-inbox _ (stored_offer offer) contents disk name taken))

  finalize_from-inbox :
      (o : Option (List ℕ)) (offer : TransferOffer) (disk : Disk) (name : Text)
      → try_exists disk name ≡ true
      → (finalize_from hash_hex o offer disk).1.inbox name ≡ disk.inbox name
  unfolding finalize_from
  finalize_from-inbox none offer disk name taken = refl
  finalize_from-inbox (some contents) offer disk name taken =
      finalize_part-inbox offer contents disk name taken

  -- Whether a transfer is finalized or fails, a file, a directory, or a link that leads somewhere, that
  -- stood under a name in the root stands there still, unchanged. A link that leads nowhere does not
  -- count as standing.
  pub finalize_keeps_files :
      (offer : TransferOffer) (disk : Disk) (name : Text)
      → try_exists disk name ≡ true
      → (finalize hash_hex offer disk).1.inbox name ≡ disk.inbox name
  unfolding finalize
  finalize_keeps_files offer disk name = finalize_from-inbox disk.part offer disk name

  -- That a node is a file with the offered contents.
  pub record Holds (node : Option Node) (size : ℕ) (digest : Text) : Type 0 where
    pub contents : List ℕ
    pub is_regular : node ≡ some (regular contents)
    pub has_size : length contents ≡ size
    pub has_digest : hash_hex contents ≡ digest

  pub ensure_file_destination-Holds :
      (path : Text) (node : Option Node) (size : ℕ) (digest : Text)
      → ensure_file_destination hash_hex path node size digest ≡ ok tt
      → Holds node size digest
  unfolding ensure_file_destination
  ensure_file_destination-Holds path none size digest h = cc
  ensure_file_destination-Holds path (some dangling) size digest h = cc
  ensure_file_destination-Holds path (some special) size digest h = cc
  ensure_file_destination-Holds path (some (regular contents)) size digest h = record {
    contents = contents;
    is_regular = refl;
    has_size = ground arith;
    has_digest = ground (arith, text_eq_iff (hash_hex contents) digest);
  }

  -- What is so once a transfer has been finalized.
  pub record Delivered (stored : StoredOffer) (completed : CompletedTransfer) (after : Disk)
      : Type 0 where
    pub same_completed : completed ≡ completed_of stored completed.destination
    pub file_in_place : Holds (after.inbox completed.destination) stored.size stored.blake3
    pub file_checked :
        ensure_file_destination hash_hex completed.destination
          (after.inbox completed.destination)
          stored.size
          stored.blake3
        ≡ ok tt
    pub done_written : after.done ≡ some (done_of stored completed.destination)
    pub commit_removed : after.commit ≡ none
    pub named : validate_destination_name completed.destination ≡ ok tt

  commit_of-valid :
      (offer : TransferOffer) (disk : Disk) (commit : CommitRecord)
      → commit_of hash_hex (stored_offer offer) disk ≡ ok commit
      → validate_destination_name commit.destination ≡ ok tt
  unfolding commit_of stored_offer
  commit_of-valid offer disk commit h = elim (Option-cases disk.commit) [
    | inl fresh ↦
        let (name, chosen, made) =
          >>=-eq-ok (unique_destination (try_exists disk) (safe_filename offer.filename)) _
            (rw (fresh, commit_of) at h) in
        subst (λ (c : CommitRecord). validate_destination_name c.destination ≡ ok tt) (ok-inj made)
          (unique_destination-valid (try_exists disk) offer.filename name chosen)
    | inr (found, there) ↦
        let (_, h1) =
          then-eq-ok (ensure_same_offer (stored_offer offer) found.offer) _
            (rw (there, commit_of) at h) in
        let (valid, same) = then-eq-ok (validate_destination_name found.destination) _ h1 in
        subst (λ (c : CommitRecord). validate_destination_name c.destination ≡ ok tt) (ok-inj same)
          valid
  ]

  record_done-Delivered :
      (r : Result (Unit {0})) (stored : StoredOffer) (commit : CommitRecord) (disk : Disk)
      (completed : CompletedTransfer)
      → r
        ≡ ensure_file_destination hash_hex commit.destination
            (disk.inbox commit.destination)
            stored.size
            stored.blake3
      → validate_destination_name commit.destination ≡ ok tt
      → (record_done hash_hex r stored commit disk).0 ≡ ok completed
      → Delivered stored completed (record_done hash_hex r stored commit disk).1
  unfolding record_done
  record_done-Delivered (err e) stored commit disk completed checked valid h = cc
  record_done-Delivered (ok u) stored commit disk completed checked valid h =
      subst (λ c. Delivered stored c (record_done hash_hex (ok u) stored commit disk).1) (ok-inj h)
        (record {
          same_completed = refl;
          file_in_place =
              ensure_file_destination-Holds commit.destination (disk.inbox commit.destination)
                stored.size stored.blake3 (sym checked);
          file_checked = sym checked;
          done_written = refl;
          commit_removed = refl;
          named = valid;
        })

  conclude-Delivered :
      (r : Result CommitRecord) (stored : StoredOffer) (contents : List ℕ) (disk : Disk)
      (completed : CompletedTransfer)
      → ((commit : CommitRecord)
          → r ≡ ok commit
          → validate_destination_name commit.destination ≡ ok tt)
      → (conclude hash_hex r stored contents disk).0 ≡ ok completed
      → Delivered stored completed (conclude hash_hex r stored contents disk).1
  unfolding conclude
  conclude-Delivered (err e) stored contents disk completed valid h = cc
  conclude-Delivered (ok commit) stored contents disk completed valid h =
      record_done-Delivered _ stored commit (place hash_hex commit contents disk) completed refl
        (valid commit refl) h

  finalize_part-Delivered :
      (offer : TransferOffer) (contents : List ℕ) (disk : Disk) (completed : CompletedTransfer)
      → (finalize_part hash_hex offer contents disk).0 ≡ ok completed
      → Delivered (stored_offer offer) completed (finalize_part hash_hex offer contents disk).1
  unfolding finalize_part
  finalize_part-Delivered offer contents disk completed =
      if_elim
        (λ (r : Result CompletedTransfer × Disk).
          r.0 ≡ ok completed → Delivered (stored_offer offer) completed r.1)
        (not (length contents == offer.size)) (λ _ h. cc)
        (λ _.
          if_elim
            (λ (r : Result CompletedTransfer × Disk).
              r.0 ≡ ok completed → Delivered (stored_offer offer) completed r.1)
            (not (hash_hex contents == offer.blake3)) (λ _ h. cc)
            (λ _.
              conclude-Delivered (commit_of hash_hex (stored_offer offer) disk) (stored_offer offer)
                contents disk completed (commit_of-valid offer disk)))

  finalize_from-Delivered :
      (o : Option (List ℕ)) (offer : TransferOffer) (disk : Disk) (completed : CompletedTransfer)
      → (finalize_from hash_hex o offer disk).0 ≡ ok completed
      → Delivered (stored_offer offer) completed (finalize_from hash_hex o offer disk).1
  unfolding finalize_from
  finalize_from-Delivered none offer disk completed h = cc
  finalize_from-Delivered (some contents) offer disk completed h =
      finalize_part-Delivered offer contents disk completed h

  -- A transfer that is finalized has its file in the root, under the name that is returned, with the
  -- offered size and digest; the transfer is on record as done, its commit is removed, and the name is
  -- one that the records of the store accept.
  pub finalize_delivers :
      (offer : TransferOffer) (disk after : Disk) (completed : CompletedTransfer)
      → finalize hash_hex offer disk ≡ (ok completed, after)
      → Delivered (stored_offer offer) completed after
  unfolding finalize
  finalize_delivers offer disk after completed h =
      subst (λ d. Delivered (stored_offer offer) completed d) (ap (λ r. r.1) h)
        (finalize_from-Delivered disk.part offer disk completed (ap (λ r. r.0) h))
