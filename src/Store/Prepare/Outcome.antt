-- ===== src/Store/Prepare/Outcome.antt =====
-- What stands on disk when `prepare` of state.rs has returned.
use ink_hole.Base.{
  ltb, leb, Bool-cases, Option-cases, nat_eq_instance, length, int_eq_instance, option_eq_instance,
  Text, text_eq_instance, ℕ, ◌≡◌, refl, sym, subst, inl, inr, true, not, Option, none, some, List,
  [], arith, if_elim, passed,
}
use ink_hole.Errors.{
  Result, ok, err, Result-cases, then-eq-ok, ok-inj, ◌>>◌, refuse_if, invalid_transfer, plain,
}
use ink_hole.Protocol.Offers.{TransferOffer}
use ink_hole.Store.Destination.{validate_destination_name}
use ink_hole.Store.Disk.{
  StoredOffer, CommitRecord, DoneRecord, CompletedTransfer, PrepareOutcome, resume, complete, Disk,
  stored_offer, ensure_same_offer, try_exists,
}
use ink_hole.Store.Finalize.{ensure_file_destination}
use ink_hole.Store.Files.{Holds, ensure_file_destination-Holds}
use ink_hole.Store.Prepare.{
  is_file, take_up, resume_part, validate_completed, recovered, recover_commit, after_recovery,
  with_commit, with_done, prepare,
}

pub found_is : {a b : CompletedTransfer} → some a ≡ some b → a ≡ b
found_is e = cc

pub nothing_found : {a : CompletedTransfer} → none ≡ some a → ⊥
nothing_found e = cc

module _ (hash_hex : List ℕ → Text) where
  -- A part that is taken up at its end, and is not longer than the offer.
  pub record TakenUp (size offset : ℕ) (disk : Disk) : Type 0 where
    pub contents : List ℕ
    pub is_part : disk.part ≡ some contents
    pub at_its_end : offset ≡ length contents
    pub fits : leb offset size ≡ true

  -- That the file that a receipt is for stands in the root.
  abbrev pub Stands : CompletedTransfer → Disk → Type 0
  Stands done disk =
      Holds hash_hex (disk.inbox done.destination) done.receipt.size done.receipt.blake3

  abbrev pub IsPrepared : ℕ → Result PrepareOutcome × Disk → Type 0
  IsPrepared size (err e, disk) = Unit
  IsPrepared size (ok (complete done), disk) = Stands done disk
  IsPrepared size (ok (resume offset), disk) = TakenUp size offset disk

  take_up-IsPrepared : (size : ℕ) (disk : Disk) → IsPrepared size (take_up size disk)
  unfolding take_up
  take_up-IsPrepared size disk = elim (Option-cases disk.part) [
    | inl missing ↦
        rw (missing, take_up)
          (record { contents = []; is_part = refl; at_its_end = refl; fits = ground arith })
    | inr (contents, there) ↦
        rw (there, take_up)
          (if_elim (IsPrepared size) (ltb size (length contents)) (λ large. tt)
            (λ fits. record {
              contents = contents;
              is_part = there;
              at_its_end = refl;
              fits = ground (arith, fits);
            }))
  ]

  resume_part-IsPrepared :
      (expected : StoredOffer) (disk : Disk) → IsPrepared expected.size (resume_part expected disk)
  unfolding resume_part
  resume_part-IsPrepared expected disk = elim (Option-cases disk.metadata) [
    | inl missing ↦
        rw (missing, resume_part)
          (take_up-IsPrepared expected.size (record disk { part = none; metadata = some expected }))
    | inr (stored, there) ↦
        rw (there, resume_part)
          (elim (Result-cases (ensure_same_offer expected stored)) [
            | inl (e, refused) ↦ rw refused tt
            | inr (done, passed) ↦ rw passed (take_up-IsPrepared expected.size disk)
          ])
  ]

  recovered-IsPrepared :
      (checked : Result (Unit {0})) (commit : CommitRecord) (expected : StoredOffer) (disk : Disk)
      → checked
        ≡ ensure_file_destination hash_hex commit.destination
            (disk.inbox commit.destination)
            commit.offer.size
            commit.offer.blake3
      → IsPrepared expected.size (
          after_recovery hash_hex
            (recovered hash_hex checked commit disk).0
            expected
            (recovered hash_hex checked commit disk).1)
  unfolding recovered after_recovery
  recovered-IsPrepared (err e) commit expected disk checked = tt
  recovered-IsPrepared (ok done) commit expected disk checked =
      ensure_file_destination-Holds hash_hex commit.destination (disk.inbox commit.destination)
        commit.offer.size commit.offer.blake3 (sym checked)

  with_commit-IsPrepared :
      (commit : Option CommitRecord) (expected : StoredOffer) (disk : Disk)
      → IsPrepared expected.size (with_commit hash_hex commit expected disk)
  unfolding with_commit recover_commit after_recovery
  with_commit-IsPrepared none expected disk = resume_part-IsPrepared expected disk
  with_commit-IsPrepared (some commit) expected disk =
      elim (Result-cases (ensure_same_offer expected commit.offer)) [
        | inl (e, refused) ↦ rw (refused, with_commit) tt
        | inr (done, passed) ↦
            rw (passed, with_commit)
              (elim (Result-cases (validate_destination_name commit.destination)) [
                | inl (e, bad) ↦ rw (bad, recover_commit) tt
                | inr (valid, named) ↦
                    rw (named, recover_commit)
                      (if_elim
                        (λ (r : Result (Option CompletedTransfer) × Disk).
                          IsPrepared expected.size (after_recovery hash_hex r.0 expected r.1))
                        (not (try_exists disk commit.destination))
                        (λ missing. resume_part-IsPrepared expected disk)
                        (λ stands. recovered-IsPrepared _ commit expected disk refl))
              ])
      ]

  validate_completed-Stands :
      (done : DoneRecord) (disk : Disk) (completed : CompletedTransfer)
      → validate_completed hash_hex done disk ≡ ok (some completed)
      → Stands completed disk
  unfolding validate_completed
  validate_completed-Stands done disk completed h =
      let (named, h1) = then-eq-ok (validate_destination_name done.destination) _ h in
      elim (Bool-cases (try_exists disk done.destination)) [
        | inl there ↦
            let (checked, same) =
              then-eq-ok
                (ensure_file_destination hash_hex done.destination (disk.inbox done.destination)
                  done.receipt.size done.receipt.blake3)
                _ (rw there at h1) in
            let holds =
              ensure_file_destination-Holds hash_hex done.destination (disk.inbox done.destination)
                done.receipt.size done.receipt.blake3 checked in
            subst (λ c. Stands c disk) (found_is (ok-inj same)) holds
        | inr gone ↦ absurd (nothing_found (ok-inj (rw gone at h1)))
      ]

  with_done-IsPrepared :
      (done : Option DoneRecord) (expected : StoredOffer) (disk : Disk)
      → IsPrepared expected.size (with_done hash_hex done expected disk)
  unfolding with_done
  with_done-IsPrepared none expected disk = with_commit-IsPrepared disk.commit expected disk
  with_done-IsPrepared (some done) expected disk =
      elim (Result-cases
        (ensure_same_offer expected done.offer >> validate_completed hash_hex done disk)) [
          | inl (e, refused) ↦ rw (refused, with_done) tt
          | inr (none, gone) ↦
              rw (gone, with_done)
                (with_commit-IsPrepared disk.commit expected (record disk { done = none }))
          | inr (some completed, found) ↦
              rw (found, with_done)
                (validate_completed-Stands done disk completed
                  (then-eq-ok (ensure_same_offer expected done.offer) _ found).1)
        ]

  -- When `prepare` takes a transfer up, the part that is staged ends where it says, and is not longer than
  -- the offer; when it says that the transfer is complete, the file that the receipt is for stands in the
  -- root, under the name that is returned, with the size and the digest of the receipt.
  pub prepare-IsPrepared :
      (offer : TransferOffer) (validated : Result (Unit {0})) (disk : Disk)
      → IsPrepared offer.size (prepare hash_hex offer validated disk)
  unfolding prepare stored_offer
  prepare-IsPrepared offer validated disk =
      elim (Result-cases (
        validated
        >> refuse_if (not (is_file offer.kind)) (
            invalid_transfer
              (plain "folder transfers are not enabled in this protocol revision")))) [
                | inl (e, refused) ↦ rw (refused, prepare) tt
                | inr (done, passed) ↦
                    rw (passed, prepare) (with_done-IsPrepared disk.done (stored_offer offer) disk)
              ]
