-- ===== src/Store/Prepare/Kept.antt =====
-- What `prepare` of state.rs leaves as it was.
use ink_hole.Base.{
  ltb, Option-cases, nat_eq_instance, length, int_eq_instance, option_eq_instance, Text,
  text_eq_instance, ℕ, ◌≡◌, refl, ◌⊎◌, inl, inr, not, Option, none, some, List, [], if_elim, passed,
}
use ink_hole.Errors.{Result, ok, err, Result-cases, ◌>>◌, refuse_if, invalid_transfer, plain}
use ink_hole.Protocol.Offers.{TransferOffer}
use ink_hole.Store.Destination.{validate_destination_name}
use ink_hole.Store.Disk.{
  StoredOffer, CommitRecord, DoneRecord, CompletedTransfer, PrepareOutcome, resume, complete, Disk,
  stored_offer, ensure_same_offer, try_exists,
}
use ink_hole.Store.Prepare.{
  is_file, take_up, resume_part, validate_completed, recovered, recover_commit, after_recovery,
  with_commit, with_done, prepare,
}

-- What is not the root, nor the record of the end.
pub record HasStaging (before after : Disk) : Type 0 where
  pub same_part : after.part ≡ before.part
  pub same_metadata : after.metadata ≡ before.metadata
  pub same_commit : after.commit ≡ before.commit

abbrev pub IsKept : Disk → Result PrepareOutcome × Disk → Type 0
IsKept before (err e, after) = (after.inbox ≡ before.inbox) × HasStaging before after
IsKept before (ok (complete done), after) = after.inbox ≡ before.inbox
IsKept before (ok (resume offset), after) =
    (after.inbox ≡ before.inbox)
    × (after.commit ≡ before.commit)
    × ((after.part ≡ before.part) ⊎ ((offset ≡ 0) × (after.part ≡ some [])))

module _ (before : Disk) where
  take_up-IsKept :
      (size : ℕ) (disk : Disk)
      → disk.inbox ≡ before.inbox
      → HasStaging before disk
      → IsKept before (take_up size disk)
  unfolding take_up
  take_up-IsKept size disk root staging = elim (Option-cases disk.part) [
    | inl missing ↦ rw (missing, take_up) (root, staging.same_commit, inr (refl, refl))
    | inr (contents, there) ↦
        rw (there, take_up)
          (if_elim (IsKept before) (ltb size (length contents)) (λ large. (root, staging))
            (λ fits. (root, staging.same_commit, inl staging.same_part)))
  ]

  resume_part-IsKept :
      (expected : StoredOffer) (disk : Disk)
      → disk.inbox ≡ before.inbox
      → HasStaging before disk
      → IsKept before (resume_part expected disk)
  unfolding resume_part take_up
  resume_part-IsKept expected disk root staging = elim (Option-cases disk.metadata) [
    | inl missing ↦ rw (missing, resume_part) (root, staging.same_commit, inr (refl, refl))
    | inr (stored, there) ↦
        rw (there, resume_part)
          (elim (Result-cases (ensure_same_offer expected stored)) [
            | inl (e, refused) ↦ rw refused (root, staging)
            | inr (done, passed) ↦ rw passed (take_up-IsKept expected.size disk root staging)
          ])
  ]

module _ (hash_hex : List ℕ → Text) (before : Disk) where
  recovered-IsKept :
      (checked : Result (Unit {0})) (commit : CommitRecord) (expected : StoredOffer) (disk : Disk)
      → disk.inbox ≡ before.inbox
      → HasStaging before disk
      → IsKept before (
          after_recovery hash_hex
            (recovered hash_hex checked commit disk).0
            expected
            (recovered hash_hex checked commit disk).1)
  unfolding recovered after_recovery
  recovered-IsKept (err e) commit expected disk root staging = (root, staging)
  recovered-IsKept (ok done) commit expected disk root staging = root

  with_commit-IsKept :
      (commit : Option CommitRecord) (expected : StoredOffer) (disk : Disk)
      → disk.inbox ≡ before.inbox
      → HasStaging before disk
      → IsKept before (with_commit hash_hex commit expected disk)
  unfolding with_commit recover_commit after_recovery
  with_commit-IsKept none expected disk root staging =
      resume_part-IsKept before expected disk root staging
  with_commit-IsKept (some commit) expected disk root staging =
      elim (Result-cases (ensure_same_offer expected commit.offer)) [
        | inl (e, refused) ↦ rw (refused, with_commit) (root, staging)
        | inr (done, passed) ↦
            rw (passed, with_commit)
              (elim (Result-cases (validate_destination_name commit.destination)) [
                | inl (e, bad) ↦ rw (bad, recover_commit) (root, staging)
                | inr (valid, named) ↦
                    rw (named, recover_commit)
                      (if_elim
                        (λ (r : Result (Option CompletedTransfer) × Disk).
                          IsKept before (after_recovery hash_hex r.0 expected r.1))
                        (not (try_exists disk commit.destination))
                        (λ missing. resume_part-IsKept before expected disk root staging)
                        (λ stands. recovered-IsKept _ commit expected disk root staging))
              ])
      ]

  with_done-IsKept :
      (done : Option DoneRecord) (expected : StoredOffer) (disk : Disk)
      → disk.inbox ≡ before.inbox
      → HasStaging before disk
      → IsKept before (with_done hash_hex done expected disk)
  unfolding with_done
  with_done-IsKept none expected disk root staging =
      with_commit-IsKept disk.commit expected disk root staging
  with_done-IsKept (some done) expected disk root staging =
      elim (Result-cases
        (ensure_same_offer expected done.offer >> validate_completed hash_hex done disk)) [
          | inl (e, refused) ↦ rw (refused, with_done) (root, staging)
          | inr (none, gone) ↦
              rw (gone, with_done)
                (with_commit-IsKept disk.commit expected (record disk { done = none }) root
                  (record {
                    same_part = staging.same_part;
                    same_metadata = staging.same_metadata;
                    same_commit = staging.same_commit;
                  }))
          | inr (some completed, found) ↦ rw (found, with_done) root
        ]

module _ (hash_hex : List ℕ → Text) where
  same_staging : (disk : Disk) → HasStaging disk disk
  same_staging disk = record { same_part = refl; same_metadata = refl; same_commit = refl }

  -- However `prepare` ends, the root is as it was. When it fails, the part, the metadata and the commit
  -- record are as they were, so that no staged byte is lost; when it takes the transfer up, the commit
  -- record is as it was, and so is the part, or it starts anew, empty, at offset zero.
  pub prepare-IsKept :
      (offer : TransferOffer) (validated : Result (Unit {0})) (disk : Disk)
      → IsKept disk (prepare hash_hex offer validated disk)
  unfolding prepare
  prepare-IsKept offer validated disk =
      elim (Result-cases (
        validated
        >> refuse_if (not (is_file offer.kind)) (
            invalid_transfer
              (plain "folder transfers are not enabled in this protocol revision")))) [
                | inl (e, refused) ↦ rw (refused, prepare) (refl, same_staging disk)
                | inr (done, passed) ↦
                    rw (passed, prepare)
                      (with_done-IsKept hash_hex disk disk.done (stored_offer offer) disk refl
                        (same_staging disk))
              ]
