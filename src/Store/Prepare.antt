-- ===== src/Store/Prepare.antt =====
-- `prepare` of state.rs: how a transfer is taken up, anew, where it broke off, or as completed.
pub mod Outcome
pub mod Kept
use ink_hole.Base.{
  ltb, if◌then◌else◌, nat_eq_instance, length, int_eq_instance, option_eq_instance, Text,
  text_eq_instance, ℕ, Bool, true, false, not, Option, none, some, List, [],
}
use ink_hole.Errors.{Result, ok, err, invalid_transfer, plain, refuse_if, ◌>>◌}
use ink_hole.Protocol.Manifest.{TransferKind, file, folder_v1}
use ink_hole.Protocol.Offers.{TransferOffer}
use ink_hole.Store.Destination.{validate_destination_name}
use ink_hole.Store.Disk.{
  StoredOffer, CommitRecord, DoneRecord, CompletedTransfer, PrepareOutcome, resume, complete, Disk,
  stored_offer, ensure_same_offer, try_exists, completed_of, done_of,
}
use ink_hole.Store.Finalize.{ensure_file_destination}
use ink_hole.Protocol.Manifest.{file}

abbrev pub is_file : TransferKind → Bool
is_file file = true
is_file folder_v1 = false

-- The tail of `prepare`: the metadata, and the length of the part, which is made if it is missing.
unfoldable pub take_up : ℕ → Disk → Result PrepareOutcome × Disk
take_up size disk = elim disk.part [
  | none ↦ (ok (resume 0), record disk { part = some [] })
  | some contents ↦
      if ltb size (length contents)
      then (err (invalid_transfer (plain "partial transfer is larger than the offer")), disk)
      else (ok (resume (length contents)), disk)
]

unfoldable pub resume_part : StoredOffer → Disk → Result PrepareOutcome × Disk
unfolding take_up
resume_part expected disk = elim disk.metadata [
  | some stored ↦ elim (ensure_same_offer expected stored) [
    | err e ↦ (err e, disk)
    | ok _ ↦ take_up expected.size disk
  ]
  | none ↦ take_up expected.size (record disk { part = none; metadata = some expected })
]

module _ (hash_hex : List ℕ → Text) where
  -- `validate_completed`.
  unfoldable pub validate_completed : DoneRecord → Disk → Result (Option CompletedTransfer)
  validate_completed done disk = do
    validate_destination_name done.destination
    if try_exists disk done.destination
        then (do
          ensure_file_destination hash_hex done.destination (disk.inbox done.destination)
              done.receipt.size done.receipt.blake3
          ok (some (record { receipt = done.receipt; destination = done.destination })))
        else ok none

  -- The end of `recover_commit`, after the check of the destination.
  unfoldable pub recovered :
      Result (Unit {0}) → CommitRecord → Disk → Result (Option CompletedTransfer) × Disk
  recovered (err e) commit disk = (err e, disk)
  recovered (ok _) commit disk = (
    ok (some (completed_of commit.offer commit.destination)),
    record disk {
      done = some (done_of commit.offer commit.destination);
      part = none;
      metadata = none;
      commit = none;
    },
  )

  -- `recover_commit`: a commit whose file is in place is brought to its end.
  unfoldable pub recover_commit : CommitRecord → Disk → Result (Option CompletedTransfer) × Disk
  unfolding recovered
  recover_commit commit disk = elim (validate_destination_name commit.destination) [
    | err e ↦ (err e, disk)
    | ok _ ↦
        if not (try_exists disk commit.destination)
        then (ok none, disk)
        else recovered
            (ensure_file_destination hash_hex commit.destination (disk.inbox commit.destination)
              commit.offer.size commit.offer.blake3)
            commit disk
  ]

  unfoldable pub after_recovery :
      Result (Option CompletedTransfer) → StoredOffer → Disk → Result PrepareOutcome × Disk
  unfolding resume_part
  after_recovery (err e) expected disk = (err e, disk)
  after_recovery (ok (some completed)) expected disk = (ok (complete completed), disk)
  after_recovery (ok none) expected disk = resume_part expected disk

  -- `prepare` from the commit record on, which is the argument.
  unfoldable pub with_commit :
      Option CommitRecord → StoredOffer → Disk → Result PrepareOutcome × Disk
  unfolding recover_commit after_recovery
  with_commit none expected disk = resume_part expected disk
  with_commit (some commit) expected disk = elim (ensure_same_offer expected commit.offer) [
    | err e ↦ (err e, disk)
    | ok _ ↦ after_recovery (recover_commit commit disk).0 expected (recover_commit commit disk).1
  ]

  -- `prepare` from the record of a completed transfer on, which is the argument.
  unfoldable pub with_done : Option DoneRecord → StoredOffer → Disk → Result PrepareOutcome × Disk
  unfolding validate_completed with_commit
  with_done none expected disk = with_commit disk.commit expected disk
  with_done (some done) expected disk =
      elim (ensure_same_offer expected done.offer >> validate_completed done disk) [
        | err e ↦ (err e, disk)
        | ok (some completed) ↦ (ok (complete completed), disk)
        | ok none ↦ with_commit disk.commit expected (record disk { done = none })
      ]

  -- `prepare`; `validated` is what `TransferOffer::validate` returns.
  unfoldable pub prepare :
      TransferOffer → (validated : Result (Unit {0})) → Disk → Result PrepareOutcome × Disk
  unfolding with_done
  prepare offer validated disk =
      elim (validated
        >> refuse_if (not (is_file offer.kind)) (
            invalid_transfer
              (plain "folder transfers are not enabled in this protocol revision"))) [
                | err e ↦ (err e, disk)
                | ok _ ↦ with_done disk.done (stored_offer offer) disk
              ]
