-- ===== src/Store/Finalize.antt =====
-- The operations of `TransferStore` on a single file, over what they read and write on disk.
use ink_hole.Base.{
  if◌then◌else◌, ◌==◌, nat_eq_instance, length, int_eq_instance, option_eq_instance, Text,
  text_eq_instance, ℕ, not, ◌||◌, Option, none, some, List,
}
use ink_hole.Errors.{
  Result, ok, err, invalid_transfer, digest_mismatch, io, not_found, plain, with_numbers, refuse_if,
  ◌>>=◌, ◌>>◌,
}
use ink_hole.Protocol.Offers.{TransferOffer}
use ink_hole.Store.Destination.{unique_destination, validate_destination_name}
use ink_hole.Store.Disk.{
  StoredOffer, CommitRecord, CompletedTransfer, Node, regular, dangling, special, Disk,
  stored_offer, ensure_same_offer, try_exists, put, part_path, completed_of, done_of,
}

-- `hash_hex` is `blake3_file_hex`, of what a file holds.
module _ (hash_hex : List ℕ → Text) where
  unfoldable pub ensure_file_destination : Text → Option Node → ℕ → Text → Result (Unit {0})
  ensure_file_destination path none size digest = err (io not_found)
  ensure_file_destination path (some dangling) size digest =
      err (invalid_transfer (plain "file destination is not a regular file"))
  ensure_file_destination path (some special) size digest =
      err (invalid_transfer (plain "file destination is not a regular file"))
  ensure_file_destination path (some (regular contents)) size digest =
      refuse_if (not (length contents == size) || not (hash_hex contents == digest))
        (digest_mismatch path)

  -- The commit record: the one that stands, or a new one, which is written.
  unfoldable pub commit_of : StoredOffer → Disk → Result CommitRecord
  commit_of stored disk = elim disk.commit [
    | some found ↦ do
      ensure_same_offer stored found.offer
      validate_destination_name found.destination
      ok found
    | none ↦ do
      destination ← unique_destination (try_exists disk) stored.filename
      ok (record { offer = stored; destination = destination; manifest = none })
  ]

  -- The rename, unless the destination exists.
  unfoldable pub place : CommitRecord → List ℕ → Disk → Disk
  place commit contents disk =
      if try_exists disk commit.destination
      then record disk { commit = some commit }
      else record disk {
        commit = some commit;
        part = none;
        inbox = put disk.inbox commit.destination (regular contents);
      }

  -- The end of `finalize`, after the check of the destination.
  unfoldable pub record_done :
      Result (Unit {0}) → StoredOffer → CommitRecord → Disk → Result CompletedTransfer × Disk
  record_done (err e) stored commit disk = (err e, disk)
  record_done (ok _) stored commit disk = (
    ok (completed_of stored commit.destination),
    record disk { done = some (done_of stored commit.destination); metadata = none; commit = none },
  )

  -- The rename, the check of the destination, and the end.
  unfoldable pub conclude :
      Result CommitRecord → StoredOffer → List ℕ → Disk → Result CompletedTransfer × Disk
  unfolding place record_done
  conclude (err e) stored contents disk = (err e, disk)
  conclude (ok commit) stored contents disk =
      let placed = place commit contents disk in
      record_done
        (ensure_file_destination commit.destination (placed.inbox commit.destination) stored.size
          stored.blake3)
        stored commit placed

  -- From the checks of the part on.
  unfoldable pub finalize_part : TransferOffer → List ℕ → Disk → Result CompletedTransfer × Disk
  unfolding conclude
  finalize_part offer contents disk =
      if not (length contents == offer.size)
      then (
        err (
            invalid_transfer (with_numbers "received {} of {} bytes" (length contents) offer.size)),
        disk,
      )
      else if not (hash_hex contents == offer.blake3)
      then (
        err (digest_mismatch (part_path offer.transfer_id)),
        record disk { part = none; metadata = none; commit = none },
      )
      else conclude (commit_of (stored_offer offer) disk) (stored_offer offer) contents disk

  -- From what the part holds, if there is one.
  unfoldable pub finalize_from :
      Option (List ℕ) → TransferOffer → Disk → Result CompletedTransfer × Disk
  unfolding finalize_part
  finalize_from none offer disk = (err (io not_found), disk)
  finalize_from (some contents) offer disk = finalize_part offer contents disk

  -- `finalize`, with what is on disk when it has returned. A failing operating system is left out,
  -- but for files that are missing.
  unfoldable pub finalize : TransferOffer → Disk → Result CompletedTransfer × Disk
  unfolding finalize_from
  finalize offer disk = finalize_from disk.part offer disk
