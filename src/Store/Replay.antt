-- ===== src/Store/Replay.antt =====
-- What `prepare` finds of a transfer that was finalized, or that broke off as it was.
use ink_hole.Base.{
  nat_eq_instance, beq_self, int_eq_instance, option_eq_instance, Text, text_eq_instance, ℕ, ◌≡◌,
  refl, sym, ap, ◌∙◌, true, Option, none, some, List,
}
use ink_hole.Errors.{ok}
use ink_hole.Protocol.Filenames.{safe_filename}
use ink_hole.Protocol.Offers.{TransferOffer}
use ink_hole.Protocol.Manifest.{TransferKind, file, folder_v1}
use ink_hole.Store.Destination.{validate_destination_name}
use ink_hole.Store.Disk.{
  StoredOffer, CompletedTransfer, complete, Node, regular, Disk, stored_offer, kind_eq,
  ensure_same_offer, node_exists, try_exists, completed_of, done_of,
}
use ink_hole.Store.Finalize.{ensure_file_destination, finalize}
use ink_hole.Store.Prepare.{
  is_file, recovered, recover_commit, after_recovery, with_commit, with_done, validate_completed,
  prepare,
}
use ink_hole.Store.Files.{finalize_delivers}

kind_eq_self : (k : TransferKind) → kind_eq k k ≡ true
kind_eq_self file = refl
kind_eq_self folder_v1 = refl

pub same_offer : (offer : StoredOffer) → ensure_same_offer offer offer ≡ ok tt
unfolding ensure_same_offer
same_offer offer = rw (
  beq_self offer.transfer_id,
  beq_self offer.filename,
  kind_eq_self offer.kind,
  beq_self offer.size,
  beq_self offer.modified_ms,
  beq_self offer.blake3,
  beq_self offer.sender_instance_id,
  beq_self offer.sender_public_key,
)

regular_exists :
    (found : Option Node) (contents : List ℕ)
    → found ≡ some (regular contents)
    → node_exists found ≡ true
regular_exists found contents e = rw e refl

module _ (hash_hex : List ℕ → Text) where
  done_found :
      (stored : StoredOffer) (destination : Text) (disk : Disk)
      → validate_destination_name destination ≡ ok tt
      → try_exists disk destination ≡ true
      → ensure_file_destination hash_hex destination
          (disk.inbox destination)
          stored.size
          stored.blake3
        ≡ ok tt
      → with_done hash_hex (some (done_of stored destination)) stored disk
        ≡ (ok (complete (completed_of stored destination)), disk)
  unfolding with_done validate_completed
  done_found stored destination disk valid exists checked =
      rw (same_offer stored, valid, exists, checked, with_done, validate_completed)

  -- A transfer of a file that has been finalized is found complete when it is offered again:
  -- the peer gets the same receipt, and nothing on disk changes.
  pub prepare-finalize :
      (offer : TransferOffer) (disk after : Disk) (completed : CompletedTransfer)
      → finalize hash_hex offer disk ≡ (ok completed, after)
      → is_file offer.kind ≡ true
      → prepare hash_hex offer (ok tt) after ≡ (ok (complete completed), after)
  unfolding prepare
  prepare-finalize offer disk after completed h kind =
      let d = finalize_delivers hash_hex offer disk after completed h in
      let stored = stored_offer offer in
      let found =
        done_found stored completed.destination after d.named
          (regular_exists (after.inbox completed.destination) d.file_in_place.contents
            d.file_in_place.is_regular)
          d.file_checked in
      rw (kind, prepare)
        (ap (λ o. with_done hash_hex o stored after) d.done_written
          ∙ found
          ∙ ap (λ c. (ok (complete c), after)) (sym d.same_completed))

  commit_found :
      (offer : TransferOffer) (destination : Text) (disk : Disk)
      → validate_destination_name destination ≡ ok tt
      → try_exists disk destination ≡ true
      → ensure_file_destination hash_hex destination
          (disk.inbox destination)
          offer.size
          offer.blake3
        ≡ ok tt
      → with_commit hash_hex
          (some (record { offer = stored_offer offer; destination = destination; manifest = none }))
          (stored_offer offer)
          disk
        ≡ (
          ok (complete (completed_of (stored_offer offer) destination)),
          record disk {
            done = some (done_of (stored_offer offer) destination);
            part = none;
            metadata = none;
            commit = none;
          },
        )
  unfolding stored_offer with_commit safe_filename
  commit_found offer destination disk valid exists checked = rw (
    same_offer (stored_offer offer),
    valid,
    exists,
    checked,
    with_commit,
    recover_commit,
    recovered,
    after_recovery,
  )

  -- If a transfer has a valid name on record but is not done, and what stands under this name passes
  -- the check against the offer, then `prepare` finds it complete, puts it on record as done, and
  -- removes the part and the other records.
  pub prepare_recovers :
      (offer : TransferOffer) (destination : Text) (disk : Disk)
      → is_file offer.kind ≡ true
      → disk.done ≡ none
      → disk.commit
        ≡ some (record { offer = stored_offer offer; destination = destination; manifest = none })
      → validate_destination_name destination ≡ ok tt
      → try_exists disk destination ≡ true
      → ensure_file_destination hash_hex destination
          (disk.inbox destination)
          offer.size
          offer.blake3
        ≡ ok tt
      → prepare hash_hex offer (ok tt) disk ≡ (
        ok (complete (completed_of (stored_offer offer) destination)),
        record disk {
          done = some (done_of (stored_offer offer) destination);
          part = none;
          metadata = none;
          commit = none;
        },
      )
  unfolding prepare with_done
  prepare_recovers offer destination disk kind fresh committed valid exists checked =
      rw (kind, prepare)
        (ap (λ o. with_done hash_hex o (stored_offer offer) disk) fresh
          ∙ ap (λ o. with_commit hash_hex o (stored_offer offer) disk) committed
          ∙ commit_found offer destination disk valid exists checked)
