-- ===== src/Store/Completion.antt =====
-- When `finalize` of state.rs succeeds.
use ink_hole.Base.{
  nat_eq_instance, beq_self, length, int_eq_instance, option_eq_instance, Text, text_eq_instance, ℕ,
  ◌≡◌, refl, sym, subst, false, some, List,
}
use ink_hole.Errors.{Result, ok}
use ink_hole.Protocol.Offers.{TransferOffer}
use ink_hole.Store.Disk.{
  StoredOffer, CommitRecord, CompletedTransfer, Disk, regular, stored_offer, completed_of,
  try_exists,
}
use ink_hole.Store.Finalize.{
  commit_of, ensure_file_destination, place, record_done, conclude, finalize_part, finalize_from,
  finalize,
}

-- That a transfer was finalized under a name, with these contents.
pub record Finalized (stored : StoredOffer) (name : Text) (contents : List ℕ)
    (r : Result CompletedTransfer × Disk) : Type 0 where
  pub result_is : r.0 ≡ ok (completed_of stored name)
  pub in_place : r.1.inbox name ≡ some (regular contents)

module _ (hash_hex : List ℕ → Text) where
  conclude-Finalized :
      (stored : StoredOffer) (commit : CommitRecord) (contents : List ℕ) (disk : Disk)
      → length contents ≡ stored.size
      → hash_hex contents ≡ stored.blake3
      → try_exists disk commit.destination ≡ false
      → Finalized stored commit.destination contents
          (conclude hash_hex (ok commit) stored contents disk)
  unfolding conclude place record_done ensure_file_destination
  conclude-Finalized stored commit contents disk size digest free =
      rw
        (
          free,
          beq_self commit.destination,
          size,
          digest,
          beq_self stored.size,
          beq_self stored.blake3,
        )
        (record { result_is = refl; in_place = rw (beq_self commit.destination) refl })

  -- A transfer whose part is whole, with the size and the digest of the offer, is finalized if the name
  -- that was chosen for it, or is on record for it, is free: it then stands there with these contents.
  pub finalize_whole :
      (offer : TransferOffer) (commit : CommitRecord) (contents : List ℕ) (disk : Disk)
      → disk.part ≡ some contents
      → length contents ≡ offer.size
      → hash_hex contents ≡ offer.blake3
      → commit_of hash_hex (stored_offer offer) disk ≡ ok commit
      → try_exists disk commit.destination ≡ false
      → Finalized (stored_offer offer) commit.destination contents (finalize hash_hex offer disk)
  unfolding finalize finalize_from finalize_part stored_offer
  finalize_whole offer commit contents disk part size digest chosen free =
      subst
        (λ o.
          Finalized (stored_offer offer) commit.destination contents
            (finalize_from hash_hex o offer disk))
        (sym part)
        (rw (size, digest, beq_self offer.size, beq_self offer.blake3, chosen)
          (conclude-Finalized (stored_offer offer) commit contents disk size digest free))
