-- ===== src/Transport/Receipts.antt =====
-- When a receiver sends a receipt, in `handle_stream` of transport.rs.
use ink_hole.Base.{
  nat_eq_instance, any, int_eq_instance, option_eq_instance, Text, text_eq_instance, ℕ, ◌≡◌, refl,
  sym, ap, subst, Bool, true, false, Option, none, some, List, [], ◌∷◌, ◌++◌,
}
use ink_hole.Errors.{CoreError, Result, ok, err}
use ink_hole.Protocol.Offers.{TransferOffer}
use ink_hole.Store.Disk.{CompletedTransfer, TransferReceipt, PrepareOutcome, resume, complete, Disk}
use ink_hole.Store.Prepare.{prepare}
use ink_hole.Store.Prepare.Outcome.{IsPrepared, prepare-IsPrepared}
use ink_hole.Store.Finalize.{finalize}
use ink_hole.Store.Files.{Holds, finalize_delivers}
use ink_hole.Transport.{
  TransferResponse, resume_at, folder_resume_at, completed, rejected, TransferEvent, progress,
  progress_at,
}
use ink_hole.Transport.Receiving.{
  Reception, receive_part, has_more, conclude_file, after_part, receive_rest, handle_prepared,
  handle_file,
}

abbrev pub is_receipt : TransferResponse → Bool
is_receipt (completed receipt) = true
is_receipt (resume_at offset) = false
is_receipt (folder_resume_at file_index offset done) = false
is_receipt (rejected reason) = false

module _ (hash_hex : List ℕ → Text) where
  -- That the last response is a receipt, and its file stands in the root.
  pub record Receipted (responses : List TransferResponse) (disk : Disk) : Type 0 where
    pub before : List TransferResponse
    pub receipt : TransferReceipt
    pub name : Text
    pub is_last : responses ≡ before ++ (completed receipt ∷ [])
    pub stands : Holds hash_hex (disk.inbox name) receipt.size receipt.blake3

  abbrev pub Answers : Result (Unit {0}) → List TransferResponse → Disk → Type 0
  Answers (ok done) responses disk = Receipted responses disk
  Answers (err e) responses disk = any is_receipt responses ≡ false

  abbrev IsAnswered : Reception → Type 0
  IsAnswered r = Answers r.result r.responses r.disk

  conclude_file-IsAnswered :
      (r : Result CompletedTransfer × Disk) (offset : ℕ) (events : List TransferEvent)
      (offer : TransferOffer) (disk : Disk)
      → finalize hash_hex offer disk ≡ r
      → IsAnswered (conclude_file r offset events offer)
  conclude_file-IsAnswered (err e, after) offset events offer disk h = refl
  conclude_file-IsAnswered (ok done, after) offset events offer disk h =
      let delivered = finalize_delivers hash_hex offer disk after done h in
      record {
        before = resume_at offset ∷ [];
        receipt = done.receipt;
        name = done.destination;
        is_last = refl;
        stands =
            subst
              (λ (r : TransferReceipt).
                Holds hash_hex (after.inbox done.destination) r.size r.blake3)
              (sym (ap (λ (c : CompletedTransfer). c.receipt) delivered.same_completed))
              delivered.file_in_place;
      }

  module _ (to_string : CoreError → Text) where
    after_part-IsAnswered :
        (result : Result (Unit {0})) (more : Bool) (offset : ℕ) (events : List TransferEvent)
        (offer : TransferOffer) (disk : Disk)
        → IsAnswered (after_part hash_hex to_string result more offset events offer disk)
    unfolding after_part
    after_part-IsAnswered (err e) more offset events offer disk = refl
    after_part-IsAnswered (ok done) true offset events offer disk = refl
    after_part-IsAnswered (ok done) false offset events offer disk =
        conclude_file-IsAnswered (finalize hash_hex offer disk) offset events offer disk refl

    receive_rest-IsAnswered :
        (part : Option (List ℕ)) (offset : ℕ) (offer : TransferOffer) (reads : List (List ℕ))
        (disk : Disk)
        → IsAnswered (receive_rest hash_hex to_string part offset offer reads disk)
    unfolding receive_rest
    receive_rest-IsAnswered none offset offer reads disk = refl
    receive_rest-IsAnswered (some contents) offset offer reads disk =
        let got = receive_part reads offset contents offer in
        after_part-IsAnswered got.result (has_more got.unread) offset
          (progress (progress_at offer offset) ∷ got.events) offer
          (record disk { part = some got.contents })

    handle_prepared-IsAnswered :
        (r : Result PrepareOutcome × Disk) (offer : TransferOffer) (reads : List (List ℕ))
        → IsPrepared hash_hex offer.size r
        → IsAnswered (handle_prepared hash_hex to_string r offer reads)
    unfolding handle_prepared
    handle_prepared-IsAnswered (err e, disk) offer reads p = refl
    handle_prepared-IsAnswered (ok (complete done), disk) offer reads p = record {
      before = [];
      receipt = done.receipt;
      name = done.destination;
      is_last = refl;
      stands = p;
    }
    handle_prepared-IsAnswered (ok (resume offset), disk) offer reads p =
        receive_rest-IsAnswered disk.part offset offer reads disk

    -- Whatever the sender sends: if the receiver of a file succeeds, its last response is a receipt, and a
    -- file with the size and the digest of the receipt stands in the root; if it fails, it has sent no
    -- receipt.
    pub handle_file-Answers :
        (offer : TransferOffer) (validated : Result (Unit {0})) (reads : List (List ℕ))
        (disk : Disk)
        → Answers
            (handle_file hash_hex to_string offer validated reads disk).result
            (handle_file hash_hex to_string offer validated reads disk).responses
            (handle_file hash_hex to_string offer validated reads disk).disk
    unfolding handle_file
    handle_file-Answers offer validated reads disk =
        handle_prepared-IsAnswered (prepare hash_hex offer validated disk) offer reads
          (prepare-IsPrepared hash_hex offer validated disk)
