-- ===== src/Transport/Exchange.antt =====
-- The two ends of a transfer of transport.rs together: what the sender writes is what the receiver reads.
use mathlib.Core.List.{append_assoc, append-nil}
use ink_hole.Base.{
  ltb, nat_eq_instance, beq_self, length, length-append, All, int_eq_instance, option_eq_instance,
  Text, bytes, text_eq_instance, ℕ, ◌+◌, ◌≡◌, refl, sym, ap, subst, ◌∙◌, true, false, some, List,
  [], ◌∷◌, ◌++◌, arith,
}
use ink_hole.Errors.{CoreError, Result, ok, err, ok-inj}
use ink_hole.Protocol.Offers.{TransferOffer}
use ink_hole.Store.Disk.{
  CommitRecord, CompletedTransfer, TransferReceipt, resume, Disk, regular, stored_offer, receipt_of,
  completed_of, try_exists,
}
use ink_hole.Store.Prepare.{prepare}
use ink_hole.Store.Prepare.Outcome.{TakenUp, IsPrepared, prepare-IsPrepared}
use ink_hole.Store.Finalize.{commit_of, finalize}
use ink_hole.Store.Completion.{Finalized, finalize_whole}
use ink_hole.Store.Folders.Resumed.{joined, Gave}
use ink_hole.Transport.{TransferResponse, resume_at, completed, TransferEvent}
use ink_hole.Transport.Receiving.{
  Reception, PartRead, receive_part, conclude_file, after_part, receive_rest, handle_prepared,
  handle_file,
}
use ink_hole.Transport.Sending.{
  validate_receipt, SourceRead, send_source, last_response, after_source, send_from, send_file,
}

-- The sender writes all that it reads.
record Writes (reads : List (List ℕ)) (r : SourceRead) : Type 0 where
  well : r.result ≡ ok tt
  all_written : r.written ≡ reads
  all_read : r.unread ≡ []

send_source-Writes :
    (reads : List (List ℕ)) (sent : ℕ) (offer : TransferOffer)
    → All Gave reads
    → sent + length (joined reads) ≡ offer.size
    → Writes reads (send_source reads sent offer)
unfolding send_source
send_source-Writes [] sent offer g size = record {
  well = ground arith;
  all_written = refl;
  all_read = refl;
}
send_source-Writes ([] ∷ reads) sent offer g size = absurd (clash g.0)
  where
    clash : false ≡ true → ⊥
    clash h = cc
send_source-Writes ((b ∷ bytes) ∷ reads) sent offer g size =
    let read = b ∷ bytes in
    let more : ltb sent offer.size ≡ true = ground (arith, length-append read (joined reads)) in
    let later =
      send_source-Writes reads (sent + length read) offer g.1
        (omega (arith, size, length-append read (joined reads))) in
    rw more (record {
      well = later.well;
      all_written = ap (◌∷◌ read) later.all_written;
      all_read = later.all_read;
    })

-- The receiver's part holds all that it reads.
record Fills (contents : List ℕ) (r : PartRead) : Type 0 where
  well : r.result ≡ ok tt
  filled : r.contents ≡ contents
  all_read : r.unread ≡ []

receive_part-Fills :
    (reads : List (List ℕ)) (contents : List ℕ) (offer : TransferOffer)
    → All Gave reads
    → length (contents ++ joined reads) ≡ offer.size
    → Fills (contents ++ joined reads) (receive_part reads (length contents) contents offer)
unfolding receive_part
receive_part-Fills [] contents offer g size = record {
  well = ground (arith, ap length (append-nil contents));
  filled = sym (append-nil contents);
  all_read = refl;
}
receive_part-Fills ([] ∷ reads) contents offer g size = absurd (clash g.0)
  where
    clash : false ≡ true → ⊥
    clash h = cc
receive_part-Fills ((b ∷ bytes) ∷ reads) contents offer g size =
    let read = b ∷ bytes in
    let grouped = append_assoc contents read (joined reads) in
    let more : ltb (length contents) offer.size ≡ true =
      ground (arith, length-append contents (read ++ joined reads)) in
    let later = receive_part-Fills reads (contents ++ read) offer g.1 (ap length grouped ∙ size) in
    rw (more, sym (length-append contents read), sym grouped)
      (record { well = later.well; filled = later.filled; all_read = later.all_read })

abbrev pub receipt_for : TransferOffer → TransferReceipt
receipt_for offer = receipt_of (stored_offer offer)

validate_receipt_for : (offer : TransferOffer) → validate_receipt offer (receipt_for offer) ≡ ok tt
unfolding validate_receipt stored_offer
validate_receipt_for offer =
    rw (beq_self offer.transfer_id, beq_self offer.size, beq_self offer.blake3) refl

send_from-accepted :
    (offer : TransferOffer) (offset : ℕ) (reads : List (List ℕ))
    → Writes reads (send_source reads offset offer)
    → (send_from offset reads offer (completed (receipt_for offer))).result ≡ ok (receipt_for offer)
unfolding send_from after_source last_response
send_from-accepted offer offset reads w = rw (w.well, w.all_read, validate_receipt_for offer) refl

send_from-written :
    (offer : TransferOffer) (offset : ℕ) (reads : List (List ℕ)) (last : TransferResponse)
    → Writes reads (send_source reads offset offer)
    → (send_from offset reads offer last).written ≡ reads
unfolding send_from
send_from-written offer offset reads last w = w.all_written

-- What the receiver has come to.
record Placed (offer : TransferOffer) (offset : ℕ) (name : Text) (contents : List ℕ) (r : Reception)
    : Type 0 where
  well : r.result ≡ ok tt
  answers : r.responses ≡ resume_at offset ∷ completed (receipt_for offer) ∷ []
  in_place : r.disk.inbox name ≡ some (regular contents)

conclude_file-Placed :
    (r : Result CompletedTransfer × Disk) (offset : ℕ) (events : List TransferEvent)
    (offer : TransferOffer) (name : Text) (contents : List ℕ)
    → Finalized (stored_offer offer) name contents r
    → Placed offer offset name contents (conclude_file r offset events offer)
conclude_file-Placed (err e, disk) offset events offer name contents f =
    let failed : ◌≡◌ {A = Result CompletedTransfer} (err e)
        (ok (completed_of (stored_offer offer) name)) =
      f.result_is in
    cc
conclude_file-Placed (ok done, disk) offset events offer name contents f = record {
  well = refl;
  answers =
      ap (λ (c : CompletedTransfer). resume_at offset ∷ completed c.receipt ∷ [])
        (ok-inj f.result_is);
  in_place = f.in_place;
}

module _ (hash_hex : List ℕ → Text) (to_string : CoreError → Text) where
  receive_rest-Placed :
      (offer : TransferOffer) (commit : CommitRecord) (part : List ℕ) (reads : List (List ℕ))
      (disk : Disk)
      → All Gave reads
      → length (part ++ joined reads) ≡ offer.size
      → hash_hex (part ++ joined reads) ≡ offer.blake3
      → commit_of hash_hex (stored_offer offer) disk ≡ ok commit
      → try_exists disk commit.destination ≡ false
      → Placed offer
          (length part)
          commit.destination
          (part ++ joined reads)
          (receive_rest hash_hex to_string (some part) (length part) offer reads disk)
  unfolding receive_rest after_part commit_of
  receive_rest-Placed offer commit part reads disk g size digest chosen free =
      let f = receive_part-Fills reads part offer g size in
      let got = receive_part reads (length part) part offer in
      let written = record disk { part = some got.contents } in
      rw (f.well, f.all_read)
        (conclude_file-Placed (finalize hash_hex offer written) (length part) _ offer
          commit.destination (part ++ joined reads)
          (finalize_whole hash_hex offer commit (part ++ joined reads) written (ap some f.filled)
            size digest chosen free))

-- What a transfer has come to at both ends.
pub record Exchanged (offer : TransferOffer) (offset : ℕ) (name : Text) (contents : List ℕ)
    (r : Reception) (sent : Result TransferReceipt) : Type 0 where
  pub well : r.result ≡ ok tt
  pub answers : r.responses ≡ resume_at offset ∷ completed (receipt_for offer) ∷ []
  pub in_place : r.disk.inbox name ≡ some (regular contents)
  pub accepted : sent ≡ ok (receipt_for offer)

same_part : {a b : List ℕ} → some a ≡ some b → a ≡ b
same_part e = cc

module _ (hash_hex : List ℕ → Text) (to_string : CoreError → Text) where
  -- If the receiver takes an offer up behind a part, what the sender reads of its source behind that part
  -- makes up, with the part, the contents that were offered, every read gives something, and the name
  -- that is chosen for the file, or is on record for it, is free, then both ends succeed: the receiver
  -- answers with the offset and the receipt, the file stands under that name with these contents, and the
  -- sender, from these answers, returns the receipt.
  pub exchange_completes :
      (offer : TransferOffer) (disk after : Disk) (offset : ℕ) (part : List ℕ)
      (source : ℕ → List (List ℕ)) (commit : CommitRecord)
      → prepare hash_hex offer (ok tt) disk ≡ (ok (resume offset), after)
      → after.part ≡ some part
      → All Gave (source offset)
      → length (part ++ joined (source offset)) ≡ offer.size
      → hash_hex (part ++ joined (source offset)) ≡ offer.blake3
      → commit_of hash_hex (stored_offer offer) after ≡ ok commit
      → try_exists after commit.destination ≡ false
      → Exchanged offer offset commit.destination
          (part ++ joined (source offset))
          (handle_file hash_hex to_string offer
            (ok tt)
            (send_file offer (resume_at offset) (completed (receipt_for offer)) source).written
            disk)
          (send_file offer (resume_at offset) (completed (receipt_for offer)) source).result
  unfolding handle_file handle_prepared send_file
  exchange_completes offer disk after offset part source commit prepared there g size digest chosen
        free =
      let taken : TakenUp hash_hex offer.size offset after =
        subst (IsPrepared hash_hex offer.size) prepared
          (prepare-IsPrepared hash_hex offer (ok tt) disk) in
      let ends : offset ≡ length part =
        taken.at_its_end ∙ ap length (same_part (sym taken.is_part ∙ there)) in
      let w =
        send_source-Writes (source offset) offset offer g
          (omega (arith, size, ends, length-append part (joined (source offset)))) in
      let placed =
        subst
          (λ o.
            Placed offer o commit.destination (part ++ joined (source offset))
              (receive_rest hash_hex to_string after.part o offer (source offset) after))
          (sym ends)
          (subst
            (λ o.
              Placed offer (length part) commit.destination (part ++ joined (source offset))
                (receive_rest hash_hex to_string o (length part) offer (source offset) after))
            (sym there)
            (receive_rest-Placed hash_hex to_string offer commit part (source offset) after g size
              digest chosen free)) in
      rw
        (
          taken.fits,
          prepared,
          send_from-written offer offset (source offset) (completed (receipt_for offer)) w,
        )
        (record {
          well = placed.well;
          answers = placed.answers;
          in_place = placed.in_place;
          accepted = send_from-accepted offer offset (source offset) w;
        })
