-- ===== src/Transport/Receiving.antt =====
-- The stream of one file in `handle_stream` of transport.rs, from the lock of the transfer
-- on, where it is not cancelled or paused, and the connection and the files do not fail. What is read
-- from the connection is a list of reads, none of them longer than is wanted; an empty read is the end.
use ink_hole.Base.{
  ltb, if◌then◌else◌, nat_eq_instance, length, int_eq_instance, option_eq_instance, Text, bytes,
  text_eq_instance, ℕ, ◌+◌, Bool, true, false, Option, none, some, List, [], ◌∷◌, ◌++◌,
}
use ink_hole.Errors.{CoreError, Result, ok, err, io, not_found, protocol, plain, with_numbers}
use ink_hole.Protocol.Filenames.{safe_filename}
use ink_hole.Protocol.Offers.{TransferOffer}
use ink_hole.Store.Disk.{CompletedTransfer, PrepareOutcome, resume, complete, Disk}
use ink_hole.Store.Prepare.{prepare}
use ink_hole.Store.Finalize.{finalize}
use ink_hole.Transport.{
  TransferResponse, resume_at, completed, rejected, TransferEvent, progress, received, progress_at,
}

-- What the handler returns, what it has written to the stream and to the application, and the disk.
pub record Reception : Type 0 where
  pub result : Result (Unit {0})
  pub responses : List TransferResponse
  pub events : List TransferEvent
  pub disk : Disk

-- What the loop comes to: its result, what the part holds, and what has not been read.
pub record PartRead : Type 0 where
  pub result : Result (Unit {0})
  pub contents : List ℕ
  pub events : List TransferEvent
  pub unread : List (List ℕ)

abbrev pub has_more : List (List ℕ) → Bool
has_more [] = false
has_more ([] ∷ reads) = false
has_more ((byte ∷ bytes) ∷ reads) = true

-- The stream has nothing more to give.
abbrev pub at_end : ℕ → List ℕ → TransferOffer → List (List ℕ) → PartRead
at_end done contents offer unread = record {
  result =
      if ltb done offer.size
      then err (protocol (with_numbers "sender disconnected after {} of {} bytes" done offer.size))
      else ok tt;
  contents = contents;
  events = [];
  unread = unread;
}

-- `while received < offer.size`.
unfoldable pub receive_part : List (List ℕ) → ℕ → List ℕ → TransferOffer → PartRead
receive_part [] done contents offer = at_end done contents offer []
receive_part ([] ∷ reads) done contents offer = at_end done contents offer ([] ∷ reads)
receive_part ((byte ∷ bytes) ∷ reads) done contents offer =
    let sum = done + length (byte ∷ bytes) in
    let later = receive_part reads sum (contents ++ (byte ∷ bytes)) offer in
    if ltb done offer.size
    then record later { events = progress (progress_at offer sum) ∷ later.events }
    else at_end done contents offer ((byte ∷ bytes) ∷ reads)

abbrev pub received_of : TransferOffer → CompletedTransfer → TransferEvent
received_of offer done =
    received offer.transfer_id done.destination (safe_filename offer.filename) offer.size
      offer.blake3 offer.sender.instance_id offer.sender.name

-- From what `finalize` returns on.
abbrev pub conclude_file :
    Result CompletedTransfer × Disk → ℕ → List TransferEvent → TransferOffer → Reception
conclude_file (err e, disk) offset events offer = record {
  result = err e;
  responses = resume_at offset ∷ [];
  events = events;
  disk = disk;
}
conclude_file (ok done, disk) offset events offer = record {
  result = ok tt;
  responses = resume_at offset ∷ completed done.receipt ∷ [];
  events = events ++ (received_of offer done ∷ []);
  disk = disk;
}

abbrev pub broken_off : CoreError → ℕ → List TransferEvent → Disk → Reception
broken_off e offset events disk = record {
  result = err e;
  responses = resume_at offset ∷ [];
  events = events;
  disk = disk;
}

-- `to_string` gives the text of an error.
module _ (hash_hex : List ℕ → Text) (to_string : CoreError → Text) where
  -- From the end of the loop on.
  unfoldable pub after_part :
      Result (Unit {0}) → Bool → ℕ → List TransferEvent → TransferOffer → Disk → Reception
  after_part (err e) more offset events offer disk = broken_off e offset events disk
  after_part (ok _) true offset events offer disk =
      broken_off (protocol (plain "sender wrote more bytes than declared")) offset events disk
  after_part (ok _) false offset events offer disk =
      conclude_file (finalize hash_hex offer disk) offset events offer

  -- From the part on, which is opened to append to it.
  unfoldable pub receive_rest :
      Option (List ℕ) → ℕ → TransferOffer → List (List ℕ) → Disk → Reception
  unfolding after_part
  receive_rest none offset offer reads disk = broken_off (io not_found) offset [] disk
  receive_rest (some contents) offset offer reads disk =
      let got = receive_part reads offset contents offer in
      after_part got.result (has_more got.unread) offset
        (progress (progress_at offer offset) ∷ got.events) offer
        (record disk { part = some got.contents })

  -- From what `prepare` returns on.
  unfoldable pub handle_prepared :
      Result PrepareOutcome × Disk → TransferOffer → List (List ℕ) → Reception
  unfolding receive_rest
  handle_prepared (err e, disk) offer reads = record {
    result = err e;
    responses = rejected (to_string e) ∷ [];
    events = [];
    disk = disk;
  }
  handle_prepared (ok (complete done), disk) offer reads = record {
    result = ok tt;
    responses = completed done.receipt ∷ [];
    events = [];
    disk = disk;
  }
  handle_prepared (ok (resume offset), disk) offer reads =
      receive_rest disk.part offset offer reads disk

  -- `validated` is what `TransferOffer::validate` returns.
  unfoldable pub handle_file :
      TransferOffer → (validated : Result (Unit {0})) → List (List ℕ) → Disk → Reception
  unfolding handle_prepared
  handle_file offer validated reads disk =
      handle_prepared (prepare hash_hex offer validated disk) offer reads
