-- ===== src/Transport/Sending.antt =====
-- The end of `send_file` of transport.rs, from the first response on, for a single file, where it is not
-- cancelled, and the connection does not fail. What is read from the source behind the offset is a list
-- of reads, none of them longer than is wanted; an empty read is its end.
use ink_hole.Base.{
  ltb, leb, if◌then◌else◌, ◌==◌, nat_eq_instance, length, int_eq_instance, option_eq_instance,
  bytes, text_eq_instance, ℕ, ◌+◌, Bool, true, false, not, ◌||◌, List, [], ◌∷◌,
}
use ink_hole.Errors.{Result, ok, err, invalid_transfer, protocol, plain, with_text, refuse_if, ◌>>◌}
use ink_hole.Protocol.Offers.{TransferOffer}
use ink_hole.Store.Disk.{TransferReceipt}
use ink_hole.Transport.{
  TransferResponse, resume_at, folder_resume_at, completed, rejected, TransferProgress, progress_at,
}
use ink_hole.Transport.Receiving.{has_more}

unfoldable pub validate_receipt : TransferOffer → TransferReceipt → Result (Unit {0})
validate_receipt offer receipt =
    refuse_if
      (not (receipt.transfer_id == offer.transfer_id)
        || not (receipt.size == offer.size)
        || not (receipt.blake3 == offer.blake3))
      (protocol (plain "receiver returned a mismatched completion receipt"))

-- What the sender returns, what it has written to the stream, and the progress it has reported.
pub record Dispatch : Type 0 where
  pub result : Result TransferReceipt
  pub written : List (List ℕ)
  pub progress : List TransferProgress

-- What the loop comes to.
pub record SourceRead : Type 0 where
  pub result : Result (Unit {0})
  pub written : List (List ℕ)
  pub progress : List TransferProgress
  pub unread : List (List ℕ)

abbrev pub at_source_end : ℕ → TransferOffer → List (List ℕ) → SourceRead
at_source_end sent offer unread = record {
  result =
      if ltb sent offer.size
      then err (invalid_transfer (plain "source file changed while it was being sent"))
      else ok tt;
  written = [];
  progress = [];
  unread = unread;
}

-- `while sent < offer.size`.
unfoldable pub send_source : List (List ℕ) → ℕ → TransferOffer → SourceRead
send_source [] sent offer = at_source_end sent offer []
send_source ([] ∷ reads) sent offer = at_source_end sent offer ([] ∷ reads)
send_source ((byte ∷ bytes) ∷ reads) sent offer =
    let sum = sent + length (byte ∷ bytes) in
    let later = send_source reads sum offer in
    if ltb sent offer.size
    then record later {
      written = (byte ∷ bytes) ∷ later.written;
      progress = progress_at offer sum ∷ later.progress;
    }
    else at_source_end sent offer ((byte ∷ bytes) ∷ reads)

-- The response to the last byte.
unfoldable pub last_response : TransferOffer → TransferResponse → Result TransferReceipt
last_response offer (completed receipt) = do validate_receipt offer receipt; ok receipt
last_response offer (rejected reason) =
    err (protocol (with_text "receiver rejected transfer: {}" reason))
last_response offer (resume_at offset) =
    err (protocol (plain "receiver returned a duplicate resume response"))
last_response offer (folder_resume_at file_index offset done) =
    err (protocol (plain "receiver returned a folder resume response for a file"))

-- From the end of the loop on.
unfoldable pub after_source :
    Result (Unit {0}) → Bool → TransferOffer → TransferResponse → Result TransferReceipt
unfolding last_response
after_source (err e) grown offer response = err e
after_source (ok _) true offer response =
    err (invalid_transfer (plain "source file grew while sending"))
after_source (ok _) false offer response = last_response offer response

abbrev pub nothing_sent : Result TransferReceipt → Dispatch
nothing_sent result = record { result = result; written = []; progress = [] }

-- From the offset on.
unfoldable pub send_from : ℕ → List (List ℕ) → TransferOffer → TransferResponse → Dispatch
unfolding after_source
send_from offset reads offer response =
    let sent = send_source reads offset offer in
    record {
      result = after_source sent.result (has_more sent.unread) offer response;
      written = sent.written;
      progress = progress_at offer offset ∷ sent.progress;
    }

-- From the first response on; `source` is what is read behind an offset, `last` the last response.
unfoldable pub send_file :
    TransferOffer → (first last : TransferResponse) → (source : ℕ → List (List ℕ)) → Dispatch
unfolding send_from
send_file offer (resume_at offset) last source =
    if leb offset offer.size
    then send_from offset (source offset) offer last
    else nothing_sent (err (protocol (plain "receiver returned an invalid resume offset")))
send_file offer (completed receipt) last source =
    nothing_sent (do validate_receipt offer receipt; ok receipt)
send_file offer (rejected reason) last source =
    nothing_sent (err (protocol (with_text "receiver rejected transfer: {}" reason)))
send_file offer (folder_resume_at file_index offset done) last source =
    nothing_sent (err (protocol (plain "receiver returned a folder resume response for a file")))
