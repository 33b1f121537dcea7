-- ===== src/Tests/Exchanges.antt =====
-- Runs of the two ends of a transfer of transport.rs.
use ink_hole.Base.{
  if◌then◌else◌, ◌==◌, nat_eq_instance, pos, int_eq_instance, option_eq_instance, Text, codes,
  split, rsplit_once, text_eq, text_eq_instance, ℕ, zero, suc, ◌≡◌, refl, Option, none, some, List,
  [], ◌∷◌, trim_end, trim_step, trim_step,
}
use ink_hole.Errors.{CoreError, ok}
use ink_hole.Protocol.Filenames.{safe_filename}
use ink_hole.Protocol.Names.{is_forbidden, windows_reserved_name}
use ink_hole.Protocol.Manifest.{file}
use ink_hole.Protocol.Offers.{TransferOffer}
use ink_hole.Store.Destination.{unique_destination, next_free, split_extension}
use ink_hole.Store.Disk.{resume, CommitRecord, Node, Disk, stored_offer, ensure_same_offer}
use ink_hole.Store.Finalize.{commit_of}
use ink_hole.Store.Prepare.{prepare, with_done, with_commit, resume_part, take_up}
use ink_hole.Transport.{resume_at, completed}
use ink_hole.Transport.Receiving.{handle_file}
use ink_hole.Transport.Sending.{send_file}
use ink_hole.Transport.Receipts.{Answers, handle_file-Answers}
use ink_hole.Transport.Exchange.{Exchanged, receipt_for, exchange_completes}

abbrev report : Text
report = codes "report.txt"

abbrev offer : TransferOffer
offer = record {
  protocol_version = 2;
  transfer_id = codes "id";
  filename = report;
  kind = file;
  size = 4;
  modified_ms = pos 5;
  blake3 = codes "hash";
  sender = record { instance_id = codes "a"; name = codes "b"; public_key = codes "c" };
  signature = [];
}

abbrev hash_hex : List ℕ → Text
hash_hex contents = if contents == 7 ∷ 8 ∷ 9 ∷ 6 ∷ [] then codes "hash" else codes "other"

abbrev to_string : CoreError → Text
to_string e = codes "error"

abbrev inbox : Text → Option Node
inbox name = none

-- The first byte has arrived before.
abbrev disk : Disk
disk = record { inbox = inbox; part = some (7 ∷ []); metadata = none; commit = none; done = none }

abbrev begun : Disk
begun = record disk { metadata = some (stored_offer offer) }

-- What the sender reads behind an offset, in two reads.
abbrev source : ℕ → List (List ℕ)
source zero = (7 ∷ []) ∷ (8 ∷ 9 ∷ 6 ∷ []) ∷ []
source (suc n) = (8 ∷ 9 ∷ []) ∷ (6 ∷ []) ∷ []

abbrev commit : CommitRecord
commit = record { offer = stored_offer offer; destination = report; manifest = none }

taken_up : prepare hash_hex offer (ok tt) begun ≡ (ok (resume 1), begun)
unfolding prepare with_done with_commit resume_part take_up stored_offer safe_filename is_forbidden
    windows_reserved_name split text_eq rsplit_once trim_end trim_step ensure_same_offer
taken_up = refl

chosen : commit_of hash_hex (stored_offer offer) begun ≡ ok commit
unfolding commit_of stored_offer safe_filename is_forbidden windows_reserved_name split text_eq
    rsplit_once trim_end trim_step unique_destination next_free split_extension
chosen = refl

exchange_completes_example :
    Exchanged offer 1 report
      (7 ∷ 8 ∷ 9 ∷ 6 ∷ [])
      (handle_file hash_hex to_string offer
        (ok tt)
        (send_file offer (resume_at 1) (completed (receipt_for offer)) source).written
        begun)
      (send_file offer (resume_at 1) (completed (receipt_for offer)) source).result
unfolding text_eq
exchange_completes_example =
    exchange_completes hash_hex to_string offer begun begun 1 (7 ∷ []) source commit taken_up refl
      (refl, (refl, tt)) refl refl chosen refl

handle_file-Answers_example :
    Answers hash_hex
      (handle_file hash_hex to_string offer (ok tt) (source 1) begun).result
      (handle_file hash_hex to_string offer (ok tt) (source 1) begun).responses
      (handle_file hash_hex to_string offer (ok tt) (source 1) begun).disk
handle_file-Answers_example = handle_file-Answers hash_hex to_string offer (ok tt) (source 1) begun
