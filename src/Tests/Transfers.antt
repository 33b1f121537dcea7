-- ===== src/Tests/Transfers.antt =====
-- Runs of the store of transfers of state.rs.
use ink_hole.Base.{
  if◌then◌else◌, ◌==◌, nat_eq_instance, pos, int_eq_instance, option_eq_instance, Text, codes,
  split, rsplit_once, text_eq, text_eq_instance, ℕ, ◌≡◌, refl, ap, Option, none, some, List, [],
  ◌∷◌, trim_end, trim_step, trim_step,
}
use ink_hole.Errors.{ok, err, digest_mismatch}
use ink_hole.Protocol.Filenames.{safe_filename}
use ink_hole.Protocol.Names.{is_forbidden, windows_reserved_name}
use ink_hole.Protocol.Manifest.{file}
use ink_hole.Protocol.Offers.{TransferOffer}
use ink_hole.Store.Destination.{
  unique_destination, next_free, split_extension, candidate, decimal, validate_destination_name,
  file_name,
}
use ink_hole.Store.Disk.{
  CompletedTransfer, complete, Node, regular, Disk, stored_offer, try_exists, completed_of,
  ensure_same_offer,
}
use ink_hole.Store.Finalize.{
  finalize, finalize_from, finalize_part, commit_of, place, conclude, record_done,
  ensure_file_destination,
}
use ink_hole.Store.Prepare.{
  prepare, with_done, with_commit, recover_commit, recovered, after_recovery,
}
use ink_hole.Store.Prepare.Kept.{IsKept, prepare-IsKept}
use ink_hole.Store.Files.{finalize_keeps_files, finalize_delivers, Delivered}
use ink_hole.Store.Replay.{prepare-finalize}

abbrev report : Text
report = codes "report.txt"

abbrev second_report : Text
second_report = codes "report (2).txt"

abbrev offer : TransferOffer
offer = record {
  protocol_version = 2;
  transfer_id = codes "id";
  filename = report;
  kind = file;
  size = 2;
  modified_ms = pos 5;
  blake3 = codes "hash";
  sender = record { instance_id = codes "a"; name = codes "b"; public_key = codes "c" };
  signature = [];
}

-- One content has the digest that is offered.
abbrev hash_hex : List ℕ → Text
hash_hex contents = if contents == 7 ∷ 8 ∷ [] then codes "hash" else codes "other"

-- An older file has the name already.
abbrev inbox : Text → Option Node
inbox name = if name == report then some (regular (1 ∷ [])) else none

abbrev disk : Disk
disk = record {
  inbox = inbox;
  part = some (7 ∷ 8 ∷ []);
  metadata = none;
  commit = none;
  done = none;
}

second_chosen : unique_destination (try_exists disk) report ≡ ok second_report
unfolding unique_destination next_free split_extension candidate decimal text_eq rsplit_once
second_chosen = refl

finalize_keeps_files_example : (finalize hash_hex offer disk).1.inbox report ≡ disk.inbox report
unfolding text_eq
finalize_keeps_files_example = finalize_keeps_files hash_hex offer disk report refl

abbrev completed : CompletedTransfer
completed = completed_of (stored_offer offer) second_report

-- What is on disk after the end.
abbrev after : Disk
after = (finalize hash_hex offer disk).1

finalized : (finalize hash_hex offer disk).0 ≡ ok completed
unfolding finalize finalize_from finalize_part commit_of place conclude record_done
    ensure_file_destination stored_offer safe_filename unique_destination next_free split_extension
    candidate decimal text_eq rsplit_once is_forbidden windows_reserved_name split trim_end
    trim_step
finalized = refl

finalize_delivers_example : Delivered hash_hex (stored_offer offer) completed after
finalize_delivers_example =
    finalize_delivers hash_hex offer disk after completed (ap (λ r. (r, after)) finalized)

prepare-finalize_example : prepare hash_hex offer (ok tt) after ≡ (ok (complete completed), after)
prepare-finalize_example =
    prepare-finalize hash_hex offer disk after completed (ap (λ r. (r, after)) finalized) refl

-- The name is on record, and the file may or may not be in place.
abbrev committed : List ℕ → Disk
committed contents = record {
  inbox = λ name. if name == second_report then some (regular contents) else none;
  part = none;
  metadata = some (stored_offer offer);
  commit =
      some (record { offer = stored_offer offer; destination = second_report; manifest = none });
  done = none;
}

-- The name is taken by another file: the offer is refused, and what is staged stays.
taken_is_refused :
    prepare hash_hex offer (ok tt) (committed (1 ∷ []))
    ≡ (err (digest_mismatch second_report), committed (1 ∷ []))
unfolding prepare with_done with_commit recover_commit recovered after_recovery ensure_same_offer
    ensure_file_destination stored_offer text_eq validate_destination_name file_name safe_filename
    is_forbidden windows_reserved_name split trim_end trim_step
taken_is_refused = refl

prepare-IsKept_example :
    IsKept (committed (1 ∷ [])) (prepare hash_hex offer (ok tt) (committed (1 ∷ [])))
prepare-IsKept_example = prepare-IsKept hash_hex offer (ok tt) (committed (1 ∷ []))
