-- ===== src/Transport.antt =====
-- rust/crates/inkhole-core/src/transport.rs: what the two ends of a transfer say to each other and tell
-- the application, with `TransferResponse` of protocol.rs.
pub mod Receiving
pub mod Sending
pub mod Receipts
pub mod Exchange
pub mod Folders
pub mod FolderReceipts
use ink_hole.Base.{nat_eq_instance, int_eq_instance, option_eq_instance, Text, text_eq_instance, ℕ}
use ink_hole.Errors.{CoreError}
use ink_hole.Protocol.Filenames.{safe_filename}
use ink_hole.Protocol.Offers.{TransferOffer}
use ink_hole.Store.Disk.{TransferReceipt}

-- `Resume`, `FolderResume`, `Complete` and `Rejected`.
pub data TransferResponse : Type 0 where
  resume_at : (offset : ℕ) → TransferResponse
  folder_resume_at : (file_index offset done : ℕ) → TransferResponse
  completed : (receipt : TransferReceipt) → TransferResponse
  rejected : (reason : Text) → TransferResponse

pub record TransferProgress : Type 0 where
  pub transfer_id : Text
  pub filename : Text
  pub done : ℕ
  pub total : ℕ

pub data TransferEvent : Type 0 where
  progress : TransferProgress → TransferEvent
  received :
      (transfer_id path filename : Text) (size : ℕ) (blake3 sender_instance_id sender_name : Text)
      → TransferEvent
  status : (message : Text) → TransferEvent

-- `TransferProgress` as both ends make it, with `safe_event_filename`.
abbrev pub progress_at : TransferOffer → ℕ → TransferProgress
progress_at offer done = record {
  transfer_id = offer.transfer_id;
  filename = safe_filename offer.filename;
  done = done;
  total = offer.size;
}
