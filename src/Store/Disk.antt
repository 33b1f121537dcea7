-- ===== src/Store/Disk.antt =====
-- What the store keeps of a transfer, and what stands on disk: the records of state.rs.
use ink_hole.Base.{
  if◌then◌else◌, ◌==◌, nat_eq_instance, ℤ, int_eq_instance, option_eq_instance, Text, codes,
  text_eq_instance, ℕ, Bool, true, false, not, ◌&&◌, Option, none, some, List, ◌++◌,
}
use ink_hole.Errors.{Result, invalid_transfer, plain, refuse_if}
use ink_hole.Protocol.Filenames.{safe_filename}
use ink_hole.Protocol.Manifest.{TransferKind, file, folder_v1, FolderManifest}
use ink_hole.Protocol.Offers.{TransferOffer}

pub record StoredOffer : Type 0 where
  pub transfer_id : Text
  pub filename : Text
  pub kind : TransferKind
  pub size : ℕ
  pub modified_ms : ℤ
  pub blake3 : Text
  pub sender_instance_id : Text
  pub sender_public_key : Text

pub record TransferReceipt : Type 0 where
  pub transfer_id : Text
  pub size : ℕ
  pub blake3 : Text

pub record CommitRecord : Type 0 where
  pub offer : StoredOffer
  pub destination : Text
  pub manifest : Option FolderManifest

pub record DoneRecord : Type 0 where
  pub offer : StoredOffer
  pub destination : Text
  pub receipt : TransferReceipt
  pub manifest : Option FolderManifest

pub record CompletedTransfer : Type 0 where
  pub receipt : TransferReceipt
  pub destination : Text

pub data PrepareOutcome : Type 0 where
  resume : (offset : ℕ) → PrepareOutcome
  complete : CompletedTransfer → PrepareOutcome

-- What stands under a name in the root: a file, a link to nothing, or a directory or other link.
pub data Node : Type 0 where
  regular : List ℕ → Node
  dangling special : Node

-- The root, and the files that the store keeps for the transfer.
pub record Disk : Type 0 where
  pub inbox : Text → Option Node
  pub part : Option (List ℕ)
  pub metadata : Option StoredOffer
  pub commit : Option CommitRecord
  pub done : Option DoneRecord

-- `StoredOffer::from`.
unfoldable pub stored_offer : TransferOffer → StoredOffer
stored_offer offer = record {
  transfer_id = offer.transfer_id;
  filename = safe_filename offer.filename;
  kind = offer.kind;
  size = offer.size;
  modified_ms = offer.modified_ms;
  blake3 = offer.blake3;
  sender_instance_id = offer.sender.instance_id;
  sender_public_key = offer.sender.public_key;
}

abbrev pub kind_eq : TransferKind → TransferKind → Bool
kind_eq file file = true
kind_eq folder_v1 folder_v1 = true
kind_eq _ _ = false

abbrev pub stored_eq : StoredOffer → StoredOffer → Bool
stored_eq a b =
    a.transfer_id == b.transfer_id
    && a.filename == b.filename
    && kind_eq a.kind b.kind
    && a.size == b.size
    && a.modified_ms == b.modified_ms
    && a.blake3 == b.blake3
    && a.sender_instance_id == b.sender_instance_id
    && a.sender_public_key == b.sender_public_key

unfoldable pub ensure_same_offer : StoredOffer → StoredOffer → Result (Unit {0})
ensure_same_offer expected actual =
    refuse_if (not (stored_eq expected actual))
      (invalid_transfer (plain "transfer_id was reused with different metadata"))

abbrev pub node_exists : Option Node → Bool
node_exists none = false
node_exists (some (regular contents)) = true
node_exists (some dangling) = false
node_exists (some special) = true

-- `try_exists`, which follows links.
abbrev pub try_exists : Disk → Text → Bool
try_exists disk name = node_exists (disk.inbox name)

-- The root with another node under a name.
abbrev pub put : (Text → Option Node) → Text → Node → Text → Option Node
put inbox at node name = if name == at then some node else inbox name

abbrev pub part_path : Text → Text
part_path transfer_id = codes ".inkhole-transfers/" ++ transfer_id ++ codes ".part"

-- What the store tells of an offer that is done.
abbrev pub receipt_of : StoredOffer → TransferReceipt
receipt_of offer = record {
  transfer_id = offer.transfer_id;
  size = offer.size;
  blake3 = offer.blake3;
}

abbrev pub completed_of : StoredOffer → Text → CompletedTransfer
completed_of offer destination = record { receipt = receipt_of offer; destination = destination }

abbrev pub done_of : StoredOffer → Text → DoneRecord
done_of offer destination = record {
  offer = offer;
  destination = destination;
  receipt = receipt_of offer;
  manifest = none;
}
