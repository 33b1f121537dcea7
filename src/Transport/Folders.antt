-- ===== src/Transport/Folders.antt =====
-- `handle_folder_stream` of transport.rs, where it is not cancelled or paused, and the connection does not
-- fail. What is read from the connection is a list of reads, none of them longer than is wanted; an empty
-- read is the end. The progress that is reported is left out.
use ink_hole.Base.{
  ltb, leb, if◌then◌else◌, nat_eq_instance, length, int_eq_instance, checked_add,
  option_eq_instance, Text, bytes, text_eq_instance, ℕ, zero, suc, ◌+◌, ◌-◌, Bool, true, false,
  none, some, List, [], ◌∷◌,
}
use ink_hole.Errors.{CoreError, ErrorKind, Result, ok, err, invalid_transfer, protocol, plain}
use ink_hole.Protocol.Manifest.{FolderEntry, FolderManifest}
use ink_hole.Protocol.Offers.{TransferOffer}
use ink_hole.Store.Disk.{CompletedTransfer}
use ink_hole.Store.Tree.{Tree, Step, bad}
use ink_hole.Store.Folders.{FolderDisk, tree_at}
use ink_hole.Store.Folders.Prepare.{
  PrepareFolderOutcome, resume, complete, files_of, prepare_folder,
}
use ink_hole.Store.Folders.Files.{open_folder_file, receive_reads, verify_folder_file}
use ink_hole.Store.Folders.Finalize.{staged_tree, finalize_folder}
use ink_hole.Transport.{TransferResponse, folder_resume_at, completed, rejected, TransferEvent}
use ink_hole.Transport.Receiving.{has_more, received_of}

pub record FolderReception : Type 0 where
  pub result : Result (Unit {0})
  pub responses : List TransferResponse
  pub events : List TransferEvent
  pub disk : FolderDisk

-- What a turn of the loop over the files comes to: its result, the staged tree, and what was said.
pub record FileTurn : Type 0 where
  pub result : Result (Unit {0})
  pub tree : Tree
  pub responses : List TransferResponse

pub record FilesRead : Type 0 where
  pub turn : FileTurn
  pub unread : List (List ℕ)

-- What is left when a file has been read from where it stood up to its size.
unfoldable pub unread_after : List (List ℕ) → (file_received size : ℕ) → List (List ℕ)
unread_after [] file_received size = []
unread_after ([] ∷ reads) file_received size = [] ∷ reads
unread_after ((byte ∷ bytes) ∷ reads) file_received size =
    let later = unread_after reads (file_received + length (byte ∷ bytes)) size in
    if ltb file_received size then later else (byte ∷ bytes) ∷ reads

-- `skip` of an iterator.
abbrev pub skip : ℕ → List FolderEntry → List FolderEntry
skip zero entries = entries
skip (suc n) [] = []
skip (suc n) (entry ∷ entries) = skip n entries

abbrev pub file_done : Tree → FileTurn
file_done tree = record { result = ok tt; tree = tree; responses = [] }

-- `from_offset` of the file: the offset for the first one.
abbrev pub next_file : FileTurn → (Tree → FilesRead) → FilesRead
next_file turn next = elim turn.result [
  | err e ↦ record { turn = turn; unread = [] }
  | ok _ ↦ next turn.tree
]

abbrev pub stopped : CoreError → List TransferResponse → FolderDisk → FolderReception
stopped e responses disk = record {
  result = err e;
  responses = responses;
  events = [];
  disk = disk;
}

module _ (hash_hex : List ℕ → Text) (on_directory : ErrorKind) (to_string : CoreError → Text) where
  abbrev pub refuses : CoreError → Tree → FileTurn
  refuses e tree = record { result = err e; tree = tree; responses = rejected (to_string e) ∷ [] }

  -- From what `verify_folder_file` returns on.
  unfoldable pub after_verify : Step → FileTurn
  after_verify (err e, tree) = refuses e tree
  after_verify (ok done, tree) = file_done tree

  -- From the end of the loop over the reads on.
  unfoldable pub after_reads : Step → FolderEntry → FileTurn
  unfolding after_verify
  after_reads (err e, tree) entry = record { result = err e; tree = tree; responses = [] }
  after_reads (ok done, tree) entry =
      after_verify (verify_folder_file hash_hex on_directory tree entry)

  -- From what `open_folder_file` returns on.
  unfoldable pub after_open :
      Step → FolderEntry → (offset received total : ℕ) → List (List ℕ) → FileTurn
  unfolding after_reads
  after_open (err e, tree) entry offset received total reads = refuses e tree
  after_open (ok done, tree) entry offset received total reads =
      after_reads (receive_reads reads offset received total tree entry) entry

  -- The loop over the files; the offset is that of the first one.
  unfoldable pub receive_files :
      List FolderEntry → (offset received total : ℕ) → List (List ℕ) → Tree → FilesRead
  unfolding after_open unread_after
  receive_files [] offset received total reads tree = record {
    turn = file_done tree;
    unread = reads;
  }
  receive_files (entry ∷ entries) offset received total reads tree =
      next_file (after_open (open_folder_file tree entry offset) entry offset received total reads)
        (λ next.
          receive_files entries 0 (received + (entry.size - offset)) total
            (unread_after reads offset entry.size) next)

  -- From what `finalize_folder` returns on.
  unfoldable pub conclude_stream :
      Result CompletedTransfer × FolderDisk → TransferResponse → TransferOffer → FolderReception
  conclude_stream (err e, disk) first offer = stopped e (first ∷ rejected (to_string e) ∷ []) disk
  conclude_stream (ok done, disk) first offer = record {
    result = ok tt;
    responses = first ∷ completed done.receipt ∷ [];
    events = received_of offer done ∷ [];
    disk = disk;
  }

  module _ (nfc : Text → Text) (to_lowercase : ℕ → Text) (offer : TransferOffer)
      (manifest : FolderManifest) (matched : Result (Unit {0})) where
    -- From the end of the loop over the files on.
    unfoldable pub after_files :
        Result (Unit {0})
        → List TransferResponse
        → Bool
        → TransferResponse
        → FolderDisk
        → FolderReception
    unfolding conclude_stream
    after_files (err e) said more first disk = stopped e (first ∷ said) disk
    after_files (ok _) said true first disk =
        let e = protocol (plain "sender wrote more folder bytes than declared") in
        stopped e (first ∷ rejected (to_string e) ∷ []) disk
    after_files (ok _) said false first disk =
        conclude_stream (finalize_folder hash_hex nfc to_lowercase offer manifest matched disk)
          first offer

    -- From the staged tree on.
    unfoldable pub receive_folder :
        Result Tree
        → (file_index offset received : ℕ) → TransferResponse
        → List (List ℕ)
        → FolderDisk
        → FolderReception
    unfolding after_files receive_files
    receive_folder (err e) file_index offset received first reads disk = stopped e (first ∷ []) disk
    receive_folder (ok tree) file_index offset received first reads disk =
        let got =
          receive_files (skip file_index (files_of manifest)) offset received offer.size reads
            tree in
        after_files got.turn.result got.turn.responses (has_more got.unread) first
          (record disk { staging = some (tree_at got.turn.tree) })

    -- From the response on, which reports what is complete.
    unfoldable pub take_files :
        (file_index offset done : ℕ) → List (List ℕ) → FolderDisk → FolderReception
    unfolding receive_folder
    take_files file_index offset done reads disk =
        let first = folder_resume_at file_index offset done in
        elim (checked_add done offset) [
          | none ↦ stopped (invalid_transfer (plain "folder progress overflow")) (first ∷ []) disk
          | some received ↦
              receive_folder (staged_tree disk.staging) file_index offset received first reads disk
        ]

    -- From what `prepare_folder` returns on.
    unfoldable pub folder_prepared :
        Result PrepareFolderOutcome × FolderDisk → List (List ℕ) → FolderReception
    unfolding take_files
    folder_prepared (err e, disk) reads = stopped e (rejected (to_string e) ∷ []) disk
    folder_prepared (ok (complete done), disk) reads = record {
      result = ok tt;
      responses = completed done.receipt ∷ [];
      events = [];
      disk = disk;
    }
    folder_prepared (ok (resume file_index offset done), disk) reads =
        let e = bad "invalid folder checkpoint file index" in
        if ltb (length (files_of manifest)) file_index
        then stopped e (rejected (to_string e) ∷ []) disk
        else if leb 4294967296 file_index
        then stopped (bad "too many folder files") [] disk
        else take_files file_index offset done reads disk

    -- `validated` is what the checks of the offer and of its manifest return, and `matched` what that of
    -- the manifest against the offer does.
    unfoldable pub handle_folder :
        (validated : Result (Unit {0})) → List (List ℕ) → FolderDisk → FolderReception
    unfolding folder_prepared
    handle_folder validated reads disk =
        folder_prepared (prepare_folder hash_hex nfc to_lowercase offer manifest validated disk)
          reads
