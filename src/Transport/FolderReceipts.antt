-- ===== src/Transport/FolderReceipts.antt =====
-- When the receiver of a folder sends a receipt, in `handle_folder_stream` of transport.rs.
use ink_hole.Base.{
  ltb, leb, Option-cases, nat_eq_instance, length, any, int_eq_instance, checked_add,
  option_eq_instance, Text, text_eq_instance, ℕ, ◌+◌, ◌-◌, ◌≡◌, refl, inl, inr, Bool, true, false,
  some, List, [], ◌∷◌, ◌++◌, arith, if_elim,
}
use ink_hole.Errors.{CoreError, ErrorKind, Result, ok, err, Result-cases}
use ink_hole.Protocol.Manifest.{FolderEntry, FolderManifest}
use ink_hole.Protocol.Offers.{TransferOffer}
use ink_hole.Store.Disk.{CompletedTransfer, TransferReceipt}
use ink_hole.Store.Tree.{Tree, Step}
use ink_hole.Store.Folders.{FolderDisk, tree_at, contents_at}
use ink_hole.Store.Folders.Prepare.{PrepareFolderOutcome, resume, complete, files_of}
use ink_hole.Store.Folders.Files.{open_folder_file, receive_reads, verify_folder_file}
use ink_hole.Store.Folders.Finalize.{staged_tree, finalize_folder}
use ink_hole.Store.Folders.Delivery.{finalize_folder-IsDelivered}
use ink_hole.Store.Folders.Outcome.{IsFolderPrepared, prepare_folder-IsFolderPrepared}
use ink_hole.Transport.{TransferResponse, folder_resume_at, completed}
use ink_hole.Transport.Receiving.{has_more}
use ink_hole.Transport.Receipts.{is_receipt}
use ink_hole.Transport.Folders.{
  FolderReception, FileTurn, FilesRead, unread_after, skip, next_file, after_verify, after_reads,
  after_open, receive_files, conclude_stream, after_files, receive_folder, take_files,
  folder_prepared, handle_folder,
}

abbrev IsSilent : List TransferResponse → Type 0
IsSilent responses = any is_receipt responses ≡ false

next_file-IsSilent :
    (turn : FileTurn) (next : Tree → FilesRead)
    → IsSilent turn.responses
    → ((tree : Tree) → IsSilent (next tree).turn.responses)
    → IsSilent (next_file turn next).turn.responses
next_file-IsSilent turn next silent later = elim (Result-cases turn.result) [
  | inl (e, failed) ↦ rw failed silent
  | inr (done, well) ↦ rw well (later turn.tree)
]

module _ (hash_hex : List ℕ → Text) (on_directory : ErrorKind) (to_string : CoreError → Text) where
  after_verify-IsSilent :
      (r : Step) → IsSilent (after_verify hash_hex on_directory to_string r).responses
  unfolding after_verify
  after_verify-IsSilent (err e, tree) = refl
  after_verify-IsSilent (ok done, tree) = refl

  after_reads-IsSilent :
      (r : Step) (entry : FolderEntry)
      → IsSilent (after_reads hash_hex on_directory to_string r entry).responses
  unfolding after_reads
  after_reads-IsSilent (err e, tree) entry = refl
  after_reads-IsSilent (ok done, tree) entry =
      after_verify-IsSilent (verify_folder_file hash_hex on_directory tree entry)

  after_open-IsSilent :
      (r : Step) (entry : FolderEntry) (offset received total : ℕ) (reads : List (List ℕ))
      → IsSilent
          (after_open hash_hex on_directory to_string r entry offset received total reads).responses
  unfolding after_open
  after_open-IsSilent (err e, tree) entry offset received total reads = refl
  after_open-IsSilent (ok done, tree) entry offset received total reads =
      after_reads-IsSilent (receive_reads reads offset received total tree entry) entry

  receive_files-IsSilent :
      (entries : List FolderEntry) (offset received total : ℕ) (reads : List (List ℕ)) (tree : Tree)
      → IsSilent
          (receive_files hash_hex on_directory to_string entries offset received total reads
            tree).turn.responses
  unfolding receive_files
  receive_files-IsSilent [] offset received total reads tree = refl
  receive_files-IsSilent (entry ∷ entries) offset received total reads tree =
      next_file-IsSilent
        (after_open hash_hex on_directory to_string (open_folder_file tree entry offset) entry
          offset received total reads)
        (λ next.
          receive_files hash_hex on_directory to_string entries 0 (received + (entry.size - offset))
            total (unread_after reads offset entry.size) next)
        (after_open-IsSilent (open_folder_file tree entry offset) entry offset received total reads)
        (receive_files-IsSilent entries 0 (received + (entry.size - offset)) total
          (unread_after reads offset entry.size))

  module _ (nfc : Text → Text) (to_lowercase : ℕ → Text) (manifest : FolderManifest) where
    -- That the last response is a receipt, and the folder stands in the root.
    pub record FolderReceipted (responses : List TransferResponse) (disk : FolderDisk)
        : Type 0 where
      pub before : List TransferResponse
      pub receipt : TransferReceipt
      pub name : Text
      pub is_last : responses ≡ before ++ (completed receipt ∷ [])
      pub stands : contents_at hash_hex nfc to_lowercase disk name manifest ≡ ok tt

    abbrev pub FolderAnswers : Result (Unit {0}) → List TransferResponse → FolderDisk → Type 0
    FolderAnswers (ok done) responses disk = FolderReceipted responses disk
    FolderAnswers (err e) responses disk = any is_receipt responses ≡ false

    abbrev IsAnswered : FolderReception → Type 0
    IsAnswered r = FolderAnswers r.result r.responses r.disk

    module _ (offer : TransferOffer) (matched : Result (Unit {0})) where
      conclude_stream-IsAnswered :
          (r : Result CompletedTransfer × FolderDisk) (first : TransferResponse) (disk : FolderDisk)
          → is_receipt first ≡ false
          → finalize_folder hash_hex nfc to_lowercase offer manifest matched disk ≡ r
          → IsAnswered (conclude_stream hash_hex on_directory to_string r first offer)
      unfolding conclude_stream
      conclude_stream-IsAnswered (err e, after) first disk opens h = ground (arith, opens)
      conclude_stream-IsAnswered (ok done, after) first disk opens h = record {
        before = first ∷ [];
        receipt = done.receipt;
        name = done.destination;
        is_last = refl;
        stands =
            (finalize_folder-IsDelivered hash_hex nfc to_lowercase offer manifest matched disk after
              done h).whole;
      }

      after_files-IsAnswered :
          (result : Result (Unit {0})) (said : List TransferResponse) (more : Bool)
          (first : TransferResponse) (disk : FolderDisk)
          → is_receipt first ≡ false
          → IsSilent said
          → IsAnswered (
              after_files hash_hex on_directory to_string nfc to_lowercase offer manifest matched
                result said more first disk)
      unfolding after_files
      after_files-IsAnswered (err e) said more first disk opens silent =
          ground (arith, opens, silent)
      after_files-IsAnswered (ok done) said true first disk opens silent = ground (arith, opens)
      after_files-IsAnswered (ok done) said false first disk opens silent =
          conclude_stream-IsAnswered _ first disk opens refl

      receive_folder-IsAnswered :
          (staged : Result Tree) (file_index offset received : ℕ) (first : TransferResponse)
          (reads : List (List ℕ)) (disk : FolderDisk)
          → is_receipt first ≡ false
          → IsAnswered (
              receive_folder hash_hex on_directory to_string nfc to_lowercase offer manifest matched
                staged file_index offset received first reads disk)
      unfolding receive_folder
      receive_folder-IsAnswered (err e) file_index offset received first reads disk opens =
          ground (arith, opens)
      receive_folder-IsAnswered (ok tree) file_index offset received first reads disk opens =
          let got =
            receive_files hash_hex on_directory to_string (skip file_index (files_of manifest))
              offset received offer.size reads tree in
          after_files-IsAnswered got.turn.result got.turn.responses (has_more got.unread) first
            (record disk { staging = some (tree_at got.turn.tree) }) opens
            (receive_files-IsSilent (skip file_index (files_of manifest)) offset received offer.size
              reads tree)

      take_files-IsAnswered :
          (file_index offset done : ℕ) (reads : List (List ℕ)) (disk : FolderDisk)
          → IsAnswered (
              take_files hash_hex on_directory to_string nfc to_lowercase offer manifest matched
                file_index offset done reads disk)
      unfolding take_files
      take_files-IsAnswered file_index offset done reads disk =
          elim (Option-cases (checked_add done offset)) [
            | inl large ↦ rw (large, take_files) refl
            | inr (received, sum) ↦
                rw (sum, take_files)
                  (receive_folder-IsAnswered (staged_tree disk.staging) file_index offset received
                    (folder_resume_at file_index offset done) reads disk refl)
          ]

      folder_prepared-IsAnswered :
          (r : Result PrepareFolderOutcome × FolderDisk) (reads : List (List ℕ))
          → IsFolderPrepared hash_hex nfc to_lowercase manifest r
          → IsAnswered (
              folder_prepared hash_hex on_directory to_string nfc to_lowercase offer manifest
                matched r reads)
      unfolding folder_prepared
      folder_prepared-IsAnswered (err e, disk) reads p = refl
      folder_prepared-IsAnswered (ok (complete done), disk) reads p = record {
        before = [];
        receipt = done.receipt;
        name = done.destination;
        is_last = refl;
        stands = p;
      }
      folder_prepared-IsAnswered (ok (resume file_index offset done), disk) reads p =
          if_elim IsAnswered (ltb (length (files_of manifest)) file_index) (λ beyond. refl)
            (λ within.
              if_elim IsAnswered (leb 4294967296 file_index) (λ large. refl)
                (λ small. take_files-IsAnswered file_index offset done reads disk))

      -- Whatever the sender sends: if the receiver of a folder succeeds, its last response is a receipt,
      -- and a directory that passes the check against the offered manifest stands in the root; if it
      -- fails, it has sent no receipt.
      pub handle_folder-FolderAnswers :
          (validated : Result (Unit {0})) (reads : List (List ℕ)) (disk : FolderDisk)
          → FolderAnswers
              (handle_folder hash_hex on_directory to_string nfc to_lowercase offer manifest matched
                validated reads disk).result
              (handle_folder hash_hex on_directory to_string nfc to_lowercase offer manifest matched
                validated reads disk).responses
              (handle_folder hash_hex on_directory to_string nfc to_lowercase offer manifest matched
                validated reads disk).disk
      unfolding handle_folder
      handle_folder-FolderAnswers validated reads disk =
          folder_prepared-IsAnswered _ reads (
            prepare_folder-IsFolderPrepared hash_hex nfc to_lowercase offer manifest validated disk)
