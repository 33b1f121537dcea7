-- ===== src/Store/Folders/Files.antt =====
-- `open_folder_file` and `verify_folder_file` of state.rs, on the tree that a folder is staged in, and
-- the turn of the loop of transport.rs that calls them, where it is not cancelled and no read fails.
-- The path is joined to the root by
-- `folder_entry_path`, whose check the parents repeat. Times of modification are left out.
use ink_hole.Base.{
  ltb, if◌then◌else◌, ◌==◌, nat_eq_instance, length, int_eq_instance, option_eq_instance, Text,
  bytes, text_eq_instance, ℕ, ◌+◌, not, ◌&&◌, ◌||◌, Option, none, some, List, [], ◌∷◌, ◌++◌, lookup,
  insert, remove,
}
use ink_hole.Errors.{
  CoreError, ok, err, io, not_found, ErrorKind, digest_mismatch, protocol, with_numbers,
}
use ink_hole.Protocol.Manifest.{FolderEntry}
use ink_hole.Store.Tree.{
  Item, regular, folder, special, Tree, Step, bad, and_then, ensure_safe_parent_directories,
}
use ink_hole.Store.Folders.Prepare.{is_file_entry}

-- From what stands under the path of the entry on. A file that is new, or opened from its start, is empty.
unfoldable pub open_found : Option Item → Tree → FolderEntry → ℕ → Step
open_found none tree entry offset =
    if offset == 0 then (ok tt, insert tree entry.path (regular [])) else (err (io not_found), tree)
open_found (some folder) tree entry offset =
    (err (bad "folder checkpoint path is not a regular file"), tree)
open_found (some special) tree entry offset =
    (err (bad "folder checkpoint path is not a regular file"), tree)
open_found (some (regular contents)) tree entry offset =
    if ltb 0 offset && not (length contents == offset)
    then (err (bad "folder checkpoint offset changed"), tree)
    else (ok tt, insert tree entry.path (regular (if offset == 0 then [] else contents)))

unfoldable pub open_folder_file : Tree → FolderEntry → ℕ → Step
unfolding open_found
open_folder_file tree entry offset =
    if not (is_file_entry entry) || ltb entry.size offset
    then (err (bad "invalid folder file checkpoint"), tree)
    else and_then (ensure_safe_parent_directories tree entry.path)
        (λ next. open_found (lookup next entry.path) next entry offset)

-- The file at the path with more bytes at its end.
abbrev pub with_more : Option Item → Tree → Text → List ℕ → Tree
with_more (some (regular contents)) tree path bytes = insert tree path (regular (contents ++ bytes))
with_more (some folder) tree path bytes = tree
with_more (some special) tree path bytes = tree
with_more none tree path bytes = tree

abbrev pub write_all : Tree → Text → List ℕ → Tree
write_all tree path bytes = with_more (lookup tree path) tree path bytes

abbrev pub disconnected : (received total : ℕ) → CoreError
disconnected received total =
    protocol (with_numbers "sender disconnected after {} of {} folder bytes" received total)

-- The loop over what the stream gives, of which no read gives more than is wanted, and an empty one is
-- its end.
unfoldable pub receive_reads :
    List (List ℕ) → (file_received received total : ℕ) → Tree → FolderEntry → Step
receive_reads [] file_received received total tree entry =
    if ltb file_received entry.size
    then (err (disconnected received total), tree)
    else (ok tt, tree)
receive_reads ([] ∷ reads) file_received received total tree entry =
    if ltb file_received entry.size
    then (err (disconnected received total), tree)
    else (ok tt, tree)
receive_reads ((byte ∷ bytes) ∷ reads) file_received received total tree entry =
    let read = length (byte ∷ bytes) in
    let later =
      receive_reads reads (file_received + read) (received + read) total
        (write_all tree entry.path (byte ∷ bytes)) entry in
    if ltb file_received entry.size then later else (ok tt, tree)

module _ (hash_hex : List ℕ → Text) (on_directory : ErrorKind) where
  -- From what stands under the path on; `on_directory` is how removing a file fails on a directory.
  unfoldable pub verify_found : Option Item → Tree → FolderEntry → Step
  verify_found none tree entry = (err (io not_found), tree)
  verify_found (some folder) tree entry = (err (io on_directory), tree)
  verify_found (some special) tree entry =
      (err (digest_mismatch entry.path), remove tree entry.path)
  verify_found (some (regular contents)) tree entry =
      if not (length contents == entry.size) || not (hash_hex contents == entry.blake3)
      then (err (digest_mismatch entry.path), remove tree entry.path)
      else (ok tt, tree)

  unfoldable pub verify_folder_file : Tree → FolderEntry → Step
  unfolding verify_found
  verify_folder_file tree entry =
      and_then (ensure_safe_parent_directories tree entry.path)
        (λ next. verify_found (lookup next entry.path) next entry)

  -- A turn of the loop of the transport over the files of a folder.
  unfoldable pub receive_file :
      Tree → FolderEntry → (offset received total : ℕ) → (reads : List (List ℕ)) → Step
  unfolding verify_folder_file
  receive_file tree entry offset received total reads =
      and_then (open_folder_file tree entry offset) (λ opened.
        and_then (receive_reads reads offset received total opened entry)
          (λ written. verify_folder_file written entry))
