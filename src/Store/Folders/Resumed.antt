-- ===== src/Store/Folders/Resumed.antt =====
-- That a file of a folder is complete when the rest of it has been received, in state.rs and transport.rs.
use ink_hole.Base.{
  ltb, nat_eq_instance, beq_self, length, length-append, All, int_eq_instance, option_eq_instance,
  Text, bytes, text_eq, text_eq_instance, ℕ, ◌+◌, ◌≡◌, refl, sym, ap, ◌∙◌, Bool, true, false,
  Option, none, some, List, [], ◌∷◌, ◌++◌, arith, lookup, insert,
}
use ink_hole.Errors.{ok, ErrorKind}
use ink_hole.Protocol.Paths.{validate_folder_relative_path}
use ink_hole.Protocol.Manifest.{FolderEntry, folder_ancestors}
use ink_hole.Store.Tree.{
  Item, regular, folder, special, Tree, and_then, ensure_safe_parent_directories,
}
use ink_hole.Store.Folders.Prepare.{is_file_entry}
use ink_hole.Store.Folders.Standing.{IsComplete}
use ink_hole.Store.Folders.Files.{
  open_found, open_folder_file, write_all, receive_reads, verify_found, verify_folder_file,
  receive_file,
}
use mathlib.Core.List.{append_assoc, append-nil}
use ink_hole.Store.Folders.Written.{
  StandsOpen, Written, all-StandsOpen-Written, and_then-Written, inserted, parents-standing,
  staged_bytes,
}

open_found-part :
    (found : Option Item) (tree : Tree) (e : FolderEntry) (part : List ℕ)
    → staged_bytes found ≡ some part
    → open_found found tree e (length part) ≡ (ok tt, insert tree e.path (regular part))
unfolding open_found
open_found-part none tree e [] s = refl
open_found-part none tree e (b ∷ part) s = cc
open_found-part (some folder) tree e part s = cc
open_found-part (some special) tree e part s = cc
open_found-part (some (regular [])) tree e part s = ground arith
open_found-part (some (regular (b ∷ contents))) tree e part s = ground arith

open_folder_file-part :
    (tree : Tree) (e : FolderEntry) (part later : List ℕ)
    → is_file_entry e ≡ true
    → ensure_safe_parent_directories tree e.path ≡ (ok tt, tree)
    → staged_bytes (lookup tree e.path) ≡ some part
    → length (part ++ later) ≡ e.size
    → open_folder_file tree e (length part) ≡ (ok tt, insert tree e.path (regular part))
unfolding open_folder_file
open_folder_file-part tree e part later is_file made staged size =
    let fits : ltb e.size (length part) ≡ false = ground (arith, length-append part later) in
    rw (is_file, fits, made) (open_found-part (lookup tree e.path) tree e part staged)

-- What was read, and that each read gave something.
abbrev pub joined : List (List ℕ) → List ℕ
joined [] = []
joined (read ∷ reads) = read ++ joined reads

abbrev pub gave : List ℕ → Bool
gave [] = false
gave (byte ∷ bytes) = true

abbrev pub Gave : List ℕ → Type 0
Gave read = gave read ≡ true

write_all-Written :
    (tree : Tree) (path : Text) (part bytes : List ℕ)
    → lookup tree path ≡ some (regular part)
    → Written tree path (part ++ bytes) (ok tt, write_all tree path bytes)
write_all-Written tree path part bytes there = rw (there) (inserted tree path (part ++ bytes))

receive_reads-Written :
    (reads : List (List ℕ)) (received total : ℕ) (tree : Tree) (e : FolderEntry) (part : List ℕ)
    → All Gave reads
    → lookup tree e.path ≡ some (regular part)
    → length (part ++ joined reads) ≡ e.size
    → Written tree e.path
        (part ++ joined reads)
        (receive_reads reads (length part) received total tree e)
unfolding receive_reads
receive_reads-Written [] received total tree e part g there size =
    let whole = append-nil part in
    let full : ltb (length part) e.size ≡ false = ground (arith, ap length whole) in
    rw (full, whole) (record { done = refl; at_path = there; elsewhere = λ p apart. refl })
receive_reads-Written ([] ∷ reads) received total tree e part g there size = absurd (ended g.0)
  where
    ended : false ≡ true → ⊥
    ended h = cc
receive_reads-Written ((b ∷ bytes) ∷ reads) received total tree e part g there size =
    let read = b ∷ bytes in
    let w = write_all-Written tree e.path part read there in
    let grouped = append_assoc part read (joined reads) in
    let short : ltb (length part) e.size ≡ true =
      ground (arith, length-append part (read ++ joined reads)) in
    let later =
      receive_reads-Written reads (received + length read) total (write_all tree e.path read) e
        (part ++ read) g.1 w.at_path (ap length grouped ∙ size) in
    rw (short, sym (length-append part read), sym grouped)
      (and_then-Written tree e.path (part ++ read) ((part ++ read) ++ joined reads)
        (ok tt, write_all tree e.path read)
        (λ t. receive_reads reads (length (part ++ read)) (received + length read) total t e) w
        later)

module _ (hash_hex : List ℕ → Text) (on_directory : ErrorKind) where
  verify_folder_file-Written :
      (tree : Tree) (e : FolderEntry) (contents : List ℕ)
      → ensure_safe_parent_directories tree e.path ≡ (ok tt, tree)
      → lookup tree e.path ≡ some (regular contents)
      → length contents ≡ e.size
      → hash_hex contents ≡ e.blake3
      → Written tree e.path contents (verify_folder_file hash_hex on_directory tree e)
  unfolding verify_folder_file verify_found
  verify_folder_file-Written tree e contents parents there size digest =
      rw (parents, there, size, digest, beq_self e.size, beq_self e.blake3)
        (record { done = refl; at_path = there; elsewhere = λ p apart. refl })

  receive_file-Written :
      (tree : Tree) (e : FolderEntry) (received total : ℕ) (part : List ℕ) (reads : List (List ℕ))
      → is_file_entry e ≡ true
      → validate_folder_relative_path e.path ≡ ok tt
      → All (StandsOpen tree) (folder_ancestors e.path)
      → staged_bytes (lookup tree e.path) ≡ some part
      → All Gave reads
      → length (part ++ joined reads) ≡ e.size
      → hash_hex (part ++ joined reads) ≡ e.blake3
      → Written tree e.path
          (part ++ joined reads)
          (receive_file hash_hex on_directory tree e (length part) received total reads)
  unfolding receive_file
  receive_file-Written tree e received total part reads is_file valid stand staged g size digest =
      let opened = insert tree e.path (regular part) in
      let first = inserted tree e.path part in
      let second = receive_reads-Written reads received total opened e part g first.at_path size in
      let r = receive_reads reads (length part) received total opened e in
      let stand_opened =
        all-StandsOpen-Written tree e.path part part (ok tt, opened) (folder_ancestors e.path) first
          staged stand in
      let stand_written =
        all-StandsOpen-Written opened e.path part (part ++ joined reads) r (folder_ancestors e.path)
          second (ap staged_bytes first.at_path) stand_opened in
      rw
        (open_folder_file-part tree e part (joined reads) is_file
          (parents-standing tree e.path valid stand) staged size)
        (and_then-Written tree e.path part (part ++ joined reads) (ok tt, opened)
          (λ t.
            and_then (receive_reads reads (length part) received total t e)
              (λ written. verify_folder_file hash_hex on_directory written e))
          first
          (and_then-Written opened e.path (part ++ joined reads) (part ++ joined reads) r
            (λ written. verify_folder_file hash_hex on_directory written e) second
            (verify_folder_file-Written r.1 e (part ++ joined reads)
              (parents-standing r.1 e.path valid stand_written) second.at_path size digest)))

  -- When the first bytes of a file of a folder are staged, its path is accepted and the directories above
  -- it stand, and every read gives something, then to open the file behind these bytes, write what is
  -- read and verify it succeeds, if the whole has the size and the digest of the entry; the whole file is
  -- then staged, and what stood at any other path stands there still.
  pub receive_file_completes :
      (tree : Tree) (e : FolderEntry) (received total : ℕ) (part : List ℕ) (reads : List (List ℕ))
      (p : Text)
      → is_file_entry e ≡ true
      → validate_folder_relative_path e.path ≡ ok tt
      → All (StandsOpen tree) (folder_ancestors e.path)
      → staged_bytes (lookup tree e.path) ≡ some part
      → All Gave reads
      → length (part ++ joined reads) ≡ e.size
      → hash_hex (part ++ joined reads) ≡ e.blake3
      → text_eq e.path p ≡ false
      → ((receive_file hash_hex on_directory tree e (length part) received total reads).0 ≡ ok tt)
        × IsComplete hash_hex
            (receive_file hash_hex on_directory tree e (length part) received total reads).1
            e
        × (lookup (receive_file hash_hex on_directory tree e (length part) received total reads).1 p
            ≡ lookup tree p)
  receive_file_completes tree e received total part reads p is_file valid stand staged g size digest
        apart =
      let w =
        receive_file-Written tree e received total part reads is_file valid stand staged g size
          digest in
      (
        w.done,
        rw (w.at_path, size, digest, beq_self e.size, beq_self e.blake3) refl,
        w.elsewhere p apart,
      )
