-- ===== src/Store/Tree.antt =====
-- Folders on disk, as state.rs reads and makes them: what stands under each path below a root, and the
-- check of a whole folder against its manifest. Names that are not UTF-8 are left out.
pub mod Contents
pub mod Manifested
use ink_hole.Base.{
  ◌==◌, nat_eq_instance, length, contains, int_eq_instance, option_eq_instance, keep, Text,
  rsplit_once, text_eq_instance, ℕ, zero, suc, String, Bool, true, false, not, ◌&&◌, Option, none,
  some, List, [], ◌∷◌, lookup, insert,
}
use ink_hole.Errors.{
  CoreError, Result, ok, err, io, not_found, invalid_transfer, plain, refuse_if, or_fail, ◌>>=◌,
  ◌>>◌,
}
use ink_hole.Protocol.Paths.{validate_folder_relative_path}
use ink_hole.Protocol.Manifest.{
  FolderEntryKind, file, directory, FolderEntry, FolderManifest, folder_ancestors, validate,
}

-- What stands under a path: a file, a directory, or a link or other thing.
pub data Item : Type 0 where
  regular : (contents : List ℕ) → Item
  folder special : Item

-- The paths are relative to the root, and that of the root is empty.
abbrev pub Tree : Type 0
Tree = List (Text × Item)

abbrev pub bad : String → CoreError
bad message = invalid_transfer (plain message)

-- What an operation returns and leaves on disk; `?` goes on from both.
abbrev pub Step : Type 0
Step = Result (Unit {0}) × Tree

abbrev pub and_then : Step → (Tree → Step) → Step
and_then (err e, tree) next = (err e, tree)
and_then (ok done, tree) next = next tree

-- `create_dir`, where a directory that stands already serves as well.
abbrev pub make_found : Option Item → Tree → Text → Step
make_found none tree path = (ok tt, insert tree path folder)
make_found (some folder) tree path = (ok tt, tree)
make_found (some (regular contents)) tree path =
    (err (bad "folder path contains a non-directory component"), tree)
make_found (some special) tree path =
    (err (bad "folder path contains a non-directory component"), tree)

unfoldable pub make_dir : Tree → Text → Step
make_dir tree path = make_found (lookup tree path) tree path

unfoldable pub make_dirs : Tree → List Text → Step
make_dirs tree [] = (ok tt, tree)
make_dirs tree (path ∷ paths) = and_then (make_dir tree path) (λ next. make_dirs next paths)

unfoldable pub ensure_safe_parent_directories : Tree → Text → Step
ensure_safe_parent_directories tree relative =
    and_then (validate_folder_relative_path relative, tree)
      (λ same. make_dirs same (folder_ancestors relative))

-- One entry of the loop of `create_manifest_directories`.
unfoldable pub create_entry_directory : FolderEntryKind → Tree → Text → Step
create_entry_directory file tree path = (ok tt, tree)
create_entry_directory directory tree path =
    and_then (ensure_safe_parent_directories tree path) (λ parents. make_dir parents path)

unfoldable pub create_manifest_directories : Tree → List FolderEntry → Step
create_manifest_directories tree [] = (ok tt, tree)
create_manifest_directories tree (entry ∷ entries) =
    and_then (create_entry_directory entry.kind tree entry.path)
      (λ next. create_manifest_directories next entries)

-- The directory that a path lies in.
abbrev pub parent_of : Text → Text
parent_of path = elim (rsplit_once b'/' path) [ none ↦ [] | some (parent, _) ↦ parent ]

abbrev pub lies_in : Text → Text × Item → Bool
lies_in parent entry = parent_of entry.0 == parent

-- `read_dir`, with each name joined to the path of the directory.
abbrev pub read_dir : Tree → Text → List (Text × Item)
read_dir tree path = keep (lies_in path) tree

-- The entries by their paths: `collect` into a hash map.
unfoldable pub expected_from :
    List (Text × FolderEntry) → List FolderEntry → List (Text × FolderEntry)
expected_from table [] = table
expected_from table (entry ∷ entries) = expected_from (insert table entry.path entry) entries

-- What the walk carries: the paths seen, and the directories still to read, the next one first.
pub record Walk : Type 0 where
  pub seen : List Text
  pub directories : List Text

abbrev pub is_link : Item → Bool
is_link special = true
is_link _ = false

abbrev pub with_directory : Item → Text → List Text → List Text
with_directory folder path directories = path ∷ directories
with_directory (regular contents) path directories = directories
with_directory special path directories = directories

-- After the walk.
abbrev pub all_seen :
    List (Text × FolderEntry) → Option (Result (List Text)) → Option (Result (Unit {0}))
all_seen expected none = none
all_seen expected (some (err e)) = some (err e)
all_seen expected (some (ok seen)) =
    some
      (refuse_if (not (length seen == length expected)) (bad "folder is missing a manifest entry"))

abbrev pub finished : Option (Result (Unit {0})) → Result (Unit {0})
finished none = err (bad "out of fuel")
finished (some result) = result

module _ (hash_hex : List ℕ → Text) where
  -- Whether an item is what its entry says.
  abbrev pub matches : FolderEntryKind → FolderEntry → Item → Bool
  matches directory entry folder = true
  matches file entry (regular contents) =
      length contents == entry.size && hash_hex contents == entry.blake3
  matches directory entry (regular contents) = false
  matches file entry folder = false
  matches file entry special = false
  matches directory entry special = false

  -- One item that `read_dir` gives.
  unfoldable pub check_item : List (Text × FolderEntry) → Walk → Text × Item → Result Walk
  check_item expected walk (path, item) = do
    validate_folder_relative_path path
    entry ← or_fail (lookup expected path) (bad "folder contains an unexpected entry")
    refuse_if (contains walk.seen path) (bad "folder contains a duplicate entry")
    refuse_if (is_link item) (bad "folder contains a symbolic link")
    refuse_if (not (matches entry.kind entry item)) (bad "folder entry does not match its manifest")
    ok (record { seen = path ∷ walk.seen; directories = with_directory item path walk.directories })

  unfoldable pub check_items : List (Text × FolderEntry) → Walk → List (Text × Item) → Result Walk
  check_items expected walk [] = ok walk
  check_items expected walk (item ∷ items) = do
    next ← check_item expected walk item
    check_items expected next items

  -- The loop over the directories, with fuel; `none` is the end of the fuel.
  unfoldable pub walk_from :
      List (Text × FolderEntry)
      → Tree
      → (fuel : ℕ) → List Text
      → List Text
      → Option (Result (List Text))
  walk_from expected tree fuel seen [] = some (ok seen)
  walk_from expected tree zero seen (path ∷ directories) = none
  walk_from expected tree (suc fuel) seen (path ∷ directories) =
      elim (check_items expected (record { seen = seen; directories = directories })
        (read_dir tree path)) [
          | err e ↦ some (err e)
          | ok next ↦ walk_from expected tree fuel next.seen next.directories
        ]

  -- The fuel is one more than the number of entries, which is enough.
  unfoldable pub walk_folder : Tree → List (Text × FolderEntry) → Option (Result (Unit {0}))
  walk_folder tree expected =
      all_seen expected (walk_from expected tree (suc (length expected)) [] ([] ∷ []))

  module _ (nfc : Text → Text) (to_lowercase : ℕ → Text) where
    -- `root` is the tree below the root, if that is a directory.
    unfoldable pub validate_folder_contents : Option Tree → FolderManifest → Result (Unit {0})
    validate_folder_contents root manifest = do
      _ ← validate nfc to_lowercase manifest
      tree ← or_fail root (bad "folder path contains a non-directory component")
      finished (walk_folder tree (expected_from [] manifest.entries))
