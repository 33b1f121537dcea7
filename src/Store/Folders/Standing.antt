-- ===== src/Store/Folders/Standing.antt =====
-- What the loop of `prepare_folder` of state.rs leaves standing.
use ink_hole.Base.{
  Option-cases, ◌==◌, nat_eq_instance, length, All, int_eq_instance, checked_add,
  option_eq_instance, Text, text_eq, text_eq_iff, text_eq_instance, ℕ, ◌+◌, ◌≡◌, refl, inl, inr,
  Bool, true, false, ◌&&◌, Option, none, some, List, [], ◌∷◌, arith, lookup, lookup-insert,
  lookup-remove,
}
use ink_hole.Errors.{Result, ok, err}
use ink_hole.Protocol.Paths.{validate_folder_relative_path}
use ink_hole.Protocol.Manifest.{FolderEntry, folder_ancestors}
use ink_hole.Store.Tree.{
  Item, regular, folder, special, Tree, Step, and_then, make_found, make_dir, make_dirs,
  ensure_safe_parent_directories,
}
use ink_hole.Store.Tree.Manifested.{DiffersFrom}
use ink_hole.Store.Folders.Prepare.{
  PrepareFolderOutcome, add_up, go_on, check_file, visit_file, check_files,
}

make_found-keeps :
    (found : Option Item) (tree : Tree) (q p : Text) (item : Item)
    → lookup tree q ≡ found
    → lookup tree p ≡ some item
    → lookup (make_found found tree q).1 p ≡ some item
make_found-keeps none tree q p item e h =
    ground (arith, lookup-insert tree q p folder, text_eq_iff q p)
make_found-keeps (some folder) tree q p item e h = h
make_found-keeps (some (regular contents)) tree q p item e h = h
make_found-keeps (some special) tree q p item e h = h

make_dirs-keeps :
    (paths : List Text) (tree : Tree) (p : Text) (item : Item)
    → lookup tree p ≡ some item
    → lookup (make_dirs tree paths).1 p ≡ some item
unfolding make_dirs make_dir
make_dirs-keeps [] tree p item h = h
make_dirs-keeps (q ∷ paths) tree p item h =
    go (make_found (lookup tree q) tree q) (make_found-keeps (lookup tree q) tree q p item refl h)
      (λ next k. make_dirs-keeps paths next p item k)
  where
    go :
        (made : Step)
        → lookup made.1 p ≡ some item
        → ((next : Tree)
            → lookup next p ≡ some item
            → lookup (make_dirs next paths).1 p ≡ some item)
        → lookup (and_then made (λ next. make_dirs next paths)).1 p ≡ some item
    go (err e, next) k later = k
    go (ok done, next) k later = later next k

-- Making the parents of a file leaves alone what stands.
parents-keep :
    (tree : Tree) (relative p : Text) (item : Item)
    → lookup tree p ≡ some item
    → lookup (ensure_safe_parent_directories tree relative).1 p ≡ some item
unfolding ensure_safe_parent_directories
parents-keep tree relative p item h = go (validate_folder_relative_path relative)
  where
    go :
        (valid : Result (Unit {0}))
        → lookup (and_then (valid, tree) (λ same. make_dirs same (folder_ancestors relative))).1 p
          ≡ some item
    go (err e) = h
    go (ok done) = make_dirs-keeps (folder_ancestors relative) tree p item h

module _ (hash_hex : List ℕ → Text) where
  -- That the whole file of an entry stands here.
  abbrev pub is_complete : FolderEntry → Option Item → Bool
  is_complete e (some (regular contents)) =
      length contents == e.size && hash_hex contents == e.blake3
  is_complete e (some folder) = false
  is_complete e (some special) = false
  is_complete e none = false

  abbrev pub IsComplete : Tree → FolderEntry → Type 0
  IsComplete tree e = is_complete e (lookup tree e.path) ≡ true

  check_file-keeps :
      (found : Option Item) (tree : Tree) (e : FolderEntry) (p : Text) (item : Item)
      → text_eq e.path p ≡ false
      → lookup tree p ≡ some item
      → lookup (check_file hash_hex found tree e).1 p ≡ some item
  unfolding check_file
  check_file-keeps none tree e p item d h = h
  check_file-keeps (some folder) tree e p item d h = h
  check_file-keeps (some special) tree e p item d h = h
  check_file-keeps (some (regular contents)) tree e p item d h =
      ground (arith, lookup-remove tree e.path p)

  visit_file-keeps :
      (made : Step) (e : FolderEntry) (p : Text) (item : Item)
      → text_eq e.path p ≡ false
      → lookup made.1 p ≡ some item
      → lookup (visit_file hash_hex e made).1 p ≡ some item
  unfolding visit_file
  visit_file-keeps (err x, tree) e p item d h = h
  visit_file-keeps (ok done, tree) e p item d h =
      check_file-keeps (lookup tree e.path) tree e p item d h

  abbrev pub visited : Tree → FolderEntry → Result (Option ℕ) × Tree
  visited tree e = visit_file hash_hex e (ensure_safe_parent_directories tree e.path)

  add_up-keeps :
      (o : Option ℕ) (tree : Tree) (next : ℕ → Tree → Result PrepareFolderOutcome × Tree) (p : Text)
      (item : Item)
      → lookup tree p ≡ some item
      → ((sum : ℕ) → lookup (next sum tree).1 p ≡ some item)
      → lookup (add_up o tree next).1 p ≡ some item
  add_up-keeps none tree next p item h later = h
  add_up-keeps (some sum) tree next p item h later = later sum

  go_on-keeps :
      (seen : Result (Option ℕ) × Tree) (i completed size : ℕ)
      (next : ℕ → Tree → Result PrepareFolderOutcome × Tree) (p : Text) (item : Item)
      → lookup seen.1 p ≡ some item
      → ((sum : ℕ) → lookup (next sum seen.1).1 p ≡ some item)
      → lookup (go_on seen i completed size next).1 p ≡ some item
  go_on-keeps (err e, tree) i completed size next p item h later = h
  go_on-keeps (ok (some offset), tree) i completed size next p item h later = h
  go_on-keeps (ok none, tree) i completed size next p item h later =
      add_up-keeps (checked_add completed size) tree next p item h later

  check_files-keeps :
      (es : List FolderEntry) (i completed : ℕ) (tree : Tree) (p : Text) (item : Item)
      → All (DiffersFrom p) es
      → lookup tree p ≡ some item
      → lookup (check_files hash_hex es i completed tree).1 p ≡ some item
  unfolding check_files
  check_files-keeps [] i completed tree p item d h = h
  check_files-keeps (e ∷ es) i completed tree p item d h =
      let kept =
        visit_file-keeps (ensure_safe_parent_directories tree e.path) e p item d.0
          (parents-keep tree e.path p item h) in
      go_on-keeps (visited tree e) i completed e.size _ p item kept
        (λ sum. check_files-keeps es (i + 1) sum (visited tree e).1 p item d.1 kept)

  -- That a file is complete does not change when the loop goes on to others.
  pub check_files-IsComplete :
      (es : List FolderEntry) (i completed : ℕ) (tree : Tree) (e : FolderEntry)
      → All (DiffersFrom e.path) es
      → IsComplete tree e
      → IsComplete (check_files hash_hex es i completed tree).1 e
  check_files-IsComplete es i completed tree e d h = elim (Option-cases (lookup tree e.path)) [
    | inl missing ↦ absurd (ground (arith, missing))
    | inr (item, there) ↦
        rw (check_files-keeps es i completed tree e.path item d there) (ground (arith, there))
  ]
