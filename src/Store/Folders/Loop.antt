-- ===== src/Store/Folders/Loop.antt =====
-- Where the loop of `prepare_folder` of state.rs stops: behind files that are complete.
use ink_hole.Base.{
  ltb, ◌==◌, nat_eq_instance, beq_self, length, All, int_eq_instance, checked_add,
  option_eq_instance, Text, text_eq_instance, ℕ, ◌+◌, ◌≡◌, refl, ap, Bool, true, false, ◌&&◌,
  Option, none, some, List, [], ◌∷◌, ◌++◌, arith, lookup, lookup-remove,
}
use ink_hole.Errors.{Result, ok, err}
use ink_hole.Protocol.Manifest.{FolderEntry}
use ink_hole.Store.Tree.{Item, regular, folder, special, Tree, Step, ensure_safe_parent_directories}
use ink_hole.Store.Tree.Manifested.{DiffersFrom}
use ink_hole.Store.Folders.Prepare.{resume, add_up, go_on, check_file, visit_file, check_files}
use ink_hole.Store.Folders.Standing.{IsComplete, visited, check_files-IsComplete}

abbrev pub sizes : List FolderEntry → ℕ
sizes [] = 0
sizes (e ∷ es) = e.size + sizes es

abbrev pub Apart : List FolderEntry → Type 0
Apart [] = Unit
Apart (e ∷ es) = All (DiffersFrom e.path) es × Apart es

module _ (hash_hex : List ℕ → Text) where
  -- That as much of the file stands here, and less than the whole.
  abbrev pub has_part : FolderEntry → ℕ → Option Item → Bool
  has_part e offset none = offset == 0
  has_part e offset (some (regular contents)) =
      offset == length contents && ltb (length contents) e.size
  has_part e offset (some folder) = false
  has_part e offset (some special) = false

  abbrev pub starts_at : List FolderEntry → ℕ → Tree → Bool
  starts_at [] offset tree = offset == 0
  starts_at (e ∷ es) offset tree = has_part e offset (lookup tree e.path)

  -- What the first files are where the transfer is to go on.
  pub record IsCheckpoint (files : List FolderEntry) (file_index offset completed : ℕ) (tree : Tree)
      : Type 0 where
    pub whole : List FolderEntry
    pub rest : List FolderEntry
    pub split : files ≡ whole ++ rest
    pub index_is : file_index ≡ length whole
    pub completed_is : completed ≡ sizes whole
    pub whole_stand : All (IsComplete hash_hex tree) whole
    pub part_stands : starts_at rest offset tree ≡ true

  -- The same behind files that were passed already.
  record GoesOn (before sum : ℕ) (files : List FolderEntry) (file_index offset completed : ℕ)
      (tree : Tree) : Type 0 where
    whole : List FolderEntry
    rest : List FolderEntry
    split : files ≡ whole ++ rest
    index_is : file_index ≡ before + length whole
    completed_is : completed ≡ sum + sizes whole
    whole_stand : All (IsComplete hash_hex tree) whole
    part_stands : starts_at rest offset tree ≡ true

  check_file-part :
      (found : Option Item) (tree : Tree) (e : FolderEntry) (offset : ℕ)
      → lookup tree e.path ≡ found
      → (check_file hash_hex found tree e).0 ≡ ok (some offset)
      → has_part e offset (lookup (check_file hash_hex found tree e).1 e.path) ≡ true
  unfolding check_file
  check_file-part none tree e offset l h = ground (arith, l)
  check_file-part (some folder) tree e offset l h = cc
  check_file-part (some special) tree e offset l h = cc
  check_file-part (some (regular contents)) tree e offset l h =
      ground (arith, l, lookup-remove tree e.path e.path, beq_self e.path)

  check_file-whole :
      (found : Option Item) (tree : Tree) (e : FolderEntry)
      → lookup tree e.path ≡ found
      → (check_file hash_hex found tree e).0 ≡ ok none
      → IsComplete hash_hex (check_file hash_hex found tree e).1 e
  unfolding check_file
  check_file-whole none tree e l h = cc
  check_file-whole (some folder) tree e l h = cc
  check_file-whole (some special) tree e l h = cc
  check_file-whole (some (regular contents)) tree e l h = ground (arith, l)

  visit_file-part :
      (made : Step) (e : FolderEntry) (offset : ℕ)
      → (visit_file hash_hex e made).0 ≡ ok (some offset)
      → has_part e offset (lookup (visit_file hash_hex e made).1 e.path) ≡ true
  unfolding visit_file
  visit_file-part (err x, tree) e offset h = cc
  visit_file-part (ok done, tree) e offset h =
      check_file-part (lookup tree e.path) tree e offset refl h

  visit_file-whole :
      (made : Step) (e : FolderEntry)
      → (visit_file hash_hex e made).0 ≡ ok none
      → IsComplete hash_hex (visit_file hash_hex e made).1 e
  unfolding visit_file
  visit_file-whole (err x, tree) e h = cc
  visit_file-whole (ok done, tree) e h = check_file-whole (lookup tree e.path) tree e refl h

  stop_here :
      (i c offset fi off comp : ℕ) (e : FolderEntry) (es : List FolderEntry) (tree : Tree)
      → has_part e offset (lookup tree e.path) ≡ true
      → ok (resume i offset c) ≡ ok (resume fi off comp)
      → GoesOn i c (e ∷ es) fi off comp tree
  stop_here i c offset fi off comp e es tree part h = record {
    whole = [];
    rest = e ∷ es;
    split = refl;
    index_is = ground arith;
    completed_is = ground arith;
    whole_stand = tt;
    part_stands = ground arith;
  }

  one_more :
      (i c sum fi off comp : ℕ) (e : FolderEntry) (es : List FolderEntry) (tree : Tree)
      → sum ≡ c + e.size
      → IsComplete hash_hex tree e
      → GoesOn (i + 1) sum es fi off comp tree
      → GoesOn i c (e ∷ es) fi off comp tree
  one_more i c sum fi off comp e es tree added here g = record {
    whole = e ∷ g.whole;
    rest = g.rest;
    split = ap (◌∷◌ e) g.split;
    index_is = omega (arith, g.index_is);
    completed_is = omega (arith, g.completed_is, added);
    whole_stand = (here, g.whole_stand);
    part_stands = g.part_stands;
  }

  checked_add-sum : (c size sum : ℕ) → checked_add c size ≡ some sum → sum ≡ c + size
  checked_add-sum c size sum h = ground arith

  check_files-GoesOn :
      (es : List FolderEntry) (i c fi off comp : ℕ) (tree : Tree)
      → Apart es
      → (check_files hash_hex es i c tree).0 ≡ ok (resume fi off comp)
      → GoesOn i c es fi off comp (check_files hash_hex es i c tree).1
  unfolding check_files
  check_files-GoesOn [] i c fi off comp tree a h = record {
    whole = [];
    rest = [];
    split = refl;
    index_is = ground arith;
    completed_is = ground arith;
    whole_stand = tt;
    part_stands = ground arith;
  }
  check_files-GoesOn (e ∷ es) i c fi off comp tree a h =
      go (visited hash_hex tree e) (visit_file-part (ensure_safe_parent_directories tree e.path) e)
        (visit_file-whole (ensure_safe_parent_directories tree e.path) e)
        (λ sum next. check_files-GoesOn es (i + 1) sum fi off comp next a.1) h
    where
      add :
          (o : Option ℕ) (next : Tree)
          → checked_add c e.size ≡ o
          → IsComplete hash_hex next e
          → ((sum : ℕ) (t : Tree)
              → (check_files hash_hex es (i + 1) sum t).0 ≡ ok (resume fi off comp)
              → GoesOn (i + 1) sum es fi off comp (check_files hash_hex es (i + 1) sum t).1)
          → (add_up o next (λ sum t. check_files hash_hex es (i + 1) sum t)).0
            ≡ ok (resume fi off comp)
          → GoesOn i c
              (e ∷ es)
              fi
              off
              comp
              (add_up o next (λ sum t. check_files hash_hex es (i + 1) sum t)).1
      add none next o here later r = cc
      add (some sum) next o here later r =
          one_more i c sum fi off comp e es _ (checked_add-sum c e.size sum o)
            (check_files-IsComplete hash_hex es (i + 1) sum next e a.0 here) (later sum next r)

      go :
          (seen : Result (Option ℕ) × Tree)
          → ((o : ℕ) → seen.0 ≡ ok (some o) → has_part e o (lookup seen.1 e.path) ≡ true)
          → (seen.0 ≡ ok none → IsComplete hash_hex seen.1 e)
          → ((sum : ℕ) (t : Tree)
              → (check_files hash_hex es (i + 1) sum t).0 ≡ ok (resume fi off comp)
              → GoesOn (i + 1) sum es fi off comp (check_files hash_hex es (i + 1) sum t).1)
          → (go_on seen i c e.size (λ sum t. check_files hash_hex es (i + 1) sum t)).0
            ≡ ok (resume fi off comp)
          → GoesOn i c
              (e ∷ es)
              fi
              off
              comp
              (go_on seen i c e.size (λ sum t. check_files hash_hex es (i + 1) sum t)).1
      go (err x, next) part here later r = cc
      go (ok (some offset), next) part here later r =
          stop_here i c offset fi off comp e es next (part offset refl) r
      go (ok none, next) part here later r =
          add (checked_add c e.size) next refl (here refl) later r

  GoesOn-IsCheckpoint :
      (files : List FolderEntry) (fi off comp : ℕ) (tree : Tree)
      → GoesOn 0 0 files fi off comp tree
      → IsCheckpoint files fi off comp tree
  GoesOn-IsCheckpoint files fi off comp tree g = record {
    whole = g.whole;
    rest = g.rest;
    split = g.split;
    index_is = omega (arith, g.index_is);
    completed_is = omega (arith, g.completed_is);
    whole_stand = g.whole_stand;
    part_stands = g.part_stands;
  }

  -- Where the loop over files with different paths says to go on, all the files before are there as a
  -- whole, their sizes are what is counted as completed, and of the next file, if there is one, as much is
  -- there as the offset says, and less than all of it.
  pub check_files-IsCheckpoint :
      (files : List FolderEntry) (fi off comp : ℕ) (tree : Tree)
      → Apart files
      → (check_files hash_hex files 0 0 tree).0 ≡ ok (resume fi off comp)
      → IsCheckpoint files fi off comp (check_files hash_hex files 0 0 tree).1
  check_files-IsCheckpoint files fi off comp tree a h =
      GoesOn-IsCheckpoint files fi off comp _ (check_files-GoesOn files 0 0 fi off comp tree a h)
