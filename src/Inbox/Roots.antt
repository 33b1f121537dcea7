-- ===== src/Inbox/Roots.antt =====
-- Which directories the store has to look after.
use ink_hole.Base.{
  nat_eq_instance, any, int_eq_instance, option_eq_instance, Text, text_eq_instance, ◌≡◌, Bool,
  true, not, Option, none, some, List, [], ◌∷◌, arith, if_elim, any-append,
}
use ink_hole.Protocol.Manifest.{TransferKind, file, folder_v1}
use ink_hole.Inbox.{
  InboxCategoryRoots, FileCategory, media, archive, plain_file, file_category, configured_for,
  unwrap_or, root_for, add_root, all_roots,
}

module _ (same_path : Text → Text → Bool)
    (same_self : (root : Text) → same_path root root ≡ true) where
  abbrev pub covers : List Text → Text → Bool
  covers roots root = any (λ existing. same_path existing root) roots

  add_root-covers :
      (roots : List Text) (added : Option Text) (root : Text)
      → covers roots root ≡ true
      → covers (add_root same_path roots added) root ≡ true
  unfolding add_root
  add_root-covers roots none root h = h
  add_root-covers roots (some a) root h =
      if_elim (λ rs. covers rs root ≡ true) (not (covers roots a))
        (λ _. ground (arith, h, any-append (λ existing. same_path existing root) roots (a ∷ [])))
        (λ _. h)

  add_root-added :
      (roots : List Text) (a : Text) → covers (add_root same_path roots (some a)) a ≡ true
  unfolding add_root
  add_root-added roots a =
      if_elim (λ rs. covers rs a ≡ true) (not (covers roots a))
        (λ _.
          ground (arith, same_self a, any-append (λ existing. same_path existing a) roots (a ∷ [])))
        (λ known. ground arith)

  -- The root that is configured, or else the primary one, is covered once both have been added.
  add_root-unwrap_or :
      (roots : List Text) (o : Option Text) (primary : Text)
      → covers roots primary ≡ true
      → covers (add_root same_path roots o) (unwrap_or o primary) ≡ true
  unfolding add_root
  add_root-unwrap_or roots none primary h = h
  add_root-unwrap_or roots (some a) primary h = add_root-added roots a

  abbrev first_root : Text → List Text
  first_root primary = primary ∷ []

  primary_covered : (primary : Text) → covers (first_root primary) primary ≡ true
  primary_covered primary = ground (arith, same_self primary)

  -- The roots with those of files added.
  abbrev file_roots : InboxCategoryRoots → Text → List Text
  file_roots roots primary =
      add_root same_path
        (add_root same_path (add_root same_path (first_root primary) roots.media) roots.archive)
        roots.file_root

  files_covered :
      (roots : InboxCategoryRoots) (primary : Text) (category : FileCategory)
      → covers (file_roots roots primary) (unwrap_or (configured_for roots category) primary) ≡ true
  files_covered roots primary media = add_root-covers _ roots.file_root _ (
      add_root-covers _ roots.archive _
        (add_root-unwrap_or (first_root primary) roots.media primary (primary_covered primary)))
  files_covered roots primary archive = add_root-covers _ roots.file_root _ (
      add_root-unwrap_or _ roots.archive primary
        (add_root-covers _ roots.media primary (primary_covered primary)))
  files_covered roots primary plain_file = add_root-unwrap_or _ roots.file_root primary (
      add_root-covers _ roots.archive primary
        (add_root-covers _ roots.media primary (primary_covered primary)))

  -- Wherever a file or a folder is received, the directory is among the roots that are looked
  -- after, where a path counts as the same as itself.
  pub all_roots-root_for :
      (roots : InboxCategoryRoots) (primary : Text) (kind : TransferKind) (filename : Text)
      → covers (all_roots same_path roots primary) (root_for roots primary kind filename) ≡ true
  unfolding all_roots root_for
  all_roots-root_for roots primary folder_v1 filename =
      add_root-unwrap_or (file_roots roots primary) roots.folder primary (
        add_root-covers _ roots.file_root primary (
          add_root-covers _ roots.archive primary
            (add_root-covers _ roots.media primary (primary_covered primary))))
  all_roots-root_for roots primary file filename =
      add_root-covers (file_roots roots primary) roots.folder _
        (files_covered roots primary (file_category filename))
