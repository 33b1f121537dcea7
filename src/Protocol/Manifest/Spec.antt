-- ===== src/Protocol/Manifest/Spec.antt =====
-- What a folder manifest must satisfy, said of its entries alone, and that `validate` accepts
-- exactly such manifests. Of the entries before the one in hand the latest comes first.
use ink_hole.Base.{
  ltb, Bool-cases, ◌==◌, nat_eq_instance, length, any, contains, contains→Memᴰ, Memᴰ→contains, Memᴰ,
  is_negative, int_eq_instance, option_eq_instance, keep, Text, text_lt, rsplit_once, text_eq_iff,
  text_eq_instance, ℕ, ◌+◌, ◌≤◌, ◌≡◌, refl, sym, ap, subst, ◌∙◌, ◌↔◌, inl, inr, Bool, true, false,
  not, Option, none, some, List, [], ◌∷◌, map, arith,
}
use ink_hole.Errors.{ok, refuse-eq-ok, then-eq-ok, >>=-eq-ok}
use ink_hole.Protocol.Hex.{valid_blake3}
use ink_hole.Protocol.Paths.{validate_folder_relative_path}
use ink_hole.Protocol.Manifest.{
  FolderEntry, FolderEntryKind, file, directory, FolderManifest, max_file_size, max_folder_entries,
  Progress, folder_ancestors, canonical_folder_path, check_metadata, check_entry, check_entries,
  validate, is_unsorted, is_orphan, start,
}

abbrev pub is_file : FolderEntry → Bool
is_file e = elim e.kind [ file ↦ true | directory ↦ false ]

-- What an entry adds to the size of the folder.
abbrev pub counted_size : FolderEntryKind → FolderEntry → ℕ
counted_size file e = e.size
counted_size directory e = 0

abbrev pub total : List FolderEntry → ℕ
total [] = 0
total (e ∷ seen) = total seen + counted_size e.kind e

abbrev pub HasMetadata : FolderEntryKind → FolderEntry → ℕ → Type 0
HasMetadata file e before =
    (e.size ≤ max_file_size) × (valid_blake3 e.blake3 ≡ true) × (before + e.size ≤ max_file_size)
HasMetadata directory e before = (e.size ≡ 0) × (e.blake3 ≡ [])

abbrev pub latest : List FolderEntry → Option Text
latest [] = none
latest (e ∷ seen) = some e.path

version_one : (v : ℕ) → v ≡ 1 → not (v == 1) ≡ false
version_one v h = ground arith

few_enough : (n : ℕ) → n ≤ max_folder_entries → ltb max_folder_entries n ≡ false
few_enough n h = ground arith

-- The entries seen once those given have been read.
abbrev pub rev_onto : List FolderEntry → List FolderEntry → List FolderEntry
rev_onto [] seen = seen
rev_onto (e ∷ entries) seen = rev_onto entries (e ∷ seen)

module _ (nfc : Text → Text) (to_lowercase : ℕ → Text) where
  abbrev pub canonical : FolderEntry → Text
  canonical e = canonical_folder_path nfc to_lowercase e.path

  -- That an entry may follow those seen.
  pub record Admits (seen : List FolderEntry) (e : FolderEntry) : Type 0 where
    pub valid_path : validate_folder_relative_path e.path ≡ ok tt
    pub sorted : (p : Text) → latest seen ≡ some p → text_lt p e.path ≡ true
    pub parent_seen :
        (parent name : Text)
        → rsplit_once b'/' (canonical e) ≡ some (parent, name)
        → Memᴰ parent (map canonical seen)
    pub unseen : ¬ Memᴰ (canonical e) (map canonical seen)
    pub not_below_file :
        (a : Text)
        → Memᴰ a (folder_ancestors (canonical e))
        → ¬ Memᴰ a (map canonical (keep is_file seen))
    pub dated : is_negative e.modified_ms ≡ false
    pub has_metadata : HasMetadata e.kind e (total seen)

  abbrev pub IsTree : List FolderEntry → Type 0
  IsTree [] = Unit
  IsTree (e ∷ seen) = Admits seen e × IsTree seen

  -- The loop's state behind the entries seen.
  progress_of : List FolderEntry → Progress
  progress_of seen = record {
    previous_path = latest seen;
    canonical_paths = map canonical seen;
    file_paths = map canonical (keep is_file seen);
    total_size = total seen;
  }

  unseen_of : {xs : List Text} {a : Text} → contains xs a ≡ false → ¬ Memᴰ a xs
  unseen_of {xs} {a} h m = cc (Memᴰ→contains xs a m)

  sorted_of :
      (o : Option Text) (path : Text)
      → is_unsorted o path ≡ false
      → (p : Text) → o ≡ some p
      → text_lt p path ≡ true
  sorted_of none path h p e = cc
  sorted_of (some q) path h p e = ground arith

  parent_of :
      (o : Option (Text × Text)) (xs : List Text)
      → is_orphan o xs ≡ false
      → (parent name : Text) → o ≡ some (parent, name)
      → Memᴰ parent xs
  parent_of none xs h parent name e = cc
  parent_of (some (a, b)) xs h parent name e = contains→Memᴰ xs parent (ground arith)

  not_below_of :
      (ancestors files : List Text)
      → any (contains files) ancestors ≡ false
      → (a : Text) → Memᴰ a ancestors
      → ¬ Memᴰ a files
  not_below_of [] files h a m f = elim m [ ]
  not_below_of (b ∷ bs) files h a (Memᴰ.head e) f =
      ground (arith, Memᴰ→contains files a f, ap (contains files) e)
  not_below_of (b ∷ bs) files h a (Memᴰ.tail m) f = not_below_of bs files (ground arith) a m f

  metadata_of :
      (kind : FolderEntryKind) (e : FolderEntry) (c : Text) (p q : Progress)
      → check_metadata kind e c p ≡ ok q
      → HasMetadata kind e p.total_size
        × (q ≡ record p {
          total_size = p.total_size + counted_size kind e;
          file_paths = elim kind [ file ↦ c ∷ p.file_paths | directory ↦ p.file_paths ];
        })
  unfolding check_metadata
  metadata_of file e c p q h = ground arith
  metadata_of directory e c p q h = ground (arith, text_eq_iff e.blake3 [])

  files_of :
      (e : FolderEntry) (seen : List FolderEntry)
      → map canonical (keep is_file (e ∷ seen)) ≡ (elim e.kind [
        | file ↦ canonical e ∷ map canonical (keep is_file seen)
        | directory ↦ map canonical (keep is_file seen)
      ])
  files_of e seen = ground arith

  -- An entry that the loop's body accepts is one that may follow, and the state moves on by it.
  Admits-of :
      (seen : List FolderEntry) (e : FolderEntry) (q : Progress)
      → check_entry nfc to_lowercase (progress_of seen) e ≡ ok q
      → Admits seen e × (q ≡ progress_of (e ∷ seen))
  unfolding check_entry progress_of
  Admits-of seen e q h =
      let (valid, h1) = then-eq-ok (validate_folder_relative_path e.path) _ h in
      let (sorted, h2) = refuse-eq-ok (is_unsorted (latest seen) e.path) _ _ h1 in
      let (parented, h3) =
        refuse-eq-ok (is_orphan (rsplit_once b'/' (canonical e)) (map canonical seen)) _ _ h2 in
      let (unseen, h4) = refuse-eq-ok (contains (map canonical seen) (canonical e)) _ _ h3 in
      let (clear, h5) =
        refuse-eq-ok
          (any (contains (map canonical (keep is_file seen))) (folder_ancestors (canonical e))) _ _
          h4 in
      let (dated, h6) = refuse-eq-ok (is_negative e.modified_ms) _ _ h5 in
      let (metadata, moved) = metadata_of e.kind e (canonical e) _ q h6 in
      (
        record {
          valid_path = valid;
          sorted = sorted_of (latest seen) e.path sorted;
          parent_seen = parent_of (rsplit_once b'/' (canonical e)) (map canonical seen) parented;
          unseen = unseen_of unseen;
          not_below_file = not_below_of _ _ clear;
          dated = dated;
          has_metadata = metadata;
        },
        moved
            ∙ ap
                (λ files. record {
                  previous_path = some e.path;
                  canonical_paths = map canonical (e ∷ seen);
                  file_paths = files;
                  total_size = total (e ∷ seen);
                })
                (sym (files_of e seen)),
      )

  contains_of : (xs : List Text) (a : Text) → ¬ Memᴰ a xs → contains xs a ≡ false
  contains_of xs a h = elim (Bool-cases (contains xs a)) [
    | inl there ↦ absurd (h (contains→Memᴰ xs a there))
    | inr e ↦ e
  ]

  sorted_to :
      (o : Option Text) (path : Text)
      → ((p : Text) → o ≡ some p → text_lt p path ≡ true)
      → is_unsorted o path ≡ false
  sorted_to none path h = refl
  sorted_to (some q) path h = ground (arith, h q refl)

  parent_to :
      (o : Option (Text × Text)) (xs : List Text)
      → ((parent name : Text) → o ≡ some (parent, name) → Memᴰ parent xs)
      → is_orphan o xs ≡ false
  parent_to none xs h = refl
  parent_to (some (a, b)) xs h = ground (arith, Memᴰ→contains xs a (h a b refl))

  not_below_to :
      (ancestors files : List Text)
      → ((a : Text) → Memᴰ a ancestors → ¬ Memᴰ a files)
      → any (contains files) ancestors ≡ false
  not_below_to [] files h = refl
  not_below_to (b ∷ bs) files h = ground (
    arith,
    contains_of files b (h b (Memᴰ.head refl)),
    not_below_to bs files (λ a m. h a (Memᴰ.tail m)),
  )

  metadata_to :
      (kind : FolderEntryKind) (e : FolderEntry) (c : Text) (p : Progress)
      → HasMetadata kind e p.total_size
      → check_metadata kind e c p
        ≡ ok (record p {
          total_size = p.total_size + counted_size kind e;
          file_paths = elim kind [ file ↦ c ∷ p.file_paths | directory ↦ p.file_paths ];
        })
  unfolding check_metadata
  metadata_to file e c p h = ground arith
  metadata_to directory e c p h = ground (arith, text_eq_iff e.blake3 [])

  -- And an entry that may follow is accepted.
  admitted :
      (seen : List FolderEntry) (e : FolderEntry)
      → Admits seen e
      → check_entry nfc to_lowercase (progress_of seen) e ≡ ok (progress_of (e ∷ seen))
  unfolding check_entry progress_of
  admitted seen e a = rw (
    a.valid_path,
    sorted_to (latest seen) e.path a.sorted,
    parent_to (rsplit_once b'/' (canonical e)) (map canonical seen) a.parent_seen,
    contains_of (map canonical seen) (canonical e) a.unseen,
    not_below_to (folder_ancestors (canonical e)) (map canonical (keep is_file seen))
        a.not_below_file,
    a.dated,
    metadata_to e.kind e (canonical e) seen_paths a.has_metadata,
    files_of e seen,
  )
    where
      seen_paths : Progress
      seen_paths = record {
        previous_path = some e.path;
        canonical_paths = map canonical (e ∷ seen);
        file_paths = map canonical (keep is_file seen);
        total_size = total seen;
      }

  IsTree-rev_onto : (seen entries : List FolderEntry) → IsTree (rev_onto entries seen) → IsTree seen
  IsTree-rev_onto seen [] tree = tree
  IsTree-rev_onto seen (e ∷ entries) tree = (IsTree-rev_onto (e ∷ seen) entries tree).1

  check_entries-eq-ok :
      (seen entries : List FolderEntry) (q : Progress)
      → IsTree seen
      → check_entries nfc to_lowercase (progress_of seen) entries ≡ ok q
      → IsTree (rev_onto entries seen) × (q ≡ progress_of (rev_onto entries seen))
  unfolding check_entries
  check_entries-eq-ok seen [] q tree h = (tree, ground arith)
  check_entries-eq-ok seen (e ∷ entries) q tree h =
      let (p, first, rest) = >>=-eq-ok (check_entry nfc to_lowercase (progress_of seen) e) _ h in
      let (admits, moved) = Admits-of seen e p first in
      check_entries-eq-ok (e ∷ seen) entries q (admits, tree)
        (subst (λ s. check_entries nfc to_lowercase s entries ≡ ok q) moved rest)

  check_entries_tree :
      (seen entries : List FolderEntry)
      → IsTree (rev_onto entries seen)
      → check_entries nfc to_lowercase (progress_of seen) entries
        ≡ ok (progress_of (rev_onto entries seen))
  unfolding check_entries
  check_entries_tree seen [] tree = refl
  check_entries_tree seen (e ∷ entries) tree =
      rw (admitted seen e (IsTree-rev_onto (e ∷ seen) entries tree).0)
        (check_entries_tree (e ∷ seen) entries tree)

  -- A manifest is accepted exactly if its version is 1, it has at most 100,000 entries and each entry
  -- may follow those before it; the result is then the total of the sizes of its files.
  pub validate_iff :
      (manifest : FolderManifest) (size : ℕ)
      → (validate nfc to_lowercase manifest ≡ ok size) ↔ (
          (manifest.version ≡ 1)
          × (length manifest.entries ≤ max_folder_entries)
          × IsTree (rev_onto manifest.entries [])
          × (size ≡ total (rev_onto manifest.entries [])))
  unfolding validate progress_of
  validate_iff manifest size = (
    λ h.
        let (version, h1) = refuse-eq-ok (not (manifest.version == 1)) _ _ h in
        let (few, h2) = refuse-eq-ok (ltb max_folder_entries (length manifest.entries)) _ _ h1 in
        let (p, run, done) =
          >>=-eq-ok (check_entries nfc to_lowercase start manifest.entries) _ h2 in
        let (tree, end) =
          check_entries-eq-ok [] manifest.entries p tt (unfold progress_of in run) in
        (ground arith, ground arith, tree, ground (arith, done, ap (λ s. s.total_size) end)),
    λ h.
        let (version, few, tree, sum) = h in
        rw
          (
            version_one manifest.version version,
            few_enough (length manifest.entries) few,
            check_entries_tree [] manifest.entries tree,
          )
          (ap ok (sym sum)),
  )
