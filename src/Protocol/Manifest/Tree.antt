-- ===== src/Protocol/Manifest/Tree.antt =====
-- What acceptance of a manifest means for the folder that is built from it.
use ink_hole.Base.{
  nat_eq, Option-cases, nat_eq_instance, Memᴰ, int_eq_instance, option_eq_instance, keep, Text,
  rsplit_once, text_eq_instance, ℕ, ◌≡◌, refl, sym, ap, subst, ◌≢◌, ◌⊎◌, inl, inr, true, false,
  some, List, [], ◌∷◌, map, arith, if_elim,
}
use ink_hole.Errors.{ok}
use ink_hole.Protocol.Manifest.{
  FolderEntry, FolderEntryKind, file, directory, FolderManifest, folder_ancestors, validate,
}
use ink_hole.Protocol.Manifest.Spec.{is_file, canonical, Admits, IsTree, rev_onto, validate_iff}

Memᴰ-map : {A B : Type 0} (f : A → B) (a : A) (xs : List A) → Memᴰ a xs → Memᴰ (f a) (map f xs)
Memᴰ-map f a [] m = elim m [ ]
Memᴰ-map f a (x ∷ xs) (Memᴰ.head h) = Memᴰ.head (ap f h)
Memᴰ-map f a (x ∷ xs) (Memᴰ.tail m) = Memᴰ.tail (Memᴰ-map f a xs m)

kind_cases :
    (k : FolderEntryKind) → (elim k [ file ↦ true | directory ↦ false ]) ≢ true → k ≡ directory
kind_cases file h = absurd (h refl)
kind_cases directory h = refl

directory_of : (e : FolderEntry) → is_file e ≢ true → e.kind ≡ directory
directory_of e h = kind_cases e.kind h

-- What stands before the last separator is one of the ancestors.
rsplit_once-ancestor :
    (s parent name : Text)
    → rsplit_once b'/' s ≡ some (parent, name)
    → Memᴰ parent (folder_ancestors s)
unfolding rsplit_once folder_ancestors
rsplit_once-ancestor [] parent name h = cc
rsplit_once-ancestor (c ∷ s) parent name h = elim (Option-cases (rsplit_once b'/' s)) [
  | inl last ↦
      if_elim (Memᴰ parent) (nat_eq c b'/') (λ here. Memᴰ.head (ground arith))
        (λ other. absurd (ground arith))
  | inr ((a, b), found) ↦
      let deeper : Memᴰ parent (map (◌∷◌ c) (folder_ancestors s)) =
        subst (λ p. Memᴰ p (map (◌∷◌ c) (folder_ancestors s))) (ground arith)
          (Memᴰ-map (◌∷◌ c) a (folder_ancestors s) (rsplit_once-ancestor s a b found)) in
      if_elim (Memᴰ parent) (nat_eq c b'/') (λ here. Memᴰ.tail deeper) (λ other. deeper)
]

module _ (nfc : Text → Text) (to_lowercase : ℕ → Text) where
  abbrev canon : FolderEntry → Text
  canon = canonical nfc to_lowercase

  -- An entry whose canonical path is in a list of them.
  entry_of :
      (p : Text) (seen : List FolderEntry)
      → Memᴰ p (map canon seen)
      → (d : FolderEntry) × Memᴰ d seen × (canon d ≡ p)
  entry_of p [] m = elim m [ ]
  entry_of p (e ∷ seen) (Memᴰ.head h) = (e, Memᴰ.head refl, sym h)
  entry_of p (e ∷ seen) (Memᴰ.tail m) = let (d, at, h) = entry_of p seen m in (d, Memᴰ.tail at, h)

  file_path_of :
      (d : FolderEntry) (seen : List FolderEntry)
      → is_file d ≡ true
      → Memᴰ d seen
      → Memᴰ (canon d) (map canon (keep is_file seen))
  file_path_of d [] f m = elim m [ ]
  file_path_of d (e ∷ seen) f (Memᴰ.head h) =
      if_elim (λ es. Memᴰ (canon d) (map canon es)) (is_file e) (λ _. Memᴰ.head (ap canon h))
        (λ n. absurd (ground (arith, ap is_file h)))
  file_path_of d (e ∷ seen) f (Memᴰ.tail m) =
      if_elim (λ es. Memᴰ (canon d) (map canon es)) (is_file e)
        (λ _. Memᴰ.tail (file_path_of d seen f m)) (λ _. file_path_of d seen f m)

  -- The parent of an admitted entry is a directory among those before it.
  parent-directory :
      (seen : List FolderEntry) (e : FolderEntry) (parent name : Text)
      → Admits nfc to_lowercase seen e
      → rsplit_once b'/' (canon e) ≡ some (parent, name)
      → (d : FolderEntry) × Memᴰ d seen × (canon d ≡ parent) × (d.kind ≡ directory)
  parent-directory seen e parent name a h =
      let (d, at, same) = entry_of parent seen (a.parent_seen parent name h) in
      (
        d,
        at,
        same,
        directory_of d (λ f.
            a.not_below_file parent (rsplit_once-ancestor (canon e) parent name h) (
              subst (λ p. Memᴰ p (map canon (keep is_file seen))) same (file_path_of d seen f at))),
      )

  in_tree :
      (entries : List FolderEntry) (e : FolderEntry)
      → IsTree nfc to_lowercase entries
      → Memᴰ e entries
      → (seen : List FolderEntry) × Admits nfc to_lowercase seen e
        × ((d : FolderEntry) → Memᴰ d seen → Memᴰ d entries)
  in_tree [] e tree m = elim m [ ]
  in_tree (x ∷ seen) e tree (Memᴰ.head h) =
      (seen, subst (Admits nfc to_lowercase seen) (sym h) tree.0, λ d at. Memᴰ.tail at)
  in_tree (x ∷ xs) e tree (Memᴰ.tail m) =
      let (seen, a, within) = in_tree xs e tree.1 m in (seen, a, λ d at. Memᴰ.tail (within d at))

  Memᴰ-rev_onto_seen :
      (entries seen : List FolderEntry) (e : FolderEntry)
      → Memᴰ e seen
      → Memᴰ e (rev_onto entries seen)
  Memᴰ-rev_onto_seen [] seen e m = m
  Memᴰ-rev_onto_seen (x ∷ entries) seen e m = Memᴰ-rev_onto_seen entries (x ∷ seen) e (Memᴰ.tail m)

  Memᴰ-rev_onto :
      (entries seen : List FolderEntry) (e : FolderEntry)
      → Memᴰ e entries
      → Memᴰ e (rev_onto entries seen)
  Memᴰ-rev_onto [] seen e m = elim m [ ]
  Memᴰ-rev_onto (x ∷ entries) seen e (Memᴰ.head h) =
      Memᴰ-rev_onto_seen entries (x ∷ seen) e (Memᴰ.head h)
  Memᴰ-rev_onto (x ∷ entries) seen e (Memᴰ.tail m) = Memᴰ-rev_onto entries (x ∷ seen) e m

  Memᴰ_of_rev_onto :
      (entries seen : List FolderEntry) (e : FolderEntry)
      → Memᴰ e (rev_onto entries seen)
      → Memᴰ e entries ⊎ Memᴰ e seen
  Memᴰ_of_rev_onto [] seen e m = inr m
  Memᴰ_of_rev_onto (x ∷ entries) seen e m = elim (Memᴰ_of_rev_onto entries (x ∷ seen) e m) [
    | inl later ↦ inl (Memᴰ.tail later)
    | inr at ↦ first_or_seen at
  ]
    where
      first_or_seen : Memᴰ e (x ∷ seen) → Memᴰ e (x ∷ entries) ⊎ Memᴰ e seen
      first_or_seen (Memᴰ.head h) = inl (Memᴰ.head h)
      first_or_seen (Memᴰ.tail m) = inr m

  Memᴰ_of_reversed :
      (entries : List FolderEntry) (e : FolderEntry) → Memᴰ e (rev_onto entries []) → Memᴰ e entries
  Memᴰ_of_reversed entries e m = elim (Memᴰ_of_rev_onto entries [] e m) [
    | inl at ↦ at
    | inr impossible ↦ elim impossible [ ]
  ]

  -- In an accepted manifest, where the canonical path of an entry is split at its last separator, the
  -- part before it is the canonical path of an entry as well, and this entry is a directory.
  pub validate_parents :
      (manifest : FolderManifest) (size : ℕ) (e : FolderEntry) (parent name : Text)
      → validate nfc to_lowercase manifest ≡ ok size
      → Memᴰ e manifest.entries
      → rsplit_once b'/' (canonical nfc to_lowercase e) ≡ some (parent, name)
      → (d : FolderEntry) × Memᴰ d manifest.entries
        × (canonical nfc to_lowercase d ≡ parent)
        × (d.kind ≡ directory)
  validate_parents manifest size e parent name h m p =
      let (_, _, tree, _) = (validate_iff nfc to_lowercase manifest size).0 h in
      let (seen, a, within) =
        in_tree (rev_onto manifest.entries []) e tree (Memᴰ-rev_onto manifest.entries [] e m) in
      let (d, at, same, kind) = parent-directory seen e parent name a p in
      (d, Memᴰ_of_reversed manifest.entries d (within d at), same, kind)
