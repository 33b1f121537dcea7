-- ===== src/Protocol/Manifest/Order.antt =====
-- The order of an accepted manifest, and the size of the folder.
use ink_hole.Base.{
  nat_eq_instance, All, Memᴰ, int_eq_instance, option_eq_instance, Text, text_lt, text_lt_trans,
  text_eq_instance, ℕ, ◌+◌, ◌≤◌, ◌≡◌, refl, sym, ap, subst, ◌≢◌, true, List, [], ◌∷◌, map, arith,
}
use ink_hole.Errors.{ok}
use ink_hole.Protocol.Manifest.{
  FolderEntry, FolderEntryKind, file, directory, FolderManifest, validate, max_file_size,
}
use ink_hole.Protocol.Manifest.Spec.{
  canonical, Admits, IsTree, total, counted_size, rev_onto, HasMetadata, validate_iff,
}

All-Memᴰ : {A : Type 0} (P : A → Type 0) (xs : List A) → All P xs → (a : A) → Memᴰ a xs → P a
All-Memᴰ P [] h a m = elim m [ ]
All-Memᴰ P (x ∷ xs) h a (Memᴰ.head e) = subst P (sym e) h.0
All-Memᴰ P (x ∷ xs) h a (Memᴰ.tail m) = All-Memᴰ P xs h.1 a m

All-of : {A : Type 0} (P : A → Type 0) (xs : List A) → ((a : A) → Memᴰ a xs → P a) → All P xs
All-of P [] h = tt
All-of P (x ∷ xs) h = (h x (Memᴰ.head refl), All-of P xs (λ a m. h a (Memᴰ.tail m)))

metadata_bound :
    (kind : FolderEntryKind) (e : FolderEntry) (before : ℕ)
    → before ≤ max_file_size
    → HasMetadata kind e before
    → before + counted_size kind e ≤ max_file_size
metadata_bound file e before h m = m.2
metadata_bound directory e before h m = omega arith

module _ (nfc : Text → Text) (to_lowercase : ℕ → Text) where
  -- That one entry may stand before another.
  abbrev pub Precedes : FolderEntry → FolderEntry → Type 0
  Precedes d e =
      (text_lt d.path e.path ≡ true) × (canonical nfc to_lowercase d ≢ canonical nfc to_lowercase e)

  abbrev pub IsOrdered : List FolderEntry → Type 0
  IsOrdered [] = Unit
  IsOrdered (e ∷ es) = All (Precedes e) es × IsOrdered es

  abbrev canon : FolderEntry → Text
  canon = canonical nfc to_lowercase

  Memᴰ-map_canon :
      (d : FolderEntry) (seen : List FolderEntry) → Memᴰ d seen → Memᴰ (canon d) (map canon seen)
  Memᴰ-map_canon d [] m = elim m [ ]
  Memᴰ-map_canon d (x ∷ seen) (Memᴰ.head h) = Memᴰ.head (ap canon h)
  Memᴰ-map_canon d (x ∷ seen) (Memᴰ.tail m) = Memᴰ.tail (Memᴰ-map_canon d seen m)

  -- An admitted entry comes behind all those seen, not the latest alone.
  behind_all :
      (seen : List FolderEntry) (e d : FolderEntry)
      → IsTree nfc to_lowercase seen
      → Admits nfc to_lowercase seen e
      → Memᴰ d seen
      → text_lt d.path e.path ≡ true
  behind_all [] e d tree a m = elim m [ ]
  behind_all (x ∷ seen) e d tree a (Memᴰ.head h) =
      subst (λ y. text_lt y.path e.path ≡ true) (sym h) (a.sorted x.path refl)
  behind_all (x ∷ seen) e d tree a (Memᴰ.tail m) =
      text_lt_trans d.path x.path e.path (behind_all seen x d tree.1 tree.0 m)
        (a.sorted x.path refl)

  Precedes-admitted :
      (seen : List FolderEntry) (e d : FolderEntry)
      → IsTree nfc to_lowercase seen
      → Admits nfc to_lowercase seen e
      → Memᴰ d seen
      → Precedes d e
  Precedes-admitted seen e d tree a m = (
    behind_all seen e d tree a m,
    λ same. a.unseen (subst (λ p. Memᴰ p (map canon seen)) same (Memᴰ-map_canon d seen m)),
  )

  suffix :
      (entries seen : List FolderEntry)
      → IsTree nfc to_lowercase (rev_onto entries seen)
      → IsTree nfc to_lowercase seen
  suffix [] seen tree = tree
  suffix (e ∷ entries) seen tree = (suffix entries (e ∷ seen) tree).1

  Precedes-later :
      (entries seen : List FolderEntry) (e : FolderEntry)
      → IsTree nfc to_lowercase (rev_onto entries seen)
      → Memᴰ e seen
      → All (Precedes e) entries
  Precedes-later [] seen e tree m = tt
  Precedes-later (x ∷ entries) seen e tree m =
      let (a, before) = suffix entries (x ∷ seen) tree in
      (
        Precedes-admitted seen x e before a m,
        Precedes-later entries (x ∷ seen) e tree (Memᴰ.tail m),
      )

  IsTree-IsOrdered :
      (entries seen : List FolderEntry)
      → IsTree nfc to_lowercase (rev_onto entries seen)
      → IsOrdered entries
  IsTree-IsOrdered [] seen tree = tt
  IsTree-IsOrdered (e ∷ entries) seen tree = (
    Precedes-later entries (e ∷ seen) e tree (Memᴰ.head refl),
    IsTree-IsOrdered entries (e ∷ seen) tree,
  )

  -- The entries of an accepted manifest are strictly sorted by path, and no two of them have the same
  -- path once case and composition of characters are set aside.
  pub validate-IsOrdered :
      (manifest : FolderManifest) (size : ℕ)
      → validate nfc to_lowercase manifest ≡ ok size
      → IsOrdered manifest.entries
  validate-IsOrdered manifest size h =
      let (_, _, tree, _) = (validate_iff nfc to_lowercase manifest size).0 h in
      IsTree-IsOrdered manifest.entries [] tree

  total_bound :
      (seen : List FolderEntry) → IsTree nfc to_lowercase seen → total seen ≤ max_file_size
  total_bound [] tree = omega arith
  total_bound (e ∷ seen) tree =
      metadata_bound e.kind e (total seen) (total_bound seen tree.1) tree.0.has_metadata

  total-rev_onto :
      (entries seen : List FolderEntry) → total (rev_onto entries seen) ≡ total entries + total seen
  total-rev_onto [] seen = omega arith
  total-rev_onto (e ∷ entries) seen = omega (arith, total-rev_onto entries (e ∷ seen))

  -- The size that an accepted manifest is given is the sum of the sizes of its files, at most 2^40.
  pub validate_size :
      (manifest : FolderManifest) (size : ℕ)
      → validate nfc to_lowercase manifest ≡ ok size
      → (size ≡ total manifest.entries) × (size ≤ max_file_size)
  validate_size manifest size h =
      let (_, _, tree, sum) = (validate_iff nfc to_lowercase manifest size).0 h in
      let bound = total_bound (rev_onto manifest.entries []) tree in
      let reversed = total-rev_onto manifest.entries [] in (omega arith, rw sum bound)
