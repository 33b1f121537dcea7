-- ===== src/Store/Tree/Manifested.antt =====
-- What the check of a folder in state.rs says of each entry of its manifest.
use ink_hole.Base.{
  Bool-cases, nat_eq_instance, beq_self, All, int_eq_instance, option_eq_instance, Text, text_lt,
  text_lt_irrefl, text_eq, text_eq_iff, text_eq_instance, ℕ, ◌≡◌, refl, ◌∙◌, inl, inr, true, false,
  some, List, [], ◌∷◌, arith, distinct, All-map, lookup, insert, keys, lookup-insert,
}
use ink_hole.Errors.{ok, >>=-eq-ok}
use ink_hole.Protocol.Manifest.{FolderEntry, FolderManifest, validate}
use ink_hole.Protocol.Manifest.Order.{Precedes, IsOrdered, validate-IsOrdered}
use ink_hole.Store.Tree.{Tree, expected_from, validate_folder_contents}
use ink_hole.Store.Tree.Contents.{fits, walk_folder-fits}

abbrev pub DiffersFrom : Text → FolderEntry → Type 0
DiffersFrom p e = text_eq e.path p ≡ false

lookup-expected_from :
    (table : List (Text × FolderEntry)) (es : List FolderEntry) (p : Text)
    → All (DiffersFrom p) es
    → lookup (expected_from table es) p ≡ lookup table p
unfolding expected_from
lookup-expected_from table [] p h = refl
lookup-expected_from table (e ∷ es) p h =
    lookup-expected_from (insert table e.path e) es p h.1
    ∙ ground (arith, lookup-insert table e.path p e, h.0)

module _ (nfc : Text → Text) (to_lowercase : ℕ → Text) where
  pub Precedes-differs :
      (e : FolderEntry) (es : List FolderEntry)
      → All (Precedes nfc to_lowercase e) es
      → All (DiffersFrom e.path) es
  Precedes-differs e es h = All-map es (λ x p. behind x p.0) h
    where
      behind : (x : FolderEntry) → text_lt e.path x.path ≡ true → DiffersFrom e.path x
      behind x lt = elim (Bool-cases (text_eq x.path e.path)) [
        | inl same ↦
            absurd (ground (arith, lt, text_lt_irrefl e.path, (text_eq_iff x.path e.path).0 same))
        | inr apart ↦ apart
      ]

  expected_from-found :
      (table : List (Text × FolderEntry)) (es : List FolderEntry)
      → IsOrdered nfc to_lowercase es
      → All (λ (e : FolderEntry). lookup (expected_from table es) e.path ≡ some e) es
  unfolding expected_from
  expected_from-found table [] h = tt
  expected_from-found table (e ∷ es) h = (
    lookup-expected_from (insert table e.path e) es e.path (Precedes-differs e es h.0)
        ∙ ground (arith, lookup-insert table e.path e.path e, beq_self e.path),
    expected_from-found (insert table e.path e) es h.1,
  )

  module _ (hash_hex : List ℕ → Text) where
    -- That an entry of a manifest stands in a tree as the manifest says.
    abbrev pub StandsIn : Tree → FolderEntry → Type 0
    StandsIn tree e = fits hash_hex (some e) (lookup tree e.path) ≡ true

    -- A folder in which no path occurs twice and that passes the check has every entry of the manifest:
    -- each directory, and each file with the size and the digest that the manifest gives.
    pub validate_folder_contents-StandsIn :
        (tree : Tree) (manifest : FolderManifest)
        → distinct (keys tree) ≡ true
        → validate_folder_contents hash_hex nfc to_lowercase (some tree) manifest ≡ ok tt
        → All (StandsIn tree) manifest.entries
    unfolding validate_folder_contents
    validate_folder_contents-StandsIn tree manifest d h =
        let (size, valid, h1) = >>=-eq-ok (validate nfc to_lowercase manifest) _ h in
        let expected = expected_from [] manifest.entries in
        All-map manifest.entries
          (λ e found. walk_folder-fits hash_hex expected tree d e.path e h1 found)
          (expected_from-found [] manifest.entries
            (validate-IsOrdered nfc to_lowercase manifest size valid))
