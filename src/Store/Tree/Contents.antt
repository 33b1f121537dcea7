-- ===== src/Store/Tree/Contents.antt =====
-- A folder that passes the check of state.rs is what its manifest says, and the check comes to an end.
use ink_hole.Base.{
  Bool-cases, ◌==◌, nat_eq_instance, length, All, contains, int_eq_instance, option_eq_instance,
  keep, length-keep-le, Text, text_eq, text_eq_iff, text_eq_instance, ℕ, zero, suc, ◌+◌, ◌≤◌, ◌≡◌,
  refl, subst, ◌≢◌, inl, inr, Bool, true, false, not, Option, none, some, List, [], ◌∷◌, arith,
  distinct, All-keep, All-map, lookup, keys, lookup-missing, found_all,
}
use ink_hole.Errors.{
  Result, ok, err, or_fail, >>=-eq-ok, refuse-eq-ok, then-eq-ok, or_fail-eq-ok, ok-inj,
  refuse_if-eq-ok, Result-cases,
}
use ink_hole.Protocol.Paths.{validate_folder_relative_path}
use ink_hole.Protocol.Manifest.{FolderEntry}
use ink_hole.Store.Tree.{
  Item, regular, folder, special, Tree, read_dir, lies_in, Walk, matches, is_link, with_directory,
  check_item, check_items, walk_from, all_seen, walk_folder, finished,
}

-- Without this element.
abbrev apart_from : Text → Text → Bool
apart_from x y = not (text_eq y x)

length-apart :
    (ys : List Text) (x : Text)
    → contains ys x ≡ true
    → suc (length (keep (apart_from x) ys)) ≤ length ys
length-apart [] x h = cc
length-apart (y ∷ ys) x h = ground (arith, length-apart ys x, length-keep-le (apart_from x) ys)

contains-apart :
    (ys : List Text) (x y : Text)
    → contains ys y ≡ true
    → text_eq y x ≡ false
    → contains (keep (apart_from x) ys) y ≡ true
contains-apart [] x y h k = cc
contains-apart (z ∷ ys) x y h k = ground (arith, contains-apart ys x y, text_eq_iff z y)

abbrev Within : List Text → Text → Type 0
Within ys x = contains ys x ≡ true

Within-apart :
    (xs ys : List Text) (x : Text)
    → contains xs x ≡ false
    → All (Within ys) xs
    → All (Within (keep (apart_from x) ys)) xs
Within-apart [] ys x h k = tt
Within-apart (z ∷ xs) ys x h k =
    (contains-apart ys x z k.0 (ground arith), Within-apart xs ys x (ground arith) k.1)

-- Texts that differ, all from one list, are no more than that list.
distinct-length :
    (xs ys : List Text) → distinct xs ≡ true → All (Within ys) xs → length xs ≤ length ys
distinct-length [] ys d h = omega arith
distinct-length (x ∷ xs) ys d h = omega (
  arith,
  distinct-length xs (keep (apart_from x) ys) (ground arith)
      (Within-apart xs ys x (ground arith) h.1),
  length-apart ys x h.0,
)

-- If they are as many, they are all of it.
distinct-all :
    (xs ys : List Text) (y : Text)
    → distinct xs ≡ true
    → All (Within ys) xs
    → length ys ≤ length xs
    → contains ys y ≡ true
    → contains xs y ≡ true
distinct-all xs ys y d h n m = elim (Bool-cases (contains xs y)) [
  | inl there ↦ there
  | inr missing ↦
      absurd (omega (arith, distinct-length (y ∷ xs) ys (ground (arith, missing)) (m, h)))
]

abbrev pub fits : (List ℕ → Text) → Option FolderEntry → Option Item → Bool
fits hash_hex none item = false
fits hash_hex (some entry) none = false
fits hash_hex (some entry) (some item) = matches hash_hex entry.kind entry item

module _ (hash_hex : List ℕ → Text) (expected : List (Text × FolderEntry)) (tree : Tree)
    (tree_distinct : distinct (keys tree) ≡ true) where
  -- A path that the walk has checked.
  abbrev IsChecked : Text → Type 0
  IsChecked path = fits hash_hex (lookup expected path) (lookup tree path) ≡ true

  record IsSafeWalk (seen : List Text) : Type 0 where
    differ : distinct seen ≡ true
    checked : All IsChecked seen

  abbrev Stands : Text × Item → Type 0
  Stands entry = lookup tree entry.0 ≡ some entry.1

  check_item-Safe :
      (walk next : Walk) (path : Text) (item : Item)
      → IsSafeWalk walk.seen
      → lookup tree path ≡ some item
      → check_item hash_hex expected walk (path, item) ≡ ok next
      → IsSafeWalk next.seen
        × (length next.directories + length walk.seen ≤ length walk.directories + length next.seen)
  unfolding check_item
  check_item-Safe walk next path item s stands h =
      let (_, h1) = then-eq-ok (validate_folder_relative_path path) _ h in
      let (entry, found, h2) = >>=-eq-ok (or_fail (lookup expected path) _) _ h1 in
      let (new, h3) = refuse-eq-ok (contains walk.seen path) _ _ h2 in
      let (_, h4) = refuse-eq-ok (is_link item) _ _ h3 in
      let (good, h5) = refuse-eq-ok (not (matches hash_hex entry.kind entry item)) _ _ h4 in
      let safe : IsSafeWalk (path ∷ walk.seen) = record {
        differ = ground (arith, s.differ);
        checked =
            (rw (or_fail-eq-ok (lookup expected path) _ found, stands) (ground arith), s.checked);
      } in
      subst
        (λ (w : Walk).
          IsSafeWalk w.seen
          × (length w.directories + length walk.seen ≤ length walk.directories + length w.seen))
        (ok-inj h5) (safe, pushed item)
    where
      pushed :
          (i : Item)
          → length (with_directory i path walk.directories) + length walk.seen
            ≤ length walk.directories + suc (length walk.seen)
      pushed (regular contents) = omega arith
      pushed folder = omega arith
      pushed special = omega arith

  check_items-Safe :
      (walk next : Walk) (items : List (Text × Item))
      → IsSafeWalk walk.seen
      → All Stands items
      → check_items hash_hex expected walk items ≡ ok next
      → IsSafeWalk next.seen
        × (length next.directories + length walk.seen ≤ length walk.directories + length next.seen)
  unfolding check_items
  check_items-Safe walk next [] s stand h =
      subst
        (λ (w : Walk).
          IsSafeWalk w.seen
          × (length w.directories + length walk.seen ≤ length walk.directories + length w.seen))
        (ok-inj h) (s, omega arith)
  check_items-Safe walk next ((path, item) ∷ items) s stand h =
      let (middle, one, rest) = >>=-eq-ok (check_item hash_hex expected walk (path, item)) _ h in
      let (t, m) = check_item-Safe walk middle path item s stand.0 one in
      let (u, n) = check_items-Safe middle next items t stand.1 rest in (u, omega (arith, m, n))

  items-Stand : (path : Text) → All Stands (read_dir tree path)
  items-Stand path = All-keep Stands (lies_in path) tree (found_all tree tree_distinct)

  walk_from-Safe :
      (fuel : ℕ) (seen directories : List Text) (last : List Text)
      → IsSafeWalk seen
      → walk_from hash_hex expected tree fuel seen directories ≡ some (ok last)
      → IsSafeWalk last
  unfolding walk_from
  walk_from-Safe zero seen [] last s h = let same : seen ≡ last = cc in subst IsSafeWalk same s
  walk_from-Safe (suc fuel) seen [] last s h =
      let same : seen ≡ last = cc in subst IsSafeWalk same s
  walk_from-Safe zero seen (path ∷ directories) last s h = cc
  walk_from-Safe (suc fuel) seen (path ∷ directories) last s h =
      let walk : Walk = record { seen = seen; directories = directories } in
      elim (Result-cases (check_items hash_hex expected walk (read_dir tree path))) [
        | inl (e, refused) ↦
            let stuck : ◌≡◌ {A = Option (Result (List Text))} (some (err e)) (some (ok last)) =
              rw (refused, walk_from) at h in
            cc
        | inr (next, fine) ↦
            walk_from-Safe fuel next.seen next.directories last
              (check_items-Safe walk next (read_dir tree path) s (items-Stand path) fine).0
              (rw (fine, walk_from) at h)
      ]

  IsChecked-Within : (path : Text) → IsChecked path → Within (keys expected) path
  IsChecked-Within path c = elim (Bool-cases (contains (keys expected) path)) [
    | inl there ↦ there
    | inr missing ↦ absurd (ground (arith, c, lookup-missing expected path missing))
  ]

  seen_bound : (seen : List Text) → IsSafeWalk seen → length seen ≤ length (keys expected)
  seen_bound seen s =
      distinct-length seen (keys expected) s.differ (All-map seen IsChecked-Within s.checked)

  walk_from-enough :
      (fuel : ℕ) (seen directories : List Text)
      → IsSafeWalk seen
      → length directories + length (keys expected) ≤ fuel + length seen
      → walk_from hash_hex expected tree fuel seen directories ≢ none
  unfolding walk_from
  walk_from-enough zero seen [] s enough h = cc
  walk_from-enough (suc fuel) seen [] s enough h = cc
  walk_from-enough zero seen (path ∷ directories) s enough h =
      absurd (omega (arith, enough, seen_bound seen s))
  walk_from-enough (suc fuel) seen (path ∷ directories) s enough h =
      let walk : Walk = record { seen = seen; directories = directories } in
      elim (Result-cases (check_items hash_hex expected walk (read_dir tree path))) [
        | inl (e, refused) ↦
            let stuck : ◌≡◌ {A = Option (Result (List Text))} (some (err e)) none =
              rw (refused, walk_from) at h in
            cc
        | inr (next, fine) ↦
            let (t, m) =
              check_items-Safe walk next (read_dir tree path) s (items-Stand path) fine in
            walk_from-enough fuel next.seen next.directories t (omega (arith, enough, m))
              (rw (fine, walk_from) at h)
      ]

  all_seen-eq-ok :
      (walked : Option (Result (List Text)))
      → finished (all_seen expected walked) ≡ ok tt
      → (seen : List Text) × (walked ≡ some (ok seen)) × (length seen ≡ length expected)
  all_seen-eq-ok none h = cc
  all_seen-eq-ok (some (err e)) h = cc
  all_seen-eq-ok (some (ok seen)) h =
      (seen, refl, ground (arith, refuse_if-eq-ok (not (length seen == length expected)) _ h))

  length-keys : (t : List (Text × FolderEntry)) → length (keys t) ≡ length t
  length-keys [] = refl
  length-keys (x ∷ t) = omega (arith, length-keys t)

  pub walk_folder-fits :
      (path : Text) (entry : FolderEntry)
      → finished (walk_folder hash_hex tree expected) ≡ ok tt
      → lookup expected path ≡ some entry
      → fits hash_hex (some entry) (lookup tree path) ≡ true
  unfolding walk_folder
  walk_folder-fits path entry h found =
      let (seen, walked, full) = all_seen-eq-ok _ h in
      let s =
        walk_from-Safe (suc (length expected)) [] ([] ∷ []) seen
          (record { differ = refl; checked = tt }) walked in
      let there =
        distinct-all seen (keys expected) path s.differ (All-map seen IsChecked-Within s.checked)
          (omega (arith, full, length-keys expected)) (listed path entry found) in
      subst (λ o. fits hash_hex o (lookup tree path) ≡ true) found (of_all seen s.checked there)
    where
      listed :
          (p : Text) (e : FolderEntry)
          → lookup expected p ≡ some e
          → contains (keys expected) p ≡ true
      listed p e f = elim (Bool-cases (contains (keys expected) p)) [
        | inl known ↦ known
        | inr missing ↦ absurd (ground (arith, lookup-missing expected p missing))
      ]

      of_all : (xs : List Text) → All IsChecked xs → contains xs path ≡ true → IsChecked path
      of_all [] c m = cc
      of_all (x ∷ xs) c m = elim (Bool-cases (text_eq x path)) [
        | inl same ↦ subst IsChecked ((text_eq_iff x path).0 same) c.0
        | inr apart ↦ of_all xs c.1 (ground arith)
      ]

  -- The walk over a tree in which no path occurs twice has fuel enough: it comes to an end.
  pub walk_folder-ne-none : walk_folder hash_hex tree expected ≢ none
  unfolding walk_folder
  walk_folder-ne-none h =
      walk_from-enough (suc (length expected)) [] ([] ∷ []) (record { differ = refl; checked = tt })
        (omega (arith, length-keys expected)) (seen_none _ h)
    where
      seen_none :
          (walked : Option (Result (List Text))) → all_seen expected walked ≡ none → walked ≡ none
      seen_none none e = refl
      seen_none (some (err x)) e = cc
      seen_none (some (ok seen)) e = cc
