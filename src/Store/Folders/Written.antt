-- ===== src/Store/Folders/Written.antt =====
-- Where the directories above a file of a folder stand, and what writing one file leaves, on the tree of
-- state.rs.
use ink_hole.Base.{
  Bool-cases, nat_eq_instance, beq_self, All, int_eq_instance, option_eq_instance, Text, text_eq,
  text_eq_iff, text_eq_instance, ℕ, ◌≡◌, refl, sym, subst, ◌∙◌, inl, inr, Bool, true, false, Option,
  none, some, List, [], ◌∷◌, lookup, insert, lookup-insert,
}
use ink_hole.Errors.{Result, ok, err}
use ink_hole.Protocol.Paths.{validate_folder_relative_path}
use ink_hole.Protocol.Manifest.{folder_ancestors}
use ink_hole.Store.Tree.{
  Item, regular, folder, special, Tree, Step, and_then, make_dir, make_found, make_dirs,
  ensure_safe_parent_directories,
}

-- The bytes of a file that are staged, if a file can be staged here.
abbrev pub staged_bytes : Option Item → Option (List ℕ)
staged_bytes none = some []
staged_bytes (some (regular contents)) = some contents
staged_bytes (some folder) = none
staged_bytes (some special) = none

abbrev pub is_folder : Option Item → Bool
is_folder (some folder) = true
is_folder (some (regular contents)) = false
is_folder (some special) = false
is_folder none = false

abbrev pub StandsOpen : Tree → Text → Type 0
StandsOpen tree path = is_folder (lookup tree path) ≡ true

make_found-standing :
    (found : Option Item) (tree : Tree) (path : Text)
    → is_folder found ≡ true
    → make_found found tree path ≡ (ok tt, tree)
make_found-standing none tree path h = cc
make_found-standing (some folder) tree path h = refl
make_found-standing (some special) tree path h = cc
make_found-standing (some (regular contents)) tree path h = cc

make_dirs-standing :
    (tree : Tree) (paths : List Text)
    → All (StandsOpen tree) paths
    → make_dirs tree paths ≡ (ok tt, tree)
unfolding make_dirs make_dir
make_dirs-standing tree [] all_stand = refl
make_dirs-standing tree (path ∷ paths) all_stand =
    rw (make_found-standing (lookup tree path) tree path all_stand.0)
      (make_dirs-standing tree paths all_stand.1)

pub parents-standing :
    (tree : Tree) (path : Text)
    → validate_folder_relative_path path ≡ ok tt
    → All (StandsOpen tree) (folder_ancestors path)
    → ensure_safe_parent_directories tree path ≡ (ok tt, tree)
unfolding ensure_safe_parent_directories
parents-standing tree path valid stand =
    rw (valid) (make_dirs-standing tree (folder_ancestors path) stand)

-- That this went well and left these contents under a path, and all else alone.
pub record Written (tree : Tree) (path : Text) (contents : List ℕ) (r : Step) : Type 0 where
  pub done : r.0 ≡ ok tt
  pub at_path : lookup r.1 path ≡ some (regular contents)
  pub elsewhere : (p : Text) → text_eq path p ≡ false → lookup r.1 p ≡ lookup tree p

pub inserted :
    (tree : Tree) (path : Text) (contents : List ℕ)
    → Written tree path contents (ok tt, insert tree path (regular contents))
inserted tree path contents = record {
  done = refl;
  at_path = rw (lookup-insert tree path path (regular contents), beq_self path) refl;
  elsewhere = λ p apart. rw (lookup-insert tree path p (regular contents), apart) refl;
}

pub and_then-Written :
    (tree : Tree) (path : Text) (part contents : List ℕ) (r : Step) (next : Tree → Step)
    → Written tree path part r
    → Written r.1 path contents (next r.1)
    → Written tree path contents (and_then r next)
and_then-Written tree path part contents (err e, after) next w v =
    let failed : ◌≡◌ {A = Result (Unit {0})} (err e) (ok tt) = w.done in cc
and_then-Written tree path part contents (ok done, after) next w v = record {
  done = v.done;
  at_path = v.at_path;
  elsewhere = λ p apart. v.elsewhere p apart ∙ w.elsewhere p apart;
}

StandsOpen-Written :
    (tree : Tree) (path : Text) (part contents : List ℕ) (r : Step) (q : Text)
    → Written tree path contents r
    → staged_bytes (lookup tree path) ≡ some part
    → StandsOpen tree q
    → StandsOpen r.1 q
StandsOpen-Written tree path part contents r q written staged stands =
    elim (Bool-cases (text_eq path q)) [
      | inl same ↦ absurd (
          clash (lookup tree path) part staged
            (subst (StandsOpen tree) (sym ((text_eq_iff path q).0 same)) stands))
      | inr apart ↦ rw (written.elsewhere q apart) stands
    ]
  where
    clash :
        (found : Option Item) (part : List ℕ)
        → staged_bytes found ≡ some part
        → is_folder found ≡ true
        → ⊥
    clash none part s h = cc
    clash (some folder) part s h = cc
    clash (some special) part s h = cc
    clash (some (regular c)) part s h = cc

pub all-StandsOpen-Written :
    (tree : Tree) (path : Text) (part contents : List ℕ) (r : Step) (paths : List Text)
    → Written tree path contents r
    → staged_bytes (lookup tree path) ≡ some part
    → All (StandsOpen tree) paths
    → All (StandsOpen r.1) paths
all-StandsOpen-Written tree path part contents r [] written staged stand = tt
all-StandsOpen-Written tree path part contents r (q ∷ paths) written staged stand = (
  StandsOpen-Written tree path part contents r q written staged stand.0,
  all-StandsOpen-Written tree path part contents r paths written staged stand.1,
)
