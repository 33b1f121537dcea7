-- ===== src/Protocol/Paths.antt =====
-- `validate_folder_relative_path` of protocol.rs and `folder_entry_path` of state.rs.
pub mod Components
use mathlib.Core.List.{append_assoc, append-nil}
use ink_hole.Base.{
  ltb, nat_eq, if◌then◌else◌, ◌==◌, nat_eq_instance, all, any, int_eq_instance, option_eq_instance,
  Text, codes, len, starts_with, ends_with, split, text_eq_instance, ℕ, ◌≡◌, refl, sym, ◌∙◌, Bool,
  true, false, not, ◌||◌, List, [], ◌∷◌, ◌++◌, arith,
}
use ink_hole.Errors.{
  CoreError, Result, ok, err, invalid_transfer, plain, refuse_if, ◌>>◌, then-eq-ok,
}
use ink_hole.Protocol.Names.{is_forbidden, is_trailing, windows_reserved_name}

abbrev pub max_folder_path_bytes : ℕ
max_folder_path_bytes = 4096

abbrev pub invalid_path : CoreError
invalid_path = invalid_transfer (plain "invalid folder entry path")

-- The tests on the whole path, and those on one of its components.
unsafe_path : Text → Bool
unsafe_path path =
    path == []
    || ltb max_folder_path_bytes (len path)
    || starts_with b'/' path
    || ends_with (nat_eq b'/') path
    || any (λ c. nat_eq c 0x5c || nat_eq c 0) path

unsafe_component : Text → Bool
unsafe_component component =
    component == []
    || component == codes "."
    || component == codes ".."
    || ends_with is_trailing component
    || any is_forbidden component
    || windows_reserved_name component

check_components : List Text → Result (Unit {0})
unfolding unsafe_component
check_components [] = ok tt
check_components (c ∷ cs) =
    let rest = check_components cs in if unsafe_component c then err invalid_path else rest

unfoldable pub validate_folder_relative_path : Text → Result (Unit {0})
unfolding unsafe_path check_components
validate_folder_relative_path path = do
  refuse_if (unsafe_path path) invalid_path
  check_components (split b'/' path)

-- A directory, as the names that lead to it from the root of the file system.
abbrev pub Directory : Type 0
Directory = List Text

-- `PathBuf::push` of a relative component.
unfoldable pub push_all : Directory → List Text → Directory
push_all directory [] = directory
push_all directory (c ∷ cs) = push_all (directory ++ c ∷ []) cs

unfoldable pub folder_entry_path : Directory → Text → Result Directory
folder_entry_path root relative = do
  validate_folder_relative_path relative
  ok (push_all root (split b'/' relative))

abbrev drop_last : Directory → Directory
drop_last [] = []
drop_last (d ∷ []) = []
drop_last (d ∷ e ∷ ds) = d ∷ drop_last (e ∷ ds)

-- Where a component leads, as an operating system reads it.
abbrev enter : Directory → Text → Directory
enter directory component =
    if component == [] || component == codes "."
    then directory
    else if component == codes ".."
    then drop_last directory
    else directory ++ component ∷ []

unfoldable pub resolve : Directory → List Text → Directory
resolve directory [] = directory
resolve directory (c ∷ cs) = resolve (enter directory c) cs

all-any-not : (p : ℕ → Bool) (s : Text) → any p s ≡ false → all (λ c. not (p c)) s ≡ true
all-any-not p [] h = refl
all-any-not p (c ∷ s) h = ground (arith, all-any-not p s)

-- The components of an accepted path pass each test.
check_components-eq-ok :
    (cs : List Text) → check_components cs ≡ ok tt → all (λ c. not (unsafe_component c)) cs ≡ true
unfolding check_components
check_components-eq-ok [] h = refl
check_components-eq-ok (c ∷ cs) h = ground (arith, check_components-eq-ok cs)

push_all-append : (directory : Directory) (cs : List Text) → push_all directory cs ≡ directory ++ cs
unfolding push_all
push_all-append directory [] = sym (append-nil directory)
push_all-append directory (c ∷ cs) =
    push_all-append (directory ++ c ∷ []) cs ∙ append_assoc directory (c ∷ []) cs

enter_safe :
    (directory : Directory) (c : Text)
    → unsafe_component c ≡ false
    → enter directory c ≡ directory ++ c ∷ []
unfolding unsafe_component
enter_safe directory c h = ground arith

resolve_safe :
    (directory : Directory) (cs : List Text)
    → all (λ c. not (unsafe_component c)) cs ≡ true
    → resolve directory cs ≡ directory ++ cs
unfolding resolve
resolve_safe directory [] h = sym (append-nil directory)
resolve_safe directory (c ∷ cs) h =
    rw (enter_safe directory c (ground arith))
      (resolve_safe (directory ++ c ∷ []) cs (ground arith) ∙ append_assoc directory (c ∷ []) cs)

-- What acceptance says of the whole path and of its components.
accepted :
    (path : Text)
    → validate_folder_relative_path path ≡ ok tt
    → (unsafe_path path ≡ false) × (all (λ c. not (unsafe_component c)) (split b'/' path) ≡ true)
unfolding validate_folder_relative_path
accepted path h = ground (arith, check_components-eq-ok (split b'/' path))

-- An accepted entry path leads to a place below the root that it is joined to: the operating system
-- resolves it to the root followed by the path's own components, and the program to the same place.
pub folder_entry_path_contained :
    (root : Directory) (relative : Text) (path : Directory)
    → folder_entry_path root relative ≡ ok path
    → (path ≡ root ++ split b'/' relative) × (resolve root (split b'/' relative) ≡ path)
unfolding folder_entry_path
folder_entry_path_contained root relative path h =
    let (valid, e) = then-eq-ok (validate_folder_relative_path relative) _ h in
    let safe = (accepted relative valid).1 in
    let place : path ≡ root ++ split b'/' relative =
      ground (arith, push_all-append root (split b'/' relative)) in
    (place, resolve_safe root (split b'/' relative) safe ∙ sym place)
