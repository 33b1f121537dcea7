-- ===== src/Store/Destination.antt =====
-- The choice of a name for what has arrived: `unique_destination`, `split_extension` and
-- `validate_destination_name` of state.rs.
pub mod Pieces
pub mod Naming
use ink_hole.Base.{
  ltb, if◌then◌else◌, Bool-cases, ◌==◌, nat_eq_instance, int_eq_instance, option_eq_instance, keep,
  Text, codes, split, rsplit_once, text_eq_instance, ℕ, zero, suc, ◌+◌, ◌-◌, ◌/◌, ◌%◌, ◌^◌, ◌≡◌,
  subst, inl, inr, Bool, true, false, not, ◌||◌, Option, none, some, List, [], ◌∷◌, ◌++◌,
}
use ink_hole.Errors.{CoreError, Result, ok, err, invalid_transfer, plain, refuse_if, ok-inj}
use ink_hole.Protocol.Filenames.{safe_filename}

-- `rfind('.')` and the two slices.
unfoldable pub split_extension : Text → Text × Text
split_extension filename = elim (rsplit_once b'.' filename) [
  | none ↦ (filename, [])
  | some ([], extension) ↦ (filename, [])
  | some (c ∷ stem, extension) ↦ (c ∷ stem, b'.' ∷ extension)
]

-- A number of at most so many digits, in decimal.
unfoldable pub decimal : ℕ → ℕ → Text
decimal zero n = []
decimal (suc k) n =
    let high = decimal k (n / 10) in (if ltb n 10 then [] else high) ++ (b'0' + n % 10) ∷ []

-- `format!("{stem} ({index}){extension}")`; a `u32` has at most ten digits.
unfoldable pub candidate : Text → Text → ℕ → Text
candidate stem extension index = stem ++ codes " (" ++ decimal 10 index ++ codes ")" ++ extension

abbrev exhausted : CoreError
exhausted = invalid_transfer (plain "cannot allocate a destination filename")

-- `exists` is `try_exists` below the root.
module _ (exists : Text → Bool) where
  -- The loop over so many indices, from one on.
  unfoldable pub next_free : Text → Text → ℕ → ℕ → Result Text
  next_free stem extension zero index = err exhausted
  next_free stem extension (suc count) index = elim (exists (candidate stem extension index)) [
    | false ↦ ok (candidate stem extension index)
    | true ↦ next_free stem extension count (index + 1)
  ]

  -- The indices are 2 to `u32::MAX`.
  unfoldable pub unique_destination : Text → Result Text
  unique_destination filename =
      let (stem, extension) = split_extension filename in
      elim (exists filename) [
        | false ↦ ok filename
        | true ↦ next_free stem extension (2 ^ 32 - 2) 2
      ]

-- `Path::file_name`, of the components that are neither empty nor a dot.
abbrev pub last_normal : List Text → Option Text
last_normal [] = none
last_normal (w ∷ []) = if w == codes ".." then none else some w
last_normal (w ∷ v ∷ ws) = last_normal (v ∷ ws)

unfoldable pub file_name : Text → Option Text
file_name path = last_normal (keep (λ w. not (w == [] || w == codes ".")) (split b'/' path))

unfoldable pub validate_destination_name : Text → Result (Unit {0})
validate_destination_name name =
    refuse_if (not (safe_filename name == name) || not (file_name name == some name))
      (invalid_transfer (plain "invalid destination in transfer state"))

module _ (exists : Text → Bool) where
  next_free_result :
      (stem extension : Text) (count index : ℕ) (name : Text)
      → next_free exists stem extension count index ≡ ok name
      → exists name ≡ false
  unfolding next_free
  next_free_result stem extension zero index name h = cc
  next_free_result stem extension (suc count) index name h =
      elim (Bool-cases (exists (candidate stem extension index))) [
        | inl taken ↦
            next_free_result stem extension count (index + 1) name (rw (taken, next_free) at h)
        | inr free ↦ subst (λ n. exists n ≡ false) (ok-inj (rw (free, next_free) at h)) free
      ]

  -- The name that is chosen is not taken.
  pub unique_destination_free :
      (filename name : Text) → unique_destination exists filename ≡ ok name → exists name ≡ false
  unfolding unique_destination
  unique_destination_free filename name h = elim (Bool-cases (exists filename)) [
    | inl taken ↦ next_free_result _ _ (2 ^ 32 - 2) 2 name (rw (taken, unique_destination) at h)
    | inr free ↦ subst (λ n. exists n ≡ false) (ok-inj (rw (free, unique_destination) at h)) free
  ]
