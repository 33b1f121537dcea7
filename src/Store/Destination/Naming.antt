-- ===== src/Store/Destination/Naming.antt =====
-- The names that `unique_destination` of state.rs chooses are such as the records of the store accept.
use ink_hole.Base.{
  nat_eq, Bool-cases, Option-cases, nat_eq_instance, all, int_eq_instance, option_eq_iff,
  option_eq_instance, Text, codes, text_eq-ne, has, ends_with, split, rsplit_once, text_eq_iff,
  text_eq_instance, ℕ, zero, suc, ◌+◌, ◌-◌, ◌^◌, ◌≡◌, refl, sym, ap, subst, ◌∙◌, ◌≢◌, inl, inr,
  Bool, true, false, not, some, [], ◌∷◌, ◌++◌, arith, all-append,
}
use mathlib.Core.List.{append-nil, append_assoc}
use ink_hole.Errors.{ok, ok-inj}
use ink_hole.Protocol.Names.{
  is_forbidden, is_special, is_separator, is_trailing, to_ascii_uppercase, reserved_stem,
  windows_reserved_name, IsSafeName, head_piece, reserved-head_piece,
}
use ink_hole.Protocol.Filenames.{safe_filename, safe_filename_id, safe_filename-IsSafeName}
use ink_hole.Store.Destination.{
  split_extension, decimal, candidate, next_free, unique_destination, file_name,
  validate_destination_name,
}
use ink_hole.Store.Destination.Pieces.{
  clean, decimal-clean, ends_with-append, head_piece-pointed, head_piece-space, rsplit_once-append,
  spaced_stem, uppercase-space,
}

abbrev is_extension : Text → Bool
is_extension [] = true
is_extension (c ∷ s) = nat_eq c b'.'

record Parts (filename : Text) (parts : Text × Text) : Type 0 where
  joined : filename ≡ parts.0 ++ parts.1
  pointed : is_extension parts.1 ≡ true

split_extension-Parts : (filename : Text) → Parts filename (split_extension filename)
unfolding split_extension
split_extension-Parts filename = elim (Option-cases (rsplit_once b'.' filename)) [
  | inl missing ↦
      rw (missing, split_extension) (record { joined = sym (append-nil filename); pointed = refl })
  | inr (([], extension), found) ↦
      rw (found, split_extension) (record { joined = sym (append-nil filename); pointed = refl })
  | inr ((c ∷ stem, extension), found) ↦
      rw (found, split_extension)
        (record {
          joined = rsplit_once-append b'.' filename (c ∷ stem) extension found;
          pointed = refl;
        })
]

-- A number in brackets behind a blank.
abbrev numbered : ℕ → Text
numbered index = b' ' ∷ b'(' ∷ (decimal 10 index ++ codes ")")

candidate-numbered :
    (stem extension : Text) (index : ℕ)
    → candidate stem extension index ≡ stem ++ (numbered index ++ extension)
unfolding candidate
candidate-numbered stem extension index =
    let number = decimal 10 index in
    append_assoc (stem ++ codes " (" ++ number) (codes ")") extension
    ∙ append_assoc (stem ++ codes " (") number (codes ")" ++ extension)
    ∙ append_assoc stem (codes " (") (number ++ (codes ")" ++ extension))
    ∙ ap (λ s. stem ++ (codes " (" ++ s)) (sym (append_assoc number (codes ")") extension))

numbered-clean : (index : ℕ) → all clean (numbered index) ≡ true
unfolding is_forbidden is_special
numbered-clean index =
    all-append clean (decimal 10 index) (codes ")") ∙ ground (arith, decimal-clean 10 index)

-- The end of a numbered name is that of its extension, or a bracket.
numbered_end :
    (stem extension : Text) (index : ℕ)
    → is_extension extension ≡ true
    → ends_with is_trailing (stem ++ extension) ≡ false
    → ends_with is_trailing (stem ++ (numbered index ++ extension)) ≡ false
unfolding ends_with
numbered_end stem [] index e h =
    ends_with-append is_trailing stem b' ' (b'(' ∷ (decimal 10 index ++ codes ")" ++ []))
    ∙ ap (λ s. ends_with is_trailing (b' ' ∷ b'(' ∷ s)) (append-nil (decimal 10 index ++ codes ")"))
    ∙ ends_with-append is_trailing (b' ' ∷ b'(' ∷ decimal 10 index) b')' []
numbered_end stem (c ∷ rest) index e h =
    ends_with-append is_trailing stem b' ' _
    ∙ ends_with-append is_trailing (numbered index) c rest
    ∙ sym (ends_with-append is_trailing stem c rest)
    ∙ h

candidate-unreserved :
    (stem extension : Text) (index : ℕ)
    → windows_reserved_name (stem ++ extension) ≡ false
    → windows_reserved_name (stem ++ (numbered index ++ extension)) ≡ false
candidate-unreserved stem extension index h = elim (Bool-cases (has b'.' stem)) [
  | inl pointed ↦
      reserved-head_piece (stem ++ (numbered index ++ extension))
      ∙ ap (λ s. reserved_stem (to_ascii_uppercase s))
          (head_piece-pointed stem (numbered index ++ extension) extension pointed)
      ∙ sym (reserved-head_piece (stem ++ extension))
      ∙ h
  | inr pointless ↦
      let behind = b'(' ∷ (decimal 10 index ++ codes ")" ++ extension) in
      reserved-head_piece (stem ++ (numbered index ++ extension))
      ∙ spaced_stem (to_ascii_uppercase (head_piece (stem ++ b' ' ∷ behind))) (
          uppercase-space (head_piece (stem ++ b' ' ∷ behind))
            (head_piece-space stem behind pointless))
]

parts-IsSafeName :
    (stem extension : Text) (index : ℕ)
    → is_extension extension ≡ true
    → IsSafeName (stem ++ extension)
    → IsSafeName (stem ++ (numbered index ++ extension))
parts-IsSafeName stem extension index e safe = record {
  nonempty = nonempty stem;
  clean =
      all-append clean stem (numbered index ++ extension)
      ∙ ground (
        arith,
        safe.clean,
        all-append clean stem extension,
        all-append clean (numbered index) extension,
        numbered-clean index,
      );
  untrailed = numbered_end stem extension index e safe.untrailed;
  unreserved = candidate-unreserved stem extension index safe.unreserved;
}
  where
    nonempty : (s : Text) → s ++ (numbered index ++ extension) ≢ []
    nonempty [] h = cc
    nonempty (c ∷ s) h = cc

-- With a number, a safe name stays safe.
candidate-IsSafeName :
    (filename : Text) (index : ℕ)
    → IsSafeName filename
    → IsSafeName (candidate (split_extension filename).0 (split_extension filename).1 index)
candidate-IsSafeName filename index safe =
    let parts = split_extension-Parts filename in
    let (stem, extension) = split_extension filename in
    subst IsSafeName (sym (candidate-numbered stem extension index))
      (parts-IsSafeName stem extension index parts.pointed (subst IsSafeName parts.joined safe))

module _ (exists : Text → Bool) where
  next_free-IsSafeName :
      (filename : Text) (count index : ℕ) (name : Text)
      → IsSafeName filename
      → next_free exists (split_extension filename).0 (split_extension filename).1 count index
        ≡ ok name
      → IsSafeName name
  unfolding next_free
  next_free-IsSafeName filename zero index name safe h = cc
  next_free-IsSafeName filename (suc count) index name safe h =
      let (stem, extension) = split_extension filename in
      elim (Bool-cases (exists (candidate stem extension index))) [
        | inl taken ↦
            next_free-IsSafeName filename count (index + 1) name safe (rw (taken, next_free) at h)
        | inr free ↦
            subst IsSafeName (ok-inj (rw (free, next_free) at h))
              (candidate-IsSafeName filename index safe)
      ]

  pub unique_destination-IsSafeName :
      (filename name : Text)
      → IsSafeName filename
      → unique_destination exists filename ≡ ok name
      → IsSafeName name
  unfolding unique_destination
  unique_destination-IsSafeName filename name safe h = elim (Bool-cases (exists filename)) [
    | inl taken ↦
        next_free-IsSafeName filename (2 ^ 32 - 2) 2 name safe (rw (taken, unique_destination) at h)
    | inr free ↦ subst IsSafeName (ok-inj (rw (free, unique_destination) at h)) safe
  ]

split_single : (s : Text) → all (λ c. not (is_separator c)) s ≡ true → split b'/' s ≡ s ∷ []
unfolding split
split_single [] h = refl
split_single (c ∷ s) h = ground (arith, split_single s)

clean_weaken : (s : Text) → all clean s ≡ true → all (λ c. not (is_separator c)) s ≡ true
clean_weaken [] h = refl
clean_weaken (c ∷ s) h = ground (arith, clean_weaken s)

IsSafeName-file_name : (name : Text) → IsSafeName name → file_name name ≡ some name
unfolding file_name ends_with
IsSafeName-file_name name safe =
    rw
      (
        split_single name (clean_weaken name safe.clean),
        text_eq-ne name [] safe.nonempty,
        text_eq-ne name (codes ".") (λ e. trailing (ap (ends_with is_trailing) e)),
        text_eq-ne name (codes "..") (λ e. trailing (ap (ends_with is_trailing) e)),
      )
      refl
  where
    trailing : ends_with is_trailing name ≡ true → ⊥
    trailing h = cc (safe.untrailed)

-- A safe name is accepted as the destination in a record.
pub IsSafeName-validate : (name : Text) → IsSafeName name → validate_destination_name name ≡ ok tt
unfolding validate_destination_name
IsSafeName-validate name safe = ground (
  arith,
  (text_eq_iff (safe_filename name) name).1 (safe_filename_id name safe),
  (option_eq_iff (file_name name) (some name)).1 (IsSafeName-file_name name safe),
)

-- Whatever name was offered, the records of the store accept the name that is chosen for it.
pub unique_destination-valid :
    (exists : Text → Bool) (raw name : Text)
    → unique_destination exists (safe_filename raw) ≡ ok name
    → validate_destination_name name ≡ ok tt
unique_destination-valid exists raw name h =
    IsSafeName-validate name (
      unique_destination-IsSafeName exists (safe_filename raw) name (safe_filename-IsSafeName raw)
        h)
