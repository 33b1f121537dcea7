-- ===== src/Protocol/Filenames.antt =====
-- `safe_filename` of protocol.rs; what a name that it gives is like stands in Portable.
pub mod Portable
use mathlib.Core.List.{map, append-nil, append_assoc}
use ink_hole.Base.{
  if◌then◌else◌, ◌==◌, nat_eq_instance, all, int_eq_instance, option_eq_instance, Text, codes,
  text_eq-ne, ends_with, split, text_eq, text_eq_iff, text_eq_instance, ℕ, ◌≡◌, refl, sym, ap, ◌∙◌,
  Bool, true, false, not, ◌||◌, List, [], ◌∷◌, ◌++◌, map, arith, if_elim, all-append, trim_end,
  trim_end-all, trim_end-untrailed, trim_end-id,
}
use ink_hole.Protocol.Names.{
  is_forbidden, is_separator, is_trailing, windows_reserved_name, IsSafeName, underscore_unreserved,
}

-- `rsplit(['/', '\\']).next()`: what stands behind the last separator.
basename_from : Text → Text → Text
basename_from piece [] = piece
basename_from piece (c ∷ s) = basename_from (if is_separator c then [] else piece ++ c ∷ []) s

replace_forbidden : Text → Text
replace_forbidden = map (λ c. if is_forbidden c then b'_' else c)

-- The last step of `safe_filename`.
settle : Text → Text
settle trimmed =
    if trimmed == [] || trimmed == codes "." || trimmed == codes ".."
    then codes "unknown"
    else if windows_reserved_name trimmed
    then b'_' ∷ trimmed
    else trimmed

unfoldable pub safe_filename : Text → Text
unfolding basename_from replace_forbidden trim_end settle
safe_filename raw = settle (trim_end is_trailing (replace_forbidden (basename_from [] raw)))

abbrev clean_char : ℕ → Bool
clean_char c = not (is_forbidden c || is_separator c)

basename_from-clean :
    (piece raw : Text)
    → all (λ c. not (is_separator c)) piece ≡ true
    → all (λ c. not (is_separator c)) (basename_from piece raw) ≡ true
unfolding basename_from
basename_from-clean piece [] h = h
basename_from-clean piece (c ∷ s) h =
    basename_from-clean (if is_separator c then [] else piece ++ c ∷ []) s (
      if_elim (λ q. all (λ c. not (is_separator c)) q ≡ true) (is_separator c) (λ _. refl)
        (λ e. ground (arith, all-append (λ c. not (is_separator c)) piece (c ∷ []))))

replace_forbidden-clean :
    (s : Text)
    → all (λ c. not (is_separator c)) s ≡ true
    → all (λ c. not (is_forbidden c || is_separator c)) (replace_forbidden s) ≡ true
unfolding replace_forbidden is_forbidden
replace_forbidden-clean [] h = refl
replace_forbidden-clean (c ∷ s) h = ground (arith, replace_forbidden-clean s)

unknown-IsSafeName : IsSafeName (codes "unknown")
unfolding is_forbidden ends_with windows_reserved_name split text_eq
unknown-IsSafeName = record {
  nonempty = λ e. cc;
  clean = refl;
  untrailed = refl;
  unreserved = refl;
}

prefixed-clean : (s : Text) → all clean_char s ≡ true → all clean_char (b'_' ∷ s) ≡ true
unfolding is_forbidden
prefixed-clean s h = h

prefixed-untrailed :
    (s : Text) → ends_with is_trailing s ≡ false → ends_with is_trailing (b'_' ∷ s) ≡ false
unfolding ends_with
prefixed-untrailed [] h = refl
prefixed-untrailed (d ∷ t) h = h

-- What `settle` makes of a trimmed and clean text is a safe name.
settle-IsSafeName :
    (s : Text) → all clean_char s ≡ true → ends_with is_trailing s ≡ false → IsSafeName (settle s)
unfolding settle
settle-IsSafeName s clean untrailed =
    if_elim IsSafeName (s == [] || s == codes "." || s == codes "..") (λ _. unknown-IsSafeName)
      (λ named.
        if_elim IsSafeName (windows_reserved_name s)
          (λ _. record {
            nonempty = λ e. cc;
            clean = prefixed-clean s clean;
            untrailed = prefixed-untrailed s untrailed;
            unreserved = underscore_unreserved s;
          })
          (λ free. record {
            nonempty = λ e. absurd (ground (arith, text_eq_iff s []));
            clean = clean;
            untrailed = untrailed;
            unreserved = free;
          }))

-- Whatever a peer sends as a file name, the name that is used passes every test of `safe_filename`.
pub safe_filename-IsSafeName : (raw : Text) → IsSafeName (safe_filename raw)
unfolding safe_filename
safe_filename-IsSafeName raw =
    settle-IsSafeName _
      (trim_end-all is_trailing clean_char (replace_forbidden (basename_from [] raw))
        (replace_forbidden-clean _ (basename_from-clean [] raw refl)))
      (trim_end-untrailed is_trailing (replace_forbidden (basename_from [] raw)))

bool_false : (b : Bool) → not b ≡ true → b ≡ false
bool_false true h = cc
bool_false false h = refl

basename_from-id :
    (piece s : Text) → all (λ c. not (is_separator c)) s ≡ true → basename_from piece s ≡ piece ++ s
unfolding basename_from
basename_from-id piece [] h = sym (append-nil piece)
basename_from-id piece (c ∷ s) h =
    rw (bool_false (is_separator c) (ground arith))
      (basename_from-id (piece ++ c ∷ []) s (ground arith) ∙ append_assoc piece (c ∷ []) s)

replace_forbidden-id : (s : Text) → all clean_char s ≡ true → replace_forbidden s ≡ s
unfolding replace_forbidden
replace_forbidden-id [] h = refl
replace_forbidden-id (c ∷ s) h = ground (arith, replace_forbidden-id s)

all-weaken : (s : Text) → all clean_char s ≡ true → all (λ c. not (is_separator c)) s ≡ true
all-weaken [] h = refl
all-weaken (c ∷ s) h = ground (arith, all-weaken s)

settle-id : (s : Text) → IsSafeName s → settle s ≡ s
unfolding settle ends_with
settle-id s safe = rw (
  text_eq-ne s [] safe.nonempty,
  text_eq-ne s (codes ".") (λ e. trailing (ap (ends_with is_trailing) e)),
  text_eq-ne s (codes "..") (λ e. trailing (ap (ends_with is_trailing) e)),
  safe.unreserved,
)
  where
    trailing : ends_with is_trailing s ≡ true → ⊥
    trailing h = cc (safe.untrailed)

-- A safe name is kept as it is.
pub safe_filename_id : (name : Text) → IsSafeName name → safe_filename name ≡ name
unfolding safe_filename
safe_filename_id name safe =
    ap settle (
      ap (trim_end is_trailing) (
        ap replace_forbidden (basename_from-id [] name (all-weaken name safe.clean))
        ∙ replace_forbidden-id name safe.clean)
      ∙ trim_end-id is_trailing name safe.untrailed)
    ∙ settle-id name safe
