-- ===== src/Protocol/Paths/Components.antt =====
-- The components of an accepted folder path are safe file names.
use ink_hole.Base.{
  nat_eq, nat_eq_instance, all, any, All, int_eq_instance, option_eq_instance, Text, push_first,
  split, text_eq_iff, text_eq_instance, ℕ, ◌≡◌, refl, Bool, true, false, not, ◌&&◌, ◌||◌, List, [],
  ◌∷◌, arith, if_elim,
}
use ink_hole.Errors.{ok}
use ink_hole.Protocol.Names.{is_forbidden, is_separator, IsSafeName}
use ink_hole.Protocol.Paths.{validate_folder_relative_path, unsafe_path, unsafe_component, accepted}

-- The pieces of a split have neither the separator nor a character that the text has not.
push_first-any :
    (p : ℕ → Bool) (c : ℕ) (ws : List Text)
    → p c ≡ false
    → all (λ w. not (any p w)) ws ≡ true
    → all (λ w. not (any p w)) (push_first c ws) ≡ true
push_first-any p c [] h k = ground arith
push_first-any p c (w ∷ ws) h k = ground arith

split-any :
    (d : ℕ) (p : ℕ → Bool) (s : Text)
    → any (λ c. p c && not (nat_eq c d)) s ≡ false
    → all (λ w. not (any p w)) (split d s) ≡ true
unfolding split
split-any d p [] h = refl
split-any d p (c ∷ s) h =
    if_elim (λ ws. all (λ w. not (any p w)) ws ≡ true) (nat_eq c d)
      (λ _. split-any d p s (ground arith))
      (λ e. push_first-any p c (split d s) (ground arith) (split-any d p s (ground arith)))

no_separators :
    (s : Text)
    → any (λ c. nat_eq c 0x5c || nat_eq c 0) s ≡ false
    → any (λ c. is_separator c && not (nat_eq c b'/')) s ≡ false
no_separators [] h = refl
no_separators (c ∷ s) h = ground (arith, no_separators s)

clean_component :
    (s : Text)
    → any is_separator s ≡ false
    → any is_forbidden s ≡ false
    → all (λ c. not (is_forbidden c || is_separator c)) s ≡ true
clean_component [] h k = refl
clean_component (c ∷ s) h k = ground (arith, clean_component s)

component-IsSafeName :
    (c : Text) → any is_separator c ≡ false → unsafe_component c ≡ false → IsSafeName c
unfolding unsafe_component
component-IsSafeName c h k = record {
  nonempty = λ e. absurd (ground (arith, text_eq_iff c []));
  clean = clean_component c h (ground arith);
  untrailed = ground arith;
  unreserved = ground arith;
}

components-All :
    (cs : List Text)
    → all (λ w. not (any is_separator w)) cs ≡ true
    → all (λ c. not (unsafe_component c)) cs ≡ true
    → All IsSafeName cs
components-All [] h k = tt
components-All (c ∷ cs) h k = (
  component-IsSafeName c (ground arith) (ground arith),
  components-All cs (ground arith) (ground arith),
)

-- Every component of an accepted folder path is a safe file name.
pub components-IsSafeName :
    (path : Text) → validate_folder_relative_path path ≡ ok tt → All IsSafeName (split b'/' path)
unfolding unsafe_path
components-IsSafeName path h =
    let (whole, parts) = accepted path h in
    components-All (split b'/' path)
      (split-any b'/' is_separator path (no_separators path (ground arith))) parts
