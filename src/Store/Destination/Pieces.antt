-- ===== src/Store/Destination/Pieces.antt =====
-- The stem and the digits of names, for `unique_destination` of state.rs and the reserved names of
-- protocol.rs.
use ink_hole.Base.{
  ltb, nat_eq, if◌then◌else◌, Bool-cases, Option-cases, nat_eq_instance, all, int_eq_instance,
  option_eq_instance, Text, has, ends_with, rsplit_once, text_eq, text_eq_instance, ℕ, zero, suc,
  ◌+◌, ◌/◌, ◌%◌, ◌<◌, ◌≡◌, refl, ◌∙◌, inl, inr, Bool, true, false, not, ◌||◌, some, [], ◌∷◌, ◌++◌,
  arith, if_elim, all-append,
}
use ink_hole.Protocol.Names.{
  is_forbidden, is_special, is_separator, to_ascii_uppercase, reserved_stem, head_piece,
}
use ink_hole.Store.Destination.{decimal}

abbrev pub clean : ℕ → Bool
clean c = not (is_forbidden c || is_separator c)

pub head_piece-pointed :
    (s t u : Text) → has b'.' s ≡ true → head_piece (s ++ t) ≡ head_piece (s ++ u)
head_piece-pointed [] t u h = cc
head_piece-pointed (c ∷ s) t u h = ground (arith, head_piece-pointed s t u)

pub head_piece-space :
    (s t : Text) → has b'.' s ≡ false → has b' ' (head_piece (s ++ b' ' ∷ t)) ≡ true
head_piece-space [] t h = refl
head_piece-space (c ∷ s) t h = ground (arith, head_piece-space s t)

pub uppercase-space : (s : Text) → has b' ' s ≡ true → has b' ' (to_ascii_uppercase s) ≡ true
uppercase-space [] h = cc
uppercase-space (c ∷ s) h = ground (arith, uppercase-space s)

pub spaced_stem : (s : Text) → has b' ' s ≡ true → reserved_stem s ≡ false
unfolding reserved_stem text_eq
spaced_stem [] h = cc
spaced_stem (a ∷ []) h = ground arith
spaced_stem (a ∷ b ∷ []) h = ground arith
spaced_stem (a ∷ b ∷ c ∷ []) h = ground arith
spaced_stem (a ∷ b ∷ c ∷ d ∷ []) h = ground arith
spaced_stem (a ∷ b ∷ c ∷ d ∷ e ∷ s) h = ground arith

pub digit-clean : (d : ℕ) → d < 10 → clean (b'0' + d) ≡ true
unfolding is_forbidden is_special
digit-clean d h = ground arith

pub decimal-clean : (k n : ℕ) → all clean (decimal k n) ≡ true
unfolding decimal
decimal-clean zero n = refl
decimal-clean (suc k) n =
    let high = if ltb n 10 then [] else decimal k (n / 10) in
    let front : all clean high ≡ true =
      if_elim (λ s. all clean s ≡ true) (ltb n 10) (λ _. refl) (λ _. decimal-clean k (n / 10)) in
    all-append clean high ((b'0' + n % 10) ∷ [])
    ∙ ground (arith, front, digit-clean (n % 10) (omega arith))

pub ends_with-append :
    (p : ℕ → Bool) (s : Text) (c : ℕ) (t : Text) → ends_with p (s ++ c ∷ t) ≡ ends_with p (c ∷ t)
unfolding ends_with
ends_with-append p [] c t = refl
ends_with-append p (d ∷ []) c t = refl
ends_with-append p (d ∷ e ∷ s) c t = ends_with-append p (e ∷ s) c t

pub rsplit_once-append : (d : ℕ) (s a b : Text) → rsplit_once d s ≡ some (a, b) → s ≡ a ++ d ∷ b
unfolding rsplit_once
rsplit_once-append d [] a b h = cc
rsplit_once-append d (c ∷ s) a b h = elim (Option-cases (rsplit_once d s)) [
  | inl missing ↦ elim (Bool-cases (nat_eq c d)) [
    | inl here ↦ ground (arith, missing, here)
    | inr apart ↦ absurd (ground (arith, missing, apart))
  ]
  | inr ((x, y), found) ↦ ground (arith, found, rsplit_once-append d s x y found)
]
