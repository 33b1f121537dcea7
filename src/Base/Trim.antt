-- ===== src/Base/Trim.antt =====
-- What `str` cuts from the ends of a text.
use Prim.Native.Nat.{ℕ}
use mathlib.Core.Path.{◌≡◌, refl, ap, ◌∙◌}
use mathlib.Core.Bool.{Bool, true, false, not, ◌||◌, ◌&&◌}
use mathlib.Core.List.{[], ◌∷◌}
use native.Mathlib.Omega.{arith}
use ink_hole.Base.Tests.{leb, nat_eq, if◌then◌else◌}
use ink_hole.Base.Lists.{all}
use ink_hole.Base.Texts.{Text, ends_with}

-- A character in front of a text that is trimmed already.
unfoldable pub trim_step : (ℕ → Bool) → ℕ → Text → Text
trim_step p c [] = if p c then [] else c ∷ []
trim_step p c (d ∷ t) = c ∷ d ∷ t

-- `trim_end_matches(p)`.
unfoldable pub trim_end : (ℕ → Bool) → Text → Text
unfolding trim_step
trim_end p [] = []
trim_end p (c ∷ s) = trim_step p c (trim_end p s)

trim_step-all :
    (p q : ℕ → Bool) (c : ℕ) (t : Text)
    → q c ≡ true
    → all q t ≡ true
    → all q (trim_step p c t) ≡ true
unfolding trim_step
trim_step-all p q c [] h k = ground arith
trim_step-all p q c (d ∷ t) h k = ground arith

pub trim_end-all : (p q : ℕ → Bool) (s : Text) → all q s ≡ true → all q (trim_end p s) ≡ true
unfolding trim_end
trim_end-all p q [] h = refl
trim_end-all p q (c ∷ s) h =
    trim_step-all p q c (trim_end p s) (ground arith) (trim_end-all p q s (ground arith))

trim_step-untrailed :
    (p : ℕ → Bool) (c : ℕ) (t : Text)
    → ends_with p t ≡ false
    → ends_with p (trim_step p c t) ≡ false
unfolding trim_step ends_with
trim_step-untrailed p c [] h = ground arith
trim_step-untrailed p c (d ∷ t) h = h

pub trim_end-untrailed : (p : ℕ → Bool) (s : Text) → ends_with p (trim_end p s) ≡ false
unfolding trim_end ends_with
trim_end-untrailed p [] = refl
trim_end-untrailed p (c ∷ s) = trim_step-untrailed p c (trim_end p s) (trim_end-untrailed p s)

pub trim_end-id : (p : ℕ → Bool) (s : Text) → ends_with p s ≡ false → trim_end p s ≡ s
unfolding trim_end ends_with
trim_end-id p [] h = refl
trim_end-id p (c ∷ []) h = ground arith
trim_end-id p (c ∷ d ∷ s) h = rw (trim_end-id p (d ∷ s) h, trim_end)

-- `char::is_whitespace`.
unfoldable pub is_whitespace : ℕ → Bool
is_whitespace c =
    (leb 0x9 c && leb c 0xd)
    || nat_eq c 0x20
    || nat_eq c 0x85
    || nat_eq c 0xa0
    || nat_eq c 0x1680
    || (leb 0x2000 c && leb c 0x200a)
    || nat_eq c 0x2028
    || nat_eq c 0x2029
    || nat_eq c 0x202f
    || nat_eq c 0x205f
    || nat_eq c 0x3000

unfoldable pub trim_start : (ℕ → Bool) → Text → Text
trim_start p [] = []
trim_start p (c ∷ s) = let rest = trim_start p s in if p c then rest else c ∷ s

-- `str::trim`.
unfoldable pub trim : Text → Text
trim s = trim_end is_whitespace (trim_start is_whitespace s)

-- That the first character, if there is one, does not pass a test.
abbrev leads_not : (ℕ → Bool) → Text → Bool
leads_not p [] = true
leads_not p (c ∷ s) = not (p c)

leads_not-trim_start : (p : ℕ → Bool) (s : Text) → leads_not p (trim_start p s) ≡ true
unfolding trim_start
leads_not-trim_start p [] = refl
leads_not-trim_start p (c ∷ s) = ground (arith, leads_not-trim_start p s)

leads_not-trim_step :
    (p : ℕ → Bool) (c : ℕ) (t : Text) → not (p c) ≡ true → leads_not p (trim_step p c t) ≡ true
unfolding trim_step
leads_not-trim_step p c [] h = ground arith
leads_not-trim_step p c (d ∷ t) h = h

leads_not-trim_end :
    (p : ℕ → Bool) (s : Text) → leads_not p s ≡ true → leads_not p (trim_end p s) ≡ true
unfolding trim_end
leads_not-trim_end p [] h = refl
leads_not-trim_end p (c ∷ s) h = leads_not-trim_step p c (trim_end p s) h

trim_start_id : (p : ℕ → Bool) (s : Text) → leads_not p s ≡ true → trim_start p s ≡ s
unfolding trim_start
trim_start_id p [] h = refl
trim_start_id p (c ∷ s) h = ground arith

-- A trimmed text is trimmed.
pub trim-trim : (s : Text) → trim (trim s) ≡ trim s
unfolding trim
trim-trim s =
    let cut = trim_start is_whitespace s in
    ap (trim_end is_whitespace) (
      trim_start_id is_whitespace (trim_end is_whitespace cut)
        (leads_not-trim_end is_whitespace cut (leads_not-trim_start is_whitespace s)))
    ∙ trim_end-id is_whitespace (trim_end is_whitespace cut) (trim_end-untrailed is_whitespace cut)
