-- ===== src/Protocol/Names.antt =====
-- The tests of protocol.rs on a single file name: on its characters, and on the names that Windows
-- reserves.
use ink_hole.Base.{
  ltb, leb, nat_eq, if◌then◌else◌, Bool-cases, ◌==◌, nat_eq_instance, all, int_eq_instance,
  option_eq_instance, Text, codes, has, ends_with, split, split-ne-nil, text_eq, text_eq_instance,
  ℕ, ◌-◌, ◌≡◌, refl, ap, ◌≢◌, inl, inr, Bool, true, false, not, ◌&&◌, ◌||◌, Option, none, some,
  List, [], ◌∷◌, map, arith,
}

-- What `"<>:\"|?*".contains(character)` accepts.
unfoldable pub is_special : ℕ → Bool
is_special c = has c (codes "<>:\"|?*")

-- `character < '\u{20}'` or special.
unfoldable pub is_forbidden : ℕ → Bool
unfolding is_special
is_forbidden c = ltb c 0x20 || is_special c

abbrev pub is_separator : ℕ → Bool
is_separator c = nat_eq c b'/' || nat_eq c 0x5c

abbrev pub is_trailing : ℕ → Bool
is_trailing c = nat_eq c b'.' || nat_eq c b' '

abbrev pub to_ascii_uppercase : Text → Text
to_ascii_uppercase = map (λ c. if leb b'a' c && leb c b'z' then c - 32 else c)

-- `split('.').next()`.
abbrev pub first_piece : List Text → Text → Text
first_piece [] whole = whole
first_piece (w ∷ ws) whole = w

-- `str::strip_prefix` of a prefix of three characters.
abbrev strip_three : ℕ → ℕ → ℕ → Text → Option Text
strip_three x y z (a ∷ b ∷ c ∷ s) = if nat_eq a x && nat_eq b y && nat_eq c z then some s else none
strip_three x y z _ = none

abbrev or_else {ℓ} : {A : Type ℓ} → Option A → Option A → Option A
or_else none b = b
or_else (some a) b = some a

-- A single digit from 1 to 9.
abbrev is_port_digit : Text → Bool
is_port_digit (d ∷ []) = leb b'1' d && leb d b'9'
is_port_digit _ = false

abbrev is_some_and {ℓ} : {A : Type ℓ} → Option A → (A → Bool) → Bool
is_some_and none p = false
is_some_and (some a) p = p a

unfoldable pub reserved_stem : Text → Bool
reserved_stem uppercase =
    uppercase == codes "CON"
    || uppercase == codes "PRN"
    || uppercase == codes "AUX"
    || uppercase == codes "NUL"
    || is_some_and
        (or_else (strip_three b'C' b'O' b'M' uppercase) (strip_three b'L' b'P' b'T' uppercase))
        is_port_digit

unfoldable pub windows_reserved_name : Text → Bool
unfolding reserved_stem
windows_reserved_name component =
    reserved_stem (to_ascii_uppercase (first_piece (split b'.' component) component))

-- A name that passes every test of `safe_filename`.
pub record IsSafeName (name : Text) : Type 0 where
  pub nonempty : name ≢ []
  pub clean : all (λ c. not (is_forbidden c || is_separator c)) name ≡ true
  pub untrailed : ends_with is_trailing name ≡ false
  pub unreserved : windows_reserved_name name ≡ false

underscore_stem : (w : Text) → reserved_stem (b'_' ∷ w) ≡ false
unfolding reserved_stem text_eq
underscore_stem [] = refl
underscore_stem (a ∷ []) = refl
underscore_stem (a ∷ b ∷ w) = refl

-- No name that begins with an underscore is reserved.
pub underscore_unreserved : (s : Text) → windows_reserved_name (b'_' ∷ s) ≡ false
unfolding windows_reserved_name split
underscore_unreserved s =
    let (w, ws, e) = split-ne-nil b'.' s in rw e (underscore_stem (to_ascii_uppercase w))

-- What stands before the first point.
abbrev pub head_piece : Text → Text
head_piece [] = []
head_piece (c ∷ s) = let rest = head_piece s in if nat_eq c b'.' then [] else c ∷ rest

pub split-head_piece : (s : Text) → (ws : List Text) × (split b'.' s ≡ head_piece s ∷ ws)
unfolding split
split-head_piece [] = ([], refl)
split-head_piece (c ∷ s) =
    let (ws, e) = split-head_piece s in
    elim (Bool-cases (nat_eq c b'.')) [
      | inl point ↦ (split b'.' s, ground (arith, point))
      | inr no_point ↦ (ws, ground (arith, no_point, e))
    ]

pub reserved-head_piece :
    (s : Text) → windows_reserved_name s ≡ reserved_stem (to_ascii_uppercase (head_piece s))
unfolding windows_reserved_name
reserved-head_piece s =
    let (ws, e) = split-head_piece s in
    ap (λ pieces. reserved_stem (to_ascii_uppercase (first_piece pieces s))) e
