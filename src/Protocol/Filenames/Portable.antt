-- ===== src/Protocol/Filenames/Portable.antt =====
-- What the names that `safe_filename` of protocol.rs gives are like, told without its tests.
use ink_hole.Base.{
  leb, nat_eq, Bool-cases, nat_eq_instance, all, contains, int_eq_instance, option_eq_instance,
  Text, codes, has, ends_with, text_eq, text_eq_instance, ℕ, ◌≡◌, refl, sym, ◌∙◌, ◌≢◌, inl, inr,
  Bool, true, false, not, ◌&&◌, ◌||◌, List, [], ◌∷◌, arith, all-contains,
}
use ink_hole.Protocol.Names.{
  is_forbidden, is_special, is_separator, to_ascii_uppercase, reserved_stem, head_piece,
  reserved-head_piece,
}
use ink_hole.Protocol.Filenames.{safe_filename, safe_filename-IsSafeName}

-- The names of devices of Windows.
abbrev pub device_names : List Text
device_names =
    codes "CON"
    ∷ codes "PRN"
    ∷ codes "AUX"
    ∷ codes "NUL"
    ∷ codes "COM1"
    ∷ codes "COM2"
    ∷ codes "COM3"
    ∷ codes "COM4"
    ∷ codes "COM5"
    ∷ codes "COM6"
    ∷ codes "COM7"
    ∷ codes "COM8"
    ∷ codes "COM9"
    ∷ codes "LPT1"
    ∷ codes "LPT2"
    ∷ codes "LPT3"
    ∷ codes "LPT4"
    ∷ codes "LPT5"
    ∷ codes "LPT6"
    ∷ codes "LPT7"
    ∷ codes "LPT8"
    ∷ codes "LPT9"
    ∷ []

abbrev pub is_plain : ℕ → Bool
is_plain c = leb 0x20 c && not (has c (codes "<>:\"/\\|?*"))

pub record IsPortable (name : Text) : Type 0 where
  pub nonempty : name ≢ []
  pub plain : all is_plain name ≡ true
  pub untrailed : ends_with (λ c. nat_eq c b'.' || nat_eq c b' ') name ≡ false
  pub no_device : contains device_names (to_ascii_uppercase (head_piece name)) ≡ false

char-plain : (c : ℕ) → not (is_forbidden c || is_separator c) ≡ true → is_plain c ≡ true
unfolding is_forbidden is_special
char-plain c h = ground arith

all-plain :
    (name : Text)
    → all (λ c. not (is_forbidden c || is_separator c)) name ≡ true
    → all is_plain name ≡ true
all-plain [] h = refl
all-plain (c ∷ s) h = ground (arith, char-plain c, all-plain s)

devices-reserved : all reserved_stem device_names ≡ true
unfolding reserved_stem text_eq
devices-reserved = refl

unreserved-device : (stem : Text) → reserved_stem stem ≡ false → contains device_names stem ≡ false
unreserved-device stem free = elim (Bool-cases (contains device_names stem)) [
  | inl device ↦ cc (devices-reserved, all-contains reserved_stem device_names stem device free)
  | inr other ↦ other
]

-- Whatever a peer sends as a file name, the name that is used is not empty, has no character below
-- U+0020 and none of `<`, `>`, `:`, `"`, `/`, `\`, `|`, `?` and `*`, does not end in a dot or a space,
-- and what stands before its first dot, in ASCII upper case, is not CON, PRN, AUX, NUL, COM1 to COM9 or
-- LPT1 to LPT9.
pub safe_filename-IsPortable : (raw : Text) → IsPortable (safe_filename raw)
safe_filename-IsPortable raw =
    let name = safe_filename raw in
    let safe = safe_filename-IsSafeName raw in
    record {
      nonempty = safe.nonempty;
      plain = all-plain name safe.clean;
      untrailed = safe.untrailed;
      no_device =
          unreserved-device (to_ascii_uppercase (head_piece name))
            (sym (reserved-head_piece name) ∙ safe.unreserved);
    }
