-- ===== src/Tests/Names.antt =====
-- Runs of the rules on names and paths of protocol.rs and state.rs.
use ink_hole.Base.{
  nat_eq_instance, length, all, int_eq_instance, option_eq_instance, Text, codes, len, starts_with,
  ends_with, split, text_eq, text_eq_instance, ◌≡◌, refl, ◌↔◌, true, [], ◌∷◌, ◌++◌,
}
use ink_hole.Errors.{err}
use ink_hole.Protocol.Hex.{valid_blake3, is_hex, valid_blake3_iff}
use ink_hole.Protocol.Names.{IsSafeName, is_forbidden, windows_reserved_name}
use ink_hole.Protocol.Filenames.{safe_filename}
use ink_hole.Protocol.Filenames.Portable.{IsPortable, safe_filename-IsPortable}
use ink_hole.Protocol.Paths.{
  Directory, invalid_path, folder_entry_path, resolve, push_all, folder_entry_path_contained,
  validate_folder_relative_path,
}

valid_blake3_iff_example :
    (valid_blake3 (codes "ab") ≡ true)
    ↔ ((length (codes "ab") ≡ 64) × (all is_hex (codes "ab") ≡ true))
valid_blake3_iff_example = valid_blake3_iff (codes "ab")

safe_filename-IsPortable_example : IsPortable (safe_filename (codes "../../etc/nul. "))
safe_filename-IsPortable_example = safe_filename-IsPortable (codes "../../etc/nul. ")

-- A path, a reserved name and a trailing dot.
reserved_filename : safe_filename (codes "C:\\tmp\\nul. ") ≡ codes "_nul"
unfolding safe_filename text_eq is_forbidden windows_reserved_name split
reserved_filename = refl

abbrev report : Text
report = codes "report.txt"

report-IsSafeName : IsSafeName report
unfolding is_forbidden ends_with windows_reserved_name split text_eq
report-IsSafeName = record { nonempty = λ e. cc; clean = refl; untrailed = refl; unreserved = refl }

abbrev inbox : Directory
inbox = codes "home" ∷ codes "inbox" ∷ []

abbrev photo : Text
photo = codes "album/one.jpg"

folder_entry_path_contained_example :
    ((inbox ++ codes "album" ∷ codes "one.jpg" ∷ []) ≡ inbox ++ split b'/' photo)
    × (resolve inbox (split b'/' photo) ≡ inbox ++ codes "album" ∷ codes "one.jpg" ∷ [])
unfolding folder_entry_path validate_folder_relative_path text_eq len starts_with ends_with split
    is_forbidden windows_reserved_name push_all
folder_entry_path_contained_example = folder_entry_path_contained inbox photo _ refl

climbing_is_refused : folder_entry_path inbox (codes "album/../../keys") ≡ err invalid_path
unfolding folder_entry_path validate_folder_relative_path text_eq len starts_with ends_with split
    is_forbidden windows_reserved_name
climbing_is_refused = refl
