-- ===== src/Inbox.antt =====
-- rust/crates/inkhole-core/src/inbox.rs: the directory that a file or a folder is received into.
pub mod Roots
use ink_hole.Base.{
  if◌then◌else◌, nat_eq_instance, any, contains, int_eq_instance, option_eq_instance, Text, codes,
  rsplit_once, text_eq_instance, Bool, not, Option, none, some, List, [], ◌∷◌, ◌++◌,
  to_ascii_lowercase,
}
use ink_hole.Protocol.Manifest.{TransferKind, file, folder_v1}

-- A path is a text here; `PathBuf` compares by components.
pub record InboxCategoryRoots : Type 0 where
  pub media : Option Text
  pub archive : Option Text
  pub file_root : Option Text
  pub folder : Option Text

pub data FileCategory : Type 0 where
  media archive plain_file : FileCategory

abbrev media_extensions : List Text
media_extensions =
    codes "jpg"
    ∷ codes "jpeg"
    ∷ codes "png"
    ∷ codes "gif"
    ∷ codes "webp"
    ∷ codes "bmp"
    ∷ codes "tif"
    ∷ codes "tiff"
    ∷ codes "heic"
    ∷ codes "heif"
    ∷ codes "svg"
    ∷ codes "mp4"
    ∷ codes "mov"
    ∷ codes "m4v"
    ∷ codes "mkv"
    ∷ codes "avi"
    ∷ codes "webm"
    ∷ codes "wmv"
    ∷ codes "flv"
    ∷ codes "mpeg"
    ∷ codes "mpg"
    ∷ codes "3gp"
    ∷ codes "m2ts"
    ∷ codes "mts"
    ∷ []

abbrev archive_extensions : List Text
archive_extensions =
    codes "zip"
    ∷ codes "rar"
    ∷ codes "7z"
    ∷ codes "tar"
    ∷ codes "gz"
    ∷ codes "bz2"
    ∷ codes "xz"
    ∷ codes "tgz"
    ∷ codes "tbz"
    ∷ codes "tbz2"
    ∷ codes "txz"
    ∷ codes "zst"
    ∷ codes "lz"
    ∷ codes "lz4"
    ∷ codes "cab"
    ∷ codes "iso"
    ∷ codes "dmg"
    ∷ []

-- `Path::extension` of a file name, or nothing as an empty text.
unfoldable pub extension_of : Text → Text
extension_of filename = elim (rsplit_once b'.' filename) [
  | none ↦ []
  | some ([], extension) ↦ []
  | some (c ∷ stem, extension) ↦ extension
]

unfoldable pub file_category : Text → FileCategory
unfolding extension_of
file_category filename =
    let extension = to_ascii_lowercase (extension_of filename) in
    if contains media_extensions extension
    then media
    else if contains archive_extensions extension
    then archive
    else plain_file

abbrev configured_for : InboxCategoryRoots → FileCategory → Option Text
configured_for roots media = roots.media
configured_for roots archive = roots.archive
configured_for roots plain_file = roots.file_root

abbrev unwrap_or : Option Text → Text → Text
unwrap_or none primary = primary
unwrap_or (some root) primary = root

unfoldable pub root_for : InboxCategoryRoots → Text → TransferKind → Text → Text
root_for roots primary folder_v1 filename = unwrap_or roots.folder primary
root_for roots primary file filename =
    unwrap_or (configured_for roots (file_category filename)) primary

-- `same_path` differs between platforms.
module _ (same_path : Text → Text → Bool) where
  -- One turn of the loop.
  unfoldable pub add_root : List Text → Option Text → List Text
  add_root roots none = roots
  add_root roots (some root) =
      if not (any (λ existing. same_path existing root) roots) then roots ++ root ∷ [] else roots

  unfoldable pub all_roots : InboxCategoryRoots → Text → List Text
  unfolding add_root
  all_roots roots primary =
      add_root
        (add_root (add_root (add_root (primary ∷ []) roots.media) roots.archive) roots.file_root)
        roots.folder
