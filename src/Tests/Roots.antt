-- ===== src/Tests/Roots.antt =====
-- Runs of the choice of a root of inbox.rs.
use ink_hole.Base.{
  nat_eq_instance, int_eq_instance, option_eq_instance, codes, rsplit_once, text_eq,
  text_eq_instance, ◌≡◌, refl,
}
use ink_hole.Inbox.{media, file_category, extension_of}

-- The case of an extension does not matter.
photo-category : file_category (codes "PHOTO.JPEG") ≡ media
unfolding file_category extension_of rsplit_once text_eq
photo-category = refl
