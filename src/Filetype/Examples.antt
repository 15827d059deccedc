-- ===== src/Filetype/Examples.antt =====
-- Badges of filetype.rs.
use file_send.Prelude.{contains, text, Text-discrete, nat_key, text_key, ◌≡◌, refl, false, []}
use file_send.Filetype.{
  dot, last_part, ascii_lower, to_ascii_lowercase, starts_with, one_of, mime_kind, ext_kind,
  file_kind,
}

archive : file_kind (text "archive.tar.gz") [] ≡ text "ZIP"
unfolding file_kind last_part to_ascii_lowercase ascii_lower ext_kind one_of Text-discrete contains
archive = refl

unknown : file_kind (text "mystery") (text "video/mp4") ≡ text "VID"
unfolding file_kind last_part to_ascii_lowercase ascii_lower ext_kind one_of mime_kind starts_with
    Text-discrete contains
unknown = refl

no_dot : contains (text "JPG") dot ≡ false
unfolding contains
no_dot = refl
