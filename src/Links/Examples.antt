-- ===== src/Links/Examples.antt =====
-- Codes and links of app.rs.
use file_send.Prelude.{text, nat_key, text_key, ◌≡◌, refl, some}
use file_send.Filetype.{ascii_lower, to_ascii_lowercase}
use file_send.Links.{
  is_whitespace, trim_start, trim_end, trim_matches, trim, strip_prefix, after_last, normalize_code,
  resolve_origin,
}

-- The tests of the file.
pasted : normalize_code (text "http://localhost:3000/#/room/K7M4QP/") ≡ text "k7m4qp"
unfolding normalize_code trim trim_matches trim_start trim_end is_whitespace after_last strip_prefix
    to_ascii_lowercase ascii_lower
pasted = refl

override_blank : resolve_origin (some (text "   ")) (text "http://a") ≡ text "http://a"
unfolding resolve_origin trim trim_matches trim_start trim_end is_whitespace
override_blank = refl
