-- ===== src/Filetype.antt =====
-- crates/client/src/filetype.rs: the badge of a transfer row.
pub mod Suffix
mod Examples
use file_send.Prelude.{
  leb, ◌==◌, if◌then◌else◌, contains, Text, text, nat_key, text_key, ℕ, ◌+◌, ite, Bool, true, false,
  ◌&&◌, Option, none, some, List, [], ◌∷◌, map,
}

-- '.'.
abbrev pub dot : ℕ
dot = 46

-- `s.rsplit(sep).next()`: what follows the last separator, all of `s` where there is none.
unfoldable pub last_part : ℕ → Text → Text
last_part sep [] = []
last_part sep (c ∷ cs) =
    let rest = last_part sep cs in
    if contains cs sep then rest else (if c == sep then cs else c ∷ cs)

unfoldable pub ascii_lower : ℕ → ℕ
ascii_lower c = if leb 65 c && leb c 90 then c + 32 else c

-- `str::to_ascii_lowercase`.
unfoldable pub to_ascii_lowercase : Text → Text
to_ascii_lowercase s = map ascii_lower s

unfoldable pub starts_with : Text → Text → Bool
starts_with s [] = true
starts_with [] (p ∷ ps) = false
starts_with (c ∷ cs) (p ∷ ps) = c == p && starts_with cs ps

-- The alternatives of a pattern of `match`.
unfoldable pub one_of : Text → List Text → Bool
one_of s [] = false
one_of s (t ∷ ts) = ite (text_key.same s t) true (one_of s ts)

unfoldable pub mime_kind : Text → Text
mime_kind mime =
    if starts_with mime (text "image/")
    then text "IMG"
    else (if starts_with mime (text "video/")
        then text "VID"
        else (if starts_with mime (text "audio/") then text "AUD" else text "FILE"))

-- The `match` on the extension.
unfoldable pub ext_kind : Text → Option Text
ext_kind ext =
    if one_of ext (text "pdf" ∷ [])
    then some (text "PDF")
    else (if one_of ext (
          text "png"
          ∷ text "jpg"
          ∷ text "jpeg"
          ∷ text "gif"
          ∷ text "webp"
          ∷ text "svg"
          ∷ text "bmp"
          ∷ text "heic"
          ∷ [])
        then some (text "IMG")
        else (if one_of ext (text "mp4" ∷ text "mov" ∷ text "mkv" ∷ text "webm" ∷ text "avi" ∷ [])
            then some (text "VID")
            else (if one_of ext
                  (text "mp3" ∷ text "wav" ∷ text "flac" ∷ text "ogg" ∷ text "m4a" ∷ [])
                then some (text "AUD")
                else (if one_of ext
                      (text "zip" ∷ text "tar" ∷ text "gz" ∷ text "rar" ∷ text "7z" ∷ [])
                    then some (text "ZIP")
                    else (if one_of ext (
                          text "doc"
                          ∷ text "docx"
                          ∷ text "txt"
                          ∷ text "md"
                          ∷ text "rtf"
                          ∷ text "pages"
                          ∷ [])
                        then some (text "DOC")
                        else none)))))

unfoldable pub file_kind : Text → Text → Text
file_kind name mime = elim (ext_kind (to_ascii_lowercase (last_part dot name))) [
  | some kind ↦ kind
  | none ↦ mime_kind mime
]
