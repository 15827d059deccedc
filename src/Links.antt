-- ===== src/Links.antt =====
-- crates/client/src/app.rs: room codes and share links.
pub mod Codes
mod Examples
use file_send.Prelude.{
  leb, ◌==◌, if◌then◌else◌, ◌>>=◌, is_empty, Text, text, nat_key, text_key, ℕ, Bool, ◌&&◌, ◌||◌,
  Option, none, some, [], ◌∷◌, ◌++◌,
}
use file_send.Filetype.{to_ascii_lowercase}

-- '/' and '#'.
abbrev pub slash : ℕ
slash = 47

abbrev pub hash_sign : ℕ
hash_sign = 35

-- `char::is_whitespace`: Unicode's White_Space.
unfoldable pub is_whitespace : ℕ → Bool
is_whitespace c =
    (leb 9 c && leb c 13)
    || c == 32
    || c == 133
    || c == 160
    || c == 5760
    || (leb 8192 c && leb c 8202)
    || c == 8232
    || c == 8233
    || c == 8239
    || c == 8287
    || c == 12288

-- `trim_start_matches` and `trim_end_matches`.
unfoldable pub trim_start : (ℕ → Bool) → Text → Text
trim_start p [] = []
trim_start p (c ∷ cs) = let rest = trim_start p cs in if p c then rest else c ∷ cs

unfoldable pub trim_end : (ℕ → Bool) → Text → Text
trim_end p [] = []
trim_end p (c ∷ cs) = let rest = trim_end p cs in if is_empty rest && p c then [] else c ∷ rest

unfoldable pub trim_matches : (ℕ → Bool) → Text → Text
trim_matches p s = trim_end p (trim_start p s)

unfoldable pub trim : Text → Text
trim s = trim_matches is_whitespace s

unfoldable pub strip_prefix : Text → Text → Option Text
strip_prefix [] s = some s
strip_prefix (p ∷ ps) [] = none
strip_prefix (p ∷ ps) (c ∷ cs) = let rest = strip_prefix ps cs in if p == c then rest else none

-- What follows the last place at which `rfind` finds a text.
unfoldable pub after_last : Text → Text → Option Text
after_last pat [] = none
after_last pat (c ∷ cs) = elim (after_last pat cs) [
  | some rest ↦ some rest
  | none ↦ strip_prefix pat (c ∷ cs)
]

abbrev pub is_slash : ℕ → Bool
is_slash c = c == slash

unfoldable pub normalize_code : Text → Text
normalize_code raw =
    let s = trim raw in
    let code : Text = elim (after_last (text "room/") s) [
      | some rest ↦ trim (trim_matches is_slash rest)
      | none ↦ s
    ] in
    to_ascii_lowercase code

unfoldable pub resolve_origin : Option Text → Text → Text
resolve_origin none runtime = runtime
resolve_origin (some o) runtime = if is_empty (trim o) then runtime else trim_end is_slash (trim o)

-- The hash is what the browser reads from the location.
unfoldable pub room_from_hash : Text → Option Text
room_from_hash hash = do
  rest ← strip_prefix (text "room/") (trim_start is_slash (trim_start (λ c. c == hash_sign) hash))
  if is_empty rest then none else some rest

-- What `PersistRoom` shows and what it sets as the hash.
unfoldable pub share_link : Text → Text → Text
share_link origin room = origin ++ (text "/#/room/" ++ room)

unfoldable pub hash_of : Text → Text
hash_of room = text "/room/" ++ room
