-- ===== src/Filetype/Suffix.antt =====
-- What a badge of filetype.rs depends on.
use file_send.Prelude.{
  ◌==◌, contains, contains-append, Text, nat_key, text_key, ℕ, ◌≡◌, refl, sym, ap, ◌∙◌, ◌≡⟨◌⟩◌, ◌∎,
  false, none, some, [], ◌∷◌, ◌++◌, arith,
}
use file_send.Filetype.{
  dot, last_part, ascii_lower, to_ascii_lowercase, mime_kind, ext_kind, file_kind,
}

last_part-none : (sep : ℕ) (ext : Text) → contains ext sep ≡ false → last_part sep ext ≡ ext
unfolding last_part contains
last_part-none sep [] h = refl
last_part-none sep (c ∷ cs) h = ground arith

last_part-append :
    (sep : ℕ) (stem ext : Text) → contains ext sep ≡ false → last_part sep (stem ++ sep ∷ ext) ≡ ext
unfolding last_part contains
last_part-append sep [] ext h = ground arith
last_part-append sep (c ∷ cs) ext h =
    ground (arith, last_part-append sep cs ext h, contains-append cs (sep ∷ ext) sep)

ascii_lower-twice : (c : ℕ) → ascii_lower (ascii_lower c) ≡ ascii_lower c
unfolding ascii_lower
ascii_lower-twice c = ground arith

lower-twice : (s : Text) → to_ascii_lowercase (to_ascii_lowercase s) ≡ to_ascii_lowercase s
unfolding to_ascii_lowercase
lower-twice [] = refl
lower-twice (c ∷ cs) = cc (ascii_lower-twice c, lower-twice cs)

ascii_lower-dot : (c : ℕ) → (ascii_lower c == dot) ≡ (c == dot)
unfolding ascii_lower
ascii_lower-dot c = ground arith

contains-lower : (s : Text) → contains (to_ascii_lowercase s) dot ≡ contains s dot
unfolding to_ascii_lowercase contains
contains-lower [] = refl
contains-lower (c ∷ cs) = ground (arith, contains-lower cs, ascii_lower-dot c)

-- For an extension without a dot: the badge of `stem.ext` with the extension in lower case is that
-- of the bare extension as it was written, whatever the stem and the mime type.
pub file_kind_suffix :
    (stem ext mime : Text)
    → contains ext dot ≡ false
    → file_kind (stem ++ dot ∷ to_ascii_lowercase ext) mime ≡ file_kind ext mime
unfolding file_kind
file_kind_suffix stem ext mime h = ap kind (
    to_ascii_lowercase (last_part dot (stem ++ dot ∷ to_ascii_lowercase ext))
    ≡⟨ ap to_ascii_lowercase (last_part-append dot stem _ (contains-lower ext ∙ h)) ⟩
      to_ascii_lowercase (to_ascii_lowercase ext)
    ≡⟨ lower-twice ext ∙ ap to_ascii_lowercase (sym (last_part-none dot ext h)) ⟩
      to_ascii_lowercase (last_part dot ext) ∎)
  where
    kind : Text → Text
    kind e = elim (ext_kind e) [ some k ↦ k | none ↦ mime_kind mime ]
