-- ===== src/Links/Codes.antt =====
-- A room's link and its hash lead back to the room: the text functions of app.rs.
use file_send.Prelude.{
  Bool-cases, is_empty, All, contains, Text, text, nat_key, text_key, ℕ, ◌≡◌, refl, ap, ◌∙◌, inl,
  inr, Bool, true, false, none, some, [], ◌∷◌, ◌++◌, arith,
}
use file_send.Filetype.{ascii_lower, to_ascii_lowercase}
use file_send.Links.{
  slash, hash_sign, is_whitespace, trim_start, trim_end, trim_matches, trim, strip_prefix,
  after_last, is_slash, normalize_code, room_from_hash, share_link, hash_of,
}

-- A code as the server makes it: no blank, no slash, no capital.
abbrev pub IsPlain : Text → Type 0
IsPlain s = All (λ c. (is_whitespace c ≡ false) × (is_slash c ≡ false) × (ascii_lower c ≡ c)) s

-- After `PersistRoom` the page finds the room in its hash.
pub room_from_hash-hash_of :
    (c : ℕ) (room : Text) → room_from_hash (hash_sign ∷ hash_of (c ∷ room)) ≡ some (c ∷ room)
unfolding room_from_hash hash_of trim_start strip_prefix
room_from_hash-hash_of c room = refl

trim_end-none : (p : ℕ → Bool) (s : Text) → All (λ c. p c ≡ false) s → trim_end p s ≡ s
unfolding trim_end
trim_end-none p [] h = refl
trim_end-none p (c ∷ cs) h = ground (arith, trim_end-none p cs h.1, h.0)

trim_start-none : (p : ℕ → Bool) (s : Text) → All (λ c. p c ≡ false) s → trim_start p s ≡ s
unfolding trim_start
trim_start-none p [] h = refl
trim_start-none p (c ∷ cs) h = rw (h.0) refl

is_empty-append : (xs : Text) (y : ℕ) (ys : Text) → is_empty (xs ++ y ∷ ys) ≡ false
is_empty-append [] y ys = refl
is_empty-append (x ∷ xs) y ys = refl

trim_end-append :
    (p : ℕ → Bool) (xs : Text) (y : ℕ) (ys : Text)
    → trim_end p (y ∷ ys) ≡ y ∷ ys
    → trim_end p (xs ++ y ∷ ys) ≡ xs ++ y ∷ ys
unfolding trim_end
trim_end-append p [] y ys h = h
trim_end-append p (x ∷ xs) y ys h = rw (trim_end-append p xs y ys h, is_empty-append xs y ys) refl

trim_start-append :
    (p : ℕ → Bool) (xs : Text) (y : ℕ) (ys : Text)
    → p y ≡ false
    → trim_start p (xs ++ y ∷ ys) ≡ trim_start p xs ++ y ∷ ys
unfolding trim_start
trim_start-append p [] y ys h = rw (h) refl
trim_start-append p (x ∷ xs) y ys h = elim (Bool-cases (p x)) [
  | inl e ↦ rw (e) (trim_start-append p xs y ys h)
  | inr e ↦ rw (e) refl
]

after_last-append :
    (pat xs ys rest : Text) → after_last pat ys ≡ some rest → after_last pat (xs ++ ys) ≡ some rest
unfolding after_last
after_last-append pat [] ys rest h = h
after_last-append pat (x ∷ xs) ys rest h = rw (after_last-append pat xs ys rest h) refl

-- No slash, no prefix that has one.
no_prefix :
    (pat s : Text)
    → contains pat slash ≡ true
    → All (λ c. is_slash c ≡ false) s
    → strip_prefix pat s ≡ none
unfolding strip_prefix contains
no_prefix [] s has h = ground arith
no_prefix (p ∷ ps) [] has h = refl
no_prefix (p ∷ ps) (c ∷ cs) has h = ground (arith, no_prefix ps cs, h.0, h.1)

room_slash : contains (text "room/") slash ≡ true
unfolding contains
room_slash = refl

no_room : (s : Text) → All (λ c. is_slash c ≡ false) s → after_last (text "room/") s ≡ none
unfolding after_last
no_room [] h = refl
no_room (c ∷ cs) h = rw (no_room cs h.1) (no_prefix (text "room/") (c ∷ cs) room_slash h)

link_code :
    (room : Text)
    → All (λ c. is_slash c ≡ false) room
    → after_last (text "room/") (text "/#/room/" ++ room) ≡ some room
unfolding after_last strip_prefix
link_code room h = rw (no_room room h) refl

plain_slash : (s : Text) → IsPlain s → All (λ c. is_slash c ≡ false) s
plain_slash [] h = tt
plain_slash (c ∷ cs) h = (h.0.1, plain_slash cs h.1)

plain_blank : (s : Text) → IsPlain s → All (λ c. is_whitespace c ≡ false) s
plain_blank [] h = tt
plain_blank (c ∷ cs) h = (h.0.0, plain_blank cs h.1)

plain_lower : (s : Text) → IsPlain s → to_ascii_lowercase s ≡ s
unfolding to_ascii_lowercase
plain_lower [] h = refl
plain_lower (c ∷ cs) h = cc (h.0.2, plain_lower cs h.1)

trim_matches-none : (p : ℕ → Bool) (s : Text) → All (λ c. p c ≡ false) s → trim_matches p s ≡ s
unfolding trim_matches
trim_matches-none p s h = ap (trim_end p) (trim_start-none p s h) ∙ trim_end-none p s h

slash_blank : is_whitespace slash ≡ false
unfolding is_whitespace
slash_blank = refl

trim-plain : (s : Text) → IsPlain s → trim s ≡ s
unfolding trim
trim-plain s plain = trim_matches-none is_whitespace s (plain_blank s plain)

-- The link trimmed: only its origin can lose blanks, at the front.
trim-link :
    (origin : Text) (c : ℕ) (room : Text)
    → IsPlain (c ∷ room)
    → trim (share_link origin (c ∷ room))
      ≡ trim_start is_whitespace origin ++ (text "/#/room/" ++ c ∷ room)
unfolding trim trim_matches share_link
trim-link origin c room plain =
    let tail = text "#/room/" ++ c ∷ room in
    ap (trim_end is_whitespace) (trim_start-append is_whitespace origin slash tail slash_blank)
    ∙ trim_end-append is_whitespace (trim_start is_whitespace origin) slash tail (
        trim_end-append is_whitespace (text "/#/room/") c room
          (trim_end-none is_whitespace (c ∷ room) (plain_blank (c ∷ room) plain)))

-- The share link of a room, pasted into the join box, gives the room's code, and so does the code
-- itself, for a code without blanks, slashes or capitals, whatever the origin; and the hash that
-- the page sets for the room leads a reload to it.
pub normalize_code-share_link :
    (origin : Text) (c : ℕ) (room : Text)
    → IsPlain (c ∷ room)
    → (normalize_code (share_link origin (c ∷ room)) ≡ c ∷ room)
      × (normalize_code (c ∷ room) ≡ c ∷ room)
      × (room_from_hash (hash_sign ∷ hash_of (c ∷ room)) ≡ some (c ∷ room))
unfolding normalize_code
normalize_code-share_link origin c room plain =
    let slashes = plain_slash (c ∷ room) plain in
    let found =
      after_last-append (text "room/") (trim_start is_whitespace origin)
        (text "/#/room/" ++ c ∷ room) (c ∷ room) (link_code (c ∷ room) slashes) in
    let bare = trim-plain (c ∷ room) plain in
    let lower = plain_lower (c ∷ room) plain in
    (
      rw (trim-link origin c room plain, found, trim_matches-none is_slash (c ∷ room) slashes, bare)
          lower,
      rw (bare, no_room (c ∷ room) slashes, bare) lower,
      room_from_hash-hash_of c room,
    )
