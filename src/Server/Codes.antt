-- ===== src/Server/Codes.antt =====
-- crates/server/src/ws.rs: the codes of rooms, and what app.rs makes of their letters.
use file_send.Prelude.{
  All, contains, length, Text, text, nat_key, text_key, ℕ, ◌≡◌, refl, ◌==◌, Bool, Bool-cases, inl,
  inr, not, ◌&&◌, subst, true, false, List, [], ◌∷◌, arith,
}
use file_send.Filetype.{ascii_lower}
use file_send.Links.{is_whitespace, is_slash}
use file_send.Links.Codes.{IsPlain}

abbrev pub room_alphabet : List ℕ
room_alphabet = text "abcdefghjkmnpqrstuvwxyz23456789"

-- `nanoid` draws as many symbols from an alphabet as it is asked for.
unfoldable pub gen_room_id : (ℕ → List ℕ → Text) → Text
gen_room_id nanoid = nanoid 6 room_alphabet

alphabet-size : length room_alphabet ≡ 31
alphabet-size = refl

-- One letter that a code may have, and a test for it.
abbrev IsLetter : ℕ → Type 0
IsLetter c = (is_whitespace c ≡ false) × (is_slash c ≡ false) × (ascii_lower c ≡ c)

abbrev is_plain : Text → Bool
is_plain [] = true
is_plain (c ∷ cs) =
    not (is_whitespace c) && (not (is_slash c) && (ascii_lower c == c && is_plain cs))

is_plain-IsPlain : (s : Text) → is_plain s ≡ true → IsPlain s
is_plain-IsPlain [] h = tt
is_plain-IsPlain (c ∷ cs) h =
    ((ground arith, ground arith, ground arith), is_plain-IsPlain cs (ground arith))

alphabet-IsPlain : IsPlain room_alphabet
unfolding is_whitespace ascii_lower
alphabet-IsPlain = is_plain-IsPlain room_alphabet refl

contains-IsLetter : (s : Text) (c : ℕ) → IsPlain s → contains s c ≡ true → IsLetter c
unfolding contains
contains-IsLetter [] c plain h = ground arith
contains-IsLetter (x ∷ xs) c plain h = elim (Bool-cases (x == c)) [
  | inl e ↦ (let same : x ≡ c = ground arith in subst IsLetter same plain.0)
  | inr e ↦ contains-IsLetter xs c plain.1 (ground arith)
]

drawn-IsPlain : (s : Text) → All (λ c. contains room_alphabet c ≡ true) s → IsPlain s
drawn-IsPlain [] h = tt
drawn-IsPlain (c ∷ cs) h =
    (contains-IsLetter room_alphabet c alphabet-IsPlain h.0, drawn-IsPlain cs h.1)

-- What nanoid's documentation says: as many symbols as asked for, each from the alphabet.
abbrev pub Draws : (ℕ → List ℕ → Text) → Type 0
Draws nanoid =
    (length (nanoid 6 room_alphabet) ≡ 6)
    × All (λ c. contains room_alphabet c ≡ true) (nanoid 6 room_alphabet)

-- A code has letters, and each is one that the page neither trims nor changes.
pub gen_room_id-IsPlain :
    (nanoid : ℕ → List ℕ → Text)
    → Draws nanoid
    → (c : ℕ) × (cs : Text) × (gen_room_id nanoid ≡ c ∷ cs) × IsPlain (c ∷ cs)
unfolding gen_room_id
gen_room_id-IsPlain nanoid draws = go (nanoid 6 room_alphabet) draws.0 draws.1
  where
    go :
        (s : Text)
        → length s ≡ 6
        → All (λ c. contains room_alphabet c ≡ true) s
        → (c : ℕ) × (cs : Text) × (s ≡ c ∷ cs) × IsPlain (c ∷ cs)
    go [] long drawn = absurd (omega arith)
    go (c ∷ cs) long drawn = (c, cs, refl, drawn-IsPlain (c ∷ cs) drawn)
