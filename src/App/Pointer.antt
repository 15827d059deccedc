-- ===== src/App/Pointer.antt =====
-- The mark of the drop area of app.rs follows the pointer.
use file_send.Prelude.{
  ◌==◌, if◌then◌else◌, text, nat_key, text_key, ℕ, ◌≡◌, refl, ap, ◌∙◌, Bool, true, false,
  Bool-cases, inl, inr, Option, none, some, List, [], ◌∷◌, arith,
}
use file_send.App.Zone.{Drag, dragenter, dragleave, drop, drag_depth, drop_class}

-- What a pointer that drags files does: it moves to an element of the area, leaves the area, or
-- lets the files go.
pub data Move : Type 0 where
  over : ℕ → Move
  out : Move
  release : Move

-- The element of the area that is under the pointer afterwards.
abbrev pub place : Option ℕ → Move → Option ℕ
place at (over b) = some b
place at out = none
place at release = none

-- The events that the browser sends to the area, which bubble up from its elements: the element
-- that is entered is told before the one that is left.
abbrev pub events : Option ℕ → Move → List Drag
events none (over b) = dragenter ∷ []
events (some a) (over b) = if a == b then [] else dragenter ∷ dragleave ∷ []
events none out = []
events (some a) out = dragleave ∷ []
events none release = []
events (some a) release = drop ∷ []

pub depth_after : ℕ → List Drag → ℕ
depth_after depth [] = depth
depth_after depth (e ∷ es) = depth_after (drag_depth depth e) es

abbrev pub inside : Option ℕ → Bool
inside (some a) = true
inside none = false

-- Where the pointer is after its moves, and the depth.
pub moved : ℕ → Option ℕ → List Move → ℕ × Option ℕ
moved depth at [] = (depth, at)
moved depth at (m ∷ ms) = moved (depth_after depth (events at m)) (place at m) ms

-- The depth that belongs to a place.
abbrev depth_at : Option ℕ → ℕ
depth_at at = if inside at then 1 else 0

move-depth :
    (at : Option ℕ) (m : Move) → depth_after (depth_at at) (events at m) ≡ depth_at (place at m)
unfolding depth_after drag_depth
move-depth none (over b) = refl
move-depth (some a) (over b) = elim (Bool-cases (a == b)) [ inl e ↦ rw e refl | inr e ↦ rw e refl ]
move-depth none out = refl
move-depth (some a) out = refl
move-depth none release = refl
move-depth (some a) release = refl

moved-depth :
    (depth : ℕ) (at : Option ℕ) (ms : List Move)
    → depth ≡ depth_at at
    → (moved depth at ms).0 ≡ depth_at (moved depth at ms).1
unfolding moved
moved-depth depth at [] h = h
moved-depth depth at (m ∷ ms) h =
    moved-depth (depth_after depth (events at m)) (place at m) ms
      (ap (λ d. depth_after d (events at m)) h ∙ move-depth at m)

-- After any moves of the pointer, which begin outside, the area is marked as the target exactly
-- while the pointer is over it.
pub drop_class-inside :
    (ms : List Move)
    → let (depth, at) = moved 0 none ms in
      drop_class depth ≡ (if inside at then text "drop active" else text "drop")
unfolding drop_class
drop_class-inside ms = ground (arith, moved-depth 0 none ms refl)
