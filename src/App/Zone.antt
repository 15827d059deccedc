-- ===== src/App/Zone.antt =====
-- crates/client/src/app.rs: the area that files are dropped on, and the files that a drop or a
-- choice hands over.
use file_send.Prelude.{
  ltb, if◌then◌else◌, Text, text, nat_key, text_key, ℕ, zero, suc, ◌+◌, ◌-◌, ◌%◌, ◌^◌, Bool, ◌&&◌,
  Option, none, some, List, [], ◌∷◌,
}
use file_send.Float.{F64}
use file_send.Wire.{Json}
use file_send.Protocol.{Control}
use file_send.Transfer.{File, Effect}
use file_send.App.{Page, on_files}

-- `drag_depth` is an `i32` in two's complement.
abbrev is_positive : ℕ → Bool
is_positive depth = ltb 0 depth && ltb depth (2 ^ 31)

pub data Drag : Type 0 where
  dragenter : Drag
  dragleave : Drag
  drop : Drag

unfoldable pub drag_depth : ℕ → Drag → ℕ
drag_depth depth dragenter = (depth + 1) % 2 ^ 32
drag_depth depth dragleave = if is_positive depth then depth - 1 else depth
drag_depth depth drop = 0

unfoldable pub drop_class : ℕ → Text
drop_class depth = if is_positive depth then text "drop active" else text "drop"

-- The browser's `FileList`.
pub record FileList (F : Type 0) : Type 0 where
  pub length : ℕ
  pub item : ℕ → Option (File F)

module _ {F : Type 0} where
  -- The loop from `i` over the `left` items that remain.
  unfoldable pub collect : FileList F → ℕ → ℕ → List (File F)
  collect list i zero = []
  collect list i (suc left) =
      let rest = collect list (i + 1) left in elim (list.item i) [ some f ↦ f ∷ rest | none ↦ rest ]

  unfoldable pub files_of : Option (FileList F) → List (File F)
  unfolding collect
  files_of none = []
  files_of (some list) = collect list 0 list.length

module _ {F : Type 0} ⦃f64 : F64 F⦄ (json : Json (Control F)) where
  -- `transferred` is the event's data transfer and its files.
  unfoldable pub on_drop : Page F → ℕ → Option (Option (FileList F)) → ℕ × Page F × List (Effect F)
  unfolding drag_depth files_of
  on_drop p depth transferred =
      let files : List (File F) = elim transferred [ some list ↦ files_of list | none ↦ [] ] in
      let (after, effects) = on_files json p files in (drag_depth depth drop, after, effects)

  -- The new value of the input, which is cleared, and what the files do.
  unfoldable pub on_input_change : Page F → Option (FileList F) → Text × Page F × List (Effect F)
  unfolding files_of
  on_input_change p list =
      let (after, effects) = on_files json p (files_of list) in ([], after, effects)
